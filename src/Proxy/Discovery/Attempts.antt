-- ===== src/Proxy/Discovery/Attempts.antt =====
-- How often the stream of shards is started again.
use web_queue.Common.{ℕ, zero, suc, ◌+◌, ◌≤◌, ◌≡◌, refl, arith, length}
use web_queue.Proxy.Discovery.{ServiceDiscoveryActor, finished, started}

module _ {RegistryList : Type 0} where
  -- The stream ends so many times, with no list in between.
  unfoldable pub finished_times :
      ℕ → ServiceDiscoveryActor RegistryList → ServiceDiscoveryActor RegistryList
  finished_times zero a = a
  finished_times (suc n) a = finished (finished_times n a)

  -- However often the stream of shards ends without bringing a list, from at most 10 attempts the
  -- counter stays at most 10, and it grows by one with each new stream, so that at most 10 of them
  -- are started.
  pub finished-bounded :
      (n : ℕ) (a : ServiceDiscoveryActor RegistryList)
      → a.attempts ≤ 10
      → ((finished_times n a).attempts ≤ 10)
        × (length (finished_times n a).streams + a.attempts
            ≡ length a.streams + (finished_times n a).attempts)
  unfolding finished_times finished started
  finished-bounded zero a h = (h, refl)
  finished-bounded (suc n) a h = ground (arith, finished-bounded n a h)
