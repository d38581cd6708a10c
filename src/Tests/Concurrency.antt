-- ===== src/Tests/Concurrency.antt =====
-- Tasks, streams and updates of the proxy that run side by side, at concrete steps.
use web_queue.Common.{
  ℕ, suc, ok, Option, false, Bytes, same, List, [], ◌∷◌, none, some, ◌≡◌, ◌⊎◌, refl,
}
use web_queue.Api.{filter}
use web_queue.Proxy.Registry.{get_all_addresses, all_when}
use web_queue.Proxy.Discovery.{ServiceDiscoveryActor, new, poll, subscribe, Poll, ready, pending}
use web_queue.Proxy.Discovery.Updates.{Event, updated, ended, run, has_update, new-IsOpen}
use web_queue.Proxy.Discovery.Following.{last_list, registry_at, pending-missed_update}
use web_queue.Proxy.Discovery.Reloading.{
  ServiceDiscoveryReloadingStream, reloading_stream_factory, follow, expected, follow-expected,
}
use web_queue.Proxy.Client.Storage.{WebSocketProxyClientsStorageKey, find, clear, same_key}
use web_queue.Proxy.Client.Interleaving.{
  World, asking, set_task, got, Steps, here, next, clears, finds, Steps-shared, Steps-race,
}
use web_queue.Tests.Proxies.{news_key, stored, is_one, table, table-IsMaglev, two_shards}

-- All tasks are about the queue "news".
abbrev all_news : ℕ → WebSocketProxyClientsStorageKey
all_news i = news_key

abbrev served : World ℕ
served = record { storage = stored; connected = is_one; tasks = λ i. asking }

-- The first task has looked, and the collector has cleared.
abbrev looked : World ℕ
looked = record served { tasks = set_task 0 (got 1) served.tasks }

abbrev cleared : World ℕ
cleared = record looked { storage = clear is_one looked.storage }

looks : Steps all_news served cleared
unfolding find filter same_key same
looks = next (next here (finds served 0 1 refl refl)) (clears looked)

Steps-shared_example :
    (find news_key cleared.storage ≡ some 1)
    × ((i : ℕ) → news_key ≡ news_key → (cleared.tasks i ≡ asking) ⊎ (cleared.tasks i ≡ got 1))
unfolding find same_key same
Steps-shared_example = Steps-shared all_news news_key 1 served cleared refl (λ i e h. cc) looks refl

abbrev unserved : World ℕ
unserved = record { storage = []; connected = is_one; tasks = λ i. asking }

Steps-race_example :
    (w' : World ℕ) × Steps all_news unserved w'
    × (w'.tasks 0 ≡ got 1)
    × (w'.tasks 1 ≡ got 2)
    × (find news_key w'.storage ≡ some 2)
    × (w'.connected ≡ is_one)
unfolding find filter
Steps-race_example = Steps-race all_news unserved 0 1 1 2 refl refl refl refl refl

abbrev actor : ServiceDiscoveryActor (List Bytes)
actor = new

pending-missed_update_example :
    ((poll 5
        (subscribe (run (updated two_shards ∷ []) actor))
        (run (ended ∷ []) (run (updated two_shards ∷ []) actor))).0
      ≡ pending)
    × (get_all_addresses table
          (registry_at table [] (run (ended ∷ []) (run (updated two_shards ∷ []) actor)))
        ≡ all_when table two_shards)
unfolding last_list has_update
pending-missed_update_example =
    pending-missed_update table [] table-IsMaglev actor (updated two_shards ∷ []) (ended ∷ []) 5
      two_shards new-IsOpen refl refl

-- A stream of numbers, each ready at once.
abbrev numbers : ℕ → Poll (Option ℕ) × ℕ
numbers n = (ready (some n), suc n)

abbrev polls : List (List (Event (List Bytes)))
polls = [] ∷ (ended ∷ []) ∷ (updated two_shards ∷ []) ∷ [] ∷ []

follow-expected_example :
    (this : ServiceDiscoveryReloadingStream ℕ) × (reloading_stream_factory {MailboxError = Unit} 7
        (ok (subscribe actor))
      ≡ some this)
    × (follow numbers 5 polls this actor ≡ expected numbers 5 polls false 7)
follow-expected_example = follow-expected 5 actor new-IsOpen numbers Unit 7 polls

-- Two numbers, and then the end.
two_and_over :
    expected numbers 5 polls false 7
    ≡ ready (some 7) ∷ ready (some 8) ∷ ready none ∷ ready none ∷ []
unfolding expected has_update
two_and_over = refl
