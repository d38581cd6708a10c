-- ===== src/Proxy/Client/Aggregator.antt =====
-- `ConnectionsAggregator` of sonya-proxy/src/websocket_proxy_client.rs: the connections to all shards
-- as one stream. How one connection is polled is a parameter.
use web_queue.Common.{List, [], ◌∷◌, ◌++◌, map, Option, ◌≡◌, refl, ap, ◌∙◌}
use web_queue.Proxy.Discovery.{Poll, ready, pending}

module _ {S O : Type 0} (poll : S → Poll (Option O) × S) where
  abbrev first_of :
      Poll (Option O) × S → Poll (Option O) × List S → List S → Poll (Option O) × List S
  first_of (ready x, s') rest streams = (ready x, s' ∷ streams)
  first_of (pending, s') rest streams = (rest.0, s' ∷ rest.1)

  -- `poll_next`: the first connection that has something, or has ended, answers for all
  unfoldable pub poll_next : List S → Poll (Option O) × List S
  poll_next [] = (pending, [])
  poll_next (s ∷ streams) = first_of (poll s) (poll_next streams) streams

  -- Every one of these connections has nothing yet.
  pub data AllPending : List S → Type 0 where
    none_left : AllPending []
    waits : {s : S} {l : List S} → (poll s).0 ≡ pending → AllPending l → AllPending (s ∷ l)

  abbrev pub polled : S → S
  polled s = (poll s).1

  -- The aggregate waits where all connections wait, and then has polled each of them; else the first
  -- one that does not wait answers, with a frame or with its end, and those behind it are not polled.
  pub poll_next_lem :
      (before : List S)
      → AllPending before
      → (poll_next before ≡ (pending, map polled before))
        × ((s : S) (after : List S) (x : Option O)
            → (poll s).0 ≡ ready x
            → poll_next (before ++ s ∷ after) ≡ (ready x, map polled before ++ polled s ∷ after))
  unfolding poll_next
  poll_next_lem [] none_left =
      (refl, λ s after x e. ap (λ r. first_of (r, polled s) (poll_next after) after) e)
  poll_next_lem (t ∷ before) (waits w h) =
      let (all, first) = poll_next_lem before h in
      (
        ap (λ r. first_of (r, polled t) (poll_next before) before) w
            ∙ ap (λ r. (r.0, polled t ∷ r.1)) all,
        λ s after x e.
            let l = before ++ s ∷ after in
            ap (λ r. first_of (r, polled t) (poll_next l) l) w
            ∙ ap (λ r. (r.0, polled t ∷ r.1)) (first s after x e),
      )
