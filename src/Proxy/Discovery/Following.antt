-- ===== src/Proxy/Discovery/Following.antt =====
-- The service discovery of sonya-proxy/src/service_discovery/mod.rs with the registry of
-- sonya-proxy/src/registry.rs, and the streams of sonya-proxy/src/websocket_proxy_client.rs that look
-- an address up first and subscribe to updates later.
use web_queue.Common.{
  ℕ, Bytes, List, [], ◌∷◌, false, Option, none, some, unwrap_or, ◌≡◌, refl, ap, ◌∙◌, arith, max,
  length, if◌then◌else◌,
}
use web_queue.Proxy.Registry.{
  Maglev, IsMaglev, new_registry, get_all_addresses, all_when, update_registry,
}
use web_queue.Proxy.Discovery.{
  ServiceDiscoveryActor, update, started, finished, subscribe, poll, ready, pending,
}
use web_queue.Proxy.Discovery.Updates.{
  Event, updated, ended, polled, step, run, has_update, IsOpen, run-IsOpen, subscribe-ready,
}

-- The last list among the events.
unfoldable pub last_list : {RegistryList : Type 0} → List (Event RegistryList) → Option RegistryList
last_list [] = none
last_list (updated r ∷ es) = some (unwrap_or (last_list es) r)
last_list (e ∷ es) = last_list es

no_update_sent :
    {RegistryList : Type 0} (es : List (Event RegistryList))
    (a : ServiceDiscoveryActor RegistryList)
    → has_update es ≡ false
    → (run es a).sent ≡ a.sent
unfolding run has_update step finished started poll
no_update_sent [] a h = refl
no_update_sent (updated r ∷ es) a h = absurd (ground arith)
no_update_sent (ended ∷ es) a h = no_update_sent es (step ended a) h ∙ ground arith
no_update_sent (polled k f ∷ es) a h = no_update_sent es (step (polled k f) a) h ∙ ground arith

module _ {M : Type 0} (m : Maglev M) (first : List Bytes) where
  -- The registry, started with the first shards, once it has handled the lists sent to it, which are
  -- here last first, in the order in which they were sent. The code sends them without waiting to a
  -- pool of workers, so two lists that are on their way together may be handled the other way round.
  unfoldable pub handled : List (List Bytes) → M
  handled [] = new_registry m first
  handled (r ∷ older) = update_registry m r (handled older)

  abbrev pub registry_at : ServiceDiscoveryActor (List Bytes) → M
  registry_at a = handled a.sent

  module _ (law : IsMaglev m) where
    nodes_run :
        (es : List (Event (List Bytes))) (a : ServiceDiscoveryActor (List Bytes))
        → m.nodes (registry_at (run es a)) ≡ unwrap_or (last_list es) (m.nodes (registry_at a))
    unfolding run last_list
    nodes_run [] a = refl
    nodes_run (updated r ∷ es) a =
        nodes_run es (step (updated r) a)
        ∙ ap (unwrap_or (last_list es)) (
            unfold step update handled update_registry in
            law.nodes-with_capacity r (max (m.capacity (registry_at a)) (length r)))
    nodes_run (ended ∷ es) a =
        nodes_run es (step ended a)
        ∙ ap (λ l. unwrap_or (last_list es) (m.nodes (handled l)))
            (unfold step finished started in ground arith)
    nodes_run (polled k f ∷ es) a =
        nodes_run es (step (polled k f) a)
        ∙ ap (λ l. unwrap_or (last_list es) (m.nodes (handled l)))
            (unfold step poll in ground arith)

    -- An update that comes between the look at the registry and the subscription is lost: the stream
    -- is told to wait, whatever address it looked up, until there is another update, though the
    -- registry has the shards of the last update, once it has handled what was sent, in this order.
    pub pending-missed_update :
        (a : ServiceDiscoveryActor (List Bytes)) (between after : List (Event (List Bytes)))
        (waker : ℕ) (r : List Bytes)
        → IsOpen a
        → last_list between ≡ some r
        → has_update after ≡ false
        → ((poll waker (subscribe (run between a)) (run after (run between a))).0 ≡ pending)
          × (get_all_addresses m (registry_at (run after (run between a))) ≡ all_when m r)
    unfolding get_all_addresses
    pending-missed_update a between after waker r open_one missed quiet = (
      subscribe-ready (run between a) after waker (run-IsOpen between a open_one)
          ∙ ap (λ b. if b then ready tt else pending) quiet,
      ap (λ l. all_when m (m.nodes (handled l))) (no_update_sent after (run between a) quiet)
          ∙ ap (all_when m)
              (nodes_run between a ∙ ap (λ o. unwrap_or o (m.nodes (registry_at a))) missed),
    )
