-- ===== src/Proxy/Client/Storage/Keys.antt =====
-- The keys of `WebSocketProxyClientsStorage` (sonya-proxy/src/websocket_proxy_client.rs), and what a
-- storage holds at them after an insertion.
use web_queue.Common.{
  Bytes, List, [], ◌∷◌, Bool, true, false, Option, none, some, if◌then◌else◌, ◌≡◌, inl, inr, refl,
  ap, arith, keep, same_iff, Bool-cases,
}
use web_queue.Api.{filter}
use web_queue.Proxy.Client.Storage.{
  WebSocketProxyClientsStorageKey, same_id, same_key, find, insert, same_key_refl,
}

-- Equal keys.
same_id_eq : (i j : Option Bytes) → same_id i j ≡ true → i ≡ j
same_id_eq none none h = refl
same_id_eq (some i) (some j) h = ap some ((same_iff i j).0 h)
same_id_eq none (some j) h = cc
same_id_eq (some i) none h = cc

pub same_key_eq : (k j : WebSocketProxyClientsStorageKey) → same_key k j ≡ true → k ≡ j
unfolding same_key
same_key_eq k j h =
    let names : k.queue_name ≡ j.queue_name =
      (same_iff k.queue_name j.queue_name).0 (ground (arith, h)) in
    let ids : k.id ≡ j.id = same_id_eq k.id j.id (ground (arith, h)) in
    λ t. record { queue_name = names t; id = ids t }

module _ {Addr : Type 0} where
  pub find-insert_same :
      (k : WebSocketProxyClientsStorageKey) (a : Addr)
      (m : List (WebSocketProxyClientsStorageKey × Addr))
      → find k (insert k a m) ≡ some a
  unfolding find insert
  find-insert_same k a m = rw (same_key_refl k) refl

  find-keep_other :
      (j k : WebSocketProxyClientsStorageKey) (m : List (WebSocketProxyClientsStorageKey × Addr))
      → same_key k j ≡ false
      → find k (keep (λ e. if same_key j e.0 then false else true) m) ≡ find k m
  unfolding find
  find-keep_other j k [] h = refl
  find-keep_other j k ((l, b) ∷ m) h = elim (Bool-cases (same_key j l)) [
    | inl e ↦
        let other : same_key k l ≡ false = rw (← same_key_eq j l e) h in
        rw (e, other) (find-keep_other j k m h)
    | inr e ↦ rw (e, find-keep_other j k m h) refl
  ]

  pub find-insert_other :
      (j k : WebSocketProxyClientsStorageKey) (a : Addr)
      (m : List (WebSocketProxyClientsStorageKey × Addr))
      → same_key k j ≡ false
      → find k (insert j a m) ≡ find k m
  unfolding find insert
  find-insert_other j k a m h = rw h (find-keep_other j k m h)

  pub found_running :
      (f : Addr → Bool) (o : Option Addr) (a : Addr) → o ≡ some a → f a ≡ true → filter f o ≡ some a
  unfolding filter
  found_running f o a e h = rw (e, h) refl
