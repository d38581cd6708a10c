-- ===== src/Proxy/Client/Storage.antt =====
-- `WebSocketProxyClientsStorage` of sonya-proxy/src/websocket_proxy_client.rs: the running actors by
-- queue and id. Whether an actor's mailbox is still open (`Addr::connected`) is a parameter.
pub mod Keys
use web_queue.Common.{
  Bytes, same, List, [], ◌∷◌, Bool, true, false, ◌&&◌, Option, none, some, if◌then◌else◌, ◌≡◌, refl,
  arith, same_refl, keep,
}
use web_queue.Message.{RequestSequence, RequestSequenceId}
use web_queue.Api.{filter}

-- `WebSocketProxyClientsStorageKey`
pub record WebSocketProxyClientsStorageKey : Type 0 where
  pub queue_name : Bytes
  pub id : Option Bytes

abbrev pub same_id : Option Bytes → Option Bytes → Bool
same_id none none = true
same_id (some i) (some j) = same i j
same_id none (some j) = false
same_id (some i) none = false

unfoldable pub same_key : WebSocketProxyClientsStorageKey → WebSocketProxyClientsStorageKey → Bool
same_key k j = same k.queue_name j.queue_name && same_id k.id j.id

same_id_refl : (i : Option Bytes) → same_id i i ≡ true
same_id_refl none = refl
same_id_refl (some i) = same_refl i

pub same_key_refl : (k : WebSocketProxyClientsStorageKey) → same_key k k ≡ true
unfolding same_key
same_key_refl k = ground (arith, same_refl k.queue_name, same_id_refl k.id)

module _ {Addr : Type 0} where
  unfoldable pub find :
      WebSocketProxyClientsStorageKey → List (WebSocketProxyClientsStorageKey × Addr) → Option Addr
  find k [] = none
  find k ((j, a) ∷ rest) = if same_key k j then some a else find k rest

  -- `HashMap::insert`
  unfoldable pub insert :
      WebSocketProxyClientsStorageKey
      → Addr
      → List (WebSocketProxyClientsStorageKey × Addr)
      → List (WebSocketProxyClientsStorageKey × Addr)
  insert k a m = (k, a) ∷ keep (λ e. if same_key k e.0 then false else true) m

  module _ (connected : Addr → Bool) where
    -- `get_addr`, where `started` is the actor that `WebSocketProxyClient::new` would start
    unfoldable pub get_addr :
        WebSocketProxyClientsStorageKey
        → RequestSequence
        → Addr
        → List (WebSocketProxyClientsStorageKey × Addr)
        → Addr × List (WebSocketProxyClientsStorageKey × Addr)
    get_addr key none started m = elim (filter connected (find key m)) [
      | some a ↦ (a, m)
      | none ↦ (started, insert key started m)
    ]
    get_addr key (some s) started m = (started, m)

    -- `clear`
    unfoldable pub clear :
        List (WebSocketProxyClientsStorageKey × Addr)
        → List (WebSocketProxyClientsStorageKey × Addr)
    clear m = keep (λ e. connected e.1) m

    -- Clients that ask for new messages only share one actor per key: while it runs, whoever asks next
    -- gets the same one and nothing is started or stored. One that asks for a sequence gets an actor of
    -- its own, which is not stored.
    get_addr-shared :
        (key : WebSocketProxyClientsStorageKey) (started other : Addr)
        (m : List (WebSocketProxyClientsStorageKey × Addr)) (s : RequestSequenceId)
        → let (a, m') = get_addr key none started m in
          connected a ≡ true
          → (get_addr key none other m' ≡ (a, m')) × (get_addr key (some s) other m' ≡ (other, m'))
    unfolding get_addr find insert filter
    get_addr-shared key started other m s h = (ground (arith, h, same_key_refl key), refl)

    pub find-clear-kept :
        (key : WebSocketProxyClientsStorageKey) (a : Addr)
        (m : List (WebSocketProxyClientsStorageKey × Addr))
        → find key m ≡ some a
        → connected a ≡ true
        → find key (clear m) ≡ some a
    unfolding find clear
    find-clear-kept key a [] h c = cc
    find-clear-kept key a ((j, b) ∷ m) h c = ground (arith, find-clear-kept key a m)

    find-clear-connected :
        (key : WebSocketProxyClientsStorageKey) (a : Addr)
        (m : List (WebSocketProxyClientsStorageKey × Addr))
        → find key (clear m) ≡ some a
        → connected a ≡ true
    unfolding find clear
    find-clear-connected key a [] h = cc
    find-clear-connected key a ((j, b) ∷ m) h = ground (arith, find-clear-connected key a m)

    -- Clearing the storage keeps each running actor under its key and leaves no other.
    clear_lem :
        (key : WebSocketProxyClientsStorageKey) (a : Addr)
        (m : List (WebSocketProxyClientsStorageKey × Addr))
        → (find key m ≡ some a → connected a ≡ true → find key (clear m) ≡ some a)
          × (find key (clear m) ≡ some a → connected a ≡ true)
    clear_lem key a m = (find-clear-kept key a m, find-clear-connected key a m)
