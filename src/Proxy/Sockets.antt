-- ===== src/Proxy/Sockets.antt =====
-- The websocket routes of sonya-proxy/src/main.rs: how a client's request finds the actor that
-- listens for it. Starting an actor, its mailbox and the parser of the query are parameters.
use web_queue.Common.{ℕ, Bytes, List, Bool, Option, none, some, unwrap_or}
use web_queue.Common.Map.{Map}
use web_queue.Message.{RequestSequence}
use web_queue.Api.{RequestHead, and_then}
use web_queue.Proxy.Shards.{WebSocketConfig, create_ws_header_map}
use web_queue.Proxy.Client.Storage.{WebSocketProxyClientsStorageKey, get_addr}

pub record SequenceQuery : Type 0 where
  pub sequence : RequestSequence
  pub access_token : Option Bytes

-- `Default`
abbrev pub no_query : SequenceQuery
no_query = record { sequence = none; access_token = none }

-- The fields that `WebSocketProxyClient::new` gets.
pub record ClientOptions : Type 0 where
  pub headers : Map Bytes
  pub queue_name : Bytes
  pub id : Option Bytes
  pub garbage_interval : ℕ
  pub access_token : Option Bytes
  pub sequence : RequestSequence

-- What the routes use of the other parts: new actors, whether an actor's mailbox is open, its answer
-- to `Subscribe`, the text of a header and the query.
pub record Actors (Addr Receiver HeaderValue : Type 0) : Type 0 where
  pub new : ClientOptions → Addr
  pub connected : Addr → Bool
  pub send_subscribe : Addr → Option Receiver
  pub from_str : Bytes → Option Bytes
  pub header_bytes : HeaderValue → Bytes
  pub sequence_query : Bytes → Option SequenceQuery

abbrev pub Storage : Type 0 → Type 0
Storage Addr = List (WebSocketProxyClientsStorageKey × Addr)

-- The configuration that the routes read.
pub record SocketConfig : Type 0 where
  pub websocket : WebSocketConfig
  pub garbage_interval : ℕ

module _ {Addr Receiver HeaderValue : Type 0} (actors : Actors Addr Receiver HeaderValue) where
  unfoldable pub get_sequence_from_req : RequestHead HeaderValue → SequenceQuery
  get_sequence_from_req head = unwrap_or (and_then head.query actors.sequence_query) no_query

  -- `WebSocketProxyClientsStorage::subscribe`
  unfoldable pub storage_subscribe : ClientOptions → Storage Addr → Option Receiver × Storage Addr
  storage_subscribe o storage =
      let (addr, storage') =
        get_addr actors.connected (record { queue_name = o.queue_name; id = o.id }) o.sequence
          (actors.new o) storage in
      (actors.send_subscribe addr, storage')

  abbrev authorization_of : RequestHead HeaderValue → Option Bytes
  authorization_of head = and_then head.authorization λ v. some (actors.header_bytes v)

  -- `create_receiver`; a panic is `none` and leaves the storage as it is
  unfoldable pub create_receiver :
      Bytes
      → Option Bytes
      → SocketConfig
      → RequestHead HeaderValue
      → SequenceQuery
      → Storage Addr
      → Option (Option Receiver) × Storage Addr
  create_receiver queue_name id config head query storage =
      elim (create_ws_header_map actors.from_str config.websocket (authorization_of head)) [
        | none ↦ (none, storage)
        | some headers ↦
            let (receiver, storage') =
              storage_subscribe
                (record {
                  headers = headers;
                  queue_name = queue_name;
                  id = id;
                  garbage_interval = config.garbage_interval;
                  access_token = query.access_token;
                  sequence = query.sequence;
                })
                storage in
            (some receiver, storage')
      ]

  -- The receiver with which `WebSocketProxyActor::new` is called, and the address of the client.
  abbrev proxy_actor :
      {Ip : Type 0}
      → Option Ip
      → Option (Option Receiver) × Storage Addr
      → Option (Option Receiver × Ip) × Storage Addr
  proxy_actor peer (r, storage) =
      (and_then r λ receiver. and_then peer λ ip. some (receiver, ip), storage)

  unfoldable pub subscribe_queue_by_id_ws :
      {Ip : Type 0}
      → Bytes
      → Bytes
      → SocketConfig
      → RequestHead HeaderValue
      → Option Ip
      → Storage Addr
      → Option (Option Receiver × Ip) × Storage Addr
  subscribe_queue_by_id_ws queue_name id config head peer storage =
      proxy_actor peer
        (create_receiver queue_name (some id) config head (get_sequence_from_req head) storage)

  unfoldable pub subscribe_queue_ws :
      {Ip : Type 0}
      → Bytes
      → SocketConfig
      → RequestHead HeaderValue
      → Option Ip
      → Storage Addr
      → Option (Option Receiver × Ip) × Storage Addr
  subscribe_queue_ws queue_name config head peer storage =
      proxy_actor peer
        (create_receiver queue_name none config head (get_sequence_from_req head) storage)
