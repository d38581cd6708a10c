-- ===== src/Proxy/Cluster.antt =====
-- The handlers of sonya-proxy/src/main.rs with the requests that they make: which shard is asked what.
-- The client (awc) with the network and the shards behind it is a parameter; a panic is `none`.
pub mod Seen
pub mod Transparent
pub mod EndToEnd
use web_queue.Common.{ℕ, Bytes, codes, List, [], ◌∷◌, Option, none, some, Result, ok, err}
use web_queue.Common.Map
use web_queue.Common.Map.{Map}
use web_queue.Message.{EventMessage}
use web_queue.Api.{and_then}
use web_queue.Server.Http.{BaseQueueResponse, HttpError, gone}
use web_queue.Proxy.Registry.{Maglev, get_address, get_all_addresses}
use web_queue.Proxy.Shards.{Reply, Forwarded, base_diagonal_proxy, prepare_path}
use web_queue.Proxy.Shards

-- `request_from(address + path, head)`, with a message as JSON where one is sent.
pub record ShardRequest (Head T : Type 0) : Type 0 where
  pub path : Bytes
  pub head : Head
  pub message : Option T

pub record Client (World Head T : Type 0) : Type 0 where
  -- one request to the shard at an address: its answer, or the error of the connection
  pub send : Bytes → ShardRequest Head T → World → Result Bytes Reply × World

-- A request as the proxy got it: its path, its path and query, where the URI has one, and its head.
pub record HttpRequest (Head : Type 0) : Type 0 where
  pub path : Bytes
  pub path_and_query : Option Bytes
  pub head : Head

-- A response that `send_to_queue` streams back.
pub record Streamed : Type 0 where
  pub status : ℕ
  pub headers : Map Bytes
  pub body : Result Bytes Bytes

-- `insert_header` for each header: a name's last value is the one that stays
unfoldable pub insert_headers : List (Bytes × Bytes) → Map Bytes → Map Bytes
insert_headers [] m = m
insert_headers ((key, value) ∷ rest) m = insert_headers rest (Map.insert key value m)

unfoldable pub streaming : Result Bytes Reply → Result HttpError Streamed
streaming (ok r) =
    ok (record { status = r.status; headers = insert_headers r.headers []; body = r.body })
streaming (err e) = err (gone (codes "One of shards is not responding"))

module _ {Head T : Type 0} where
  abbrev pub request_from : HttpRequest Head → Option T → ShardRequest Head T
  request_from req message = record {
    path = prepare_path req.path req.path_and_query;
    head = req.head;
    message = message;
  }

abbrev pub answered : {A B World : Type 0} → (A → B) → A × World → B × World
answered f p = (f p.0, p.1)

module _ {World Head Value M : Type 0} (client : Client World Head (EventMessage Value))
    (m : Maglev M) where
  unfoldable pub send_to_queue :
      M
      → Bytes
      → HttpRequest Head
      → EventMessage Value
      → World
      → Option (Result HttpError Streamed × World)
  send_to_queue registry queue_name req message w =
      and_then (get_address m queue_name message.id registry) λ address.
        some (answered streaming (client.send address (request_from req (some message)) w))

  unfoldable pub subscribe_queue_by_id_longpoll :
      M → Bytes → Bytes → HttpRequest Head → World → Option (Result HttpError Forwarded × World)
  subscribe_queue_by_id_longpoll registry queue_name id req w =
      and_then (get_address m queue_name id registry) λ address. some (
        answered Shards.subscribe_queue_by_id_longpoll
          (client.send address (request_from req none) w))

  -- `join_all` of one request to each address, made here one after the other
  unfoldable pub ask_all :
      List Bytes
      → ShardRequest Head (EventMessage Value)
      → World
      → List (Result Bytes Reply) × World
  ask_all [] r w = ([], w)
  ask_all (address ∷ addresses) r w =
      let (answer, w') = client.send address r w in
      let (answers, w'') = ask_all addresses r w' in (answer ∷ answers, w'')

  -- `create_queue`, `delete_from_queue` and `close_queue`, which are all `base_diagonal_proxy`
  unfoldable pub on_all_shards :
      M → HttpRequest Head → World → Option (Result HttpError BaseQueueResponse × World)
  on_all_shards registry req w = and_then (get_all_addresses m registry) λ addresses.
      (let (answers, w') = ask_all addresses (request_from req none) w in
        some (base_diagonal_proxy answers, w'))
