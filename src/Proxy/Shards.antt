-- ===== src/Proxy/Shards.antt =====
-- The handlers of sonya-proxy/src/main.rs that ask the shards: what their answers become. The client
-- (awc) is a parameter: its answers come in the order in which they complete.
pub mod Answers
use web_queue.Common.{
  ℕ, Bytes, codes, List, [], ◌∷◌, ◌++◌, Bool, true, false, ◌&&◌, leb, ltb, Option, none, some,
  Result, ok, err, if◌then◌else◌, map,
}
use web_queue.Common.Map
use web_queue.Common.Map.{Map}
use web_queue.Api.{and_then}
use web_queue.Server.Http.{BaseQueueResponse, HttpError, gone}

-- A response of a shard: its status, its body, and its body read as a list of values, each where
-- it can be read.
pub record ShardResponse (Value : Type 0) : Type 0 where
  pub status : ℕ
  pub body : Result Bytes Bytes
  pub json : Result Bytes (List Value)

pub data ProxyResponse (Value : Type 0) : Type 0 where
  relayed : ℕ → Bytes → ProxyResponse Value
  values_json : List Value → ProxyResponse Value

abbrev pub is_success : ℕ → Bool
is_success status = leb 200 status && ltb status 300

module _ {Value : Type 0} where
  -- `HttpResponse::build(response.status()).body(b)`
  abbrev relay : ℕ → Result Bytes Bytes → Result HttpError (ProxyResponse Value)
  relay status (ok b) = ok (relayed status b)
  relay status (err e) = err (gone e)

  abbrev pub with_body :
      Result Bytes (List Value)
      → (List Value → Result HttpError (ProxyResponse Value))
      → Result HttpError (ProxyResponse Value)
  with_body (ok body) f = f body
  with_body (err e) f = err (gone e)

  -- The loop of `subscribe_queue_longpoll`: `none` is a second without another answer; the status
  -- that it looks at is that of the first response.
  unfoldable pub more_answers :
      ShardResponse Value
      → List Value
      → List (Option (Result Bytes (ShardResponse Value)))
      → Result HttpError (ProxyResponse Value)
  more_answers response results [] = ok (values_json results)
  more_answers response results (none ∷ rest) = ok (values_json results)
  more_answers response results (some (err e) ∷ rest) =
      if is_success response.status then err (gone e) else relay response.status response.body
  more_answers response results (some (ok later) ∷ rest) =
      if is_success response.status
      then with_body later.json (λ body. more_answers response (results ++ body) rest)
      else relay response.status response.body

  -- `subscribe_queue_longpoll`: the first answer, waited for, and then the others
  unfoldable pub subscribe_queue_longpoll :
      Result Bytes (ShardResponse Value)
      → List (Option (Result Bytes (ShardResponse Value)))
      → Result HttpError (ProxyResponse Value)
  subscribe_queue_longpoll (err e) rest = err (gone e)
  subscribe_queue_longpoll (ok response) rest =
      if is_success response.status
      then with_body response.json (λ body. more_answers response body rest)
      else relay response.status response.body

-- A shard's response that is passed on whole.
pub record Reply : Type 0 where
  pub status : ℕ
  pub headers : List (Bytes × Bytes)
  pub body : Result Bytes Bytes

pub record Forwarded : Type 0 where
  pub status : ℕ
  pub headers : List (Bytes × Bytes)
  pub body : Bytes

-- `subscribe_queue_by_id_longpoll`, at the answer of the one shard of the queue and the id
unfoldable pub subscribe_queue_by_id_longpoll : Result Bytes Reply → Result HttpError Forwarded
subscribe_queue_by_id_longpoll (err e) = err (gone e)
subscribe_queue_by_id_longpoll (ok r) = elim r.body [
  | ok b ↦ ok (record { status = r.status; headers = r.headers; body = b })
  | err e ↦ err (gone e)
]

-- `prepare_path`
unfoldable pub prepare_path : Bytes → Option Bytes → Bytes
prepare_path path none = path
prepare_path path (some p) = p

module _ {A : Type 0} where
  -- `collect` of results: the values, or the first error
  unfoldable pub collect_all : List (Result Bytes A) → Result Bytes (List A)
  collect_all [] = ok []
  collect_all (err e ∷ rs) = err e
  collect_all (ok a ∷ rs) = elim (collect_all rs) [ ok l ↦ ok (a ∷ l) | err e ↦ err e ]

  abbrev replied : Result Bytes (List A) → Result HttpError BaseQueueResponse
  replied (ok l) = ok (record { success = true })
  replied (err e) = err (gone (codes "One of shards is not responding"))

  -- `base_diagonal_proxy`, which creates, deletes and closes on every shard
  unfoldable pub base_diagonal_proxy : List (Result Bytes A) → Result HttpError BaseQueueResponse
  base_diagonal_proxy answers = replied (collect_all answers)

-- The configuration of the upgrade request: `config.websocket`.
pub record WebSocketConfig : Type 0 where
  pub version : Bytes
  pub key : Bytes

abbrev pub ws_headers : Bytes → Bytes → Map Bytes
ws_headers version key = Map.insert (codes "sec-websocket-key") key (
    Map.insert (codes "sec-websocket-version") version (
      Map.insert (codes "upgrade") (codes "websocket")
        (Map.insert (codes "connection") (codes "Upgrade") [])))

abbrev pub with_authorization : Option Bytes → Map Bytes → Map Bytes
with_authorization none headers = headers
with_authorization (some token) headers = Map.insert (codes "authorization") token headers

-- `create_ws_header_map`, where `from_str` is `HeaderValue::from_str`; `none` is the panic of `expect`
unfoldable pub create_ws_header_map :
    (Bytes → Option Bytes) → WebSocketConfig → Option Bytes → Option (Map Bytes)
create_ws_header_map from_str config authorization = and_then (from_str config.version) λ version.
    and_then (from_str config.key)
      λ key. some (with_authorization authorization (ws_headers version key))
