-- ===== src/Proxy/Shards/Answers.antt =====
-- What the proxy answers for its shards.
use web_queue.Common.{
  ℕ, Bytes, codes, same, List, [], ◌∷◌, ◌++◌, Bool, true, false, Option, none, some, Result, ok,
  err, if◌then◌else◌, ◌≡◌, refl, arith,
}
use web_queue.Common.Map
use web_queue.Common.Map.{Map, get-insert}
use web_queue.Api.{and_then}
use web_queue.Server.Http.{gone}
use web_queue.Proxy.Shards.{
  ShardResponse, collect_all, base_diagonal_proxy, WebSocketConfig, create_ws_header_map,
  ws_headers, with_authorization,
}

module _ {A : Type 0} where
  -- Whether every shard answered, with whatever status.
  abbrev pub all_answered : List (Result Bytes A) → Bool
  all_answered [] = true
  all_answered (ok a ∷ rs) = all_answered rs
  all_answered (err e ∷ rs) = false

  -- Creating, deleting and closing through the proxy succeeds exactly when every shard sent a response
  -- at all: a shard that could not be reached makes it fail with "gone", and no shard's own status or
  -- answer is looked at.
  pub base_diagonal_proxy_lem :
      (answers : List (Result Bytes A))
      → base_diagonal_proxy answers ≡ (
          if all_answered answers
          then ok (record { success = true })
          else err (gone (codes "One of shards is not responding")))
  unfolding base_diagonal_proxy collect_all
  base_diagonal_proxy_lem [] = refl
  base_diagonal_proxy_lem (ok a ∷ rs) = ground (arith, base_diagonal_proxy_lem rs)
  base_diagonal_proxy_lem (err e ∷ rs) = refl

-- A later response: any status and body, and the values in it.
abbrev pub Later : Type 0 → Type 0
Later Value = ℕ × Result Bytes Bytes × List Value

module _ {Value : Type 0} where
  abbrev pub in_time : Later Value → Option (Result Bytes (ShardResponse Value))
  in_time (status, body, vs) = some (ok (record { status = status; body = body; json = ok vs }))

  abbrev pub all_values : List (Later Value) → List Value
  all_values [] = []
  all_values ((status, body, vs) ∷ ls) = vs ++ all_values ls

  abbrev pub unread_json : Result Bytes (List Value) → Option Bytes
  unread_json (ok vs) = none
  unread_json (err e) = some e

  -- The error of a further answer whose shard was not reached or whose body is no list of values.
  abbrev pub unread : Result Bytes (ShardResponse Value) → Option Bytes
  unread (err e) = some e
  unread (ok later) = unread_json later.json

-- With a valid version and key, the upgrade request carries them, asks for a websocket, and has the
-- client's authorization exactly where the client sent one.
pub create_ws_header_map_lem :
    (from_str : Bytes → Option Bytes) (config : WebSocketConfig) (authorization : Option Bytes)
    (version key : Bytes)
    → from_str config.version ≡ some version
    → from_str config.key ≡ some key
    → let m = with_authorization authorization (ws_headers version key) in
      (create_ws_header_map from_str config authorization ≡ some m)
      × (Map.get (codes "authorization") m ≡ authorization)
      × (Map.get (codes "connection") m ≡ some (codes "Upgrade"))
      × (Map.get (codes "upgrade") m ≡ some (codes "websocket"))
      × (Map.get (codes "sec-websocket-version") m ≡ some version)
      × (Map.get (codes "sec-websocket-key") m ≡ some key)
unfolding create_ws_header_map and_then Map.get Map.insert Map.remove same
create_ws_header_map_lem from_str config none version key e f =
    (rw (e, f) refl, refl, refl, refl, refl, refl)
create_ws_header_map_lem from_str config (some token) version key e f =
    (rw (e, f) refl, refl, refl, refl, refl, refl)
