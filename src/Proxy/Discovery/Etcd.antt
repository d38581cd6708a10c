-- ===== src/Proxy/Discovery/Etcd.antt =====
-- sonya-proxy/src/service_discovery/etcd.rs and api.rs: the streams of shard lists. What etcd answers
-- (etcd_client), the test of UTF-8 and the order in which a `HashMap` gives its values are
-- parameters.
pub mod Expected
pub mod Yields
pub mod Registered
use web_queue.Common.{
  Bytes, List, [], ◌∷◌, ◌++◌, Bool, Option, none, some, Result, ok, err, if◌then◌else◌,
}
use web_queue.Common.Map
use web_queue.Common.Map.{Map}
use web_queue.Api.{and_then}

pub record KeyValue : Type 0 where
  pub key : Bytes
  pub value : Bytes

pub data EventType : Type 0 where
  put : EventType
  delete : EventType

pub data Event : Type 0 where
  event : EventType → Option KeyValue → Event

-- What `stream.message()` gives: a response, with whether it cancels the watch, the end, or an error.
pub data WatchMessage (Error : Type 0) : Type 0 where
  response : Bool → List Event → WatchMessage Error
  no_message : WatchMessage Error
  broken : Error → WatchMessage Error

-- How a stream stands when the messages are used up: still waiting for one, ended, or panicked.
pub data StreamEnd : Type 0 where
  waiting : StreamEnd
  ended : StreamEnd
  panicked : StreamEnd

abbrev pub ShardLists : Type 0
ShardLists = List (List Bytes)

abbrev pub resume :
    ShardLists × Option (Map Bytes) → (Map Bytes → ShardLists × StreamEnd) → ShardLists × StreamEnd
resume (lists, none) rest = (lists, panicked)
resume (lists, some m) rest = let (more, e) = rest m in (lists ++ more, e)

module _ (utf8 : Bytes → Bool) where
  -- `key_str` and `value_str` with their `expect`: `none` is the panic
  abbrev pub expect_str : Bytes → Option Bytes
  expect_str b = if utf8 b then some b else none

  abbrev pub changed : EventType → KeyValue → Map Bytes → Option (Map Bytes)
  changed put kv m =
      and_then (expect_str kv.key) λ k. and_then (expect_str kv.value) λ v. some (Map.insert k v m)
  changed delete kv m = and_then (expect_str kv.key) λ k. some (Map.remove k m)

  -- `collect` of the answer to `get`
  unfoldable pub collect_registry : List KeyValue → Map Bytes → Option (Map Bytes)
  collect_registry [] m = some m
  collect_registry (kv ∷ kvs) m = and_then (changed put kv m) (collect_registry kvs)

  module _ (values : Map Bytes → List Bytes) where
    abbrev pub yielding :
        Option (Map Bytes)
        → (Map Bytes → ShardLists × Option (Map Bytes))
        → ShardLists × Option (Map Bytes)
    yielding none rest = ([], none)
    yielding (some m) rest = let (lists, m') = rest m in (values m ∷ lists, m')

    -- the `for` loop over the events of a response
    unfoldable pub apply_events : List Event → Map Bytes → ShardLists × Option (Map Bytes)
    apply_events [] m = ([], some m)
    apply_events (event t none ∷ es) m = apply_events es m
    apply_events (event t (some kv) ∷ es) m = yielding (changed t kv m) (apply_events es)

    module _ {Error : Type 0} where
      -- the `while` loop over the messages
      unfoldable pub watch_loop : List (WatchMessage Error) → Map Bytes → ShardLists × StreamEnd
      watch_loop [] m = ([], waiting)
      watch_loop (no_message ∷ rest) m = ([], ended)
      watch_loop (broken e ∷ rest) m = ([], ended)
      watch_loop (response canceled events ∷ rest) m =
          let later = resume (apply_events events m) (watch_loop rest) in
          if canceled then ([], ended) else later

      abbrev pub watched :
          Option (Map Bytes)
          → Result Error (Unit {0})
          → List (WatchMessage Error)
          → ShardLists × StreamEnd
      watched none watch messages = ([], panicked)
      watched (some m) (err e) messages = ([], ended)
      watched (some m) (ok x) messages =
          let (lists, e) = watch_loop messages m in (values m ∷ lists, e)

      -- The stream of `etcd::factory`, at the answers to `connect`, `get` and `watch`.
      unfoldable pub factory :
          Result Error (Unit {0})
          → Result Error (List KeyValue)
          → Result Error (Unit {0})
          → List (WatchMessage Error)
          → ShardLists × StreamEnd
      factory (err e) got watch messages = ([], ended)
      factory (ok x) (err e) watch messages = ([], ended)
      factory (ok x) (ok kvs) watch messages = watched (collect_registry kvs []) watch messages

-- The stream of `api::factory`: the lists that were sent, in order, up to where the channel is closed.
unfoldable pub api_factory : {RegistryList : Type 0} → List RegistryList → List RegistryList
api_factory [] = []
api_factory (r ∷ received) = r ∷ api_factory received
