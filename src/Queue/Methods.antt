-- ===== src/Queue/Methods.antt =====
-- The methods of `Queue` (sonya/src/queue/map.rs), in the order of the source. A method takes the
-- queue to its result and the queue that it leaves; `?` returns early and keeps what was written.
use web_queue.Common.{
  ℕ, zero, suc, unwrap_or, ◌+◌, ◌-◌, ◌^◌, Bytes, codes, Option, none, some, List, [], ◌∷◌, ◌++◌,
  reverse, Bool, true, false, Result, ok, err, Exec, pure, lift, ◌>>=◌, ◌>>◌, map_err, length, drop,
  ltb, if◌then◌else◌,
}
use web_queue.Common.Map
use web_queue.Common.Words.{to_be_bytes, from_be_bytes}
use web_queue.Message.{SequenceId, RequestSequence, new_sequence_id}
use web_queue.Sled.Ordered.{Entry, keys, has_bytes}
use web_queue.Queue.State.{
  Runtime, Queue, QueueError, db, encode, zero_sequence, Subscription, get_queue_broadcast,
  get_key_broadcast, no_subscription, on_map, set_broadcasts,
}
use web_queue.Queue.Reads.{get_id, collect, get_prev_items, get_prev_all_items}

-- The closure of `generate_next_id`.
unfoldable pub stored : Option Bytes → Option ℕ
stored none = none
stored (some bs) = from_be_bytes bs

-- `checked_add(1)`
unfoldable pub checked_next : Option ℕ → Option ℕ
checked_next none = none
checked_next (some id) = if ltb (id + 1) (2 ^ 64) then some (id + 1) else none

unfoldable pub next_counter : Option Bytes → Option Bytes
unfolding stored checked_next
next_counter v = some (to_be_bytes (unwrap_or (checked_next (stored v)) 1))

unfoldable pub counter_key : Bytes → Bytes → Bytes
counter_key queue_name id = codes "id_" ++ queue_name ++ id

-- `prev_items.as_ref().map(|i| i.len())`
abbrev pub prev_len : {T : Type 0} → Option (List T) → Option ℕ
prev_len none = none
prev_len (some i) = some (length i)

-- Where the files of the database are.
pub data DbConfig : Type 0 where
  temporary : DbConfig
  compressed_at : Bytes → DbConfig

-- `QueueOptions`, the part `queue` of the configuration.
pub record QueueOptions : Type 0 where
  pub default : List Bytes
  pub db_path : Option Bytes
  pub max_key_updates : Option ℕ

abbrev pub db_config : Option Bytes → DbConfig
db_config none = temporary
db_config (some dp) = compressed_at dp

module _ {Db DbError JsonError Sender Receiver T : Type 0}
    (rt : Runtime Db DbError JsonError Sender Receiver T) where
  abbrev pub Method : Type 0 → Type 0
  Method A = Exec (Queue Db Sender) (QueueError DbError JsonError) A

  -- `create_queue`
  unfoldable pub create_queue : Bytes → Method (Unit {0})
  create_queue queue_name = on_map (rt.sled.open_tree queue_name)

  -- `try_for_each`
  unfoldable pub create_all : List Bytes → Method (Unit {0})
  create_all [] = pure tt
  create_all (q ∷ qs) = create_queue q >> create_all qs

  abbrev pub finish :
      Result (QueueError DbError JsonError) (Unit {0}) × Queue Db Sender
      → Result (QueueError DbError JsonError) (Queue Db Sender)
  finish (ok _, this) = ok this
  finish (err e, this) = err e

  -- `Queue::new`, with the database's `open`
  unfoldable pub new :
      (DbConfig → Result DbError Db)
      → QueueOptions
      → Result (QueueError DbError JsonError) (Queue Db Sender)
  new open_db config = elim (open_db (db_config config.db_path)) [
    | err e ↦ err (db e)
    | ok m ↦ finish (
        create_all config.default
          (record { map = m; max_key_updates = config.max_key_updates; queue_broadcasts = [] }))
  ]

  -- the `for` loop of `delete_queue`: the keys of the batch, or the first error
  abbrev pub batch_of :
      List (Result DbError (Entry Bytes)) → Result (QueueError DbError JsonError) (List Bytes)
  batch_of rs = elim (collect rs) [ ok es ↦ ok (keys es) | err e ↦ err (db e) ]

  unfoldable pub drop_key : Bytes → Bytes → Method (Unit {0})
  drop_key queue_name id q =
      let queue = get_queue_broadcast rt.broadcast queue_name q.queue_broadcasts in
      let queue' = record queue { keys = Map.remove id queue.keys } in
      (ok tt, set_broadcasts (Map.insert queue_name queue' q.queue_broadcasts) q)

  unfoldable pub scan_keys : Bytes → Bytes → Method (List Bytes)
  scan_keys queue_name id q = (batch_of (rt.sled.scan_prefix queue_name id q.map), q)

  -- `delete_queue`
  unfoldable pub delete_queue : Bytes → Bytes → Method (Unit {0})
  delete_queue queue_name id = do
    drop_key queue_name id
    on_map (rt.sled.open_tree queue_name)
    batch ← scan_keys queue_name id
    on_map (rt.sled.apply_batch queue_name batch)

  -- `check_tree_exists`
  unfoldable pub check_tree_exists : Bytes → Queue Db Sender → Bool
  check_tree_exists queue_name q = has_bytes queue_name (rt.sled.tree_names q.map)

  unfoldable pub subscribe_key : Bytes → Bytes → Option (List T) → Method (Subscription Receiver T)
  subscribe_key queue_name id prev_items q =
      let queue = get_queue_broadcast rt.broadcast queue_name q.queue_broadcasts in
      let key_sender = get_key_broadcast rt.broadcast id queue in
      let (recv, key_sender') = rt.broadcast.subscribe key_sender in
      let queue' = record queue { keys = Map.insert id key_sender' queue.keys } in
      (
        ok (record {
          stream = some (record { receiver = recv; prev_items = prev_items });
          preloaded_count = prev_len prev_items;
        }),
        set_broadcasts (Map.insert queue_name queue' q.queue_broadcasts) q,
      )

  -- `subscribe_queue_by_id`, which takes the lock of the channels only after it has loaded the stored
  -- messages, so that other threads may do something in between
  unfoldable pub subscribe_queue_by_id_during :
      (Queue Db Sender → Queue Db Sender)
      → Bytes
      → Bytes
      → RequestSequence
      → Method (Subscription Receiver T)
  subscribe_queue_by_id_during meanwhile queue_name id sequence q =
      if check_tree_exists queue_name q
      then (do
        on_map (rt.sled.open_tree queue_name)
        prev_items ← (λ q'. (get_prev_items rt queue_name id sequence q'.map, q'))
        λ q'. subscribe_key queue_name id prev_items (meanwhile q'))
          q
      else (ok no_subscription, q)

  unfoldable pub subscribe_queue_by_id :
      Bytes → Bytes → RequestSequence → Method (Subscription Receiver T)
  unfolding subscribe_queue_by_id_during
  subscribe_queue_by_id = subscribe_queue_by_id_during (λ q. q)

  unfoldable pub subscribe_sender : Bytes → Option (List T) → Method (Subscription Receiver T)
  subscribe_sender queue_name prev_items q =
      let queue = get_queue_broadcast rt.broadcast queue_name q.queue_broadcasts in
      let (recv, sender') = rt.broadcast.subscribe queue.sender in
      let queue' = record queue { sender = sender' } in
      (
        ok (record {
          stream = some (record { receiver = recv; prev_items = prev_items });
          preloaded_count = prev_len prev_items;
        }),
        set_broadcasts (Map.insert queue_name queue' q.queue_broadcasts) q,
      )

  -- `subscribe_queue`, with what other threads do before it takes the lock
  unfoldable pub subscribe_queue_during :
      (Queue Db Sender → Queue Db Sender)
      → Bytes
      → RequestSequence
      → Method (Subscription Receiver T)
  subscribe_queue_during meanwhile queue_name sequence q =
      if check_tree_exists queue_name q
      then (do
        on_map (rt.sled.open_tree queue_name)
        prev_items ← (λ q'. (get_prev_all_items rt queue_name sequence q'.map, q'))
        λ q'. subscribe_sender queue_name prev_items (meanwhile q'))
          q
      else (ok no_subscription, q)

  unfoldable pub subscribe_queue : Bytes → RequestSequence → Method (Subscription Receiver T)
  unfolding subscribe_queue_during
  subscribe_queue = subscribe_queue_during (λ q. q)

  unfoldable pub sequence_of : Option Bytes → Result (QueueError DbError JsonError) SequenceId
  sequence_of none = err zero_sequence
  sequence_of (some r) = elim (from_be_bytes r) [
    | none ↦ err zero_sequence
    | some v ↦ elim (new_sequence_id v) [ none ↦ err zero_sequence | some s ↦ ok s ]
  ]

  -- `generate_next_id`
  unfoldable pub generate_next_id : Bytes → Bytes → Method SequenceId
  generate_next_id queue_name id = do
    res ← on_map (rt.sled.update_and_fetch (counter_key queue_name id) next_counter)
    lift (sequence_of res)

  -- the `match` of `send_to_queue` on the sequence of the message
  unfoldable pub numbered : Bytes → T → Method (T × ℕ)
  numbered queue_name value q = elim (rt.uniq.get_sequence value) [
    | some s ↦ (ok (value, s), q)
    | none ↦
        (do
          id ← generate_next_id queue_name (rt.uniq.get_id value)
          pure ((rt.uniq.set_sequence value id).0, id))
          q
  ]

  -- the eviction of old versions: `.rev().skip(m - 1)`
  unfoldable pub scan_old : Bytes → Bytes → ℕ → Method (List Bytes)
  scan_old queue_name id m q =
      (batch_of (drop (m - 1) (reverse (rt.sled.scan_prefix queue_name id q.map))), q)

  unfoldable pub evict : Bytes → Bytes → Option ℕ → Method (Unit {0})
  evict queue_name id none = pure tt
  evict queue_name id (some m) = do
    batch ← scan_old queue_name id m
    on_map (rt.sled.apply_batch queue_name batch)

  unfoldable pub store_value : Bytes → T → ℕ → Method (Unit {0})
  store_value queue_name value sequence q =
      (do
        on_map (rt.sled.open_tree queue_name)
        bytes ← lift (map_err encode (rt.json.to_vec value))
        on_map (rt.sled.insert queue_name (get_id (rt.uniq.get_id value) sequence) bytes)
        evict queue_name (rt.uniq.get_id value) q.max_key_updates)
        q

  -- `if !matches!(self.max_key_updates, Some(0))`
  unfoldable pub store : Bytes → T → ℕ → Method (Unit {0})
  store queue_name value sequence q = elim q.max_key_updates [
    | none ↦ store_value queue_name value sequence q
    | some m ↦ elim m [ zero ↦ (ok tt, q) | suc n ↦ store_value queue_name value sequence q ]
  ]

  -- A `send` that nobody receives is only logged.
  unfoldable pub broadcast_value : Bytes → T → Queue Db Sender → Queue Db Sender
  broadcast_value queue_name value q =
      let queue = get_queue_broadcast rt.broadcast queue_name q.queue_broadcasts in
      let sender' = (rt.broadcast.send queue.sender value).1 in
      let id = rt.uniq.get_id value in
      let key_sender' = (rt.broadcast.send (get_key_broadcast rt.broadcast id queue) value).1 in
      let queue' = record queue { sender = sender'; keys = Map.insert id key_sender' queue.keys } in
      set_broadcasts (Map.insert queue_name queue' q.queue_broadcasts) q

  -- `send_to_queue`
  unfoldable pub send_to_queue : Bytes → T → Method Bool
  send_to_queue queue_name value q =
      if check_tree_exists queue_name q
      then (do
        (value', sequence) ← numbered queue_name value
        store queue_name value' sequence
        (λ q'. (ok true, broadcast_value queue_name value' q')))
          q
      else (ok false, q)

  -- `close_queue`
  unfoldable pub close_queue : Bytes → Method Bool
  close_queue queue_name q =
      on_map (rt.sled.drop_tree queue_name)
        (set_broadcasts (Map.remove queue_name q.queue_broadcasts) q)
