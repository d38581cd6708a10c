-- ===== src/Queue/Reads.antt =====
-- Reading stored messages (sonya/src/queue/map.rs): keys, the items that a subscription starts
-- with, and the stream that it returns.
use web_queue.Common.{
  ℕ, Bytes, Option, none, some, List, [], ◌∷◌, ◌++◌, map, reverse, Bool, true, false, Result, ok,
  err, map_err, take, keep, leb,
}
use web_queue.Common.Words.{to_be_bytes, u64_max}
use web_queue.Message.{UniqId, RequestSequenceId, RequestSequence, at, last, first}
use web_queue.Sled.{Sled}
use web_queue.Sled.Ordered.{Entry, Entries, put}
use web_queue.Broadcast.{RecvError}
use web_queue.Queue.State.{Runtime, QueueError, db, encode}

-- `BroadcastMessage` of sonya/src/queue/connection.rs
pub data BroadcastMessage (T : Type 0) : Type 0 where
  message : T → BroadcastMessage T
  close : BroadcastMessage T

module _ {T : Type 0} where
  -- `while let Ok(value) = receiver.recv().await`
  unfoldable pub received : List (Result RecvError T) → List (BroadcastMessage T)
  received [] = []
  received (ok v ∷ rs) = message v ∷ received rs
  received (err e ∷ rs) = []

  unfoldable pub yielded : Option (List T) → List (BroadcastMessage T)
  yielded none = []
  yielded (some pi) = map message pi

  -- `prepare_stream`: what the stream yields, from what the receiver returns call by call
  unfoldable pub prepare_stream :
      List (Result RecvError T) → Option (List T) → List (BroadcastMessage T)
  unfolding received yielded
  prepare_stream recv prev_items = yielded prev_items ++ received recv

-- `get_id`: the key of a message in its queue's tree
unfoldable pub get_id : Bytes → ℕ → Bytes
get_id id sequence = id ++ to_be_bytes sequence

module _ {E A : Type 0} where
  abbrev pub cons_result : A → Result E (List A) → Result E (List A)
  cons_result a (ok l) = ok (a ∷ l)
  cons_result a (err e) = err e

  -- `collect::<Result<Vec<_>, _>>()`: the first error, or all items
  unfoldable pub collect : List (Result E A) → Result E (List A)
  collect [] = ok []
  collect (ok a ∷ rs) = cons_result a (collect rs)
  collect (err e ∷ rs) = err e

module _ {Db DbError : Type 0} (sled : Sled Db DbError) where
  -- `extract_sequences`
  unfoldable pub extract_sequences :
      Bytes → RequestSequenceId → Bytes → Db → List (Result DbError (Entry Bytes))
  extract_sequences tree (at s) id d = sled.range tree (get_id id s) (get_id id u64_max) d
  extract_sequences tree last id d = take 1 (reverse (sled.scan_prefix tree id d))
  extract_sequences tree first id d = sled.scan_prefix tree id d

module _ {T : Type 0} (uniq : UniqId T) where
  -- the `BTreeMap` of `RequestSequenceId::Last`
  unfoldable pub latest : List T → Entries T → Entries T
  latest [] m = m
  latest (v ∷ vs) m = latest vs (put (uniq.get_id v) v m)

module _ {Db DbError JsonError Sender Receiver T : Type 0}
    (rt : Runtime Db DbError JsonError Sender Receiver T) where
  -- `serde_json::from_slice(&v)` on an item of an iterator
  unfoldable pub decode_item :
      Result DbError (Entry Bytes) → Result (QueueError DbError JsonError) T
  decode_item (ok (_, v)) = map_err encode (rt.json.from_slice v)
  decode_item (err e) = err (db e)

  abbrev pub some_result :
      Result (QueueError DbError JsonError) (List T)
      → Result (QueueError DbError JsonError) (Option (List T))
  some_result (ok ts) = ok (some ts)
  some_result (err e) = err e

  -- `get_prev_items`
  unfoldable pub get_prev_items :
      Bytes → Bytes → RequestSequence → Db → Result (QueueError DbError JsonError) (Option (List T))
  get_prev_items tree id none d = ok none
  get_prev_items tree id (some sequence_id) d =
      some_result (collect (map decode_item (extract_sequences rt.sled tree sequence_id id d)))

  -- the filter of `RequestSequenceId::Id`: errors pass
  unfoldable pub since : ℕ → Result (QueueError DbError JsonError) T → Bool
  since s (ok v) = elim (rt.uniq.get_sequence v) [ none ↦ false | some cs ↦ leb s cs ]
  since s (err e) = true

  unfoldable pub latest_values :
      Result (QueueError DbError JsonError) (List T)
      → Result (QueueError DbError JsonError) (List T)
  latest_values (ok vs) = ok (map (λ e. e.1) (latest rt.uniq vs []))
  latest_values (err e) = err e

  -- the `match` on the sequence
  unfoldable pub select_all :
      RequestSequenceId
      → List (Result (QueueError DbError JsonError) T)
      → Result (QueueError DbError JsonError) (List T)
  select_all (at s) i = collect (keep (since s) i)
  select_all last i = latest_values (collect i)
  select_all first i = collect i

  -- `get_prev_all_items`
  unfoldable pub get_prev_all_items :
      Bytes → RequestSequence → Db → Result (QueueError DbError JsonError) (Option (List T))
  get_prev_all_items tree none d = ok none
  get_prev_all_items tree (some sequence_id) d =
      some_result (select_all sequence_id (map decode_item (rt.sled.iter tree d)))
