-- ===== src/Tests/Queues.antt =====
-- The theorems on queues at concrete inputs.
use web_queue.Common.{
  inr, ℕ, ◌≡◌, refl, ◌++◌, ◌∷◌, [], Bytes, codes, Option, none, some, true, false, ok, is_some,
  length, ◌≤◌, arith, same, same_refl, ◌+◌, err,
}
use web_queue.Common.Map
use web_queue.Common.Words.{to_be_bytes, u64_max}
use web_queue.Message.Interface.{event_message-IsUniqId}
use web_queue.Message.{last}
use web_queue.Sled.Memory.{Db, memory, memory-IsReliable, memory_trees}
use web_queue.Sled.Ordered.{put, lookup, has_bytes}
use web_queue.Queue.Reads.{get_id}
use web_queue.Queue.State.{Runtime, encode, on_map}
use web_queue.Queue.Methods.{
  send_to_queue, generate_next_id, counter_key, stored, checked_next, delete_queue,
  check_tree_exists, store, store_value, numbered,
}
use web_queue.Queue.Channels.{key_channel}
use web_queue.Queue.Deletion.{delete_queue_lem}
use web_queue.Queue.Failures.{failed_send}
use web_queue.Broadcast.Memory.{Channel}
use web_queue.Queue.Sending.{versions, others_than, newest, numbered_as}
use web_queue.Queue.Storage.{entries}
use web_queue.Queue.Latest.{send_to_queue-last}
use web_queue.Queue.Reads.{get_prev_items}
use web_queue.Queue.Retention.{send_to_queue-retains}
use web_queue.Queue.Resetting.{delete_queue-resets}
use web_queue.Queue.Counters.{
  generate_next_id-counts, generate_next_id-shared, after_calls, counters, next_id, next_number,
}
use web_queue.Tests.Fixtures.{runtime, State, Message, read, news, with_number, fresh}

there : (limit : Option ℕ) → is_some (memory-IsReliable.trees (fresh limit).map news) ≡ true
unfolding Map.get same
there limit = rw (memory_trees (fresh limit).map news) refl

unnumbered :
    lookup (counter_key news (codes "7")) (counters runtime memory-IsReliable (fresh none)) ≡ none
unfolding Map.get same memory
unnumbered = rw (memory_trees (fresh none).map (codes "__sled__default")) (unfold lookup in refl)

-- With the limit 2, of three sent versions one stays.
send_to_queue-retains_example :
    let q = fresh (some 2) in
    let id = codes "7" in
    let q' = (send_to_queue runtime news (with_number id 3 30) q).1 in
    let before = entries runtime memory-IsReliable news q in
    let after = entries runtime memory-IsReliable news q' in
    ((send_to_queue runtime news (with_number id 3 30) q).0 ≡ ok true)
    × (versions id after ≡ newest 1 (put (get_id id 3) (3 ∷ 30 ∷ id) (versions id before)))
    × (length (versions id after) ≤ 1)
    × (others_than id after ≡ others_than id before)
unfolding numbered_as memory same
send_to_queue-retains_example =
    send_to_queue-retains runtime memory-IsReliable (event_message-IsUniqId ℕ) news
      (with_number (codes "7") 3 30) (3 ∷ 30 ∷ codes "7") (fresh (some 2)) refl (there (some 2))
      refl 1 refl

-- The third number is 3.
generate_next_id-counts_example :
    (generate_next_id runtime news
      (codes "7")
      (after_calls runtime memory-IsReliable 2 news (codes "7") (fresh none))).0
    ≡ ok 3
generate_next_id-counts_example =
    generate_next_id-counts runtime memory-IsReliable 2 news (codes "7") (fresh none) (omega arith)
      unnumbered

-- The counter of "news" and "7", at the largest number.
abbrev full : State
full = record (fresh none) {
  map =
      (
        codes "__sled__default",
        record {
          entries = (counter_key news (codes "7"), to_be_bytes u64_max) ∷ [];
          sorted = (tt, tt);
        },
      )
      ∷ [];
}

full_counter :
    lookup (counter_key news (codes "7")) (counters runtime memory-IsReliable full)
    ≡ some (to_be_bytes u64_max)
unfolding Map.get same memory
full_counter =
    rw (memory_trees full.map (codes "__sled__default"))
      (unfold lookup in rw (same_refl (counter_key news (codes "7"))) refl)

small : next_id runtime memory-IsReliable (codes "a") (codes "b" ++ codes "c") (fresh none) ≡ 1
unfolding Map.get same memory next_id next_number
small =
    rw (memory_trees (fresh none).map (codes "__sled__default"))
      (unfold lookup stored checked_next in refl)

-- The queues "a" and "ab", with the ids "bc" and "c".
generate_next_id-shared_example :
    (generate_next_id runtime
      (codes "a" ++ codes "b")
      (codes "c")
      (generate_next_id runtime (codes "a") (codes "b" ++ codes "c") (fresh none)).1).0
    ≡ ok (next_id runtime memory-IsReliable (codes "a") (codes "b" ++ codes "c") (fresh none) + 1)
generate_next_id-shared_example =
    generate_next_id-shared runtime memory-IsReliable (codes "a") (codes "b") (codes "c")
      (fresh none) (omega (arith, small))

delete_queue_lem_example :
    let q' = (delete_queue runtime news (codes "7") (fresh none)).1 in
    ((delete_queue runtime news (codes "7") (fresh none)).0 ≡ ok tt)
    × (memory-IsReliable.trees q'.map news
        ≡ some (others_than (codes "7") (entries runtime memory-IsReliable news (fresh none))))
    × ((j : Bytes)
        → same news j ≡ false
        → memory-IsReliable.trees q'.map j ≡ memory-IsReliable.trees (fresh none).map j)
    × (key_channel q' news (codes "7") ≡ none)
delete_queue_lem_example = delete_queue_lem runtime memory-IsReliable news (codes "7") (fresh none)

-- A runtime on which no message can be encoded.
abbrev mute : Runtime Db Unit Unit (Channel Message) ℕ Message
mute = record runtime { json = record { to_vec = λ m. err tt; from_slice = read } }

failed_send_example :
    (send_to_queue mute news (with_number (codes "7") 3 30) (fresh none)).1.queue_broadcasts ≡ []
failed_send_example =
    failed_send mute news (with_number (codes "7") 3 30) (fresh none) (encode tt) refused
  where
    refused :
        (send_to_queue mute news (with_number (codes "7") 3 30) (fresh none)).0 ≡ err (encode tt)
    refused =
        unfold send_to_queue numbered check_tree_exists memory has_bytes same store store_value
          on_map in
        refl

send_to_queue-last_example :
    get_prev_items runtime news
      (codes "7")
      (some last)
      (send_to_queue runtime news (with_number (codes "7") 3 30) (fresh (some 2))).1.map
    ≡ ok (some (with_number (codes "7") 3 30 ∷ []))
unfolding numbered_as memory same
send_to_queue-last_example =
    send_to_queue-last runtime memory-IsReliable (event_message-IsUniqId ℕ) news
      (with_number (codes "7") 3 30) (3 ∷ 30 ∷ codes "7") (fresh (some 2)) refl (there (some 2))
      refl refl (inr (0, refl)) (rw (memory_trees (fresh (some 2)).map news) (unfold Map.get in tt))

delete_queue-resets_example :
    (generate_next_id runtime news
      (codes "7")
      (delete_queue runtime runtime.sled.default_tree (codes "id_") full).1).0
    ≡ ok 1
delete_queue-resets_example = delete_queue-resets runtime memory-IsReliable news (codes "7") full
