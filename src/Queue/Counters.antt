-- ===== src/Queue/Counters.antt =====
-- `generate_next_id` of sonya/src/queue/map.rs: the numbers that messages get.
use mathlib.Core.List.{append_assoc}
use web_queue.Common.{
  ℕ, zero, suc, ◌+◌, ◌^◌, ◌<◌, ◌≡◌, refl, ap, ◌∙◌, Bytes, codes, Option, none, some, [], ◌++◌,
  false, same, same_refl, ok, arith, if◌then◌else◌, unwrap_or,
}
use web_queue.Common.Words.{u64_max, to_be_bytes, from_be_bytes-to_be_bytes}
use web_queue.Message.{new_sequence_id}
use web_queue.Sled.{IsReliable}
use web_queue.Sled.Ordered.{Entries, lookup, lookup-put}
use web_queue.Queue.State.{Runtime, Queue, on_map}
use web_queue.Queue.Methods.{
  next_counter, stored, checked_next, counter_key, sequence_of, generate_next_id,
}

-- The number after a stored counter: one more, and 1 where nothing, no number, or the largest
-- number is stored.
unfoldable pub next_number : Option Bytes → ℕ
unfolding stored checked_next
next_number v = unwrap_or (checked_next (stored v)) 1

checked_next-lt : (o : Option ℕ) → unwrap_or (checked_next o) 1 < 2 ^ 64
unfolding checked_next
checked_next-lt o = ground arith

checked_next-pos : (o : Option ℕ) → 0 < unwrap_or (checked_next o) 1
unfolding checked_next
checked_next-pos o = ground arith

pub next_number-lt : (v : Option Bytes) → next_number v < 2 ^ 64
unfolding next_number
next_number-lt v = checked_next-lt (stored v)

pub next_number-pos : (v : Option Bytes) → 0 < next_number v
unfolding next_number
next_number-pos v = checked_next-pos (stored v)

next_counter_lem : (v : Option Bytes) → next_counter v ≡ some (to_be_bytes (next_number v))
unfolding next_counter next_number
next_counter_lem v = refl

next_number_stored : (n : ℕ) → n + 1 < 2 ^ 64 → next_number (some (to_be_bytes n)) ≡ n + 1
unfolding next_number stored checked_next
next_number_stored n h = rw (from_be_bytes-to_be_bytes n (omega arith)) (ground arith)

module _ {Db DbError JsonError Sender Receiver T : Type 0}
    (rt : Runtime Db DbError JsonError Sender Receiver T) (laws : IsReliable rt.sled) where
  open laws use {trees, update_ok, update_trees}

  -- The counters: the entries of the default tree.
  abbrev pub counters : Queue Db Sender → Entries Bytes
  counters q = unwrap_or (trees q.map rt.sled.default_tree) []

  unfoldable pub next_id : Bytes → Bytes → Queue Db Sender → ℕ
  next_id queue_name id q = next_number (lookup (counter_key queue_name id) (counters q))

  -- The queue once a number has been taken.
  unfoldable pub after_next_id : Bytes → Bytes → Queue Db Sender → Queue Db Sender
  after_next_id queue_name id q = record q {
    map = (rt.sled.update_and_fetch (counter_key queue_name id) next_counter q.map).1;
  }

  sequence_of_word : (n : ℕ) → 0 < n → n < 2 ^ 64 → sequence_of rt (some (to_be_bytes n)) ≡ ok n
  unfolding sequence_of new_sequence_id
  sequence_of_word n pos h = rw (from_be_bytes-to_be_bytes n h, sequence_of) (ground arith)

  -- A number is always given: `ZeroSequence` does not occur.
  pub generate_next_id_lem :
      (queue_name id : Bytes) (q : Queue Db Sender)
      → generate_next_id rt queue_name id q
        ≡ (ok (next_id queue_name id q), after_next_id queue_name id q)
  unfolding generate_next_id next_id after_next_id on_map
  generate_next_id_lem queue_name id q =
      let v = lookup (counter_key queue_name id) (counters q) in
      rw (update_ok q.map (counter_key queue_name id) next_counter) (
        rw (next_counter_lem v)
          (rw (sequence_of_word (next_number v) (next_number-pos v) (next_number-lt v)) refl))

  pub lookup-after_next_id :
      (queue_name id k : Bytes) (q : Queue Db Sender)
      → lookup k (counters (after_next_id queue_name id q)) ≡ (
          if same (counter_key queue_name id) k
          then some (to_be_bytes (next_id queue_name id q))
          else lookup k (counters q))
  unfolding after_next_id next_id
  lookup-after_next_id queue_name id k q =
      rw
        (
          update_trees q.map (counter_key queue_name id) next_counter rt.sled.default_tree,
          same_refl rt.sled.default_tree,
          next_counter_lem (lookup (counter_key queue_name id) (counters q)),
        )
        (lookup-put (counter_key queue_name id) k _ (counters q))

  -- The queue once `generate_next_id` has been called `k` times.
  unfoldable pub after_calls : ℕ → Bytes → Bytes → Queue Db Sender → Queue Db Sender
  after_calls zero queue_name id q = q
  after_calls (suc k) queue_name id q =
      (generate_next_id rt queue_name id (after_calls k queue_name id q)).1

  counter_counts :
      (k : ℕ) (queue_name id : Bytes) (q : Queue Db Sender)
      → k + 1 < 2 ^ 64
      → lookup (counter_key queue_name id) (counters q) ≡ none
      → next_id queue_name id (after_calls k queue_name id q) ≡ k + 1
  unfolding after_calls next_id
  counter_counts zero queue_name id q h fresh =
      rw fresh (unfold next_number stored checked_next in omega arith)
  counter_counts (suc k) queue_name id q h fresh =
      let q' = after_calls k queue_name id q in
      let ih : next_id queue_name id q' ≡ k + 1 =
        counter_counts k queue_name id q (omega arith) fresh in
      ap (λ p. next_number (lookup (counter_key queue_name id) (counters p.1)))
        (generate_next_id_lem queue_name id q')
      ∙ rw
          (
            lookup-after_next_id queue_name id (counter_key queue_name id) q',
            same_refl (counter_key queue_name id),
          )
          (next_number_stored (next_id queue_name id q') (omega arith) ∙ omega arith)

  -- On storage that does not fail, and with no counter stored for a queue and an id, the calls of
  -- generate_next_id for them return 1, 2, 3 and so on, as long as the numbers fit 64 bits.
  pub generate_next_id-counts :
      (k : ℕ) (queue_name id : Bytes) (q : Queue Db Sender)
      → k + 1 < 2 ^ 64
      → lookup (counter_key queue_name id) (counters q) ≡ none
      → (generate_next_id rt queue_name id (after_calls k queue_name id q)).0 ≡ ok (k + 1)
  generate_next_id-counts k queue_name id q h fresh =
      rw (generate_next_id_lem queue_name id (after_calls k queue_name id q))
        (ap ok (counter_counts k queue_name id q h fresh))

  -- On storage that does not fail, a counter at the largest 64-bit number starts again at 1.
  pub generate_next_id-wraps :
      (queue_name id : Bytes) (q : Queue Db Sender)
      → lookup (counter_key queue_name id) (counters q) ≡ some (to_be_bytes u64_max)
      → (generate_next_id rt queue_name id q).0 ≡ ok 1
  generate_next_id-wraps queue_name id q h =
      rw (generate_next_id_lem queue_name id q) (ap ok (unfold next_id in rw h largest))
    where
      largest : next_number (some (to_be_bytes u64_max)) ≡ 1
      largest =
          unfold next_number stored checked_next in
          rw (from_be_bytes-to_be_bytes u64_max (omega arith)) refl

  -- The queue `a` with the id `x ++ i` and the queue `a ++ x` with the id `i` have one counter
  -- between them: the number after one taken for the first goes to the second.
  pub generate_next_id-shared :
      (a x i : Bytes) (q : Queue Db Sender)
      → next_id a (x ++ i) q + 1 < 2 ^ 64
      → (generate_next_id rt (a ++ x) i (generate_next_id rt a (x ++ i) q).1).0
        ≡ ok (next_id a (x ++ i) q + 1)
  generate_next_id-shared a x i q h =
      rw
        (
          generate_next_id_lem a (x ++ i) q,
          generate_next_id_lem (a ++ x) i (after_next_id a (x ++ i) q),
        )
        (ap ok (
          unfold next_id in
          rw
            (
              lookup-after_next_id a (x ++ i) (counter_key (a ++ x) i) q,
              one_key,
              same_refl (counter_key a (x ++ i)),
            )
            (next_number_stored (next_id a (x ++ i) q) h)))
    where
      one_key : counter_key (a ++ x) i ≡ counter_key a (x ++ i)
      one_key = unfold counter_key in ap (λ t. codes "id_" ++ t) (append_assoc a x i)

  -- A number taken for one counter leaves the next number of every other counter as it was.
  pub generate_next_id-separate :
      (queue_name id other_queue other_id : Bytes) (q : Queue Db Sender)
      → same (counter_key queue_name id) (counter_key other_queue other_id) ≡ false
      → (generate_next_id rt other_queue other_id (generate_next_id rt queue_name id q).1).0
        ≡ (generate_next_id rt other_queue other_id q).0
  generate_next_id-separate queue_name id other_queue other_id q h =
      rw
        (
          generate_next_id_lem queue_name id q,
          generate_next_id_lem other_queue other_id (after_next_id queue_name id q),
          generate_next_id_lem other_queue other_id q,
        )
        (ap ok (
          unfold next_id in
          rw (lookup-after_next_id queue_name id (counter_key other_queue other_id) q, h) refl))
