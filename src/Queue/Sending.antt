-- ===== src/Queue/Sending.antt =====
-- `send_to_queue` of sonya/src/queue/map.rs on storage that does not fail: the number of the
-- message, and what the queue's tree holds afterwards.
use web_queue.Common.{
  same_sym, ℕ, ◌≤◌, ◌≡◌, refl, ap, ◌∙◌, Bytes, none, some, [], reverse, true, false, not, same, ok,
  has_prefix, keep, take, length, is_some, unwrap_or, arith, length-take, length-reverse,
}
use web_queue.Sled.{IsReliable}
use web_queue.Sled.Ordered.{Entries}
use web_queue.Message.Interface.{IsUniqId}
use web_queue.Queue.State.{Runtime, Queue}
use web_queue.Queue.Reads.{get_id}
use web_queue.Queue.Methods.{
  numbered, store, broadcast_value, check_tree_exists, send_to_queue, counter_key, next_counter,
}
use web_queue.Queue.Counters.{next_id, after_next_id, generate_next_id_lem}
use web_queue.Queue.Storage.{entries, stored_entries}
use web_queue.Queue.Storing.{store_lem}

-- The stored entries that the queue takes for versions of an id, and those that it does not.
abbrev pub versions : Bytes → Entries Bytes → Entries Bytes
versions id = keep (λ e. has_prefix id e.0)

abbrev pub others_than : Bytes → Entries Bytes → Entries Bytes
others_than id = keep (λ e. not (has_prefix id e.0))

-- The last `n` entries.
abbrev pub newest : ℕ → Entries Bytes → Entries Bytes
newest n es = reverse (take n (reverse es))

pub length-newest-le : (n : ℕ) (es : Entries Bytes) → length (newest n es) ≤ n
length-newest-le n es =
    omega (arith, length-reverse {0} (take n (reverse es)), length-take {0} n (reverse es))

module _ {Db DbError JsonError Sender Receiver T : Type 0}
    (rt : Runtime Db DbError JsonError Sender Receiver T) (laws : IsReliable rt.sled) where
  open laws use {trees}

  -- The message and its number as they are stored and sent.
  unfoldable pub numbered_as : Bytes → T → Queue Db Sender → T × ℕ
  numbered_as queue_name value q = elim (rt.uniq.get_sequence value) [
    | some s ↦ (value, s)
    | none ↦
        let n = next_id rt laws queue_name (rt.uniq.get_id value) q in
        ((rt.uniq.set_sequence value n).0, n)
  ]

  unfoldable pub numbered_queue : Bytes → T → Queue Db Sender → Queue Db Sender
  numbered_queue queue_name value q = elim (rt.uniq.get_sequence value) [
    | some s ↦ q
    | none ↦ after_next_id rt laws queue_name (rt.uniq.get_id value) q
  ]

  numbered_lem :
      (queue_name : Bytes) (value : T) (q : Queue Db Sender)
      → numbered rt queue_name value q
        ≡ (ok (numbered_as queue_name value q), numbered_queue queue_name value q)
  unfolding numbered numbered_as numbered_queue
  numbered_lem queue_name value q =
      ground (arith, generate_next_id_lem rt laws queue_name (rt.uniq.get_id value) q)

  numbered_queue_keeps :
      (queue_name : Bytes) (value : T) (q : Queue Db Sender) (j : Bytes)
      → same rt.sled.default_tree j ≡ false
      → trees (numbered_queue queue_name value q).map j ≡ trees q.map j
  unfolding numbered_queue after_next_id
  numbered_queue_keeps queue_name value q j h = ground (
    arith,
    laws.update_trees q.map (counter_key queue_name (rt.uniq.get_id value)) next_counter j,
  )

  numbered_queue_frame :
      (queue_name : Bytes) (value : T) (q : Queue Db Sender)
      → ((numbered_queue queue_name value q).max_key_updates ≡ q.max_key_updates)
        × ((numbered_queue queue_name value q).queue_broadcasts ≡ q.queue_broadcasts)
  unfolding numbered_queue after_next_id
  numbered_queue_frame queue_name value q = ground arith

  numbered_id :
      (u : IsUniqId rt.uniq) (queue_name : Bytes) (value : T) (q : Queue Db Sender)
      → rt.uniq.get_id (numbered_as queue_name value q).0 ≡ rt.uniq.get_id value
  unfolding numbered_as
  numbered_id u queue_name value q =
      ground (arith, u.id_kept value (next_id rt laws queue_name (rt.uniq.get_id value) q))

  send_run :
      (queue_name : Bytes) (value value' : T) (sequence : ℕ) (q q1 q2 : Queue Db Sender)
      → check_tree_exists rt queue_name q ≡ true
      → numbered rt queue_name value q ≡ (ok (value', sequence), q1)
      → store rt queue_name value' sequence q1 ≡ (ok tt, q2)
      → send_to_queue rt queue_name value q ≡ (ok true, broadcast_value rt queue_name value' q2)
  unfolding send_to_queue
  send_run queue_name value value' sequence q q1 q2 there num stored =
      rw there (rw num (rw stored refl))

  -- What a successful `send_to_queue` does: the message is numbered and stored, the storage is
  -- as `stored_entries` says, and then it is broadcast.
  pub record Sent (queue_name : Bytes) (value : T) (bytes : Bytes) (q q' : Queue Db Sender)
      : Type 0 where
    pub stored :
        trees q'.map queue_name
        ≡ some (
            stored_entries q.max_key_updates
              (rt.uniq.get_id value)
              (get_id (rt.uniq.get_id value) (numbered_as queue_name value q).1)
              bytes
              (entries rt laws queue_name q))
    pub others :
        (j : Bytes)
        → same queue_name j ≡ false
        → same rt.sled.default_tree j ≡ false
        → trees q'.map j ≡ trees q.map j
    pub limit : q'.max_key_updates ≡ q.max_key_updates
    pub numbers :
        trees q'.map rt.sled.default_tree
        ≡ trees (numbered_queue queue_name value q).map rt.sled.default_tree

  broadcast_value_frame :
      (queue_name : Bytes) (value : T) (q : Queue Db Sender)
      → ((broadcast_value rt queue_name value q).map ≡ q.map)
        × ((broadcast_value rt queue_name value q).max_key_updates ≡ q.max_key_updates)
  unfolding broadcast_value
  broadcast_value_frame queue_name value q = (refl, refl)

  pub send_to_queue-Sent :
      (u : IsUniqId rt.uniq) (queue_name : Bytes) (value : T) (bytes : Bytes) (q : Queue Db Sender)
      → same rt.sled.default_tree queue_name ≡ false
      → is_some (trees q.map queue_name) ≡ true
      → rt.json.to_vec (numbered_as queue_name value q).0 ≡ ok bytes
      → (q' : Queue Db Sender) × (send_to_queue rt queue_name value q ≡ (ok true, q'))
        × Sent queue_name value bytes q q'
  unfolding check_tree_exists
  send_to_queue-Sent u queue_name value bytes q other there enc =
      let value' = (numbered_as queue_name value q).0 in
      let sequence = (numbered_as queue_name value q).1 in
      let q1 = numbered_queue queue_name value q in
      let unchanged : trees q1.map queue_name ≡ trees q.map queue_name =
        numbered_queue_keeps queue_name value q queue_name other in
      let (q2, ran, w) =
        store_lem rt laws queue_name value' sequence bytes q1 (ap is_some unchanged ∙ there) enc in
      (
        broadcast_value rt queue_name value' q2,
        send_run queue_name value value' sequence q q1 q2 (laws.names q.map queue_name ∙ there)
            (numbered_lem queue_name value q) ran,
        record {
          stored =
              ap (λ m. trees m queue_name) (broadcast_value_frame queue_name value' q2).0
              ∙ w.written
              ∙ ap
                  (λ o. some (
                    stored_entries q1.max_key_updates (rt.uniq.get_id value')
                      (get_id (rt.uniq.get_id value') sequence) bytes (unwrap_or o [])))
                  unchanged
              ∙ ap
                  (λ i. some (
                    stored_entries q1.max_key_updates i (get_id i sequence) bytes
                      (entries rt laws queue_name q)))
                  (numbered_id u queue_name value q)
              ∙ ap
                  (λ l. some (
                    stored_entries l (rt.uniq.get_id value) (get_id (rt.uniq.get_id value) sequence)
                      bytes (entries rt laws queue_name q)))
                  (numbered_queue_frame queue_name value q).0;
          others = λ j e d.
              ap (λ m. trees m j) (broadcast_value_frame queue_name value' q2).0
              ∙ w.others j e
              ∙ numbered_queue_keeps queue_name value q j d;
          limit =
              (broadcast_value_frame queue_name value' q2).1
              ∙ w.limit
              ∙ (numbered_queue_frame queue_name value q).0;
          numbers =
              ap (λ m. trees m rt.sled.default_tree) (broadcast_value_frame queue_name value' q2).0
              ∙ w.others rt.sled.default_tree (same_sym queue_name rt.sled.default_tree ∙ other);
        },
      )
