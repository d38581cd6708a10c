-- ===== src/Queue/Retention.antt =====
-- How many versions of a message a queue keeps: `max_key_updates` of sonya/src/queue/map.rs.
use web_queue.Common.{
  ℕ, suc, ◌≤◌, ◌≡◌, ap, ◌∙◌, Bytes, none, some, [], true, false, same, ok, has_prefix, length,
  is_some, unwrap_or,
}
use web_queue.Sled.{IsReliable}
use web_queue.Sled.Ordered.{
  Entries, put, keep-put, keep-not-put, keep-IsSorted, put-IsSorted, IsSorted,
}
use web_queue.Sled.Purge.{
  purge-drop-reverse, keep-purge_comm, keep-not-purge, has_bytes-keep, has_bytes-drop-reverse,
}
use web_queue.Message.Interface.{IsUniqId}
use web_queue.Queue.State.{Runtime, Queue}
use web_queue.Queue.Reads.{get_id}
use web_queue.Queue.Methods.{send_to_queue}
use web_queue.Queue.Keys.{has_prefix-get_id}
use web_queue.Queue.Storage.{entries, stored_entries, old_versions}
use web_queue.Queue.Sending.{
  versions, others_than, newest, length-newest-le, numbered_as, send_to_queue-Sent,
}

module _ (n : ℕ) (id k v : Bytes) (es : Entries Bytes) (own : has_prefix id k ≡ true) where
  versions-stored_entries :
      IsSorted es
      → versions id (stored_entries (some (suc n)) id k v es) ≡ newest n (put k v (versions id es))
  unfolding stored_entries
  versions-stored_entries s =
      let fs = put k v es in
      keep-purge_comm (λ e. has_prefix id e.0) (old_versions n id fs) fs
      ∙ purge-drop-reverse n (versions id fs)
          (keep-IsSorted (λ e. has_prefix id e.0) fs (put-IsSorted k v es s))
      ∙ ap (newest n) (keep-put (has_prefix id) k v es own s)

  others-stored_entries :
      others_than id (stored_entries (some (suc n)) id k v es) ≡ others_than id es
  unfolding stored_entries
  others-stored_entries =
      let fs = put k v es in
      keep-not-purge (has_prefix id) (old_versions n id fs) fs
        (λ j h. has_bytes-keep (has_prefix id) fs j (has_bytes-drop-reverse n (versions id fs) j h))
      ∙ keep-not-put (has_prefix id) k v es own

module _ {Db DbError JsonError Sender Receiver T : Type 0}
    (rt : Runtime Db DbError JsonError Sender Receiver T) (laws : IsReliable rt.sled)
    (u : IsUniqId rt.uniq) (queue_name : Bytes) (value : T) (bytes : Bytes) (q : Queue Db Sender)
    (own_tree : same rt.sled.default_tree queue_name ≡ false)
    (there : is_some (laws.trees q.map queue_name) ≡ true)
    (enc : rt.json.to_vec (numbered_as rt laws queue_name value q).0 ≡ ok bytes) where
  abbrev id : Bytes
  id = rt.uniq.get_id value

  abbrev key : Bytes
  key = get_id id (numbered_as rt laws queue_name value q).1

  abbrev before : Entries Bytes
  before = entries rt laws queue_name q

  abbrev after : Entries Bytes
  after = entries rt laws queue_name (send_to_queue rt queue_name value q).1

  sent_entries :
      ((send_to_queue rt queue_name value q).0 ≡ ok true)
      × (after ≡ stored_entries q.max_key_updates id key bytes before)
  sent_entries =
      let (q', ran, s) = send_to_queue-Sent rt laws u queue_name value bytes q own_tree there enc in
      (
        ap (λ r. r.0) ran,
        ap (λ r. unwrap_or (laws.trees r.1.map queue_name) []) ran
            ∙ ap (λ o. unwrap_or o []) s.stored,
      )

  -- On storage that does not fail, for a message that can be encoded and an existing queue other
  -- than the database's default tree: with max_key_updates at n + 1, send_to_queue returns true
  -- and leaves only the last n of the stored keys that start with the message's id, its own key
  -- counted among them; the entries of all other keys stay.
  pub send_to_queue-retains :
      (n : ℕ)
      → q.max_key_updates ≡ some (suc n)
      → ((send_to_queue rt queue_name value q).0 ≡ ok true)
        × (versions id after ≡ newest n (put key bytes (versions id before)))
        × (length (versions id after) ≤ n)
        × (others_than id after ≡ others_than id before)
  send_to_queue-retains n limit =
      let own = has_prefix-get_id id (numbered_as rt laws queue_name value q).1 in
      let stored = sent_entries.1 ∙ ap (λ l. stored_entries l id key bytes before) limit in
      let kept =
        ap (versions id) stored
        ∙ versions-stored_entries n id key bytes before own (laws.sorted q.map queue_name) in
      (
        sent_entries.0,
        kept,
        rw kept (length-newest-le n (put key bytes (versions id before))),
        ap (others_than id) stored ∙ others-stored_entries n id key bytes before own,
      )

  -- On storage that does not fail, for a message that can be encoded and an existing queue other
  -- than the database's default tree: send_to_queue returns true; with no limit the message is
  -- added to the entries of its queue and all others stay, with the limit 0 the entries stay as
  -- they were.
  pub send_to_queue-stores :
      ((send_to_queue rt queue_name value q).0 ≡ ok true)
      × (q.max_key_updates ≡ none → after ≡ put key bytes before)
      × (q.max_key_updates ≡ some 0 → after ≡ before)
  unfolding stored_entries
  send_to_queue-stores = (
    sent_entries.0,
    λ e. sent_entries.1 ∙ ap (λ l. stored_entries l id key bytes before) e,
    λ e. sent_entries.1 ∙ ap (λ l. stored_entries l id key bytes before) e,
  )
