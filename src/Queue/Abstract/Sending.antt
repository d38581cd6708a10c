-- ===== src/Queue/Abstract/Sending.antt =====
-- `send_to_queue` of sonya/src/queue/map.rs beside the abstract `send_message`.
use web_queue.Common.{
  refl, none, Option, ◌<◌, ◌^◌, ℕ, Bytes, some, [], true, false, same, same_sym, ok, ◌≡◌, ap, sym,
  ◌∙◌, arith, if◌then◌else◌, unwrap_or, is_some, Bool-cases, Option-cases, ◌⊎◌, inl, inr, same_iff,
}
use web_queue.Common.Words.{to_be_bytes, from_be_bytes-to_be_bytes}
use web_queue.Message.Interface.{IsUniqId}
use web_queue.Sled.{IsReliable}
use web_queue.Sled.Ordered.{Entries, lookup}
use web_queue.Queue.State.{Runtime, Queue}
use web_queue.Queue.Reads.{get_id}
use web_queue.Queue.Methods.{stored, checked_next, send_to_queue, counter_key}
use web_queue.Queue.Counters.{
  counters, next_id, next_number, next_number-lt, after_next_id, lookup-after_next_id,
}
use web_queue.Queue.Storage.{entries, stored_entries}
use web_queue.Queue.Sending.{numbered_as, numbered_queue, send_to_queue-Sent, Sent}
use web_queue.Queue.Abstract.{Store, with_value, following, next, number_message, send_message}
use web_queue.Queue.Abstract.Values.{on_values, on_values-stored_entries}
use web_queue.Queue.Abstract.Represents.{Represents, stored_in, entries_of}

following_lem : (o : Option ℕ) → unwrap_or (checked_next o) 1 ≡ following o
unfolding checked_next following
following_lem none = refl
following_lem (some n) = ground arith

module _ {Db DbError JsonError Sender Receiver T : Type 0}
    (rt : Runtime Db DbError JsonError Sender Receiver T) (laws : IsReliable rt.sled)
    (encode : T → Bytes) (queue_name : Bytes) (q : Queue Db Sender) (s : Store T)
    (r : Represents rt laws encode q s) where
  next_id_lem : (id : Bytes) → next_id rt laws queue_name id q ≡ next rt.uniq queue_name id s
  unfolding next_id next_number next
  next_id_lem id =
      ap (λ o. unwrap_or (checked_next o) 1) (r.numbers_of (counter_key queue_name id))
      ∙ following_lem (s.numbers (counter_key queue_name id))

  numbered_as_lem :
      (value : T)
      → ((numbered_as rt laws queue_name value q).0 ≡ (number_message rt.uniq queue_name value s).0)
        × ((numbered_as rt laws queue_name value q).1
            ≡ (number_message rt.uniq queue_name value s).1)
  unfolding numbered_as number_message
  numbered_as_lem value = ground (arith, next_id_lem (rt.uniq.get_id value))

  fresh_number :
      (id k : Bytes)
      → stored (lookup k (counters rt laws (after_next_id rt laws queue_name id q)))
        ≡ with_value (counter_key queue_name id) (some (next rt.uniq queue_name id s)) s.numbers k
  fresh_number id k =
      ap stored (lookup-after_next_id rt laws queue_name id k q)
      ∙ at (Bool-cases (same (counter_key queue_name id) k))
    where
      n : ℕ
      n = next_id rt laws queue_name id q

      below : n < 2 ^ 64
      below =
          unfold next_id in next_number-lt (lookup (counter_key queue_name id) (counters rt laws q))

      at :
          (same (counter_key queue_name id) k ≡ true) ⊎ (same (counter_key queue_name id) k ≡ false)
          → stored (
              if same (counter_key queue_name id) k
              then some (to_be_bytes n)
              else lookup k (counters rt laws q))
            ≡ (if same (counter_key queue_name id) k
                then some (next rt.uniq queue_name id s)
                else s.numbers k)
      at (inl e) =
          rw e (unfold stored in from_be_bytes-to_be_bytes n below ∙ ap some (next_id_lem id))
      at (inr e) = rw e (r.numbers_of k)

  numbers_after :
      (value : T) (k : Bytes)
      → stored (lookup k (counters rt laws (numbered_queue rt laws queue_name value q)))
        ≡ (number_message rt.uniq queue_name value s).2 k
  unfolding numbered_queue number_message
  numbers_after value k = elim (Option-cases (rt.uniq.get_sequence value)) [
    | inl e ↦ rw (numbered_queue, number_message, e) (fresh_number (rt.uniq.get_id value) k)
    | inr (n, e) ↦ rw (numbered_queue, number_message, e) (r.numbers_of k)
  ]

  module _ (u : IsUniqId rt.uniq) (to_vec-encode : (m : T) → rt.json.to_vec m ≡ ok (encode m))
      (other : same queue_name rt.sled.default_tree ≡ false) (value : T) (es : Entries T)
      (there : s.queues queue_name ≡ some es) where
    not_default : same rt.sled.default_tree queue_name ≡ false
    not_default = same_sym rt.sled.default_tree queue_name ∙ other

    exists : is_some (laws.trees q.map queue_name) ≡ true
    exists = ap is_some (r.queues_of queue_name not_default ∙ ap (stored_in encode) there)

    encoded :
        rt.json.to_vec (numbered_as rt laws queue_name value q).0
        ≡ ok (encode (number_message rt.uniq queue_name value s).0)
    encoded =
        to_vec-encode (numbered_as rt laws queue_name value q).0
        ∙ ap (λ m. ok (encode m)) (numbered_as_lem value).0

    -- The tree of the queue after a send holds the encodings of the abstract entries.
    sent_entries :
        (id : Bytes)
        → stored_entries q.max_key_updates id
            (get_id id (numbered_as rt laws queue_name value q).1)
            (encode (number_message rt.uniq queue_name value s).0)
            (entries rt laws queue_name q)
          ≡ on_values encode (
              stored_entries s.limit id
                (get_id id (number_message rt.uniq queue_name value s).1)
                (number_message rt.uniq queue_name value s).0
                es)
    sent_entries id =
        let m = (number_message rt.uniq queue_name value s).0 in
        let n = (number_message rt.uniq queue_name value s).1 in
        let before : entries rt laws queue_name q ≡ on_values encode es =
          entries_of rt laws encode queue_name other q s r
          ∙ ap (λ o. on_values encode (unwrap_or o [])) there in
        ap
          (λ l.
            stored_entries l id (get_id id (numbered_as rt laws queue_name value q).1) (encode m)
              (entries rt laws queue_name q))
          r.limit_of
        ∙ ap
            (λ i. stored_entries s.limit id (get_id id i) (encode m) (entries rt laws queue_name q))
            (numbered_as_lem value).1
        ∙ ap (stored_entries s.limit id (get_id id n) (encode m)) before
        ∙ sym (on_values-stored_entries encode s.limit id (get_id id n) m es)

    pub send_to_queue-Represents :
        ((send_to_queue rt queue_name value q).0 ≡ ok true)
        × Represents rt laws encode
            (send_to_queue rt queue_name value q).1
            (send_message rt.uniq queue_name value es s)
    unfolding send_message
    send_to_queue-Represents =
        let m = (number_message rt.uniq queue_name value s).0 in
        let (q', ran, sent) =
          send_to_queue-Sent rt laws u queue_name value (encode m) q not_default exists encoded in
        (ap (λ p. p.0) ran, rw ran (written q' sent))
      where
        stored_es : Entries T
        stored_es =
            let (m, n, numbers) = number_message rt.uniq queue_name value s in
            stored_entries s.limit (rt.uniq.get_id value) (get_id (rt.uniq.get_id value) n) m es

        written :
            (q' : Queue Db Sender)
            → Sent rt laws queue_name value
                (encode (number_message rt.uniq queue_name value s).0)
                q
                q'
            → Represents rt laws encode q' (send_message rt.uniq queue_name value es s)
        written q' sent = record {
          queues_of = λ j d. at j d (Bool-cases (same queue_name j));
          numbers_of = λ k.
              ap (λ o. stored (lookup k (unwrap_or o []))) sent.numbers ∙ numbers_after value k;
          limit_of = sent.limit ∙ r.limit_of;
        }
          where
            at :
                (j : Bytes)
                → same rt.sled.default_tree j ≡ false
                → (same queue_name j ≡ true) ⊎ (same queue_name j ≡ false)
                → laws.trees q'.map j
                  ≡ stored_in encode (if same queue_name j then some stored_es else s.queues j)
            at j d (inl e) = rw e (
                ap (laws.trees q'.map) (sym ((same_iff queue_name j).0 e))
                ∙ sent.stored
                ∙ ap some (sent_entries (rt.uniq.get_id value)))
            at j d (inr e) = rw e (sent.others j e d ∙ r.queues_of j d)
