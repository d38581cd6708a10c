-- ===== src/Queue/Resetting.antt =====
-- A queue with the name of the database's default tree, in which sonya/src/queue/map.rs keeps the
-- counters.
use web_queue.Common.{
  Bytes, codes, none, [], ◌++◌, not, false, ok, ◌≡◌, refl, ap, ◌∙◌, has_prefix, has_prefix-append,
  unwrap_or,
}
use web_queue.Sled.{IsReliable}
use web_queue.Sled.Ordered.{lookup, lookup-keep}
use web_queue.Queue.State.{Runtime, Queue}
use web_queue.Queue.Methods.{delete_queue, generate_next_id, counter_key, stored, checked_next}
use web_queue.Queue.Counters.{counters, next_id, next_number, generate_next_id_lem}
use web_queue.Queue.Storage.{entries}
use web_queue.Queue.Deletion.{delete_queue_lem}

module _ {Db DbError JsonError Sender Receiver T : Type 0}
    (rt : Runtime Db DbError JsonError Sender Receiver T) (laws : IsReliable rt.sled) where
  abbrev reset : Queue Db Sender → Queue Db Sender
  reset q = (delete_queue rt rt.sled.default_tree (codes "id_") q).1

  no_counter :
      (queue_name id : Bytes) (q : Queue Db Sender)
      → lookup (counter_key queue_name id) (counters rt laws (reset q)) ≡ none
  no_counter queue_name id q =
      ap (λ o. lookup (counter_key queue_name id) (unwrap_or o []))
        (delete_queue_lem rt laws rt.sled.default_tree (codes "id_") q).1
      ∙ lookup-keep (counter_key queue_name id) (λ e. not (has_prefix (codes "id_") e.0)) false
          (entries rt laws rt.sled.default_tree q)
          (λ w. unfold counter_key in ap not (has_prefix-append (codes "id_") (queue_name ++ id)))

  -- On storage that does not fail, a deletion of the id "id_" from the queue that is named like the
  -- database's default tree sets all numbering back: the next number of every queue and id is 1.
  pub delete_queue-resets :
      (queue_name id : Bytes) (q : Queue Db Sender)
      → (generate_next_id rt queue_name id
          (delete_queue rt rt.sled.default_tree (codes "id_") q).1).0
        ≡ ok 1
  delete_queue-resets queue_name id q = rw (generate_next_id_lem rt laws queue_name id (reset q)) (
      ap ok (
        unfold next_id in
        ap next_number (no_counter queue_name id q)
        ∙ unfold next_number stored checked_next in refl))
