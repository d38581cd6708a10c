-- ===== src/Server/Statuses.antt =====
-- Which responses the handlers of sonya/src/main.rs give for a queue that is made, closed and missing.
use web_queue.Common.{
  Bytes, codes, some, Bool, true, false, ok, err, ◌≡◌, refl, arith, ap, ◌∙◌, same, same_refl, none,
  is_some,
}
use web_queue.Message.{RequestSequence}
use web_queue.Queue.State.{Runtime, Queue, PreparedStream}
use web_queue.Queue.Methods.{create_queue, delete_queue, close_queue, check_tree_exists}
use web_queue.Sled.{IsReliable}
use web_queue.Queue.Storage.{entries}
use web_queue.Queue.Sending.{others_than}
use web_queue.Queue.Deletion.{create_queue_lem, close_queue_lem, delete_queue_lem}
use web_queue.Queue.Failures.{missing_queue}
use web_queue.Server.Http.{not_found, success_json, created}
use web_queue.Server.Handlers.{
  Progress, post_create, post_delete, post_send, post_close, longpoll_by_id, longpoll_all, ws_by_id,
  ws_all, longpoll_response_factory, ws_response_factory,
}

module _ {Db DbError JsonError Sender Receiver T : Type 0}
    (rt : Runtime Db DbError JsonError Sender Receiver T) (queue_name id : Bytes) (value : T)
    (q : Queue Db Sender) where
  -- For a queue that does not exist, listening in any of the four ways is answered with "not found",
  -- and sending with success = false; the queue's state does not change.
  missing_queue_responses :
      (sequence : RequestSequence) (run : PreparedStream Receiver T → Progress T)
      → check_tree_exists rt queue_name q ≡ false
      → (longpoll_by_id rt queue_name id sequence run q
          ≡ (some (err (not_found (codes "Queue Not Found"))), q))
        × (longpoll_all rt queue_name sequence run q
            ≡ (some (err (not_found (codes "Queue Not Found"))), q))
        × (ws_by_id rt queue_name id sequence q ≡ (err (not_found (codes "Queue Not Found")), q))
        × (ws_all rt queue_name sequence q ≡ (err (not_found (codes "Queue Not Found")), q))
        × (post_send rt queue_name value q ≡ (ok (success_json (record { success = false })), q))
  unfolding longpoll_by_id longpoll_all ws_by_id ws_all post_send longpoll_response_factory
      ws_response_factory
  missing_queue_responses sequence run h =
      let (unsent, all, by_id) = missing_queue rt queue_name id value sequence q h in
      (rw by_id refl, rw all refl, rw by_id refl, rw all refl, rw unsent refl)

module _ {Db DbError JsonError Sender Receiver T : Type 0}
    (rt : Runtime Db DbError JsonError Sender Receiver T) (laws : IsReliable rt.sled)
    (queue_name : Bytes) where
  close_answer :
      (q : Queue Db Sender) (b : Bool)
      → (close_queue rt queue_name q).0 ≡ ok b
      → (post_close rt queue_name q).0 ≡ ok (success_json (record { success = b }))
  unfolding post_close
  close_answer q b h = ground (arith, h)

  close_state :
      (q : Queue Db Sender) → (post_close rt queue_name q).1 ≡ (close_queue rt queue_name q).1
  unfolding post_close
  close_state q = ground arith

  create_answer :
      (q : Queue Db Sender)
      → (post_create rt queue_name q).0 ≡ ok (created (record { success = true }))
  unfolding post_create
  create_answer q = ground (arith, (create_queue_lem rt laws queue_name q).0)

  create_state :
      (q : Queue Db Sender) → (post_create rt queue_name q).1 ≡ (create_queue rt queue_name q).1
  unfolding post_create
  create_state q = ground arith

  delete_answer :
      (id : Bytes) (q : Queue Db Sender)
      → (post_delete rt queue_name id q).0 ≡ ok (success_json (record { success = true }))
  unfolding post_delete
  delete_answer id q = ground (arith, (delete_queue_lem rt laws queue_name id q).0)

  delete_state :
      (id : Bytes) (q : Queue Db Sender)
      → (post_delete rt queue_name id q).1 ≡ (delete_queue rt queue_name id q).1
  unfolding post_delete
  delete_state id q = ground arith

  -- On storage that does not fail, in whatever state and for a name other than the default tree's:
  -- a queue is created and answered to be; closing it then answers true, closing it once more
  -- false; a deletion from the closed queue succeeds and makes the queue again, so that closing it
  -- after this answers true.
  post_close-post_create :
      (id : Bytes) (q : Queue Db Sender)
      → same queue_name rt.sled.default_tree ≡ false
      → let q1 = (post_create rt queue_name q).1 in
        let q2 = (post_close rt queue_name q1).1 in
        let q3 = (post_delete rt queue_name id q2).1 in
        ((post_create rt queue_name q).0 ≡ ok (created (record { success = true })))
        × ((post_close rt queue_name q1).0 ≡ ok (success_json (record { success = true })))
        × ((post_close rt queue_name q2).0 ≡ ok (success_json (record { success = false })))
        × ((post_delete rt queue_name id q2).0 ≡ ok (success_json (record { success = true })))
        × ((post_close rt queue_name q3).0 ≡ ok (success_json (record { success = true })))
  post_close-post_create id q other = (
    create_answer q,
    close_answer q1 true
        ((close_queue_lem rt laws queue_name q1 other).0 ∙ ap (λ t. ok (is_some t)) made),
    close_answer q2 false
        ((close_queue_lem rt laws queue_name q2 other).0 ∙ ap (λ t. ok (is_some t)) gone),
    delete_answer id q2,
    close_answer q3 true
        ((close_queue_lem rt laws queue_name q3 other).0 ∙ ap (λ t. ok (is_some t)) again),
  )
    where
      q1 : Queue Db Sender
      q1 = (post_create rt queue_name q).1

      q2 : Queue Db Sender
      q2 = (post_close rt queue_name q1).1

      q3 : Queue Db Sender
      q3 = (post_delete rt queue_name id q2).1

      made : laws.trees q1.map queue_name ≡ some (entries rt laws queue_name q)
      made =
          ap (λ s. laws.trees s.map queue_name) (create_state q)
          ∙ (create_queue_lem rt laws queue_name q).2 queue_name
          ∙ rw (same_refl queue_name) refl

      gone : laws.trees q2.map queue_name ≡ none
      gone =
          ap (λ s. laws.trees s.map queue_name) (close_state q1)
          ∙ (close_queue_lem rt laws queue_name q1 other).2 queue_name
          ∙ rw (same_refl queue_name) refl

      again : laws.trees q3.map queue_name ≡ some (others_than id (entries rt laws queue_name q2))
      again =
          ap (λ s. laws.trees s.map queue_name) (delete_state id q2)
          ∙ (delete_queue_lem rt laws queue_name id q2).1
