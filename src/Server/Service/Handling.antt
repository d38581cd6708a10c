-- ===== src/Server/Service/Handling.antt =====
-- One request to the queue service of sonya/src/main.rs, beside the abstract store.
use web_queue.Common.{
  Bytes, none, some, Bool, true, false, Result, ok, err, is_some, ◌≡◌, refl, ◌∙◌, arith, same,
  Option-cases, inl, inr,
}
use web_queue.Message.{RequestSequence}
use web_queue.Message.Interface.{IsUniqId}
use web_queue.Sled.{IsReliable}
use web_queue.Queue.State.{Runtime, Queue}
use web_queue.Queue.Methods
use web_queue.Queue.Abstract.{Store, asked, select, select_any, told, answer, close, send}
use web_queue.Queue.Abstract.Represents.{Represents}
use web_queue.Queue.Abstract.Listening.{
  reply, not_there_by_id, not_there_all, by_id_subscription, all_subscription,
}
use web_queue.Queue.Abstract.Refinement.{perform, perform-Agrees}
use web_queue.Queue.Deletion.{create_queue_lem, delete_queue_lem}
use web_queue.Server.Http.{created, success_json}
use web_queue.Server.Connection
use web_queue.Server.Connection.{QueueConnection}
use web_queue.Server.Handlers.{
  post_create, post_delete, post_send, post_close, ws_by_id, ws_all, ws_response_factory,
}
use web_queue.Server.Service.Specified.{opening_of, opened}

told_ok : {E T : Type 0} (r : Result E Bool) (b : Bool) → reply {T = T} told r ≡ told b → r ≡ ok b
told_ok (ok a) b h = cc
told_ok (err e) b h = cc

module _ {Db DbError JsonError Sender Receiver T : Type 0}
    (rt : Runtime Db DbError JsonError Sender Receiver T) (laws : IsReliable rt.sled)
    (u : IsUniqId rt.uniq) (encode : T → Bytes)
    (encodes : (m : T) → rt.json.to_vec m ≡ ok (encode m))
    (decodes : (m : T) → rt.json.from_slice (encode m) ≡ ok m) (queue_name : Bytes)
    (other : same queue_name rt.sled.default_tree ≡ false) (q : Queue Db Sender) (s : Store T)
    (r : Represents rt laws encode q s) where
  answer_told :
      (m : T) → (answer rt.uniq (send queue_name m) s).0 ≡ told (is_some (s.queues queue_name))
  unfolding answer
  answer_told m = elim (Option-cases (s.queues queue_name)) [
    | inl e ↦ rw e refl
    | inr (es, e) ↦ rw e refl
  ]

  pub create_handled :
      (post_create rt queue_name q)
      ≡ (ok (created (record { success = true })), (Methods.create_queue rt queue_name q).1)
  unfolding post_create
  create_handled = ground (arith, (create_queue_lem rt laws queue_name q).0)

  pub delete_handled :
      (id : Bytes)
      → (post_delete rt queue_name id q) ≡ (
        ok (success_json (record { success = true })),
        (Methods.delete_queue rt queue_name id q).1,
      )
  unfolding post_delete
  delete_handled id = ground (arith, (delete_queue_lem rt laws queue_name id q).0)

  pub close_handled : (post_close rt queue_name q) ≡ (
    ok (success_json (record { success = is_some (s.queues queue_name) })),
    (Methods.close_queue rt queue_name q).1,
  )
  unfolding post_close perform answer
  close_handled =
      let closed =
        told_ok (Methods.close_queue rt queue_name q).0 (is_some (s.queues queue_name))
          (perform-Agrees rt laws u encode encodes decodes (close queue_name) q s other r).0 in
      ground (arith, closed)

  pub send_handled :
      (m : T)
      → (post_send rt queue_name m q) ≡ (
        ok (success_json (record { success = is_some (s.queues queue_name) })),
        (Methods.send_to_queue rt queue_name m q).1,
      )
  unfolding post_send perform
  send_handled m =
      let was_sent =
        told_ok (Methods.send_to_queue rt queue_name m q).0 (is_some (s.queues queue_name)) (
          (perform-Agrees rt laws u encode encodes decodes (send queue_name m) q s other r).0
          ∙ answer_told m) in
      ground (arith, was_sent)

  pub ws_by_id_opens :
      (id : Bytes) (sequence : RequestSequence)
      → opening_of (ws_by_id rt queue_name id sequence q).0
        ≡ opened queue_name
            (some id)
            (λ es. asked sequence (λ i. select id i es))
            (s.queues queue_name)
  unfolding ws_by_id ws_response_factory opened Connection.new
  ws_by_id_opens id sequence = elim (Option-cases (s.queues queue_name)) [
    | inl missing ↦
        rw
          (
            missing,
            not_there_by_id rt laws encode decodes queue_name other q s r id sequence missing,
          )
          refl
    | inr (es, there) ↦
        let (receiver, e) =
          by_id_subscription rt laws encode decodes queue_name other q s r es there id sequence in
        rw (there, e) refl
  ]

  pub ws_all_opens :
      (sequence : RequestSequence)
      → opening_of (ws_all rt queue_name sequence q).0
        ≡ opened queue_name none
            (λ es. asked sequence (λ i. select_any rt.uniq i es))
            (s.queues queue_name)
  unfolding ws_all ws_response_factory opened Connection.new
  ws_all_opens sequence = elim (Option-cases (s.queues queue_name)) [
    | inl missing ↦
        rw (missing, not_there_all rt laws encode decodes queue_name other q s r sequence missing)
          refl
    | inr (es, there) ↦
        let (receiver, e) =
          all_subscription rt laws encode decodes queue_name other q s r es there sequence in
        rw (there, e) refl
  ]
