-- ===== src/Queue/Abstract/Refinement.antt =====
-- The queue of sonya/src/queue/map.rs implements the abstract store.
use web_queue.Common.{
  Bytes, none, List, [], ◌∷◌, false, same, ok, ◌≡◌, refl, ap, ◌∙◌, is_some, Option-cases, inl, inr,
}
use web_queue.Message.{RequestSequence}
use web_queue.Message.Interface.{IsUniqId}
use web_queue.Sled.{IsReliable}
use web_queue.Queue.State.{Runtime, Queue}
use web_queue.Queue.Methods.{
  create_queue, close_queue, delete_queue, send_to_queue, subscribe_queue, subscribe_queue_by_id,
}
use web_queue.Queue.Deletion.{create_queue_lem, close_queue_lem, delete_queue_lem}
use web_queue.Queue.Failures.{missing_queue}
use web_queue.Queue.Abstract.{
  Store, Request, create, close, delete, send, listen, listen_all, Answer, done, told, answer,
}
use web_queue.Queue.Abstract.Represents.{
  Represents, exists_of, create_queue-Represents, close_queue-Represents, delete_queue-Represents,
  is_some-stored_in,
}
use web_queue.Queue.Abstract.Sending.{send_to_queue-Represents}
use web_queue.Queue.Abstract.Listening.{
  loaded_by, reply, not_there_by_id, not_there_all, subscribe_queue_by_id-Represents,
  subscribe_queue-Represents,
}
use web_queue.Common.{same_sym}

-- The queue that a request names.
abbrev pub named : {T : Type 0} → Request T → Bytes
named (create queue_name) = queue_name
named (close queue_name) = queue_name
named (delete queue_name id) = queue_name
named (send queue_name value) = queue_name
named (listen queue_name id sequence) = queue_name
named (listen_all queue_name sequence) = queue_name

module _ {Db DbError JsonError Sender Receiver T : Type 0}
    (rt : Runtime Db DbError JsonError Sender Receiver T) where
  -- A request to the queue, by its method.
  unfoldable pub perform : Request T → Queue Db Sender → Answer T × Queue Db Sender
  perform (create queue_name) q =
      let (r, q') = create_queue rt queue_name q in (reply (λ _. done) r, q')
  perform (close queue_name) q = let (r, q') = close_queue rt queue_name q in (reply told r, q')
  perform (delete queue_name id) q =
      let (r, q') = delete_queue rt queue_name id q in (reply (λ _. done) r, q')
  perform (send queue_name value) q =
      let (r, q') = send_to_queue rt queue_name value q in (reply told r, q')
  perform (listen queue_name id sequence) q =
      let (r, q') = subscribe_queue_by_id rt queue_name id sequence q in (reply loaded_by r, q')
  perform (listen_all queue_name sequence) q =
      let (r, q') = subscribe_queue rt queue_name sequence q in (reply loaded_by r, q')

  unfoldable pub perform_all :
      List (Request T) → Queue Db Sender → List (Answer T) × Queue Db Sender
  perform_all [] q = ([], q)
  perform_all (r ∷ rs) q =
      let (a, q') = perform r q in let (l, q'') = perform_all rs q' in (a ∷ l, q'')

  -- No request names the database's own default tree.
  abbrev pub NoneDefault : List (Request T) → Type 0
  NoneDefault [] = Unit
  NoneDefault (r ∷ rs) = (same (named r) rt.sled.default_tree ≡ false) × NoneDefault rs

  module _ (laws : IsReliable rt.sled) (u : IsUniqId rt.uniq) (encode : T → Bytes)
      (encodes : (m : T) → rt.json.to_vec m ≡ ok (encode m))
      (decodes : (m : T) → rt.json.from_slice (encode m) ≡ ok m) where
    abbrev pub Agrees : Answer T × Queue Db Sender → Answer T × Store T → Type 0
    Agrees (a, q) (b, s) = (a ≡ b) × Represents rt laws encode q s

    send_Agrees :
        (queue_name : Bytes) (value : T) (q : Queue Db Sender) (s : Store T)
        → same queue_name rt.sled.default_tree ≡ false
        → Represents rt laws encode q s
        → Agrees (perform (send queue_name value) q) (answer rt.uniq (send queue_name value) s)
    unfolding perform answer
    send_Agrees queue_name value q s other r = elim (Option-cases (s.queues queue_name)) [
      | inl e ↦
          let missing = exists_of rt laws encode queue_name other q s r ∙ ap is_some e in
          let unsent = (missing_queue rt queue_name queue_name value none q missing).0 in
          rw (e, unsent) (refl, r)
      | inr (es, e) ↦
          let (ran, kept) =
            send_to_queue-Represents rt laws encode queue_name q s r u encodes other value es e in
          rw e (ap (reply told) ran, kept)
    ]

    listen_Agrees :
        (queue_name id : Bytes) (sequence : RequestSequence) (q : Queue Db Sender) (s : Store T)
        → same queue_name rt.sled.default_tree ≡ false
        → Represents rt laws encode q s
        → Agrees
            (perform (listen queue_name id sequence) q)
            (answer rt.uniq (listen queue_name id sequence) s)
    unfolding perform answer
    listen_Agrees queue_name id sequence q s other r = elim (Option-cases (s.queues queue_name)) [
      | inl e ↦
          rw (e, not_there_by_id rt laws encode decodes queue_name other q s r id sequence e)
            (refl, r)
      | inr (es, e) ↦ rw e (
          subscribe_queue_by_id-Represents rt laws encode decodes queue_name other q s r es e id
            sequence)
    ]

    listen_all_Agrees :
        (queue_name : Bytes) (sequence : RequestSequence) (q : Queue Db Sender) (s : Store T)
        → same queue_name rt.sled.default_tree ≡ false
        → Represents rt laws encode q s
        → Agrees
            (perform (listen_all queue_name sequence) q)
            (answer rt.uniq (listen_all queue_name sequence) s)
    unfolding perform answer
    listen_all_Agrees queue_name sequence q s other r = elim (Option-cases (s.queues queue_name)) [
      | inl e ↦
          rw (e, not_there_all rt laws encode decodes queue_name other q s r sequence e) (refl, r)
      | inr (es, e) ↦
          rw e
            (subscribe_queue-Represents rt laws encode decodes queue_name other q s r es e sequence)
    ]

    pub perform-Agrees :
        (req : Request T) (q : Queue Db Sender) (s : Store T)
        → same (named req) rt.sled.default_tree ≡ false
        → Represents rt laws encode q s
        → Agrees (perform req q) (answer rt.uniq req s)
    unfolding perform answer
    perform-Agrees (create queue_name) q s other r = (
      ap (reply (λ _. done)) (create_queue_lem rt laws queue_name q).0,
      create_queue-Represents rt laws encode queue_name other q s r,
    )
    perform-Agrees (close queue_name) q s other r =
        let d = same_sym rt.sled.default_tree queue_name ∙ other in
        (
          ap (reply told) (close_queue_lem rt laws queue_name q other).0
              ∙ ap told (
                  ap is_some (r.queues_of queue_name d)
                  ∙ is_some-stored_in encode (s.queues queue_name)),
          close_queue-Represents rt laws encode queue_name other q s r,
        )
    perform-Agrees (delete queue_name id) q s other r = (
      ap (reply (λ _. done)) (delete_queue_lem rt laws queue_name id q).0,
      delete_queue-Represents rt laws encode queue_name other id q s r,
    )
    perform-Agrees (send queue_name value) q s other r = send_Agrees queue_name value q s other r
    perform-Agrees (listen queue_name id sequence) q s other r =
        listen_Agrees queue_name id sequence q s other r
    perform-Agrees (listen_all queue_name sequence) q s other r =
        listen_all_Agrees queue_name sequence q s other r
