-- ===== src/Server/Polling.antt =====
-- The long polls of sonya/src/main.rs on a queue that stands for an abstract store.
use web_queue.Common.{
  Bytes, codes, Option, none, some, List, Option-cases, ok, err, same, false, Result, ◌≡◌, refl,
  inl, inr,
}
use web_queue.Message.{RequestSequence}
use web_queue.Broadcast.{RecvError}
use web_queue.Sled.{IsReliable}
use web_queue.Sled.Ordered.{Entries}
use web_queue.Queue.State.{Runtime, Queue, PreparedStream}
use web_queue.Queue.Reads.{prepare_stream}
use web_queue.Queue.Abstract.{Store, asked, select, select_any}
use web_queue.Queue.Abstract.Represents.{Represents}
use web_queue.Queue.Abstract.Listening.{
  not_there_by_id, not_there_all, by_id_subscription, all_subscription,
}
use web_queue.Server.Http.{Responder, not_found}
use web_queue.Server.Connection.{taken}
use web_queue.Server.Handlers.{Progress, longpoll_by_id, longpoll_all, longpoll_response_factory}
use web_queue.Server.Connection.{has_ended}
use web_queue.Server.Longpoll.{answer, longpoll_response_factory_lem}

-- What a subscription's stream has yielded after these receipts.
abbrev pub after_receipts :
    {Receiver T : Type 0} → List (Result RecvError T) → PreparedStream Receiver T → Progress T
after_receipts recv s = record { yields = prepare_stream recv s.prev_items; ended = has_ended recv }

-- The answer by the abstract store: not found without the queue, else the messages asked for, or
-- the next one.
abbrev pub expected :
    {T : Type 0}
    → (Entries T → Option (List T))
    → List (Result RecvError T)
    → Option (Entries T)
    → Option (Responder T)
expected chosen recv none = some (err (not_found (codes "Queue Not Found")))
expected chosen recv (some es) = answer (chosen es) (taken recv) (has_ended recv)

module _ {Db DbError JsonError Sender Receiver T : Type 0}
    (rt : Runtime Db DbError JsonError Sender Receiver T) (laws : IsReliable rt.sled)
    (encode : T → Bytes) (decodes : (m : T) → rt.json.from_slice (encode m) ≡ ok m)
    (queue_name : Bytes) (other : same queue_name rt.sled.default_tree ≡ false)
    (q : Queue Db Sender) (s : Store T) (r : Represents rt laws encode q s)
    (sequence : RequestSequence) (recv : List (Result RecvError T)) where
  by_id_answer :
      (id : Bytes)
      → (longpoll_by_id rt queue_name id sequence (after_receipts recv) q).0
        ≡ expected (λ es. asked sequence (λ i. select id i es)) recv (s.queues queue_name)
  unfolding longpoll_by_id
  by_id_answer id = elim (Option-cases (s.queues queue_name)) [
    | inl missing ↦
        rw
          (
            missing,
            not_there_by_id rt laws encode decodes queue_name other q s r id sequence missing,
          )
          (unfold longpoll_response_factory in refl)
    | inr (es, there) ↦
        let (receiver, e) =
          by_id_subscription rt laws encode decodes queue_name other q s r es there id sequence in
        rw (there, e)
          (longpoll_response_factory_lem receiver recv DbError JsonError
            (asked sequence (λ i. select id i es)))
  ]

  all_answer :
      (longpoll_all rt queue_name sequence (after_receipts recv) q).0
      ≡ expected (λ es. asked sequence (λ i. select_any rt.uniq i es)) recv (s.queues queue_name)
  unfolding longpoll_all
  all_answer = elim (Option-cases (s.queues queue_name)) [
    | inl missing ↦
        rw (missing, not_there_all rt laws encode decodes queue_name other q s r sequence missing)
          (unfold longpoll_response_factory in refl)
    | inr (es, there) ↦
        let (receiver, e) =
          all_subscription rt laws encode decodes queue_name other q s r es there sequence in
        rw (there, e)
          (longpoll_response_factory_lem receiver recv DbError JsonError
            (asked sequence (λ i. select_any rt.uniq i es)))
  ]

  -- On storage that does not fail, for a queue other than the default tree that stands for an
  -- abstract store, and messages that are read back as they were written, both long polls answer by
  -- the store: not found where it has no such queue; else with the messages that the store selects
  -- for the sequence asked for, and where there are none with the next message received alone.
  pub longpoll-expected :
      (id : Bytes)
      → ((longpoll_by_id rt queue_name id sequence (after_receipts recv) q).0
          ≡ expected (λ es. asked sequence (λ i. select id i es)) recv (s.queues queue_name))
        × ((longpoll_all rt queue_name sequence (after_receipts recv) q).0
            ≡ expected
                (λ es. asked sequence (λ i. select_any rt.uniq i es))
                recv
                (s.queues queue_name))
  longpoll-expected id = (by_id_answer id, all_answer)
