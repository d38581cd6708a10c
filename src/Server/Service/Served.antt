-- ===== src/Server/Service/Served.antt =====
-- The queue service of sonya/src/main.rs implements the abstract store's service.
use web_queue.Common.{
  ℕ, Bytes, Option, none, some, List, [], ◌∷◌, false, Result, ok, ◌≡◌, refl, ap, ◌∙◌, same, map,
}
use web_queue.Message.Interface.{IsUniqId}
use web_queue.Sled.{IsReliable}
use web_queue.Api.{Secure, Web}
use web_queue.Api.Routes.{
  Handler, create_queue, delete_from_queue, send_to_queue, close_queue, generate_jwt,
  subscribe_queue_longpoll, subscribe_queue_ws, subscribe_queue_by_id_longpoll,
  subscribe_queue_by_id_ws, service_registry_api, Router,
}
use web_queue.Queue.State.{Runtime, Queue, PreparedStream}
use web_queue.Queue.Abstract.{
  Store, Request, create, close, delete, send, listen, listen_all, answer,
}
use web_queue.Queue.Abstract.Represents.{Represents}
use web_queue.Queue.Abstract.Refinement.{perform, perform-Agrees, named}
use web_queue.Queue.Abstract.Refinement.{Agrees as Alike}
use web_queue.Server.Handlers.{longpoll_by_id, longpoll_all, ws_by_id, ws_all}
use web_queue.Server.Connection.{QueueConnection}
use web_queue.Server.Http.{Responder}
use web_queue.Server.Polling.{longpoll-expected}
use web_queue.Server.Service.{
  Extractors, Outcome, opens, polled, token_for, handle, handle_routed, send_json, serve, serve_all,
}
use web_queue.Server.Service.Handling.{
  create_handled, delete_handled, close_handled, send_handled, ws_by_id_opens, ws_all_opens,
}
use web_queue.Server.Service.Access.{token_lem, requested, requested_lem, table, table_lem}
use web_queue.Server.Service.Specified.{
  Opening, observed, message_sent, specified, specified_routed, specified_all,
}

module _ {R HeaderValue T : Type 0} (x : Extractors R HeaderValue T) where
  -- No request names the database's own default tree.
  abbrev pub NoneDefault : Bytes → List R → Type 0
  NoneDefault tree [] = Unit
  NoneDefault tree (r ∷ rs) = (same (x.queue_name r) tree ≡ false) × NoneDefault tree rs

observed-polled :
    (Receiver : Type 0) {T : Type 0} (o : Option (Responder T))
    → observed {Receiver = Receiver} (polled o) ≡ polled o
unfolding observed
observed-polled _ none = refl
observed-polled _ (some r) = refl

module _ {R HeaderValue T : Type 0} (x : Extractors R HeaderValue T) (web : Web HeaderValue)
    (time_after : ℕ → Option (Result Bytes ℕ)) (secure : Option Secure)
    {Db DbError JsonError Sender Receiver : Type 0}
    (rt : Runtime Db DbError JsonError Sender Receiver T) (laws : IsReliable rt.sled)
    (u : IsUniqId rt.uniq) (encode : T → Bytes)
    (encodes : (m : T) → rt.json.to_vec m ≡ ok (encode m))
    (decodes : (m : T) → rt.json.from_slice (encode m) ≡ ok m) where
  abbrev pub Agrees :
      Outcome (QueueConnection (PreparedStream Receiver T)) T × Queue Db Sender
      → Outcome (Opening T) T × Store T
      → Type 0
  Agrees (o, q) (o', s) = (observed o ≡ o') × Represents rt laws encode q s

  agreed :
      (req : Request T) (q : Queue Db Sender) (s : Store T)
      → same (named req) rt.sled.default_tree ≡ false
      → Represents rt laws encode q s
      → Alike rt laws u encode encodes decodes (perform rt req q) (answer rt.uniq req s)
  agreed = perform-Agrees rt laws u encode encodes decodes

  token_observed :
      (r : R) (st : Option Secure)
      → observed {Receiver = Receiver} (token_for x web time_after secure r st)
        ≡ token_for x web time_after secure r st
  unfolding observed
  token_observed r none = refl
  token_observed r (some st) = refl

  sent_Agrees :
      (r : R) (m : Option T) (q : Queue Db Sender) (s : Store T)
      → same (x.queue_name r) rt.sled.default_tree ≡ false
      → Represents rt laws encode q s
      → Agrees
          (send_json x web time_after secure rt r m q)
          (message_sent rt.uniq (x.queue_name r) m s)
  unfolding observed perform message_sent
  sent_Agrees r none q s other rep = (refl, rep)
  sent_Agrees r (some m) q s other rep =
      rw (send_handled rt laws u encode encodes decodes (x.queue_name r) other q s rep m)
        (refl, (agreed (send (x.queue_name r) m) q s other rep).1)

  handle-Agrees :
      (h : Handler) (r : R) (q : Queue Db Sender) (s : Store T)
      → same (x.queue_name r) rt.sled.default_tree ≡ false
      → Represents rt laws encode q s
      → Agrees
          (handle x web time_after secure rt h r q)
          (specified x web time_after secure rt.uniq h r s)
  unfolding handle specified observed perform longpoll_by_id longpoll_all ws_by_id ws_all answer
  handle-Agrees create_queue r q s other rep =
      rw (create_handled rt laws u encode encodes decodes (x.queue_name r) other q s rep)
        (refl, (agreed (create (x.queue_name r)) q s other rep).1)
  handle-Agrees delete_from_queue r q s other rep =
      rw
        (delete_handled rt laws u encode encodes decodes (x.queue_name r) other q s rep
          (x.uniq_id r))
        (refl, (agreed (delete (x.queue_name r) (x.uniq_id r)) q s other rep).1)
  handle-Agrees send_to_queue r q s other rep = sent_Agrees r (x.message r) q s other rep
  handle-Agrees close_queue r q s other rep =
      rw (close_handled rt laws u encode encodes decodes (x.queue_name r) other q s rep)
        (refl, (agreed (close (x.queue_name r)) q s other rep).1)
  handle-Agrees generate_jwt r q s other rep =
      (token_observed r secure ∙ token_lem x web time_after r secure secure, rep)
  handle-Agrees subscribe_queue_longpoll r q s other rep = rw (requested_lem (x.sequence_query r)) (
    observed-polled Receiver _
        ∙ ap polled
            (longpoll-expected rt laws encode decodes (x.queue_name r) other q s rep
              (requested (x.sequence_query r)) (x.received r) []).1,
    (agreed (listen_all (x.queue_name r) (requested (x.sequence_query r))) q s other rep).1,
  )
  handle-Agrees subscribe_queue_ws r q s other rep = rw (requested_lem (x.sequence_query r)) (
    ap opens (
        ws_all_opens rt laws u encode encodes decodes (x.queue_name r) other q s rep
          (requested (x.sequence_query r))),
    (agreed (listen_all (x.queue_name r) (requested (x.sequence_query r))) q s other rep).1,
  )
  handle-Agrees subscribe_queue_by_id_longpoll r q s other rep =
      rw (requested_lem (x.sequence_query r)) (
        observed-polled Receiver _
            ∙ ap polled
                (longpoll-expected rt laws encode decodes (x.queue_name r) other q s rep
                  (requested (x.sequence_query r)) (x.received r) (x.uniq_id r)).0,
        (agreed (listen (x.queue_name r) (x.uniq_id r) (requested (x.sequence_query r))) q s other
            rep).1,
      )
  handle-Agrees subscribe_queue_by_id_ws r q s other rep = rw (requested_lem (x.sequence_query r)) (
    ap opens (
        ws_by_id_opens rt laws u encode encodes decodes (x.queue_name r) other q s rep (x.uniq_id r)
          (requested (x.sequence_query r))),
    (agreed (listen (x.queue_name r) (x.uniq_id r) (requested (x.sequence_query r))) q s other
        rep).1,
  )
  handle-Agrees service_registry_api r q s other rep = (refl, rep)

  pub routed-Agrees :
      (h : Option Handler) (r : R) (q : Queue Db Sender) (s : Store T)
      → same (x.queue_name r) rt.sled.default_tree ≡ false
      → Represents rt laws encode q s
      → Agrees
          (handle_routed x web time_after secure rt h r q)
          (specified_routed x web time_after secure rt.uniq h r s)
  unfolding specified_routed observed
  routed-Agrees none r q s other rep = (refl, rep)
  routed-Agrees (some h) r q s other rep = handle-Agrees h r q s other rep

  pub serve-Agrees :
      (router : Router HeaderValue) (r : R) (q : Queue Db Sender) (s : Store T)
      → same (x.queue_name r) rt.sled.default_tree ≡ false
      → Represents rt laws encode q s
      → Agrees (serve x web time_after secure rt router r q) (
          specified_routed x web time_after secure rt.uniq
            (router.dispatch (table web secure) (x.request r))
            r
            s)
  unfolding serve
  serve-Agrees router r q s other rep =
      rw (table_lem web secure)
        (routed-Agrees (router.dispatch (table web secure) (x.request r)) r q s other rep)

  pub serve_all-specified :
      (router : Router HeaderValue) (rs : List R) (q : Queue Db Sender) (s : Store T)
      → NoneDefault x rt.sled.default_tree rs
      → Represents rt laws encode q s
      → let (served, q') = serve_all x web time_after secure rt router rs q in
        let (told, s') = specified_all x web time_after secure rt.uniq router rs s in
        (map observed served ≡ told) × Represents rt laws encode q' s'
  unfolding serve_all specified_all
  serve_all-specified router [] q s none_default rep = (refl, rep)
  serve_all-specified router (r ∷ rs) q s (other, none_default) rep =
      let h = router.dispatch (table web secure) (x.request r) in
      let (same_answer, rep') = serve-Agrees router r q s other rep in
      let (same_rest, rep'') =
        serve_all-specified router rs (serve x web time_after secure rt router r q).1
          (specified_routed x web time_after secure rt.uniq h r s).1 none_default rep' in
      (
        ap
              (λ o.
                o
                ∷ map observed
                    (serve_all x web time_after secure rt router rs
                      (serve x web time_after secure rt router r q).1).0)
              same_answer
            ∙ ap (◌∷◌ (specified_routed x web time_after secure rt.uniq h r s).0) same_rest,
        rep'',
      )
