-- ===== src/Server/Service.antt =====
-- The queue service as a whole (`App` in sonya/src/main.rs): a request is routed, its parts are
-- extracted, and the handler is called on the queue. The router and the extractors of actix-web are
-- parameters, and so is what a subscription receives while its request is served.
pub mod Handling
pub mod Access
pub mod Specified
pub mod Served
pub mod Guarded
use web_queue.Common.{
  ℕ, Bytes, codes, Option, none, some, List, [], ◌∷◌, Bool, true, false, Result, ok, err, unwrap_or,
  is_some,
}
use web_queue.Message.{RequestSequence}
use web_queue.Broadcast.{RecvError}
use web_queue.Api.{Secure, Web, JwtTokenResponse}
use web_queue.Api
use web_queue.Api.Routes.{
  Handler, create_queue, delete_from_queue, send_to_queue, close_queue, generate_jwt,
  subscribe_queue_longpoll, subscribe_queue_ws, subscribe_queue_by_id_longpoll,
  subscribe_queue_by_id_ws, service_registry_api, Request, Router, queue_scope_factory,
}
use web_queue.Queue.State.{Runtime, Queue, PreparedStream}
use web_queue.Queue.Abstract.{Store, asked, select, select_any, answer, create, close, delete, send}
use web_queue.Server.Http.{HttpError, Responder, created, success_json, not_found}
use web_queue.Server.Connection.{QueueConnection}
use web_queue.Server.Handlers.{
  post_create, post_delete, post_send, post_close, longpoll_by_id, longpoll_all, ws_by_id, ws_all,
}
use web_queue.Server.Polling.{after_receipts, expected}

-- What is read of a request of type `R`.
pub record Extractors (R HeaderValue T : Type 0) : Type 0 where
  pub request : R → Request HeaderValue
  -- the segments of the path
  pub queue_name : R → Bytes
  pub uniq_id : R → Bytes
  -- `extract_any_data_from_query::<SequenceQuery>`
  pub sequence_query : R → Option RequestSequence
  -- `web::Json<EventMessage>`, which refuses other bodies
  pub message : R → Option T
  pub received : R → List (Result RecvError T)

-- What becomes of a request: a response, a long poll that still waits, a websocket, a token (`none` is
-- a panic), a body that is no message, or no route.
pub data Outcome (Socket T : Type 0) : Type 0 where
  responds : Responder T → Outcome Socket T
  waits : Outcome Socket T
  opens : Result HttpError Socket → Outcome Socket T
  token : Option (Result HttpError JwtTokenResponse) → Outcome Socket T
  no_message : Outcome Socket T
  unrouted : Outcome Socket T

module _ {Socket T : Type 0} where
  abbrev pub polled : Option (Responder T) → Outcome Socket T
  polled none = waits
  polled (some r) = responds r

  -- an outcome with a state
  abbrev pub with_state : {A Q : Type 0} → (A → Outcome Socket T) → A × Q → Outcome Socket T × Q
  with_state f p = (f p.0, p.1)

-- `get_sequence_from_req`, with the default of `SequenceQuery`
unfoldable pub get_sequence_from_req : Option RequestSequence → RequestSequence
get_sequence_from_req query = unwrap_or query none

abbrev pub sequence_of :
    {R HeaderValue T : Type 0} → Extractors R HeaderValue T → R → RequestSequence
sequence_of x r = get_sequence_from_req (x.sequence_query r)

module _ {R HeaderValue T : Type 0} (x : Extractors R HeaderValue T) (web : Web HeaderValue)
    (time_after : ℕ → Option (Result Bytes ℕ)) (secure : Option Secure) where
  abbrev pub token_for : {Socket : Type 0} → R → Option Secure → Outcome Socket T
  token_for r none = unrouted
  token_for r (some st) = token (Api.generate_jwt web st (x.queue_name r) (x.uniq_id r) time_after)

  module _ {Db DbError JsonError Sender Receiver : Type 0}
      (rt : Runtime Db DbError JsonError Sender Receiver T) where
    abbrev pub Socket : Type 0
    Socket = QueueConnection (PreparedStream Receiver T)

    abbrev pub send_json : R → Option T → Queue Db Sender → Outcome Socket T × Queue Db Sender
    send_json r none q = (no_message, q)
    send_json r (some m) q = with_state responds (post_send rt (x.queue_name r) m q)

    -- The handlers by their names in the table of routes.
    unfoldable pub handle : Handler → R → Queue Db Sender → Outcome Socket T × Queue Db Sender
    handle create_queue r q = with_state responds (post_create rt (x.queue_name r) q)
    handle delete_from_queue r q =
        with_state responds (post_delete rt (x.queue_name r) (x.uniq_id r) q)
    handle send_to_queue r q = send_json r (x.message r) q
    handle close_queue r q = with_state responds (post_close rt (x.queue_name r) q)
    handle generate_jwt r q = (token_for r secure, q)
    handle subscribe_queue_longpoll r q =
        with_state polled
          (longpoll_all rt (x.queue_name r) (sequence_of x r) (after_receipts (x.received r)) q)
    handle subscribe_queue_ws r q =
        with_state opens (ws_all rt (x.queue_name r) (sequence_of x r) q)
    handle subscribe_queue_by_id_longpoll r q = with_state polled (
        longpoll_by_id rt (x.queue_name r) (x.uniq_id r) (sequence_of x r)
          (after_receipts (x.received r)) q)
    handle subscribe_queue_by_id_ws r q =
        with_state opens (ws_by_id rt (x.queue_name r) (x.uniq_id r) (sequence_of x r) q)
    handle service_registry_api r q = (unrouted, q)

    abbrev pub handle_routed :
        Option Handler → R → Queue Db Sender → Outcome Socket T × Queue Db Sender
    handle_routed none r q = (unrouted, q)
    handle_routed (some h) r q = handle h r q

    -- one request to the service
    unfoldable pub serve :
        Router HeaderValue → R → Queue Db Sender → Outcome Socket T × Queue Db Sender
    serve router r q =
        handle_routed (router.dispatch (queue_scope_factory web secure) (x.request r)) r q

    unfoldable pub serve_all :
        Router HeaderValue → List R → Queue Db Sender → List (Outcome Socket T) × Queue Db Sender
    serve_all router [] q = ([], q)
    serve_all router (r ∷ rs) q =
        let (o, q') = serve router r q in let (os, q'') = serve_all router rs q' in (o ∷ os, q'')
