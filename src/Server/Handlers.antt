-- ===== src/Server/Handlers.antt =====
-- The handlers of sonya/src/main.rs.
use web_queue.Common.{
  ℕ, zero, suc, Bytes, codes, Option, none, some, List, [], ◌∷◌, Bool, true, Result, ok, err, max,
  unwrap_or, if◌then◌else◌,
}
use web_queue.Message.{RequestSequence}
use web_queue.Queue.State.{Runtime, Queue, QueueError, Subscription, PreparedStream}
use web_queue.Queue.Reads.{BroadcastMessage, message, close}
use web_queue.Queue.Methods.{
  create_queue, delete_queue, send_to_queue, close_queue, subscribe_queue, subscribe_queue_by_id,
}
use web_queue.Server.Http.{
  HttpError, not_found, gone, internal_server_error, created, success_json, messages_json,
  Responder,
}
use web_queue.Server.Connection
use web_queue.Server.Connection.{QueueConnection}

-- `prev_len.unwrap_or(1).max(1)`
abbrev pub at_least_one : Option ℕ → ℕ
at_least_one prev_len = max (unwrap_or prev_len 1) 1

-- What a stream has yielded so far, and whether it has ended.
pub record Progress (T : Type 0) : Type 0 where
  pub yields : List (BroadcastMessage T)
  pub ended : Bool

module _ {T : Type 0} where
  abbrev pub add : T → Option (Result HttpError (List T)) → Option (Result HttpError (List T))
  add v (some (ok l)) = some (ok (v ∷ l))
  add v r = r

  -- `.take(n).map(..).try_collect().await`: `none` while it waits
  unfoldable pub take_messages :
      ℕ → List (BroadcastMessage T) → Bool → Option (Result HttpError (List T))
  take_messages zero ms ended = some (ok [])
  take_messages (suc n) [] ended = if ended then some (ok []) else none
  take_messages (suc n) (message s ∷ ms) ended = add s (take_messages n ms ended)
  take_messages (suc n) (close ∷ ms) ended = some (err (gone (codes "Queue was closed")))

  abbrev pub json : Option (Result HttpError (List T)) → Option (Responder T)
  json none = none
  json (some (ok m)) = some (ok (messages_json m))
  json (some (err e)) = some (err e)

module _ {DbError JsonError Receiver T : Type 0} where
  -- `longpoll_response_factory`, at the progress of the subscription's stream
  unfoldable pub longpoll_response_factory :
      Result (QueueError DbError JsonError) (Subscription Receiver T)
      → (PreparedStream Receiver T → Progress T)
      → Option (Responder T)
  longpoll_response_factory (ok queue) run = elim queue.stream [
    | some q ↦
        json (take_messages (at_least_one queue.preloaded_count) (run q).yields (run q).ended)
    | none ↦ some (err (not_found (codes "Queue Not Found")))
  ]
  longpoll_response_factory (err e) run =
      some (err (internal_server_error (codes "Subscription error")))

  -- `ws_response_factory`: the actor that `ws::start` runs
  unfoldable pub ws_response_factory :
      Result (QueueError DbError JsonError) (Subscription Receiver T)
      → Bytes
      → Option Bytes
      → Result HttpError (QueueConnection (PreparedStream Receiver T))
  ws_response_factory (ok queue) queue_name id = elim queue.stream [
    | some q ↦ ok (Connection.new id queue_name q)
    | none ↦ err (not_found (codes "Queue Not Found"))
  ]
  ws_response_factory (err e) queue_name id =
      err (internal_server_error (codes "Subscription error"))

module _ {Db DbError JsonError Sender Receiver T : Type 0}
    (rt : Runtime Db DbError JsonError Sender Receiver T) where
  abbrev succeeded :
      {A : Type 0}
      → (A → Responder T)
      → Bytes
      → Result (QueueError DbError JsonError) A × Queue Db Sender
      → Responder T × Queue Db Sender
  succeeded f failure (ok a, q) = (f a, q)
  succeeded f failure (err e, q) = (err (internal_server_error failure), q)

  -- `create_queue`
  unfoldable pub post_create : Bytes → Queue Db Sender → Responder T × Queue Db Sender
  post_create queue_name q =
      succeeded (λ _. ok (created (record { success = true }))) (codes "Queue was not created")
        (create_queue rt queue_name q)

  -- `delete_from_queue`, whose failure is told as "Queue was not created" too
  unfoldable pub post_delete : Bytes → Bytes → Queue Db Sender → Responder T × Queue Db Sender
  post_delete queue_name id q =
      succeeded (λ _. ok (success_json (record { success = true }))) (codes "Queue was not created")
        (delete_queue rt queue_name id q)

  -- `send_to_queue`
  unfoldable pub post_send : Bytes → T → Queue Db Sender → Responder T × Queue Db Sender
  post_send queue_name value q =
      succeeded (λ success. ok (success_json (record { success = success })))
        (codes "Message was not sent") (send_to_queue rt queue_name value q)

  -- `close_queue`
  unfoldable pub post_close : Bytes → Queue Db Sender → Responder T × Queue Db Sender
  post_close queue_name q =
      succeeded (λ success. ok (success_json (record { success = success })))
        (codes "Queue was not closed") (close_queue rt queue_name q)

  -- `subscribe_queue_by_id_longpoll` and `subscribe_queue_longpoll`
  unfoldable pub longpoll_by_id :
      Bytes
      → Bytes
      → RequestSequence
      → (PreparedStream Receiver T → Progress T)
      → Queue Db Sender
      → Option (Responder T) × Queue Db Sender
  longpoll_by_id queue_name id sequence run q =
      let (r, q') = subscribe_queue_by_id rt queue_name id sequence q in
      (longpoll_response_factory r run, q')

  unfoldable pub longpoll_all :
      Bytes
      → RequestSequence
      → (PreparedStream Receiver T → Progress T)
      → Queue Db Sender
      → Option (Responder T) × Queue Db Sender
  longpoll_all queue_name sequence run q =
      let (r, q') = subscribe_queue rt queue_name sequence q in
      (longpoll_response_factory r run, q')

  -- `subscribe_queue_by_id_ws` and `subscribe_queue_ws`
  unfoldable pub ws_by_id :
      Bytes
      → Bytes
      → RequestSequence
      → Queue Db Sender
      → Result HttpError (QueueConnection (PreparedStream Receiver T)) × Queue Db Sender
  ws_by_id queue_name id sequence q =
      let (r, q') = subscribe_queue_by_id rt queue_name id sequence q in
      (ws_response_factory r queue_name (some id), q')

  unfoldable pub ws_all :
      Bytes
      → RequestSequence
      → Queue Db Sender
      → Result HttpError (QueueConnection (PreparedStream Receiver T)) × Queue Db Sender
  ws_all queue_name sequence q =
      let (r, q') = subscribe_queue rt queue_name sequence q in
      (ws_response_factory r queue_name none, q')
