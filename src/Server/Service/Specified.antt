-- ===== src/Server/Service/Specified.antt =====
-- What the queue service of sonya/src/main.rs answers by the abstract store: no database, no
-- channels, no encoding.
use web_queue.Common.{
  ℕ, Bytes, codes, Option, none, some, List, [], ◌∷◌, Result, ok, err, true, is_some,
}
use web_queue.Api.{Secure, Web}
use web_queue.Api.Routes.{
  Handler, create_queue, delete_from_queue, send_to_queue, close_queue, generate_jwt,
  subscribe_queue_longpoll, subscribe_queue_ws, subscribe_queue_by_id_longpoll,
  subscribe_queue_by_id_ws, service_registry_api, Router,
}
use web_queue.Message.{UniqId}
use web_queue.Sled.Ordered.{Entries}
use web_queue.Queue.State.{PreparedStream}
use web_queue.Queue.Abstract.{Store, asked, select, select_any, answer, create, close, delete, send}
use web_queue.Server.Http.{HttpError, created, success_json, not_found}
use web_queue.Server.Connection.{QueueConnection}
use web_queue.Server.Polling.{expected}
use web_queue.Server.Service.Access.{requested, token_specified, table}
use web_queue.Server.Service.{
  Extractors, Outcome, responds, waits, opens, token, no_message, unrouted, polled,
}

-- A websocket's actor with the messages that it starts with, in place of its stream.
abbrev pub Opening : Type 0 → Type 0
Opening T = QueueConnection (Option (List T))

module _ {Receiver T : Type 0} where
  abbrev items : Option (PreparedStream Receiver T) → Option (Option (List T))
  items none = none
  items (some s) = some s.prev_items

  abbrev opening : QueueConnection (PreparedStream Receiver T) → Opening T
  opening c = record { id = c.id; queue_name = c.queue_name; queue = items c.queue }

  abbrev pub opening_of :
      Result HttpError (QueueConnection (PreparedStream Receiver T)) → Result HttpError (Opening T)
  opening_of (ok c) = ok (opening c)
  opening_of (err e) = err e

  -- An outcome without the receivers.
  unfoldable pub observed :
      Outcome (QueueConnection (PreparedStream Receiver T)) T → Outcome (Opening T) T
  observed (responds r) = responds r
  observed waits = waits
  observed (opens c) = opens (opening_of c)
  observed (token t) = token t
  observed no_message = no_message
  observed unrouted = unrouted

module _ {T : Type 0} where
  -- The websocket for a queue, where there is one.
  unfoldable pub opened :
      Bytes
      → Option Bytes
      → (Entries T → Option (List T))
      → Option (Entries T)
      → Result HttpError (Opening T)
  opened queue_name id chosen none = err (not_found (codes "Queue Not Found"))
  opened queue_name id chosen (some es) =
      ok (record { id = id; queue_name = queue_name; queue = some (chosen es) })

  -- The answer to a message that was sent.
  unfoldable pub message_sent :
      UniqId T → Bytes → Option T → Store T → Outcome (Opening T) T × Store T
  message_sent uniq queue_name none s = (no_message, s)
  message_sent uniq queue_name (some m) s = (
    responds (ok (success_json (record { success = is_some (s.queues queue_name) }))),
    (answer uniq (send queue_name m) s).1,
  )

module _ {R HeaderValue T : Type 0} (x : Extractors R HeaderValue T) (web : Web HeaderValue)
    (time_after : ℕ → Option (Result Bytes ℕ)) (secure : Option Secure) (uniq : UniqId T) where
  unfoldable pub specified : Handler → R → Store T → Outcome (Opening T) T × Store T
  specified create_queue r s = (
    responds (ok (created (record { success = true }))),
    (answer uniq (create (x.queue_name r)) s).1,
  )
  specified delete_from_queue r s = (
    responds (ok (success_json (record { success = true }))),
    (answer uniq (delete (x.queue_name r) (x.uniq_id r)) s).1,
  )
  specified send_to_queue r s = message_sent uniq (x.queue_name r) (x.message r) s
  specified close_queue r s = (
    responds (ok (success_json (record { success = is_some (s.queues (x.queue_name r)) }))),
    (answer uniq (close (x.queue_name r)) s).1,
  )
  specified generate_jwt r s =
      (token_specified web time_after secure (x.queue_name r) (x.uniq_id r), s)
  specified subscribe_queue_longpoll r s = (
    polled (
        expected (λ es. asked (requested (x.sequence_query r)) (λ i. select_any uniq i es))
          (x.received r) (s.queues (x.queue_name r))),
    s,
  )
  specified subscribe_queue_ws r s = (
    opens (
        opened (x.queue_name r) none
          (λ es. asked (requested (x.sequence_query r)) (λ i. select_any uniq i es))
          (s.queues (x.queue_name r))),
    s,
  )
  specified subscribe_queue_by_id_longpoll r s = (
    polled (
        expected (λ es. asked (requested (x.sequence_query r)) (λ i. select (x.uniq_id r) i es))
          (x.received r) (s.queues (x.queue_name r))),
    s,
  )
  specified subscribe_queue_by_id_ws r s = (
    opens (
        opened (x.queue_name r) (some (x.uniq_id r))
          (λ es. asked (requested (x.sequence_query r)) (λ i. select (x.uniq_id r) i es))
          (s.queues (x.queue_name r))),
    s,
  )
  specified service_registry_api r s = (unrouted, s)

  unfoldable pub specified_routed : Option Handler → R → Store T → Outcome (Opening T) T × Store T
  specified_routed none r s = (unrouted, s)
  specified_routed (some h) r s = specified h r s

  unfoldable pub specified_all :
      Router HeaderValue → List R → Store T → List (Outcome (Opening T) T) × Store T
  specified_all router [] s = ([], s)
  specified_all router (r ∷ rs) s =
      let (o, s') = specified_routed (router.dispatch (table web secure) (x.request r)) r s in
      let (os, s'') = specified_all router rs s' in (o ∷ os, s'')
