-- ===== src/Server/Longpoll.antt =====
-- What a long poll answers: `longpoll_response_factory` of sonya/src/main.rs.
use web_queue.Common.{
  ℕ, suc, ◌≡◌, refl, ap, sym, max, ◌∙◌, Option, none, some, List, [], ◌∷◌, ◌++◌, Bool, true, false,
  Result, ok, map, length, arith, if◌then◌else◌,
}
use web_queue.Broadcast.{RecvError}
use web_queue.Queue.State.{Subscription, PreparedStream}
use web_queue.Queue.Reads.{BroadcastMessage, message, prepare_stream, yielded, received}
use web_queue.Queue.Methods.{prev_len}
use web_queue.Server.Http.{Responder, messages_json}
use web_queue.Server.Connection.{taken, has_ended, received-taken}
use web_queue.Server.Handlers.{json, Progress, take_messages, longpoll_response_factory}

stored_items : (n : ℕ) → max (suc n) 1 ≡ suc n
stored_items n = omega arith

module _ {T : Type 0} where
  take_messages_all :
      (vs : List T) (ms : List (BroadcastMessage T)) (ended : Bool)
      → take_messages (length vs) (map message vs ++ ms) ended ≡ some (ok vs)
  unfolding take_messages
  take_messages_all [] ms ended = refl
  take_messages_all (v ∷ vs) ms ended = rw (take_messages_all vs ms ended) refl

  -- The answer that a client is to get: the stored messages at once, if it asked for some and there
  -- are any; else the next message alone, and nothing if the channel closes first.
  unfoldable pub answer : Option (List T) → List T → Bool → Option (Responder T)
  answer (some (v ∷ vs)) next ended = some (ok (messages_json (v ∷ vs)))
  answer _ (w ∷ next) ended = some (ok (messages_json (w ∷ [])))
  answer _ [] ended = if ended then some (ok (messages_json [])) else none

module _ {Receiver T : Type 0} (receiver : Receiver) (recv : List (Result RecvError T)) where
  abbrev pub progress : PreparedStream Receiver T → Progress T
  progress s = record { yields = prepare_stream recv s.prev_items; ended = has_ended recv }

  abbrev pub subscription : Option (List T) → Subscription Receiver T
  subscription prev = record {
    stream = some (record { receiver = receiver; prev_items = prev });
    preloaded_count = prev_len prev;
  }

  next_alone :
      (next : List T) (ended : Bool)
      → json (take_messages 1 (map message next) ended) ≡ answer none next ended
  unfolding take_messages answer
  next_alone [] true = refl
  next_alone [] false = refl
  next_alone (w ∷ ws) ended = refl

  no_items : (next : List T) (ended : Bool) → answer (some []) next ended ≡ answer none next ended
  unfolding answer
  no_items [] ended = refl
  no_items (w ∷ ws) ended = refl

  module _ (DbError JsonError : Type 0) where
    -- A long poll on an existing queue answers with all the stored messages that it asked for,
    -- without waiting; where it asked for none, or none is stored, it answers with exactly one
    -- message, the next that is received, and waits for it as long as the channel is open.
    pub longpoll_response_factory_lem :
        (prev : Option (List T))
        → longpoll_response_factory {DbError = DbError} {JsonError = JsonError}
            (ok (subscription prev))
            progress
          ≡ answer prev (taken recv) (has_ended recv)
    unfolding longpoll_response_factory answer prepare_stream yielded
    longpoll_response_factory_lem none =
        ap (λ ms. json (take_messages 1 ms (has_ended recv))) (received-taken recv)
        ∙ next_alone (taken recv) (has_ended recv)
    longpoll_response_factory_lem (some []) =
        ap (λ ms. json (take_messages 1 ms (has_ended recv))) (received-taken recv)
        ∙ next_alone (taken recv) (has_ended recv)
        ∙ sym (no_items (taken recv) (has_ended recv))
    longpoll_response_factory_lem (some (v ∷ vs)) =
        ap (λ n. json (take_messages n (map message (v ∷ vs) ++ received recv) (has_ended recv)))
          (stored_items (length vs))
        ∙ ap json (take_messages_all (v ∷ vs) (received recv) (has_ended recv))
