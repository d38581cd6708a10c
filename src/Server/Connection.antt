-- ===== src/Server/Connection.antt =====
-- sonya/src/queue/connection.rs: the actor of one websocket client.
use web_queue.Common.{
  Bytes, Option, none, some, List, [], ◌∷◌, ◌++◌, Result, ok, err, ◌≡◌, refl, ap, sym, ◌∙◌, map,
  unwrap_or, Bool, true, false, if◌then◌else◌,
}
use mathlib.Core.List.{map-append}
use web_queue.Queue.Reads.{BroadcastMessage, message, close, prepare_stream, yielded, received}
use web_queue.Broadcast.{RecvError}

pub record QueueConnection (S : Type 0) : Type 0 where
  pub id : Option Bytes
  pub queue_name : Bytes
  pub queue : Option S

-- What a handler asks of the websocket's context, in order.
pub data CloseCode : Type 0 where
  normal error : CloseCode

pub data Action : Type 0 where
  pong : Bytes → Action
  text : Bytes → Action
  echo_close : Option Bytes → Action
  close_with : CloseCode → Option Bytes → Action
  stop : Action

-- `ws::Message`
pub data WsMessage : Type 0 where
  text_frame binary_frame continuation_frame ping_frame pong_frame : Bytes → WsMessage
  close_frame : Option Bytes → WsMessage
  nop_frame : WsMessage

module _ {S : Type 0} where
  -- `QueueConnection::new`
  unfoldable pub new : Option Bytes → Bytes → S → QueueConnection S
  new id queue_name queue = record { id = id; queue_name = queue_name; queue = some queue }

  -- `Actor::started`: the stream to add and the actor without it; `none` is the panic
  -- "queue is none"
  unfoldable pub started : QueueConnection S → Option (S × QueueConnection S)
  started c = elim c.queue [ none ↦ none | some q ↦ some (q, record c { queue = none }) ]

module _ {ProtocolError : Type 0} where
  -- `StreamHandler<Result<ws::Message, ws::ProtocolError>>::handle`
  unfoldable pub handle_frame : Result ProtocolError WsMessage → List Action
  handle_frame (ok (ping_frame msg)) = pong msg ∷ []
  handle_frame (ok (close_frame reason)) = echo_close reason ∷ stop ∷ []
  handle_frame (err _) = stop ∷ []
  handle_frame _ = []

module _ {T : Type 0} where
  -- The values that a receiver yields up to its first error.
  unfoldable pub taken : List (Result RecvError T) → List T
  taken [] = []
  taken (ok v ∷ rs) = v ∷ taken rs
  taken (err e ∷ rs) = []

  -- Whether the receiver has met an error, so that the stream has ended.
  unfoldable pub has_ended : List (Result RecvError T) → Bool
  has_ended [] = false
  has_ended (ok v ∷ rs) = has_ended rs
  has_ended (err e ∷ rs) = true

  pub received-taken : (rs : List (Result RecvError T)) → received rs ≡ map message (taken rs)
  unfolding received taken
  received-taken [] = refl
  received-taken (ok v ∷ rs) = ap (◌∷◌ (message v)) (received-taken rs)
  received-taken (err e ∷ rs) = refl

module _ {T : Type 0} (to_string : T → Result Bytes Bytes) where
  -- `serde_json::to_string` of a message, sent or reported
  unfoldable pub send_text : Result Bytes Bytes → List Action
  send_text (ok s) = text s ∷ []
  send_text (err e) = close_with error (some e) ∷ stop ∷ []

  -- `StreamHandler<BroadcastMessage<T>>::handle`
  unfoldable pub handle_message : BroadcastMessage T → List Action
  handle_message (message m) = send_text (to_string m)
  handle_message close = close_with normal none ∷ stop ∷ []

  -- The handler at each message of the stream, in turn.
  unfoldable pub handle_all : List (BroadcastMessage T) → List Action
  handle_all [] = []
  handle_all (m ∷ ms) = handle_message m ++ handle_all ms

  -- A stream's messages, and what actix's `StreamHandler::finished`, which the code does not override,
  -- asks of the context where the stream has ended.
  unfoldable pub handle_stream : List Action → List (BroadcastMessage T) → Bool → List Action
  handle_stream finished ms ended = handle_all ms ++ (if ended then finished else [])

  module _ (print : T → Bytes) (prints : (m : T) → to_string m ≡ ok (print m)) where
    handle_all-messages :
        (ms : List T) (rest : List Action)
        → handle_all (map message ms) ++ rest ≡ map (λ m. text (print m)) ms ++ rest
    unfolding handle_all handle_message send_text
    handle_all-messages [] rest = refl
    handle_all-messages (m ∷ ms) rest =
        rw (prints m) (ap (◌∷◌ (text (print m))) (handle_all-messages ms rest))

    -- On the stream of a subscription a websocket client is sent the stored messages and then the
    -- received ones, each as one text frame in order, and after them the connection is stopped exactly
    -- where the receiver has met an error, as it does when the channel closes or the client falls
    -- behind; given that messages serialize, and that the default `finished` of actix stops the actor.
    pub handle_stream-prepare_stream :
        (finished : List Action)
        → finished ≡ stop ∷ []
        → (recv : List (Result RecvError T)) (prev : Option (List T))
        → handle_stream finished (prepare_stream recv prev) (has_ended recv)
          ≡ map (λ m. text (print m)) (unwrap_or prev [] ++ taken recv)
            ++ (if has_ended recv then stop ∷ [] else [])
    unfolding handle_stream prepare_stream yielded
    handle_stream-prepare_stream finished stops recv none =
        ap (λ f. handle_all (received recv) ++ (if has_ended recv then f else [])) stops
        ∙ ap (λ l. handle_all l ++ (if has_ended recv then stop ∷ [] else [])) (received-taken recv)
        ∙ handle_all-messages (taken recv) (if has_ended recv then stop ∷ [] else [])
    handle_stream-prepare_stream finished stops recv (some pi) =
        ap (λ f. handle_all (map message pi ++ received recv) ++ (if has_ended recv then f else []))
          stops
        ∙ ap (λ t. handle_all (map message pi ++ t) ++ (if has_ended recv then stop ∷ [] else []))
            (received-taken recv)
        ∙ ap (λ l. handle_all l ++ (if has_ended recv then stop ∷ [] else []))
            (sym (map-append message pi (taken recv)))
        ∙ handle_all-messages (pi ++ taken recv) (if has_ended recv then stop ∷ [] else [])
