-- ===== src/Proxy/Forwarding.antt =====
-- sonya-proxy/src/websocket_proxy.rs: the actor that passes the frames of a shard on to a client.
use web_queue.Common.{
  ◌∙◌, map, Bytes, Option, none, some, List, [], ◌∷◌, ◌++◌, Result, ok, err, ◌≡◌, refl, ap, Bool,
  true, false, if◌then◌else◌,
}
use web_queue.Server.Connection.{WsMessage, ping_frame, close_frame}

-- `actix_http::ws::Frame`
pub data Frame : Type 0 where
  text binary continuation ping pong : Bytes → Frame
  close : Option Bytes → Frame

-- `WebSocketActorResponse`
pub data WebSocketActorResponse : Type 0 where
  message : Frame → WebSocketActorResponse
  stopped : WebSocketActorResponse

-- What the handlers ask of the client's context, in order; `close_error` is `CloseCode::Error`.
pub data Action : Type 0 where
  send_text send_binary send_ping send_pong : Bytes → Action
  send_close : Option Bytes → Action
  close_error stop : Action

-- Whether the actions stop the actor.
unfoldable pub stops : List Action → Bool
stops [] = false
stops (stop ∷ actions) = true
stops (action ∷ actions) = stops actions

-- The frames up to the end that are not continuations.
unfoldable pub passed : List WebSocketActorResponse → List Frame
passed [] = []
passed (stopped ∷ rs) = []
passed (message (close r) ∷ rs) = []
passed (message (continuation b) ∷ rs) = passed rs
passed (message f ∷ rs) = f ∷ passed rs

-- How the connection is closed, with the stream of responses at its end or not.
unfoldable pub closing : List WebSocketActorResponse → Bool → List Action
closing [] ended = if ended then stop ∷ [] else []
closing (stopped ∷ rs) ended = close_error ∷ stop ∷ []
closing (message (close r) ∷ rs) ended = send_close r ∷ stop ∷ []
closing (message f ∷ rs) ended = closing rs ended

module _ {Receiver : Type 0} where
  -- `Actor::started`: the receiver to follow, or the end of the connection without one
  unfoldable pub started : Option Receiver → Option Receiver × List Action
  started (some receiver) = (some receiver, [])
  started none = (none, close_error ∷ stop ∷ [])

-- `str::from_utf8`: the text, or the error's text
module _ (from_utf8 : Bytes → Result Bytes Bytes) where
  abbrev pub text_of : Result Bytes Bytes → Bytes
  text_of (ok s) = s
  text_of (err e) = e

  -- `StreamHandler<WebSocketActorResponse>::handle`
  unfoldable pub handle_response : WebSocketActorResponse → List Action
  handle_response (message (text b)) = send_text (text_of (from_utf8 b)) ∷ []
  handle_response (message (binary b)) = send_binary b ∷ []
  handle_response (message (continuation b)) = []
  handle_response (message (ping p)) = send_ping p ∷ []
  handle_response (message (pong p)) = send_pong p ∷ []
  handle_response (message (close r)) = send_close r ∷ stop ∷ []
  handle_response stopped = close_error ∷ stop ∷ []

  -- The handler at each response, up to the actions that stop the actor.
  unfoldable pub handle_responses : List WebSocketActorResponse → List Action × Bool
  handle_responses [] = ([], false)
  handle_responses (r ∷ rs) =
      let actions = handle_response r in
      let (more, stopping) = handle_responses rs in
      if stops actions then (actions, true) else (actions ++ more, stopping)

  abbrev pub closed_by : List Action → List Action × Bool → Bool → List Action
  closed_by finished (actions, true) ended = actions
  closed_by finished (actions, false) ended = actions ++ (if ended then finished else [])

  -- ... and what actix's `StreamHandler::finished`, which the code does not override, asks of the
  -- context of an actor that still runs where the stream has ended.
  unfoldable pub handle_stream : List Action → List WebSocketActorResponse → Bool → List Action
  handle_stream finished rs ended = closed_by finished (handle_responses rs) ended

  -- A frame that is passed on alone.
  abbrev pub shown : Frame → Action
  shown (text b) = send_text (text_of (from_utf8 b))
  shown (binary b) = send_binary b
  shown (continuation b) = send_binary b
  shown (ping p) = send_ping p
  shown (pong p) = send_pong p
  shown (close r) = send_close r

  one_more :
      (action : Action) (more : List Action × Bool) (ended : Bool)
      → closed_by (stop ∷ []) (action ∷ more.0, more.1) ended
        ≡ action ∷ closed_by (stop ∷ []) more ended
  one_more action (actions, true) ended = refl
  one_more action (actions, false) ended = refl

  handle_stream_on :
      (rs : List WebSocketActorResponse) (ended : Bool)
      → handle_stream (stop ∷ []) rs ended ≡ map shown (passed rs) ++ closing rs ended
  unfolding handle_stream handle_responses handle_response stops passed closing
  handle_stream_on [] true = refl
  handle_stream_on [] false = refl
  handle_stream_on (stopped ∷ rs) ended = refl
  handle_stream_on (message (close r) ∷ rs) ended = refl
  handle_stream_on (message (text b) ∷ rs) ended =
      one_more (send_text (text_of (from_utf8 b))) (handle_responses rs) ended
      ∙ ap (◌∷◌ (send_text (text_of (from_utf8 b)))) (handle_stream_on rs ended)
  handle_stream_on (message (binary b) ∷ rs) ended =
      one_more (send_binary b) (handle_responses rs) ended
      ∙ ap (◌∷◌ (send_binary b)) (handle_stream_on rs ended)
  handle_stream_on (message (ping p) ∷ rs) ended =
      one_more (send_ping p) (handle_responses rs) ended
      ∙ ap (◌∷◌ (send_ping p)) (handle_stream_on rs ended)
  handle_stream_on (message (pong p) ∷ rs) ended =
      one_more (send_pong p) (handle_responses rs) ended
      ∙ ap (◌∷◌ (send_pong p)) (handle_stream_on rs ended)
  handle_stream_on (message (continuation b) ∷ rs) ended = handle_stream_on rs ended

  -- A client gets the frames of its shard in order, all but the continuation frames, up to the close
  -- frame or the end of the proxy's connection to the shard; then its connection is stopped, after the
  -- shard's close frame or one that tells of an error, and nothing is sent after that. Where the frames
  -- just end, the connection is stopped too, given that the default `finished` of actix does so.
  pub handle_stream_lem :
      (finished : List Action)
      → finished ≡ stop ∷ []
      → (rs : List WebSocketActorResponse) (ended : Bool)
      → handle_stream finished rs ended ≡ map shown (passed rs) ++ closing rs ended
  handle_stream_lem finished stopping rs ended =
      ap (λ f. handle_stream f rs ended) stopping ∙ handle_stream_on rs ended

module _ {ProtocolError : Type 0} where
  -- `StreamHandler<Result<ws::Message, ws::ProtocolError>>::handle`
  unfoldable pub handle_frame : Result ProtocolError WsMessage → List Action
  handle_frame (ok (ping_frame msg)) = send_pong msg ∷ []
  handle_frame (ok (close_frame reason)) = send_close reason ∷ stop ∷ []
  handle_frame (err e) = close_error ∷ stop ∷ []
  handle_frame _ = []
