-- ===== src/Proxy/Client.antt =====
-- sonya-proxy/src/websocket_proxy_client.rs: one actor per watched queue or id, which listens to the
-- shards and shares what they send among the proxy's clients.
pub mod Storage
pub mod Aggregator
pub mod Streams
pub mod Interleaving
use web_queue.Common.{
  ℕ, suc, Bytes, codes, List, [], ◌∷◌, ◌++◌, ◌==◌, leb, Bool, true, false, Option, none, some,
  Result, ok, err, if◌then◌else◌, ◌≡◌, refl, ◌≤◌, arith, ap, ◌∙◌,
}
use web_queue.Api.{sqrt_on, max_reconnect_attempts, sleep_between_reconnects}
use web_queue.Broadcast.{Broadcast}
use web_queue.Message.{RequestSequence, display}
use web_queue.Proxy.Forwarding.{Frame, WebSocketActorResponse, message, stopped}

pub record WebSocketProxyClient (Sender : Type 0) : Type 0 where
  pub queue_name : Bytes
  pub id : Option Bytes
  pub attempts : ℕ
  pub sender : Sender
  pub access_token : Option Bytes
  pub sequence : RequestSequence

-- What a handler asks of the actor's context, in order: to follow one shard (a queue, an id) or all of
-- them at a path after a pause in seconds, to look for listeners at an interval, to stop.
pub data Request : Type 0 where
  listen : Bytes → Bytes → Bytes → ℕ → Request
  listen_all : Bytes → ℕ → Request
  collect_garbage : Request
  stop : Request

-- "?access_token={}&sequence={}"
unfoldable pub query : Option Bytes → RequestSequence → Bytes
query (some at) (some s) = codes "?access_token=" ++ (at ++ (codes "&sequence=" ++ display s))
query (some at) none = codes "?access_token=" ++ at
query none (some s) = codes "?&sequence=" ++ display s
query none none = []

module _ {Sender Receiver : Type 0} (b : Broadcast Sender Receiver WebSocketActorResponse) where
  -- `WebSocketProxyClient::new`
  unfoldable pub new :
      Bytes → Option Bytes → Option Bytes → RequestSequence → WebSocketProxyClient Sender
  new queue_name id access_token sequence = record {
    queue_name = queue_name;
    id = id;
    attempts = 0;
    sender = b.channel 8;
    access_token = access_token;
    sequence = sequence;
  }

  -- `add_stream` and `add_stream_all`: where the shards are asked, and the pause before
  unfoldable pub add_stream : Bytes → WebSocketProxyClient Sender → Request
  add_stream id c =
      listen c.queue_name id
        (codes "/queue/listen/ws/"
          ++ (c.queue_name ++ (codes "/" ++ (id ++ query c.access_token c.sequence))))
        (sleep_between_reconnects c.attempts)

  unfoldable pub add_stream_all : WebSocketProxyClient Sender → Request
  add_stream_all c =
      listen_all (codes "/queue/listen/ws/" ++ (c.queue_name ++ query c.access_token c.sequence))
        (sleep_between_reconnects c.attempts)

  -- `Actor::started`
  unfoldable pub started : WebSocketProxyClient Sender → List Request
  started c = elim c.id [
    | some id ↦ add_stream id c ∷ collect_garbage ∷ []
    | none ↦ add_stream_all c ∷ collect_garbage ∷ []
  ]

  -- `Actor::stopping`
  unfoldable pub stopping : WebSocketProxyClient Sender → WebSocketProxyClient Sender
  stopping c = record c { sender = (b.send c.sender stopped).1 }

  -- `Handler<Subscribe>::handle`
  unfoldable pub subscribe : WebSocketProxyClient Sender → Receiver × WebSocketProxyClient Sender
  subscribe c = let (r, s) = b.subscribe c.sender in (r, record c { sender = s })

  -- `StreamHandler<CloseEmptyConnection>::handle`
  unfoldable pub close_empty : WebSocketProxyClient Sender → List Request
  close_empty c = if b.receiver_count c.sender == 0 then stop ∷ [] else []

  unfoldable pub after_send : Result WebSocketActorResponse ℕ → List Request
  after_send (ok n) = []
  after_send (err e) = stop ∷ []

  -- `StreamHandler<WebSocketClientResponse>::handle`
  unfoldable pub handle :
      {ProxyError : Type 0}
      → Result ProxyError Frame
      → WebSocketProxyClient Sender
      → List Request × WebSocketProxyClient Sender
  handle (ok frame) c =
      let (r, s) = b.send c.sender (message frame) in
      (after_send r, record c { attempts = 0; sender = s })
  handle (err e) c = (stop ∷ [], record c { attempts = 0 })

  -- `StreamHandler::finished`: the streams of the shards have ended
  unfoldable pub finished : WebSocketProxyClient Sender → List Request
  finished c = if leb max_reconnect_attempts c.attempts then stop ∷ [] else started c

  -- What an actor goes through.
  pub data Event (ProxyError : Type 0) : Type 0 where
    subscribed garbage_checked stream_ended : Event ProxyError
    received : Result ProxyError Frame → Event ProxyError

  unfoldable pub step :
      {ProxyError : Type 0}
      → Event ProxyError
      → WebSocketProxyClient Sender
      → List Request × WebSocketProxyClient Sender
  step subscribed c = ([], (subscribe c).1)
  step garbage_checked c = (close_empty c, c)
  step stream_ended c = (finished c, c)
  step (received r) c = handle r c

  unfoldable pub run :
      {ProxyError : Type 0}
      → List (Event ProxyError)
      → WebSocketProxyClient Sender
      → WebSocketProxyClient Sender
  run [] c = c
  run (e ∷ es) c = run es (step e c).1

  module _ {ProxyError : Type 0} where
    no_attempts :
        (es : List (Event ProxyError)) (c : WebSocketProxyClient Sender)
        → c.attempts ≡ 0
        → (run es c).attempts ≡ 0
    unfolding run step subscribe handle
    no_attempts [] c h = h
    no_attempts (subscribed ∷ es) c h = no_attempts es (subscribe c).1 h
    no_attempts (garbage_checked ∷ es) c h = no_attempts es c h
    no_attempts (stream_ended ∷ es) c h = no_attempts es c h
    no_attempts (received (ok f) ∷ es) c h =
        no_attempts es (handle {ProxyError = ProxyError} (ok f) c).1 refl
    no_attempts (received (err e) ∷ es) c h = no_attempts es (handle (err e) c).1 refl

    -- Whatever a client's actor went through since it was made, when its stream ends it starts a new
    -- one: the counter of attempts stays at 0, so that the limit on reconnects is never reached and
    -- the pause before a reconnect is always 0 seconds.
    pub finished-restarts :
        (es : List (Event ProxyError)) (queue_name : Bytes) (id access_token : Option Bytes)
        (sequence : RequestSequence)
        → let c = run es (new queue_name id access_token sequence) in
          (finished c ≡ started c) × (sleep_between_reconnects c.attempts ≡ 0)
    unfolding finished new
    finished-restarts es queue_name id access_token sequence =
        let c = run es (new queue_name id access_token sequence) in
        let none_counted = no_attempts es (new queue_name id access_token sequence) refl in
        (
          ap (λ n. if leb max_reconnect_attempts n then stop ∷ [] else started c) none_counted,
          ap sleep_between_reconnects none_counted
              ∙ unfold sleep_between_reconnects sqrt_on in refl,
        )
