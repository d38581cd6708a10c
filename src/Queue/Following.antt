-- ===== src/Queue/Following.antt =====
-- A receiver that follows a channel of sonya/src/queue/map.rs, through sends and subscriptions.
use web_queue.Common.{
  ◌≤◌, ◌<◌, ◌≡◌, refl, ap, sym, ◌∙◌, Option, none, some, List, [], ◌∷◌, ◌++◌, true, length,
  unwrap_or, arith, Exec, ok, map,
}
use web_queue.Broadcast.{IsChannel}
use web_queue.Queue.State.{Runtime, Queue, on_map}
use web_queue.Queue.Reads.{message, received}

pub received_all : {T : Type 0} (l : List T) → received (map ok l) ≡ map message l
unfolding received
received_all [] = refl
received_all (v ∷ l) = ap (◌∷◌ (message v)) (received_all l)

module _ {Db DbError JsonError Sender Receiver T : Type 0}
    (rt : Runtime Db DbError JsonError Sender Receiver T) where
  pub on_map_broadcasts :
      {A : Type 0} (m : Exec Db DbError A) (q q' : Queue Db Sender) (a : A)
      → on_map {JsonError = JsonError} m q ≡ (ok a, q')
      → q'.queue_broadcasts ≡ q.queue_broadcasts
  unfolding on_map
  on_map_broadcasts m q q' a e = sym (ap (λ p. p.1.queue_broadcasts) e)

  module _ (laws : IsChannel rt.broadcast) where
    -- The receiver has these messages still to read from the channel, which has the capacity that
    -- the code asks for.
    pub record Follows (channel : Option Sender) (r : Receiver) (msgs : List T) : Type 0 where
      pub sender : Sender
      pub registered : channel ≡ some sender
      pub joined : laws.joined sender r ≡ true
      pub pending : laws.pending sender r ≡ msgs
      pub room : 1024 ≤ laws.capacity sender

    pub Follows-send :
        (channel : Option Sender) (value : T) (r : Receiver) (msgs : List T)
        → length msgs < 1024
        → Follows channel r msgs
        → Follows
            (some (rt.broadcast.send (unwrap_or channel (rt.broadcast.channel 1024)) value).1)
            r
            (msgs ++ value ∷ [])
    Follows-send channel value r msgs few l = rw l.registered (record {
      sender = (rt.broadcast.send l.sender value).1;
      registered = refl;
      joined = laws.send_joined l.sender value r l.joined;
      pending =
          laws.send_pending l.sender value r l.joined
            (omega (arith, l.room, ap (length {A = T}) l.pending))
          ∙ ap (λ ms. ms ++ value ∷ []) l.pending;
      room = omega (arith, laws.send_capacity l.sender value, l.room);
    })

    room_or_new :
        (o : Option Sender)
        → ((s : Sender) → o ≡ some s → 1024 ≤ laws.capacity s)
        → 1024 ≤ laws.capacity (unwrap_or o (rt.broadcast.channel 1024))
    room_or_new none h = laws.channel_capacity 1024
    room_or_new (some s) h = h s refl

    pub Follows-subscribe :
        (channel : Option Sender)
        → ((s : Sender) → channel ≡ some s → 1024 ≤ laws.capacity s)
        → let p = rt.broadcast.subscribe (unwrap_or channel (rt.broadcast.channel 1024)) in
          Follows (some p.1) p.0 []
    Follows-subscribe channel room =
        let s = unwrap_or channel (rt.broadcast.channel 1024) in
        record {
          sender = (rt.broadcast.subscribe s).1;
          registered = refl;
          joined = laws.subscribe_joined s;
          pending = laws.subscribe_pending s;
          room = omega (arith, laws.subscribe_capacity s, room_or_new channel room);
        }
