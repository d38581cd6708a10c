-- ===== src/Queue/Watching.antt =====
-- Who receives the messages of a whole queue: the senders of sonya/src/queue/map.rs.
use mathlib.Core.List.{append-nil, append_assoc}
use mathlib.Core.Path.{subst₂}
use web_queue.Common.{
  ◌+◌, ◌≤◌, ◌<◌, ◌≡◌, refl, ap, sym, ◌∙◌, Bytes, Option, none, some, List, [], ◌∷◌, ◌++◌, same,
  same_refl, same_iff, Bool-cases, Option-cases, inl, inr, >>=-eq-ok, ok, length, length-append,
  unwrap_or, arith, if◌then◌else◌, map,
}
use web_queue.Common.Map
use web_queue.Common.Map.{Map, get-insert}
use web_queue.Broadcast.{IsChannel}
use web_queue.Queue.State.{
  Runtime, Queue, on_map, Subscription, PreparedStream, QueueBroadcast, get_queue_broadcast,
}
use web_queue.Queue.Methods.{broadcast_value, subscribe_sender, subscribe_queue, check_tree_exists}
use web_queue.Queue.Reads.{message, prepare_stream, yielded, get_prev_all_items}
use web_queue.Queue.Following.{
  received_all, on_map_broadcasts, Follows, Follows-send, Follows-subscribe,
}
use web_queue.Queue.Delivery.{broadcast_all}
use web_queue.Message.{RequestSequence}

-- The channel of the subscribers to a whole queue, if there is one.
abbrev sender_of : {Sender : Type 0} → Option (QueueBroadcast Sender) → Option Sender
sender_of none = none
sender_of (some b) = some b.sender

unfoldable pub queue_channel : {Db Sender : Type 0} → Queue Db Sender → Bytes → Option Sender
queue_channel q queue_name = sender_of (Map.get queue_name q.queue_broadcasts)

module _ {Db DbError JsonError Sender Receiver T : Type 0}
    (rt : Runtime Db DbError JsonError Sender Receiver T) where
  -- The values sent to one queue.
  unfoldable pub sent_to : Bytes → List (Bytes × T) → List T
  sent_to j [] = []
  sent_to j ((queue_name, value) ∷ sends) =
      if same queue_name j then value ∷ sent_to j sends else sent_to j sends

  pub sender-get_queue_broadcast :
      (queue_name : Bytes) (m : Map (QueueBroadcast Sender))
      → (get_queue_broadcast rt.broadcast queue_name m).sender
        ≡ unwrap_or (sender_of (Map.get queue_name m)) (rt.broadcast.channel 1024)
  unfolding get_queue_broadcast
  sender-get_queue_broadcast queue_name m = elim (Option-cases (Map.get queue_name m)) [
    | inl e ↦ rw e refl
    | inr (b, e) ↦ rw e refl
  ]

  queue_channel_insert :
      (queue_name j : Bytes) (b : QueueBroadcast Sender) (m : Map (QueueBroadcast Sender))
      → sender_of (Map.get j (Map.insert queue_name b m))
        ≡ (if same queue_name j then some b.sender else sender_of (Map.get j m))
  queue_channel_insert queue_name j b m = ap sender_of (get-insert queue_name j b m) ∙ ground arith

  -- A broadcast sends the value into the channel of its queue, and into no other queue's.
  queue_channel-broadcast_value :
      (queue_name j : Bytes) (value : T) (q : Queue Db Sender)
      → queue_channel (broadcast_value rt queue_name value q) j ≡ (
          if same queue_name j
          then some
              (rt.broadcast.send
                (unwrap_or (queue_channel q j) (rt.broadcast.channel 1024))
                value).1
          else queue_channel q j)
  unfolding queue_channel broadcast_value
  queue_channel-broadcast_value queue_name j value q =
      queue_channel_insert queue_name j _ q.queue_broadcasts
      ∙ elim (Bool-cases (same queue_name j)) [
        | inl e ↦
            rw (e, ← (same_iff queue_name j).0 e)
              (ap (λ s. some (rt.broadcast.send s value).1)
                (sender-get_queue_broadcast queue_name q.queue_broadcasts))
        | inr e ↦ rw e refl
      ]

  pub queue_channel-subscribe_sender :
      (queue_name : Bytes) (prev : Option (List T)) (q : Queue Db Sender)
      → queue_channel (subscribe_sender rt queue_name prev q).1 queue_name
        ≡ some
            (rt.broadcast.subscribe
              (unwrap_or (queue_channel q queue_name) (rt.broadcast.channel 1024))).1
  unfolding queue_channel subscribe_sender
  queue_channel-subscribe_sender queue_name prev q =
      queue_channel_insert queue_name queue_name _ q.queue_broadcasts
      ∙ rw (same_refl queue_name) (
          ap (λ s. some (rt.broadcast.subscribe s).1)
            (sender-get_queue_broadcast queue_name q.queue_broadcasts))

  module _ (laws : IsChannel rt.broadcast) where
    -- The receiver has these messages still to read from the channel of the queue.
    abbrev pub Watches : Queue Db Sender → Bytes → Receiver → List T → Type 0
    Watches q j = Follows rt laws (queue_channel q j)

    -- Every channel of a queue has the capacity that the code asks for.
    abbrev pub QueuesHaveRoom : Queue Db Sender → Type 0
    QueuesHaveRoom q =
        (j : Bytes) (s : Sender) → queue_channel q j ≡ some s → 1024 ≤ laws.capacity s

    Watches-broadcast_value :
        (queue_name j : Bytes) (value : T) (q : Queue Db Sender) (r : Receiver) (msgs : List T)
        → length msgs < 1024
        → Watches q j r msgs
        → Watches
            (broadcast_value rt queue_name value q)
            j
            r
            (if same queue_name j then msgs ++ value ∷ [] else msgs)
    Watches-broadcast_value queue_name j value q r msgs few l =
        elim (Bool-cases (same queue_name j)) [
          | inl e ↦
              rw (queue_channel-broadcast_value queue_name j value q, e)
                (Follows-send rt laws (queue_channel q j) value r msgs few l)
          | inr e ↦ rw (queue_channel-broadcast_value queue_name j value q, e) l
        ]

    Watches-broadcast_all :
        (sends : List (Bytes × T)) (j : Bytes) (q : Queue Db Sender) (r : Receiver) (msgs : List T)
        → length msgs + length sends < 1024
        → Watches q j r msgs
        → Watches (broadcast_all rt sends q) j r (msgs ++ sent_to j sends)
    unfolding broadcast_all sent_to
    Watches-broadcast_all [] j q r msgs few l = rw (append-nil msgs) l
    Watches-broadcast_all ((queue_name, value) ∷ sends) j q r msgs few l =
        elim (Bool-cases (same queue_name j)) [
          | inl e ↦ rw e (
              rw (append_assoc msgs (value ∷ []) (sent_to j sends)) at (
                Watches-broadcast_all sends j (broadcast_value rt queue_name value q) r
                  (msgs ++ value ∷ []) (omega (arith, length-append msgs (value ∷ [])))
                  (rw e at (Watches-broadcast_value queue_name j value q r msgs (omega arith) l))))
          | inr e ↦ rw e (
              Watches-broadcast_all sends j (broadcast_value rt queue_name value q) r msgs
                (omega arith)
                (rw e at (Watches-broadcast_value queue_name j value q r msgs (omega arith) l)))
        ]

    watch_inv :
        (queue_name : Bytes) (sequence : RequestSequence) (q q' : Queue Db Sender)
        (sub : Subscription Receiver T) (stream : PreparedStream Receiver T)
        → subscribe_queue rt queue_name sequence q ≡ (ok sub, q')
        → sub.stream ≡ some stream
        → (prev : Option (List T)) × (q1 : Queue Db Sender) × (q1.queue_broadcasts
            ≡ q.queue_broadcasts)
          × (subscribe_sender rt queue_name prev q1 ≡ (ok sub, q'))
    unfolding subscribe_queue
    watch_inv queue_name sequence q q' sub stream e has =
        elim (Bool-cases (check_tree_exists rt queue_name q)) [
          | inr missing ↦ ground arith
          | inl there ↦
              let (a, q1, opened, e1) =
                >>=-eq-ok (on_map (rt.sled.open_tree queue_name)) _ q (rw there at e) in
              let (prev, q2, read, e2) =
                >>=-eq-ok (λ p. (get_prev_all_items rt queue_name sequence p.map, p)) _ q1 e1 in
              (
                prev,
                q2,
                ap (λ p. p.1.queue_broadcasts) (sym read)
                    ∙ on_map_broadcasts rt (rt.sled.open_tree queue_name) q q1 a opened,
                e2,
              )
        ]

    watched_stream :
        (queue_name : Bytes) (prev : Option (List T)) (q q' : Queue Db Sender)
        (sub : Subscription Receiver T) (stream : PreparedStream Receiver T)
        → subscribe_sender rt queue_name prev q ≡ (ok sub, q')
        → sub.stream ≡ some stream
        → (rt.broadcast.subscribe
            (unwrap_or (queue_channel q queue_name) (rt.broadcast.channel 1024))).0
          ≡ stream.receiver
    unfolding queue_channel subscribe_sender
    watched_stream queue_name prev q q' sub stream sk has =
        ap (λ s. (rt.broadcast.subscribe s).0)
          (sym (sender-get_queue_broadcast queue_name q.queue_broadcasts))
        ∙ cc (sk, has)

    -- A client that subscribes to a whole queue gets a stream that yields first the stored messages
    -- that the subscription loaded and then, in the order of sending, exactly the messages
    -- broadcast afterwards to this queue, whatever their ids, up to 1023 broadcasts in all.
    pub subscribe_queue-delivers :
        (queue_name : Bytes) (sequence : RequestSequence) (q q' : Queue Db Sender)
        (sub : Subscription Receiver T) (stream : PreparedStream Receiver T)
        (sends : List (Bytes × T))
        → QueuesHaveRoom q
        → subscribe_queue rt queue_name sequence q ≡ (ok sub, q')
        → sub.stream ≡ some stream
        → length sends < 1024
        → Watches (broadcast_all rt sends q') queue_name stream.receiver (sent_to queue_name sends)
          × (prepare_stream (map ok (sent_to queue_name sends)) stream.prev_items
              ≡ yielded stream.prev_items ++ map message (sent_to queue_name sends))
    subscribe_queue-delivers queue_name sequence q q' sub stream sends room e has few =
        let (prev, q1, kept, sk) = watch_inv queue_name sequence q q' sub stream e has in
        let same_channel : queue_channel q1 queue_name ≡ queue_channel q queue_name =
          unfold queue_channel in ap (λ m. sender_of (Map.get queue_name m)) kept in
        let start : Watches (subscribe_sender rt queue_name prev q1).1 queue_name
            (rt.broadcast.subscribe
              (unwrap_or (queue_channel q1 queue_name) (rt.broadcast.channel 1024))).0
            [] =
          rw (queue_channel-subscribe_sender queue_name prev q1) (
            Follows-subscribe rt laws (queue_channel q1 queue_name)
              (λ s h. room queue_name s (sym same_channel ∙ h))) in
        let moved =
          subst₂ (λ p r. Watches p queue_name r []) (ap (λ p. p.1) sk)
            (watched_stream queue_name prev q1 q' sub stream sk has) start in
        (
          Watches-broadcast_all sends queue_name q' stream.receiver [] (omega arith) moved,
          unfold prepare_stream in
              ap (λ ms. yielded stream.prev_items ++ ms) (received_all (sent_to queue_name sends)),
        )
