-- ===== src/Queue/Delivery.antt =====
-- Who receives a message: the channels of sonya/src/queue/map.rs.
use mathlib.Core.List.{append-nil, append_assoc}
use mathlib.Core.Path.{subst₂}
use web_queue.Common.{
  ◌+◌, ◌≤◌, ◌<◌, ◌≡◌, ap, sym, ◌∙◌, Bytes, Option, some, List, [], ◌∷◌, ◌++◌, ◌&&◌, same, same_refl,
  Bool-cases, inl, inr, >>=-eq-ok, ok, length, length-append, unwrap_or, arith, if◌then◌else◌, map,
}
use web_queue.Common.Map
use web_queue.Common.Map.{Map, map_laws, get-insert, get-remove}
use web_queue.Broadcast.{IsChannel}
use web_queue.Queue.State.{Runtime, Queue, on_map, Subscription, PreparedStream}
use web_queue.Queue.Channels.{
  key_of, key_channel, key_channel-broadcast_value, key_channel-subscribe_key, subscribe_key_result,
}
use web_queue.Queue.Following.{
  received_all, on_map_broadcasts, Follows, Follows-send, Follows-subscribe,
}
use web_queue.Queue.Methods.{
  broadcast_value, subscribe_key, subscribe_queue_by_id, check_tree_exists,
}
use web_queue.Queue.Reads.{message, prepare_stream, yielded, get_prev_items}
use web_queue.Message.{RequestSequence}

module _ {Db DbError JsonError Sender Receiver T : Type 0}
    (rt : Runtime Db DbError JsonError Sender Receiver T) where
  -- The loop of later sends, each with its queue's name.
  unfoldable pub broadcast_all : List (Bytes × T) → Queue Db Sender → Queue Db Sender
  broadcast_all [] q = q
  broadcast_all ((queue_name, value) ∷ sends) q =
      broadcast_all sends (broadcast_value rt queue_name value q)

  -- The values among them for one id of one queue.
  unfoldable pub addressed : Bytes → Bytes → List (Bytes × T) → List T
  addressed j k [] = []
  addressed j k ((queue_name, value) ∷ sends) =
      if same queue_name j && same (rt.uniq.get_id value) k
      then value ∷ addressed j k sends
      else addressed j k sends

  module _ (laws : IsChannel rt.broadcast) where
    -- The receiver has the messages still to read from the channel of the id.
    abbrev pub Listens : Queue Db Sender → Bytes → Bytes → Receiver → List T → Type 0
    Listens q j k = Follows rt laws (key_channel q j k)

    Listens-broadcast_value :
        (queue_name j k : Bytes) (value : T) (q : Queue Db Sender) (r : Receiver) (msgs : List T)
        → length msgs < 1024
        → Listens q j k r msgs
        → Listens (broadcast_value rt queue_name value q) j k r (
            if same queue_name j && same (rt.uniq.get_id value) k then msgs ++ value ∷ [] else msgs)
    Listens-broadcast_value queue_name j k value q r msgs few l =
        elim (Bool-cases (same queue_name j && same (rt.uniq.get_id value) k)) [
          | inl e ↦
              rw (key_channel-broadcast_value rt queue_name j k value q, e)
                (Follows-send rt laws (key_channel q j k) value r msgs few l)
          | inr e ↦ rw (key_channel-broadcast_value rt queue_name j k value q, e) l
        ]

    Listens-broadcast_all :
        (sends : List (Bytes × T)) (j k : Bytes) (q : Queue Db Sender) (r : Receiver)
        (msgs : List T)
        → length msgs + length sends < 1024
        → Listens q j k r msgs
        → Listens (broadcast_all sends q) j k r (msgs ++ addressed j k sends)
    unfolding broadcast_all addressed
    Listens-broadcast_all [] j k q r msgs few l = rw (append-nil msgs) l
    Listens-broadcast_all ((queue_name, value) ∷ sends) j k q r msgs few l =
        elim (Bool-cases (same queue_name j && same (rt.uniq.get_id value) k)) [
          | inl e ↦ rw e (
              rw (append_assoc msgs (value ∷ []) (addressed j k sends)) at (
                Listens-broadcast_all sends j k (broadcast_value rt queue_name value q) r
                  (msgs ++ value ∷ []) (omega (arith, length-append msgs (value ∷ [])))
                  (rw e at
                    (Listens-broadcast_value queue_name j k value q r msgs (omega arith) l))))
          | inr e ↦ rw e (
              Listens-broadcast_all sends j k (broadcast_value rt queue_name value q) r msgs
                (omega arith)
                (rw e at (Listens-broadcast_value queue_name j k value q r msgs (omega arith) l)))
        ]

    -- Every channel of an id has the capacity that the code asks for.
    abbrev pub HasRoom : Queue Db Sender → Type 0
    HasRoom q = (j k : Bytes) (s : Sender) → key_channel q j k ≡ some s → 1024 ≤ laws.capacity s

    subscribe_key-Listens :
        (queue_name id : Bytes) (prev : Option (List T)) (q : Queue Db Sender)
        → HasRoom q
        → Listens
            (subscribe_key rt queue_name id prev q).1
            queue_name
            id
            (rt.broadcast.subscribe
              (unwrap_or (key_channel q queue_name id) (rt.broadcast.channel 1024))).0
            []
    subscribe_key-Listens queue_name id prev q room =
        rw
          (
            key_channel-subscribe_key rt queue_name id queue_name id prev q,
            same_refl queue_name,
            same_refl id,
          )
          (Follows-subscribe rt laws (key_channel q queue_name id) (room queue_name id))

    subscribe_inv :
        (queue_name id : Bytes) (sequence : RequestSequence) (q q' : Queue Db Sender)
        (sub : Subscription Receiver T) (stream : PreparedStream Receiver T)
        → subscribe_queue_by_id rt queue_name id sequence q ≡ (ok sub, q')
        → sub.stream ≡ some stream
        → (prev : Option (List T)) × (q1 : Queue Db Sender) × (q1.queue_broadcasts
            ≡ q.queue_broadcasts)
          × (subscribe_key rt queue_name id prev q1 ≡ (ok sub, q'))
    unfolding subscribe_queue_by_id
    subscribe_inv queue_name id sequence q q' sub stream e has =
        elim (Bool-cases (check_tree_exists rt queue_name q)) [
          | inr missing ↦ ground arith
          | inl there ↦
              let (a, q1, opened, e1) =
                >>=-eq-ok (on_map (rt.sled.open_tree queue_name)) _ q (rw there at e) in
              let (prev, q2, read, e2) =
                >>=-eq-ok (λ p. (get_prev_items rt queue_name id sequence p.map, p)) _ q1 e1 in
              (
                prev,
                q2,
                ap (λ p. p.1.queue_broadcasts) (sym read)
                    ∙ on_map_broadcasts rt (rt.sled.open_tree queue_name) q q1 a opened,
                e2,
              )
        ]

    key_channel_kept :
        (q q1 : Queue Db Sender) (j k : Bytes)
        → q1.queue_broadcasts ≡ q.queue_broadcasts
        → key_channel q1 j k ≡ key_channel q j k
    unfolding key_channel
    key_channel_kept q q1 j k e = ap (λ m. key_of k (Map.get j m)) e

    subscribed_stream :
        (queue_name id : Bytes) (prev : Option (List T)) (q q' : Queue Db Sender)
        (sub : Subscription Receiver T) (stream : PreparedStream Receiver T)
        → subscribe_key rt queue_name id prev q ≡ (ok sub, q')
        → sub.stream ≡ some stream
        → (rt.broadcast.subscribe
            (unwrap_or (key_channel q queue_name id) (rt.broadcast.channel 1024))).0
          ≡ stream.receiver
    subscribed_stream queue_name id prev q q' sub stream sk has =
        cc (subscribe_key_result rt queue_name id prev q, sk, has)

    -- A client that subscribes to an id of a queue gets a stream that yields first the stored
    -- messages that the subscription loaded and then, in the order of sending, exactly the messages
    -- broadcast afterwards for this id of this queue, up to 1023 broadcasts in all.
    pub subscribe_queue_by_id-delivers :
        (queue_name id : Bytes) (sequence : RequestSequence) (q q' : Queue Db Sender)
        (sub : Subscription Receiver T) (stream : PreparedStream Receiver T)
        (sends : List (Bytes × T))
        → HasRoom q
        → subscribe_queue_by_id rt queue_name id sequence q ≡ (ok sub, q')
        → sub.stream ≡ some stream
        → length sends < 1024
        → Listens
            (broadcast_all sends q')
            queue_name
            id
            stream.receiver
            (addressed queue_name id sends)
          × (prepare_stream (map ok (addressed queue_name id sends)) stream.prev_items
              ≡ yielded stream.prev_items ++ map message (addressed queue_name id sends))
    subscribe_queue_by_id-delivers queue_name id sequence q q' sub stream sends room e has few =
        let (prev, q1, kept, sk) = subscribe_inv queue_name id sequence q q' sub stream e has in
        let start =
          subscribe_key-Listens queue_name id prev q1
            (λ j k s h. room j k s (sym (key_channel_kept q q1 j k kept) ∙ h)) in
        let moved =
          subst₂ (λ p r. Listens p queue_name id r []) (ap (λ p. p.1) sk)
            (subscribed_stream queue_name id prev q1 q' sub stream sk has) start in
        (
          Listens-broadcast_all sends queue_name id q' stream.receiver [] (omega arith) moved,
          unfold prepare_stream in
              ap (λ ms. yielded stream.prev_items ++ ms)
                (received_all (addressed queue_name id sends)),
        )
