-- ===== src/Queue/Channels.antt =====
-- The channels of the ids after each step of sonya/src/queue/map.rs that touches them.
use web_queue.Common.{
  ◌≡◌, refl, ap, ◌∙◌, Bytes, Option, none, some, List, true, false, ◌&&◌, same, same_iff,
  Bool-cases, Option-cases, ◌⊎◌, inl, inr, ok, unwrap_or, arith, if◌then◌else◌,
}
use web_queue.Common.Map
use web_queue.Common.Map.{Map, map_laws, get-insert, get-remove}
use web_queue.Queue.State.{Runtime, Queue, QueueBroadcast, get_queue_broadcast, get_key_broadcast}
use web_queue.Queue.Methods.{broadcast_value, subscribe_key, prev_len}

-- The channel of the subscribers to one id, if there is one.
abbrev pub key_of : {Sender : Type 0} → Bytes → Option (QueueBroadcast Sender) → Option Sender
key_of id none = none
key_of id (some b) = Map.get id b.keys

unfoldable pub key_channel : {Db Sender : Type 0} → Queue Db Sender → Bytes → Bytes → Option Sender
key_channel q queue_name id = key_of id (Map.get queue_name q.queue_broadcasts)

module _ {Db DbError JsonError Sender Receiver T : Type 0}
    (rt : Runtime Db DbError JsonError Sender Receiver T) where
  pub keys-get_queue_broadcast :
      (queue_name k : Bytes) (m : Map (QueueBroadcast Sender))
      → Map.get k (get_queue_broadcast rt.broadcast queue_name m).keys
        ≡ key_of k (Map.get queue_name m)
  unfolding get_queue_broadcast
  keys-get_queue_broadcast queue_name k m = elim (Option-cases (Map.get queue_name m)) [
    | inl e ↦ rw e (unfold Map.get in refl)
    | inr (b, e) ↦ rw e refl
  ]

  pub key_channel_insert :
      (queue_name j k : Bytes) (b : QueueBroadcast Sender) (m : Map (QueueBroadcast Sender))
      → key_of k (Map.get j (Map.insert queue_name b m))
        ≡ (if same queue_name j then Map.get k b.keys else key_of k (Map.get j m))
  key_channel_insert queue_name j k b m = elim (Bool-cases (same queue_name j)) [
    | inl e ↦ rw (get-insert queue_name j b m, e) refl
    | inr e ↦ rw (get-insert queue_name j b m, e) refl
  ]

  -- A broadcast sends the value into the channel of its queue and id, and into no other channel of
  -- an id.
  pub key_channel-broadcast_value :
      (queue_name j k : Bytes) (value : T) (q : Queue Db Sender)
      → key_channel (broadcast_value rt queue_name value q) j k ≡ (
          if same queue_name j && same (rt.uniq.get_id value) k
          then some
              (rt.broadcast.send
                (unwrap_or (key_channel q j k) (rt.broadcast.channel 1024))
                value).1
          else key_channel q j k)
  unfolding key_channel broadcast_value get_key_broadcast
  key_channel-broadcast_value queue_name j k value q =
      let id = rt.uniq.get_id value in
      let m = q.queue_broadcasts in
      let queue = get_queue_broadcast rt.broadcast queue_name m in
      let sent =
        (rt.broadcast.send (unwrap_or (Map.get id queue.keys) (rt.broadcast.channel 1024))
          value).1 in
      key_channel_insert queue_name j k
        (record queue {
          sender = (rt.broadcast.send queue.sender value).1;
          keys = Map.insert id sent queue.keys;
        })
        m
      ∙ ap (λ o. if same queue_name j then o else key_of k (Map.get j m))
          (get-insert id k sent queue.keys)
      ∙ at_queue j (Bool-cases (same queue_name j))
    where
      id : Bytes
      id = rt.uniq.get_id value

      m : Map (QueueBroadcast Sender)
      m = q.queue_broadcasts

      keys : Map Sender
      keys = (get_queue_broadcast rt.broadcast queue_name m).keys

      at_queue :
          (i : Bytes)
          → (same queue_name i ≡ true) ⊎ (same queue_name i ≡ false)
          → (if same queue_name i
              then (if same id k
                  then some
                      (rt.broadcast.send
                        (unwrap_or (Map.get id keys) (rt.broadcast.channel 1024))
                        value).1
                  else Map.get k keys)
              else key_of k (Map.get i m))
            ≡ (if same queue_name i && same id k
                then some
                    (rt.broadcast.send
                      (unwrap_or (key_of k (Map.get i m)) (rt.broadcast.channel 1024))
                      value).1
                else key_of k (Map.get i m))
      at_queue i (inl e) =
          ground
            (arith, same_iff queue_name i, same_iff id k, keys-get_queue_broadcast queue_name k m)
      at_queue i (inr e) = rw e refl

  pub key_channel-subscribe_key :
      (queue_name id j k : Bytes) (prev : Option (List T)) (q : Queue Db Sender)
      → key_channel (subscribe_key rt queue_name id prev q).1 j k ≡ (
          if same queue_name j && same id k
          then some
              (rt.broadcast.subscribe (unwrap_or (key_channel q j k) (rt.broadcast.channel 1024))).1
          else key_channel q j k)
  unfolding key_channel subscribe_key get_key_broadcast
  key_channel-subscribe_key queue_name id j k prev q =
      let queue = get_queue_broadcast rt.broadcast queue_name m in
      let s =
        (rt.broadcast.subscribe
          (unwrap_or (Map.get id queue.keys) (rt.broadcast.channel 1024))).1 in
      key_channel_insert queue_name j k (record queue { keys = Map.insert id s queue.keys }) m
      ∙ ap (λ o. if same queue_name j then o else key_of k (Map.get j m))
          (get-insert id k s queue.keys)
      ∙ at_queue j (Bool-cases (same queue_name j))
    where
      m : Map (QueueBroadcast Sender)
      m = q.queue_broadcasts

      keys : Map Sender
      keys = (get_queue_broadcast rt.broadcast queue_name m).keys

      at_queue :
          (i : Bytes)
          → (same queue_name i ≡ true) ⊎ (same queue_name i ≡ false)
          → (if same queue_name i
              then (if same id k
                  then some
                      (rt.broadcast.subscribe
                        (unwrap_or (Map.get id keys) (rt.broadcast.channel 1024))).1
                  else Map.get k keys)
              else key_of k (Map.get i m))
            ≡ (if same queue_name i && same id k
                then some
                    (rt.broadcast.subscribe
                      (unwrap_or (key_of k (Map.get i m)) (rt.broadcast.channel 1024))).1
                else key_of k (Map.get i m))
      at_queue i (inl e) =
          ground
            (arith, same_iff queue_name i, same_iff id k, keys-get_queue_broadcast queue_name k m)
      at_queue i (inr e) = rw e refl

  pub subscribe_key_result :
      (queue_name id : Bytes) (prev : Option (List T)) (q : Queue Db Sender)
      → (subscribe_key rt queue_name id prev q).0
        ≡ ok (record {
          stream = some (record {
            receiver =
                (rt.broadcast.subscribe
                  (unwrap_or (key_channel q queue_name id) (rt.broadcast.channel 1024))).0;
            prev_items = prev;
          });
          preloaded_count = prev_len prev;
        })
  unfolding key_channel subscribe_key get_key_broadcast
  subscribe_key_result queue_name id prev q =
      rw (keys-get_queue_broadcast queue_name id q.queue_broadcasts) refl
