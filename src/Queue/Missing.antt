-- ===== src/Queue/Missing.antt =====
-- What a subscriber misses: `subscribe_queue` of sonya/src/queue/map.rs loads the stored messages
-- before it takes the lock of the channels.
use web_queue.Common.{◌≡◌, ap, ◌∙◌, Bytes, Option, some, List, [], true, ok, unwrap_or}
use web_queue.Message.{RequestSequence}
use web_queue.Broadcast.{IsChannel}
use web_queue.Queue.State.{Runtime, Queue, on_map, Subscription}
use web_queue.Queue.Methods.{
  check_tree_exists, prev_len, send_to_queue, subscribe_sender, subscribe_queue_during,
}
use web_queue.Queue.Reads.{get_prev_all_items}
use web_queue.Queue.Following.{Follows-subscribe}
use web_queue.Queue.Watching.{
  queue_channel, sender-get_queue_broadcast, queue_channel-subscribe_sender, Watches,
  QueuesHaveRoom,
}

module _ {Db DbError JsonError Sender Receiver T : Type 0}
    (rt : Runtime Db DbError JsonError Sender Receiver T) where
  -- A subscription with these stored messages.
  abbrev pub started_with : Receiver → Option (List T) → Subscription Receiver T
  started_with receiver prev = record {
    stream = some (record { receiver = receiver; prev_items = prev });
    preloaded_count = prev_len prev;
  }

  abbrev new_receiver : Bytes → Queue Db Sender → Receiver
  new_receiver queue_name q =
      (rt.broadcast.subscribe
        (unwrap_or (queue_channel q queue_name) (rt.broadcast.channel 1024))).0

  subscribed :
      (queue_name : Bytes) (prev : Option (List T)) (q : Queue Db Sender)
      → subscribe_sender rt queue_name prev q ≡ (
        ok (started_with (new_receiver queue_name q) prev),
        (subscribe_sender rt queue_name prev q).1,
      )
  unfolding subscribe_sender queue_channel
  subscribed queue_name prev q =
      ap
        (λ s. (
          ok (started_with (rt.broadcast.subscribe s).0 prev),
          (subscribe_sender rt queue_name prev q).1,
        ))
        (sender-get_queue_broadcast rt queue_name q.queue_broadcasts)

  module _ (laws : IsChannel rt.broadcast) where
    -- A message that is sent while a subscription to its queue has loaded the stored messages and not
    -- yet taken the lock of the channels is lost to the subscriber, though the send has answered true:
    -- the subscription starts with the messages that were loaded before, and its receiver has nothing
    -- to read; given that the queue exists, its tree is opened and its messages are read, and its
    -- channel has the capacity that the code asks for.
    pub subscribe_queue_during-misses :
        (queue_name : Bytes) (sequence : RequestSequence) (value : T) (prev : Option (List T))
        (q q1 q2 : Queue Db Sender)
        → check_tree_exists rt queue_name q ≡ true
        → on_map {JsonError = JsonError} (rt.sled.open_tree queue_name) q ≡ (ok tt, q1)
        → get_prev_all_items rt queue_name sequence q1.map ≡ ok prev
        → send_to_queue rt queue_name value q1 ≡ (ok true, q2)
        → QueuesHaveRoom rt laws q2
        → (receiver : Receiver) × (q' : Queue Db Sender) × (subscribe_queue_during rt
              (λ p. (send_to_queue rt queue_name value p).1)
              queue_name
              sequence
              q
            ≡ (ok (started_with receiver prev), q'))
          × Watches rt laws q' queue_name receiver []
    unfolding subscribe_queue_during
    subscribe_queue_during-misses queue_name sequence value prev q q1 q2 there opened loaded sent
          room =
        (
          new_receiver queue_name q2,
          (subscribe_sender rt queue_name prev q2).1,
          rw there (rw opened (rw loaded (ap (λ p. subscribe_sender rt queue_name prev p.1) sent)))
              ∙ subscribed queue_name prev q2,
          rw (queue_channel-subscribe_sender rt queue_name prev q2) (
              Follows-subscribe rt laws (queue_channel q2 queue_name) (λ s h. room queue_name s h)),
        )
