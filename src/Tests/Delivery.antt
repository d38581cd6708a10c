-- ===== src/Tests/Delivery.antt =====
-- The theorems on delivery at concrete inputs.
use web_queue.Common.{
  ℕ, ◌≡◌, refl, ◌++◌, ◌∷◌, [], List, Bytes, codes, none, some, ok, map, arith, same, Bool, true,
  false, sym, ◌∙◌, if◌then◌else◌, Bool-cases, inl, inr,
}
use web_queue.Common.Map
use web_queue.Broadcast.Memory.{Channel, in_memory, in_memory-IsChannel}
use web_queue.Queue.State.{PreparedStream, get_queue_broadcast, get_key_broadcast, on_map}
use web_queue.Queue.Reads.{
  message as yield_message, prepare_stream, yielded, get_prev_items, get_prev_all_items,
}
use web_queue.Queue.Methods.{
  subscribe_queue_by_id, check_tree_exists, subscribe_key, subscribe_queue, subscribe_sender,
  send_to_queue, numbered, store, store_value, evict, scan_old, subscribe_queue_during,
  broadcast_value,
}
use web_queue.Queue.Channels.{key_channel}
use web_queue.Queue.Delivery.{
  Listens, HasRoom, broadcast_all, addressed, subscribe_queue_by_id-delivers,
}
use web_queue.Queue.Watching.{
  Watches, QueuesHaveRoom, queue_channel, sent_to, subscribe_queue-delivers,
}
use web_queue.Queue.Missing.{started_with, subscribe_queue_during-misses}
use web_queue.Sled.Memory.{memory}
use web_queue.Sled.Ordered.{has_bytes}
use web_queue.Tests.Fixtures.{runtime, State, Message, news, message, with_number, fresh}

abbrev stream : PreparedStream ℕ Message
stream = record { receiver = 0; prev_items = none }

abbrev subscribed : State
subscribed = (subscribe_queue_by_id runtime news (codes "7") none (fresh none)).1

room : HasRoom runtime (in_memory-IsChannel Message) (fresh none)
unfolding key_channel Map.get
room j k s h = cc

abbrev sends : List (Bytes × Message)
sends = (news, message (codes "8") 1) ∷ (news, message (codes "7") 2) ∷ []

-- A subscriber of "7" among two messages of "news".
subscribe_queue_by_id-delivers_example :
    Listens runtime
      (in_memory-IsChannel Message)
      (broadcast_all runtime sends subscribed)
      news
      (codes "7")
      0
      (addressed runtime news (codes "7") sends)
    × (prepare_stream (map ok (addressed runtime news (codes "7") sends)) none
        ≡ yielded none ++ map yield_message (addressed runtime news (codes "7") sends))
subscribe_queue_by_id-delivers_example =
    subscribe_queue_by_id-delivers runtime (in_memory-IsChannel Message) news (codes "7") none
      (fresh none) subscribed (record { stream = some stream; preloaded_count = none }) stream sends
      room runs refl (omega arith)
  where
    runs :
        subscribe_queue_by_id runtime news (codes "7") none (fresh none)
        ≡ (ok (record { stream = some stream; preloaded_count = none }), subscribed)
    runs =
        unfold subscribe_queue_by_id check_tree_exists subscribe_key memory has_bytes same on_map
          get_prev_items get_queue_broadcast get_key_broadcast in_memory Map.get in
        refl

abbrev watching : State
watching = (subscribe_queue runtime news none (fresh none)).1

queues_room : QueuesHaveRoom runtime (in_memory-IsChannel Message) (fresh none)
unfolding queue_channel Map.get
queues_room j s h = cc

-- A subscriber of "news" among messages of two queues.
abbrev two_queues : List (Bytes × Message)
two_queues = (codes "other", message (codes "7") 1) ∷ (news, message (codes "8") 2) ∷ []

subscribe_queue-delivers_example :
    Watches runtime
      (in_memory-IsChannel Message)
      (broadcast_all runtime two_queues watching)
      news
      0
      (sent_to runtime news two_queues)
    × (prepare_stream (map ok (sent_to runtime news two_queues)) none
        ≡ yielded none ++ map yield_message (sent_to runtime news two_queues))
subscribe_queue-delivers_example =
    subscribe_queue-delivers runtime (in_memory-IsChannel Message) news none (fresh none) watching
      (record { stream = some stream; preloaded_count = none }) stream two_queues queues_room runs
      refl (omega arith)
  where
    runs :
        subscribe_queue runtime news none (fresh none)
        ≡ (ok (record { stream = some stream; preloaded_count = none }), watching)
    runs =
        unfold subscribe_queue check_tree_exists subscribe_sender memory has_bytes same on_map
          get_prev_all_items get_queue_broadcast in_memory Map.get in
        refl

-- A message with its number, sent while a client subscribes to "news".
abbrev numbered_one : Message
numbered_one = with_number (codes "7") 3 30

abbrev opened : State
opened = (on_map {JsonError = Unit} (memory.open_tree news) (fresh none)).1

abbrev sent : State
sent = (send_to_queue runtime news numbered_one opened).1

abbrev empty_channel : Channel Message
empty_channel = record { capacity = 1024; inboxes = [] }

sent_channels :
    sent.queue_broadcasts
    ≡ (news, record { sender = empty_channel; keys = (codes "7", empty_channel) ∷ [] }) ∷ []
unfolding send_to_queue numbered check_tree_exists memory has_bytes same store store_value on_map
    evict scan_old broadcast_value get_queue_broadcast get_key_broadcast in_memory Map.insert
    Map.get Map.remove
sent_channels = refl

the_channel :
    (b : Bool) (s : Channel Message)
    → (if b then some empty_channel else none) ≡ some s
    → empty_channel ≡ s
the_channel true s h = cc
the_channel false s h = absurd (ground arith)

channel_at : (j : Bytes) → queue_channel sent j ≡ (if same j news then some empty_channel else none)
unfolding queue_channel Map.get
channel_at j =
    rw sent_channels (elim (Bool-cases (same j news)) [ inl e ↦ rw e refl | inr e ↦ rw e refl ])

sent_room : QueuesHaveRoom runtime (in_memory-IsChannel Message) sent
unfolding in_memory
sent_room j s h =
    rw (← the_channel (same j news) s (sym (channel_at j) ∙ h))
      ((in_memory-IsChannel Message).channel_capacity 1024)

subscribe_queue_during-misses_example :
    (receiver : ℕ) × (q' : State) × (subscribe_queue_during runtime
        (λ p. (send_to_queue runtime news numbered_one p).1)
        news
        none
        (fresh none)
      ≡ (ok (started_with runtime receiver none), q'))
    × Watches runtime (in_memory-IsChannel Message) q' news receiver []
unfolding Map.insert
subscribe_queue_during-misses_example =
    subscribe_queue_during-misses runtime (in_memory-IsChannel Message) news none numbered_one none
      (fresh none) opened sent (unfold check_tree_exists memory has_bytes same in refl)
      (unfold on_map memory in refl) (unfold get_prev_all_items in refl)
      (unfold send_to_queue numbered check_tree_exists memory has_bytes same store store_value
          on_map evict scan_old in
        refl)
      sent_room
