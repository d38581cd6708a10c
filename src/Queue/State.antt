-- ===== src/Queue/State.antt =====
-- The state of a queue (sonya/src/queue/map.rs): the database, the limit on stored versions, and
-- the channels of the subscribers, and the errors of its methods.
use web_queue.Common.{ℕ, Bytes, Option, none, List, [], Result, Exec, map_err, unwrap_or}
use web_queue.Common.Map
use web_queue.Common.Map.{Map}
use web_queue.Message.{UniqId}
use web_queue.Sled.{Sled}
use web_queue.Broadcast.{Broadcast}

-- `serde_json::to_vec` and `serde_json::from_slice`
pub record Json (T JsonError : Type 0) : Type 0 where
  pub to_vec : T → Result JsonError Bytes
  pub from_slice : Bytes → Result JsonError T

-- The code that a queue of messages `T` calls and the repository does not hold.
pub record Runtime (Db DbError JsonError Sender Receiver T : Type 0) : Type 0 where
  pub sled : Sled Db DbError
  pub json : Json T JsonError
  pub broadcast : Broadcast Sender Receiver T
  pub uniq : UniqId T

pub record QueueBroadcast (Sender : Type 0) : Type 0 where
  pub sender : Sender
  pub keys : Map Sender

pub record Queue (Db Sender : Type 0) : Type 0 where
  pub map : Db
  pub max_key_updates : Option ℕ
  pub queue_broadcasts : Map (QueueBroadcast Sender)

pub data QueueError (DbError JsonError : Type 0) : Type 0 where
  db : DbError → QueueError DbError JsonError
  encode : JsonError → QueueError DbError JsonError
  zero_sequence : QueueError DbError JsonError

module _ {Sender Receiver T : Type 0} (b : Broadcast Sender Receiver T) where
  -- `get_queue_broadcast`: the entry, made if it is missing
  unfoldable pub get_queue_broadcast : Bytes → Map (QueueBroadcast Sender) → QueueBroadcast Sender
  get_queue_broadcast queue_name queue_broadcasts =
      unwrap_or (Map.get queue_name queue_broadcasts)
        (record { sender = b.channel 1024; keys = [] })

  -- `get_key_broadcast`
  unfoldable pub get_key_broadcast : Bytes → QueueBroadcast Sender → Sender
  get_key_broadcast id queue_broadcast =
      unwrap_or (Map.get id queue_broadcast.keys) (b.channel 1024)

-- A subscription: the stream keeps its receiver and the stored messages that go first.
pub record PreparedStream (Receiver T : Type 0) : Type 0 where
  pub receiver : Receiver
  pub prev_items : Option (List T)

pub record Subscription (Receiver T : Type 0) : Type 0 where
  pub stream : Option (PreparedStream Receiver T)
  pub preloaded_count : Option ℕ

-- `Default for Subscription`
abbrev pub no_subscription : {Receiver T : Type 0} → Subscription Receiver T
no_subscription = record { stream = none; preloaded_count = none }

module _ {Db DbError JsonError Sender : Type 0} where
  -- a database call with `?`: its error becomes `QueueError::Db`
  unfoldable pub on_map :
      {A : Type 0} → Exec Db DbError A → Exec (Queue Db Sender) (QueueError DbError JsonError) A
  on_map m q = let (r, map') = m q.map in (map_err db r, record q { map = map' })

module _ {Db Sender : Type 0} where
  abbrev pub set_broadcasts : Map (QueueBroadcast Sender) → Queue Db Sender → Queue Db Sender
  set_broadcasts m q = record q { queue_broadcasts = m }
