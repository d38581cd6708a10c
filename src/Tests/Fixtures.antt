-- ===== src/Tests/Fixtures.antt =====
-- The data that the examples share: a runtime in memory and a small queue.
use web_queue.Common.{ℕ, zero, suc, Bytes, codes, Option, none, some, [], ◌∷◌, Result, ok, err}
use web_queue.Message.{EventMessage, event_message}
use web_queue.Sled.Memory.{Db, memory}
use web_queue.Broadcast.Memory.{Channel, in_memory}
use web_queue.Queue.State.{Json, Runtime, Queue}

-- The payload of a test message is a number.
abbrev pub Message : Type 0
Message = EventMessage ℕ

-- the sequence with 0 for none, the payload, the id
abbrev pub number_of : Option ℕ → ℕ
number_of none = 0
number_of (some s) = s

abbrev pub sequence_of : ℕ → Option ℕ
sequence_of zero = none
sequence_of (suc s) = some (suc s)

abbrev pub read : Bytes → Result (Unit {0}) Message
read (s ∷ p ∷ id) = ok (record { id = id; sequence = sequence_of s; payload = p })
read _ = err tt

abbrev pub json : Json Message (Unit {0})
json = record { to_vec = λ m. ok (number_of m.sequence ∷ m.payload ∷ m.id); from_slice = read }

abbrev pub runtime : Runtime Db Unit Unit (Channel Message) ℕ Message
runtime = record {
  sled = memory;
  json = json;
  broadcast = in_memory Message;
  uniq = event_message ℕ;
}

abbrev pub State : Type 0
State = Queue Db (Channel Message)

abbrev pub news : Bytes
news = codes "news"

abbrev pub message : Bytes → ℕ → Message
message id p = record { id = id; sequence = none; payload = p }

abbrev pub with_number : Bytes → ℕ → ℕ → Message
with_number id s p = record { id = id; sequence = some s; payload = p }

-- The queue "news", empty, with a limit on the versions.
abbrev pub fresh : Option ℕ → State
fresh limit = record {
  map = (news, record { entries = []; sorted = tt }) ∷ [];
  max_key_updates = limit;
  queue_broadcasts = [];
}
