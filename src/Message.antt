-- ===== src/Message.antt =====
-- sonya-meta/src/message.rs: messages, their sequence numbers, and the sequences that a client asks
-- for. A `NonZeroU64` is a number that `SequenceId.new` accepted; `serde_json::Value` is a parameter.
pub mod Sequences
pub mod Interface
use web_queue.Common.{
  ℕ, Bytes, String, codes, same, Option, none, some, Result, ok, err, ◌==◌, if◌then◌else◌,
}
use web_queue.Common.Decimal.{u64_to_string, parse_u64}

abbrev pub SequenceId : Type 0
SequenceId = ℕ

-- `NonZeroU64::new`
unfoldable pub new_sequence_id : ℕ → Option SequenceId
new_sequence_id v = if v == 0 then none else some v

abbrev pub Sequence : Type 0
Sequence = Option SequenceId

pub record EventMessage (Value : Type 0) : Type 0 where
  pub id : Bytes
  pub sequence : Sequence
  pub payload : Value

pub data RequestSequenceId : Type 0 where
  at : SequenceId → RequestSequenceId
  last first : RequestSequenceId

abbrev pub RequestSequence : Type 0
RequestSequence = Option RequestSequenceId

-- `E::invalid_value`
pub data VisitError : Type 0 where
  unsigned : ℕ → VisitError
  text : Bytes → VisitError

-- `Display for RequestSequenceId`
unfoldable pub display : RequestSequenceId → Bytes
display (at s) = u64_to_string s
display last = codes "last"
display first = codes "first"

-- `SequenceVisitor::visit_u64`
unfoldable pub visit_u64 : ℕ → Result VisitError RequestSequenceId
unfolding new_sequence_id
visit_u64 v = elim (new_sequence_id v) [ some id ↦ ok (at id) | none ↦ err (unsigned v) ]

parsed : Bytes → Option ℕ → Result VisitError RequestSequenceId
parsed v (some id) = visit_u64 id
parsed v none = err (text v)

-- `SequenceVisitor::visit_str`
unfoldable pub visit_str : Bytes → Result VisitError RequestSequenceId
unfolding display parsed visit_u64
visit_str v =
    if same v (display last)
    then ok last
    else if same v (display first)
    then ok first
    else parsed v (parse_u64 v)

-- What `Serialize for RequestSequenceId` hands to the serializer.
pub data Serialized : Type 0 where
  u64 : ℕ → Serialized
  str : Bytes → Serialized

unfoldable pub serialize : RequestSequenceId → Serialized
serialize (at s) = u64 s
serialize last = str (codes "last")
serialize first = str (codes "first")

-- The trait `UniqId`: `set_sequence` returns the message with what it held before.
pub record UniqId (T : Type 0) : Type 0 where
  pub get_id : T → Bytes
  pub get_sequence : T → Sequence
  pub set_sequence : T → SequenceId → T × Sequence

module _ {Value : Type 0} where
  -- `impl UniqId for EventMessage`
  unfoldable pub set_sequence : EventMessage Value → SequenceId → EventMessage Value × Sequence
  set_sequence m s = (record m { sequence = some s }, m.sequence)

abbrev pub event_message : (Value : Type 0) → UniqId (EventMessage Value)
event_message Value = record {
  get_id = λ m. m.id;
  get_sequence = λ m. m.sequence;
  set_sequence = set_sequence;
}
