-- ===== src/Message/Interface.antt =====
-- What the queue relies on in the trait `UniqId`, and that `EventMessage` keeps it.
use web_queue.Common.{◌≡◌, refl, some}
use web_queue.Message.{SequenceId, UniqId, event_message, set_sequence}

pub record IsUniqId {T : Type 0} (u : UniqId T) : Type 0 where
  pub id_kept : (m : T) (s : SequenceId) → u.get_id (u.set_sequence m s).0 ≡ u.get_id m
  pub sequence_set : (m : T) (s : SequenceId) → u.get_sequence (u.set_sequence m s).0 ≡ some s
  pub previous : (m : T) (s : SequenceId) → (u.set_sequence m s).1 ≡ u.get_sequence m

-- A message is its id and payload with the new sequence; the old one is returned.
pub event_message-IsUniqId : (Value : Type 0) → IsUniqId (event_message Value)
unfolding set_sequence
event_message-IsUniqId Value = record {
  id_kept = λ m s. refl;
  sequence_set = λ m s. refl;
  previous = λ m s. refl;
}
