-- ===== src/Queue/Abstract.antt =====
-- What the storage of sonya/src/queue/map.rs promises, with no database: queues of messages under
-- their keys, the counters, and the limit on versions. There are no errors, no encoding, no channels.
pub mod Values
pub mod Newest
pub mod Loading
pub mod Represents
pub mod Sending
pub mod Listening
pub mod Refinement
pub mod Starting
use web_queue.Common.{
  ℕ, Bytes, Option, none, some, List, [], ◌∷◌, map, reverse, Bool, true, false, ◌&&◌, not, same,
  take, keep, leb, ltb, ◌+◌, has_prefix, lt_bytes, is_some, unwrap_or, if◌then◌else◌,
}
use web_queue.Common.Words.{u64_max}
use web_queue.Message.{UniqId, RequestSequenceId, RequestSequence, at, last, first}
use web_queue.Sled.Ordered.{Entries, has_bytes, put}
use web_queue.Queue.Reads.{get_id}
use web_queue.Queue.Methods.{counter_key}
use web_queue.Queue.Storage.{stored_entries}

pub record Store (T : Type 0) : Type 0 where
  pub queues : Bytes → Option (Entries T)
  pub numbers : Bytes → Option ℕ
  pub limit : Option ℕ

abbrev pub with_value {ℓ} : {A : Type ℓ} → Bytes → A → (Bytes → A) → Bytes → A
with_value k a f j = if same k j then a else f j

abbrev pub values : {V : Type 0} → Entries V → List V
values = map (λ e. e.1)

-- What a client asks of the queues.
pub data Request (T : Type 0) : Type 0 where
  create close : Bytes → Request T
  delete : Bytes → Bytes → Request T
  send : Bytes → T → Request T
  listen : Bytes → Bytes → RequestSequence → Request T
  listen_all : Bytes → RequestSequence → Request T

pub data Answer (T : Type 0) : Type 0 where
  done failed not_there : Answer T
  told : Bool → Answer T
  loaded : Option (List T) → Answer T

module _ {T : Type 0} where
  -- The messages of an id that a subscription starts with.
  unfoldable pub select : Bytes → RequestSequenceId → Entries T → List T
  select id (at n) es =
      values (keep (λ e. not (lt_bytes e.0 (get_id id n)) && lt_bytes e.0 (get_id id u64_max)) es)
  select id last es = values (take 1 (reverse (keep (λ e. has_prefix id e.0) es)))
  select id first es = values (keep (λ e. has_prefix id e.0) es)

abbrev pub asked {ℓ} : {A : Type ℓ} → RequestSequence → (RequestSequenceId → A) → Option (A)
asked none f = none
asked (some r) f = some (f r)

abbrev pub when {ℓ} : {A B : Type ℓ} → Option A → B → (A → B) → B
when none b f = b
when (some a) b f = f a

-- One more than the last number, and 1 at first and after the largest.
unfoldable pub following : Option ℕ → ℕ
following none = 1
following (some n) = if ltb n u64_max then n + 1 else 1

module _ {T : Type 0} (uniq : UniqId T) where
  -- The number that the next message of a queue and an id gets.
  unfoldable pub next : Bytes → Bytes → Store T → ℕ
  next queue_name id s = following (s.numbers (counter_key queue_name id))

  -- The message with its number, and the counters after it was numbered.
  unfoldable pub number_message : Bytes → T → Store T → T × ℕ × (Bytes → Option ℕ)
  number_message queue_name value s = elim (uniq.get_sequence value) [
    | some n ↦ (value, n, s.numbers)
    | none ↦
        let n = next queue_name (uniq.get_id value) s in
        (
          (uniq.set_sequence value n).0,
          n,
          with_value (counter_key queue_name (uniq.get_id value)) (some n) s.numbers,
        )
  ]

  unfoldable pub send_message : Bytes → T → Entries T → Store T → Store T
  send_message queue_name value es s =
      let (value', n, numbers') = number_message queue_name value s in
      let id = uniq.get_id value in
      record s {
        queues =
            with_value queue_name (some (stored_entries s.limit id (get_id id n) value' es))
              s.queues;
        numbers = numbers';
      }

  abbrev pub is_since : ℕ → T → Bool
  is_since n v = elim (uniq.get_sequence v) [ none ↦ false | some m ↦ leb n m ]

  -- One message for each id, the one that stands last in the list, ordered by their ids.
  unfoldable pub newest : List T → Entries T
  newest [] = []
  newest (v ∷ vs) =
      let later = newest vs in
      if has_bytes (uniq.get_id v) (map (λ w. uniq.get_id w) vs)
      then later
      else put (uniq.get_id v) v later

  -- The messages of a whole queue: those with a number from n on, the newest of each id, or all.
  unfoldable pub select_any : RequestSequenceId → Entries T → List T
  select_any (at n) es = keep (is_since n) (values es)
  select_any last es = values (newest (values es))
  select_any first es = values es

  unfoldable pub answer : Request T → Store T → Answer T × Store T
  answer (create queue_name) s = (
    done,
    record s {
      queues = with_value queue_name (some (unwrap_or (s.queues queue_name) [])) s.queues;
    },
  )
  answer (close queue_name) s = (
    told (is_some (s.queues queue_name)),
    record s { queues = with_value queue_name none s.queues },
  )
  answer (delete queue_name id) s =
      let es = unwrap_or (s.queues queue_name) [] in
      (
        done,
        record s {
          queues = with_value queue_name (some (keep (λ e. not (has_prefix id e.0)) es)) s.queues;
        },
      )
  answer (send queue_name value) s =
      when (s.queues queue_name) (told false, s)
        λ es. (told true, send_message queue_name value es s)
  answer (listen queue_name id sequence) s =
      (when (s.queues queue_name) not_there λ es. loaded (asked sequence λ r. select id r es), s)
  answer (listen_all queue_name sequence) s =
      (when (s.queues queue_name) not_there λ es. loaded (asked sequence λ r. select_any r es), s)

  -- The answers to a client's requests, one after the other.
  unfoldable pub answers : List (Request T) → Store T → List (Answer T) × Store T
  answers [] s = ([], s)
  answers (r ∷ rs) s = let (a, s') = answer r s in let (l, s'') = answers rs s' in (a ∷ l, s'')
