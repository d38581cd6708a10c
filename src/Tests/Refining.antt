-- ===== src/Tests/Refining.antt =====
-- The abstract store beside the queue and its long polls, at concrete requests.
use web_queue.Common.{
  ℕ, zero, suc, Bytes, codes, same, same_sym, List, [], ◌∷◌, Option, none, some, Result, ok, err,
  ◌≡◌, refl, arith, if◌then◌else◌, Bool-cases, inl, inr, ◌∙◌, ap,
}
use web_queue.Common.Map
use web_queue.Message.{event_message, last}
use web_queue.Sled.Memory.{Db, default_name, memory, memory-IsReliable, memory_trees}
use web_queue.Sled.Ordered.{lookup}
use web_queue.Broadcast.Memory.{Channel, in_memory}
use web_queue.Queue.State.{Runtime}
use web_queue.Queue.Methods.{stored}
use web_queue.Queue.Abstract.{Store, Request, close, send, listen, listen_all}
use web_queue.Queue.Abstract.Represents.{Represents, stored_in}
use web_queue.Queue.Counters.{counters}
use web_queue.Broadcast.{RecvError}
use web_queue.Tests.Fixtures.{Message, news, fresh, message}

-- An encoding that tells a missing sequence from the sequence 0.
abbrev tag : Option ℕ → ℕ
tag none = 0
tag (some s) = suc s

abbrev untag : ℕ → Option ℕ
untag zero = none
untag (suc s) = some s

abbrev pub written : Message → Bytes
written m = tag m.sequence ∷ m.payload ∷ m.id

abbrev pub read_back : Bytes → Result (Unit {0}) Message
read_back (s ∷ p ∷ id) = ok (record { id = id; sequence = untag s; payload = p })
read_back _ = err tt

untag-tag : (o : Option ℕ) → untag (tag o) ≡ o
untag-tag none = refl
untag-tag (some s) = refl

pub reads : (m : Message) → read_back (written m) ≡ ok m
reads m = ap (λ o. ok (record m { sequence = o })) (untag-tag m.sequence)

abbrev pub tagged : Runtime Db Unit Unit (Channel Message) ℕ Message
tagged = record {
  sled = memory;
  json = record { to_vec = λ m. ok (written m); from_slice = read_back };
  broadcast = in_memory Message;
  uniq = event_message ℕ;
}

-- The store with the queue "news", empty.
abbrev pub one_queue : Store Message
one_queue = record {
  queues = λ j. if same j news then some [] else none;
  numbers = λ k. none;
  limit = some 3;
}

fresh_trees :
    (j : Bytes)
    → memory-IsReliable.trees (fresh (some 3)).map j ≡ stored_in written (one_queue.queues j)
unfolding Map.get same
fresh_trees j = memory_trees (fresh (some 3)).map j ∙ elim (Bool-cases (same j news)) [
  | inl e ↦ ground (arith, same_sym j news)
  | inr e ↦ ground (arith, same_sym j news)
]

fresh_numbers :
    (k : Bytes) → stored (lookup k (counters tagged memory-IsReliable (fresh (some 3)))) ≡ none
unfolding Map.get same lookup stored memory
fresh_numbers k = rw (memory_trees (fresh (some 3)).map default_name) refl

pub fresh-Represents : Represents tagged memory-IsReliable written (fresh (some 3)) one_queue
fresh-Represents = record {
  queues_of = λ j d. fresh_trees j;
  numbers_of = fresh_numbers;
  limit_of = refl;
}

abbrev requests : List (Request Message)
requests =
    send news (message (codes "7") 5)
    ∷ listen news (codes "7") (some last)
    ∷ close news
    ∷ listen_all news none
    ∷ []

abbrev pub receipts : List (Result RecvError Message)
receipts = ok (message (codes "7") 9) ∷ []
