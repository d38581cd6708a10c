-- ===== src/Proxy/Discovery/Etcd/Expected.antt =====
-- What the stream of sonya-proxy/src/service_discovery/etcd.rs should give, by the changes that etcd
-- reports and without the map that the code keeps.
use web_queue.Common.{
  Bytes, List, [], ◌∷◌, ◌++◌, Bool, true, false, not, ◌&&◌, Option, none, some, Result, ok, err,
  ◌≡◌, ◌↔◌, if◌then◌else◌, same,
}
use web_queue.Sled.Ordered.{has_bytes}
use web_queue.Proxy.Discovery.Etcd.{
  KeyValue, EventType, put, delete, Event, event, WatchMessage, response, no_message, broken,
  StreamEnd, ended, panicked, ShardLists,
}

-- The registry as a function of the key.
abbrev pub Registry : Type 0
Registry = Bytes → Option Bytes

abbrev pub Change : Type 0
Change = EventType × KeyValue

abbrev pub change : Change → Registry → Registry
change (put, kv) o k = if same k kv.key then some kv.value else o k
change (delete, kv) o k = if same k kv.key then none else o k

abbrev pub registered : List KeyValue → Registry → Registry
registered [] o = o
registered (kv ∷ kvs) o = registered kvs (change (put, kv) o)

-- The changes of the events that name a key.
abbrev pub changes_of : List Event → List Change
changes_of [] = []
changes_of (event t none ∷ es) = changes_of es
changes_of (event t (some kv) ∷ es) = (t, kv) ∷ changes_of es

-- All changes up to the response that cancels the watch, the end, or an error.
abbrev pub changes : {Error : Type 0} → List (WatchMessage Error) → List Change
changes [] = []
changes (no_message ∷ rest) = []
changes (broken e ∷ rest) = []
changes (response canceled events ∷ rest) =
    let later = changes rest in if canceled then [] else changes_of events ++ later

-- The list holds exactly the values of the registry.
abbrev pub Lists : List Bytes → Registry → Type 0
Lists y o = (v : Bytes) → (has_bytes v y ≡ true) ↔ ((k : Bytes) × (o k ≡ some v))

abbrev pub has_panicked : StreamEnd → Bool
has_panicked panicked = true
has_panicked _ = false

module _ (utf8 : Bytes → Bool) where
  abbrev pub is_text : Change → Bool
  is_text (put, kv) = utf8 kv.key && utf8 kv.value
  is_text (delete, kv) = utf8 kv.key

  -- One list after each change; they stop early only at a change that is not text, with a panic.
  abbrev pub Follow : StreamEnd → Registry → List Change → ShardLists → Type 0
  Follow e o [] [] = has_panicked e ≡ false
  Follow e o [] (y ∷ ys) = ⊥
  Follow e o (c ∷ cs) [] = (is_text c ≡ false) × (has_panicked e ≡ true)
  Follow e o (c ∷ cs) (y ∷ ys) =
      (is_text c ≡ true) × Lists y (change c o) × Follow e (change c o) cs ys

  abbrev pub all_text : List KeyValue → Bool
  all_text [] = true
  all_text (kv ∷ kvs) = is_text (put, kv) && all_text kvs

  -- The lists after a first answer of etcd: the first one holds the values of this answer.
  abbrev pub Start : List KeyValue → List Change → ShardLists × StreamEnd → Type 0
  Start kvs cs ([], e) = (all_text kvs ≡ false) × (has_panicked e ≡ true)
  Start kvs cs (y ∷ ys, e) =
      (all_text kvs ≡ true)
      × Lists y (registered kvs (λ k. none))
      × Follow e (registered kvs (λ k. none)) cs ys

  -- What the stream should give, by the answers to `connect`, `get` and `watch`.
  abbrev pub Expected :
      {Error : Type 0}
      → Result Error (Unit {0})
      → Result Error (List KeyValue)
      → Result Error (Unit {0})
      → List (WatchMessage Error)
      → ShardLists × StreamEnd
      → Type 0
  Expected (err e) got watch messages r = r ≡ ([], ended)
  Expected (ok x) (err e) watch messages r = r ≡ ([], ended)
  Expected (ok x) (ok kvs) (err e) messages (lists, end) =
      (lists ≡ []) × (has_panicked end ≡ not (all_text kvs))
  Expected (ok x) (ok kvs) (ok y) messages r = Start kvs (changes messages) r
