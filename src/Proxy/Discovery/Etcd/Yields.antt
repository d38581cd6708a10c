-- ===== src/Proxy/Discovery/Etcd/Yields.antt =====
-- What the lists of sonya-proxy/src/service_discovery/etcd.rs hold.
use web_queue.Common.{
  Bytes, List, [], ◌∷◌, ◌++◌, Bool, true, false, same_sym, Option, none, some, Result, ok, err, ◌≡◌,
  ◌↔◌, refl, arith, Bool-cases, inl, inr, ◌∙◌, sym,
}
use web_queue.Common.Map
use web_queue.Common.Map.{Map, get-insert, get-remove}
use web_queue.Api.{and_then}
use web_queue.Sled.Ordered.{has_bytes}
use web_queue.Proxy.Discovery.Etcd.{
  KeyValue, put, delete, Event, event, WatchMessage, response, no_message, broken, StreamEnd,
  ShardLists, changed, collect_registry, yielding, apply_events, resume, watch_loop, watched,
  factory,
}
use web_queue.Proxy.Discovery.Etcd.Expected.{
  Registry, Change, change, registered, changes_of, changes, Lists, is_text, Follow, all_text,
  Start, Expected,
}

module _ (utf8 : Bytes → Bool) where
  abbrev Is : Map Bytes → Registry → Type 0
  Is m o = (k : Bytes) → Map.get k m ≡ o k

  put-Is :
      (kv : KeyValue) (m : Map Bytes) (o : Registry)
      → Is m o
      → Is (Map.insert kv.key kv.value m) (change (put, kv) o)
  put-Is kv m o h k = ground (arith, get-insert kv.key k kv.value m, same_sym k kv.key, h k)

  delete-Is :
      (kv : KeyValue) (m : Map Bytes) (o : Registry)
      → Is m o
      → Is (Map.remove kv.key m) (change (delete, kv) o)
  delete-Is kv m o h k = ground (arith, get-remove kv.key k m, same_sym k kv.key, h k)

  -- A change of the map is one of the registry, or is no text.
  abbrev Changed : Change → Registry → Option (Map Bytes) → Type 0
  Changed c o none = is_text utf8 c ≡ false
  Changed c o (some m) = (is_text utf8 c ≡ true) × Is m (change c o)

  changed-Is :
      (c : Change) (m : Map Bytes) (o : Registry) → Is m o → Changed c o (changed utf8 c.0 c.1 m)
  unfolding and_then
  changed-Is (put, kv) m o h = elim (Bool-cases (utf8 kv.key)) [
    | inr bad ↦ rw bad (ground (arith, bad))
    | inl fine ↦ elim (Bool-cases (utf8 kv.value)) [
      | inr bad ↦ rw (fine, bad) (ground (arith, fine, bad))
      | inl good ↦ rw (fine, good) (ground (arith, fine, good), put-Is kv m o h)
    ]
  ]
  changed-Is (delete, kv) m o h = elim (Bool-cases (utf8 kv.key)) [
    | inr bad ↦ rw (bad, bad) refl
    | inl fine ↦ rw (fine, fine) (refl, delete-Is kv m o h)
  ]

  module _ (values : Map Bytes → List Bytes)
      (values_of : (m : Map Bytes) (v : Bytes)
        → (has_bytes v (values m) ≡ true) ↔ ((k : Bytes) × (Map.get k m ≡ some v))) where
    values-Lists : (m : Map Bytes) (o : Registry) → Is m o → Lists (values m) o
    values-Lists m o h v = (
      λ e. let (k, f) = (values_of m v).0 e in (k, sym (h k) ∙ f),
      λ (k, f). (values_of m v).1 (k, h k ∙ f),
    )

    abbrev Follows : ShardLists × StreamEnd → Registry → List Change → Type 0
    Follows r o cs = Follow utf8 r.1 o cs r.0

    resume-cons :
        (y : List Bytes) (r : ShardLists × Option (Map Bytes))
        (f : Map Bytes → ShardLists × StreamEnd)
        → resume (y ∷ r.0, r.1) f ≡ (y ∷ (resume r f).0, (resume r f).1)
    resume-cons y (lists, none) f = refl
    resume-cons y (lists, some m) f = refl

    yielded-Follows :
        (c : Change) (cs : List Change) (o : Registry) (es : List Event)
        (f : Map Bytes → ShardLists × StreamEnd)
        → ((m' : Map Bytes)
            → Is m' (change c o)
            → Follows (resume (apply_events utf8 values es m') f) (change c o) cs)
        → (x : Option (Map Bytes)) → Changed c o x
        → Follows (resume (yielding utf8 values x (apply_events utf8 values es)) f) o (c ∷ cs)
    yielded-Follows c cs o es f later none bad = (bad, refl)
    yielded-Follows c cs o es f later (some m) fine =
        rw (resume-cons (values m) (apply_events utf8 values es m) f)
          (fine.0, values-Lists m (change c o) fine.1, later m fine.1)

    events-Follows :
        (es : List Event) (cs : List Change) (m : Map Bytes) (o : Registry)
        (f : Map Bytes → ShardLists × StreamEnd)
        → ((m' : Map Bytes) (o' : Registry) → Is m' o' → Follows (f m') o' cs)
        → Is m o
        → Follows (resume (apply_events utf8 values es m) f) o (changes_of es ++ cs)
    unfolding apply_events
    events-Follows [] cs m o f later h = later m o h
    events-Follows (event t none ∷ es) cs m o f later h = events-Follows es cs m o f later h
    events-Follows (event t (some kv) ∷ es) cs m o f later h =
        yielded-Follows (t, kv) (changes_of es ++ cs) o es f
          (λ m' h'. events-Follows es cs m' (change (t, kv) o) f later h') (changed utf8 t kv m)
          (changed-Is (t, kv) m o h)

    watch_loop-Follows :
        {Error : Type 0} (messages : List (WatchMessage Error)) (m : Map Bytes) (o : Registry)
        → Is m o
        → Follows (watch_loop utf8 values messages m) o (changes messages)
    unfolding watch_loop
    watch_loop-Follows [] m o h = refl
    watch_loop-Follows (no_message ∷ rest) m o h = refl
    watch_loop-Follows (broken e ∷ rest) m o h = refl
    watch_loop-Follows (response true events ∷ rest) m o h = refl
    watch_loop-Follows (response false events ∷ rest) m o h =
        events-Follows events (changes rest) m o (watch_loop utf8 values rest)
          (λ m' o' h'. watch_loop-Follows rest m' o' h') h

    abbrev Collected : List KeyValue → Registry → Option (Map Bytes) → Type 0
    Collected kvs o none = all_text utf8 kvs ≡ false
    Collected kvs o (some m) = (all_text utf8 kvs ≡ true) × Is m (registered kvs o)

    Collected-cons :
        (kv : KeyValue) (kvs : List KeyValue) (o : Registry) (x : Option (Map Bytes))
        → is_text utf8 (put, kv) ≡ true
        → Collected kvs (change (put, kv) o) x
        → Collected (kv ∷ kvs) o x
    Collected-cons kv kvs o none t c = ground (arith, t, c)
    Collected-cons kv kvs o (some m) t c = (ground (arith, t, c.0), c.1)

    after_change :
        (kv : KeyValue) (kvs : List KeyValue) (o : Registry) (x : Option (Map Bytes))
        → Changed (put, kv) o x
        → ((m : Map Bytes)
            → Is m (change (put, kv) o)
            → Collected kvs (change (put, kv) o) (collect_registry utf8 kvs m))
        → Collected (kv ∷ kvs) o (and_then x (collect_registry utf8 kvs))
    unfolding and_then
    after_change kv kvs o none bad rest = ground (arith, bad)
    after_change kv kvs o (some m) fine rest =
        Collected-cons kv kvs o (collect_registry utf8 kvs m) fine.0 (rest m fine.1)

    collect_registry-Is :
        (kvs : List KeyValue) (m : Map Bytes) (o : Registry)
        → Is m o
        → Collected kvs o (collect_registry utf8 kvs m)
    unfolding collect_registry and_then
    collect_registry-Is [] m o h = (refl, h)
    collect_registry-Is (kv ∷ kvs) m o h =
        after_change kv kvs o (changed utf8 put kv m) (changed-Is (put, kv) m o h)
          (λ m' h'. collect_registry-Is kvs m' (change (put, kv) o) h')

    watched-Start :
        {Error : Type 0} (kvs : List KeyValue) (messages : List (WatchMessage Error))
        (x : Option (Map Bytes))
        → Collected kvs (λ k. none) x
        → Start utf8 kvs (changes messages) (watched utf8 values x (ok tt) messages)
    watched-Start kvs messages none bad = (bad, refl)
    watched-Start kvs messages (some m) fine = (
      fine.0,
      values-Lists m (registered kvs (λ k. none)) fine.1,
      watch_loop-Follows messages m (registered kvs (λ k. none)) fine.1,
    )

    watched-err :
        {Error : Type 0} (kvs : List KeyValue) (e : Error) (messages : List (WatchMessage Error))
        (x : Option (Map Bytes))
        → Collected kvs (λ k. none) x
        → Expected utf8 (ok tt) (ok kvs) (err e) messages (watched utf8 values x (err e) messages)
    watched-err kvs e messages none bad = (refl, ground (arith, bad))
    watched-err kvs e messages (some m) fine = (refl, ground (arith, fine.0))

    start_of : (kvs : List KeyValue) → Collected kvs (λ k. none) (collect_registry utf8 kvs [])
    unfolding Map.get
    start_of kvs = collect_registry-Is kvs [] (λ k. none) (λ k. refl)

    -- The stream of shard lists of etcd, where a HashMap gives exactly its values: it gives nothing if
    -- the connection, the first answer or the watch fails; otherwise first the values of the first
    -- answer and then, after each change until the watch is cancelled, ends or fails, exactly the
    -- values of the keys that were put last and not deleted since; it stops early only at a text that
    -- is not UTF-8, with a panic.
    pub factory-Expected :
        {Error : Type 0} (connect : Result Error (Unit {0})) (got : Result Error (List KeyValue))
        (watch : Result Error (Unit {0})) (messages : List (WatchMessage Error))
        → Expected utf8 connect got watch messages (factory utf8 values connect got watch messages)
    unfolding factory
    factory-Expected (err e) got watch messages = refl
    factory-Expected (ok x) (err e) watch messages = refl
    factory-Expected (ok x) (ok kvs) (err e) messages =
        watched-err kvs e messages (collect_registry utf8 kvs []) (start_of kvs)
    factory-Expected (ok x) (ok kvs) (ok y) messages =
        watched-Start kvs messages (collect_registry utf8 kvs []) (start_of kvs)
