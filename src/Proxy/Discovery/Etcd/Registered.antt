-- ===== src/Proxy/Discovery/Etcd/Registered.antt =====
-- A shard's registration (sonya/src/service_discovery/etcd.rs) as the proxy sees it
-- (sonya-proxy/src/service_discovery/etcd.rs): etcd reports a key that is put, and, when its lease
-- ends, that it is deleted.
use web_queue.Common.{
  ℕ, Bytes, codes, List, [], ◌∷◌, ◌++◌, Bool, true, false, ◌&&◌, none, some, Result, ok, err, ◌≡◌,
  ◌≢◌, ◌↔◌, ◌==◌, if◌then◌else◌, refl, ap, arith, same, same_refl, has_prefix, has_prefix-append,
  Bool-cases, inl, inr,
}
use web_queue.Common.Map.{Map}
use web_queue.Common.Map
use web_queue.Sled.Ordered.{has_bytes}
use web_queue.Server.Registration.{
  Call, put, instance_key, register_instance_impl, keep_alive, put_instance, Session,
}
use web_queue.Proxy.Discovery.Etcd.{
  KeyValue, EventType, delete, Event, event, response, StreamEnd, factory,
}
use web_queue.Proxy.Discovery.Etcd.Expected.{Registry, change, registered, all_text, Start}
use web_queue.Proxy.Discovery.Etcd.Yields.{factory-Expected}

-- What etcd reports of a call: a `put` of a key.
abbrev pub reported : List Call → List Event
reported [] = []
reported (put key value id ∷ calls) =
    event EventType.put (some (record { key = key; value = value })) ∷ reported calls
reported (_ ∷ calls) = reported calls

-- What etcd reports when a lease ends: a `delete` of each key that the calls have put with this lease,
-- with whatever value etcd leaves in it.
abbrev pub ended : Bytes → ℕ → List Call → List Event
ended left id [] = []
ended left id (put key value lease ∷ calls) =
    let rest = ended left id calls in
    if lease == id then event delete (some (record { key = key; value = left })) ∷ rest else rest
ended left id (_ ∷ calls) = ended left id calls

module _ {Error : Type 0} where
  reported-keep_alive :
      (id : ℕ) (rest : List (Result Error (Unit {0}))) → reported (keep_alive id rest).0 ≡ []
  unfolding keep_alive
  reported-keep_alive id [] = refl
  reported-keep_alive id (err e ∷ rest) = refl
  reported-keep_alive id (ok x ∷ rest) = reported-keep_alive id rest

  reported-put_instance :
      (key value : Bytes) (id : ℕ) (answer : Result Error (Unit {0}))
      (rest : List (Result Error (Unit {0})))
      → reported (put_instance key value id answer rest).0
        ≡ event EventType.put (some (record { key = key; value = value })) ∷ []
  unfolding put_instance
  reported-put_instance key value id (err e) rest = refl
  reported-put_instance key value id (ok x) rest =
      ap (◌∷◌ (event EventType.put (some (record { key = key; value = value }))))
        (reported-keep_alive id rest)

  -- A session with a lease puts its key once.
  reported-session :
      (key value : Bytes) (session : Session Error) (id : ℕ)
      → session.lease_granted ≡ ok id
      → reported (register_instance_impl key value session).0
        ≡ event EventType.put (some (record { key = key; value = value })) ∷ []
  unfolding register_instance_impl
  reported-session key value session id e =
      rw (e, register_instance_impl)
        (reported-put_instance key value id session.put_answer session.keep_alives)

  ended-keep_alive :
      (left : Bytes) (id : ℕ) (rest : List (Result Error (Unit {0})))
      → ended left id (keep_alive id rest).0 ≡ []
  unfolding keep_alive
  ended-keep_alive left id [] = refl
  ended-keep_alive left id (err e ∷ rest) = refl
  ended-keep_alive left id (ok x ∷ rest) = ended-keep_alive left id rest

  ended-put_instance :
      (key value left : Bytes) (id : ℕ) (answer : Result Error (Unit {0}))
      (rest : List (Result Error (Unit {0})))
      → ended left id (put_instance key value id answer rest).0
        ≡ event delete (some (record { key = key; value = left })) ∷ []
  unfolding put_instance
  ended-put_instance key value left id (err e) rest = ground arith
  ended-put_instance key value left id (ok x) rest =
      rw (ended-keep_alive left id rest) (ground arith)

  -- The end of a session's lease deletes the session's key.
  ended-session :
      (key value left : Bytes) (session : Session Error) (id : ℕ)
      → session.lease_granted ≡ ok id
      → ended left id (register_instance_impl key value session).0
        ≡ event delete (some (record { key = key; value = left })) ∷ []
  unfolding register_instance_impl
  ended-session key value left session id e =
      rw (e, register_instance_impl)
        (ended-put_instance key value left id session.put_answer session.keep_alives)

absent : (v : Bytes) (y : List Bytes) → has_bytes v y ≢ true → has_bytes v y ≡ false
absent v y h = ground (arith, h)

module _ (utf8 : Bytes → Bool) (kvs : List KeyValue) (key value left : Bytes)
    (texts : utf8 key && utf8 value ≡ true)
    (unknown : (k : Bytes) → registered kvs (λ k. none) k ≢ some value) where
  abbrev kv : KeyValue
  kv = record { key = key; value = value }

  abbrev gone : KeyValue
  gone = record { key = key; value = left }

  -- The lists before, while and after the key is there.
  abbrev Passes : List (List Bytes) → Type 0
  Passes lists =
      (y0 : List Bytes) × (y1 : List Bytes) × (y2 : List Bytes) × (lists ≡ y0 ∷ y1 ∷ y2 ∷ [])
      × (has_bytes value y0 ≡ false)
      × (has_bytes value y1 ≡ true)
      × (has_bytes value y2 ≡ false)

  abbrev with_key : Registry
  with_key = change (EventType.put, kv) (registered kvs (λ k. none))

  abbrev without_key : Registry
  without_key = change (delete, gone) with_key

  not_after : (k : Bytes) → without_key k ≢ some value
  not_after k h = elim (Bool-cases (same k key)) [
    | inl e ↦ ground (arith, e, h)
    | inr e ↦ unknown k (ground (arith, e, h))
  ]

  passes :
      (r : List (List Bytes) × StreamEnd)
      → Start utf8 kvs ((EventType.put, kv) ∷ (delete, gone) ∷ []) r
      → all_text utf8 kvs ≡ true
      → Passes r.0
  passes ([], e) s fine = absurd (ground (arith, s.0, fine))
  passes (y0 ∷ [], e) s fine = absurd (ground (arith, s.2.0, texts))
  passes (y0 ∷ y1 ∷ [], e) s fine = absurd (ground (arith, s.2.2.0, texts))
  passes (y0 ∷ y1 ∷ y2 ∷ [], e) s fine = (
    y0,
    y1,
    y2,
    refl,
    absent value y0 (λ h. let (k, there) = (s.1 value).0 h in unknown k there),
    (s.2.1 value).1 (key, rw (same_refl key) refl),
    absent value y2 (λ h. let (k, there) = (s.2.2.1 value).0 h in not_after k there),
  )
  passes (y0 ∷ y1 ∷ y2 ∷ y3 ∷ ys, e) s fine = absurd s.2.2.2

-- A shard that registers with a lease is in the proxy's next list, and after the end of that lease it
-- is in none: the proxy's lists are the first one without it, the one with it, once etcd reports what
-- the session has put under the shard's key, which starts with the prefix that the proxy asks for,
-- and the one without it again, once etcd has deleted what the session has put with its lease; given
-- that its key and address are texts, as is all of etcd's first answer, and that no other shard has
-- its address.
pub register_instance_impl-discovered :
    {Error : Type 0} (utf8 : Bytes → Bool) (values : Map Bytes → List Bytes)
    → ((m : Map Bytes) (v : Bytes)
        → (has_bytes v (values m) ≡ true) ↔ ((k : Bytes) × (Map.get k m ≡ some v)))
    → (prefix instance_id instance_addr left : Bytes) (session : Session Error) (id : ℕ)
    → session.lease_granted ≡ ok id
    → (kvs : List KeyValue) → all_text utf8 kvs ≡ true
    → (utf8 (instance_key prefix instance_id) && utf8 instance_addr) ≡ true
    → ((k : Bytes) → registered kvs (λ k. none) k ≢ some instance_addr)
    → let key = instance_key prefix instance_id in
      let put_events = reported (register_instance_impl key instance_addr session).0 in
      let end_events = ended left id (register_instance_impl key instance_addr session).0 in
      let (lists, _) =
        factory utf8 values {Error = Error}
          (ok tt)
          (ok kvs)
          (ok tt)
          (response false put_events ∷ response false end_events ∷ []) in
      (has_prefix prefix key ≡ true)
      × ((y0 : List Bytes) × (y1 : List Bytes) × (y2 : List Bytes) × (lists ≡ y0 ∷ y1 ∷ y2 ∷ [])
          × (has_bytes instance_addr y0 ≡ false)
          × (has_bytes instance_addr y1 ≡ true)
          × (has_bytes instance_addr y2 ≡ false))
register_instance_impl-discovered {Error} utf8 values values_of prefix instance_id instance_addr
      left session id granted kvs fine texts unknown =
    let key = instance_key prefix instance_id in
    rw
      (
        reported-session key instance_addr session id granted,
        ended-session key instance_addr left session id granted,
      )
      (
        has_prefix-append prefix (codes "/" ++ instance_id),
        passes utf8 kvs key instance_addr left texts unknown _
            (factory-Expected utf8 values values_of (ok tt) (ok kvs) (ok tt) _) fine,
      )
