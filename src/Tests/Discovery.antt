-- ===== src/Tests/Discovery.antt =====
-- The shard lists of etcd, and the registration of a shard, at concrete answers.
use web_queue.Common.{
  Bytes, codes, List, [], ◌∷◌, Bool, true, false, Option, none, some, Result, ok, err, ◌≡◌, ◌≢◌,
  refl, has_prefix, ◌↔◌, ◌⊎◌, ltb, ◌&&◌, String, arith, Bool-cases, inl, inr, same, same_refl,
  same_iff, ap, sym,
}
use web_queue.Common.Map
use web_queue.Common.Map.{Map}
use web_queue.Sled.Ordered.{has_bytes}
use web_queue.Proxy.Discovery.Etcd.{
  KeyValue, put, delete, event, WatchMessage, response, broken, factory,
}
use web_queue.Proxy.Discovery.Etcd.Expected.{Expected, registered}
use web_queue.Proxy.Discovery.Etcd.Yields.{factory-Expected}
use web_queue.Proxy.Discovery.Etcd.Registered.{reported, ended, register_instance_impl-discovered}
use web_queue.Server.Registration.{
  Session, instance_key, register_instance_impl, register_instance, returned,
}
use web_queue.Server.Registration.Attempts.{TenFailures, register_instance-returns}

abbrev found : Option Bytes → List Bytes → List Bytes
found none l = l
found (some w) l = w ∷ l

-- The values of a map: for each of its keys what it holds there.
abbrev values_at : Map Bytes → Map Bytes → List Bytes
values_at m [] = []
values_at m ((k, v) ∷ rest) = found (Map.get k m) (values_at m rest)

abbrev values : Map Bytes → List Bytes
values m = values_at m m

has_bytes-found :
    (v : Bytes) (o : Option Bytes) (l : List Bytes)
    → has_bytes v (found o l) ≡ true
    → (o ≡ some v) ⊎ (has_bytes v l ≡ true)
unfolding has_bytes
has_bytes-found v none l h = inr h
has_bytes-found v (some w) l h = elim (Bool-cases (same v w)) [
  | inl e ↦ inl (ap some (sym ((same_iff v w).0 e)))
  | inr e ↦ inr (ground (arith, e, h))
]

found_self :
    (v : Bytes) (o : Option Bytes) (l : List Bytes) → o ≡ some v → has_bytes v (found o l) ≡ true
unfolding has_bytes
found_self v o l e = rw e (ground (arith, same_refl v))

found_rest :
    (v : Bytes) (o : Option Bytes) (l : List Bytes)
    → has_bytes v l ≡ true
    → has_bytes v (found o l) ≡ true
unfolding has_bytes
found_rest v none l h = h
found_rest v (some w) l h = ground (arith, h)

values_at_sound :
    (m rest : Map Bytes) (v : Bytes)
    → has_bytes v (values_at m rest) ≡ true
    → (k : Bytes) × (Map.get k m ≡ some v)
unfolding has_bytes
values_at_sound m [] v h = cc
values_at_sound m ((k, x) ∷ rest) v h =
    elim (has_bytes-found v (Map.get k m) (values_at m rest) h) [
      | inl e ↦ (k, e)
      | inr e ↦ values_at_sound m rest v e
    ]

values_at_complete :
    (m rest : Map Bytes) (k v w : Bytes)
    → Map.get k rest ≡ some w
    → Map.get k m ≡ some v
    → has_bytes v (values_at m rest) ≡ true
unfolding Map.get
values_at_complete m [] k v w h e = cc
values_at_complete m ((j, x) ∷ rest) k v w h e = elim (Bool-cases (same k j)) [
  | inl it ↦ found_self v (Map.get j m) (values_at m rest) (rw (← (same_iff k j).0 it) e)
  | inr other ↦
      found_rest v (Map.get j m) (values_at m rest)
        (values_at_complete m rest k v w (ground (arith, other, h)) e)
]

values_of :
    (m : Map Bytes) (v : Bytes)
    → (has_bytes v (values m) ≡ true) ↔ ((k : Bytes) × (Map.get k m ≡ some v))
values_of m v = (values_at_sound m m v, λ (k, e). values_at_complete m m k v v e e)

-- bytes up to 127
abbrev utf8 : Bytes → Bool
utf8 [] = true
utf8 (b ∷ bs) = ltb b 128 && utf8 bs

abbrev shard : String → String → KeyValue
shard k v = record { key = codes k; value = codes v }

abbrev messages : List (WatchMessage Bytes)
messages =
    response false (event put (some (shard "sonya/2" "b")) ∷ event put none ∷ [])
    ∷ response false (event delete (some (shard "sonya/1" "")) ∷ [])
    ∷ broken (codes "reset")
    ∷ []

factory-Expected_example :
    Expected utf8
      (ok tt)
      (ok (shard "sonya/1" "a" ∷ []))
      (ok tt)
      messages
      (factory utf8 values (ok tt) (ok (shard "sonya/1" "a" ∷ [])) (ok tt) messages)
factory-Expected_example =
    factory-Expected utf8 values values_of (ok tt) (ok (shard "sonya/1" "a" ∷ [])) (ok tt) messages

-- A session of a shard that has only just registered.
abbrev fresh_session : Session Bytes
fresh_session = record { lease_granted = ok 7; put_answer = ok tt; keep_alives = ok tt ∷ [] }

abbrev own_key : Bytes
own_key = instance_key (codes "sonya") (codes "2")

abbrev another : List KeyValue
another = shard "sonya/1" "a" ∷ []

register_instance_impl-discovered_example :
    let put_events = reported (register_instance_impl own_key (codes "b") fresh_session).0 in
    let end_events = ended [] 7 (register_instance_impl own_key (codes "b") fresh_session).0 in
    let (lists, _) =
      factory utf8 values {Error = Bytes}
        (ok tt)
        (ok another)
        (ok tt)
        (response false put_events ∷ response false end_events ∷ []) in
    (has_prefix (codes "sonya") own_key ≡ true)
    × ((y0 : List Bytes) × (y1 : List Bytes) × (y2 : List Bytes) × (lists ≡ y0 ∷ y1 ∷ y2 ∷ [])
        × (has_bytes (codes "b") y0 ≡ false)
        × (has_bytes (codes "b") y1 ≡ true)
        × (has_bytes (codes "b") y2 ≡ false))
register_instance_impl-discovered_example =
    register_instance_impl-discovered utf8 values values_of (codes "sonya") (codes "2") (codes "b")
      [] fresh_session 7 refl another refl refl only_a
  where
    only_a : (k : Bytes) → registered another (λ k. none) k ≢ some (codes "b")
    only_a k h = elim (Bool-cases (same k (codes "sonya/1"))) [
      | inl e ↦ ground (arith, e, h)
      | inr e ↦ ground (arith, e, h)
    ]

abbrev refused : Result Bytes (Session Bytes)
refused = err (codes "refused")

-- A session that is kept alive once and then lost.
abbrev lost : Session Bytes
lost = record {
  lease_granted = ok 7;
  put_answer = ok tt;
  keep_alives = ok tt ∷ err (codes "lost") ∷ [];
}

abbrev outage : List (Result Bytes (Session Bytes))
outage =
    refused
    ∷ ok lost
    ∷ refused
    ∷ refused
    ∷ refused
    ∷ refused
    ∷ refused
    ∷ refused
    ∷ refused
    ∷ refused
    ∷ refused
    ∷ refused
    ∷ []

register_instance-returns_example :
    ((register_instance (codes "sonya") (codes "1") (codes "http://a:1") outage).1 ≡ returned)
    ↔ TenFailures outage
register_instance-returns_example =
    register_instance-returns (codes "sonya") (codes "1") (codes "http://a:1") outage
