-- ===== src/Sled/Ordered.antt =====
-- Lists of entries in the order of their keys: the contents of a tree of the database, and the
-- `BTreeMap` of the standard library.
use web_queue.Common.{
  Bytes, Option, none, some, List, [], ◌∷◌, Bool, true, false, not, ◌||◌, ◌≡◌, refl, ap, map, same,
  same_iff, lt_bytes, lt_bytes_trans, lt_bytes_total, lt_bytes_irrefl, keep, if◌then◌else◌, arith,
}

abbrev pub Entry : Type 0 → Type 0
Entry V = Bytes × V

abbrev pub Entries : Type 0 → Type 0
Entries V = List (Entry V)

unfoldable pub has_bytes : Bytes → List Bytes → Bool
has_bytes k [] = false
has_bytes k (j ∷ ks) = same k j || has_bytes k ks

module _ {V : Type 0} where
  abbrev pub keys : Entries V → List Bytes
  keys = map (λ e. e.0)

  unfoldable pub lookup : Bytes → Entries V → Option V
  lookup k [] = none
  lookup k ((j, v) ∷ es) = if same k j then some v else lookup k es

  -- at its place in the order
  unfoldable pub put : Bytes → V → Entries V → Entries V
  put k v [] = (k, v) ∷ []
  put k v ((j, w) ∷ es) =
      if same k j
      then (k, v) ∷ es
      else if lt_bytes k j
      then (k, v) ∷ (j, w) ∷ es
      else (j, w) ∷ put k v es

  unfoldable pub without : Bytes → Entries V → Entries V
  without k = keep (λ e. not (same k e.0))

  -- the entries whose keys are not listed
  unfoldable pub purge : List Bytes → Entries V → Entries V
  purge ks = keep (λ e. not (has_bytes e.0 ks))

  abbrev pub Above : Bytes → Entries V → Type 0
  Above k [] = Unit
  Above k (e ∷ es) = (lt_bytes k e.0 ≡ true) × Above k es

  -- strictly ascending keys
  abbrev pub IsSorted : Entries V → Type 0
  IsSorted [] = Unit
  IsSorted (e ∷ es) = Above e.0 es × IsSorted es

  Above-trans : (k j : Bytes) (es : Entries V) → lt_bytes k j ≡ true → Above j es → Above k es
  Above-trans k j [] h a = tt
  Above-trans k j (e ∷ es) h (a, b) = (lt_bytes_trans k j e.0 h a, Above-trans k j es h b)

  pub lookup-put :
      (k j : Bytes) (v : V) (es : Entries V)
      → lookup j (put k v es) ≡ (if same k j then some v else lookup j es)
  unfolding lookup put
  lookup-put k j v [] = ground (arith, same_iff k j, same_iff j k)
  lookup-put k j v ((i, w) ∷ es) =
      ground (arith, lookup-put k j v es, same_iff k i, same_iff j i, same_iff k j, same_iff j k)

  Above-put :
      (b k : Bytes) (v : V) (es : Entries V)
      → lt_bytes b k ≡ true
      → Above b es
      → Above b (put k v es)
  unfolding put
  Above-put b k v [] h a = (h, tt)
  Above-put b k v ((j, w) ∷ es) h (a, r) = ground (arith, Above-put b k v es h r)

  pub put-IsSorted : (k : Bytes) (v : V) (es : Entries V) → IsSorted es → IsSorted (put k v es)
  unfolding put
  put-IsSorted k v [] h = (tt, tt)
  put-IsSorted k v ((j, w) ∷ es) (a, s) = ground (
    arith,
    same_iff k j,
    put-IsSorted k v es s,
    Above-trans k j es,
    lt_bytes_total k j,
    Above-put j k v es,
  )

  Above-keep : (k : Bytes) (p : Entry V → Bool) (es : Entries V) → Above k es → Above k (keep p es)
  Above-keep k p [] a = tt
  Above-keep k p (e ∷ es) (a, r) = ground (arith, Above-keep k p es r)

  pub keep-IsSorted : (p : Entry V → Bool) (es : Entries V) → IsSorted es → IsSorted (keep p es)
  keep-IsSorted p [] h = tt
  keep-IsSorted p (e ∷ es) (a, s) = ground (arith, keep-IsSorted p es s, Above-keep e.0 p es a)

  pub lookup-keep :
      (k : Bytes) (p : Entry V → Bool) (b : Bool) (es : Entries V)
      → ((v : V) → p (k, v) ≡ b)
      → lookup k (keep p es) ≡ (if b then lookup k es else none)
  unfolding lookup
  lookup-keep k p b [] h = ground arith
  lookup-keep k p b ((j, w) ∷ es) h =
      ground (arith, lookup-keep k p b es h, h w, same_iff k j, lookup-hit j)
    where
      lookup-hit : (i : Bytes) → k ≡ i → p (i, w) ≡ b
      lookup-hit i e = rw (← e) (h w)

  put-Above : (k : Bytes) (v : V) (es : Entries V) → Above k es → put k v es ≡ (k, v) ∷ es
  unfolding put
  put-Above k v [] a = refl
  put-Above k v ((j, w) ∷ es) (a, r) =
      ground (arith, same_iff k j, lt_bytes_irrefl k, ap (lt_bytes k) {x = k} {y = j})

  -- The entries that pass a test on their keys take a new one at its place.
  pub keep-put :
      (p : Bytes → Bool) (k : Bytes) (v : V) (es : Entries V)
      → p k ≡ true
      → IsSorted es
      → keep (λ e. p e.0) (put k v es) ≡ put k v (keep (λ e. p e.0) es)
  unfolding put
  keep-put p k v [] h s = ground arith
  keep-put p k v ((j, w) ∷ es) h (a, s) = ground (
    arith,
    same_iff k j,
    keep-put p k v es h s,
    Above-trans k j es,
    Above-keep k (λ e. p e.0) es,
    put-Above k v (keep (λ e. p e.0) es),
    ap p {x = k} {y = j},
  )

  -- The entries that fail it do not change.
  pub keep-not-put :
      (p : Bytes → Bool) (k : Bytes) (v : V) (es : Entries V)
      → p k ≡ true
      → keep (λ e. not (p e.0)) (put k v es) ≡ keep (λ e. not (p e.0)) es
  unfolding put
  keep-not-put p k v [] h = ground arith
  keep-not-put p k v ((j, w) ∷ es) h =
      ground (arith, same_iff k j, keep-not-put p k v es h, ap p {x = k} {y = j})
