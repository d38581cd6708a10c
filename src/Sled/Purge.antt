-- ===== src/Sled/Purge.antt =====
-- What is left after a batch that removes the keys of some of the entries.
use mathlib.Core.List.{append_assoc, reverse-reverse}
use web_queue.Common.{
  ℕ, zero, suc, Bytes, List, [], ◌∷◌, ◌++◌, Bool, true, false, not, ◌||◌, ◌≡◌, refl, sym, ap, ◌∙◌,
  same, same_iff, same_refl, same_sym, keep, keep-keep_comm, keep-reverse, take, drop, reverse,
  arith, lt_bytes, lt_bytes_irrefl,
}
use mathlib.Core.List.{reverse-cons}
use web_queue.Sled.Ordered.{Entry, Entries, keys, has_bytes, purge, IsSorted, Above}

has_bytes-append :
    (k : Bytes) (xs ys : List Bytes) → has_bytes k (xs ++ ys) ≡ (has_bytes k xs || has_bytes k ys)
unfolding has_bytes
has_bytes-append k [] ys = refl
has_bytes-append k (x ∷ xs) ys = ground (arith, has_bytes-append k xs ys)

module _ {V : Type 0} where
  abbrev Distinct : Entries V → Type 0
  Distinct [] = Unit
  Distinct (e ∷ es) = (has_bytes e.0 (keys es) ≡ false) × Distinct es

  absent_of_Above : (k : Bytes) (es : Entries V) → Above k es → has_bytes k (keys es) ≡ false
  unfolding has_bytes
  absent_of_Above k [] a = refl
  absent_of_Above k (e ∷ es) (a, r) =
      ground (arith, absent_of_Above k es r, same_iff k e.0, clash e.0 a)
    where
      clash : (j : Bytes) → lt_bytes k j ≡ true → k ≡ j → true ≡ false
      clash j h e = sym h ∙ ap (lt_bytes k) (sym e) ∙ lt_bytes_irrefl k

  Distinct-of_sorted : (es : Entries V) → IsSorted es → Distinct es
  Distinct-of_sorted [] s = tt
  Distinct-of_sorted (e ∷ es) (a, s) = (absent_of_Above e.0 es a, Distinct-of_sorted es s)

  absent-snoc :
      (k : Bytes) (es : Entries V) (x : Entry V)
      → has_bytes k (keys (es ++ x ∷ [])) ≡ (has_bytes k (keys es) || same k x.0)
  unfolding has_bytes
  absent-snoc k [] x = ground arith
  absent-snoc k (e ∷ es) x = ground (arith, absent-snoc k es x)

  Distinct-snoc :
      (es : Entries V) (x : Entry V)
      → Distinct es
      → has_bytes x.0 (keys es) ≡ false
      → Distinct (es ++ x ∷ [])
  unfolding has_bytes
  Distinct-snoc [] x d h = (refl, tt)
  Distinct-snoc (e ∷ es) x (a, d) h =
      ground (arith, absent-snoc e.0 es x, same_sym e.0 x.0, Distinct-snoc es x d)

  has_bytes-reverse :
      (k : Bytes) (es : Entries V) → has_bytes k (keys (reverse es)) ≡ has_bytes k (keys es)
  unfolding has_bytes
  has_bytes-reverse k [] = refl
  has_bytes-reverse k (e ∷ es) =
      rw (reverse-cons e es) (absent-snoc k (reverse es) e ∙ ground (arith, has_bytes-reverse k es))

  Distinct-reverse : (es : Entries V) → Distinct es → Distinct (reverse es)
  Distinct-reverse [] d = tt
  Distinct-reverse (e ∷ es) (a, d) =
      rw (reverse-cons e es)
        (Distinct-snoc (reverse es) e (Distinct-reverse es d) (has_bytes-reverse e.0 es ∙ a))

  absent-drop :
      (k : Bytes) (n : ℕ) (es : Entries V)
      → has_bytes k (keys es) ≡ false
      → has_bytes k (keys (drop n es)) ≡ false
  unfolding has_bytes
  absent-drop k zero es h = h
  absent-drop k (suc n) [] h = h
  absent-drop k (suc n) (e ∷ es) h = absent-drop k n es (ground arith)

  purge_all : (pre : List Bytes) (es : Entries V) → purge (pre ++ keys es) es ≡ []
  unfolding purge has_bytes
  purge_all pre [] = refl
  purge_all pre (e ∷ es) = ground (
    arith,
    has_bytes-append e.0 pre (e.0 ∷ keys es),
    same_refl e.0,
    ap (λ ks. purge ks es) (append_assoc pre (e.0 ∷ []) (keys es)),
    purge_all (pre ++ e.0 ∷ []) es,
  )

  -- Of entries with distinct keys, those before the removed ones stay.
  purge-drop : (n : ℕ) (es : Entries V) → Distinct es → purge (keys (drop n es)) es ≡ take n es
  unfolding purge
  purge-drop zero es d = purge_all [] es
  purge-drop (suc n) [] d = refl
  purge-drop (suc n) (e ∷ es) (a, d) = ground (arith, absent-drop e.0 n es a, purge-drop n es d)

  purge-reverse : (ks : List Bytes) (es : Entries V) → purge ks (reverse es) ≡ reverse (purge ks es)
  unfolding purge
  purge-reverse ks es = keep-reverse (λ e. not (has_bytes e.0 ks)) es

  -- To remove all but the last `n` leaves the last `n`.
  pub purge-drop-reverse :
      (n : ℕ) (es : Entries V)
      → IsSorted es
      → purge (keys (drop n (reverse es))) es ≡ reverse (take n (reverse es))
  purge-drop-reverse n es s =
      sym (reverse-reverse (purge (keys (drop n (reverse es))) es))
      ∙ ap reverse (sym (purge-reverse (keys (drop n (reverse es))) es))
      ∙ ap reverse (purge-drop n (reverse es) (Distinct-reverse es (Distinct-of_sorted es s)))

  pub keep-purge_comm :
      (p : Entry V → Bool) (ks : List Bytes) (es : Entries V)
      → keep p (purge ks es) ≡ purge ks (keep p es)
  unfolding purge
  keep-purge_comm p ks es = keep-keep_comm p (λ e. not (has_bytes e.0 ks)) es

  -- A batch whose keys all pass a test leaves the entries that fail it.
  pub keep-not-purge :
      (p : Bytes → Bool) (ks : List Bytes) (es : Entries V)
      → ((k : Bytes) → has_bytes k ks ≡ true → p k ≡ true)
      → keep (λ e. not (p e.0)) (purge ks es) ≡ keep (λ e. not (p e.0)) es
  unfolding purge
  keep-not-purge p ks [] h = refl
  keep-not-purge p ks (e ∷ es) h = ground (arith, h e.0, keep-not-purge p ks es h)

  pub has_bytes-keep :
      (p : Bytes → Bool) (es : Entries V) (k : Bytes)
      → has_bytes k (keys (keep (λ e. p e.0) es)) ≡ true
      → p k ≡ true
  unfolding has_bytes
  has_bytes-keep p [] k h = ground arith
  has_bytes-keep p (e ∷ es) k h =
      ground (arith, has_bytes-keep p es k, same_iff k e.0, ap p {x = k} {y = e.0})

  pub has_bytes-drop-reverse :
      (n : ℕ) (es : Entries V) (k : Bytes)
      → has_bytes k (keys (drop n (reverse es))) ≡ true
      → has_bytes k (keys es) ≡ true
  has_bytes-drop-reverse n es k h =
      ground (arith, absent-drop k n (reverse es), has_bytes-reverse k es)

  keep-not_all :
      (p : Bytes → Bool) (es : Entries V)
      → keep (λ e. p e.0) es ≡ []
      → keep (λ e. not (p e.0)) es ≡ es
  keep-not_all p [] h = refl
  keep-not_all p (e ∷ es) h = ground (arith, keep-not_all p es)

  -- To remove the keys that pass a test leaves the entries that fail it.
  pub purge_kept :
      (p : Bytes → Bool) (es : Entries V)
      → purge (keys (keep (λ e. p e.0) es)) es ≡ keep (λ e. not (p e.0)) es
  purge_kept p es =
      let ks = keys (keep (λ e. p e.0) es) in
      sym (
        keep-not_all p (purge ks es)
          (keep-purge_comm (λ e. p e.0) ks es ∙ purge_all [] (keep (λ e. p e.0) es)))
      ∙ keep-not-purge p ks es (has_bytes-keep p es)
