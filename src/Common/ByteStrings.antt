-- ===== src/Common/ByteStrings.antt =====
-- Texts as their bytes: Rust's `String` and `Vec<u8>`, with the tests that the program makes.
use Prim.Native.Nat.{ℕ}
use Prim.Native.Char.{code}
use Prim.Native.String.{String}
use mathlib.Core.Path.{◌≡◌, refl}
use mathlib.Core.Logic.{◌↔◌}
use mathlib.Core.Bool.{Bool, true, false, ◌&&◌}
use mathlib.Core.List.{List, [], ◌∷◌, ◌++◌}
use native.Mathlib.Omega.{arith}
use web_queue.Common.Tests.{◌==◌, ltb, if◌then◌else◌}

abbrev pub Bytes : Type 0
Bytes = List ℕ

-- The bytes of an ASCII literal.
abbrev pub codes : String → Bytes
codes String.[] = []
codes (String.◌∷◌ c s) = code c ∷ codes s

-- `==` on byte strings
unfoldable pub same : Bytes → Bytes → Bool
same [] [] = true
same [] (y ∷ ys) = false
same (x ∷ xs) [] = false
same (x ∷ xs) (y ∷ ys) = x == y && same xs ys

pub same_refl : (xs : Bytes) → same xs xs ≡ true
unfolding same
same_refl [] = refl
same_refl (x ∷ xs) = ground (arith, same_refl xs)

pub eq_of_same : (xs ys : Bytes) → same xs ys ≡ true → xs ≡ ys
unfolding same
eq_of_same [] [] h = refl
eq_of_same [] (y ∷ ys) h = ground arith
eq_of_same (x ∷ xs) [] h = ground arith
eq_of_same (x ∷ xs) (y ∷ ys) h = ground (arith, eq_of_same xs ys)

pub same_of_eq : (xs ys : Bytes) → xs ≡ ys → same xs ys ≡ true
same_of_eq xs ys h = rw (← h) (same_refl xs)

pub same_iff : (xs ys : Bytes) → (same xs ys ≡ true) ↔ (xs ≡ ys)
same_iff xs ys = (eq_of_same xs ys, same_of_eq xs ys)

pub same_sym : (xs ys : Bytes) → same xs ys ≡ same ys xs
same_sym xs ys = ground (arith, same_iff xs ys, same_iff ys xs)

-- `starts_with`: the prefix comes first
unfoldable pub has_prefix : Bytes → Bytes → Bool
has_prefix [] xs = true
has_prefix (p ∷ ps) [] = false
has_prefix (p ∷ ps) (x ∷ xs) = p == x && has_prefix ps xs

pub has_prefix-append : (ps xs : Bytes) → has_prefix ps (ps ++ xs) ≡ true
unfolding has_prefix
has_prefix-append [] xs = refl
has_prefix-append (p ∷ ps) xs = ground (arith, has_prefix-append ps xs)

-- The lexicographic order of byte strings, strict.
unfoldable pub lt_bytes : Bytes → Bytes → Bool
lt_bytes xs [] = false
lt_bytes [] (y ∷ ys) = true
lt_bytes (x ∷ xs) (y ∷ ys) = if x == y then lt_bytes xs ys else ltb x y

pub lt_bytes_irrefl : (xs : Bytes) → lt_bytes xs xs ≡ false
unfolding lt_bytes
lt_bytes_irrefl [] = refl
lt_bytes_irrefl (x ∷ xs) = ground (arith, lt_bytes_irrefl xs)

pub lt_bytes_trans :
    (xs ys zs : Bytes) → lt_bytes xs ys ≡ true → lt_bytes ys zs ≡ true → lt_bytes xs zs ≡ true
unfolding lt_bytes
lt_bytes_trans xs ys [] h k = k
lt_bytes_trans [] ys (z ∷ zs) h k = refl
lt_bytes_trans (x ∷ xs) [] (z ∷ zs) h k = ground arith
lt_bytes_trans (x ∷ xs) (y ∷ ys) (z ∷ zs) h k = ground (arith, lt_bytes_trans xs ys zs)

pub lt_bytes_total :
    (xs ys : Bytes) → same xs ys ≡ false → lt_bytes xs ys ≡ false → lt_bytes ys xs ≡ true
unfolding lt_bytes same
lt_bytes_total [] [] h k = ground arith
lt_bytes_total [] (y ∷ ys) h k = ground arith
lt_bytes_total (x ∷ xs) [] h k = refl
lt_bytes_total (x ∷ xs) (y ∷ ys) h k = ground (arith, lt_bytes_total xs ys)

-- A common prefix does not count.
pub lt_bytes-append : (ps xs ys : Bytes) → lt_bytes (ps ++ xs) (ps ++ ys) ≡ lt_bytes xs ys
unfolding lt_bytes
lt_bytes-append [] xs ys = refl
lt_bytes-append (p ∷ ps) xs ys = ground (arith, lt_bytes-append ps xs ys)
