-- ===== src/Common/Decimal.antt =====
-- `u64`'s `to_string` and `parse::<u64>()` of the standard library.
use native.Mathlib.Nat.{pow-suc}
use Prim.Native.Nat.{ℕ, zero, suc, ◌+◌, ◌-◌, ◌*◌, ◌/◌, ◌%◌, ◌^◌, ◌≤◌, ◌<◌}
use mathlib.Core.Path.{◌≡◌, refl, sym, ◌∙◌, ap}
use mathlib.Core.Bool.{◌&&◌}
use mathlib.Core.Option.{Option, none, some}
use mathlib.Core.List.{[], ◌∷◌, ◌++◌}
use native.Mathlib.Decide.{dec_lt}
use native.Mathlib.Omega.{arith}
use web_queue.Common.Tests.{◌==◌, ltb, leb, if◌then◌else◌, Bool-cases}
use mathlib.Core.Logic.{inl, inr}
use web_queue.Common.ByteStrings.{Bytes}

-- At most `f` digits; a `u64` has at most twenty.
pub decimal : ℕ → ℕ → Bytes
decimal zero n = []
decimal (suc f) n =
    let rest = decimal f (n / 10) in if ltb n 10 then (n + 48) ∷ [] else rest ++ (n % 10 + 48) ∷ []

unfoldable pub u64_to_string : ℕ → Bytes
unfolding decimal
u64_to_string n = decimal 20 n

-- one digit more, with the checks of the multiplication and the addition
pub push_digit : ℕ → ℕ → Option ℕ
push_digit acc c =
    if leb 48 c && leb c 57 && ltb (acc * 10 + (c - 48)) (2 ^ 64)
    then some (acc * 10 + (c - 48))
    else none

pub digits : Option ℕ → Bytes → Option ℕ
digits none bs = none
digits (some acc) [] = some acc
digits (some acc) (c ∷ bs) = digits (push_digit acc c) bs

-- A sign `+` is accepted; no digit at all is an error.
unfoldable pub parse_u64 : Bytes → Option ℕ
unfolding digits push_digit
parse_u64 [] = none
parse_u64 (c ∷ []) = digits (some 0) (c ∷ [])
parse_u64 (c ∷ d ∷ bs) =
    if c == b'+' then digits (some 0) (d ∷ bs) else digits (some 0) (c ∷ d ∷ bs)

abbrev then_digit : Option ℕ → ℕ → Option ℕ
then_digit none c = none
then_digit (some v) c = push_digit v c

digits-snoc :
    (o : Option ℕ) (bs : Bytes) (c : ℕ) → digits o (bs ++ c ∷ []) ≡ then_digit (digits o bs) c
unfolding digits
digits-snoc none bs c = refl
digits-snoc (some v) [] c = elim-last (push_digit v c)
  where
    elim-last : (o : Option ℕ) → digits o [] ≡ o
    elim-last none = refl
    elim-last (some w) = refl
digits-snoc (some v) (b ∷ bs) c = digits-snoc (push_digit v b) bs c

decimal_of_lt : (f n : ℕ) → n < 10 → decimal (suc f) n ≡ (n + 48) ∷ []
unfolding decimal
decimal_of_lt f n h = ground arith

decimal_of_ge : (f n : ℕ) → 10 ≤ n → decimal (suc f) n ≡ decimal f (n / 10) ++ (n % 10 + 48) ∷ []
unfolding decimal
decimal_of_ge f n h = ground arith

digits_digit : (n : ℕ) → n < 10 → digits (some 0) ((n + 48) ∷ []) ≡ some n
unfolding digits push_digit
digits_digit n h = ground arith

push_digit_lem : (n : ℕ) → n < 2 ^ 64 → push_digit (n / 10) (n % 10 + 48) ≡ some n
unfolding push_digit
push_digit_lem n h = ground arith

positive : (f n : ℕ) → n < 10 ^ suc f → 10 ≤ n → 0 < f
positive zero n h k = absurd (omega arith)
positive (suc f) n h k = omega arith

digits-decimal :
    (f n : ℕ) → n < 10 ^ f → n < 2 ^ 64 → 0 < f → digits (some 0) (decimal f n) ≡ some n
digits-decimal zero n h k p = absurd (omega arith)
digits-decimal (suc f) n h k p = elim (dec_lt n 10) [
  | yes small ↦ rw (decimal_of_lt f n small) (digits_digit n small)
  | no big ↦ rw (decimal_of_ge f n (omega arith)) (
      digits-snoc (some 0) (decimal f (n / 10)) (n % 10 + 48)
      ∙ ap (λ o. then_digit o (n % 10 + 48))
          (digits-decimal f (n / 10) (omega (arith, pow-suc 10 f)) (omega arith)
            (positive f n h (omega arith)))
      ∙ push_digit_lem n k)
]

-- A number is printed with a digit in front.
decimal-head :
    (f n : ℕ)
    → n < 10 ^ f
    → 0 < f
    → (c : ℕ) × (bs : Bytes) × (decimal f n ≡ c ∷ bs) × (48 ≤ c) × (c ≤ 57)
decimal-head zero n h p = absurd (omega arith)
decimal-head (suc f) n h p = elim (dec_lt n 10) [
  | yes small ↦ (n + 48, [], decimal_of_lt f n small, omega arith, omega arith)
  | no big ↦
      let (c, bs, e, lo, hi) =
        decimal-head f (n / 10) (omega (arith, pow-suc 10 f)) (positive f n h (omega arith)) in
      (
        c,
        bs ++ (n % 10 + 48) ∷ [],
        decimal_of_ge f n (omega arith) ∙ ap (λ t. t ++ (n % 10 + 48) ∷ []) e,
        lo,
        hi,
      )
]

pub u64_to_string-head :
    (n : ℕ) → n < 2 ^ 64 → (c : ℕ) × (bs : Bytes) × (u64_to_string n ≡ c ∷ bs) × (48 ≤ c) × (c ≤ 57)
unfolding u64_to_string
u64_to_string-head n h = decimal-head 20 n (omega arith) (omega arith)

parse_u64-digits : (c : ℕ) (bs : Bytes) → 48 ≤ c → parse_u64 (c ∷ bs) ≡ digits (some 0) (c ∷ bs)
unfolding parse_u64
parse_u64-digits c [] h = refl
parse_u64-digits c (d ∷ bs) h = ground arith

-- What is printed is parsed back.
pub parse_u64-u64_to_string : (n : ℕ) → n < 2 ^ 64 → parse_u64 (u64_to_string n) ≡ some n
parse_u64-u64_to_string n h =
    let (c, bs, e, lo, hi) = u64_to_string-head n h in
    rw e (parse_u64-digits c bs lo) ∙ ap (digits (some 0)) (sym e) ∙ print_back
  where
    print_back : digits (some 0) (u64_to_string n) ≡ some n
    print_back = unfold u64_to_string in digits-decimal 20 n (omega arith) h (omega arith)

-- A parsed number is a `u64`.
digits-lt :
    (o : Option ℕ) (bs : Bytes) (n : ℕ)
    → ((v : ℕ) → o ≡ some v → v < 2 ^ 64)
    → digits o bs ≡ some n
    → n < 2 ^ 64
unfolding digits push_digit
digits-lt none bs n h e = cc
digits-lt (some v) [] n h e = ground (arith, h v refl)
digits-lt (some v) (c ∷ bs) n h e = digits-lt (push_digit v c) bs n (λ w k. ground arith) e

pub parse_u64-lt : (bs : Bytes) (n : ℕ) → parse_u64 bs ≡ some n → n < 2 ^ 64
unfolding parse_u64
parse_u64-lt [] n e = cc
parse_u64-lt (c ∷ []) n e = digits-lt (some 0) (c ∷ []) n (λ v k. ground arith) e
parse_u64-lt (c ∷ d ∷ bs) n e = elim (Bool-cases (c == b'+')) [
  | inl plus ↦ digits-lt (some 0) (d ∷ bs) n (λ v k. ground arith) (ground arith)
  | inr plain ↦ digits-lt (some 0) (c ∷ d ∷ bs) n (λ v k. ground arith) (ground arith)
]
