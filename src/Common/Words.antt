-- ===== src/Common/Words.antt =====
-- `u64::to_be_bytes` and `u64::from_be_bytes` of the standard library.
use native.Mathlib.Nat.{pow-suc}
use web_queue.Common.Tests.{◌==◌, ltb, if◌then◌else◌}
use web_queue.Common.Lists.{length, length-append}
use web_queue.Common.ByteStrings.{Bytes, same, lt_bytes}
use Prim.Native.Nat.{ℕ, zero, suc, ◌+◌, ◌-◌, ◌*◌, ◌/◌, ◌%◌, ◌^◌, ◌<◌}
use mathlib.Core.Path.{◌≡◌, refl, sym, ◌∙◌, ap}
use mathlib.Core.Bool.{◌&&◌}
use mathlib.Core.Option.{Option, none, some}
use mathlib.Core.List.{[], ◌∷◌, ◌++◌}
use native.Mathlib.Omega.{arith}

abbrev pub u64_max : ℕ
u64_max = 2 ^ 64 - 1

-- The `k` low bytes of `n`, the highest first.
unfoldable pub big_endian : ℕ → ℕ → Bytes
big_endian zero n = []
big_endian (suc k) n = big_endian k (n / 256) ++ n % 256 ∷ []

unfoldable pub value : ℕ → Bytes → ℕ
value acc [] = acc
value acc (b ∷ bs) = value (acc * 256 + b) bs

unfoldable pub to_be_bytes : ℕ → Bytes
to_be_bytes n = big_endian 8 n

-- `try_into` of a slice into eight bytes, and their value
unfoldable pub from_be_bytes : Bytes → Option ℕ
from_be_bytes bs = if length bs == 8 then some (value 0 bs) else none

pub length-big_endian : (k n : ℕ) → length (big_endian k n) ≡ k
unfolding big_endian
length-big_endian zero n = refl
length-big_endian (suc k) n =
    omega
      (arith, length-append (big_endian k (n / 256)) (n % 256 ∷ []), length-big_endian k (n / 256))

value-append : (acc : ℕ) (bs : Bytes) (b : ℕ) → value acc (bs ++ b ∷ []) ≡ value acc bs * 256 + b
unfolding value
value-append acc [] b = refl
value-append acc (c ∷ bs) b = value-append (acc * 256 + c) bs b

value-big_endian : (k n : ℕ) → n < 256 ^ k → value 0 (big_endian k n) ≡ n
unfolding big_endian value
value-big_endian zero n h = omega arith
value-big_endian (suc k) n h =
    value-append 0 (big_endian k (n / 256)) (n % 256)
    ∙ omega (arith, pow-suc 256 k, value-big_endian k (n / 256) (omega (arith, pow-suc 256 k)))

-- What is written is read back.
pub from_be_bytes-to_be_bytes : (n : ℕ) → n < 2 ^ 64 → from_be_bytes (to_be_bytes n) ≡ some n
unfolding from_be_bytes to_be_bytes
from_be_bytes-to_be_bytes n h = ground (arith, length-big_endian 8 n, value-big_endian 8 n h)

lt_bytes-snoc :
    (xs ys : Bytes) (a b : ℕ)
    → length xs ≡ length ys
    → lt_bytes (xs ++ a ∷ []) (ys ++ b ∷ []) ≡ (if same xs ys then ltb a b else lt_bytes xs ys)
unfolding lt_bytes same
lt_bytes-snoc [] [] a b h = ground arith
lt_bytes-snoc [] (y ∷ ys) a b h = absurd (omega arith)
lt_bytes-snoc (x ∷ xs) [] a b h = absurd (omega arith)
lt_bytes-snoc (x ∷ xs) (y ∷ ys) a b h = ground (arith, lt_bytes-snoc xs ys a b (omega arith))

same-snoc :
    (xs ys : Bytes) (a b : ℕ)
    → length xs ≡ length ys
    → same (xs ++ a ∷ []) (ys ++ b ∷ []) ≡ (same xs ys && a == b)
unfolding same
same-snoc [] [] a b h = ground arith
same-snoc [] (y ∷ ys) a b h = absurd (omega arith)
same-snoc (x ∷ xs) [] a b h = absurd (omega arith)
same-snoc (x ∷ xs) (y ∷ ys) a b h = ground (arith, same-snoc xs ys a b (omega arith))

same-big_endian :
    (k a b : ℕ) → a < 256 ^ k → b < 256 ^ k → same (big_endian k a) (big_endian k b) ≡ (a == b)
unfolding big_endian same
same-big_endian zero a b h k = ground arith
same-big_endian (suc k) a b h l =
    same-snoc (big_endian k (a / 256)) (big_endian k (b / 256)) (a % 256) (b % 256)
      (length-big_endian k (a / 256) ∙ sym (length-big_endian k (b / 256)))
    ∙ ap (λ t. t && a % 256 == b % 256)
        (same-big_endian k (a / 256) (b / 256) (omega (arith, pow-suc 256 k))
          (omega (arith, pow-suc 256 k)))
    ∙ ground arith

lt_bytes-big_endian :
    (k a b : ℕ) → a < 256 ^ k → b < 256 ^ k → lt_bytes (big_endian k a) (big_endian k b) ≡ ltb a b
unfolding big_endian lt_bytes
lt_bytes-big_endian zero a b h k = ground arith
lt_bytes-big_endian (suc k) a b h l =
    let p : a / 256 < 256 ^ k = omega (arith, pow-suc 256 k) in
    let q : b / 256 < 256 ^ k = omega (arith, pow-suc 256 k) in
    lt_bytes-snoc (big_endian k (a / 256)) (big_endian k (b / 256)) (a % 256) (b % 256)
      (length-big_endian k (a / 256) ∙ sym (length-big_endian k (b / 256)))
    ∙ ground (
      arith,
      same-big_endian k (a / 256) (b / 256) p q,
      lt_bytes-big_endian k (a / 256) (b / 256) p q,
    )

-- The bytes are in the order of the numbers.
pub lt_bytes-to_be_bytes :
    (a b : ℕ) → a < 2 ^ 64 → b < 2 ^ 64 → lt_bytes (to_be_bytes a) (to_be_bytes b) ≡ ltb a b
unfolding to_be_bytes
lt_bytes-to_be_bytes a b h k = lt_bytes-big_endian 8 a b h k

pub same-to_be_bytes :
    (a b : ℕ) → a < 2 ^ 64 → b < 2 ^ 64 → same (to_be_bytes a) (to_be_bytes b) ≡ (a == b)
unfolding to_be_bytes
same-to_be_bytes a b h k = same-big_endian 8 a b h k

pub length-to_be_bytes : (n : ℕ) → length (to_be_bytes n) ≡ 8
unfolding to_be_bytes
length-to_be_bytes n = length-big_endian 8 n
