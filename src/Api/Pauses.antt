-- ===== src/Api/Pauses.antt =====
-- `sleep_between_reconnects` of sonya-meta/src/api.rs beside its formula.
use web_queue.Common.{ℕ, zero, suc, ◌*◌, ◌/◌, ◌<◌, ◌≤◌, arith}
use web_queue.Api.{sqrt_on, sleep_between_reconnects}

sqrt_on-square_le : (r n : ℕ) → sqrt_on r n * sqrt_on r n ≤ n
unfolding sqrt_on
sqrt_on-square_le zero n = omega arith
sqrt_on-square_le (suc r) n = ground (arith, sqrt_on-square_le r n)

lt-sqrt_on-square : (r n : ℕ) → n < suc r * suc r → n < suc (sqrt_on r n) * suc (sqrt_on r n)
unfolding sqrt_on
lt-sqrt_on-square zero n h = h
lt-sqrt_on-square (suc r) n h = ground (arith, lt-sqrt_on-square r n)

-- The pause before the attempt number `a`, in seconds, is the integer part of the root of 1.5 * a,
-- for every attempt that a `u8` can count.
sleep_between_reconnects_lem :
    (a : ℕ)
    → a < 256
    → (2 * (sleep_between_reconnects a * sleep_between_reconnects a) ≤ 3 * a)
      × (3 * a < 2 * (suc (sleep_between_reconnects a) * suc (sleep_between_reconnects a)))
unfolding sleep_between_reconnects
sleep_between_reconnects_lem a h = (
  omega (arith, sqrt_on-square_le 20 ((3 * a) / 2)),
  omega (arith, lt-sqrt_on-square 20 ((3 * a) / 2) (omega arith)),
)
