-- ===== src/Message/Sequences.antt =====
-- The texts of requested sequences: printing, reading, and which texts are refused.
use web_queue.Common.{
  ℕ, ◌^◌, ◌<◌, ◌≡◌, refl, inl, inr, Bytes, codes, same, false, ok, arith, Option-cases,
}
use web_queue.Common.Decimal.{
  u64_to_string, parse_u64, u64_to_string-head, parse_u64-u64_to_string, parse_u64-lt,
}
use web_queue.Message.{RequestSequenceId, at, last, first, display, visit_str, new_sequence_id}

-- The ids that the type `NonZeroU64` holds.
abbrev pub InRange : RequestSequenceId → Type 0
InRange (at s) = (0 < s) × (s < 2 ^ 64)
InRange last = Unit
InRange first = Unit

not_last : (n : ℕ) → n < 2 ^ 64 → same (u64_to_string n) (codes "last") ≡ false
unfolding same
not_last n h = let (c, bs, e, lo, hi) = u64_to_string-head n h in rw e (ground arith)

not_first : (n : ℕ) → n < 2 ^ 64 → same (u64_to_string n) (codes "first") ≡ false
unfolding same
not_first n h = let (c, bs, e, lo, hi) = u64_to_string-head n h in rw e (ground arith)

-- Every requested sequence is read back from its text.
pub visit_str-display : (r : RequestSequenceId) → InRange r → visit_str (display r) ≡ ok r
unfolding visit_str new_sequence_id
visit_str-display (at s) (pos, h) =
    rw (not_last s h, not_first s h, parse_u64-u64_to_string s h) (ground arith)
visit_str-display last h = unfold same in refl
visit_str-display first h = unfold same in refl

-- What is read is in range: never the id 0, never past 64 bits.
pub visit_str-InRange : (v : Bytes) (r : RequestSequenceId) → visit_str v ≡ ok r → InRange r
unfolding visit_str new_sequence_id
visit_str-InRange v r e = elim (Option-cases (parse_u64 v)) [
  | inl nothing ↦ ground arith
  | inr (n, p) ↦ ground (arith, parse_u64-lt v n p)
]
