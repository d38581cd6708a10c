-- ===== src/Queue/Keys.antt =====
-- The keys of messages: `get_id` of sonya/src/queue/map.rs.
use web_queue.Common.{
  ℕ, ◌^◌, ◌<◌, ◌≡◌, refl, sym, ap, ◌∙◌, Bytes, List, [], ◌∷◌, ◌++◌, true, not, ◌&&◌, lt_bytes,
  lt_bytes-append, has_prefix, has_prefix-append, length, length-append, ltb, arith,
}
use web_queue.Common.Words.{
  to_be_bytes, u64_max, lt_bytes-to_be_bytes, length-to_be_bytes, from_be_bytes-to_be_bytes,
  from_be_bytes,
}
use mathlib.Core.List.{append_assoc}
use web_queue.Sled.{in_range}
use web_queue.Queue.Reads.{get_id}

module _ {ℓ} {A : Type ℓ} where
  append_inj :
      (i j xs ys : List A) → i ++ xs ≡ j ++ ys → length xs ≡ length ys → (i ≡ j) × (xs ≡ ys)
  append_inj [] [] xs ys e h = (refl, e)
  append_inj [] (y ∷ j) xs ys e h = absurd (omega (arith, ap length e, length-append j ys))
  append_inj (x ∷ i) [] xs ys e h = absurd (omega (arith, ap length e, length-append i xs))
  append_inj (x ∷ i) (y ∷ j) xs ys e h = let (p, q) = append_inj i j xs ys (cc) h in (cc (p), q)

-- A key belongs to one message id and one sequence number.
pub get_id-injective :
    (i j : Bytes) (a b : ℕ) → a < 2 ^ 64 → b < 2 ^ 64 → get_id i a ≡ get_id j b → (i ≡ j) × (a ≡ b)
unfolding get_id
get_id-injective i j a b ha hb e =
    let (p, q) =
      append_inj i j (to_be_bytes a) (to_be_bytes b) e
        (length-to_be_bytes a ∙ sym (length-to_be_bytes b)) in
    (p, cc (from_be_bytes-to_be_bytes a ha, from_be_bytes-to_be_bytes b hb, ap from_be_bytes q))

-- Under one id the keys are in the order of the sequence numbers.
pub lt_bytes-get_id :
    (id : Bytes) (a b : ℕ)
    → a < 2 ^ 64
    → b < 2 ^ 64
    → lt_bytes (get_id id a) (get_id id b) ≡ ltb a b
unfolding get_id
lt_bytes-get_id id a b ha hb =
    lt_bytes-append id (to_be_bytes a) (to_be_bytes b) ∙ lt_bytes-to_be_bytes a b ha hb

pub has_prefix-get_id : (id : Bytes) (s : ℕ) → has_prefix id (get_id id s) ≡ true
unfolding get_id
has_prefix-get_id id s = has_prefix-append id (to_be_bytes s)

-- The keys of an id that extends another one have that one as a prefix too.
pub has_prefix-get_id_longer : (id x : Bytes) (s : ℕ) → has_prefix id (get_id (id ++ x) s) ≡ true
unfolding get_id
has_prefix-get_id_longer id x s =
    ap (has_prefix id) (append_assoc id x (to_be_bytes s))
    ∙ has_prefix-append id (x ++ to_be_bytes s)

-- The range that a subscription from a sequence number reads, at a key of its own id.
pub in_range-get_id :
    (id : Bytes) (s n : ℕ) (v : Bytes)
    → s < 2 ^ 64
    → n < 2 ^ 64
    → in_range (get_id id s) (get_id id u64_max) (get_id id n, v) ≡ (not (ltb n s) && ltb n u64_max)
in_range-get_id id s n v hs hn =
    rw (lt_bytes-get_id id n s hn hs, lt_bytes-get_id id n u64_max hn (omega arith))
