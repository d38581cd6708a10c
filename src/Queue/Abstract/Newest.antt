-- ===== src/Queue/Abstract/Newest.antt =====
-- The `BTreeMap` of the last messages in sonya/src/queue/map.rs, beside the newest message of each id.
use web_queue.Common.{
  Bytes, List, [], ◌∷◌, map, true, false, same, same_iff, same_refl, lt_bytes_trans, lt_bytes_total,
  lt_bytes_irrefl, ◌≡◌, refl, ap, ◌∙◌, arith, if◌then◌else◌, Bool-cases, inl, inr,
}
use web_queue.Message.{UniqId}
use web_queue.Sled.Ordered.{Entries, put, has_bytes}
use web_queue.Queue.Reads.{latest}
use web_queue.Queue.Abstract.{newest}

module _ {V : Type 0} where
  put-put : (k : Bytes) (v w : V) (es : Entries V) → put k w (put k v es) ≡ put k w es
  unfolding put
  put-put k v w [] = ground (arith, same_refl k)
  put-put k v w ((j, x) ∷ es) = ground (arith, same_refl k, put-put k v w es)

  put-swap :
      (k j : Bytes) (v w : V) (es : Entries V)
      → same k j ≡ false
      → put k v (put j w es) ≡ put j w (put k v es)
  unfolding put
  put-swap k j v w [] h = ground (
    arith,
    same_iff k j,
    same_iff j k,
    lt_bytes_total k j,
    lt_bytes_trans k j k,
    lt_bytes_irrefl k,
  )
  put-swap k j v w ((i, x) ∷ es) h = ground (
    arith,
    put-swap k j v w es h,
    same_iff k j,
    same_iff j k,
    same_iff k i,
    same_iff j i,
    lt_bytes_total k j,
    lt_bytes_total j i,
    lt_bytes_total k i,
    lt_bytes_trans k j k,
    lt_bytes_trans k j i,
    lt_bytes_trans j k i,
    lt_bytes_trans i j k,
    lt_bytes_irrefl k,
  )

module _ {T : Type 0} (uniq : UniqId T) where
  latest-put :
      (v : T) (vs : List T) (m : Entries T)
      → latest uniq vs (put (uniq.get_id v) v m) ≡ (
          if has_bytes (uniq.get_id v) (map (λ w. uniq.get_id w) vs)
          then latest uniq vs m
          else put (uniq.get_id v) v (latest uniq vs m))
  unfolding latest has_bytes
  latest-put v [] m = refl
  latest-put v (w ∷ vs) m = elim (Bool-cases (same (uniq.get_id v) (uniq.get_id w))) [
    | inl e ↦ ap (latest uniq vs) (overwritten e) ∙ ground (arith, e)
    | inr e ↦
        ap (latest uniq vs) (put-swap (uniq.get_id w) (uniq.get_id v) w v m (apart e))
        ∙ latest-put v vs (put (uniq.get_id w) w m)
        ∙ ground (arith, e)
  ]
    where
      overwritten :
          same (uniq.get_id v) (uniq.get_id w) ≡ true
          → put (uniq.get_id w) w (put (uniq.get_id v) v m) ≡ put (uniq.get_id w) w m
      overwritten e =
          ap (λ k. put (uniq.get_id w) w (put k v m))
            ((same_iff (uniq.get_id v) (uniq.get_id w)).0 e)
          ∙ put-put (uniq.get_id w) v w m

      apart :
          same (uniq.get_id v) (uniq.get_id w) ≡ false
          → same (uniq.get_id w) (uniq.get_id v) ≡ false
      apart e = ground (
        arith,
        e,
        same_iff (uniq.get_id v) (uniq.get_id w),
        same_iff (uniq.get_id w) (uniq.get_id v),
      )

  -- The map holds the newest message of each id.
  pub latest-newest : (vs : List T) → latest uniq vs [] ≡ newest uniq vs
  unfolding latest newest
  latest-newest [] = refl
  latest-newest (v ∷ vs) =
      latest-put v vs []
      ∙ ap
          (λ l.
            if has_bytes (uniq.get_id v) (map (λ w. uniq.get_id w) vs)
            then l
            else put (uniq.get_id v) v l)
          (latest-newest vs)
