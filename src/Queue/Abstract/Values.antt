-- ===== src/Queue/Abstract/Values.antt =====
-- Entries under a function on their values: what is done by the keys alone is done before or after it.
use web_queue.Common.{
  ℕ, zero, suc, Bytes, Option, none, some, [], ◌∷◌, map, reverse, Bool, not, keep, drop, has_prefix,
  ◌≡◌, refl, ap, sym, ◌∙◌, arith, map-drop, map-reverse,
}
use web_queue.Sled.Ordered.{Entry, Entries, put, keys, purge, has_bytes}
use web_queue.Queue.Storage.{stored_entries, old_versions}

module _ {V W : Type 0} (f : V → W) where
  abbrev pub on_value : Entry V → Entry W
  on_value e = (e.0, f e.1)

  abbrev pub on_values : Entries V → Entries W
  on_values = map on_value

  pub on_values-put :
      (k : Bytes) (v : V) (es : Entries V) → on_values (put k v es) ≡ put k (f v) (on_values es)
  unfolding put
  on_values-put k v [] = refl
  on_values-put k v ((j, w) ∷ es) = ground (arith, on_values-put k v es)

  pub on_values-keep :
      (p : Bytes → Bool) (es : Entries V)
      → on_values (keep (λ e. p e.0) es) ≡ keep (λ e. p e.0) (on_values es)
  on_values-keep p [] = refl
  on_values-keep p ((j, w) ∷ es) = ground (arith, on_values-keep p es)

  keys-on_values : (es : Entries V) → keys (on_values es) ≡ keys es
  keys-on_values [] = refl
  keys-on_values (e ∷ es) = ap (◌∷◌ e.0) (keys-on_values es)

  old_versions-on_values :
      (n : ℕ) (id : Bytes) (es : Entries V)
      → old_versions n id (on_values es) ≡ old_versions n id es
  old_versions-on_values n id es =
      ap (λ l. keys (drop n (reverse l))) (sym (on_values-keep (has_prefix id) es))
      ∙ ap (λ l. keys (drop n l)) (map-reverse on_value (keep (λ e. has_prefix id e.0) es))
      ∙ ap keys (map-drop on_value n (reverse (keep (λ e. has_prefix id e.0) es)))
      ∙ keys-on_values (drop n (reverse (keep (λ e. has_prefix id e.0) es)))

  pub on_values-stored_entries :
      (limit : Option ℕ) (id k : Bytes) (v : V) (es : Entries V)
      → on_values (stored_entries limit id k v es) ≡ stored_entries limit id k (f v) (on_values es)
  unfolding stored_entries purge
  on_values-stored_entries none id k v es = on_values-put k v es
  on_values-stored_entries (some zero) id k v es = refl
  on_values-stored_entries (some (suc n)) id k v es =
      on_values-keep (λ j. not (has_bytes j (old_versions n id (put k v es)))) (put k v es)
      ∙ ap (λ ks. keep (λ e. not (has_bytes e.0 ks)) (on_values (put k v es)))
          (sym (old_versions-on_values n id (put k v es)))
      ∙ ap (λ l. keep (λ e. not (has_bytes e.0 (old_versions n id l))) l) (on_values-put k v es)
