-- ===== src/Config/Serde/ShortForms.antt =====
-- The short forms of sonya-meta/src/config.rs mean the same as the full ones.
use web_queue.Common.{
  ℕ, Bytes, codes, same, List, [], ◌∷◌, ◌++◌, none, some, ok, ◌≡◌, refl, ap, sym, ◌∙◌, map,
  if◌then◌else◌,
}
use mathlib.Core.List.{append_assoc, append-nil}
use web_queue.Config.Serde.{
  Errors, Fields, text, number, sequence, fields, deserialize_secure, deserialize_service_discovery,
  deserialize_garbage_collector, secure_def, garbage_collector_def, service_discovery_def, read_seq,
}

module _ {E : Type 0} where
  read_seq_all : (vec ws : List Bytes) → read_seq {E = E} vec (map ok ws) ≡ ok (vec ++ ws)
  unfolding read_seq
  read_seq_all vec [] = ap ok (sym (append-nil vec))
  read_seq_all vec (w ∷ ws) = read_seq_all (vec ++ w ∷ []) ws ∙ ap ok (append_assoc vec (w ∷ []) ws)

  abbrev pub no_fields : Fields E
  no_fields = record {
    text_at = λ n. none;
    number_at = λ n. none;
    texts_at = λ n. none;
    options_at = λ n. none;
  }

  -- A map with one text, one number, or the tag "api" with a list.
  abbrev pub with_text : Bytes → Bytes → Fields E
  with_text name value = record no_fields {
    text_at = λ n. if same n name then some (ok value) else none;
  }

  abbrev pub with_number : Bytes → ℕ → Fields E
  with_number name value = record no_fields {
    number_at = λ n. if same n name then some (ok value) else none;
  }

  abbrev pub with_shards : List Bytes → Fields E
  with_shards shards = record (with_text (codes "type") (codes "api")) {
    texts_at = λ n. if same n (codes "default") then some (ok shards) else none;
  }

  -- In a configuration file the short forms mean the same as the maps: a text for `secure` its
  -- service token with the default expiration, a number for the garbage collector its interval, and
  -- a list of texts, or one text, for the service discovery the default shards of the type "api", so
  -- that the text "api" is a shard of this name.
  pub deserialize-short_forms :
      (errors : Errors E) (token : Bytes) (interval : ℕ) (shards : List Bytes) (shard : Bytes)
      → (deserialize_secure errors (text token)
          ≡ deserialize_secure errors (fields (with_text (codes "service_token") token)))
        × (deserialize_garbage_collector errors (number interval)
            ≡ deserialize_garbage_collector errors
                (fields (with_number (codes "interval") interval)))
        × (deserialize_service_discovery errors (sequence (map ok shards))
            ≡ deserialize_service_discovery errors (fields (with_shards shards)))
        × (deserialize_service_discovery errors (text shard)
            ≡ deserialize_service_discovery errors (fields (with_shards (shard ∷ []))))
  unfolding deserialize_secure deserialize_garbage_collector deserialize_service_discovery
      secure_def garbage_collector_def service_discovery_def same
  deserialize-short_forms errors token interval shards shard =
      (refl, refl, rw (read_seq_all [] shards) refl, refl)
