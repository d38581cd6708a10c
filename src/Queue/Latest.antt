-- ===== src/Queue/Latest.antt =====
-- What a subscriber that asks for the last message of an id gets after a send: `send_to_queue` and
-- then `get_prev_items` of sonya/src/queue/map.rs.
use web_queue.Common.{
  map-reverse, ℕ, suc, ◌≡◌, refl, sym, ap, ◌∙◌, ◌⊎◌, inl, inr, Bytes, none, some, List, [], ◌∷◌,
  ◌++◌, map, reverse, true, false, same, ok, take, is_some, has_prefix, lt_bytes, lt_bytes_irrefl,
  arith, same_iff, lt_bytes_trans,
}
use mathlib.Core.List.{reverse-append, reverse-reverse}
use web_queue.Sled.{IsReliable}
use web_queue.Sled.Ordered.{Entries, put, keep-put}
use web_queue.Message.{last}
use web_queue.Message.Interface.{IsUniqId}
use web_queue.Queue.State.{Runtime, Queue}
use web_queue.Queue.Reads.{get_id, get_prev_items, extract_sequences, decode_item, collect}
use web_queue.Queue.Methods.{send_to_queue}
use web_queue.Queue.Keys.{has_prefix-get_id}
use web_queue.Queue.Storage.{entries}
use web_queue.Queue.Sending.{versions, newest, numbered_as}
use web_queue.Queue.Retention.{send_to_queue-retains, send_to_queue-stores}

-- All keys come before this one.
abbrev pub IsLastKey : Bytes → Entries Bytes → Type 0
IsLastKey k [] = Unit
IsLastKey k (e ∷ es) = (lt_bytes e.0 k ≡ true) × IsLastKey k es

not_both : (j k : Bytes) → lt_bytes j k ≡ true → lt_bytes k j ≡ true → false ≡ true
not_both j k h g = sym (lt_bytes_irrefl j) ∙ lt_bytes_trans j k j h g

put-IsLastKey : (k v : Bytes) (es : Entries Bytes) → IsLastKey k es → put k v es ≡ es ++ (k, v) ∷ []
unfolding put
put-IsLastKey k v [] h = refl
put-IsLastKey k v ((j, w) ∷ es) (a, r) = ground (
  arith,
  put-IsLastKey k v es r,
  not_both j k a,
  same_iff k j,
  lt_bytes_irrefl j,
  ap (lt_bytes j) {x = k} {y = j},
)

take_one-map : {A B : Type 0} (f : A → B) (l : List A) → take 1 (map f l) ≡ map f (take 1 l)
take_one-map f [] = refl
take_one-map f (x ∷ xs) = refl

-- The last of some entries is the last of the newest ones among them.
newest_last :
    (n : ℕ) (k v : Bytes) (es : Entries Bytes)
    → take 1 (reverse (newest (suc n) (es ++ (k, v) ∷ []))) ≡ (k, v) ∷ []
newest_last n k v es =
    ap (take 1) (reverse-reverse (take (suc n) (reverse (es ++ (k, v) ∷ []))))
    ∙ ap (λ l. take 1 (take (suc n) l)) (reverse-append es ((k, v) ∷ []))

plain_last : (k v : Bytes) (es : Entries Bytes) → take 1 (reverse (es ++ (k, v) ∷ [])) ≡ (k, v) ∷ []
plain_last k v es = ap (take 1) (reverse-append es ((k, v) ∷ []))

module _ {Db DbError JsonError Sender Receiver T : Type 0}
    (rt : Runtime Db DbError JsonError Sender Receiver T) (laws : IsReliable rt.sled) where
  extract_last :
      (queue_name id : Bytes) (q : Queue Db Sender)
      → extract_sequences rt.sled queue_name last id q.map
        ≡ map ok (take 1 (reverse (versions id (entries rt laws queue_name q))))
  unfolding extract_sequences
  extract_last queue_name id q =
      ap (λ l. take 1 (reverse l)) (laws.scan q.map queue_name id)
      ∙ ap (take 1) (map-reverse ok (versions id (entries rt laws queue_name q)))
      ∙ take_one-map ok (reverse (versions id (entries rt laws queue_name q)))

  read_last :
      (queue_name id k v : Bytes) (stored : T) (q : Queue Db Sender)
      → take 1 (reverse (versions id (entries rt laws queue_name q))) ≡ (k, v) ∷ []
      → rt.json.from_slice v ≡ ok stored
      → get_prev_items rt queue_name id (some last) q.map ≡ ok (some (stored ∷ []))
  unfolding get_prev_items decode_item collect
  read_last queue_name id k v stored q e d = rw (extract_last queue_name id q, e, d) refl

  -- On storage that does not fail, for an existing queue other than the default tree, a message
  -- that is read back from its encoding, no limit on the versions or one of at least two, and
  -- where all stored keys that start with the message's id come before its own: whoever asks for
  -- the last message of this id after a send gets exactly the message that was sent, with its
  -- number.
  pub send_to_queue-last :
      (u : IsUniqId rt.uniq) (queue_name : Bytes) (value : T) (bytes : Bytes) (q : Queue Db Sender)
      → same rt.sled.default_tree queue_name ≡ false
      → is_some (laws.trees q.map queue_name) ≡ true
      → rt.json.to_vec (numbered_as rt laws queue_name value q).0 ≡ ok bytes
      → rt.json.from_slice bytes ≡ ok (numbered_as rt laws queue_name value q).0
      → (q.max_key_updates ≡ none) ⊎ ((n : ℕ) × (q.max_key_updates ≡ some (suc (suc n))))
      → IsLastKey
          (get_id (rt.uniq.get_id value) (numbered_as rt laws queue_name value q).1)
          (versions (rt.uniq.get_id value) (entries rt laws queue_name q))
      → get_prev_items rt queue_name
          (rt.uniq.get_id value)
          (some last)
          (send_to_queue rt queue_name value q).1.map
        ≡ ok (some ((numbered_as rt laws queue_name value q).0 ∷ []))
  send_to_queue-last u queue_name value bytes q own there enc dec limit above =
      read_last queue_name id key bytes (numbered_as rt laws queue_name value q).0
        (send_to_queue rt queue_name value q).1 (at_end limit) dec
    where
      id : Bytes
      id = rt.uniq.get_id value

      number : ℕ
      number = (numbered_as rt laws queue_name value q).1

      key : Bytes
      key = get_id id number

      before : Entries Bytes
      before = entries rt laws queue_name q

      after : Entries Bytes
      after = entries rt laws queue_name (send_to_queue rt queue_name value q).1

      appended : put key bytes (versions id before) ≡ versions id before ++ (key, bytes) ∷ []
      appended = put-IsLastKey key bytes (versions id before) above

      at_end :
          (q.max_key_updates ≡ none) ⊎ ((n : ℕ) × (q.max_key_updates ≡ some (suc (suc n))))
          → take 1 (reverse (versions id after)) ≡ (key, bytes) ∷ []
      at_end (inl unlimited) =
          ap (λ l. take 1 (reverse l))
            (ap (versions id) (
                (send_to_queue-stores rt laws u queue_name value bytes q own there enc).1 unlimited)
              ∙ keep-put (has_prefix id) key bytes before (has_prefix-get_id id number)
                  (laws.sorted q.map queue_name)
              ∙ appended)
          ∙ plain_last key bytes (versions id before)
      at_end (inr (n, e)) =
          ap (λ l. take 1 (reverse l))
            ((send_to_queue-retains rt laws u queue_name value bytes q own there enc (suc n) e).1
              ∙ ap (newest (suc n)) appended)
          ∙ newest_last n key bytes (versions id before)
