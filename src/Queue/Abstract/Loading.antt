-- ===== src/Queue/Abstract/Loading.antt =====
-- What the reads of sonya/src/queue/map.rs load where a tree holds the encodings of messages.
use web_queue.Common.{
  ℕ, Bytes, none, some, List, [], ◌∷◌, map, reverse, not, ◌&&◌, keep, take, lt_bytes, has_prefix,
  ok, ◌≡◌, refl, ap, sym, ◌∙◌, arith, map-reverse, unwrap_or,
}
use web_queue.Common.Words.{u64_max}
use web_queue.Message.{RequestSequenceId, RequestSequence, at, last, first}
use web_queue.Sled.{IsReliable, in_range}
use web_queue.Sled.Ordered.{Entries}
use web_queue.Queue.State.{Runtime}
use web_queue.Queue.Reads.{
  get_id, collect, extract_sequences, decode_item, since, latest_values, select_all, get_prev_items,
  get_prev_all_items,
}
use web_queue.Queue.Storage.{collect-ok}
use web_queue.Queue.Abstract.Newest.{latest-newest}
use web_queue.Queue.Abstract.{values, select, select_any, is_since, asked}
use web_queue.Queue.Abstract.Values.{on_value, on_values, on_values-keep}

take_one-map : {A B : Type 0} (f : A → B) (l : List A) → take 1 (map f l) ≡ map f (take 1 l)
take_one-map f [] = refl
take_one-map f (x ∷ xs) = refl

module _ {Db DbError JsonError Sender Receiver T : Type 0}
    (rt : Runtime Db DbError JsonError Sender Receiver T) (laws : IsReliable rt.sled)
    (encode : T → Bytes) (decodes : (m : T) → rt.json.from_slice (encode m) ≡ ok m) where
  decoded :
      (es : Entries T) → map (decode_item rt) (map ok (on_values encode es)) ≡ map ok (values es)
  unfolding decode_item
  decoded [] = refl
  decoded ((k, m) ∷ es) = rw (decodes m) (ap (◌∷◌ (ok m)) (decoded es))

  collected :
      (es : Entries T)
      → collect (map (decode_item rt) (map ok (on_values encode es))) ≡ ok (values es)
  collected es = ap collect (decoded es) ∙ collect-ok (values es)

  extracted :
      (queue_name id : Bytes) (r : RequestSequenceId) (d : Db) (es : Entries T)
      → unwrap_or (laws.trees d queue_name) [] ≡ on_values encode es
      → collect (map (decode_item rt) (extract_sequences rt.sled queue_name r id d))
        ≡ ok (select id r es)
  unfolding extract_sequences select
  extracted queue_name id (at n) d es e =
      ap (λ l. collect (map (decode_item rt) l))
        (laws.ranged d queue_name (get_id id n) (get_id id u64_max)
          ∙ ap (λ l. map ok (keep (in_range (get_id id n) (get_id id u64_max)) l)) e
          ∙ ap (map ok) (
              sym (
                on_values-keep encode
                  (λ k. not (lt_bytes k (get_id id n)) && lt_bytes k (get_id id u64_max)) es)))
      ∙ collected
          (keep (λ e. not (lt_bytes e.0 (get_id id n)) && lt_bytes e.0 (get_id id u64_max)) es)
  extracted queue_name id last d es e =
      ap (λ l. collect (map (decode_item rt) (take 1 (reverse l)))) (scanned queue_name id d es e)
      ∙ ap (λ l. collect (map (decode_item rt) (take 1 l))) (map-reverse ok (on_values encode vs))
      ∙ ap (λ l. collect (map (decode_item rt) l)) (take_one-map ok (reverse (on_values encode vs)))
      ∙ ap (λ l. collect (map (decode_item rt) (map ok (take 1 l))))
          (map-reverse (on_value encode) vs)
      ∙ ap (λ l. collect (map (decode_item rt) (map ok l)))
          (take_one-map (on_value encode) (reverse vs))
      ∙ collected (take 1 (reverse vs))
    where
      vs : Entries T
      vs = keep (λ e. has_prefix id e.0) es

      scanned :
          (queue_name id : Bytes) (d : Db) (es : Entries T)
          → unwrap_or (laws.trees d queue_name) [] ≡ on_values encode es
          → rt.sled.scan_prefix queue_name id d
            ≡ map ok (on_values encode (keep (λ e. has_prefix id e.0) es))
      scanned queue_name id d es e =
          laws.scan d queue_name id
          ∙ ap (λ l. map ok (keep (λ e. has_prefix id e.0) l)) e
          ∙ ap (map ok) (sym (on_values-keep encode (has_prefix id) es))
  extracted queue_name id first d es e =
      ap (λ l. collect (map (decode_item rt) l))
        (laws.scan d queue_name id
          ∙ ap (λ l. map ok (keep (λ e. has_prefix id e.0) l)) e
          ∙ ap (map ok) (sym (on_values-keep encode (has_prefix id) es)))
      ∙ collected (keep (λ e. has_prefix id e.0) es)

  pub get_prev_items_lem :
      (queue_name id : Bytes) (sequence : RequestSequence) (d : Db) (es : Entries T)
      → unwrap_or (laws.trees d queue_name) [] ≡ on_values encode es
      → get_prev_items rt queue_name id sequence d ≡ ok (asked sequence (λ r. select id r es))
  unfolding get_prev_items
  get_prev_items_lem queue_name id none d es e = refl
  get_prev_items_lem queue_name id (some r) d es e = rw (extracted queue_name id r d es e) refl

  keep-since :
      (n : ℕ) (l : List T) → keep (since rt n) (map ok l) ≡ map ok (keep (is_since rt.uniq n) l)
  unfolding since
  keep-since n [] = refl
  keep-since n (v ∷ l) = ground (arith, keep-since n l)

  selected :
      (r : RequestSequenceId) (es : Entries T)
      → select_all rt r (map ok (values es)) ≡ ok (select_any rt.uniq r es)
  unfolding select_all select_any
  selected (at n) es =
      ap collect (keep-since n (values es)) ∙ collect-ok (keep (is_since rt.uniq n) (values es))
  selected last es =
      unfold latest_values in
      ap (latest_values rt) (collect-ok (values es))
      ∙ ap (λ l. ok (map (λ e. e.1) l)) (latest-newest rt.uniq (values es))
  selected first es = collect-ok (values es)

  pub get_prev_all_items_lem :
      (queue_name : Bytes) (sequence : RequestSequence) (d : Db) (es : Entries T)
      → unwrap_or (laws.trees d queue_name) [] ≡ on_values encode es
      → get_prev_all_items rt queue_name sequence d
        ≡ ok (asked sequence (λ r. select_any rt.uniq r es))
  unfolding get_prev_all_items
  get_prev_all_items_lem queue_name none d es e = refl
  get_prev_all_items_lem queue_name (some r) d es e =
      let all : map (decode_item rt) (rt.sled.iter queue_name d) ≡ map ok (values es) =
        ap (map (decode_item rt)) (laws.iter_all d queue_name ∙ ap (map ok) e) ∙ decoded es in
      rw (all, selected r es) refl
