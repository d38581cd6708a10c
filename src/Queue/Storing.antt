-- ===== src/Queue/Storing.antt =====
-- What the database holds after `store` of sonya/src/queue/map.rs, on storage that does not fail.
use web_queue.Common.{
  map-drop, map-reverse, ℕ, zero, suc, ◌-◌, ◌≡◌, ◌≢◌, refl, ap, ◌∙◌, Bytes, Option, none, some, map,
  reverse, true, same_refl, ok, has_prefix, keep, drop, is_some, arith,
}
use web_queue.Sled.{IsReliable}
use web_queue.Sled.Ordered.{Entries, keys, put, purge}
use web_queue.Queue.State.{Runtime, Queue, on_map}
use web_queue.Queue.Reads.{get_id}
use web_queue.Queue.Methods.{batch_of, evict, scan_old, store_value, store}
use web_queue.Queue.Storage.{
  entries, Writes, Writes-trans, exists_of_written, entries_of_written, insert_lem, open_lem,
  batch_of_all, old_versions, stored_entries,
}

suc_sub : (n : ℕ) → suc n - 1 ≡ n
suc_sub n = omega arith

module _ {Db DbError JsonError Sender Receiver T : Type 0}
    (rt : Runtime Db DbError JsonError Sender Receiver T) (laws : IsReliable rt.sled) where
  open laws use {trees}

  batch_of_old :
      (n : ℕ) (l : Entries Bytes)
      → batch_of rt (drop n (reverse (map ok l))) ≡ ok (keys (drop n (reverse l)))
  batch_of_old n l =
      ap (λ r. batch_of rt (drop n r)) (map-reverse ok l)
      ∙ ap (batch_of rt) (map-drop ok n (reverse l))
      ∙ batch_of_all rt laws (drop n (reverse l))

  scan_old_lem :
      (queue_name id : Bytes) (n : ℕ) (q : Queue Db Sender)
      → scan_old rt queue_name id (suc n) q
        ≡ (ok (old_versions n id (entries rt laws queue_name q)), q)
  unfolding scan_old
  scan_old_lem queue_name id n q =
      ap (λ r. (batch_of rt (drop (suc n - 1) (reverse r)), q)) (laws.scan q.map queue_name id)
      ∙ ap (λ r. (r, q))
          (batch_of_old (suc n - 1) (keep (λ e. has_prefix id e.0) (entries rt laws queue_name q))
            ∙ rw (suc_sub n) refl)

  -- `evict` on an existing tree: it does not fail, and removes the old versions.
  evict_lem :
      (queue_name id : Bytes) (n : ℕ) (q : Queue Db Sender)
      → is_some (trees q.map queue_name) ≡ true
      → (q' : Queue Db Sender) × (evict rt queue_name id (some (suc n)) q ≡ (ok tt, q'))
        × Writes rt laws queue_name
            (purge
              (old_versions n id (entries rt laws queue_name q))
              (entries rt laws queue_name q))
            q
            q'
  unfolding evict on_map
  evict_lem queue_name id n q h =
      let ks = old_versions n id (entries rt laws queue_name q) in
      (
        record q { map = (rt.sled.apply_batch queue_name ks q.map).1 },
        rw (scan_old_lem queue_name id n q) (rw (laws.batch_ok q.map queue_name ks h) refl),
        record {
          written =
              rw (laws.batch_trees q.map queue_name ks queue_name h, same_refl queue_name) refl;
          others = λ j e. rw (laws.batch_trees q.map queue_name ks j h, e) refl;
          limit = refl;
          broadcasts = refl;
        },
      )

  evict_lem_none :
      (queue_name id : Bytes) (es : Entries Bytes) (q q' : Queue Db Sender)
      → Writes rt laws queue_name es q q'
      → (q'' : Queue Db Sender) × (evict rt queue_name id none q' ≡ (ok tt, q''))
        × Writes rt laws queue_name es q q''
  unfolding evict
  evict_lem_none queue_name id es q q' w = (q', refl, w)

  -- After the message is inserted, every setting evicts what `stored_entries` says.
  evict_stored :
      (limit : Option ℕ) (queue_name id k v : Bytes) (q q' : Queue Db Sender)
      → limit ≢ some 0
      → Writes rt laws queue_name (put k v (entries rt laws queue_name q)) q q'
      → (q'' : Queue Db Sender) × (evict rt queue_name id limit q' ≡ (ok tt, q''))
        × Writes rt laws queue_name
            (stored_entries limit id k v (entries rt laws queue_name q))
            q
            q''
  unfolding stored_entries
  evict_stored none queue_name id k v q q' h w =
      evict_lem_none queue_name id (put k v (entries rt laws queue_name q)) q q' w
  evict_stored (some zero) queue_name id k v q q' h w = absurd (h refl)
  evict_stored (some (suc n)) queue_name id k v q q' h w =
      let es = put k v (entries rt laws queue_name q) in
      let (q'', ran, x) =
        evict_lem queue_name id n q' (exists_of_written rt laws queue_name es q q' w) in
      (
        q'',
        ran,
        rw (entries_of_written rt laws queue_name es q q' w) at
            (Writes-trans rt laws queue_name es _ q q' q'' w x),
      )

  some_entries :
      (queue_name : Bytes) (q : Queue Db Sender)
      → is_some (trees q.map queue_name) ≡ true
      → trees q.map queue_name ≡ some (entries rt laws queue_name q)
  some_entries queue_name q h = ground arith

  store_value_run :
      (queue_name : Bytes) (value : T) (sequence : ℕ) (bytes : Bytes) (q q1 q2 q3 : Queue Db Sender)
      → on_map {JsonError = JsonError} (rt.sled.open_tree queue_name) q ≡ (ok tt, q1)
      → rt.json.to_vec value ≡ ok bytes
      → on_map {JsonError = JsonError}
          (rt.sled.insert queue_name (get_id (rt.uniq.get_id value) sequence) bytes)
          q1
        ≡ (ok tt, q2)
      → evict rt queue_name (rt.uniq.get_id value) q.max_key_updates q2 ≡ (ok tt, q3)
      → store_value rt queue_name value sequence q ≡ (ok tt, q3)
  unfolding store_value
  store_value_run queue_name value sequence bytes q q1 q2 q3 opened enc inserted ran =
      rw opened (rw enc (rw inserted ran))

  store_value_lem :
      (queue_name : Bytes) (value : T) (sequence : ℕ) (bytes : Bytes) (q : Queue Db Sender)
      → q.max_key_updates ≢ some 0
      → rt.json.to_vec value ≡ ok bytes
      → (q' : Queue Db Sender) × (store_value rt queue_name value sequence q ≡ (ok tt, q'))
        × Writes rt laws queue_name
            (stored_entries q.max_key_updates
              (rt.uniq.get_id value)
              (get_id (rt.uniq.get_id value) sequence)
              bytes
              (entries rt laws queue_name q))
            q
            q'
  store_value_lem queue_name value sequence bytes q limit enc =
      let id = rt.uniq.get_id value in
      let k = get_id id sequence in
      let es = entries rt laws queue_name q in
      let (q1, opened, w1) = open_lem rt laws queue_name q in
      let (q2, inserted, w2) =
        insert_lem rt laws queue_name k bytes q1
          (exists_of_written rt laws queue_name es q q1 w1) in
      let (q3, ran, w3) = evict_stored q.max_key_updates queue_name id k bytes q q2 limit (
        rw (entries_of_written rt laws queue_name es q q1 w1) at
          (Writes-trans rt laws queue_name es _ q q1 q2 w1 w2)) in
      (q3, store_value_run queue_name value sequence bytes q q1 q2 q3 opened enc inserted ran, w3)

  -- `store` on an existing tree, with a message that can be encoded.
  pub store_lem :
      (queue_name : Bytes) (value : T) (sequence : ℕ) (bytes : Bytes) (q : Queue Db Sender)
      → is_some (trees q.map queue_name) ≡ true
      → rt.json.to_vec value ≡ ok bytes
      → (q' : Queue Db Sender) × (store rt queue_name value sequence q ≡ (ok tt, q'))
        × Writes rt laws queue_name
            (stored_entries q.max_key_updates
              (rt.uniq.get_id value)
              (get_id (rt.uniq.get_id value) sequence)
              bytes
              (entries rt laws queue_name q))
            q
            q'
  unfolding store stored_entries
  store_lem queue_name value sequence bytes q h enc = go q.max_key_updates refl
    where
      go :
          (limit : Option ℕ)
          → q.max_key_updates ≡ limit
          → (q' : Queue Db Sender) × (store rt queue_name value sequence q ≡ (ok tt, q'))
            × Writes rt laws queue_name
                (stored_entries q.max_key_updates
                  (rt.uniq.get_id value)
                  (get_id (rt.uniq.get_id value) sequence)
                  bytes
                  (entries rt laws queue_name q))
                q
                q'
      go none e =
          let (q', ran, w) = store_value_lem queue_name value sequence bytes q (λ p. cc) enc in
          (q', rw (e, store) ran, w)
      go (some zero) e = (
        q,
        ground arith,
        rw (e, stored_entries)
            (record {
              written = some_entries queue_name q h;
              others = λ j p. refl;
              limit = refl;
              broadcasts = refl;
            }),
      )
      go (some (suc n)) e =
          let (q', ran, w) =
            store_value_lem queue_name value sequence bytes q (λ p. ground arith) enc in
          (q', rw (e, store) ran, w)
