-- ===== src/Queue/Deletion.antt =====
-- `delete_queue` and `close_queue` of sonya/src/queue/map.rs on storage that does not fail.
use web_queue.Common.{
  ◌≡◌, refl, ap, ◌∙◌, Bytes, none, some, List, [], true, false, same, same_refl, ok, has_prefix,
  keep, is_some, unwrap_or, if◌then◌else◌,
}
use web_queue.Common.Map
use web_queue.Common.Map.{Map, map_laws, get-insert, get-remove}
use web_queue.Sled.{IsReliable}
use web_queue.Sled.Ordered.{keys, purge}
use web_queue.Sled.Purge.{purge_kept}
use web_queue.Queue.State.{Runtime, Queue, on_map, get_queue_broadcast}
use web_queue.Queue.Methods.{
  delete_queue, create_queue, close_queue, check_tree_exists, drop_key, scan_keys, batch_of,
}
use web_queue.Queue.Storage.{
  entries, Writes, batch_of_all, open_lem, exists_of_written, entries_of_written,
}
use web_queue.Queue.Channels.{key_of, key_channel, key_channel_insert}
use web_queue.Queue.Sending.{others_than}

module _ {Db DbError JsonError Sender Receiver T : Type 0}
    (rt : Runtime Db DbError JsonError Sender Receiver T) (laws : IsReliable rt.sled) where
  open laws use {trees}

  abbrev prefixed : Bytes → Bytes → Queue Db Sender → List Bytes
  prefixed queue_name id q = keys (keep (λ e. has_prefix id e.0) (entries rt laws queue_name q))

  scan_keys_lem :
      (queue_name id : Bytes) (q : Queue Db Sender)
      → scan_keys rt queue_name id q ≡ (ok (prefixed queue_name id q), q)
  unfolding scan_keys
  scan_keys_lem queue_name id q =
      ap (λ r. (batch_of rt r, q)) (laws.scan q.map queue_name id)
      ∙ ap (λ r. (r, q)) (batch_of_all rt laws _)

  delete_run :
      (queue_name id : Bytes) (ks : List Bytes) (q q1 q2 q3 : Queue Db Sender)
      → drop_key rt queue_name id q ≡ (ok tt, q1)
      → on_map {JsonError = JsonError} (rt.sled.open_tree queue_name) q1 ≡ (ok tt, q2)
      → scan_keys rt queue_name id q2 ≡ (ok ks, q2)
      → on_map {JsonError = JsonError} (rt.sled.apply_batch queue_name ks) q2 ≡ (ok tt, q3)
      → delete_queue rt queue_name id q ≡ (ok tt, q3)
  unfolding delete_queue
  delete_run queue_name id ks q q1 q2 q3 a b c d = rw a (rw b (rw c d))

  drop_key_lem :
      (queue_name id : Bytes) (q : Queue Db Sender)
      → (q' : Queue Db Sender) × (drop_key rt queue_name id q ≡ (ok tt, q'))
        × (q'.map ≡ q.map)
        × (q'.queue_broadcasts ≡ (
            let queue = get_queue_broadcast rt.broadcast queue_name q.queue_broadcasts in
            Map.insert queue_name
              (record queue { keys = Map.remove id queue.keys })
              q.queue_broadcasts))
  unfolding drop_key
  drop_key_lem queue_name id q = ((drop_key rt queue_name id q).1, refl, refl, refl)

  apply_lem :
      (queue_name : Bytes) (ks : List Bytes) (q : Queue Db Sender)
      → is_some (trees q.map queue_name) ≡ true
      → (q' : Queue Db Sender) × (on_map {JsonError = JsonError}
            (rt.sled.apply_batch queue_name ks)
            q
          ≡ (ok tt, q'))
        × Writes rt laws queue_name (purge ks (entries rt laws queue_name q)) q q'
  unfolding on_map
  apply_lem queue_name ks q h = (
    record q { map = (rt.sled.apply_batch queue_name ks q.map).1 },
    rw (laws.batch_ok q.map queue_name ks h) refl,
    record {
      written = rw (laws.batch_trees q.map queue_name ks queue_name h, same_refl queue_name) refl;
      others = λ j e. rw (laws.batch_trees q.map queue_name ks j h, e) refl;
      limit = refl;
      broadcasts = refl;
    },
  )

  -- On storage that does not fail, delete_queue succeeds and leaves of the queue exactly the
  -- entries whose keys do not start with the id, so that a missing queue is there afterwards, and
  -- empty; the other trees keep their entries, and the channel of the id's subscribers is gone.
  pub delete_queue_lem :
      (queue_name id : Bytes) (q : Queue Db Sender)
      → ((delete_queue rt queue_name id q).0 ≡ ok tt)
        × (trees (delete_queue rt queue_name id q).1.map queue_name
            ≡ some (others_than id (entries rt laws queue_name q)))
        × ((j : Bytes)
            → same queue_name j ≡ false
            → trees (delete_queue rt queue_name id q).1.map j ≡ trees q.map j)
        × (key_channel (delete_queue rt queue_name id q).1 queue_name id ≡ none)
  delete_queue_lem queue_name id q =
      let (q1, dropped, same_map, left) = drop_key_lem queue_name id q in
      let (q2, opened, w2) = open_lem rt laws queue_name q1 in
      let there = exists_of_written rt laws queue_name _ q1 q2 w2 in
      let ks = prefixed queue_name id q2 in
      let (q3, applied, w3) = apply_lem queue_name ks q2 there in
      let ran =
        delete_run queue_name id ks q q1 q2 q3 dropped opened (scan_keys_lem queue_name id q2)
          applied in
      let same_entries : entries rt laws queue_name q2 ≡ entries rt laws queue_name q =
        entries_of_written rt laws queue_name _ q1 q2 w2
        ∙ ap (λ m. unwrap_or (trees m queue_name) []) same_map in
      let queue = get_queue_broadcast rt.broadcast queue_name q.queue_broadcasts in
      (
        ap (λ r. r.0) ran,
        ap (λ r. trees r.1.map queue_name) ran
            ∙ w3.written
            ∙ ap some (purge_kept (has_prefix id) (entries rt laws queue_name q2))
            ∙ ap (λ es. some (others_than id es)) same_entries,
        λ j h.
            ap (λ r. trees r.1.map j) ran
            ∙ w3.others j h
            ∙ w2.others j h
            ∙ ap (λ m. trees m j) same_map,
        ap (λ r. key_channel r.1 queue_name id) ran
            ∙ unfold key_channel in
              ap (λ m. key_of id (Map.get queue_name m)) (w3.broadcasts ∙ w2.broadcasts ∙ left)
              ∙ key_channel_insert rt queue_name queue_name id
                  (record queue { keys = Map.remove id queue.keys }) q.queue_broadcasts
              ∙ rw (same_refl queue_name, get-remove id id queue.keys, same_refl id) refl,
      )

  -- On storage that does not fail, and for a name other than the default tree's, close_queue
  -- returns whether the queue was there and removes its tree and its channels; the other trees and
  -- the channels of the other queues stay.
  pub close_queue_lem :
      (queue_name : Bytes) (q : Queue Db Sender)
      → same queue_name rt.sled.default_tree ≡ false
      → ((close_queue rt queue_name q).0 ≡ ok (is_some (trees q.map queue_name)))
        × (check_tree_exists rt queue_name (close_queue rt queue_name q).1 ≡ false)
        × ((j : Bytes)
            → trees (close_queue rt queue_name q).1.map j
              ≡ (if same queue_name j then none else trees q.map j))
        × ((j : Bytes)
            → Map.get j (close_queue rt queue_name q).1.queue_broadcasts
              ≡ (if same queue_name j then none else Map.get j q.queue_broadcasts))
  unfolding close_queue on_map check_tree_exists
  close_queue_lem queue_name q h = (
    rw (laws.drop_ok q.map queue_name h) refl,
    laws.names (rt.sled.drop_tree queue_name q.map).1 queue_name
        ∙ rw (laws.drop_trees q.map queue_name queue_name h, same_refl queue_name) refl,
    λ j. laws.drop_trees q.map queue_name j h,
    λ j. get-remove queue_name j q.queue_broadcasts,
  )

  -- On storage that does not fail, create_queue succeeds and makes the queue exist; entries that
  -- were there stay, and so does every other tree.
  pub create_queue_lem :
      (queue_name : Bytes) (q : Queue Db Sender)
      → ((create_queue rt queue_name q).0 ≡ ok tt)
        × (check_tree_exists rt queue_name (create_queue rt queue_name q).1 ≡ true)
        × ((j : Bytes)
            → trees (create_queue rt queue_name q).1.map j
              ≡ (if same queue_name j then some (entries rt laws queue_name q) else trees q.map j))
  unfolding create_queue on_map check_tree_exists
  create_queue_lem queue_name q = (
    rw (laws.open_ok q.map queue_name) refl,
    laws.names (rt.sled.open_tree queue_name q.map).1 queue_name
        ∙ rw (laws.open_trees q.map queue_name queue_name, same_refl queue_name) refl,
    λ j. laws.open_trees q.map queue_name j,
  )
