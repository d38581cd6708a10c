-- ===== src/Queue/Storage.antt =====
-- The entries of a queue (sonya/src/queue/map.rs) on storage that does not fail, and the steps that
-- rewrite them.
use web_queue.Common.{
  ℕ, zero, suc, ◌≡◌, refl, ◌∙◌, Bytes, Option, none, some, List, [], ◌∷◌, map, reverse, true, false,
  same, same_refl, ok, has_prefix, keep, drop, is_some, unwrap_or,
}
use web_queue.Sled.{IsReliable}
use web_queue.Sled.Ordered.{Entries, keys, put, purge}
use web_queue.Queue.State.{Runtime, Queue, on_map}
use web_queue.Queue.Reads.{collect}
use web_queue.Queue.Methods.{batch_of}

pub collect-ok : {E A : Type 0} (l : List A) → collect {E = E} (map ok l) ≡ ok l
unfolding collect
collect-ok [] = refl
collect-ok {E} (a ∷ l) = rw (collect-ok {E = E} l)

module _ {V : Type 0} where
  -- The entries that the iterator of the eviction still yields after `skip(n)`.
  abbrev pub old_versions : ℕ → Bytes → Entries V → List Bytes
  old_versions n id es = keys (drop n (reverse (keep (λ e. has_prefix id e.0) es)))

  -- What `store` makes of the entries of a tree.
  unfoldable pub stored_entries : Option ℕ → Bytes → Bytes → V → Entries V → Entries V
  stored_entries none id k v es = put k v es
  stored_entries (some zero) id k v es = es
  stored_entries (some (suc n)) id k v es = purge (old_versions n id (put k v es)) (put k v es)

module _ {Db DbError JsonError Sender Receiver T : Type 0}
    (rt : Runtime Db DbError JsonError Sender Receiver T) (laws : IsReliable rt.sled) where
  open laws use {trees}

  abbrev pub entries : Bytes → Queue Db Sender → Entries Bytes
  entries queue_name q = unwrap_or (trees q.map queue_name) []

  -- The trees after a step that rewrites the entries of one of them, with all else kept.
  pub record Writes (queue_name : Bytes) (es : Entries Bytes) (q q' : Queue Db Sender)
      : Type 0 where
    pub written : trees q'.map queue_name ≡ some es
    pub others : (j : Bytes) → same queue_name j ≡ false → trees q'.map j ≡ trees q.map j
    pub limit : q'.max_key_updates ≡ q.max_key_updates
    pub broadcasts : q'.queue_broadcasts ≡ q.queue_broadcasts

  pub batch_of_all : (l : Entries Bytes) → batch_of rt (map ok l) ≡ ok (keys l)
  batch_of_all l = rw (collect-ok {E = DbError} l, batch_of)

  pub insert_lem :
      (queue_name k v : Bytes) (q : Queue Db Sender)
      → is_some (trees q.map queue_name) ≡ true
      → (q' : Queue Db Sender) × (on_map {JsonError = JsonError} (rt.sled.insert queue_name k v) q
          ≡ (ok tt, q'))
        × Writes queue_name (put k v (entries queue_name q)) q q'
  unfolding on_map
  insert_lem queue_name k v q h = (
    record q { map = (rt.sled.insert queue_name k v q.map).1 },
    rw (laws.insert_ok q.map queue_name k v h) refl,
    record {
      written = rw (laws.insert_trees q.map queue_name k v queue_name h, same_refl queue_name) refl;
      others = λ j e. rw (laws.insert_trees q.map queue_name k v j h, e) refl;
      limit = refl;
      broadcasts = refl;
    },
  )

  pub open_lem :
      (queue_name : Bytes) (q : Queue Db Sender)
      → (q' : Queue Db Sender) × (on_map {JsonError = JsonError} (rt.sled.open_tree queue_name) q
          ≡ (ok tt, q'))
        × Writes queue_name (entries queue_name q) q q'
  unfolding on_map
  open_lem queue_name q = (
    record q { map = (rt.sled.open_tree queue_name q.map).1 },
    rw (laws.open_ok q.map queue_name) refl,
    record {
      written = rw (laws.open_trees q.map queue_name queue_name, same_refl queue_name) refl;
      others = λ j e. rw (laws.open_trees q.map queue_name j, e) refl;
      limit = refl;
      broadcasts = refl;
    },
  )

  pub Writes-trans :
      (queue_name : Bytes) (es fs : Entries Bytes) (q q' q'' : Queue Db Sender)
      → Writes queue_name es q q'
      → Writes queue_name fs q' q''
      → Writes queue_name fs q q''
  Writes-trans queue_name es fs q q' q'' v w = record {
    written = w.written;
    others = λ j e. w.others j e ∙ v.others j e;
    limit = w.limit ∙ v.limit;
    broadcasts = w.broadcasts ∙ v.broadcasts;
  }

  pub exists_of_written :
      (queue_name : Bytes) (es : Entries Bytes) (q q' : Queue Db Sender)
      → Writes queue_name es q q'
      → is_some (trees q'.map queue_name) ≡ true
  exists_of_written queue_name es q q' w = rw w.written refl

  pub entries_of_written :
      (queue_name : Bytes) (es : Entries Bytes) (q q' : Queue Db Sender)
      → Writes queue_name es q q'
      → entries queue_name q' ≡ es
  entries_of_written queue_name es q q' w = rw w.written refl
