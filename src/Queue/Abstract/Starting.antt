-- ===== src/Queue/Abstract/Starting.antt =====
-- The start of a queue (`Queue::new` of sonya/src/queue/map.rs) on a database that an earlier run
-- left.
use web_queue.Common.{
  Bytes, Option, some, List, [], ◌∷◌, true, false, same, same_iff, same_sym, ok, Result, ◌≡◌, refl,
  ap, ◌∙◌, arith, if◌then◌else◌, unwrap_or, Bool-cases, ◌⊎◌, inl, inr,
}
use web_queue.Sled.{IsReliable}
use web_queue.Sled.Ordered.{Entries, has_bytes, lookup}
use web_queue.Queue.State.{Runtime, Queue}
use web_queue.Queue.Methods.{
  DbConfig, QueueOptions, db_config, create_all, create_queue, new, finish, stored,
}
use web_queue.Queue.Storage.{open_lem, Writes}
use web_queue.Queue.Abstract.{Store}
use web_queue.Queue.Abstract.Represents.{Represents, stored_in, unwrap_or-stored_in}

-- These queues exist, empty where they did not.
abbrev pub with_all {ℓ} :
    {A : Type ℓ} → List Bytes → (Bytes → Option (List A)) → Bytes → Option (List A)
with_all names trees j = if has_bytes j names then some (unwrap_or (trees j) []) else trees j

-- The store of an earlier run, after a start with this configuration.
unfoldable pub restarted : {T : Type 0} → QueueOptions → Store T → Store T
restarted config s = record {
  queues = with_all config.default s.queues;
  numbers = s.numbers;
  limit = config.max_key_updates;
}

unwrap_with_all :
    {A : Type 0} (names : List Bytes) (trees : Bytes → Option (List A)) (j : Bytes)
    → unwrap_or (with_all names trees j) [] ≡ unwrap_or (trees j) []
unwrap_with_all names trees j = ground arith

with_all_stored :
    {T : Type 0} (encode : T → Bytes) (names : List Bytes) (trees : Bytes → Option (Entries Bytes))
    (queues : Bytes → Option (Entries T)) (j : Bytes)
    → trees j ≡ stored_in encode (queues j)
    → with_all names trees j ≡ stored_in encode (with_all names queues j)
with_all_stored encode names trees queues j e = elim (Bool-cases (has_bytes j names)) [
  | inl listed ↦ rw (listed, e) (ap some (unwrap_or-stored_in encode (queues j)))
  | inr other ↦ rw (other, e) refl
]

module _ {Db DbError JsonError Sender Receiver T : Type 0}
    (rt : Runtime Db DbError JsonError Sender Receiver T) (laws : IsReliable rt.sled) where
  abbrev Started : List Bytes → Queue Db Sender → Queue Db Sender → Type 0
  Started names q q' =
      ((j : Bytes) → laws.trees q'.map j ≡ with_all names (laws.trees q.map) j)
      × (q'.max_key_updates ≡ q.max_key_updates)
      × (q'.queue_broadcasts ≡ q.queue_broadcasts)

  one_more :
      (name : Bytes) (names : List Bytes) (q q1 q' : Queue Db Sender)
      → Writes rt laws name (unwrap_or (laws.trees q.map name) []) q q1
      → Started names q1 q'
      → Started (name ∷ names) q q'
  unfolding has_bytes
  one_more name names q q1 q' w (trees, limit, broadcasts) =
      (λ j. trees j ∙ at j (Bool-cases (same name j)), limit ∙ w.limit, broadcasts ∙ w.broadcasts)
    where
      at :
          (j : Bytes)
          → (same name j ≡ true) ⊎ (same name j ≡ false)
          → with_all names (laws.trees q1.map) j ≡ with_all (name ∷ names) (laws.trees q.map) j
      at j (inl e) =
          let there : laws.trees q1.map j ≡ some (unwrap_or (laws.trees q.map j) []) =
            rw (← (same_iff name j).0 e) w.written in
          rw (there, same_sym j name ∙ e) (ground arith)
      at j (inr e) = rw (w.others j e, same_sym j name ∙ e) refl

  create_all_lem :
      (names : List Bytes) (q : Queue Db Sender)
      → (q' : Queue Db Sender) × (create_all rt names q ≡ (ok tt, q')) × Started names q q'
  unfolding create_all create_queue has_bytes
  create_all_lem [] q = (q, refl, (λ j. refl, refl, refl))
  create_all_lem (name ∷ names) q =
      let (q1, e, w) = open_lem rt laws name q in
      let (q', f, started) = create_all_lem names q1 in
      (q', rw (e, f) refl, one_more name names q q1 q' w started)

  -- A queue that is opened on the database of an earlier run stands for what that run had stored: all
  -- its messages and counters, with the queues of the configuration beside them, empty where they
  -- were missing, and the limit of the configuration; nobody is subscribed; given that storage does
  -- not fail and that the database opens as the earlier run left it.
  pub new-Represents :
      (encode : T → Bytes) (earlier : Queue Db Sender) (s : Store T)
      → Represents rt laws encode earlier s
      → (open_db : DbConfig → Result DbError Db) (config : QueueOptions)
      → open_db (db_config config.db_path) ≡ ok earlier.map
      → (q : Queue Db Sender) × (new rt open_db config ≡ ok q)
        × Represents rt laws encode q (restarted config s)
        × (q.queue_broadcasts ≡ [])
  unfolding new restarted
  new-Represents encode earlier s rep open_db config opened =
      let first = record earlier {
        max_key_updates = config.max_key_updates;
        queue_broadcasts = [];
      } in
      let (q, e, (trees, limit, broadcasts)) = create_all_lem config.default first in
      (
        q,
        rw (opened, new) (ap (finish rt) e),
        record {
          queues_of = λ j d.
              trees j
              ∙ with_all_stored encode config.default (laws.trees earlier.map) s.queues j
                  (rep.queues_of j d);
          numbers_of = λ k.
              ap (λ es. stored (lookup k es))
                (ap (λ o. unwrap_or o []) (trees rt.sled.default_tree)
                  ∙ unwrap_with_all config.default (laws.trees earlier.map) rt.sled.default_tree)
              ∙ rep.numbers_of k;
          limit_of = limit;
        },
        broadcasts,
      )
