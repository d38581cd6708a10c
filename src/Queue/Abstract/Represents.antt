-- ===== src/Queue/Abstract/Represents.antt =====
-- When a queue of sonya/src/queue/map.rs stands for an abstract store, and how changes keep that.
use web_queue.Common.{
  Bytes, Option, none, some, [], true, false, same, same_sym, same_iff, ◌≡◌, refl, ap, sym, ◌∙◌,
  arith, if◌then◌else◌, unwrap_or, is_some, Bool-cases, ◌⊎◌, inl, inr, not, has_prefix, keep,
}
use web_queue.Sled.{IsReliable}
use web_queue.Sled.Ordered.{Entries, lookup}
use web_queue.Queue.State.{Runtime, Queue, on_map}
use web_queue.Queue.Methods.{
  stored, check_tree_exists, create_queue, close_queue, delete_queue, drop_key, scan_keys,
}
use web_queue.Queue.Counters.{counters}
use web_queue.Queue.Storage.{entries}
use web_queue.Queue.Sending.{others_than}
use web_queue.Queue.Deletion.{create_queue_lem, close_queue_lem, delete_queue_lem}
use web_queue.Queue.Abstract.{Store, with_value}
use web_queue.Queue.Abstract.Values.{on_values, on_values-keep}

module _ {T : Type 0} (encode : T → Bytes) where
  abbrev pub stored_in : Option (Entries T) → Option (Entries Bytes)
  stored_in none = none
  stored_in (some es) = some (on_values encode es)

  pub unwrap_or-stored_in :
      (o : Option (Entries T)) → unwrap_or (stored_in o) [] ≡ on_values encode (unwrap_or o [])
  unwrap_or-stored_in none = refl
  unwrap_or-stored_in (some es) = refl

  pub is_some-stored_in : (o : Option (Entries T)) → is_some (stored_in o) ≡ is_some o
  is_some-stored_in none = refl
  is_some-stored_in (some es) = refl

module _ {Db DbError JsonError Sender Receiver T : Type 0}
    (rt : Runtime Db DbError JsonError Sender Receiver T) (laws : IsReliable rt.sled)
    (encode : T → Bytes) where
  -- The trees hold the encodings of the store's messages, the default tree its counters.
  pub record Represents (q : Queue Db Sender) (s : Store T) : Type 0 where
    pub queues_of :
        (j : Bytes)
        → same rt.sled.default_tree j ≡ false
        → laws.trees q.map j ≡ stored_in encode (s.queues j)
    pub numbers_of : (k : Bytes) → stored (lookup k (counters rt laws q)) ≡ s.numbers k
    pub limit_of : q.max_key_updates ≡ s.limit

  module _ (queue_name : Bytes) (other : same queue_name rt.sled.default_tree ≡ false) where
    not_default : same rt.sled.default_tree queue_name ≡ false
    not_default = same_sym rt.sled.default_tree queue_name ∙ other

    pub entries_of :
        (q : Queue Db Sender) (s : Store T)
        → Represents q s
        → entries rt laws queue_name q ≡ on_values encode (unwrap_or (s.queues queue_name) [])
    entries_of q s r =
        ap (λ o. unwrap_or o []) (r.queues_of queue_name not_default)
        ∙ unwrap_or-stored_in encode (s.queues queue_name)

    pub exists_of :
        (q : Queue Db Sender) (s : Store T)
        → Represents q s
        → check_tree_exists rt queue_name q ≡ is_some (s.queues queue_name)
    unfolding check_tree_exists
    exists_of q s r =
        laws.names q.map queue_name
        ∙ ap is_some (r.queues_of queue_name not_default)
        ∙ is_some-stored_in encode (s.queues queue_name)

    -- One tree is written, and nothing else changes.
    pub Represents-with_value :
        (q q' : Queue Db Sender) (s : Store T) (o : Option (Entries T))
        → ((j : Bytes)
            → laws.trees q'.map j
              ≡ (if same queue_name j then stored_in encode o else laws.trees q.map j))
        → q'.max_key_updates ≡ q.max_key_updates
        → Represents q s
        → Represents q' (record s { queues = with_value queue_name o s.queues })
    Represents-with_value q q' s o written limit r = record {
      queues_of = λ j d. written j ∙ at j d (Bool-cases (same queue_name j));
      numbers_of = λ k.
          ap (λ o. stored (lookup k (unwrap_or o []))) (written rt.sled.default_tree ∙ kept_default)
          ∙ r.numbers_of k;
      limit_of = limit ∙ r.limit_of;
    }
      where
        kept_default :
            (if same queue_name rt.sled.default_tree
              then stored_in encode o
              else laws.trees q.map rt.sled.default_tree)
            ≡ laws.trees q.map rt.sled.default_tree
        kept_default = rw other refl

        at :
            (j : Bytes)
            → same rt.sled.default_tree j ≡ false
            → (same queue_name j ≡ true) ⊎ (same queue_name j ≡ false)
            → (if same queue_name j then stored_in encode o else laws.trees q.map j)
              ≡ stored_in encode (if same queue_name j then o else s.queues j)
        at j d (inl e) = rw e refl
        at j d (inr e) = rw e (r.queues_of j d)

    pub create_queue-Represents :
        (q : Queue Db Sender) (s : Store T)
        → Represents q s
        → Represents (create_queue rt queue_name q).1 (record s {
          queues = with_value queue_name (some (unwrap_or (s.queues queue_name) [])) s.queues;
        })
    unfolding create_queue on_map
    create_queue-Represents q s r =
        Represents-with_value q (create_queue rt queue_name q).1 s
          (some (unwrap_or (s.queues queue_name) []))
          (λ j.
            (create_queue_lem rt laws queue_name q).2 j
            ∙ ap (λ es. if same queue_name j then some es else laws.trees q.map j)
                (entries_of q s r))
          refl r

    pub close_queue-Represents :
        (q : Queue Db Sender) (s : Store T)
        → Represents q s
        → Represents
            (close_queue rt queue_name q).1
            (record s { queues = with_value queue_name none s.queues })
    unfolding close_queue on_map
    close_queue-Represents q s r =
        Represents-with_value q (close_queue rt queue_name q).1 s none
          ((close_queue_lem rt laws queue_name q other).2) refl r

    delete_queue_limit :
        (id : Bytes) (q : Queue Db Sender)
        → (delete_queue rt queue_name id q).1.max_key_updates ≡ q.max_key_updates
    unfolding delete_queue drop_key scan_keys on_map
    delete_queue_limit id q = ground arith

    pub delete_queue-Represents :
        (id : Bytes) (q : Queue Db Sender) (s : Store T)
        → Represents q s
        → Represents (delete_queue rt queue_name id q).1 (record s {
          queues =
              with_value queue_name
                (some (keep (λ e. not (has_prefix id e.0)) (unwrap_or (s.queues queue_name) [])))
                s.queues;
        })
    delete_queue-Represents id q s r =
        Represents-with_value q (delete_queue rt queue_name id q).1 s
          (some (keep (λ e. not (has_prefix id e.0)) (unwrap_or (s.queues queue_name) [])))
          (λ j. deleted j (Bool-cases (same queue_name j))) (delete_queue_limit id q) r
      where
        left : Entries T
        left = keep (λ e. not (has_prefix id e.0)) (unwrap_or (s.queues queue_name) [])

        deleted :
            (j : Bytes)
            → (same queue_name j ≡ true) ⊎ (same queue_name j ≡ false)
            → laws.trees (delete_queue rt queue_name id q).1.map j
              ≡ (if same queue_name j then stored_in encode (some left) else laws.trees q.map j)
        deleted j (inl e) = rw e (
            ap (laws.trees (delete_queue rt queue_name id q).1.map)
              (sym ((same_iff queue_name j).0 e))
            ∙ (delete_queue_lem rt laws queue_name id q).1
            ∙ ap (λ es. some (others_than id es)) (entries_of q s r)
            ∙ ap some (
                sym (
                  on_values-keep encode (λ k. not (has_prefix id k))
                    (unwrap_or (s.queues queue_name) []))))
        deleted j (inr e) = rw e ((delete_queue_lem rt laws queue_name id q).2 j e)
