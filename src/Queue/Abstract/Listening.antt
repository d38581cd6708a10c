-- ===== src/Queue/Abstract/Listening.antt =====
-- The subscriptions of sonya/src/queue/map.rs beside the abstract reads.
use web_queue.Common.{
  Bytes, Option, none, some, List, [], true, false, same, same_sym, same_iff, ok, err, Result, ◌≡◌,
  refl, ap, sym, ◌∙◌, unwrap_or, is_some, Bool-cases, ◌⊎◌, inl, inr,
}
use web_queue.Message.{RequestSequence}
use web_queue.Sled.{IsReliable}
use web_queue.Sled.Ordered.{Entries, lookup}
use web_queue.Queue.State.{
  Runtime, Queue, Subscription, on_map, no_subscription, get_queue_broadcast, get_key_broadcast,
}
use web_queue.Queue.Reads.{get_prev_items, get_prev_all_items}
use web_queue.Queue.Methods.{
  stored, prev_len, check_tree_exists, subscribe_key, subscribe_sender, subscribe_queue,
  subscribe_queue_by_id,
}
use web_queue.Queue.Storage.{entries, open_lem, Writes}
use web_queue.Queue.Abstract.{
  Store, Answer, not_there, loaded, failed, when, asked, select, select_any,
}
use web_queue.Queue.Abstract.Values.{on_values}
use web_queue.Queue.Abstract.Loading.{get_prev_items_lem, get_prev_all_items_lem}
use web_queue.Queue.Abstract.Represents.{Represents, stored_in, entries_of, exists_of}

-- What a subscription starts with.
abbrev pub loaded_by : {Receiver T : Type 0} → Subscription Receiver T → Answer T
loaded_by sub = when sub.stream not_there λ st. loaded st.prev_items

abbrev pub reply : {E A T : Type 0} → (A → Answer T) → Result E A → Answer T
reply f (ok a) = f a
reply f (err e) = failed

module _ {Db DbError JsonError Sender Receiver T : Type 0}
    (rt : Runtime Db DbError JsonError Sender Receiver T) (laws : IsReliable rt.sled)
    (encode : T → Bytes) (decodes : (m : T) → rt.json.from_slice (encode m) ≡ ok m)
    (queue_name : Bytes) (other : same queue_name rt.sled.default_tree ≡ false)
    (q : Queue Db Sender) (s : Store T) (r : Represents rt laws encode q s) where
  -- A step that rewrites a tree by what it held keeps all that is represented.
  Represents-same_trees :
      (q' : Queue Db Sender)
      → ((j : Bytes) → laws.trees q'.map j ≡ laws.trees q.map j)
      → q'.max_key_updates ≡ q.max_key_updates
      → Represents rt laws encode q' s
  Represents-same_trees q' h l = record {
    queues_of = λ j d. h j ∙ r.queues_of j d;
    numbers_of =
        λ k. ap (λ o. stored (lookup k (unwrap_or o []))) (h rt.sled.default_tree) ∙ r.numbers_of k;
    limit_of = l ∙ r.limit_of;
  }

  pub not_there_by_id :
      (id : Bytes) (sequence : RequestSequence)
      → s.queues queue_name ≡ none
      → subscribe_queue_by_id rt queue_name id sequence q ≡ (ok no_subscription, q)
  unfolding subscribe_queue_by_id
  not_there_by_id id sequence e =
      rw (exists_of rt laws encode queue_name other q s r ∙ ap is_some e) refl

  pub not_there_all :
      (sequence : RequestSequence)
      → s.queues queue_name ≡ none
      → subscribe_queue rt queue_name sequence q ≡ (ok no_subscription, q)
  unfolding subscribe_queue
  not_there_all sequence e =
      rw (exists_of rt laws encode queue_name other q s r ∙ ap is_some e) refl

  module _ (es : Entries T) (there : s.queues queue_name ≡ some es) where
    opened :
        (q1 : Queue Db Sender)
        → Writes rt laws queue_name (entries rt laws queue_name q) q q1
        → (j : Bytes) → laws.trees q1.map j ≡ laws.trees q.map j
    opened q1 w j = at (Bool-cases (same queue_name j))
      where
        held : laws.trees q.map queue_name ≡ some (entries rt laws queue_name q)
        held =
            let e =
              r.queues_of queue_name (same_sym rt.sled.default_tree queue_name ∙ other)
              ∙ ap (stored_in encode) there in
            e ∙ sym (ap (λ o. some (unwrap_or o [])) e)

        at :
            (same queue_name j ≡ true) ⊎ (same queue_name j ≡ false)
            → laws.trees q1.map j ≡ laws.trees q.map j
        at (inl e) = rw (← (same_iff queue_name j).0 e) (w.written ∙ sym held)
        at (inr e) = w.others j e

    held_entries : unwrap_or (laws.trees q.map queue_name) [] ≡ on_values encode es
    held_entries =
        entries_of rt laws encode queue_name other q s r
        ∙ ap (λ o. on_values encode (unwrap_or o [])) there

    exists : check_tree_exists rt queue_name q ≡ true
    exists = exists_of rt laws encode queue_name other q s r ∙ ap is_some there

    by_id_run :
        (id : Bytes) (sequence : RequestSequence) (q1 : Queue Db Sender) (prev : Option (List T))
        → on_map {JsonError = JsonError} (rt.sled.open_tree queue_name) q ≡ (ok tt, q1)
        → get_prev_items rt queue_name id sequence q1.map ≡ ok prev
        → subscribe_queue_by_id rt queue_name id sequence q ≡ subscribe_key rt queue_name id prev q1
    unfolding subscribe_queue_by_id
    by_id_run id sequence q1 prev e f = rw exists (rw e (rw f refl))

    all_run :
        (sequence : RequestSequence) (q1 : Queue Db Sender) (prev : Option (List T))
        → on_map {JsonError = JsonError} (rt.sled.open_tree queue_name) q ≡ (ok tt, q1)
        → get_prev_all_items rt queue_name sequence q1.map ≡ ok prev
        → subscribe_queue rt queue_name sequence q ≡ subscribe_sender rt queue_name prev q1
    unfolding subscribe_queue
    all_run sequence q1 prev e f = rw exists (rw e (rw f refl))

    pub subscribe_queue_by_id-Represents :
        (id : Bytes) (sequence : RequestSequence)
        → (reply loaded_by (subscribe_queue_by_id rt queue_name id sequence q).0
            ≡ loaded (asked sequence (λ i. select id i es)))
          × Represents rt laws encode (subscribe_queue_by_id rt queue_name id sequence q).1 s
    subscribe_queue_by_id-Represents id sequence =
        let (q1, e, w) = open_lem rt laws queue_name q in
        let same_trees = opened q1 w in
        let prev : Option (List T) = asked sequence (λ i. select id i es) in
        let ran = by_id_run id sequence q1 prev e (
          get_prev_items_lem rt laws encode decodes queue_name id sequence q1.map es
            (ap (λ o. unwrap_or o []) (same_trees queue_name) ∙ held_entries)) in
        (
          ap (λ p. reply loaded_by p.0) ran ∙ unfold subscribe_key in refl,
          rw ran (
              unfold subscribe_key in
              Represents-same_trees (subscribe_key rt queue_name id prev q1).1 same_trees w.limit),
        )

    pub subscribe_queue-Represents :
        (sequence : RequestSequence)
        → (reply loaded_by (subscribe_queue rt queue_name sequence q).0
            ≡ loaded (asked sequence (λ i. select_any rt.uniq i es)))
          × Represents rt laws encode (subscribe_queue rt queue_name sequence q).1 s
    subscribe_queue-Represents sequence =
        let (q1, e, w) = open_lem rt laws queue_name q in
        let same_trees = opened q1 w in
        let prev : Option (List T) = asked sequence (λ i. select_any rt.uniq i es) in
        let ran = all_run sequence q1 prev e (
          get_prev_all_items_lem rt laws encode decodes queue_name sequence q1.map es
            (ap (λ o. unwrap_or o []) (same_trees queue_name) ∙ held_entries)) in
        (
          ap (λ p. reply loaded_by p.0) ran ∙ unfold subscribe_sender in refl,
          rw ran (
              unfold subscribe_sender in
              Represents-same_trees (subscribe_sender rt queue_name prev q1).1 same_trees w.limit),
        )

    pub by_id_subscription :
        (id : Bytes) (sequence : RequestSequence)
        → let prev : Option (List T) = asked sequence (λ i. select id i es) in
          (receiver : Receiver) × ((subscribe_queue_by_id rt queue_name id sequence q).0
            ≡ ok (record {
              stream = some (record { receiver = receiver; prev_items = prev });
              preloaded_count = prev_len prev;
            }))
    by_id_subscription id sequence =
        let (q1, e, w) = open_lem rt laws queue_name q in
        let prev : Option (List T) = asked sequence (λ i. select id i es) in
        let ran = by_id_run id sequence q1 prev e (
          get_prev_items_lem rt laws encode decodes queue_name id sequence q1.map es
            (ap (λ o. unwrap_or o []) (opened q1 w queue_name) ∙ held_entries)) in
        (
          (rt.broadcast.subscribe (
              get_key_broadcast rt.broadcast id
                (get_queue_broadcast rt.broadcast queue_name q1.queue_broadcasts))).0,
          ap (λ p. p.0) ran ∙ unfold subscribe_key in refl,
        )

    pub all_subscription :
        (sequence : RequestSequence)
        → let prev : Option (List T) = asked sequence (λ i. select_any rt.uniq i es) in
          (receiver : Receiver) × ((subscribe_queue rt queue_name sequence q).0
            ≡ ok (record {
              stream = some (record { receiver = receiver; prev_items = prev });
              preloaded_count = prev_len prev;
            }))
    all_subscription sequence =
        let (q1, e, w) = open_lem rt laws queue_name q in
        let prev : Option (List T) = asked sequence (λ i. select_any rt.uniq i es) in
        let ran = all_run sequence q1 prev e (
          get_prev_all_items_lem rt laws encode decodes queue_name sequence q1.map es
            (ap (λ o. unwrap_or o []) (opened q1 w queue_name) ∙ held_entries)) in
        (
          (rt.broadcast.subscribe
              (get_queue_broadcast rt.broadcast queue_name q1.queue_broadcasts).sender).0,
          ap (λ p. p.0) ran ∙ unfold subscribe_sender in refl,
        )
