-- ===== src/Queue/Failures.antt =====
-- The ways in which the methods of sonya/src/queue/map.rs do nothing or fail, whatever the database
-- does.
use web_queue.Common.{
  ℕ, ◌≡◌, refl, ◌∙◌, Bytes, Option, none, some, Bool, true, false, Result, ok, err, Exec, ◌>>=◌,
  ◌>>◌, continue, lift, map_err, Bool-cases, inl, inr, arith,
}
use web_queue.Message.{RequestSequence}
use web_queue.Queue.State.{Runtime, Queue, QueueError, encode, on_map, no_subscription}
use web_queue.Queue.Reads.{get_id}
use web_queue.Queue.Methods.{
  check_tree_exists, send_to_queue, subscribe_queue, subscribe_queue_by_id, numbered, store,
  store_value, evict, scan_old, broadcast_value, generate_next_id, counter_key, next_counter,
  sequence_of,
}

module _ {Db DbError JsonError Sender Receiver T : Type 0}
    (rt : Runtime Db DbError JsonError Sender Receiver T) where
  -- In a queue that does not exist a message is not sent and nobody is subscribed, and the state
  -- does not change.
  pub missing_queue :
      (queue_name id : Bytes) (value : T) (sequence : RequestSequence) (q : Queue Db Sender)
      → check_tree_exists rt queue_name q ≡ false
      → (send_to_queue rt queue_name value q ≡ (ok false, q))
        × (subscribe_queue rt queue_name sequence q ≡ (ok no_subscription, q))
        × (subscribe_queue_by_id rt queue_name id sequence q ≡ (ok no_subscription, q))
  unfolding send_to_queue subscribe_queue subscribe_queue_by_id
  missing_queue queue_name id value sequence q h = (rw h refl, rw h refl, rw h refl)

  -- A method that touches the database alone leaves the channels as they are.
  abbrev Silent : {A : Type 0} → Exec (Queue Db Sender) (QueueError DbError JsonError) A → Type 0
  Silent m = (q : Queue Db Sender) → (m q).1.queue_broadcasts ≡ q.queue_broadcasts

  Silent-bind :
      {A B : Type 0} (m : Exec (Queue Db Sender) (QueueError DbError JsonError) A)
      (f : A → Exec (Queue Db Sender) (QueueError DbError JsonError) B)
      → Silent m
      → ((a : A) → Silent (f a))
      → Silent (m >>= f)
  Silent-bind {A} m f sm sf q = go (m q).0 ∙ sm q
    where
      go :
          (r : Result (QueueError DbError JsonError) A)
          → (continue r f (m q).1).1.queue_broadcasts ≡ (m q).1.queue_broadcasts
      go (ok a) = sf a (m q).1
      go (err e) = refl

  Silent-on_map : {A : Type 0} (m : Exec Db DbError A) → Silent (on_map m)
  unfolding on_map
  Silent-on_map m q = refl

  Silent-generate_next_id : (queue_name id : Bytes) → Silent (generate_next_id rt queue_name id)
  unfolding generate_next_id
  Silent-generate_next_id queue_name id =
      Silent-bind (on_map (rt.sled.update_and_fetch (counter_key queue_name id) next_counter))
        (λ res. lift (sequence_of rt res)) (Silent-on_map _) (λ res q. refl)

  Silent-numbered : (queue_name : Bytes) (value : T) → Silent (numbered rt queue_name value)
  unfolding numbered
  Silent-numbered queue_name value q =
      ground (arith, Silent-generate_next_id queue_name (rt.uniq.get_id value) q)

  Silent-evict : (queue_name id : Bytes) (limit : Option ℕ) → Silent (evict rt queue_name id limit)
  unfolding evict scan_old
  Silent-evict queue_name id none q = refl
  Silent-evict queue_name id (some m) q =
      Silent-bind (scan_old rt queue_name id m)
        (λ batch. on_map (rt.sled.apply_batch queue_name batch)) (λ p. refl)
        (λ batch. Silent-on_map _) q

  Silent-store_value :
      (queue_name : Bytes) (value : T) (sequence : ℕ)
      → Silent (store_value rt queue_name value sequence)
  unfolding store_value
  Silent-store_value queue_name value sequence q =
      Silent-bind (on_map (rt.sled.open_tree queue_name)) _ (Silent-on_map _)
        (λ _.
          Silent-bind (lift (map_err encode (rt.json.to_vec value))) _ (λ p. refl)
            (λ bytes.
              Silent-bind
                (on_map (rt.sled.insert queue_name (get_id (rt.uniq.get_id value) sequence) bytes))
                _ (Silent-on_map _)
                (λ _. Silent-evict queue_name (rt.uniq.get_id value) q.max_key_updates)))
        q

  Silent-store :
      (queue_name : Bytes) (value : T) (sequence : ℕ) → Silent (store rt queue_name value sequence)
  unfolding store
  Silent-store queue_name value sequence q =
      ground (arith, Silent-store_value queue_name value sequence q)

  then_broadcast :
      (queue_name : Bytes) (value : T) (r : Result (QueueError DbError JsonError) Unit)
      (q : Queue Db Sender) (e : QueueError DbError JsonError)
      → (continue r (λ _ q'. (ok true, broadcast_value rt queue_name value q')) q).0 ≡ err e
      → (continue {B = Bool} r
          (λ _ q'. (ok true, broadcast_value rt queue_name value q'))
          q).1.queue_broadcasts
        ≡ q.queue_broadcasts
  then_broadcast queue_name value (ok _) q e h = cc
  then_broadcast queue_name value (err x) q e h = refl

  -- A `send_to_queue` that fails, at whatever step, has sent nothing to any subscriber: the
  -- channels are as they were.
  pub failed_send :
      (queue_name : Bytes) (value : T) (q : Queue Db Sender) (e : QueueError DbError JsonError)
      → (send_to_queue rt queue_name value q).0 ≡ err e
      → (send_to_queue rt queue_name value q).1.queue_broadcasts ≡ q.queue_broadcasts
  unfolding send_to_queue
  failed_send queue_name value q e = elim (Bool-cases (check_tree_exists rt queue_name q)) [
    | inr missing ↦ rw missing (λ h. refl)
    | inl there ↦ rw there (λ h.
        after_numbered (numbered rt queue_name value q).0 h ∙ Silent-numbered queue_name value q)
  ]
    where
      rest : T × ℕ → Exec (Queue Db Sender) (QueueError DbError JsonError) Bool
      rest (value', sequence) =
          store rt queue_name value' sequence
          >> (λ q'. (ok true, broadcast_value rt queue_name value' q'))

      after_numbered :
          (r : Result (QueueError DbError JsonError) (T × ℕ))
          → (continue r rest (numbered rt queue_name value q).1).0 ≡ err e
          → (continue r rest (numbered rt queue_name value q).1).1.queue_broadcasts
            ≡ (numbered rt queue_name value q).1.queue_broadcasts
      after_numbered (err x) h = refl
      after_numbered (ok (value', sequence)) h =
          then_broadcast queue_name value' (store rt queue_name value' sequence _).0 _ e h
          ∙ Silent-store queue_name value' sequence (numbered rt queue_name value q).1
