-- ===== src/Broadcast/Memory.antt =====
-- A channel that never drops a value: it keeps the laws of `IsChannel`, and runs the examples.
use web_queue.Common.{
  ℕ, zero, suc, ◌≡◌, refl, List, [], ◌∷◌, ◌++◌, true, ok, map, length, ltb, arith, length-append,
}
use native.Mathlib.Nat.{le_refl}
use web_queue.Broadcast.{Broadcast, IsChannel}

module _ (T : Type 0) where
  -- The capacity, and what each receiver has still to read.
  pub record Channel : Type 0 where
    pub capacity : ℕ
    pub inboxes : List (List T)

  inbox : List (List T) → ℕ → List T
  inbox [] r = []
  inbox (l ∷ ls) zero = l
  inbox (l ∷ ls) (suc r) = inbox ls r

  unfoldable pub in_memory : Broadcast Channel ℕ T
  in_memory = record {
    channel = λ n. record { capacity = n; inboxes = [] };
    subscribe = λ s. (length s.inboxes, record s { inboxes = s.inboxes ++ [] ∷ [] });
    send = λ s v. (ok (length s.inboxes), record s { inboxes = map (λ l. l ++ v ∷ []) s.inboxes });
    receiver_count = λ s. length s.inboxes;
  }

  inbox_new : (ls : List (List T)) → inbox (ls ++ [] ∷ []) (length ls) ≡ []
  unfolding inbox
  inbox_new [] = refl
  inbox_new (l ∷ ls) = inbox_new ls

  joined_new : (ls : List (List T)) → ltb (length ls) (length (ls ++ [] ∷ [])) ≡ true
  joined_new ls = ground (arith, length-append ls ([] ∷ []))

  length_sent : (f : List T → List T) (ls : List (List T)) → length (map f ls) ≡ length ls
  length_sent f [] = refl
  length_sent f (l ∷ ls) = omega (arith, length_sent f ls)

  inbox_sent :
      (f : List T → List T) (ls : List (List T)) (r : ℕ)
      → ltb r (length ls) ≡ true
      → inbox (map f ls) r ≡ f (inbox ls r)
  unfolding inbox
  inbox_sent f [] r h = ground arith
  inbox_sent f (l ∷ ls) zero h = refl
  inbox_sent f (l ∷ ls) (suc r) h = inbox_sent f ls r (ground arith)

  pub in_memory-IsChannel : IsChannel in_memory
  unfolding in_memory
  in_memory-IsChannel = record {
    capacity = λ s. s.capacity;
    joined = λ s r. ltb r (length s.inboxes);
    pending = λ s r. inbox s.inboxes r;
    channel_capacity = λ n. le_refl n;
    subscribe_capacity = λ s. refl;
    subscribe_joined = λ s. joined_new s.inboxes;
    subscribe_pending = λ s. inbox_new s.inboxes;
    send_capacity = λ s v. refl;
    send_joined = λ s v r h. rw (length_sent (λ l. l ++ v ∷ []) s.inboxes) h;
    send_pending = λ s v r h few. inbox_sent (λ l. l ++ v ∷ []) s.inboxes r h;
  }
