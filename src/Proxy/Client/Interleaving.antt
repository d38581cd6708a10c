-- ===== src/Proxy/Client/Interleaving.antt =====
-- `WebSocketProxyClientsStorage` (sonya-proxy/src/websocket_proxy_client.rs) under tasks that run
-- side by side: `get_addr` reads under one lock and writes under another, the task of the garbage
-- collector clears between them, and actors stop at any time.
use web_queue.Common.{
  ℕ, List, Bool, true, false, none, some, if◌then◌else◌, ◌≡◌, ◌≢◌, ◌⊎◌, inl, inr, refl, ap, sym,
  ◌∙◌, arith, ◌==◌, Bool-cases,
}
use web_queue.Api.{filter}
use web_queue.Proxy.Client.Storage.{
  WebSocketProxyClientsStorageKey, same_key, find, insert, clear, find-clear-kept,
}
use web_queue.Proxy.Client.Storage.Keys.{
  same_key_eq, find-insert_same, find-insert_other, found_running,
}

-- A task that subscribes for new messages: it is to look, it saw nothing and is to write, or it has
-- its actor.
pub data Task (Addr : Type 0) : Type 0 where
  asking missed : Task Addr
  got : Addr → Task Addr

pub record World (Addr : Type 0) : Type 0 where
  pub storage : List (WebSocketProxyClientsStorageKey × Addr)
  pub connected : Addr → Bool
  pub tasks : ℕ → Task Addr

abbrev pub set_task : {Addr : Type 0} → ℕ → Task Addr → (ℕ → Task Addr) → ℕ → Task Addr
set_task i t f j = if j == i then t else f j

module _ {Addr : Type 0} (key_of : ℕ → WebSocketProxyClientsStorageKey) where
  -- One step under one lock, or the end of actors.
  pub data Step : World Addr → World Addr → Type 0 where
    finds :
        (w : World Addr) (i : ℕ) (a : Addr)
        → w.tasks i ≡ asking
        → filter w.connected (find (key_of i) w.storage) ≡ some a
        → Step w (record w { tasks = set_task i (got a) w.tasks })
    misses :
        (w : World Addr) (i : ℕ)
        → w.tasks i ≡ asking
        → filter w.connected (find (key_of i) w.storage) ≡ none
        → Step w (record w { tasks = set_task i missed w.tasks })
    stores :
        (w : World Addr) (i : ℕ) (a : Addr)
        → w.tasks i ≡ missed
        → Step w (record w {
          storage = insert (key_of i) a w.storage;
          tasks = set_task i (got a) w.tasks;
        })
    clears : (w : World Addr) → Step w (record w { storage = clear w.connected w.storage })
    stops :
        (w : World Addr) (connected : Addr → Bool)
        → ((a : Addr) → connected a ≡ true → w.connected a ≡ true)
        → Step w (record w { connected = connected })

  pub data Steps : World Addr → World Addr → Type 0 where
    here : {w : World Addr} → Steps w w
    next : {u v w : World Addr} → Steps u v → Step v w → Steps u w

module _ {Addr : Type 0} (key_of : ℕ → WebSocketProxyClientsStorageKey) where
  connected_before :
      {w w' : World Addr} (a : Addr)
      → Step key_of w w'
      → w'.connected a ≡ true
      → w.connected a ≡ true
  connected_before a (finds w i b asked found) c = c
  connected_before a (misses w i asked found) c = c
  connected_before a (stores w i b empty) c = c
  connected_before a (clears w) c = c
  connected_before a (stops w f fewer) c = fewer a c

  module _ (k : WebSocketProxyClientsStorageKey) (a : Addr) (w0 : World Addr)
      (none_missed : (i : ℕ) → key_of i ≡ k → w0.tasks i ≢ missed) where
    -- The actor is stored, and whoever has taken a step since then has it.
    abbrev Shared : World Addr → Type 0
    Shared w =
        (find k w.storage ≡ some a)
        × ((i : ℕ) → key_of i ≡ k → (w.tasks i ≡ w0.tasks i) ⊎ (w.tasks i ≡ got a))

    never_missed : (w : World Addr) (i : ℕ) → Shared w → key_of i ≡ k → w.tasks i ≢ missed
    never_missed w i (_, tasks) e h = elim (tasks i e) [
      | inl same_task ↦ none_missed i e (sym same_task ∙ h)
      | inr has ↦ absurd (cc)
    ]

    tasks_after :
        (w : World Addr) (i : ℕ) (t : Task Addr)
        → ((j : ℕ) → key_of j ≡ k → (w.tasks j ≡ w0.tasks j) ⊎ (w.tasks j ≡ got a))
        → (key_of i ≡ k → t ≡ got a)
        → (j : ℕ) → key_of j ≡ k
        → (set_task i t w.tasks j ≡ w0.tasks j) ⊎ (set_task i t w.tasks j ≡ got a)
    tasks_after w i t before h j e = elim (Bool-cases (j == i)) [
      | inl same_one ↦
          let at_i : j ≡ i = ground (arith, same_one) in
          rw same_one (inr (h (sym (ap key_of at_i) ∙ e)))
      | inr another ↦ rw another (before j e)
    ]

    Step-Shared :
        {w w' : World Addr} → Step key_of w w' → w'.connected a ≡ true → Shared w → Shared w'
    Step-Shared (finds w i b asked found) c (stored, tasks) = (
      stored,
      tasks_after w i (got b) tasks λ e.
          let stored_one : filter w.connected (find (key_of i) w.storage) ≡ some a =
            rw e (found_running w.connected (find k w.storage) a stored c) in
          cc,
    )
    Step-Shared (misses w i asked found) c (stored, tasks) = (
      stored,
      tasks_after w i missed tasks λ e.
          let stored_one : filter w.connected (find (key_of i) w.storage) ≡ some a =
            rw e (found_running w.connected (find k w.storage) a stored c) in
          cc,
    )
    Step-Shared (stores w i b empty) c (stored, tasks) =
        let another : key_of i ≢ k = λ e. never_missed w i (stored, tasks) e empty in
        (
          elim (Bool-cases (same_key k (key_of i))) [
            | inl e ↦ absurd (another (sym (same_key_eq k (key_of i) e)))
            | inr e ↦ find-insert_other (key_of i) k b w.storage e ∙ stored
          ],
          tasks_after w i (got b) tasks λ e. absurd (another e),
        )
    Step-Shared (clears w) c (stored, tasks) =
        (find-clear-kept w.connected k a w.storage stored c, tasks)
    Step-Shared (stops w f fewer) c (stored, tasks) = (stored, tasks)

    Steps-Shared :
        {w : World Addr}
        → Steps key_of w0 w
        → w.connected a ≡ true
        → find k w0.storage ≡ some a
        → Shared w
    Steps-Shared here c stored = (stored, λ i e. inl refl)
    Steps-Shared (next steps step) c stored =
        Step-Shared step c (Steps-Shared steps (connected_before a step c) stored)

  -- Once an actor is stored for a queue and an id, and no task is between its look and its write for
  -- them, the actor is shared as long as it runs, in whatever order the tasks, the collector and the
  -- ends of actors take their steps: it stays stored, and every task that gets an actor for them
  -- after that gets this one.
  pub Steps-shared :
      (k : WebSocketProxyClientsStorageKey) (a : Addr) (w0 w : World Addr)
      → find k w0.storage ≡ some a
      → ((i : ℕ) → key_of i ≡ k → w0.tasks i ≢ missed)
      → Steps key_of w0 w
      → w.connected a ≡ true
      → (find k w.storage ≡ some a)
        × ((i : ℕ) → key_of i ≡ k → (w.tasks i ≡ w0.tasks i) ⊎ (w.tasks i ≡ got a))
  Steps-shared k a w0 w stored none_missed steps c = Steps-Shared k a w0 none_missed steps c stored

  -- Two tasks that look for the same queue and id while no running actor is stored for them can both
  -- miss it, and then each has an actor that it started itself, with no actor's end in between, and
  -- only the second one's is stored.
  pub Steps-race :
      (w : World Addr) (i j : ℕ) (a b : Addr)
      → (i == j) ≡ false
      → key_of i ≡ key_of j
      → w.tasks i ≡ asking
      → w.tasks j ≡ asking
      → filter w.connected (find (key_of i) w.storage) ≡ none
      → (w' : World Addr) × Steps key_of w w'
        × (w'.tasks i ≡ got a)
        × (w'.tasks j ≡ got b)
        × (find (key_of i) w'.storage ≡ some b)
        × (w'.connected ≡ w.connected)
  Steps-race w i j a b apart e asked_i asked_j free =
      let w1 = record w { tasks = set_task i missed w.tasks } in
      let w2 = record w1 { tasks = set_task j missed w1.tasks } in
      let w3 = record w2 {
        storage = insert (key_of i) a w2.storage;
        tasks = set_task i (got a) w2.tasks;
      } in
      let w4 = record w3 {
        storage = insert (key_of j) b w3.storage;
        tasks = set_task j (got b) w3.tasks;
      } in
      (
        w4,
        next
            (next
              (next (next here (misses w i asked_i free))
                (misses w1 j (ground (arith, apart, asked_j)) (rw (← e) free)))
              (stores w2 i a (ground (arith, apart))))
            (stores w3 j b (ground (arith, apart))),
        ground (arith, apart),
        ground (arith, apart),
        ap (λ k. find k w4.storage) e ∙ find-insert_same (key_of j) b w3.storage,
        refl,
      )
