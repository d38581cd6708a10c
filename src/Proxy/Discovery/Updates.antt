-- ===== src/Proxy/Discovery/Updates.antt =====
-- Which subscriptions an update of the shards ends, and which tasks it wakes.
use web_queue.Common.{
  ℕ, ◌<◌, List, [], ◌∷◌, ◌++◌, ◌≡◌, refl, Bool, true, false, ◌==◌, ◌||◌, if◌then◌else◌, arith, ap,
  sym, ◌∙◌, Bool-cases, inl, inr,
}
use web_queue.Proxy.Discovery.{
  ServiceDiscoveryActor, ServiceDiscoveryUpdateSubscribeFuture, new, update, started, finished,
  subscribe, registering, poll_during, poll, ready, pending,
}

unfoldable pub elem : ℕ → List ℕ → Bool
elem k [] = false
elem k (x ∷ xs) = k == x || elem k xs

elem-append : (k : ℕ) (xs ys : List ℕ) → elem k (xs ++ ys) ≡ elem k xs || elem k ys
unfolding elem
elem-append k [] ys = refl
elem-append k (x ∷ xs) ys = ground (arith, elem-append k xs ys)

module _ (RegistryList : Type 0) where
  -- What the actor goes through: a new list, the end of the stream of lists, a task that polls one of
  -- the subscriptions.
  pub data Event : Type 0 where
    updated : RegistryList → Event
    ended : Event
    polled : ℕ → ServiceDiscoveryUpdateSubscribeFuture → Event

module _ {RegistryList : Type 0} where
  unfoldable pub step :
      Event RegistryList → ServiceDiscoveryActor RegistryList → ServiceDiscoveryActor RegistryList
  step (updated r) a = update r a
  step ended a = finished a
  step (polled waker f) a = let (answer, f', a') = poll waker f a in a'

  unfoldable pub run :
      List (Event RegistryList)
      → ServiceDiscoveryActor RegistryList
      → ServiceDiscoveryActor RegistryList
  run [] a = a
  run (e ∷ es) a = run es (step e a)

  unfoldable pub has_update : List (Event RegistryList) → Bool
  has_update [] = false
  has_update (updated r ∷ es) = true
  has_update (e ∷ es) = has_update es

  -- The actor's broadcaster is allocated and has not been fired.
  pub record IsOpen (a : ServiceDiscoveryActor RegistryList) : Type 0 where
    pub allocated : a.broadcaster < a.next
    pub waiting : (a.broadcasts a.broadcaster).state ≡ false

  pub new-IsOpen : IsOpen new
  new-IsOpen = record { allocated = omega arith; waiting = refl }

  pub step-IsOpen :
      (e : Event RegistryList) (a : ServiceDiscoveryActor RegistryList)
      → IsOpen a
      → IsOpen (step e a)
  unfolding step update finished started poll
  step-IsOpen (updated r) a h = record {
    allocated = omega arith;
    waiting = ground (arith, h.allocated);
  }
  step-IsOpen ended a h = record {
    allocated = ground (arith, h.allocated);
    waiting = ground (arith, h.waiting);
  }
  step-IsOpen (polled k f) a h = record {
    allocated = ground (arith, h.allocated);
    waiting = ground (arith, h.waiting);
  }

  unfoldable pub state_at : ℕ → ServiceDiscoveryActor RegistryList → Bool
  state_at i a = (a.broadcasts i).state

  -- A fired broadcaster stays fired.
  step-fired :
      (e : Event RegistryList) (a : ServiceDiscoveryActor RegistryList) (i : ℕ)
      → i < a.next
      → state_at i a ≡ true
      → (i < (step e a).next) × (state_at i (step e a) ≡ true)
  unfolding step update finished started poll state_at
  step-fired (updated r) a i h s = ground arith
  step-fired ended a i h s = ground arith
  step-fired (polled k f) a i h s = ground arith

  run-fired :
      (es : List (Event RegistryList)) (a : ServiceDiscoveryActor RegistryList) (i : ℕ)
      → i < a.next
      → state_at i a ≡ true
      → state_at i (run es a) ≡ true
  unfolding run
  run-fired [] a i h s = s
  run-fired (e ∷ es) a i h s =
      let (h', s') = step-fired e a i h s in run-fired es (step e a) i h' s'

  pub fired_by :
      (es : List (Event RegistryList)) (a : ServiceDiscoveryActor RegistryList) (i : ℕ)
      → IsOpen a
      → a.broadcaster ≡ i
      → (state_at i (run es a) ≡ has_update es)
        × (has_update es ≡ false → (run es a).broadcaster ≡ i)
  unfolding run has_update state_at
  fired_by [] a i h e = (ground (arith, h.waiting), λ _. e)
  fired_by (updated r ∷ es) a i h e = (
    run-fired es (step (updated r) a) i (unfold step update in ground (arith, h.allocated))
        (unfold step update in ground arith),
    λ n. ground arith,
  )
  fired_by (ended ∷ es) a i h e =
      fired_by es (step ended a) i (step-IsOpen ended a h)
        (unfold step finished started in ground arith)
  fired_by (polled k f ∷ es) a i h e =
      fired_by es (step (polled k f) a) i (step-IsOpen (polled k f) a h)
        (unfold step poll in ground arith)

  -- A subscription made while the actor's broadcaster was open answers that it is ready exactly
  -- when the list of shards was updated since, whatever else the actor went through meanwhile.
  pub subscribe-ready :
      (a : ServiceDiscoveryActor RegistryList) (es : List (Event RegistryList)) (waker : ℕ)
      → IsOpen a
      → (poll waker (subscribe a) (run es a)).0 ≡ (if has_update es then ready tt else pending)
  unfolding poll subscribe state_at
  subscribe-ready a es waker h = ground (arith, (fired_by es a a.broadcaster h refl).0)

  step-woken :
      (e : Event RegistryList) (a : ServiceDiscoveryActor RegistryList) (k : ℕ)
      → elem k a.woken ≡ true
      → elem k (step e a).woken ≡ true
  unfolding step update finished started poll
  step-woken (updated r) a k h =
      ground (arith, elem-append k (a.broadcasts a.broadcaster).waiters a.woken)
  step-woken ended a k h = ground arith
  step-woken (polled j f) a k h = ground arith

  run-woken :
      (es : List (Event RegistryList)) (a : ServiceDiscoveryActor RegistryList) (k : ℕ)
      → elem k a.woken ≡ true
      → elem k (run es a).woken ≡ true
  unfolding run
  run-woken [] a k h = h
  run-woken (e ∷ es) a k h = run-woken es (step e a) k (step-woken e a k h)

  -- A registered waker is woken by the next update.
  registered-woken :
      (es : List (Event RegistryList)) (a : ServiceDiscoveryActor RegistryList) (k : ℕ)
      → elem k (a.broadcasts a.broadcaster).waiters ≡ true
      → has_update es ≡ true
      → elem k (run es a).woken ≡ true
  unfolding run has_update
  registered-woken [] a k h u = ground arith
  registered-woken (updated r ∷ es) a k h u = run-woken es (step (updated r) a) k (
      unfold step update in
      ground (arith, elem-append k (a.broadcasts a.broadcaster).waiters a.woken))
  registered-woken (ended ∷ es) a k h u =
      registered-woken es (step ended a) k (unfold step finished started in ground arith) u
  registered-woken (polled j f ∷ es) a k h u =
      registered-woken es (step (polled j f) a) k (unfold step poll elem in ground arith) u

  pub run-IsOpen :
      (es : List (Event RegistryList)) (a : ServiceDiscoveryActor RegistryList)
      → IsOpen a
      → IsOpen (run es a)
  unfolding run
  run-IsOpen [] a h = h
  run-IsOpen (e ∷ es) a h = run-IsOpen es (step e a) (step-IsOpen e a h)

  run-append :
      (es fs : List (Event RegistryList)) (a : ServiceDiscoveryActor RegistryList)
      → run (es ++ fs) a ≡ run fs (run es a)
  unfolding run
  run-append [] fs a = refl
  run-append (e ∷ es) fs a = run-append es fs (step e a)

  has_update-append :
      (es fs : List (Event RegistryList)) → has_update (es ++ fs) ≡ has_update es || has_update fs
  unfolding has_update
  has_update-append [] fs = refl
  has_update-append (updated r ∷ es) fs = refl
  has_update-append (ended ∷ es) fs = has_update-append es fs
  has_update-append (polled k f ∷ es) fs = has_update-append es fs

  module _ (a : ServiceDiscoveryActor RegistryList) (waker : ℕ) (open_one : IsOpen a) where
    -- the actor between the two halves of the first poll
    abbrev stored : List (Event RegistryList) → ServiceDiscoveryActor RegistryList
    stored before = registering waker (subscribe a) (run before a)

    same_run :
        (before between : List (Event RegistryList))
        → run between (stored before) ≡ run (before ++ polled waker (subscribe a) ∷ between) a
    unfolding run step poll poll_during
    same_run before between = sym (run-append before (polled waker (subscribe a) ∷ between) a)

    stored-fired :
        (before between : List (Event RegistryList))
        → has_update before ≡ true
        → state_at a.broadcaster (run between (stored before)) ≡ true
    stored-fired before between u =
        let f = subscribe a in
        let es = before ++ polled waker f ∷ between in
        ap (state_at a.broadcaster) (same_run before between)
        ∙ (fired_by es a a.broadcaster open_one refl).0
        ∙ has_update-append before (polled waker f ∷ between)
        ∙ ap (λ b. b || has_update (polled waker f ∷ between)) u

    -- No wakeup is lost: a task that polled a fresh subscription, made while the actor's broadcaster
    -- was open, and was told to wait is woken by the next update, whatever happened between the
    -- subscription and the poll, between the two halves of the poll, which stores the task's waker and
    -- then loads the state, or between the poll and the update.
    pub poll-wakes :
        (before between after : List (Event RegistryList))
        → (poll_during (run between) waker (subscribe a) (run before a)).0 ≡ pending
        → has_update after ≡ true
        → elem waker
            (run after (poll_during (run between) waker (subscribe a) (run before a)).2).woken
          ≡ true
    unfolding poll_during
    poll-wakes before between after p u = rw (← run-append between after (stored before)) (
        registered-woken (between ++ after) (stored before) waker registered
          (has_update-append between after ∙ ground (arith, u)))
      where
        late : state_at a.broadcaster (run between (stored before)) ≡ true → ⊥
        late fired = unfold state_at subscribe in ground (arith, fired, p)

        missed : has_update before ≡ false
        missed = elim (Bool-cases (has_update before)) [
          | inl e ↦ absurd (late (stored-fired before between e))
          | inr e ↦ e
        ]

        current : (run before a).broadcaster ≡ a.broadcaster
        current = (fired_by before a a.broadcaster open_one refl).1 missed

        registered :
            elem waker ((stored before).broadcasts (stored before).broadcaster).waiters ≡ true
        registered = unfold subscribe elem in ground (arith, current)
