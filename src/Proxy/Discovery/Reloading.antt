-- ===== src/Proxy/Discovery/Reloading.antt =====
-- The streams of sonya-proxy/src/service_discovery/mod.rs that end when there is a new list of shards.
use web_queue.Common.{
  ℕ, List, [], ◌∷◌, ◌++◌, ◌≡◌, refl, sym, ap, ◌∙◌, Bool, true, false, ◌||◌, Option, none, some,
  Result, ok, err, if◌then◌else◌, arith, Bool-cases, inl, inr,
}
use web_queue.Proxy.Discovery.{
  ServiceDiscoveryActor, ServiceDiscoveryUpdateSubscribeFuture, Poll, ready, pending, poll,
  subscribe,
}
use web_queue.Proxy.Discovery.Updates.{
  Event, updated, ended, polled, step, run, has_update, IsOpen, state_at, fired_by,
}

pub record ServiceDiscoveryReloadingStream (S : Type 0) : Type 0 where
  pub stream : S
  pub receiver : ServiceDiscoveryUpdateSubscribeFuture

-- `reloading_stream_factory`, at the answer of the actor, or the error of its mailbox
unfoldable pub reloading_stream_factory :
    {S MailboxError : Type 0}
    → S
    → Result MailboxError ServiceDiscoveryUpdateSubscribeFuture
    → Option (ServiceDiscoveryReloadingStream S)
reloading_stream_factory stream (ok s) = some (record { stream = stream; receiver = s })
reloading_stream_factory stream (err e) = none

module _ {S O RegistryList : Type 0} (poll_inner : S → Poll (Option O) × S) (waker : ℕ) where
  abbrev polled_inner :
      ServiceDiscoveryReloadingStream S
      → Poll (Unit {0}) × ServiceDiscoveryUpdateSubscribeFuture × ServiceDiscoveryActor RegistryList
      → Poll (Option O) × ServiceDiscoveryReloadingStream S × ServiceDiscoveryActor RegistryList
  polled_inner this (ready x, f, a) = (ready none, record this { receiver = f }, a)
  polled_inner this (pending, f, a) =
      let (o, s) = poll_inner this.stream in (o, record { stream = s; receiver = f }, a)

  -- `ServiceDiscoveryReloadingStream::poll_next`
  unfoldable pub poll_next :
      ServiceDiscoveryReloadingStream S
      → ServiceDiscoveryActor RegistryList
      → Poll (Option O) × ServiceDiscoveryReloadingStream S × ServiceDiscoveryActor RegistryList
  poll_next this a = polled_inner this (poll waker this.receiver a)

  -- The answers to polls, each after what the actor goes through before it.
  unfoldable pub follow :
      List (List (Event RegistryList))
      → ServiceDiscoveryReloadingStream S
      → ServiceDiscoveryActor RegistryList
      → List (Poll (Option O))
  follow [] this a = []
  follow (es ∷ rest) this a =
      let (o, this', a') = poll_next this (run es a) in o ∷ follow rest this' a'

  -- What they should be: those of the stream inside, and the end from the first update on.
  unfoldable pub expected : List (List (Event RegistryList)) → Bool → S → List (Poll (Option O))
  expected [] news s = []
  expected (es ∷ rest) news s =
      let (o, s') = poll_inner s in
      let over = expected rest true s in
      let on = expected rest false s' in if news || has_update es then ready none ∷ over else o ∷ on

run-append :
    {RegistryList : Type 0} (xs ys : List (Event RegistryList))
    (a : ServiceDiscoveryActor RegistryList)
    → run (xs ++ ys) a ≡ run ys (run xs a)
unfolding run
run-append [] ys a = refl
run-append (x ∷ xs) ys a = run-append xs ys (step x a)

has_update-append :
    {RegistryList : Type 0} (xs ys : List (Event RegistryList))
    → has_update (xs ++ ys) ≡ has_update xs || has_update ys
unfolding has_update
has_update-append [] ys = refl
has_update-append (updated r ∷ xs) ys = refl
has_update-append (ended ∷ xs) ys = has_update-append xs ys
has_update-append (polled k f ∷ xs) ys = has_update-append xs ys

poll_answer :
    {RegistryList : Type 0} (waker : ℕ) (f : ServiceDiscoveryUpdateSubscribeFuture)
    (a : ServiceDiscoveryActor RegistryList)
    → (poll waker f a).0 ≡ (if state_at f.place a then ready tt else pending)
unfolding poll state_at
poll_answer waker f a = ground arith

module _ {RegistryList : Type 0} (waker : ℕ) (first : ServiceDiscoveryActor RegistryList)
    (open_one : IsOpen first) where
  -- A poll after all that the actor went through.
  poll_at :
      (f : ServiceDiscoveryUpdateSubscribeFuture) (es : List (Event RegistryList))
      → f.place ≡ first.broadcaster
      → poll waker f (run es first) ≡ (
        if has_update es then ready tt else pending,
        record f { registered = true },
        run (es ++ polled waker f ∷ []) first,
      )
  unfolding poll
  poll_at f es e = λ t. (answer t, record f { registered = true }, after t)
    where
      answer : (poll waker f (run es first)).0 ≡ (if has_update es then ready tt else pending)
      answer =
          poll_answer waker f (run es first)
          ∙ ap (λ b. if b then ready tt else pending)
              (ap (λ i. state_at i (run es first)) e
                ∙ (fired_by es first first.broadcaster open_one refl).0)

      after : (poll waker f (run es first)).2 ≡ run (es ++ polled waker f ∷ []) first
      after = sym (run-append es (polled waker f ∷ []) first ∙ unfold run step in refl)

  module _ {S O : Type 0} (poll_inner : S → Poll (Option O) × S) where
    next_poll :
        (before es : List (Event RegistryList)) (this : ServiceDiscoveryReloadingStream S)
        → this.receiver.place ≡ first.broadcaster
        → poll_next poll_inner waker this (run es (run before first))
          ≡ polled_inner poll_inner waker this (
            if has_update before || has_update es then ready tt else pending,
            record this.receiver { registered = true },
            run ((before ++ es) ++ polled waker this.receiver ∷ []) first,
          )
    unfolding poll_next
    next_poll before es this e =
        ap (λ a. polled_inner poll_inner waker this (poll waker this.receiver a))
          (sym (run-append before es first))
        ∙ ap (polled_inner poll_inner waker this) (poll_at this.receiver (before ++ es) e)
        ∙ ap
            (λ b. polled_inner poll_inner waker this (
              if b then ready tt else pending,
              record this.receiver { registered = true },
              run ((before ++ es) ++ polled waker this.receiver ∷ []) first,
            ))
            (has_update-append before es)

    still :
        (before es : List (Event RegistryList)) (f : ServiceDiscoveryUpdateSubscribeFuture)
        → has_update ((before ++ es) ++ polled waker f ∷ []) ≡ has_update before || has_update es
    still before es f =
        has_update-append (before ++ es) (polled waker f ∷ [])
        ∙ ap (λ b. b || has_update {RegistryList = RegistryList} (polled waker f ∷ []))
            (has_update-append before es)
        ∙ unfold has_update in ground arith

    follow_from :
        (rest : List (List (Event RegistryList))) (before : List (Event RegistryList))
        (this : ServiceDiscoveryReloadingStream S)
        → this.receiver.place ≡ first.broadcaster
        → follow poll_inner waker rest this (run before first)
          ≡ expected poll_inner waker rest (has_update before) this.stream
    unfolding follow expected
    follow_from [] before this e = refl
    follow_from (es ∷ rest) before this e =
        let later = (before ++ es) ++ polled waker this.receiver ∷ [] in
        let f = record this.receiver { registered = true } in
        elim (Bool-cases (has_update before || has_update es)) [
          | inl news ↦
              let ih = follow_from rest later (record this { receiver = f }) e in
              rw (next_poll before es this e, news)
                (ap (◌∷◌ (ready none)) (
                  ih
                  ∙ ap (λ b. expected poll_inner waker rest b this.stream)
                      (still before es this.receiver ∙ news)))
          | inr none_yet ↦
              let ih =
                follow_from rest later
                  (record { stream = (poll_inner this.stream).1; receiver = f }) e in
              rw (next_poll before es this e, none_yet)
                (ap (◌∷◌ (poll_inner this.stream).0) (
                  ih
                  ∙ ap (λ b. expected poll_inner waker rest b (poll_inner this.stream).1)
                      (still before es this.receiver ∙ none_yet)))
        ]

    -- A stream that was made to reload, when the actor's broadcaster was open, yields what the stream
    -- inside it does as long as there is no new list of shards, and from the first poll after a new
    -- list on it is at its end, and the stream inside is not polled again; whatever else the actor
    -- goes through before and between the polls.
    pub follow-expected :
        (MailboxError : Type 0) (s : S) (polls : List (List (Event RegistryList)))
        → (this : ServiceDiscoveryReloadingStream S) × (reloading_stream_factory
              {MailboxError = MailboxError} s
              (ok (subscribe first))
            ≡ some this)
          × (follow poll_inner waker polls this first ≡ expected poll_inner waker polls false s)
    unfolding reloading_stream_factory
    follow-expected MailboxError s polls =
        let this : ServiceDiscoveryReloadingStream S = record {
          stream = s;
          receiver = subscribe first;
        } in
        (this, refl, unfold run has_update in follow_from polls [] this (unfold subscribe in refl))
