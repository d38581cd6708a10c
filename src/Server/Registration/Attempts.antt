-- ===== src/Server/Registration/Attempts.antt =====
-- When the registration of a shard gives up (sonya/src/service_discovery/etcd.rs).
use web_queue.Common.{
  ℕ, ◌+◌, ◌≤◌, ◌==◌, List, [], ◌∷◌, ◌++◌, Bool, true, false, Result, ok, err, ◌≡◌, ◌↔◌, refl, ap,
  sym, ◌∙◌, arith, if◌then◌else◌, length, Bytes, Bool-cases, inl, inr, ◌⊎◌,
}
use web_queue.Server.Registration.{
  Session, Call, Progress, running, returned, keep_alive, put_instance, register_instance_impl,
  next_round, register_loop, register_instance, instance_key, one_more,
}

abbrev returns : Progress → Bool
returns running = false
returns returned = true

next_round-returns :
    (r more : List Call × Progress)
    → returns (next_round r more).1 ≡ (if returns r.1 then returns more.1 else false)
unfolding next_round
next_round-returns (calls, running) more = refl
next_round-returns (calls, returned) more = refl

returned_of : (p : Progress) → returns p ≡ true → p ≡ returned
returned_of running h = cc
returned_of returned h = refl

module _ {Error : Type 0} where
  -- Some request to keep the lease alive fails.
  unfoldable pub expires : List (Result Error (Unit {0})) → Bool
  expires [] = false
  expires (err e ∷ rest) = true
  expires (ok x ∷ rest) = expires rest

  -- The session ends: the lease was refused, or the address, or a request to keep the lease alive.
  unfoldable pub ends : Session Error → Bool
  unfolding expires
  ends s = elim s.lease_granted [
    | err e ↦ true
    | ok id ↦ elim s.put_answer [ err e ↦ true | ok x ↦ expires s.keep_alives ]
  ]

  -- Every session among the answers ends.
  abbrev pub AllEnd : List (Result Error (Session Error)) → Type 0
  AllEnd [] = Unit
  AllEnd (err e ∷ rest) = AllEnd rest
  AllEnd (ok s ∷ rest) = (ends s ≡ true) × AllEnd rest

  abbrev pub AllFailed : List (Result Error (Session Error)) → Type 0
  AllFailed [] = Unit
  AllFailed (err e ∷ rest) = AllFailed rest
  AllFailed (ok s ∷ rest) = ⊥

  keep_alive-returns :
      (id : ℕ) (rs : List (Result Error (Unit {0}))) → returns (keep_alive id rs).1 ≡ expires rs
  unfolding keep_alive expires
  keep_alive-returns id [] = refl
  keep_alive-returns id (err e ∷ rs) = refl
  keep_alive-returns id (ok x ∷ rs) = keep_alive-returns id rs

  impl-returns :
      (key value : Bytes) (s : Session Error)
      → returns (register_instance_impl key value s).1 ≡ ends s
  unfolding register_instance_impl put_instance ends
  impl-returns key value s = go s.lease_granted refl s.put_answer refl
    where
      go :
          (l : Result Error ℕ)
          → s.lease_granted ≡ l
          → (p : Result Error (Unit {0})) → s.put_answer ≡ p
          → returns (register_instance_impl key value s).1 ≡ ends s
      go (err e) h p k = rw h refl
      go (ok id) h (err e) k = ground (arith, h, k)
      go (ok id) h (ok x) k = ground (arith, h, k, keep_alive-returns id s.keep_alives)

  -- The loop returns, by the attempts already failed and the answers.
  unfoldable gives_up : ℕ → List (Result Error (Session Error)) → Bool
  gives_up attempts [] = attempts == 10
  gives_up attempts (err e ∷ rest) =
      let more = gives_up (one_more attempts) rest in if attempts == 10 then true else more
  gives_up attempts (ok s ∷ rest) =
      let more = gives_up 0 rest in
      if attempts == 10 then true else (if ends s then more else false)

  register_loop-returns :
      (key value : Bytes) (k : ℕ) (answers : List (Result Error (Session Error)))
      → returns (register_loop key value k answers).1 ≡ gives_up k answers
  unfolding register_loop gives_up
  register_loop-returns key value k [] = ground arith
  register_loop-returns key value k (err e ∷ rest) =
      ground (arith, register_loop-returns key value (one_more k) rest)
  register_loop-returns key value k (ok s ∷ rest) = ground (
    arith,
    register_loop-returns key value 0 rest,
    impl-returns key value s,
    next_round-returns (register_instance_impl key value s) (register_loop key value 0 rest),
  )

  gives_up_ten : (answers : List (Result Error (Session Error))) → gives_up 10 answers ≡ true
  unfolding gives_up
  gives_up_ten [] = refl
  gives_up_ten (err e ∷ rest) = refl
  gives_up_ten (ok s ∷ rest) = refl

  gives_up-fails :
      (k : ℕ) (fails rest : List (Result Error (Session Error)))
      → k ≤ 10
      → AllFailed fails
      → 10 ≤ length fails + k
      → gives_up k (fails ++ rest) ≡ true
  unfolding gives_up
  gives_up-fails k [] rest h f n = rw (the_tenth) (gives_up_ten rest)
    where
      the_tenth : k ≡ 10
      the_tenth = omega arith
  gives_up-fails k (ok s ∷ fails) rest h f n = elim f [ ]
  gives_up-fails k (err e ∷ fails) rest h f n = elim (Bool-cases (k == 10)) [
    | inl ten ↦ ground (arith, ten)
    | inr less ↦
        ground (arith, less, gives_up-fails (one_more k) fails rest (ground arith) f (ground arith))
  ]

  gives_up-before :
      (k : ℕ) (before fails rest : List (Result Error (Session Error)))
      → k ≤ 10
      → AllEnd before
      → AllFailed fails
      → length fails ≡ 10
      → gives_up k (before ++ (fails ++ rest)) ≡ true
  unfolding gives_up
  gives_up-before k [] fails rest h b f n = gives_up-fails k fails rest h f (omega arith)
  gives_up-before k (err e ∷ before) fails rest h b f n = elim (Bool-cases (k == 10)) [
    | inl ten ↦ ground (arith, ten)
    | inr less ↦
        ground (arith, less, gives_up-before (one_more k) before fails rest (ground arith) b f n)
  ]
  gives_up-before k (ok s ∷ before) fails rest h b f n =
      ground (arith, b.0, gives_up-before 0 before fails rest (omega arith) b.1 f n)

  -- Ten failures in a row, with nothing but ended sessions and failures before them; or the rest of
  -- ten failures at the front, where some attempts have failed already.
  abbrev Split : ℕ → List (Result Error (Session Error)) → Type 0
  Split k answers =
      (before : List (Result Error (Session Error))) × (fails : List (Result Error (Session Error)))
      × (rest : List (Result Error (Session Error))) × (answers ≡ before ++ (fails ++ rest))
      × AllEnd before
      × AllFailed fails
      × ((length fails ≡ 10) ⊎ ((before ≡ []) × (length fails + k ≡ 10)))

  Split-fail :
      (k : ℕ) (e : Error) (answers : List (Result Error (Session Error)))
      → k ≤ 9
      → Split (one_more k) answers
      → Split k (err e ∷ answers)
  Split-fail k e answers h (before, fails, rest, eq, b, f, inl n) =
      (err e ∷ before, fails, rest, ap (◌∷◌ (err e)) eq, b, f, inl n)
  Split-fail k e answers h (before, fails, rest, eq, b, f, inr n) = (
    [],
    err e ∷ fails,
    rest,
    ap (◌∷◌ (err e)) (eq ∙ ap (λ t. t ++ (fails ++ rest)) n.0),
    tt,
    f,
    inr (refl, ground arith),
  )

  Split-session :
      (k : ℕ) (s : Session Error) (answers : List (Result Error (Session Error)))
      → ends s ≡ true
      → Split 0 answers
      → Split k (ok s ∷ answers)
  Split-session k s answers h (before, fails, rest, eq, b, f, n) =
      (ok s ∷ before, fails, rest, ap (◌∷◌ (ok s)) eq, (h, b), f, inl (all_ten n))
    where
      all_ten : (length fails ≡ 10) ⊎ ((before ≡ []) × (length fails + 0 ≡ 10)) → length fails ≡ 10
      all_ten (inl m) = m
      all_ten (inr m) = omega (arith, m.1)

  Split-gives_up :
      (k : ℕ) (answers : List (Result Error (Session Error)))
      → k ≤ 10
      → gives_up k answers ≡ true
      → Split k answers
  unfolding gives_up
  Split-gives_up k [] h e = ([], [], [], refl, tt, tt, inr (refl, ground arith))
  Split-gives_up k (err x ∷ rest) h e = elim (Bool-cases (k == 10)) [
    | inl ten ↦ ([], [], err x ∷ rest, refl, tt, tt, inr (refl, ground arith))
    | inr less ↦
        Split-fail k x rest (ground arith)
          (Split-gives_up (one_more k) rest (ground arith) (ground arith))
  ]
  Split-gives_up k (ok s ∷ rest) h e = elim (Bool-cases (k == 10)) [
    | inl ten ↦ ([], [], ok s ∷ rest, refl, tt, tt, inr (refl, ground arith))
    | inr less ↦
        Split-session k s rest (ground arith) (Split-gives_up 0 rest (omega arith) (ground arith))
  ]

  -- After sessions that all ended, and failures, ten failures in a row.
  abbrev pub TenFailures : List (Result Error (Session Error)) → Type 0
  TenFailures answers =
      (before : List (Result Error (Session Error))) × (fails : List (Result Error (Session Error)))
      × (rest : List (Result Error (Session Error))) × (answers ≡ before ++ (fails ++ rest))
      × AllEnd before
      × AllFailed fails
      × (length fails ≡ 10)

  ten_of_Split :
      (answers : List (Result Error (Session Error))) → Split 0 answers → TenFailures answers
  ten_of_Split answers (before, fails, rest, eq, b, f, inl n) = (before, fails, rest, eq, b, f, n)
  ten_of_Split answers (before, fails, rest, eq, b, f, inr n) =
      (before, fails, rest, eq, b, f, omega (arith, n.1))

  gives_up_iff :
      (answers : List (Result Error (Session Error)))
      → (gives_up 0 answers ≡ true) ↔ TenFailures answers
  gives_up_iff answers = (
    λ e. ten_of_Split answers (Split-gives_up 0 answers (omega arith) e),
    λ (before, fails, rest, eq, b, f, n).
        rw eq (gives_up-before 0 before fails rest (omega arith) b f n),
  )

  -- The registration of a shard returns if and only if ten attempts to connect in a row fail, where
  -- every session opened before them ends by an error.
  pub register_instance-returns :
      (prefix instance_id instance_addr : Bytes) (answers : List (Result Error (Session Error)))
      → ((register_instance prefix instance_id instance_addr answers).1 ≡ returned)
        ↔ TenFailures answers
  unfolding register_instance
  register_instance-returns prefix instance_id instance_addr answers =
      let loop = register_loop-returns (instance_key prefix instance_id) instance_addr 0 answers in
      let given = gives_up_iff answers in
      (λ e. given.0 (sym loop ∙ ap returns e), λ t. returned_of _ (loop ∙ given.1 t))
