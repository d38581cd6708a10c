-- ===== src/Server/Registration.antt =====
-- sonya/src/service_discovery/etcd.rs: a shard's registration in etcd. What the server answers
-- (etcd_client) is a list, one entry for each connection that is tried; the calls that the code makes
-- are its log.
pub mod Attempts
use web_queue.Common.{
  ℕ, ◌+◌, ◌%◌, ◌^◌, ◌==◌, Bytes, codes, List, [], ◌∷◌, ◌++◌, Bool, true, false, Result, ok, err,
  if◌then◌else◌,
}
use web_queue.Api.{max_reconnect_attempts, sleep_between_reconnects}

abbrev pub default_ttl : ℕ
default_ttl = 5

-- in seconds
abbrev pub default_sleep : ℕ
default_sleep = 2

pub data Call : Type 0 where
  connect : Call
  lease_grant : ℕ → Call
  put : Bytes → Bytes → ℕ → Call
  lease_keep_alive : ℕ → Call
  sleep : ℕ → Call

-- What the client answers on one connection: the lease's id, whether the address was put, and
-- whether each request to keep the lease alive succeeded.
pub record Session (Error : Type 0) : Type 0 where
  pub lease_granted : Result Error ℕ
  pub put_answer : Result Error (Unit {0})
  pub keep_alives : List (Result Error (Unit {0}))

-- Where the code stands after the answers: still waiting for the next one, or returned.
pub data Progress : Type 0 where
  running : Progress
  returned : Progress

abbrev pub after : List Call → List Call × Progress → List Call × Progress
after calls (more, p) = (calls ++ more, p)

-- `attempts += 1` on a `u8`
abbrev pub one_more : ℕ → ℕ
one_more attempts = (attempts + 1) % 2 ^ 8

-- After `register_instance_impl`: where it is still running, so is the loop around it.
unfoldable pub next_round : List Call × Progress → List Call × Progress → List Call × Progress
next_round (calls, running) rest = (calls, running)
next_round (calls, returned) (more, p) = (calls ++ sleep (sleep_between_reconnects 0) ∷ more, p)

-- `format!("{}/{}", prefix, instance_id)`
abbrev pub instance_key : Bytes → Bytes → Bytes
instance_key prefix instance_id = prefix ++ (codes "/" ++ instance_id)

module _ {Error : Type 0} where
  -- the loop of `register_instance_impl`
  unfoldable pub keep_alive : ℕ → List (Result Error (Unit {0})) → List Call × Progress
  keep_alive id [] = ([], running)
  keep_alive id (err e ∷ rest) = (lease_keep_alive id ∷ [], returned)
  keep_alive id (ok x ∷ rest) =
      after (lease_keep_alive id ∷ sleep default_sleep ∷ []) (keep_alive id rest)

  unfoldable pub put_instance :
      Bytes
      → Bytes
      → ℕ
      → Result Error (Unit {0})
      → List (Result Error (Unit {0}))
      → List Call × Progress
  put_instance key value id (err e) rest = (put key value id ∷ [], returned)
  put_instance key value id (ok x) rest = after (put key value id ∷ []) (keep_alive id rest)

  unfoldable pub register_instance_impl : Bytes → Bytes → Session Error → List Call × Progress
  register_instance_impl key value s = elim s.lease_granted [
    | err e ↦ (lease_grant default_ttl ∷ [], returned)
    | ok id ↦
        after (lease_grant default_ttl ∷ []) (put_instance key value id s.put_answer s.keep_alives)
  ]

  -- The loop of `register_instance`; no answer is left where `connect` still waits.
  unfoldable pub register_loop :
      Bytes → Bytes → ℕ → List (Result Error (Session Error)) → List Call × Progress
  register_loop key value attempts [] =
      if attempts == max_reconnect_attempts then ([], returned) else (connect ∷ [], running)
  register_loop key value attempts (err e ∷ rest) =
      let more = register_loop key value (one_more attempts) rest in
      if attempts == max_reconnect_attempts
      then ([], returned)
      else after (connect ∷ sleep (sleep_between_reconnects (one_more attempts)) ∷ []) more
  register_loop key value attempts (ok session ∷ rest) =
      let more = register_loop key value 0 rest in
      if attempts == max_reconnect_attempts
      then ([], returned)
      else after (connect ∷ []) (next_round (register_instance_impl key value session) more)

  unfoldable pub register_instance :
      Bytes → Bytes → Bytes → List (Result Error (Session Error)) → List Call × Progress
  register_instance prefix instance_id instance_addr =
      register_loop (instance_key prefix instance_id) instance_addr 0
