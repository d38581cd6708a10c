-- ===== src/Config/Acceptance.antt =====
-- Which environments a configuration is read from (sonya-meta/src/config.rs), and what of that a `?`
-- keeps.
use web_queue.Common.{
  Bytes, codes, same, Bool, true, false, ◌&&◌, Option, none, some, is_some, Result, ok, err, ◌≡◌,
  refl, unwrap_or, if◌then◌else◌, ◌>>?◌,
}
use web_queue.Common.Decimal.{parse_u64}
use web_queue.Config.Env.{
  Var, present, not_present, not_unicode, Environment, Failure, Load, optional, expect, map_expect,
  from_env_optional,
}

abbrev pub is_ok : {E A : Type 0} → Result E A → Bool
is_ok (ok a) = true
is_ok (err e) = false

-- A variable that is a text or is not set.
abbrev pub is_readable : Var → Bool
is_readable (not_unicode b) = false
is_readable _ = true

abbrev pub is_present : Var → Bool
is_present (present s) = true
is_present _ = false

-- A variable that, where it is set, is a text that the parser takes.
abbrev pub parses : {A : Type 0} → (Bytes → Option A) → Var → Bool
parses parse (present s) = is_some (parse s)
parses parse not_present = true
parses parse (not_unicode b) = false

-- The type of the service discovery, where it is a text.
abbrev pub type_of : Var → Bytes
type_of (present s) = s
type_of _ = codes "API"

module _ (env : Environment) where
  abbrev pub tls_accepted : Bool
  tls_accepted = is_readable (env (codes "TLS_PRIVATE_KEY")) && is_readable (env (codes "TLS_CERT"))

  abbrev pub secure_accepted : Bool
  secure_accepted =
      parses parse_u64 (env (codes "SECURE_JWT_EXPIRATION_TIME"))
      && is_readable (env (codes "SECURE_SERVICE_TOKEN"))

  abbrev pub queue_accepted : Bool
  queue_accepted =
      is_readable (env (codes "QUEUE_DEFAULT"))
      && (is_readable (env (codes "QUEUE_DB_PATH"))
          && parses parse_u64 (env (codes "QUEUE_MAX_KEY_UPDATES")))

  abbrev pub websocket_accepted : Bool
  websocket_accepted =
      is_readable (env (codes "WEBSOCKET_KEY")) && is_readable (env (codes "WEBSOCKET_VERSION"))

  abbrev pub etcd_accepted : Bool
  etcd_accepted =
      is_present (env (codes "SERVICE_DISCOVERY_HOSTS"))
      && (is_readable (env (codes "SERVICE_DISCOVERY_PREFIX"))
          && (is_readable (env (codes "SERVICE_DISCOVERY_INSTANCE_ADDR"))
              && is_readable (env (codes "SERVICE_DISCOVERY_INSTANCE_id"))))

  abbrev pub typed_accepted : Bytes → Bool
  typed_accepted type =
      if same type (codes "API")
      then true
      else (if same type (codes "ETCD") then etcd_accepted else false)

  abbrev pub discovery_accepted : Bool
  discovery_accepted =
      is_readable (env (codes "SERVICE_DISCOVERY_TYPE"))
      && (is_readable (env (codes "SERVICE_DISCOVERY_DEFAULT_SHARDS"))
          && typed_accepted (type_of (env (codes "SERVICE_DISCOVERY_TYPE"))))

  -- The environments that `from_env` takes.
  unfoldable pub accepted : {SocketAddr : Type 0} → (Bytes → Option SocketAddr) → Bool
  accepted parse_addr =
      parses parse_addr (env (codes "ADDR"))
      && (tls_accepted
          && (secure_accepted
              && (queue_accepted
                  && (discovery_accepted
                      && (websocket_accepted
                          && parses parse_u64 (env (codes "GARBAGE_COLLECTOR_INTERVAL")))))))

pub readable_bind :
    {B : Type 0} (env : Environment) (v : Bytes) (f : Option Bytes → Load B) (b : Bool)
    → ((o : Option Bytes) → is_ok (f o) ≡ b)
    → is_ok (from_env_optional env v >>? f) ≡ is_readable (env v) && b
unfolding from_env_optional
readable_bind env v f b h = at (env v)
  where
    at : (x : Var) → is_ok (optional x >>? f) ≡ is_readable x && b
    at (present s) = h (some s)
    at not_present = h none
    at (not_unicode c) = refl

-- A variable with the default "API", on which what follows depends.
pub typed_bind :
    {B : Type 0} (env : Environment) (v : Bytes) (f : Option Bytes → Load B) (g : Bytes → Bool)
    → ((o : Option Bytes) → is_ok (f o) ≡ g (unwrap_or o (codes "API")))
    → is_ok (from_env_optional env v >>? f) ≡ is_readable (env v) && g (type_of (env v))
unfolding from_env_optional
typed_bind env v f g h = at (env v)
  where
    at : (x : Var) → is_ok (optional x >>? f) ≡ is_readable x && g (type_of x)
    at (present s) = h (some s)
    at not_present = h none
    at (not_unicode c) = refl

pub chosen_ok :
    {A : Type 0} (c d : Bool) (a : A) (r : Load A) (e : Failure)
    → is_ok (if c then ok a else (if d then r else err e))
      ≡ (if c then true else (if d then is_ok r else false))
chosen_ok true d a r e = refl
chosen_ok false true a r e = refl
chosen_ok false false a r e = refl

module _ {A B : Type 0} where
  -- A `?` before something that succeeds or not whatever the value is.
  pub is_ok-bind :
      {E : Type 0} (r : Result E A) (f : A → Result E B) (c b : Bool)
      → is_ok r ≡ c
      → ((a : A) → is_ok (f a) ≡ b)
      → is_ok (r >>? f) ≡ c && b
  is_ok-bind (ok a) f c b e h = rw (← e) (h a)
  is_ok-bind (err x) f c b e h = rw (← e) refl

  pub parsed_bind :
      (env : Environment) (v : Bytes) (parse : Bytes → Option A) (message : Bytes)
      (f : Option A → Load B) (b : Bool)
      → ((o : Option A) → is_ok (f o) ≡ b)
      → is_ok (from_env_optional env v >>? λ t. map_expect parse message t >>? f)
        ≡ parses parse (env v) && b
  unfolding from_env_optional
  parsed_bind env v parse message f b h = at (env v)
    where
      of_text :
          (o : Option A) → is_ok ((expect message o >>? λ a. ok (some a)) >>? f) ≡ is_some o && b
      of_text none = refl
      of_text (some a) = h (some a)

      at :
          (x : Var)
          → is_ok (optional x >>? λ t. map_expect parse message t >>? f) ≡ parses parse x && b
      at (present s) = of_text (parse s)
      at not_present = h none
      at (not_unicode c) = refl
