-- ===== src/Config/Env.antt =====
-- The configuration from the environment (sonya-meta/src/config.rs). A `usize` has 64 bits.
use web_queue.Common.{
  ℕ, Bytes, codes, same, List, [], ◌∷◌, Bool, true, false, not, keep, ◌==◌, Option, none, some,
  Result, ok, err, if◌then◌else◌, unwrap_or, ◌>>?◌,
}
use web_queue.Common.Decimal.{parse_u64}
use web_queue.Api.{Secure}
use web_queue.Queue.Methods.{QueueOptions}
use web_queue.Proxy.Shards.{WebSocketConfig}
use web_queue.Config.{
  Config, Tls, GarbageCollector, ServiceDiscovery, api, etcd, ServiceDiscoveryInstanceOptions,
  default_jwt_token_expiration, default_websocket, default_garbage_collector, default_sd_prefix,
}

-- A variable of the environment: set to a text, not set, or set to bytes that are no text.
pub data Var : Type 0 where
  present : Bytes → Var
  not_present : Var
  not_unicode : Bytes → Var

abbrev pub Environment : Type 0
Environment = Bytes → Var

-- An error that is returned, `VarError::NotUnicode`, or a panic with its message.
pub data Failure : Type 0 where
  var_error : Bytes → Failure
  panic : Bytes → Failure

abbrev pub Load : Type 0 → Type 0
Load A = Result Failure A

abbrev pub map_some : {A B : Type 0} → (A → B) → Option A → Option B
map_some f none = none
map_some f (some a) = some (f a)

-- `expect`
abbrev pub expect : {A : Type 0} → Bytes → Option A → Load A
expect message none = err (panic message)
expect message (some a) = ok a

-- `map` with a parser whose failure panics
abbrev pub map_expect : {A : Type 0} → (Bytes → Option A) → Bytes → Option Bytes → Load (Option A)
map_expect parse message none = ok none
map_expect parse message (some s) = expect message (parse s) >>? λ a. ok (some a)

abbrev pub optional : Var → Load (Option Bytes)
optional (present s) = ok (some s)
optional not_present = ok none
optional (not_unicode b) = err (var_error b)

abbrev pub required : Bytes → Var → Load Bytes
required message (present s) = ok s
required message _ = err (panic message)

abbrev pub cons_first : ℕ → List Bytes → List Bytes
cons_first c [] = (c ∷ []) ∷ []
cons_first c (w ∷ ws) = (c ∷ w) ∷ ws

-- `str::split(';')`
unfoldable pub split : Bytes → List Bytes
split [] = [] ∷ []
split (c ∷ cs) = let rest = split cs in if c == b';' then [] ∷ rest else cons_first c rest

unfoldable pub is_empty : Bytes → Bool
is_empty [] = true
is_empty (c ∷ cs) = false

-- the texts between semicolons, without the empty ones
abbrev pub parts : Bytes → List Bytes
parts d = keep (λ s. not (is_empty s)) (split d)

unfoldable pub from_env_optional : Environment → Bytes → Load (Option Bytes)
from_env_optional env env_var = optional (env env_var)

abbrev both : Option Bytes → Option Bytes → Option Tls
both (some p) (some c) = some (record { private_key = p; cert = c })
both _ _ = none

unfoldable pub tls_from_env : Environment → Load (Option Tls)
tls_from_env env = from_env_optional env (codes "TLS_PRIVATE_KEY") >>? λ private_key.
    from_env_optional env (codes "TLS_CERT") >>? λ cert. ok (both private_key cert)

unfoldable pub secure_from_env : Environment → Load (Option Secure)
secure_from_env env = from_env_optional env (codes "SECURE_JWT_EXPIRATION_TIME") >>? λ time.
    map_expect parse_u64 (codes "invalid jwt expiration time") time >>? λ expiration.
    from_env_optional env (codes "SECURE_SERVICE_TOKEN") >>? λ token. ok (
      map_some
        (λ st. record {
          service_token = st;
          jwt_token_expiration = unwrap_or expiration default_jwt_token_expiration;
        })
        token)

unfoldable pub garbage_collector_from_env : Environment → Load GarbageCollector
garbage_collector_from_env env =
    from_env_optional env (codes "GARBAGE_COLLECTOR_INTERVAL") >>? λ text.
    map_expect parse_u64 (codes "invalid garbage interval") text >>? λ interval.
    ok (unwrap_or (map_some (λ i. record { interval = i }) interval) default_garbage_collector)

unfoldable pub websocket_from_env : Environment → Load WebSocketConfig
websocket_from_env env = from_env_optional env (codes "WEBSOCKET_KEY") >>? λ key.
    from_env_optional env (codes "WEBSOCKET_VERSION") >>? λ version. ok (record {
      version = unwrap_or version default_websocket.version;
      key = unwrap_or key default_websocket.key;
    })

unfoldable pub queue_from_env : Environment → Load QueueOptions
queue_from_env env = from_env_optional env (codes "QUEUE_DEFAULT") >>? λ default.
    from_env_optional env (codes "QUEUE_DB_PATH") >>? λ db_path.
    from_env_optional env (codes "QUEUE_MAX_KEY_UPDATES") >>? λ text.
    map_expect parse_u64 (codes "invalid max keys updates value") text >>? λ max_key_updates.
    ok (record {
      default = unwrap_or (map_some parts default) [];
      db_path = db_path;
      max_key_updates = max_key_updates;
    })

unfoldable pub instance_opts_from_env : Environment → Load (Option ServiceDiscoveryInstanceOptions)
instance_opts_from_env env =
    from_env_optional env (codes "SERVICE_DISCOVERY_INSTANCE_ADDR") >>? λ instance_addr.
    from_env_optional env (codes "SERVICE_DISCOVERY_INSTANCE_id") >>? λ instance_id.
    ok (map_some (λ ia. record { instance_id = instance_id; instance_addr = ia }) instance_addr)

unfoldable pub etcd_from_env : Environment → Option (List Bytes) → Load (Option ServiceDiscovery)
etcd_from_env env default =
    required (codes "empty service discovery hosts") (env (codes "SERVICE_DISCOVERY_HOSTS"))
    >>? λ hosts. from_env_optional env (codes "SERVICE_DISCOVERY_PREFIX") >>? λ prefix.
        instance_opts_from_env env >>? λ instance_opts.
        ok (some (etcd default (parts hosts) (unwrap_or prefix default_sd_prefix) instance_opts))

unfoldable pub service_discovery_from_env : Environment → Load (Option ServiceDiscovery)
service_discovery_from_env env = from_env_optional env (codes "SERVICE_DISCOVERY_TYPE") >>? λ type.
    from_env_optional env (codes "SERVICE_DISCOVERY_DEFAULT_SHARDS") >>? λ shards.
    (if same (unwrap_or type (codes "API")) (codes "API")
      then ok (some (api (map_some parts shards)))
      else (if same (unwrap_or type (codes "API")) (codes "ETCD")
          then etcd_from_env env (map_some parts shards)
          else err (panic (codes "Invalid service discovery type"))))

module _ {SocketAddr : Type 0} (parse_addr : Bytes → Option SocketAddr) where
  unfoldable pub from_env : Environment → Load (Config SocketAddr)
  from_env env = from_env_optional env (codes "ADDR") >>? λ text.
      map_expect parse_addr (codes "invalid addr") text >>? λ addr. tls_from_env env >>? λ tls.
      secure_from_env env >>? λ secure. queue_from_env env >>? λ queue.
      service_discovery_from_env env >>? λ service_discovery.
      websocket_from_env env >>? λ websocket.
      garbage_collector_from_env env >>? λ garbage_collector. ok (record {
        addr = addr;
        tls = tls;
        secure = secure;
        queue = queue;
        service_discovery = service_discovery;
        websocket = websocket;
        garbage_collector = garbage_collector;
      })
