-- ===== src/Config/Written.antt =====
-- An environment written for a configuration, and what is read from it (sonya-meta/src/config.rs).
use web_queue.Common.{Bytes, codes, List, [], ◌∷◌, Option, none, some, unwrap_or}
use web_queue.Common.Map
use web_queue.Common.Decimal.{u64_to_string}
use web_queue.Api.{Secure}
use web_queue.Config.{Config, Tls, ServiceDiscovery, api, etcd, ServiceDiscoveryInstanceOptions}
use web_queue.Config.Env.{Var, present, not_present, Environment, map_some}
use web_queue.Config.Parts.{join}

abbrev pub var_of : Option Bytes → Var
var_of none = not_present
var_of (some s) = present s

-- What the service discovery writes.
abbrev pub type_of : ServiceDiscovery → Bytes
type_of (api default) = codes "API"
type_of (etcd default hosts prefix opts) = codes "ETCD"

abbrev pub default_of : ServiceDiscovery → Option (List Bytes)
default_of (api default) = default
default_of (etcd default hosts prefix opts) = default

abbrev pub hosts_of : ServiceDiscovery → Option Bytes
hosts_of (api default) = none
hosts_of (etcd default hosts prefix opts) = some (join hosts)

abbrev pub prefix_of : ServiceDiscovery → Option Bytes
prefix_of (api default) = none
prefix_of (etcd default hosts prefix opts) = some prefix

abbrev pub opts_of : ServiceDiscovery → Option ServiceDiscoveryInstanceOptions
opts_of (api default) = none
opts_of (etcd default hosts prefix opts) = opts

abbrev pub opt_then : {A B : Type 0} → Option A → (A → Option B) → Option B
opt_then none f = none
opt_then (some a) f = f a

module _ {SocketAddr : Type 0} (show_addr : SocketAddr → Bytes) where
  -- The variables by their names.
  abbrev pub variables : Config SocketAddr → Map.Map (Option Bytes)
  variables c =
      (codes "ADDR", map_some show_addr c.addr)
      ∷ (codes "TLS_PRIVATE_KEY", map_some (λ (t : Tls). t.private_key) c.tls)
      ∷ (codes "TLS_CERT", map_some (λ (t : Tls). t.cert) c.tls)
      ∷ (codes "SECURE_SERVICE_TOKEN", map_some (λ (s : Secure). s.service_token) c.secure)
      ∷ (
        codes "SECURE_JWT_EXPIRATION_TIME",
        map_some (λ (s : Secure). u64_to_string s.jwt_token_expiration) c.secure,
      )
      ∷ (codes "QUEUE_DEFAULT", some (join c.queue.default))
      ∷ (codes "QUEUE_DB_PATH", c.queue.db_path)
      ∷ (codes "QUEUE_MAX_KEY_UPDATES", map_some u64_to_string c.queue.max_key_updates)
      ∷ (codes "SERVICE_DISCOVERY_TYPE", map_some type_of c.service_discovery)
      ∷ (
        codes "SERVICE_DISCOVERY_DEFAULT_SHARDS",
        map_some join (opt_then c.service_discovery default_of),
      )
      ∷ (codes "SERVICE_DISCOVERY_HOSTS", opt_then c.service_discovery hosts_of)
      ∷ (codes "SERVICE_DISCOVERY_PREFIX", opt_then c.service_discovery prefix_of)
      ∷ (
        codes "SERVICE_DISCOVERY_INSTANCE_ADDR",
        map_some (λ (o : ServiceDiscoveryInstanceOptions). o.instance_addr)
            (opt_then c.service_discovery opts_of),
      )
      ∷ (
        codes "SERVICE_DISCOVERY_INSTANCE_id",
        opt_then (opt_then c.service_discovery opts_of)
            (λ (o : ServiceDiscoveryInstanceOptions). o.instance_id),
      )
      ∷ (codes "WEBSOCKET_KEY", some c.websocket.key)
      ∷ (codes "WEBSOCKET_VERSION", some c.websocket.version)
      ∷ (codes "GARBAGE_COLLECTOR_INTERVAL", some (u64_to_string c.garbage_collector.interval))
      ∷ []

  unfoldable pub environment : Config SocketAddr → Environment
  environment c name = var_of (unwrap_or (Map.get name (variables c)) none)
