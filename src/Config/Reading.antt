-- ===== src/Config/Reading.antt =====
-- What is read from an environment that was written for a configuration
-- (sonya-meta/src/config.rs).
use web_queue.Common.{ℕ, ◌<◌, ◌^◌, Bytes, codes, same, List, Option, none, some, ok, ◌≡◌, refl, ap}
use web_queue.Common.Decimal.{parse_u64, u64_to_string, parse_u64-u64_to_string}
use web_queue.Api.{Secure}
use web_queue.Queue.Methods.{QueueOptions}
use web_queue.Proxy.Shards.{WebSocketConfig}
use web_queue.Config.{Tls, GarbageCollector, api, etcd, ServiceDiscoveryInstanceOptions}
use web_queue.Config.Env.{
  present, Environment, map_some, parts, tls_from_env, secure_from_env, garbage_collector_from_env,
  websocket_from_env, queue_from_env, instance_opts_from_env, etcd_from_env,
  service_discovery_from_env, from_env_optional, optional, map_expect,
}
use web_queue.Config.Parts.{AllParts, join, parts-join}
use web_queue.Config.Written.{var_of, opt_then}

pub optional-var_of : (o : Option Bytes) → optional (var_of o) ≡ ok o
optional-var_of none = refl
optional-var_of (some s) = refl

abbrev pub IsU64 : Option ℕ → Type 0
IsU64 none = Unit
IsU64 (some n) = n < 2 ^ 64

read_number :
    (message : Bytes) (o : Option ℕ)
    → IsU64 o
    → map_expect parse_u64 message (map_some u64_to_string o) ≡ ok o
read_number message none b = refl
read_number message (some n) b = rw (parse_u64-u64_to_string n b) refl

abbrev pub AllShards : Option (List Bytes) → Type 0
AllShards none = Unit
AllShards (some ws) = AllParts ws

read_shards : (o : Option (List Bytes)) → AllShards o → map_some parts (map_some join o) ≡ o
read_shards none h = refl
read_shards (some ws) h = ap some (parts-join ws h)

module _ (env : Environment) where
  pub read_tls :
      (t : Option Tls)
      → env (codes "TLS_PRIVATE_KEY") ≡ var_of (map_some (λ (t : Tls). t.private_key) t)
      → env (codes "TLS_CERT") ≡ var_of (map_some (λ (t : Tls). t.cert) t)
      → tls_from_env env ≡ ok t
  unfolding tls_from_env from_env_optional
  read_tls none h k = rw (h, k) refl
  read_tls (some t) h k = rw (h, k) refl

  pub read_secure :
      (s : Option Secure)
      → IsU64 (map_some (λ (s : Secure). s.jwt_token_expiration) s)
      → env (codes "SECURE_SERVICE_TOKEN") ≡ var_of (map_some (λ (s : Secure). s.service_token) s)
      → env (codes "SECURE_JWT_EXPIRATION_TIME")
        ≡ var_of (map_some (λ (s : Secure). u64_to_string s.jwt_token_expiration) s)
      → secure_from_env env ≡ ok s
  unfolding secure_from_env from_env_optional
  read_secure none b h k = rw (h, k) refl
  read_secure (some s) b h k = rw (h, k, parse_u64-u64_to_string s.jwt_token_expiration b) refl

  pub read_garbage :
      (g : GarbageCollector)
      → g.interval < 2 ^ 64
      → env (codes "GARBAGE_COLLECTOR_INTERVAL") ≡ present (u64_to_string g.interval)
      → garbage_collector_from_env env ≡ ok g
  unfolding garbage_collector_from_env from_env_optional
  read_garbage g b h = rw (h, parse_u64-u64_to_string g.interval b) refl

  pub read_websocket :
      (w : WebSocketConfig)
      → env (codes "WEBSOCKET_KEY") ≡ present w.key
      → env (codes "WEBSOCKET_VERSION") ≡ present w.version
      → websocket_from_env env ≡ ok w
  unfolding websocket_from_env from_env_optional
  read_websocket w h k = rw (h, k) refl

  pub read_queue :
      (q : QueueOptions)
      → AllParts q.default
      → IsU64 q.max_key_updates
      → env (codes "QUEUE_DEFAULT") ≡ present (join q.default)
      → env (codes "QUEUE_DB_PATH") ≡ var_of q.db_path
      → env (codes "QUEUE_MAX_KEY_UPDATES") ≡ var_of (map_some u64_to_string q.max_key_updates)
      → queue_from_env env ≡ ok q
  unfolding queue_from_env from_env_optional
  read_queue q d b h k l =
      rw
        (
          h,
          k,
          l,
          optional-var_of q.db_path,
          optional-var_of (map_some u64_to_string q.max_key_updates),
          read_number (codes "invalid max keys updates value") q.max_key_updates b,
          parts-join q.default d,
        )
        refl

  pub read_instance :
      (o : Option ServiceDiscoveryInstanceOptions)
      → env (codes "SERVICE_DISCOVERY_INSTANCE_ADDR")
        ≡ var_of (map_some (λ (o : ServiceDiscoveryInstanceOptions). o.instance_addr) o)
      → env (codes "SERVICE_DISCOVERY_INSTANCE_id")
        ≡ var_of (opt_then o (λ (o : ServiceDiscoveryInstanceOptions). o.instance_id))
      → instance_opts_from_env env ≡ ok o
  unfolding instance_opts_from_env from_env_optional
  read_instance none h k = rw (h, k) refl
  read_instance (some o) h k = rw (h, k, optional-var_of o.instance_id) refl

  pub read_api :
      (default : Option (List Bytes))
      → AllShards default
      → env (codes "SERVICE_DISCOVERY_TYPE") ≡ present (codes "API")
      → env (codes "SERVICE_DISCOVERY_DEFAULT_SHARDS") ≡ var_of (map_some join default)
      → service_discovery_from_env env ≡ ok (some (api default))
  unfolding service_discovery_from_env from_env_optional same
  read_api default d h k =
      rw (h, k, optional-var_of (map_some join default), read_shards default d) refl

  pub read_etcd :
      (default : Option (List Bytes)) (hosts : List Bytes) (prefix : Bytes)
      (opts : Option ServiceDiscoveryInstanceOptions)
      → AllShards default
      → AllParts hosts
      → env (codes "SERVICE_DISCOVERY_TYPE") ≡ present (codes "ETCD")
      → env (codes "SERVICE_DISCOVERY_DEFAULT_SHARDS") ≡ var_of (map_some join default)
      → env (codes "SERVICE_DISCOVERY_HOSTS") ≡ present (join hosts)
      → env (codes "SERVICE_DISCOVERY_PREFIX") ≡ present prefix
      → instance_opts_from_env env ≡ ok opts
      → service_discovery_from_env env ≡ ok (some (etcd default hosts prefix opts))
  unfolding service_discovery_from_env etcd_from_env from_env_optional same
  read_etcd default hosts prefix opts d n h k l m o =
      rw
        (
          h,
          k,
          l,
          m,
          o,
          optional-var_of (map_some join default),
          read_shards default d,
          parts-join hosts n,
        )
        refl
