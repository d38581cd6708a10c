-- ===== src/Config/RoundTrip.antt =====
-- A configuration written to the environment is read back (sonya-meta/src/config.rs).
use web_queue.Common.{◌<◌, ◌^◌, Bytes, codes, same, Option, none, some, ok, ◌≡◌, refl}
use web_queue.Common.Map
use web_queue.Api.{Secure}
use web_queue.Config.{Config, ServiceDiscovery, api, etcd}
use web_queue.Config.Env.{
  map_some, map_expect, service_discovery_from_env, from_env, from_env_optional,
}
use web_queue.Config.Sources.{get_config, from_str, Files}
use web_queue.Config.Parts.{AllParts}
use web_queue.Config.Written.{environment}
use web_queue.Config.Reading.{
  optional-var_of, IsU64, AllShards, read_tls, read_secure, read_garbage, read_websocket,
  read_queue, read_instance, read_api, read_etcd,
}

abbrev IsWritableDiscovery : Option ServiceDiscovery → Type 0
IsWritableDiscovery none = ⊥
IsWritableDiscovery (some (api default)) = AllShards default
IsWritableDiscovery (some (etcd default hosts prefix opts)) = AllShards default × AllParts hosts

-- The numbers are 64-bit numbers, the names in lists are not empty and have no semicolon, and there
-- is a service discovery.
pub record IsWritable {SocketAddr : Type 0} (c : Config SocketAddr) : Type 0 where
  pub expiration : IsU64 (map_some (λ (s : Secure). s.jwt_token_expiration) c.secure)
  pub interval : c.garbage_collector.interval < 2 ^ 64
  pub limit : IsU64 c.queue.max_key_updates
  pub names : AllParts c.queue.default
  pub discovery : IsWritableDiscovery c.service_discovery

module _ {SocketAddr : Type 0} (show_addr : SocketAddr → Bytes)
    (parse_addr : Bytes → Option SocketAddr)
    (parses : (a : SocketAddr) → parse_addr (show_addr a) ≡ some a) where
  read_addr :
      (message : Bytes) (o : Option SocketAddr)
      → map_expect parse_addr message (map_some show_addr o) ≡ ok o
  read_addr message none = refl
  read_addr message (some a) = rw (parses a) refl

  read_discovery :
      (c : Config SocketAddr) (sd : Option ServiceDiscovery)
      → c.service_discovery ≡ sd
      → IsWritableDiscovery sd
      → service_discovery_from_env (environment show_addr c) ≡ ok sd
  unfolding environment Map.get same
  read_discovery c none e w = elim w [ ]
  read_discovery c (some (api default)) e w =
      read_api (environment show_addr c) default w (rw e refl) (rw e refl)
  read_discovery c (some (etcd default hosts prefix opts)) e w =
      read_etcd (environment show_addr c) default hosts prefix opts w.0 w.1 (rw e refl) (rw e refl)
        (rw e refl) (rw e refl)
        (read_instance (environment show_addr c) opts (rw e refl) (rw e refl))

  from_env-environment :
      (c : Config SocketAddr) → IsWritable c → from_env parse_addr (environment show_addr c) ≡ ok c
  unfolding from_env from_env_optional environment Map.get same
  from_env-environment c w =
      let env = environment show_addr c in
      rw
        (
          optional-var_of (map_some show_addr c.addr),
          read_addr (codes "invalid addr") c.addr,
          read_tls env c.tls refl refl,
          read_secure env c.secure w.expiration refl refl,
          read_queue env c.queue w.names w.limit refl refl refl,
          read_discovery c c.service_discovery refl w.discovery,
          read_websocket env c.websocket refl refl,
          read_garbage env c.garbage_collector w.interval refl,
        )
        refl

  -- A configuration with a service discovery, 64-bit numbers, and names that are not empty and have no
  -- semicolon is what get_config returns from the environment in which its parts are written,
  -- given that a printed socket address is parsed back; no part is lost and nothing panics.
  pub get_config-environment :
      {File : Type 0} (files : Files File SocketAddr) (c : Config SocketAddr)
      → IsWritable c
      → get_config parse_addr files (environment show_addr c) ≡ ok c
  unfolding get_config environment Map.get same from_str
  get_config-environment files c w = rw (from_env-environment c w) refl
