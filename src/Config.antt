-- ===== src/Config.antt =====
-- sonya-meta/src/config.rs: the configuration, and how it is read. Socket addresses (std::net), the
-- files with serde's formats and the process's environment are parameters.
pub mod Env
pub mod Sources
pub mod Parts
pub mod Acceptance
pub mod Accepted
pub mod Written
pub mod Reading
pub mod RoundTrip
pub mod Serde
use web_queue.Common.{ℕ, Bytes, codes, List, Option, some}
use web_queue.Api.{Secure}
use web_queue.Queue.Methods.{QueueOptions}
use web_queue.Proxy.Shards.{WebSocketConfig}

pub record Tls : Type 0 where
  pub private_key : Bytes
  pub cert : Bytes

pub record GarbageCollector : Type 0 where
  pub interval : ℕ

pub record ServiceDiscoveryInstanceOptions : Type 0 where
  pub instance_id : Option Bytes
  pub instance_addr : Bytes

pub data ServiceDiscovery : Type 0 where
  api : Option (List Bytes) → ServiceDiscovery
  -- the default shards, the hosts, the prefix, the options of the instance
  etcd :
      Option (List Bytes)
      → List Bytes
      → Bytes
      → Option ServiceDiscoveryInstanceOptions
      → ServiceDiscovery

pub record Config (SocketAddr : Type 0) : Type 0 where
  pub addr : Option SocketAddr
  pub tls : Option Tls
  pub secure : Option Secure
  pub queue : QueueOptions
  pub service_discovery : Option ServiceDiscovery
  pub websocket : WebSocketConfig
  pub garbage_collector : GarbageCollector

abbrev pub default_jwt_token_expiration : ℕ
default_jwt_token_expiration = 60

abbrev pub default_websocket_v : Bytes
default_websocket_v = codes "13"

-- `Default for WebSocket`
abbrev pub default_websocket : WebSocketConfig
default_websocket = record { version = default_websocket_v; key = codes "SGVsbG8sIHdvcmxkIQ==" }

-- `Default for GarbageCollector`
abbrev pub default_garbage_collector : GarbageCollector
default_garbage_collector = record { interval = 60 }

abbrev pub default_sd_prefix : Bytes
default_sd_prefix = codes "sonya"

-- `From<SecureToken> for Secure`, `From<u64> for GarbageCollector`, `From<Shards> for ServiceDiscovery`
abbrev pub secure_from : Bytes → Secure
secure_from service_token = record {
  service_token = service_token;
  jwt_token_expiration = default_jwt_token_expiration;
}

abbrev pub garbage_collector_from : ℕ → GarbageCollector
garbage_collector_from interval = record { interval = interval }

abbrev pub service_discovery_from : List Bytes → ServiceDiscovery
service_discovery_from default = api (some default)
