-- ===== src/Startup/Proxy.antt =====
-- The start of the proxy: `main` of sonya-proxy/src/main.rs up to the running server. Binding the
-- server to its address, with or without TLS, and the consistent hash are parameters.
use web_queue.Common.{ℕ, List, Bool, true, false, Option, none, some, unwrap_or, ok, err}
use web_queue.Api.{Secure, Web}
use web_queue.Api.Routes.{Route, proxy_routes}
use web_queue.Config.{Config, Tls}
use web_queue.Config.Env.{Load, Failure}
use web_queue.Proxy.Registry.{Maglev, new_registry}
use web_queue.Proxy.Shards.{WebSocketConfig}
use web_queue.Startup.{Chosen, by_api, by_etcd, chosen, first_shards}

-- The proxy that runs: where, with which tokens and which registry, whether the "/registry" route is
-- served, where its shard lists come from, and every how many seconds its storage is cleared.
pub record Running (SocketAddr M : Type 0) : Type 0 where
  pub address : SocketAddr
  pub tls : Option Tls
  pub secure : Option Secure
  pub registry : M
  pub lists : Chosen
  pub garbage_interval : ℕ
  pub websocket : WebSocketConfig

pub data Start (SocketAddr IoError M : Type 0) : Type 0 where
  no_config : Failure → Start SocketAddr IoError M
  not_bound : IoError → Start SocketAddr IoError M
  running : Running SocketAddr M → Start SocketAddr IoError M

-- Whether there is a `RegistryApiUpdater`.
unfoldable pub has_updater : Chosen → Bool
has_updater by_api = true
has_updater (by_etcd hosts prefix) = false

-- The application of a running proxy.
unfoldable pub routes_of :
    {SocketAddr M HeaderValue : Type 0}
    → Web HeaderValue
    → Running SocketAddr M
    → List (Route HeaderValue)
routes_of web proxy = proxy_routes web (has_updater proxy.lists) proxy.secure

module _ {SocketAddr IoError M : Type 0} (default_address : SocketAddr)
    (bind : Option Tls → SocketAddr → Option IoError) (m : Maglev M) where
  -- `bind` or `bind_openssl` with `?`
  abbrev bound : Running SocketAddr M → Option IoError → Start SocketAddr IoError M
  bound proxy none = running proxy
  bound proxy (some e) = not_bound e

  -- `main`, at what `get_config` gave
  unfoldable pub start : Load (Config SocketAddr) → Start SocketAddr IoError M
  start (err e) = no_config e
  start (ok config) =
      let address = unwrap_or config.addr default_address in
      bound
        (record {
          address = address;
          tls = config.tls;
          secure = config.secure;
          registry = new_registry m (first_shards config.service_discovery);
          lists = chosen config.service_discovery;
          garbage_interval = config.garbage_collector.interval;
          websocket = config.websocket;
        })
        (bind config.tls address)
