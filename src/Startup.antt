-- ===== src/Startup.antt =====
-- What the two `main` functions (sonya/src/main.rs, sonya-proxy/src/main.rs) choose from the
-- configuration, how they end, and the "/registry" route. The server (actix-web), the channels and
-- the generator of UUIDs are parameters.
pub mod Sonya
pub mod Proxy
use web_queue.Common.{Bytes, codes, List, [], true, Option, none, some, Result, ok, err, unwrap_or}
use web_queue.Server.Http.{BaseQueueResponse, HttpError, internal_server_error}
use web_queue.Config.{ServiceDiscovery, api, etcd}

-- What the queue service does at its start: nothing, a registration in etcd with its hosts, prefix,
-- instance id and address, or a panic.
pub data Registering : Type 0 where
  not_registered : Registering
  register : List Bytes → Bytes → Bytes → Bytes → Registering
  expected_instance : Registering

-- The first `match` of the queue service's `main`, where the last argument is a new UUID.
unfoldable pub registering : Option ServiceDiscovery → Bytes → Registering
registering none uuid = not_registered
registering (some (api default)) uuid = not_registered
registering (some (etcd default hosts prefix none)) uuid = expected_instance
registering (some (etcd default hosts prefix (some o))) uuid =
    register hosts prefix (unwrap_or o.instance_id uuid) o.instance_addr

abbrev default_of : Option ServiceDiscovery → Option (List Bytes)
default_of none = none
default_of (some (api default)) = default
default_of (some (etcd default hosts prefix opts)) = default

-- The shards with which the proxy's registry starts.
unfoldable pub first_shards : Option ServiceDiscovery → List Bytes
first_shards sd = unwrap_or (default_of sd) []

-- The stream of shard lists that the proxy's `main` chooses: from the "/registry" route, or from etcd
-- by its hosts and prefix.
pub data Chosen : Type 0 where
  by_api : Chosen
  by_etcd : List Bytes → Bytes → Chosen

unfoldable pub chosen : Option ServiceDiscovery → Chosen
chosen none = by_api
chosen (some (api default)) = by_api
chosen (some (etcd default hosts prefix opts)) = by_etcd hosts prefix

-- What ends a process first: the service discovery, by its message or by dropping the sender, or the
-- server.
pub data First (IoResult : Type 0) : Type 0 where
  discovery_down : First IoResult
  sender_dropped : First IoResult
  server_ended : IoResult → First IoResult

pub data Exit (IoResult : Type 0) : Type 0 where
  interrupted : Bytes → Exit IoResult
  broken_pipe : Exit IoResult
  of_server : IoResult → Exit IoResult

-- The last `match` of both `main` functions.
unfoldable pub exit_of : {IoResult : Type 0} → First IoResult → Exit IoResult
exit_of discovery_down = interrupted (codes "service discovery is down")
exit_of sender_dropped = broken_pipe
exit_of (server_ended r) = of_server r

-- `service_registry_api`, at the result of sending the list to the stream of `api::factory`
unfoldable pub service_registry_api :
    {SendError : Type 0} → Result SendError (Unit {0}) → Result HttpError BaseQueueResponse
service_registry_api (ok x) = ok (record { success = true })
service_registry_api (err e) = err (internal_server_error (codes "Service discovery was broken"))
