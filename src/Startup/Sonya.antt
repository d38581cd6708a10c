-- ===== src/Startup/Sonya.antt =====
-- The start of the queue service: `main` of sonya/src/main.rs up to the running server. Binding the
-- server to its address, with or without TLS, is a parameter, and so is opening the database.
use web_queue.Common.{
  ℕ, Bytes, Option, none, some, List, map, Result, ok, err, ◌≡◌, ◌≢◌, refl, unwrap_or,
}
use web_queue.Message.Interface.{IsUniqId}
use web_queue.Sled.{IsReliable}
use web_queue.Api.{Secure, Web}
use web_queue.Api.Routes.{Router}
use web_queue.Config.{Config, Tls}
use web_queue.Config.Env.{Load, Failure}
use web_queue.Queue.State.{Runtime, Queue, QueueError}
use web_queue.Queue.Methods.{DbConfig, db_config, new}
use web_queue.Queue.Abstract.{Store}
use web_queue.Queue.Abstract.Represents.{Represents}
use web_queue.Queue.Abstract.Starting.{restarted, new-Represents}
use web_queue.Server.Service.{Extractors, serve_all}
use web_queue.Server.Service.Specified.{observed, specified_all}
use web_queue.Server.Service.Served.{NoneDefault, serve_all-specified}
use web_queue.Startup.{Registering, not_registered, register, expected_instance, registering}

-- The service that runs: where, with which tokens, its queue, and what it registers.
pub record Service (SocketAddr Q : Type 0) : Type 0 where
  pub address : SocketAddr
  pub tls : Option Tls
  pub secure : Option Secure
  pub queue : Q
  pub registration : Registering

-- How the start ends: a failed configuration, no instance for etcd, a queue that does not open (all
-- three are panics), an error of the server's binding, or the service.
pub data Start (SocketAddr E IoError Q : Type 0) : Type 0 where
  no_config : Failure → Start SocketAddr E IoError Q
  no_instance : Start SocketAddr E IoError Q
  no_queue : E → Start SocketAddr E IoError Q
  not_bound : IoError → Start SocketAddr E IoError Q
  running : Service SocketAddr Q → Start SocketAddr E IoError Q

module _ {SocketAddr IoError : Type 0} (default_address : SocketAddr)
    (bind : Option Tls → SocketAddr → Option IoError) where
  -- `bind` or `bind_openssl` with `?`
  unfoldable pub bound :
      {E Q : Type 0} → Service SocketAddr Q → Option IoError → Start SocketAddr E IoError Q
  bound service none = running service
  bound service (some e) = not_bound e

  -- `Queue::new(queue_options).unwrap()`, and the server on it
  unfoldable pub with_queue :
      {E Q : Type 0} → Config SocketAddr → Registering → Result E Q → Start SocketAddr E IoError Q
  with_queue config registration (err e) = no_queue e
  with_queue config registration (ok queue) =
      let address = unwrap_or config.addr default_address in
      bound
        (record {
          address = address;
          tls = config.tls;
          secure = config.secure;
          queue = queue;
          registration = registration;
        })
        (bind config.tls address)

  -- after the `match` on the service discovery
  unfoldable pub registered :
      {E Q : Type 0} → Config SocketAddr → Result E Q → Registering → Start SocketAddr E IoError Q
  registered config queue expected_instance = no_instance
  registered config queue not_registered = with_queue config not_registered queue
  registered config queue (register hosts prefix id addr) =
      with_queue config (register hosts prefix id addr) queue

  module _ {Db DbError JsonError Sender Receiver T : Type 0}
      (rt : Runtime Db DbError JsonError Sender Receiver T) (open_db : DbConfig → Result DbError Db)
      (uuid : Bytes) where
    -- `main`, at what `get_config` gave
    unfoldable pub start :
        Load (Config SocketAddr)
        → Start SocketAddr (QueueError DbError JsonError) IoError (Queue Db Sender)
    start (err e) = no_config e
    start (ok config) =
        registered config (new rt open_db config.queue) (registering config.service_discovery uuid)

  starts :
      {E Q : Type 0} (config : Config SocketAddr) (q : Q) (r : Registering)
      → r ≢ expected_instance
      → bind config.tls (unwrap_or config.addr default_address) ≡ none
      → registered {E = E} config (ok q) r
        ≡ running (record {
          address = unwrap_or config.addr default_address;
          tls = config.tls;
          secure = config.secure;
          queue = q;
          registration = r;
        })
  unfolding registered with_queue bound
  starts config q not_registered h free = rw free refl
  starts config q (register hosts prefix id addr) h free = rw free refl
  starts config q expected_instance h free = absurd (h refl)

  module _ {R HeaderValue T Db DbError JsonError Sender Receiver : Type 0}
      (x : Extractors R HeaderValue T) (web : Web HeaderValue)
      (time_after : ℕ → Option (Result Bytes ℕ))
      (rt : Runtime Db DbError JsonError Sender Receiver T) (laws : IsReliable rt.sled)
      (u : IsUniqId rt.uniq) (encode : T → Bytes)
      (encodes : (m : T) → rt.json.to_vec m ≡ ok (encode m))
      (decodes : (m : T) → rt.json.from_slice (encode m) ≡ ok m) where
    -- Started on the database of an earlier run, with an instance where etcd is configured and an
    -- address that is free, the service runs, and answers any sequence of requests, none about the
    -- default tree, under the configured tokens, as the store does that the earlier run had left, with
    -- the configured queues and limit; given that storage does not fail and messages are read back as
    -- they were written.
    pub start-specified :
        (open_db : DbConfig → Result DbError Db) (uuid : Bytes) (config : Config SocketAddr)
        (earlier : Queue Db Sender) (s : Store T)
        → Represents rt laws encode earlier s
        → open_db (db_config config.queue.db_path) ≡ ok earlier.map
        → registering config.service_discovery uuid ≢ expected_instance
        → bind config.tls (unwrap_or config.addr default_address) ≡ none
        → (router : Router HeaderValue) (rs : List R) → NoneDefault x rt.sled.default_tree rs
        → (service : Service SocketAddr (Queue Db Sender)) × (start rt open_db uuid (ok config)
            ≡ running service)
          × (service.address ≡ unwrap_or config.addr default_address)
          × (let (served, q) =
                serve_all x web time_after service.secure rt router rs service.queue in
              let (told, s') =
                specified_all x web time_after config.secure rt.uniq router rs
                  (restarted config.queue s) in
              (map observed served ≡ told) × Represents rt laws encode q s')
    unfolding start
    start-specified open_db uuid config earlier s rep opened instance free router rs none_default =
        let (q, made, rep', _) =
          new-Represents rt laws encode earlier s rep open_db config.queue opened in
        (
          record {
            address = unwrap_or config.addr default_address;
            tls = config.tls;
            secure = config.secure;
            queue = q;
            registration = registering config.service_discovery uuid;
          },
          rw made (starts config q (registering config.service_discovery uuid) instance free),
          refl,
          serve_all-specified x web time_after config.secure rt laws u encode encodes decodes router
              rs q (restarted config.queue s) none_default rep',
        )
