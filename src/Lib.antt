-- ===== src/Lib.antt =====
-- Verification of the message queue Sonya.
--
-- The program has three crates. The queue service (sonya) keeps queues of messages in an embedded
-- database and serves them over HTTP and websockets. The proxy (sonya-proxy) stands in front of several
-- queue services and shares the queues out among them by a consistent hash. Both use the crate
-- sonya-meta for messages, tokens and the configuration.
--
-- How the files correspond to the code:
--
--   Common     lists, byte strings, 64-bit words in big endian, decimal texts, maps, and the results of
--              methods that change a state and may fail.
--   Message    sonya-meta/src/message.rs. A `NonZeroU64` is a number that `new_sequence_id` accepted.
--   Sled       the interface of the database `sled` and its documented laws; Sled/Memory is a database
--              in memory that keeps them.
--   Broadcast  the interface of `tokio::sync::broadcast` and its documented laws; Broadcast/Memory is a
--              channel that keeps them.
--   Queue      sonya/src/queue/map.rs. State is the struct `Queue` with its channels, Reads the functions
--              that load stored messages, Methods the methods, each as a step from the queue to its
--              result and the queue after it; what was written before an error stays written. The other
--              files prove what the methods do: Keys, Storage and Storing on keys and entries, Counters on
--              `generate_next_id`, Sending, Retention, Latest, Deletion and Resetting on the stored
--              entries, Channels, Following, Delivery, Watching and Missing on subscribers, Failures on errors.
--              Abstract is a store of numbered messages without trees, bytes and counters in the
--              database, which specifies the methods; its children relate the two.
--   Server     sonya/src/main.rs (Http, Handlers, Longpoll, Polling, Statuses), sonya-meta/src/response.rs,
--              sonya/src/queue/connection.rs (Connection) and sonya/src/service_discovery/etcd.rs
--              (Registration). Service is the service as a whole: a request is routed, its parts are
--              read, and its handler is called; Specified is the same over the abstract store, with the routes,
--              the tokens and the sequences asked for written out in Access.
--   Api        sonya-meta/src/api.rs: guards, tokens, pauses between reconnects, and in Routes the tables
--              of routes, with the one of sonya-proxy/src/main.rs.
--   Config     sonya-meta/src/config.rs: the structures, Env the reading from the environment, Sources the
--              choice of the source, Serde the visitors of short forms; Written, Reading and RoundTrip are
--              about an environment that is written for a configuration, Parts about lists in one
--              variable, Acceptance and Accepted about which environments are read at all.
--   Startup    what both `main` functions choose from the configuration, and how they end; Sonya and
--              Proxy are their starts up to the running servers.
--   Proxy      sonya-proxy/src: Registry is registry.rs, Discovery is service_discovery/mod.rs with
--              etcd.rs and api.rs in Discovery/Etcd, Client is websocket_proxy_client.rs (the actor, its
--              storage, its streams and the aggregate of connections), Forwarding is websocket_proxy.rs.
--              main.rs is in Shards (what the answers of the shards become), Cluster (the handlers with
--              the requests that they make; Seen is what a client sees of the answers) and Sockets (the websocket routes). Cluster/EndToEnd puts the
--              queue service of Server behind the proxy, Discovery/Following a stream that misses an
--              update, Discovery/Reloading the streams that end when it has news, and
--              Discovery/Etcd/Registered a shard's registration before the proxy's list of shards.
--              Client/Interleaving lets the tasks that use the storage run side by side.
--   Tests      the theorems at concrete inputs, over the database and the channels in memory.
--
-- How it is modelled. Texts are lists of bytes. The methods of `Queue` are steps, one after
-- the other, and their locks are not modelled; only the subscriptions, which load the stored messages
-- before they take the lock of the channels, have a second form with what other threads do in between. Code outside the repository is a parameter: the
-- database, the channels, serde_json, jsonwebtoken, the parsers of headers and queries, the consistent
-- hash, the HTTP client, the router, the etcd client, files with serde's formats, and the clock. The
-- answers of the etcd client are a list, so that a loop on them has a result for every list: what is
-- still waiting where the list ends is said by the result. A stream is the list of what it yields, up to
-- where it has come. An actor is its state with its handlers as steps; what a handler asks of its context
-- is a list of requests in order. A shared broadcaster of the proxy is a place in a store, so that a
-- subscription and the actor see the same state; a step of the actor is one indivisible step, and a poll
-- is two, with what the actor does in between. The registry handles the lists that were sent to it in
-- the order of sending, though the code gives them to several workers. What actix does at the end of a
-- stream whose `finished` is not overridden is a parameter. In Client/Interleaving a step is what a task does under one lock, and the steps of the tasks, of
-- the collector and of the actors that end come in any order. What a subscription receives while a
-- request is served comes with the request.
--
-- Bounds and fuel. Numbers of messages and counters are below 2 ^ 64 where a theorem says so, and the
-- counter's overflow is written out. `trim_start_matches` runs on as much fuel as the text has bytes, and
-- each round takes at least seven of them. The integer root of `sleep_between_reconnects` looks at 0 to
-- 20, since 1.5 * 255 is below 21 * 21.
--
-- Not modelled: how the servers bind their addresses, and the clocks of both `main` functions; the Display
-- of a service discovery and serde's own dispatch; sonya-meta/src/tls.rs, which reads certificates;
-- logging.
pub mod Common
pub mod Message
pub mod Sled
pub mod Broadcast
pub mod Queue
pub mod Server
pub mod Api
pub mod Config
pub mod Startup
pub mod Proxy
mod Tests
