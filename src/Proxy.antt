-- ===== src/Proxy.antt =====
-- The crate sonya-proxy: one address in front of the queue services that share the queues.
pub mod Discovery
pub mod Registry
pub mod Forwarding
pub mod Client
pub mod Shards
pub mod Cluster
pub mod Sockets
