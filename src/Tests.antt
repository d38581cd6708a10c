-- ===== src/Tests.antt =====
-- Examples: the theorems at concrete inputs, over storage and channels in memory.
pub mod Fixtures
mod Queues
mod Delivery
pub mod Proxies
mod Servers
pub mod Refining
pub mod Routes
mod Discovery
pub mod Configs
pub mod Clusters
pub mod Services
mod Starts
mod Concurrency
