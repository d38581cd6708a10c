-- ===== src/Queue.antt =====
-- sonya/src/queue/map.rs: the queue of a shard. Its definitions are in `State`, `Reads` and
-- `Methods`; the other children hold what is proved of them.
pub mod State
pub mod Reads
pub mod Methods
pub mod Keys
pub mod Counters
pub mod Storage
pub mod Storing
pub mod Sending
pub mod Retention
pub mod Deletion
pub mod Resetting
pub mod Channels
pub mod Latest
pub mod Abstract
pub mod Following
pub mod Delivery
pub mod Watching
pub mod Missing
pub mod Failures
