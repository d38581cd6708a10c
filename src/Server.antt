-- ===== src/Server.antt =====
-- sonya/src/main.rs and sonya/src/queue/connection.rs: the shard's handlers and its websocket
-- connections. A handler takes the queue to a response and the queue that it leaves.
pub mod Http
pub mod Connection
pub mod Handlers
pub mod Longpoll
pub mod Statuses
pub mod Polling
pub mod Registration
pub mod Service
