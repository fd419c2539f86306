-- ===== src/Client.antt =====
-- crates/longboy/src/client: the two tasks that a client runs.
pub mod ToServer
pub mod FromServer
pub mod Builder
