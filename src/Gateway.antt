-- ===== src/Gateway.antt =====
-- crates/gateway: the sessions of its clients. Sockets and tasks are tokio's.
pub mod Session
