-- ===== src/Protocol.antt =====
-- crates/protocol: the binary and the JSON messages of the gateway.
pub mod Binary
pub mod Double
pub mod Json
mod Examples
