-- ===== src/Engine.antt =====
-- crates/engine.
pub mod Channel
pub mod Egress
pub mod Sequencer
pub mod Shard
pub mod Submit
pub mod System
mod Examples
