-- ===== src/Core.antt =====
-- crates/core: the order book and the matcher.
pub mod Types
pub mod Slab
pub mod Maps
pub mod PriceLevel
pub mod Book
pub mod Matcher
pub mod Whole
