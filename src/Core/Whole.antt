-- ===== src/Core/Whole.antt =====
-- crates/core/src/matcher.rs and book.rs: what holds of a whole book, whatever commands it has taken.
pub mod Zoom
pub mod Kept
pub mod Unique
pub mod Swept
pub mod Place
pub mod Level
pub mod Invariant
pub mod Matched
pub mod Exchange
pub mod Offers
pub mod Ended
pub mod Joined
pub mod Joiner
pub mod Rested
pub mod Branches
pub mod Submit
pub mod Located
pub mod Found
pub mod Taken
pub mod Withdraw
pub mod Trades
pub mod Commands
pub mod Quantity
pub mod Runs
pub mod Done
mod Examples
