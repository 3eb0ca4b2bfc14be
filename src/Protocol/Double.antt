-- ===== src/Protocol/Double.antt =====
-- The `f64` operations of crates/protocol and crates/marketdata: the hardware's, a parameter of the
-- model. Of the casts, the Rust reference says that one to an integer saturates and takes NaN to 0.
pub mod Whole
use order_matching_engine_ru.Prelude.{ℕ}
use order_matching_engine_ru.Prelude.Int.{ℤ, IsI64}

pub record Double : Type 1 where
  pub F64 : Type 0
  pub of_i64 : ℤ → F64
  pub of_u64 : ℕ → F64
  pub mul : F64 → F64 → F64
  pub div : F64 → F64 → F64
  pub round : F64 → F64
  pub to_i64 : F64 → ℤ
  pub to_i64-IsI64 : (x : F64) → IsI64 (to_i64 x)
