-- ===== src/Protocol/Double/Whole.antt =====
-- Whole numbers in place of `f64`, for examples: the laws can hold.
use order_matching_engine_ru.Prelude.{ℕ, ◌-◌, ◌*◌, ◌/◌, ◌^◌, ltb, if◌then◌else◌, arith}
use order_matching_engine_ru.Prelude.Int.{ℤ, pos, pos_part, IsI64}
use order_matching_engine_ru.Protocol.Double.{Double}

abbrev saturate : ℕ → ℤ
saturate n = if ltb n (2 ^ 63) then pos n else pos (2 ^ 63 - 1)

pub saturate-IsI64 : (n : ℕ) → IsI64 (saturate n)
saturate-IsI64 n = ground arith

abbrev pub whole_numbers : Double
whole_numbers = record {
  F64 = ℕ;
  of_i64 = pos_part;
  of_u64 = λ n. n;
  mul = λ a b. a * b;
  div = λ a b. a / b;
  round = λ a. a;
  to_i64 = saturate;
  to_i64-IsI64 = saturate-IsI64;
}
