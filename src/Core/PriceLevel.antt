-- ===== src/Core/PriceLevel.antt =====
-- crates/core/src/price_level.rs: the FIFO queue of one price. Its links are in the orders.
use order_matching_engine_ru.Prelude.{
  ℕ, Bool, true, false, Option, none, some, add_u64, saturating_sub,
}

pub record PriceLevel : Type 0 where
  pub head : Option ℕ
  pub tail : Option ℕ
  pub total_qty : ℕ
  pub count : ℕ

abbrev pub empty_level : PriceLevel
empty_level = record { head = none; tail = none; total_qty = 0; count = 0 }

abbrev pub is_none : Option ℕ → Bool
is_none none = true
is_none (some _) = false

unfoldable pub is_empty : PriceLevel → Bool
is_empty l = is_none l.head

-- The head after a push behind the given tail.
abbrev pub head_after : Option ℕ → ℕ → Option ℕ → Option ℕ
head_after none slot head = some slot
head_after (some t) slot head = head

unfoldable pub push_back : ℕ → ℕ → PriceLevel → PriceLevel
push_back slot qty l = record {
  head = head_after l.tail slot l.head;
  tail = some slot;
  total_qty = add_u64 l.total_qty qty;
  count = add_u64 l.count 1;
}

-- An empty level stays as it is. The caller moves the head.
unfoldable pub pop_front : ℕ → PriceLevel → Option ℕ × PriceLevel
pop_front qty l = elim l.head [
  | none ↦ (none, l)
  | some slot ↦ (some slot, record l { total_qty = saturating_sub l.total_qty qty })
]

unfoldable pub remove : ℕ → PriceLevel → PriceLevel
remove qty l = record l {
  total_qty = saturating_sub l.total_qty qty;
  count = saturating_sub l.count 1;
}
