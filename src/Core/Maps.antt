-- ===== src/Core/Maps.antt =====
-- The standard library's maps, as crates/core/src/book.rs uses them. A `BTreeMap` is the list of its
-- entries in key order; the order is an argument, since bids and sell stops use `Reverse` keys. A
-- `HashMap` is a list of entries, of which no order is observed.
pub mod Laws
use order_matching_engine_ru.Prelude.{
  ℕ, Bool, not, Option, none, some, List, [], ◌∷◌, ◌==◌, if◌then◌else◌, keep,
}
use order_matching_engine_ru.Prelude.Int.{ℤ, ltb_ℤ, eqb_ℤ}

abbrev pub KeyOrder : Type 0
KeyOrder = ℤ → ℤ → Bool

-- The order of `Price` keys and of `Reverse<Price>` keys.
abbrev pub ascending : KeyOrder
ascending = ltb_ℤ

abbrev pub descending : KeyOrder
descending a b = ltb_ℤ b a

abbrev pub BTreeMap : Type 0 → Type 0
BTreeMap V = List (ℤ × V)

module _ {V : Type 0} where
  unfoldable pub find : ℤ → BTreeMap V → Option V
  find k [] = none
  find k ((j, v) ∷ m) = if eqb_ℤ j k then some v else find k m

  -- `insert`, and a write through `get_mut` or `entry`.
  unfoldable pub put : KeyOrder → ℤ → V → BTreeMap V → BTreeMap V
  put before k v [] = (k, v) ∷ []
  put before k v ((j, w) ∷ m) =
      if eqb_ℤ j k
      then (k, v) ∷ m
      else if before k j
      then (k, v) ∷ (j, w) ∷ m
      else (j, w) ∷ put before k v m

  unfoldable pub delete : ℤ → BTreeMap V → BTreeMap V
  delete k [] = []
  delete k ((j, v) ∷ m) = if eqb_ℤ j k then m else (j, v) ∷ delete k m

  -- `range(..=k)`
  abbrev pub up_to : KeyOrder → ℤ → BTreeMap V → BTreeMap V
  up_to before k = keep (λ (j, _). not (before k j))

  -- `retain(|p, _| p > k)`
  abbrev pub after : KeyOrder → ℤ → BTreeMap V → BTreeMap V
  after before k = keep (λ (j, _). before k j)

abbrev pub HashMap : Type 0 → Type 0
HashMap V = List (ℕ × V)

module _ {V : Type 0} where
  unfoldable pub lookup : ℕ → HashMap V → Option V
  lookup k [] = none
  lookup k ((j, v) ∷ m) = if j == k then some v else lookup k m

  unfoldable pub erase : ℕ → HashMap V → HashMap V
  erase k [] = []
  erase k ((j, v) ∷ m) = if j == k then erase k m else (j, v) ∷ erase k m

  unfoldable pub insert : ℕ → V → HashMap V → HashMap V
  unfolding erase
  insert k v m = (k, v) ∷ erase k m
