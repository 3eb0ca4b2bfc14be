-- ===== src/Wal/Snapshot/Restore.antt =====
-- What one row of a snapshot does to the book that is rebuilt.
use order_matching_engine_ru.Prelude.{
  ℕ, ◌+◌, ◌^◌, ◌<◌, ◌≡◌, refl, false, Option, none, some, [], ◌∷◌, ◌++◌, arith, ok, ◌==◌,
  Bool-cases, inl, inr,
}
use order_matching_engine_ru.Core.Types.{Order, new_order}
use order_matching_engine_ru.Core.Slab.{Slab}
use order_matching_engine_ru.Core.Maps.{find, insert}
use order_matching_engine_ru.Core.PriceLevel.{PriceLevel}
use order_matching_engine_ru.Core.Book.{OrderBook, Location, level_or_new, side_levels}
use order_matching_engine_ru.Core.Book.Chain.{Entries, has, Chain}
use order_matching_engine_ru.Core.Book.Queue.{
  Holds, at_level, insert_resting-append, total_remaining,
}
use order_matching_engine_ru.Core.Matcher.Ladder.{Holds-frame}
use order_matching_engine_ru.Wal.Snapshot.{SnapOrder, row_of, load_order, load_one, side_of}

module _ (S : Slab Order) where
  open S use {Arena, get, key}

  -- A vacant slot is in no queue.
  Chain-vacant :
      (a : Arena) (k : ℕ) (p : Option ℕ) (q : Entries) (e : Option ℕ)
      → get a k ≡ none
      → Chain S a p q e
      → has k q ≡ false
  Chain-vacant a k p [] e free c = refl
  Chain-vacant a k p ((s, o) ∷ q) e free (c, cs) = elim (Bool-cases (s == k)) [
    | inl same ↦ let at : s ≡ k = ground (arith, same) in absurd (taken at)
    | inr other ↦ ground (arith, other, Chain-vacant a k (some s) q e free cs)
  ]
    where
      taken : s ≡ k → ⊥
      taken at = cc

  -- A row is put behind the queue of its price on its side, whatever kind of order it is, if the level
  -- of that price stands for the queue and the quantities together fit a `u64`. The order there is the
  -- one that the row is read back as, and the index has its place.
  pub load_one-append :
      (b : OrderBook S) (symbol : ℕ) (so : SnapOrder) (q : Entries)
      → Holds S b.arena (level_or_new (find so.price (side_levels S (side_of so.side) b))) q
      → total_remaining q + so.remaining < 2 ^ 64
      → let location : Location = record {
        price = so.price;
        side = side_of so.side;
        slot = key b.arena;
      } in
        (a : Arena) × (l : PriceLevel) × (load_one S symbol so b
          ≡ ok (
              at_level S
                (side_of so.side)
                so.price
                l
                a
                (record b { id_index = insert so.id location b.id_index })))
        × Holds S a l (q ++ (key b.arena, load_order symbol so) ∷ [])
  unfolding load_one load_order
  load_one-append b symbol so q h fits =
      let k = key b.arena in
      let o₀ = new_order (row_of symbol so) so.seq so.ts in
      let o₁ : Order = record o₀ { qty = so.qty } in
      let o₂ : Order = load_order symbol so in
      let a₀ : Arena = S.insert b.arena o₀ in
      let a₁ : Arena = S.set a₀ k o₁ in
      let a₂ : Arena = S.set a₁ k o₂ in
      let wrote₀ = λ (j : ℕ). S.get-insert b.arena o₀ j in
      let at₀ : get a₀ k ≡ some o₀ = ground (arith, wrote₀ k) in
      let wrote₁ = λ (j : ℕ). S.get-set a₀ k o₁ j at₀ in
      let at₁ : get a₁ k ≡ some o₁ = ground (arith, wrote₁ k) in
      let wrote₂ = λ (j : ℕ). S.get-set a₁ k o₂ j at₁ in
      let at₂ : get a₂ k ≡ some o₂ = ground (arith, wrote₂ k) in
      let out = Chain-vacant b.arena k none q none (S.key_vacant b.arena) h.chain in
      let location : Location = record { price = so.price; side = side_of so.side; slot = k } in
      let b₂ : OrderBook S = record b { arena = a₂; id_index = insert so.id location b.id_index } in
      let hold =
        Holds-frame S b.arena a₂ (level_or_new (find so.price (side_levels S (side_of so.side) b)))
          q (λ j there. ground (arith, wrote₀ j, wrote₁ j, wrote₂ j, out)) h in
      let (a, l, run, holds, _) = insert_resting-append S b₂ k o₂ q at₂ hold out fits in
      (a, l, rw (at₀, at₁) run, holds)
