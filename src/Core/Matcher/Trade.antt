-- ===== src/Core/Matcher/Trade.antt =====
-- One trade of `match_order`, from the popped maker to its end or its return to the queue.
use order_matching_engine_ru.Prelude.{
  ℕ, min, ◌≡◌, false, [], ◌∷◌, ◌++◌, some, ok, ◌>>=◌, arith, ◌==◌, if◌then◌else◌, add_u64,
}
use order_matching_engine_ru.Core.Types.{Price, Side, Order, trade}
use order_matching_engine_ru.Core.Slab.{Slab}
use order_matching_engine_ru.Core.Book.{OrderBook}
use order_matching_engine_ru.Core.Matcher.Loop.{Events, trade_with, settle_maker}
use order_matching_engine_ru.Core.Matcher.Sweep.{reduced}

module _ (S : Slab Order) (b : OrderBook S) (k s : ℕ) (t o : Order) where
  open S use {Arena, get}

  -- The arena with the quantity taken off both orders.
  abbrev pub traded : ℕ → Arena
  traded n = S.set (S.set b.arena k (reduced t n)) s (reduced o n)

  module _ (taker_at : get b.arena k ≡ some t) (maker_at : get b.arena s ≡ some o)
      (apart : (k == s) ≡ false) where
    pub get-traded :
        (n j : ℕ)
        → get (traded n) j ≡ (
            if s == j
            then some (reduced o n)
            else if k == j
            then some (reduced t n)
            else get b.arena j)
    get-traded n j =
        let a₁ : Arena = S.set b.arena k (reduced t n) in
        let wrote = λ (i : ℕ). S.get-set b.arena k (reduced t n) i taker_at in
        let maker₁ : get a₁ s ≡ some o = ground (arith, wrote s) in
        ground (arith, wrote j, S.get-set a₁ s (reduced o n) j maker₁)

    -- Both orders are found, and the trade comes down to what happens to the maker.
    pub trade_with-settle :
        (side : Side) (p : Price) (seq ts : ℕ) (out : Events) (total : ℕ)
        → let n = min t.remaining o.remaining in
          trade_with S k side p s seq ts (record { book = b; out = out; total_filled = total })
          ≡ (do
            (b', out') ←
                settle_maker S side p s
                  (reduced o n)
                  n
                  seq
                  (record b { arena = traded n; last_trade = some p })
                  (out ++ trade seq t.id o.id p n side ts ∷ [])
            ok (record { book = b'; out = out'; total_filled = add_u64 total n }))
    unfolding trade_with
    trade_with-settle side p seq ts out total =
        let n = min t.remaining o.remaining in
        let wrote = λ (i : ℕ). S.get-set b.arena k (reduced t n) i taker_at in
        let maker₁ : get (S.set b.arena k (reduced t n)) s ≡ some o = ground (arith, wrote s) in
        let taker₂ : get (traded n) k ≡ some (reduced t n) = ground (arith, get-traded n k) in
        let maker₂ : get (traded n) s ≡ some (reduced o n) = ground (arith, get-traded n s) in
        rw (taker_at, maker_at, maker₁, taker₂, maker₂)
