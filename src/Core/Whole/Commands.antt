-- ===== src/Core/Whole/Commands.antt =====
-- crates/core/src/matcher.rs: `apply` on a well-formed book, for one command and for any number of them.
use order_matching_engine_ru.Prelude.{
  ℕ, suc, ◌+◌, ◌<◌, ◌≤◌, ◌^◌, ◌≡◌, refl, sym, ◌∙◌, true, false, none, some, [], ◌∷◌, ◌++◌, arith,
  ok, ◌==◌, inl, inr, Bool-cases, Option-cases,
}
use mathlib.Core.Path.{subst}
use order_matching_engine_ru.Core.Types.{
  Price, Side, buy, sell, opposite, Order, Command, Sequenced, NewOrder, rejected, unknown_id,
  zero_qty,
}
use order_matching_engine_ru.Core.Slab.{Slab}
use order_matching_engine_ru.Core.Maps.{lookup}
use order_matching_engine_ru.Core.Book.{OrderBook, choose}
use order_matching_engine_ru.Core.Matcher.{
  Result, apply_new, apply_cancel, apply_replace, apply_command, apply,
}
use order_matching_engine_ru.Core.Matcher.Loop.{Events}
use order_matching_engine_ru.Core.Matcher.Sweep.{Ladder, makers}
use order_matching_engine_ru.Core.Whole.Kept.{has_id, has_id-append, has_id_unknown}
use order_matching_engine_ru.Core.Whole.Invariant.{IsBook, resting, turned}
use order_matching_engine_ru.Core.Whole.Exchange.{
  stepped, offers_of, request, submitted, side_of, cancelled_by, replaced_by, exchange, qty_of,
  submits_stop,
}
use order_matching_engine_ru.Core.Whole.Offers.{is_offered-offers}
use order_matching_engine_ru.Core.Whole.Submit.{apply_new-Refines}
use order_matching_engine_ru.Core.Whole.Withdraw.{apply_cancel-Refines, apply_replace-Refines}
use order_matching_engine_ru.Core.Whole.Trades.{
  market, Trades, Refines-Trades, Trades-le, choose-offers, choose-offers-opposite, choose-resting,
}

module _ (S : Slab Order) where
  module _ (fuel seq ts : ℕ) (b : OrderBook S) (bids asks : Ladder) (out : Events)
      (h : IsBook S Side.buy bids asks b) where
    -- The book seen from a side.
    seen : (side : Side) → IsBook S side (choose side bids asks) (choose side asks bids) b
    unfolding opposite
    seen Side.buy = h
    seen Side.sell = turned S Side.buy bids asks b h

    new-Trades :
        (n : NewOrder)
        → submits_stop (Command.new n) ≡ false
        → resting bids asks + n.qty < 2 ^ 64
        → Trades S
            (stepped n.side (
              submitted
                (request n)
                seq
                ts
                (offers_of n.side (market bids asks))
                (offers_of (opposite n.side) (market bids asks))))
            (resting bids asks + n.qty)
            out
            (apply_new S (suc fuel) seq ts n b out)
    unfolding submits_stop
    new-Trades n no_stop fits =
        let own = choose n.side bids asks in
        let other = choose n.side asks bids in
        let same = choose-resting n.side bids asks in
        let run = apply_new S (suc fuel) seq ts n b out in
        let r = Refines-Trades S n.side _ _ out run (
          apply_new-Refines S fuel seq ts n b own other out (seen n.side)
            (omega (arith, same, fits)) no_stop) in
        Trades-le S _ (resting own other + n.qty) (resting bids asks + n.qty) out run
          (omega (arith, same))
          (subst (λ x. Trades S x (resting own other + n.qty) out run)
            (λ i. stepped n.side (
              submitted (request n) seq ts (choose-offers n.side bids asks i)
                (choose-offers-opposite n.side bids asks i)))
            r)

    -- Where the index knows an id.
    pub data Known (id : ℕ) : Type 0 where
      nowhere : lookup id b.id_index ≡ none → side_of id (market bids asks) ≡ none → Known id
      bid : has_id id (makers bids) ≡ true → side_of id (market bids asks) ≡ some buy → Known id
      ask : has_id id (makers asks) ≡ true → side_of id (market bids asks) ≡ some sell → Known id

    known_side : (id : ℕ) → Known id
    unfolding side_of
    known_side id =
        let in_bids = is_offered-offers id (makers bids) in
        let in_asks = is_offered-offers id (makers asks) in
        elim (Option-cases (lookup id b.id_index)) [
          | inl new ↦
              let no_bid = has_id_unknown Side.buy b.id_index id (makers bids) h.near.kept new in
              let no_ask = has_id_unknown _ b.id_index id (makers asks) h.far.kept new in
              nowhere new (rw (in_bids, no_bid, in_asks, no_ask) refl)
          | inr (loc, at) ↦
              let somewhere =
                sym (has_id-append id (makers bids) (makers asks)) ∙ h.listed id loc at in
              elim (Bool-cases (has_id id (makers bids))) [
                | inl there ↦ bid there (rw (in_bids, there) refl)
                | inr not_there ↦
                    let there : has_id id (makers asks) ≡ true =
                      ground (arith, somewhere, not_there) in
                    ask there (rw (in_bids, not_there, in_asks, there) refl)
              ]
        ]

    refused :
        (es : Events) (bound : ℕ)
        → resting bids asks ≤ bound
        → (run : Result S) → run ≡ ok (b, out ++ es)
        → Trades S (market bids asks, es) bound out run
    refused es bound le run ran = record {
      book = b;
      bids = bids;
      asks = asks;
      ran = ran;
      sound = h;
      offered = refl;
      bounded = le;
    }

    cancel-Trades :
        (id : ℕ)
        → Trades S
            (cancelled_by id seq (market bids asks))
            (resting bids asks)
            out
            (apply_cancel S id seq b out)
    unfolding cancelled_by apply_cancel opposite
    cancel-Trades id = elim (known_side id) [
      | nowhere new out_of ↦
          rw (cancelled_by, out_of)
            (refused (rejected id unknown_id seq ∷ []) (resting bids asks) (omega arith)
              (apply_cancel S id seq b out) (rw (apply_cancel, new) refl))
      | bid there at ↦
          rw (cancelled_by, at)
            (Refines-Trades S Side.buy _ _ out (apply_cancel S id seq b out)
              (apply_cancel-Refines S Side.buy bids asks b out h id there seq))
      | ask there at ↦
          rw (cancelled_by, at)
            (Trades-le S _ (resting asks bids) (resting bids asks) out (apply_cancel S id seq b out)
              (omega arith)
              (Refines-Trades S Side.sell _ _ out (apply_cancel S id seq b out)
                (apply_cancel-Refines S Side.sell asks bids b out (seen Side.sell) id there seq)))
    ]

    replace_empty :
        (id : ℕ) (price : Price) (qty : ℕ)
        → (qty == 0) ≡ true
        → apply_replace S (suc fuel) id price qty seq ts b out
          ≡ ok (b, out ++ rejected id zero_qty seq ∷ [])
    unfolding apply_replace
    replace_empty id price qty empty = rw (apply_replace, empty) refl

    replace_unknown :
        (id : ℕ) (price : Price) (qty : ℕ)
        → (qty == 0) ≡ false
        → lookup id b.id_index ≡ none
        → apply_replace S (suc fuel) id price qty seq ts b out
          ≡ ok (b, out ++ rejected id unknown_id seq ∷ [])
    unfolding apply_replace
    replace_unknown id price qty some_qty new = rw (apply_replace, some_qty, new) refl

    replace-Trades :
        (id : ℕ) (price : Price) (qty : ℕ)
        → resting bids asks + qty < 2 ^ 64
        → Trades S
            (replaced_by id price qty seq ts (market bids asks))
            (resting bids asks + qty)
            out
            (apply_replace S (suc fuel) id price qty seq ts b out)
    unfolding replaced_by opposite
    replace-Trades id price qty fits =
        let run = apply_replace S (suc fuel) id price qty seq ts b out in
        let bound = resting bids asks + qty in
        elim (Bool-cases (qty == 0)) [
          | inl empty ↦
              rw (replaced_by, empty)
                (refused (rejected id zero_qty seq ∷ []) bound (omega arith) run
                  (replace_empty id price qty empty))
          | inr some_qty ↦
              let positive : 0 < qty = ground (arith, some_qty) in
              elim (known_side id) [
                | nowhere new out_of ↦
                    rw (replaced_by, some_qty, out_of)
                      (refused (rejected id unknown_id seq ∷ []) bound (omega arith) run
                        (replace_unknown id price qty some_qty new))
                | bid there at ↦
                    rw (replaced_by, some_qty, at)
                      (Refines-Trades S Side.buy _ _ out run (
                        apply_replace-Refines S Side.buy bids asks b out h id there fuel seq ts
                          price qty positive fits))
                | ask there at ↦
                    rw (replaced_by, some_qty, at)
                      (Trades-le S _ (resting asks bids + qty) bound out run (omega arith) (
                        Refines-Trades S Side.sell _ _ out run (
                          apply_replace-Refines S Side.sell asks bids b out (seen Side.sell) id
                            there fuel seq ts price qty positive (omega (arith, fits)))))
              ]
        ]

  -- One command other than a stop order, on a well-formed book on which what rests and what the command
  -- can add fit a `u64` together. `apply` returns, without a panic, on any fuel but 0. The book is
  -- well-formed again: it stands for the market that the exchange makes of the offers, every event is the
  -- exchange's, and at most what the command can add is added.
  pub apply-exchange :
      (fuel : ℕ) (c : Sequenced) (b : OrderBook S) (bids asks : Ladder) (out : Events)
      → IsBook S Side.buy bids asks b
      → submits_stop c.cmd ≡ false
      → resting bids asks + qty_of c.cmd < 2 ^ 64
      → Trades S
          (exchange c (market bids asks))
          (resting bids asks + qty_of c.cmd)
          out
          (apply S (suc fuel) c b out)
  unfolding apply apply_command exchange
  apply-exchange fuel c b bids asks out h no_stop fits = of c.cmd no_stop fits
    where
      of :
          (cmd : Command)
          → submits_stop cmd ≡ false
          → resting bids asks + qty_of cmd < 2 ^ 64
          → Trades S
              (exchange (record c { cmd = cmd }) (market bids asks))
              (resting bids asks + qty_of cmd)
              out
              (apply S (suc fuel) (record c { cmd = cmd }) b out)
      of (Command.new n) no_stop fits = new-Trades fuel c.seq c.ts b bids asks out h n no_stop fits
      of (Command.cancel id _) no_stop fits =
          Trades-le S _ _ _ out _ (omega arith) (cancel-Trades fuel c.seq c.ts b bids asks out h id)
      of (Command.replace id price qty _) no_stop fits =
          replace-Trades fuel c.seq c.ts b bids asks out h id price qty fits
