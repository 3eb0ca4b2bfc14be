-- ===== src/Core/Matcher/Refinement.antt =====
-- `match_order` runs to its end and does what the specification says.
pub mod Runs
pub mod Steps
pub use Runs.*
use Steps.{
  swept, Sweeps, from_best, match_loop-from_best, match_loop-filled, loop-filled, loop-part,
}
use order_matching_engine_ru.Prelude.{
  ℕ, zero, suc, ◌+◌, ◌-◌, ◌<◌, ◌≤◌, ◌^◌, ◌≡◌, refl, sym, ap, ◌∙◌, inl, inr, true, false, List, [],
  ◌∷◌, ◌++◌, Option, none, some, Outcome, ok, ◌>>=◌, arith, ◌==◌, add_u64, Bool-cases, or_false,
}
use mathlib.Core.Path.{subst}
use mathlib.Core.List.{append-nil, append_assoc}
use native.Mathlib.Decide.{dec_le}
use order_matching_engine_ru.Core.Types.{
  Price, Side, opposite, Order, OrderType, OutputEvent, trade, filled, partially_filled,
}
use order_matching_engine_ru.Core.Slab.{Slab, index}
use order_matching_engine_ru.Core.Book.{OrderBook, Levels, Location, side_levels}
use order_matching_engine_ru.Core.PriceLevel.{PriceLevel}
use order_matching_engine_ru.Core.Book.Chain.{Entries, has, IsDistinct}
use order_matching_engine_ru.Core.Book.Queue.{Holds}
use order_matching_engine_ru.Core.Book.Sides.{
  side_levels-with_levels, with_levels-side_levels, with_levels-with_levels,
}
use order_matching_engine_ru.Core.Matcher.Loop.{
  MatchState, done, again, crosses, match_round, match_loop, match_best, match_at,
}
use order_matching_engine_ru.Core.Maps.{KeyOrder, HashMap, erase}
use order_matching_engine_ru.Core.Maps.Laws.{IsSorted}
use order_matching_engine_ru.Core.Matcher.Sweep.{
  Ladder, Maker, makers, queue_makers, Swept, sweep, stopped, or_else, without, reduced,
  sweep_filled, sweep_uncrossed, sweep_all, sweep_part,
}
use order_matching_engine_ru.Core.Matcher.Ladder.{
  entries, rung, AllOpen, Stands, entries-rung, makers-rung, rung-IsSorted,
}
use order_matching_engine_ru.Core.Matcher.Round.{after, none_left, match_at-filled, match_at-part}

module _ (S : Slab Order) (side : Side) (kind : OrderType) (limit : Price) (k seq ts : ℕ) where
  open S use {Arena, get}

  -- A round against a best level with its first order.
  best_front :
      (f : ℕ)
      → Sweeps S side kind limit k seq ts f
      → (t : Order) (p : Price) (l : PriceLevel) (m : Levels) (c : ℕ) (o : Order) (q : Entries)
        (v : Ladder) (s : MatchState S)
      → side_levels S (opposite side) s.book ≡ (p, l) ∷ m
      → Holds S s.book.arena l ((c, o) ∷ q)
      → Stands S s.book.arena m v
      → Ready S side k t ((p, (c, o) ∷ q) ∷ v) s.book
      → s.total_filled + t.remaining < 2 ^ 64
      → t.remaining < suc f
      → (t.remaining == 0) ≡ false
      → Matched S side k t
          ((p, (c, o) ∷ q) ∷ v)
          s
          (swept S side kind limit k seq ts t ((p, (c, o) ∷ q) ∷ v))
          (from_best S side kind limit k seq ts f ((p, l) ∷ m) s)
  unfolding match_best
  best_front f ih t p l m c o q v s at hold others r fits fuel more =
      let ms = queue_makers p q ++ makers v in
      let maker : Maker = record { price = p; slot = c; order = o } in
      elim (Bool-cases (crosses side kind limit p)) [
        | inr past ↦
            rw
              (
                past,
                sweep_uncrossed (crosses side kind limit) side t.id seq ts t.remaining maker ms
                    past,
              )
              (Matched-stopped S side k t ((p, (c, o) ∷ q) ∷ v) s r fits)
        | inl crossed ↦ elim (dec_le o.remaining t.remaining) [
          | yes le ↦
              let (m', a, run, stands, taker, same) =
                match_at-filled S side s.book p l m c o q v k t at hold others r.distinct r.taker
                  r.outside seq ts s.total_filled s.out le in
              loop-filled S side kind limit k seq ts f t p l m c o q v s m' a ih r fits fuel more
                crossed same run stands taker le
          | no gt ↦
              let lt : t.remaining < o.remaining = omega arith in
              let (m', a, run, stands, taker, same) =
                match_at-part S side s.book p l m c o q v k t at hold others r.distinct r.taker
                  r.outside seq ts s.total_filled s.out lt in
              loop-part S side kind limit k seq ts f t p l m c o q v s m' a ih r fits fuel more
                crossed same run stands taker lt
        ]
      ]

  -- The first round against the best level, when the taker has something left.
  best_round :
      (f : ℕ)
      → Sweeps S side kind limit k seq ts f
      → (t : Order) (v : Ladder) (s : MatchState S) (ms : Levels)
      → side_levels S (opposite side) s.book ≡ ms
      → Stands S s.book.arena ms v
      → Ready S side k t v s.book
      → s.total_filled + t.remaining < 2 ^ 64
      → t.remaining < suc f
      → (t.remaining == 0) ≡ false
      → Matched S side k t v s
          (swept S side kind limit k seq ts t v)
          (from_best S side kind limit k seq ts f ms s)
  unfolding match_best sweep
  best_round f ih t [] s [] at h r fits fuel more = Matched-stopped S side k t [] s r fits
  best_round f ih t (_ ∷ _) s [] at h r fits fuel more = absurd h
  best_round f ih t [] s (_ ∷ _) at h r fits fuel more = absurd h
  best_round f ih t ((_, []) ∷ _) s (_ ∷ _) at h r fits fuel more = absurd h
  best_round f ih t ((p', (c, o) ∷ q) ∷ v) s ((p, l) ∷ m) at (same_price, hold, others) r fits fuel
        more =
      let r' = subst (λ x. Ready S side k t ((x, (c, o) ∷ q) ∷ v) s.book) (sym same_price) r in
      subst
        (λ x.
          Matched S side k t ((x, (c, o) ∷ q) ∷ v) s
            (swept S side kind limit k seq ts t ((x, (c, o) ∷ q) ∷ v))
            (from_best S side kind limit k seq ts f ((p, l) ∷ m) s))
        same_price (best_front f ih t p l m c o q v s at hold others r' fits fuel more)

  -- With more rounds than the taker has units the loop ends, and does what the sweep says.
  pub match_loop-swept : (f : ℕ) → Sweeps S side kind limit k seq ts f
  match_loop-swept zero t v s r fits fuel = absurd (omega arith)
  match_loop-swept (suc f) t v s r fits fuel = elim (Bool-cases (t.remaining == 0)) [
    | inl none_left ↦
        rw
          (
            match_loop-filled S side kind limit k seq ts f t s r.taker none_left,
            sweep_filled (crosses side kind limit) side t.id seq ts t.remaining (makers v)
                none_left,
          )
          (Matched-stopped S side k t v s r fits)
    | inr more ↦ rw (match_loop-from_best S side kind limit k seq ts f t s r.taker more) (
        best_round f (match_loop-swept f) t v s (side_levels S (opposite side) s.book) refl r.stands
          r fits fuel more)
  ]
