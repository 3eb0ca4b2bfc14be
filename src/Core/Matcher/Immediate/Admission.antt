-- ===== src/Core/Matcher/Immediate/Admission.antt =====
-- An order that `apply_new` lets through, and the book that it is matched on.
use order_matching_engine_ru.Prelude.{
  ℕ, suc, ◌<◌, ◌^◌, ◌≡◌, refl, sym, ◌∙◌, inl, inr, false, ◌&&◌, Option, none, some, List, [], ◌∷◌,
  ◌++◌, arith, ◌==◌, ltb, Bool-cases,
}
use mathlib.Core.Path.{subst}
use order_matching_engine_ru.Prelude.Int.{pos, leb_ℤ}
use order_matching_engine_ru.Core.Types.{
  Side, opposite, Order, NewOrder, new_order, accepted, has_limit_price, is_stop, is_fok,
}
use order_matching_engine_ru.Core.Slab.{Slab}
use order_matching_engine_ru.Core.Maps.{HashMap, lookup, erase}
use order_matching_engine_ru.Core.Maps.Laws.{lookup-erase}
use order_matching_engine_ru.Core.Book.{OrderBook, Levels, side_levels}
use order_matching_engine_ru.Core.Book.Chain.{Entries, linked, first, has, Chain, IsDistinct}
use order_matching_engine_ru.Core.Book.Queue.{has-append}
use order_matching_engine_ru.Core.Matcher.{execute, apply_new_with, apply_new}
use order_matching_engine_ru.Core.Matcher.Loop.{Events, available_qty, crosses}
use order_matching_engine_ru.Core.Matcher.Sweep.{Ladder, Maker, Swept, makers, sweep, without}
use order_matching_engine_ru.Core.Matcher.Ladder.{entries, AllOpen, Stands, Stands-frame}
use order_matching_engine_ru.Core.Matcher.Refinement.{Ready}

-- The specification of the match of a new order.
abbrev pub sweep_for : NewOrder → ℕ → ℕ → Ladder → Swept
sweep_for n seq ts v = sweep (crosses n.side n.kind n.price) n.side n.id seq ts n.qty (makers v)

pub lookup-without :
    {V : Type 0} (id : ℕ) (ms : List Maker) (ids : HashMap V)
    → lookup id ids ≡ none
    → lookup id (without ms ids) ≡ none
lookup-without id [] ids h = h
lookup-without id (m ∷ ms) ids h =
    lookup-without id ms (erase m.order.id ids) (ground (arith, h, lookup-erase m.order.id id ids))

module _ (S : Slab Order) where
  open S use {Arena, get, key}

  -- The other side of the book stands for a ladder of open orders.
  pub record IsOpen (side : Side) (v : Ladder) (b : OrderBook S) : Type 0 where
    pub stands : Stands S b.arena (side_levels S (opposite side) b) v
    pub distinct : IsDistinct (entries v)
    pub all_open : AllOpen (entries v)

  -- No stop order waits.
  pub record HasNoStops (b : OrderBook S) : Type 0 where
    pub buys : b.stop_buys ≡ []
    pub sells : b.stop_sells ≡ []

  -- An order that gets as far as the match.
  pub record IsAdmitted (n : NewOrder) (b : OrderBook S) : Type 0 where
    pub some_qty : 0 < n.qty
    pub small : n.qty < 2 ^ 64
    pub new : lookup n.id b.id_index ≡ none
    pub good : (has_limit_price n.kind && leb_ℤ n.price (pos 0)) ≡ false
    pub no_stop : is_stop n.kind ≡ false
    pub fillable : (is_fok n.kind && ltb (available_qty S n.side n.price b) n.qty) ≡ false

  -- A vacant slot is in no queue.
  pub vacant-Chain :
      (a : Arena) (k : ℕ) (p : Option ℕ) (q : Entries) (e : Option ℕ)
      → get a k ≡ none
      → Chain S a p q e
      → has k q ≡ false
  vacant-Chain a k p [] e free c = refl
  vacant-Chain a k p ((s, o) ∷ q) e free (cell, c) = elim (Bool-cases (s == k)) [
    | inl same ↦
        let at : s ≡ k = ground (arith, same) in
        let clash : none ≡ some (linked p (first q e) o) =
          sym free ∙ subst (λ (j : ℕ). get a j ≡ some (linked p (first q e) o)) at cell in
        absurd cc
    | inr other ↦ ground (arith, other, vacant-Chain a k (some s) q e free c)
  ]

  pub vacant-Stands :
      (a : Arena) (k : ℕ) (m : Levels) (v : Ladder)
      → get a k ≡ none
      → Stands S a m v
      → has k (entries v) ≡ false
  vacant-Stands a k [] [] free h = refl
  vacant-Stands a k [] (_ ∷ _) free h = absurd h
  vacant-Stands a k (_ ∷ _) [] free h = absurd h
  vacant-Stands a k (_ ∷ _) ((_, []) ∷ _) free h = absurd h
  vacant-Stands a k ((p, l) ∷ m) ((p', e ∷ q) ∷ v) free (_, h, hs) = ground (
    arith,
    has-append k (e ∷ q) (entries v),
    vacant-Chain a k none (e ∷ q) none free h.chain,
    vacant-Stands a k m v free hs,
  )

  -- The book with the order in the arena.
  abbrev pub placed : NewOrder → ℕ → ℕ → OrderBook S → OrderBook S
  placed n seq ts b = record b { arena = S.insert b.arena (new_order n seq ts) }

  pub side_levels-placed :
      (side : Side) (n : NewOrder) (seq ts : ℕ) (b : OrderBook S)
      → side_levels S side (placed n seq ts b) ≡ side_levels S side b
  side_levels-placed Side.buy n seq ts b = refl
  side_levels-placed Side.sell n seq ts b = refl

  pub placed-Ready :
      (n : NewOrder) (seq ts : ℕ) (b : OrderBook S) (v : Ladder)
      → IsOpen n.side v b
      → Ready S n.side (key b.arena) (new_order n seq ts) v (placed n seq ts b)
  placed-Ready n seq ts b v h =
      let free = S.key_vacant b.arena in
      let out =
        vacant-Stands b.arena (key b.arena) (side_levels S (opposite n.side) b) v free h.stands in
      record {
        stands =
            subst (λ m. Stands S (placed n seq ts b).arena m v)
              (sym (side_levels-placed (opposite n.side) n seq ts b))
              (Stands-frame S b.arena (placed n seq ts b).arena (side_levels S (opposite n.side) b)
                v
                (λ j inside.
                  ground (arith, S.get-insert b.arena (new_order n seq ts) j, inside, out))
                h.stands);
        distinct = h.distinct;
        all_open = h.all_open;
        taker = ground (arith, S.get-insert b.arena (new_order n seq ts) (key b.arena));
        outside = out;
      }

  pub apply_new-execute :
      (fuel seq ts : ℕ) (n : NewOrder) (b : OrderBook S) (out : Events)
      → IsAdmitted n b
      → apply_new S (suc fuel) seq ts n b out
        ≡ execute S (apply_new S fuel seq ts) n seq ts b (out ++ accepted n.id seq ∷ [])
  unfolding apply_new
  apply_new-execute fuel seq ts n b out g =
      let some_qty : (n.qty == 0) ≡ false = ground (arith, g.some_qty) in
      rw (apply_new_with, some_qty, g.new, g.good, g.no_stop, g.fillable) refl
