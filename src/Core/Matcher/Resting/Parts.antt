-- ===== src/Core/Matcher/Resting/Parts.antt =====
-- The steps of `apply_new` behind the match, for a limit order that rests.
use order_matching_engine_ru.Prelude.{
  ℕ, ◌≡◌, refl, sym, ap, ◌∙◌, inl, inr, true, false, none, some, [], ◌∷◌, ◌++◌, arith, ok, ◌>>=◌,
  ◌==◌, ltb, if◌then◌else◌, Bool-cases,
}
use mathlib.Core.Path.{subst}
use mathlib.Core.List.{append-nil}
use order_matching_engine_ru.Core.Types.{
  Price, Side, opposite, Order, NewOrder, new_order, partially_filled,
}
use order_matching_engine_ru.Core.Slab.{Slab, index}
use order_matching_engine_ru.Core.Maps.{find, insert}
use order_matching_engine_ru.Core.PriceLevel.{PriceLevel}
use order_matching_engine_ru.Core.Book.{
  OrderBook, Levels, level_or_new, side_levels, with_levels, insert_resting,
}
use order_matching_engine_ru.Core.Book.Chain.{Entries, has}
use order_matching_engine_ru.Core.Book.Queue.{Holds, has-append}
use order_matching_engine_ru.Core.Matcher.{is_limit, settle, finish}
use order_matching_engine_ru.Core.Matcher.Loop.{Events}
use order_matching_engine_ru.Core.Matcher.Sweep.{Ladder}
use order_matching_engine_ru.Core.Matcher.Ladder.{entries, Stands, Stands-frame, Holds-frame}
use order_matching_engine_ru.Core.Matcher.Refinement.{Ready}
use order_matching_engine_ru.Core.Matcher.Immediate.{IsOpen, side_levels_same}
use order_matching_engine_ru.Core.Matcher.Immediate.Admission.{vacant-Chain, placed}

-- A slot in a queue is not one outside it.
pub apart_from : (k j : ℕ) (es : Entries) → has j es ≡ true → has k es ≡ false → (k == j) ≡ false
apart_from k j es inside out = elim (Bool-cases (k == j)) [
  | inl equal ↦
      let e : k ≡ j = ground (arith, equal) in
      let clash : false ≡ true = sym out ∙ subst (λ (i : ℕ). has i es ≡ true) (sym e) inside in
      absurd cc
  | inr other ↦ other
]

-- What is said of the trades of an order that rests.
abbrev pub part_event : ℕ → ℕ → ℕ → ℕ → Events
part_event id seq fill rest = if ltb 0 fill then partially_filled id fill rest seq ∷ [] else []

-- The order as it rests.
abbrev pub rest_of : NewOrder → ℕ → ℕ → ℕ → Order
rest_of n seq ts r = record (new_order n seq ts) { remaining = r }

module _ (S : Slab Order) where
  open S use {Arena, get, key}

  -- The level of a price, or a new one where there is none.
  abbrev pub level_at : Side → Price → OrderBook S → PriceLevel
  level_at side p b = level_or_new (find p (side_levels S side b))

  -- The index with the place of the order.
  abbrev pub indexed : NewOrder → ℕ → OrderBook S → OrderBook S
  indexed n k b = record b {
    id_index = insert n.id (record { price = n.price; side = n.side; slot = k }) b.id_index;
  }

  settle-resting :
      (n : NewOrder) (k seq : ℕ) (b : OrderBook S) (out : Events)
      → is_limit n.kind ≡ true
      → settle S n k seq b out ≡ (insert_resting S k (indexed n k b) >>= λ b'. ok (b', out))
  unfolding settle
  settle-resting n k seq b out kind = rw kind refl

  finish-settle :
      (n : NewOrder) (k seq fill : ℕ) (o : Order) (b : OrderBook S) (out : Events)
      → get b.arena k ≡ some o
      → (o.remaining == 0) ≡ false
      → finish S n k fill seq b out
        ≡ settle S n k seq b (out ++ part_event n.id seq fill o.remaining)
  unfolding finish index
  finish-settle n k seq fill o b out at left = elim (Bool-cases (ltb 0 fill)) [
    | inl more ↦ rw (at, more, left) refl
    | inr nothing ↦
        let same : finish S n k fill seq b out ≡ settle S n k seq b out = rw (at, nothing) refl in
        let quiet : out ≡ out ++ part_event n.id seq fill o.remaining =
          rw nothing (sym (append-nil out)) in
        same ∙ ap (settle S n k seq b) quiet
  ]

  pub finish-resting :
      (n : NewOrder) (k seq fill : ℕ) (o : Order) (b b' : OrderBook S) (out : Events)
      → get b.arena k ≡ some o
      → (o.remaining == 0) ≡ false
      → is_limit n.kind ≡ true
      → insert_resting S k (indexed n k b) ≡ ok b'
      → finish S n k fill seq b out ≡ ok (b', out ++ part_event n.id seq fill o.remaining)
  finish-resting n k seq fill o b b' out at left kind run =
      finish-settle n k seq fill o b out at left
      ∙ settle-resting n k seq b (out ++ part_event n.id seq fill o.remaining) kind
      ∙ ap (λ x. x >>= λ b'. ok (b', out ++ part_event n.id seq fill o.remaining)) run

  pub side_levels-opposite :
      (side : Side) (m : Levels) (b : OrderBook S)
      → side_levels S (opposite side) (with_levels S side m b) ≡ side_levels S (opposite side) b
  unfolding opposite
  side_levels-opposite Side.buy m b = refl
  side_levels-opposite Side.sell m b = refl

  -- The queue of the order's own price is as it was when the match is over.
  pub own-Holds :
      (n : NewOrder) (seq ts : ℕ) (b : OrderBook S) (v v' : Ladder) (q : Entries) (arena : Arena)
      (l : PriceLevel)
      → Holds S b.arena l q
      → ((j : ℕ) → has j q ≡ true → has j (entries v) ≡ false)
      → ((j : ℕ)
          → has j (entries v) ≡ false
          → (has j (entries v') ≡ false)
            × ((key b.arena == j) ≡ false → get arena j ≡ get (placed S n seq ts b).arena j))
      → (has (key b.arena) q ≡ false) × Holds S arena l q
  own-Holds n seq ts b v v' q arena l h apart same =
      let k = key b.arena in
      let out = vacant-Chain S b.arena k none q none (S.key_vacant b.arena) h.chain in
      (
        out,
        Holds-frame S b.arena arena l q
            (λ j inside.
              let other : (k == j) ≡ false = apart_from k j q inside out in
              (same j (apart j inside)).1 other
              ∙ ground (arith, S.get-insert b.arena (new_order n seq ts) j, other))
            h,
      )

  pub rested-IsOpen :
      (n : NewOrder) (k : ℕ) (o t : Order) (v v' : Ladder) (q : Entries) (b : OrderBook S)
      (m : Levels) (a : Arena)
      → Ready S n.side k t v' b
      → ((j : ℕ) → has j q ≡ true → has j (entries v) ≡ false)
      → ((j : ℕ) → has j (entries v) ≡ false → has j (entries v') ≡ false)
      → ((j : ℕ) → has j (q ++ (k, o) ∷ []) ≡ false → get a j ≡ get b.arena j)
      → IsOpen S n.side v' (with_levels S n.side m (record (indexed n k b) { arena = a }))
  rested-IsOpen n k o t v v' q b m a ready apart within same = record {
    stands =
        subst (λ ls. Stands S a ls v')
          (sym (
            side_levels-opposite n.side m (record (indexed n k b) { arena = a })
            ∙ side_levels_same S (opposite n.side) b (record (indexed n k b) { arena = a }) refl
                refl))
          (Stands-frame S b.arena a (side_levels S (opposite n.side) b) v'
            (λ j inside. same j (
              ground (
                arith,
                has-append j q ((k, o) ∷ []),
                apart j,
                within j,
                inside,
                apart_from k j (entries v') inside ready.outside,
              )))
            ready.stands);
    distinct = ready.distinct;
    all_open = ready.all_open;
  }
