-- ===== src/Core/Matcher/Resting.antt =====
-- `apply_new` on a limit order that the other side cannot fill: the rest of it joins the book.
pub mod Parts
mod Examples
pub use Parts.{level_at, part_event, rest_of}
use Parts.{indexed, finish-resting, own-Holds, rested-IsOpen}
use order_matching_engine_ru.Prelude.{
  ℕ, suc, ◌+◌, ◌-◌, ◌≤◌, ◌<◌, ◌^◌, ◌≡◌, refl, sym, ap, ◌∙◌, ◌⊎◌, inl, inr, Bool, true, false,
  Option, none, some, List, [], ◌∷◌, ◌++◌, arith, ok, ◌>>=◌, ◌==◌, ltb, if◌then◌else◌, Bool-cases,
  ==_refl,
}
use mathlib.Core.Path.{subst}
use mathlib.Core.List.{append-nil, append_assoc}
use order_matching_engine_ru.Core.Types.{
  Price, Side, opposite, Order, NewOrder, new_order, accepted, partially_filled,
}
use order_matching_engine_ru.Core.Slab.{Slab, index}
use order_matching_engine_ru.Core.Maps.{KeyOrder, find, put, lookup, insert}
use order_matching_engine_ru.Core.Maps.Laws.{IsSorted, lookup-insert}
use order_matching_engine_ru.Core.PriceLevel.{PriceLevel}
use order_matching_engine_ru.Core.Book.{
  OrderBook, Levels, Location, before, level_or_new, side_levels, with_levels, insert_resting,
}
use order_matching_engine_ru.Core.Book.Sides.{
  side_levels-with_levels, side_levels-with_levels-opposite,
}
use order_matching_engine_ru.Core.Book.Chain.{Entries, has, SameOutside}
use order_matching_engine_ru.Core.Book.Queue.{
  Holds, Leaves, at_level, has-append, total_remaining, insert_resting-append,
}
use order_matching_engine_ru.Core.Matcher.{Result, is_limit, settle, finish, execute, apply_new}
use order_matching_engine_ru.Core.Matcher.Loop.{Events, crosses}
use order_matching_engine_ru.Core.Matcher.Sweep.{Ladder, makers, or_else, without}
use order_matching_engine_ru.Core.Matcher.Sweep.Facts.{IsUncrossed, sweep-done}
use order_matching_engine_ru.Core.Matcher.Ladder.{entries, Stands, Stands-frame, Holds-frame}
use order_matching_engine_ru.Core.Matcher.Refinement.{Ready}
use order_matching_engine_ru.Core.Matcher.MatchOrder.{swept_book, match_order-after}
use order_matching_engine_ru.Core.Matcher.Immediate.{
  sweep_for, IsOpen, HasNoStops, IsAdmitted, side_levels_same,
}
use order_matching_engine_ru.Core.Matcher.Immediate.Admission.{
  vacant-Chain, placed, placed-Ready, apply_new-execute,
}
use order_matching_engine_ru.Core.Matcher.Immediate.Ending.{check_stops_none}

pub still_left : {r : ℕ} {P : Type 0} → (r == 0) ≡ false → (r ≡ 0) ⊎ P → P
still_left left (inl done) = absurd (ground (arith, left, done))
still_left left (inr h) = h

module _ (S : Slab Order) where
  open S use {Arena, get, key}

  -- What the rest of a limit order needs of its own side: its price stands for a queue, apart from the
  -- makers, with room in the level's total.
  pub record HasRoom (n : NewOrder) (v : Ladder) (q : Entries) (b : OrderBook S) : Type 0 where
    pub own : Holds S b.arena (level_at S n.side n.price b) q
    pub apart : (j : ℕ) → has j q ≡ true → has j (entries v) ≡ false
    pub fits : total_remaining q + n.qty < 2 ^ 64

  -- What `insert_resting` makes of the book that the match leaves.
  abbrev rested : NewOrder → Levels → Arena → OrderBook S → OrderBook S
  rested n m a b = with_levels S n.side m (record (indexed S n (key b.arena) b) { arena = a })

  pub own_levels :
      (n : NewOrder) (seq ts : ℕ) (levels : Levels) (arena : Arena) (v : Ladder) (b : OrderBook S)
      → side_levels S n.side (
          indexed S n
            (key b.arena)
            (swept_book S n.side levels arena (sweep_for n seq ts v) (placed S n seq ts b)))
        ≡ side_levels S n.side b
  own_levels n seq ts levels arena v b =
      let w = sweep_for n seq ts v in
      let p : OrderBook S = record (placed S n seq ts b) {
        arena = arena;
        id_index = without w.fills b.id_index;
        last_trade = or_else w.last b.last_trade;
      } in
      side_levels_same S n.side (swept_book S n.side levels arena w (placed S n seq ts b))
        (indexed S n (key b.arena) (swept_book S n.side levels arena w (placed S n seq ts b))) refl
        refl
      ∙ side_levels-with_levels-opposite S n.side levels p
      ∙ side_levels_same S n.side b p refl refl

  -- The book that the match leaves, before the rest joins its level.
  abbrev pub matched_book : NewOrder → ℕ → ℕ → Ladder → Levels → Arena → OrderBook S → OrderBook S
  matched_book n seq ts v levels arena b =
      indexed S n (key b.arena)
        (swept_book S n.side levels arena (sweep_for n seq ts v) (placed S n seq ts b))

  -- A run of `apply_new` that rests, with the book that it leaves written out.
  pub record Rests (seq ts : ℕ) (n : NewOrder) (b : OrderBook S) (v : Ladder) (q : Entries)
      (out : Events) (run : Result S) : Type 0 where
    pub levels : Levels
    pub matched : Arena
    pub ladder : Ladder
    pub arena : Arena
    pub level : PriceLevel
    pub ran :
        let w = sweep_for n seq ts v in
        run
        ≡ ok (
          at_level S n.side n.price level arena (matched_book n seq ts v levels matched b),
          out ++ accepted n.id seq ∷ [] ++ w.events ++ part_event n.id seq (n.qty - w.rest) w.rest,
        )
    pub ready :
        let w = sweep_for n seq ts v in
        Ready S n.side
          (key b.arena)
          (rest_of n seq ts w.rest)
          ladder
          (swept_book S n.side levels matched w (placed S n seq ts b))
    pub left : makers ladder ≡ (sweep_for n seq ts v).left
    pub rest_le : (sweep_for n seq ts v).rest ≤ n.qty
    pub hold :
        Holds S arena level (q ++ (key b.arena, rest_of n seq ts (sweep_for n seq ts v).rest) ∷ [])
    pub frame :
        (j : ℕ)
        → has j (entries v) ≡ false
        → (has j (entries ladder) ≡ false)
          × ((key b.arena == j) ≡ false → get matched j ≡ get (placed S n seq ts b).arena j)
    pub kept :
        SameOutside S
          (q ++ (key b.arena, rest_of n seq ts (sweep_for n seq ts v).rest) ∷ [])
          matched
          arena
    pub sorted : (order : KeyOrder) → IsSorted order v → IsSorted order ladder

  pub apply_new-Rests :
      (fuel seq ts : ℕ) (n : NewOrder) (b : OrderBook S) (v : Ladder) (q : Entries) (out : Events)
      → IsAdmitted S n b
      → IsOpen S n.side v b
      → HasNoStops S b
      → HasRoom n v q b
      → is_limit n.kind ≡ true
      → ((sweep_for n seq ts v).rest == 0) ≡ false
      → Rests seq ts n b v q out (apply_new S (suc fuel) seq ts n b out)
  unfolding execute new_order
  apply_new-Rests fuel seq ts n b v q out g h stops room kind left =
      let k = key b.arena in
      let w = sweep_for n seq ts v in
      let (levels, arena, v', run, ready, makers_left, le, same, sorted) =
        match_order-after S k seq ts (new_order n seq ts) v (placed S n seq ts b)
          (out ++ accepted n.id seq ∷ []) (placed-Ready S n seq ts b v h) g.small in
      let b₁ = swept_book S n.side levels arena w (placed S n seq ts b) in
      let o = rest_of n seq ts w.rest in
      let (outside, own) =
        own-Holds S n seq ts b v v' q arena (level_at S n.side n.price b) room.own room.apart
          same in
      let at = own_levels n seq ts levels arena v b in
      let (a, l, inserted, hold, kept) =
        insert_resting-append S (indexed S n k b₁) k o q ready.taker
          (subst (λ ls. Holds S arena (level_or_new (find n.price ls)) q) (sym at) own) outside
          (omega (arith, room.fits, le)) in
      let b₃ = at_level S n.side n.price l a (indexed S n k b₁) in
      let fin =
        finish-resting S n k seq (n.qty - w.rest) o b₁ b₃
          (out ++ accepted n.id seq ∷ [] ++ w.events) ready.taker left kind inserted in
      let quiet =
        check_stops_none S (apply_new S fuel seq ts) b₃
          (out ++ accepted n.id seq ∷ [] ++ w.events ++ part_event n.id seq (n.qty - w.rest) w.rest)
          (record { buys = stops.buys; sells = stops.sells }) in
      record {
        levels = levels;
        matched = arena;
        ladder = v';
        arena = a;
        level = l;
        ran = apply_new-execute S fuel seq ts n b out g ∙ rw (run, fin) quiet;
        ready = ready;
        left = makers_left;
        rest_le = le;
        hold = hold;
        frame = same;
        kept = kept;
        sorted = sorted;
      }

  -- An admitted limit order that the other side, a ladder of open orders, cannot fill, with no stop order
  -- waiting and room on its own side. `apply_new` returns. After the acknowledgement come the events of
  -- the sweep over the makers by price and time, and `PartiallyFilled` if there was a trade. The other
  -- side stands for the makers that the sweep leaves, and the order crosses none of them. On its own side
  -- only the level of its price changes, which stands for the queue with the rest of the order at its
  -- back. The index has its place, and still no stop order waits.
  pub apply_new-append :
      (fuel seq ts : ℕ) (n : NewOrder) (b : OrderBook S) (v : Ladder) (q : Entries) (out : Events)
      → IsAdmitted S n b
      → IsOpen S n.side v b
      → HasNoStops S b
      → HasRoom n v q b
      → is_limit n.kind ≡ true
      → ((sweep_for n seq ts v).rest == 0) ≡ false
      → let w = sweep_for n seq ts v in
        (b' : OrderBook S) × (v' : Ladder) × (l : PriceLevel) × (apply_new S
            (suc fuel)
            seq
            ts
            n
            b
            out
          ≡ ok (
            b',
            out
                ++ accepted n.id seq ∷ []
                ++ w.events
                ++ part_event n.id seq (n.qty - w.rest) w.rest,
          ))
        × IsOpen S n.side v' b'
        × (makers v' ≡ w.left)
        × IsUncrossed (crosses n.side n.kind n.price) w.left
        × (side_levels S n.side b' ≡ put (before n.side) n.price l (side_levels S n.side b))
        × Holds S b'.arena l (q ++ (key b.arena, rest_of n seq ts w.rest) ∷ [])
        × (lookup n.id b'.id_index
            ≡ some (record { price = n.price; side = n.side; slot = key b.arena }))
        × HasNoStops S b'
  apply_new-append fuel seq ts n b v q out g h stops room kind left =
      let k = key b.arena in
      let w = sweep_for n seq ts v in
      let r = apply_new-Rests fuel seq ts n b v q out g h stops room kind left in
      let b₁ = swept_book S n.side r.levels r.matched w (placed S n seq ts b) in
      let o = rest_of n seq ts w.rest in
      (
        at_level S n.side n.price r.level r.arena (indexed S n k b₁),
        r.ladder,
        r.level,
        r.ran,
        rested-IsOpen S n k o o v r.ladder q b₁ _ r.arena r.ready room.apart
            (λ j out. (r.frame j out).0) r.kept,
        r.left,
        still_left left
            (sweep-done (crosses n.side n.kind n.price) n.side n.id seq ts n.qty (makers v)),
        side_levels-with_levels S n.side
              (put (before n.side) n.price r.level (side_levels S n.side (indexed S n k b₁)))
              (record (indexed S n k b₁) { arena = r.arena })
            ∙ ap (put (before n.side) n.price r.level) (own_levels n seq ts r.levels r.matched v b),
        r.hold,
        lookup-insert n.id n.id (record { price = n.price; side = n.side; slot = k }) b₁.id_index
            ∙ rw (==_refl n.id) refl,
        record { buys = stops.buys; sells = stops.sells },
      )
