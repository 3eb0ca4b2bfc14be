-- ===== src/Core/Whole/Ended.antt =====
-- crates/core/src/matcher.rs: `apply_new` on a well-formed book, for an order that does not rest.
use order_matching_engine_ru.Prelude.{
  ℕ, suc, ◌-◌, ◌≡◌, refl, sym, ◌∙◌, ◌⊎◌, Bool, true, false, none, some, List, [], ◌∷◌, ◌++◌, arith,
  ok, ◌==◌, if◌then◌else◌, inl, inr, Bool-cases,
}
use mathlib.Core.Path.{subst}
use order_matching_engine_ru.Core.Types.{Side, opposite, NewOrder, new_order, Order, accepted}
use order_matching_engine_ru.Core.Slab.{Slab}
use order_matching_engine_ru.Core.Maps.{HashMap, lookup, erase}
use order_matching_engine_ru.Core.Maps.Laws.{lookup-erase}
use order_matching_engine_ru.Core.Book.{OrderBook, Levels, Location, side_levels}
use order_matching_engine_ru.Core.Book.Sides.{side_levels-with_levels-opposite}
use order_matching_engine_ru.Core.Matcher.{is_limit, apply_new}
use order_matching_engine_ru.Core.Matcher.Loop.{Events}
use order_matching_engine_ru.Core.Matcher.Ladder.{entries, Stands, Stands-frame}
use order_matching_engine_ru.Core.Matcher.Sweep.{Ladder, Maker, makers, without}
use order_matching_engine_ru.Core.Matcher.Refinement.{Ready}
use order_matching_engine_ru.Core.Matcher.MatchOrder.{swept_book}
use order_matching_engine_ru.Core.Matcher.Resting.Parts.{apart_from}
use order_matching_engine_ru.Core.Matcher.Immediate.{
  sweep_for, IsOpen, IsAdmitted, ending, ended, ended-IsOpen, execute-ended, side_levels_same,
  traded,
}
use order_matching_engine_ru.Core.Matcher.Immediate.Admission.{placed, apply_new-execute}
use order_matching_engine_ru.Core.Whole.Kept.{
  entries_of-makers, AllKept, AllKept-AllOpen, AllKept-frame, has_id_unknown, has_id_differs,
}
use order_matching_engine_ru.Core.Whole.Unique.{IsUnique, erase-IsUnique, without-IsUnique}
use order_matching_engine_ru.Core.Whole.Invariant.{IsBook}
use order_matching_engine_ru.Core.Whole.Matched.{Behind, match-Behind}

-- Taking an id that no maker has out of the index concerns no maker.
pub AllKept-unused :
    (side : Side) (id : ℕ) (ids ids' : HashMap Location) (ms : List Maker)
    → ((j : ℕ) → (id == j) ≡ false → lookup j ids' ≡ lookup j ids)
    → lookup id ids ≡ none
    → AllKept side ids ms
    → AllKept side ids' ms
AllKept-unused side id ids ids' ms same new a =
    let unused = has_id_unknown side ids id ms a new in
    AllKept-frame side ids ids' ms (λ j k. same j (has_id_differs id j ms k unused)) a

lookup-index_after :
    (c : Bool) (id j : ℕ) (ids : HashMap Location)
    → (id == j) ≡ false
    → lookup j (if c then erase id ids else ids) ≡ lookup j ids
lookup-index_after true id j ids other = lookup-erase id j ids ∙ rw other refl
lookup-index_after false id j ids other = refl

known_before :
    (c : Bool) (id j : ℕ) (ids : HashMap Location) (loc : Location)
    → lookup j (if c then erase id ids else ids) ≡ some loc
    → lookup j ids ≡ some loc
known_before true id j ids loc at = elim (Bool-cases (id == j)) [
  | inl same ↦
      let gone : none ≡ some loc = sym (lookup-erase id j ids ∙ rw same refl) ∙ at in absurd cc
  | inr other ↦ sym (lookup-erase id j ids ∙ rw other refl) ∙ at
]
known_before false id j ids loc at = at

IsUnique-after :
    (c : Bool) (id : ℕ) (ids : HashMap Location)
    → IsUnique ids
    → IsUnique (if c then erase id ids else ids)
IsUnique-after true id ids u = erase-IsUnique id ids u
IsUnique-after false id ids u = u

module _ (S : Slab Order) where
  open S use {Arena, get, key}

  -- The other side of a well-formed book is a ladder of open orders.
  pub far-IsOpen :
      (side : Side) (own other : Ladder) (b : OrderBook S)
      → IsBook S side own other b
      → IsOpen S side other b
  far-IsOpen side own other b h = record {
    stands = h.far.stands;
    distinct = h.far.distinct;
    all_open =
        rw (sym (entries_of-makers other))
          (AllKept-AllOpen (opposite side) b.id_index (makers other) h.far.kept);
  }

  ended-IsBook :
      (seq ts : ℕ) (n : NewOrder) (b : OrderBook S) (own other left : Ladder) (levels : Levels)
      (arena : Arena)
      → IsBook S n.side own other b
      → let w = sweep_for n seq ts other in
        let b₁ = swept_book S n.side levels arena w (placed S n seq ts b) in
        (t : Order)
        → Ready S n.side (key b.arena) t left b₁
        → Behind S n own left (without w.fills b.id_index) arena b
        → IsBook S n.side own left (ended S n (key b.arena) w.rest b₁)
  ended-IsBook seq ts n b own other left levels arena h t ready behind =
      let k = key b.arena in
      let w = sweep_for n seq ts other in
      let ids = without w.fills b.id_index in
      let b₁ = swept_book S n.side levels arena w (placed S n seq ts b) in
      let b' = ended S n k w.rest b₁ in
      let open_side = ended-IsOpen S n k w.rest t left b₁ ready in
      let same_levels : side_levels S n.side b' ≡ side_levels S n.side b =
        side_levels_same S n.side b₁ b' refl refl
        ∙ side_levels-with_levels-opposite S n.side levels (traded S arena w (placed S n seq ts b))
        ∙ side_levels_same S n.side b (traded S arena w (placed S n seq ts b)) refl refl in
      let kept = λ (side : Side) (ms : List Maker).
        AllKept-unused side n.id ids b'.id_index ms
          (λ j. lookup-index_after (w.rest == 0) n.id j ids) behind.unknown in
      record {
        near = record {
          stands =
              subst (λ m. Stands S b'.arena m own) (sym same_levels)
                (Stands-frame S arena b'.arena (side_levels S n.side b) own
                  (λ j inside.
                    let ne = apart_from k j (entries own) inside behind.vacant in
                    ground (arith, S.get-remove arena k j ready.taker, ne))
                  behind.stands);
          sorted = h.near.sorted;
          distinct = h.near.distinct;
          kept = kept n.side (makers own) behind.own_kept;
        };
        far = record {
          stands = open_side.stands;
          sorted = behind.sorted;
          distinct = open_side.distinct;
          kept = kept (opposite n.side) (makers left) behind.left_kept;
        };
        apart = behind.apart;
        uncrossed = behind.uncrossed;
        listed = λ id loc at. behind.listed id loc (known_before (w.rest == 0) n.id id ids loc at);
        unique =
            IsUnique-after (w.rest == 0) n.id ids (without-IsUnique w.fills b.id_index h.unique);
        stops = record { buys = h.stops.buys; sells = h.stops.sells };
      }

  -- An order that does not rest leaves a well-formed book.
  pub apply_new-ended :
      (fuel seq ts : ℕ) (n : NewOrder) (b : OrderBook S) (own other : Ladder) (out : Events)
      → IsAdmitted S n b
      → IsBook S n.side own other b
      → (is_limit n.kind ≡ false) ⊎ ((sweep_for n seq ts other).rest ≡ 0)
      → let w = sweep_for n seq ts other in
        (b' : OrderBook S) × (left : Ladder) × (apply_new S (suc fuel) seq ts n b out
          ≡ ok (
            b',
            out ++ accepted n.id seq ∷ [] ++ w.events ++ ending n.id seq (n.qty - w.rest) w.rest,
          ))
        × IsBook S n.side own left b'
        × (makers left ≡ w.left)
  apply_new-ended fuel seq ts n b own other out g h why =
      let k = key b.arena in
      let w = sweep_for n seq ts other in
      let (levels, arena, v', run, ready, left, frame, sorted) =
        execute-ended S (apply_new S fuel seq ts) seq ts n b other (out ++ accepted n.id seq ∷ [])
          g.small g.some_qty (far-IsOpen n.side own other b h) h.stops why in
      let behind = match-Behind S seq ts n own other v' b arena h g.new left frame sorted in
      (
        ended S n k w.rest (swept_book S n.side levels arena w (placed S n seq ts b)),
        v',
        apply_new-execute S fuel seq ts n b out g ∙ run,
        ended-IsBook seq ts n b own other v' levels arena h
            (record (new_order n seq ts) { remaining = w.rest }) ready behind,
        left,
      )
