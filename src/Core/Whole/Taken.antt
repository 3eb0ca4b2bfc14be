-- ===== src/Core/Whole/Taken.antt =====
-- crates/core/src/matcher.rs: a well-formed book without a resting order, as `apply_cancel` and
-- `apply_replace` leave it.
use order_matching_engine_ru.Prelude.{
  ℕ, ◌+◌, ◌≡◌, refl, sym, ap, ◌∙◌, true, false, none, some, [], ◌∷◌, ◌++◌, arith, ◌==◌,
  if◌then◌else◌, inl, inr, Bool-cases, All,
}
use mathlib.Core.Path.{subst}
use order_matching_engine_ru.Core.Types.{Side, opposite, Order}
use order_matching_engine_ru.Core.Slab.{Slab}
use order_matching_engine_ru.Core.PriceLevel.{PriceLevel, is_empty}
use order_matching_engine_ru.Core.Maps.{lookup, erase, put, delete}
use order_matching_engine_ru.Core.Maps.Laws.{IsSorted, lookup-erase}
use order_matching_engine_ru.Core.Book.{OrderBook, Location, before, side_levels, with_levels}
use order_matching_engine_ru.Core.Book.Chain.{Entries, has}
use order_matching_engine_ru.Core.Book.Queue.{Holds, at_level_or_drop, has-append}
use order_matching_engine_ru.Core.Book.Sides.{side_levels-with_levels}
use order_matching_engine_ru.Core.Matcher.Ladder.{entries, rung, Stands, Stands-frame}
use order_matching_engine_ru.Core.Matcher.Sweep.{Ladder, Maker, makers, queue_makers}
use order_matching_engine_ru.Core.Matcher.Resting.Parts.{side_levels-opposite}
use order_matching_engine_ru.Core.Matcher.Immediate.{side_levels_same}
use order_matching_engine_ru.Core.Whole.Kept.{
  has_id, has_id-append, place_of, IsKept, AllKept-erased, has_id_elsewhere, entries_of-makers,
}
use order_matching_engine_ru.Core.Whole.Unique.{erase-IsUnique}
use order_matching_engine_ru.Core.Whole.Place.{
  Inserted, has-Inserted, has_id-Inserted, IsDistinct-removed, All-removed, volume-Inserted,
}
use order_matching_engine_ru.Core.Whole.Level.{
  IsSorted-zoom, IsSorted-split, IsSorted-rung, makers_parts,
}
use order_matching_engine_ru.Core.Whole.Joined.{zoom-has, Zoom-Stands}
use order_matching_engine_ru.Core.Whole.Invariant.{IsBook, IsSide, before-IsOrder}
use order_matching_engine_ru.Core.Matcher.Sweep.Facts.{volume}
use order_matching_engine_ru.Core.Whole.Exchange.{withdraw}
use order_matching_engine_ru.Core.Whole.Offers.{offers, withdraw-offers}
use order_matching_engine_ru.Core.Whole.Found.{Found, rung-Stands}

module _ (S : Slab Order) (side : Side) (own other : Ladder) (b : OrderBook S)
    (h : IsBook S side own other b) (id : ℕ) (f : Found S side own b id) where
  open S use {Arena, get}

  -- The order, and the side without it.
  abbrev pub taken : Maker
  taken = record { price = f.price; slot = f.split.slot; order = f.split.order }

  abbrev pub own_without : Ladder
  own_without = f.zoomed.better ++ rung f.price (f.split.ahead ++ f.split.behind) f.zoomed.worse

  pub own-Inserted : Inserted own_without own taken
  own-Inserted =
      let z = f.zoomed in
      let t = f.split in
      (
        makers z.better ++ queue_makers f.price t.ahead,
        queue_makers f.price t.behind ++ makers z.worse,
        makers_parts f.price t.ahead t.behind z.better z.worse,
        ap makers z.whole
            ∙ ap (λ (q : Entries). makers (z.better ++ rung f.price q z.worse)) t.whole
            ∙ makers_parts f.price t.ahead ((t.slot, t.order) ∷ t.behind) z.better z.worse,
      )

  pub taken-IsKept : IsKept side b.id_index taken
  taken-IsKept =
      (All-removed own_without own taken own-Inserted (IsKept side b.id_index) h.near.kept).0

  -- The index has the order's place.
  pub taken-known : lookup id b.id_index ≡ some (place_of side taken)
  taken-known = ap (λ (j : ℕ). lookup j b.id_index) (sym f.split.same) ∙ taken-IsKept.known

  own_id_gone : has_id id (makers own_without) ≡ false
  own_id_gone =
      let (_, out) = IsDistinct-removed own_without own taken own-Inserted h.near.distinct in
      has_id_elsewhere side b.id_index id (place_of side taken) (makers own_without)
        (All-removed own_without own taken own-Inserted (IsKept side b.id_index) h.near.kept).1
        taken-known (rw (entries_of-makers own_without) out)

  -- The slots of the order's queue are on its side.
  queue_own : (j : ℕ) → has j (f.split.ahead ++ f.split.behind) ≡ true → has j (entries own) ≡ true
  queue_own j inside =
      let z = f.zoomed in
      let t = f.split in
      let e : ℕ × Order = (t.slot, t.order) in
      ground (
        arith,
        inside,
        zoom-has j f.price z.better z.queue z.worse own z.whole,
        ap (has j) t.whole,
        has-append j t.ahead t.behind,
        has-append j t.ahead (e ∷ t.behind),
      )

  queue_rest :
      (j : ℕ)
      → has j f.zoomed.queue ≡ false
      → (has j (f.split.ahead ++ f.split.behind) ≡ false) × ((f.split.slot == j) ≡ false)
  queue_rest j out =
      let t = f.split in
      let whole : has j (t.ahead ++ (t.slot, t.order) ∷ t.behind) ≡ false =
        sym (ap (has j) t.whole) ∙ out in
      ground (
        arith,
        whole,
        has-append j t.ahead t.behind,
        has-append j t.ahead ((t.slot, t.order) ∷ t.behind),
      )

  not_queue : (j : ℕ) → has j (entries own) ≡ false → has j f.zoomed.queue ≡ false
  not_queue j out =
      let z = f.zoomed in
      ground (arith, out, zoom-has j f.price z.better z.queue z.worse own z.whole)

  -- The order's slot and the slots of its side are not on the other side.
  not_own : (j : ℕ) → has j (entries other) ≡ true → has j (entries own) ≡ false
  not_own j inside = ground (arith, inside, h.apart j)

  other_id_gone : has_id id (makers other) ≡ false
  other_id_gone =
      let own_slot : has f.split.slot (entries own) ≡ true =
        ground (arith, has-Inserted own_without own taken own-Inserted f.split.slot) in
      has_id_elsewhere (opposite side) b.id_index id (place_of side taken) (makers other) h.far.kept
        taken-known (rw (entries_of-makers other) (h.apart f.split.slot own_slot))

  module _ (a : Arena) (l' : PriceLevel) (hold : Holds S a l' (f.split.ahead ++ f.split.behind))
      (same : (j : ℕ)
        → has j (f.split.ahead ++ f.split.behind) ≡ false
        → (f.split.slot == j) ≡ false
        → get a j ≡ get b.arena j) where
    -- The book without the order.
    abbrev pub taken_book : OrderBook S
    taken_book = at_level_or_drop S side f.price l' a (record b { id_index = erase id b.id_index })

    taken_levels :
        side_levels S side taken_book
        ≡ f.zoomed.above ++ ((if is_empty l' then [] else (f.price, l') ∷ []) ++ f.zoomed.below)
    taken_levels =
        let z = f.zoomed in
        let levels = side_levels S side b in
        let b₁ : OrderBook S = record b { id_index = erase id b.id_index } in
        let m =
          if is_empty l' then delete f.price levels else put (before side) f.price l' levels in
        ap
          (λ ls. side_levels S side (
            with_levels S side
              (if is_empty l' then delete f.price ls else put (before side) f.price l' ls)
              (record b₁ { arena = a })))
          (side_levels_same S side b b₁ refl refl)
        ∙ side_levels-with_levels S side m (record b₁ { arena = a })
        ∙ elim (Bool-cases (is_empty l')) [
          | inl empty ↦ rw empty z.dropped
          | inr full ↦ rw full (z.written l')
        ]

    taken_near : IsSide S side own_without taken_book
    taken_near =
        let z = f.zoomed in
        let q = f.split.ahead ++ f.split.behind in
        record {
          stands =
              subst (λ m. Stands S a m own_without) (sym taken_levels)
                (Zoom-Stands S side b.arena a f.price (side_levels S side b) own z h.near.distinct
                  (λ j inside out. same j (queue_rest j out).0 (queue_rest j out).1)
                  (if is_empty l' then [] else (f.price, l') ∷ []) q
                  (λ m v. rung-Stands S a f.price l' q m v hold));
          sorted =
              let (s, t) =
                IsSorted-split (before side) z.better (rung f.price z.queue z.worse)
                  (subst (λ v. IsSorted (before side) v) z.whole h.near.sorted) in
              IsSorted-zoom (before side) (before-IsOrder side) f.price q z.better z.worse z.before
                z.after s (IsSorted-rung (before side) f.price z.queue z.worse t);
          distinct = (IsDistinct-removed own_without own taken own-Inserted h.near.distinct).0;
          kept =
              AllKept-erased side id b.id_index (makers own_without) own_id_gone
                (All-removed own_without own taken own-Inserted (IsKept side b.id_index)
                  h.near.kept).1;
        }

    taken_far : IsSide S (opposite side) other taken_book
    taken_far =
        let b₁ : OrderBook S = record b { id_index = erase id b.id_index; arena = a } in
        record {
          stands =
              subst (λ m. Stands S a m other)
                (sym (
                  side_levels-opposite S side _ b₁
                  ∙ side_levels_same S (opposite side) b b₁ refl refl))
                (Stands-frame S b.arena a (side_levels S (opposite side) b) other
                  (λ j inside.
                    let elsewhere = not_own j inside in
                    let (out, ne) = queue_rest j (not_queue j elsewhere) in same j out ne)
                  h.far.stands);
          sorted = h.far.sorted;
          distinct = h.far.distinct;
          kept =
              AllKept-erased (opposite side) id b.id_index (makers other) other_id_gone h.far.kept;
        }

    taken_listed :
        (j : ℕ) (loc : Location)
        → lookup j (erase id b.id_index) ≡ some loc
        → has_id j (makers own_without ++ makers other) ≡ true
    taken_listed j loc at = elim (Bool-cases (id == j)) [
      | inl same ↦
          let gone : none ≡ some loc = sym (lookup-erase id j b.id_index ∙ rw same refl) ∙ at in
          absurd cc
      | inr differ ↦
          let still : lookup j b.id_index ≡ some loc =
            sym (lookup-erase id j b.id_index ∙ rw differ refl) ∙ at in
          ground (
            arith,
            f.split.same,
            differ,
            h.listed j loc still,
            has_id-Inserted own_without own taken own-Inserted j,
            has_id-append j (makers own) (makers other),
            has_id-append j (makers own_without) (makers other),
          )
    ]

    -- The book without the order is well-formed.
    pub taken-IsBook : IsBook S side own_without other taken_book
    taken-IsBook = record {
      near = taken_near;
      far = taken_far;
      apart = λ j inside.
          h.apart j (ground (arith, inside, has-Inserted own_without own taken own-Inserted j));
      uncrossed =
          (All-removed own_without own taken own-Inserted
            (λ (m : Maker).
              All (λ (m' : Maker). before (opposite side) m.price m'.price ≡ true) (makers other))
            h.uncrossed).1;
      listed = taken_listed;
      unique = erase-IsUnique id b.id_index h.unique;
      stops = record { buys = h.stops.buys; sells = h.stops.sells };
    }

  -- The market withdraws the same order.
  pub taken-offers : offers (makers own_without) ≡ withdraw id (offers (makers own))
  taken-offers =
      let z = f.zoomed in
      let t = f.split in
      let xs = makers z.better ++ queue_makers f.price t.ahead in
      let ys = queue_makers f.price t.behind ++ makers z.worse in
      let without = makers_parts f.price t.ahead t.behind z.better z.worse in
      let full : makers own ≡ xs ++ taken ∷ ys =
        ap makers z.whole
        ∙ ap (λ (q : Entries). makers (z.better ++ rung f.price q z.worse)) t.whole
        ∙ makers_parts f.price t.ahead ((t.slot, t.order) ∷ t.behind) z.better z.worse in
      let gone : has_id id (xs ++ ys) ≡ false = sym (ap (has_id id) without) ∙ own_id_gone in
      let ahead : has_id taken.order.id xs ≡ false =
        ap (λ (i : ℕ). has_id i xs) t.same ∙ ground (arith, gone, has_id-append id xs ys) in
      ap offers without
      ∙ sym (withdraw-offers taken xs ys ahead)
      ∙ ap (λ (i : ℕ). withdraw i (offers (xs ++ taken ∷ ys))) t.same
      ∙ ap (λ ms. withdraw id (offers ms)) (sym full)

  pub taken-volume : volume (makers own) ≡ taken.order.remaining + volume (makers own_without)
  taken-volume = volume-Inserted own_without own taken own-Inserted
