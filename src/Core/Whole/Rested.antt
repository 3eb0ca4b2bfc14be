-- ===== src/Core/Whole/Rested.antt =====
-- crates/core/src/matcher.rs: `apply_new` on a well-formed book, for a limit order whose rest joins it.
use order_matching_engine_ru.Prelude.{
  ℕ, ◌≡◌, refl, sym, ap, ◌∙◌, true, false, some, List, [], ◌∷◌, ◌++◌, arith, ◌==◌, inl, inr,
  Bool-cases, All, ==_refl,
}
use mathlib.Core.Path.{subst}
use order_matching_engine_ru.Core.Types.{Side, opposite, NewOrder, new_order, Order}
use order_matching_engine_ru.Core.Slab.{Slab}
use order_matching_engine_ru.Core.Maps.{HashMap, lookup, put}
use order_matching_engine_ru.Core.Maps.Laws.{IsSorted, lookup-insert}
use order_matching_engine_ru.Core.Book.{OrderBook, Location, before, side_levels}
use order_matching_engine_ru.Core.Book.Chain.{has}
use order_matching_engine_ru.Core.Book.Queue.{at_level, has-append}
use order_matching_engine_ru.Core.Book.Sides.{side_levels-with_levels}
use order_matching_engine_ru.Core.Matcher.{Result, is_limit}
use order_matching_engine_ru.Core.Matcher.Loop.{Events, crosses}
use order_matching_engine_ru.Core.Matcher.Ladder.{entries, rung, Stands}
use order_matching_engine_ru.Core.Matcher.Sweep.{Ladder, Maker, makers, without}
use order_matching_engine_ru.Core.Matcher.Sweep.Facts.{IsUncrossed, sweep-done}
use order_matching_engine_ru.Core.Matcher.MatchOrder.{swept_book}
use order_matching_engine_ru.Core.Matcher.Resting.{Rests, matched_book, own_levels, still_left}
use order_matching_engine_ru.Core.Matcher.Resting.Parts.{apart_from, rested-IsOpen}
use order_matching_engine_ru.Core.Matcher.Immediate.{sweep_for, IsAdmitted}
use order_matching_engine_ru.Core.Matcher.Immediate.Admission.{placed}
use order_matching_engine_ru.Core.Whole.Zoom.{Zoom}
use order_matching_engine_ru.Core.Whole.Kept.{has_id, has_id-append, IsKept, AllKept}
use order_matching_engine_ru.Core.Whole.Unique.{insert-IsUnique, without-IsUnique}
use order_matching_engine_ru.Core.Whole.Place.{
  has-Inserted, has_id-Inserted, IsDistinct-Inserted, All-Inserted,
}
use order_matching_engine_ru.Core.Whole.Level.{
  IsSorted-zoom, IsSorted-split, IsSorted-rung, Stands-rung,
}
use order_matching_engine_ru.Core.Whole.Invariant.{IsBook, IsSide, before-IsOrder, AreUncrossed}
use order_matching_engine_ru.Core.Whole.Matched.{Behind, match-Behind}
use order_matching_engine_ru.Core.Whole.Ended.{AllKept-unused}
use order_matching_engine_ru.Core.Whole.Joined.{beyond-All, zoom-has, Zoom-Stands}
use order_matching_engine_ru.Core.Whole.Joiner.{resting_order, own_after, joiner, own-Inserted}

module _ (S : Slab Order) (seq ts : ℕ) (n : NewOrder) (b : OrderBook S) (own other : Ladder)
    (h : IsBook S n.side own other b)
    (z : Zoom S
      (before n.side)
      (before-IsOrder n.side)
      b.arena
      n.price
      (side_levels S n.side b)
      own) where
  open S use {Arena, get, key}

  module _ (out : Events) (run : Result S) (r : Rests S seq ts n b other z.queue out run) where
    abbrev ids : HashMap Location
    ids = without (sweep_for n seq ts other).fills b.id_index

    abbrev pub rested_book : OrderBook S
    rested_book =
        at_level S n.side n.price r.level r.arena
          (matched_book S n seq ts other r.levels r.matched b)

    module _ (g : IsAdmitted S n b) where
      behind : Behind S n own r.ladder ids r.matched b
      behind =
          match-Behind S seq ts n own other r.ladder b r.matched h g.new r.left r.frame r.sorted

      kept_same :
          (side : Side) (ms : List Maker)
          → AllKept side ids ms
          → AllKept side rested_book.id_index ms
      kept_same side ms =
          AllKept-unused side n.id ids rested_book.id_index ms
            (λ j other. lookup-insert n.id j _ ids ∙ rw other refl) behind.unknown

      near_levels :
          side_levels S n.side rested_book ≡ z.above ++ ((n.price, r.level) ∷ [] ++ z.below)
      near_levels =
          side_levels-with_levels S n.side
            (put (before n.side) n.price r.level
              (side_levels S n.side (matched_book S n seq ts other r.levels r.matched b)))
            (record (matched_book S n seq ts other r.levels r.matched b) { arena = r.arena })
          ∙ ap (put (before n.side) n.price r.level)
              (own_levels S n seq ts r.levels r.matched other b)
          ∙ z.written r.level

      near_cells :
          (j : ℕ)
          → has j (entries own) ≡ true
          → has j z.queue ≡ false
          → get r.arena j ≡ get b.arena j
      near_cells j inside out =
          let ne = apart_from (key b.arena) j (entries own) inside behind.vacant in
          r.kept j (
            ground (
              arith,
              has-append j z.queue ((key b.arena, (resting_order S seq ts n b own other h z)) ∷ []),
              out,
              ne,
            ))
          ∙ behind.same j inside

      joiner-IsKept :
          is_limit n.kind ≡ true
          → ((sweep_for n seq ts other).rest == 0) ≡ false
          → IsKept n.side rested_book.id_index (joiner S seq ts n b own other h z)
      unfolding new_order
      joiner-IsKept limited rest = record {
        own = refl;
        limited = limited;
        priced = refl;
        some_left = ground (arith, rest);
        known = lookup-insert n.id n.id _ ids ∙ rw (==_refl n.id) refl;
      }

      near_side :
          IsKept n.side rested_book.id_index (joiner S seq ts n b own other h z)
          → IsSide S n.side (own_after S seq ts n b own other h z) rested_book
      near_side its_place = record {
        stands =
            subst (λ m. Stands S r.arena m (own_after S seq ts n b own other h z)) (sym near_levels)
              (Zoom-Stands S n.side b.arena r.arena n.price (side_levels S n.side b) own z
                h.near.distinct near_cells ((n.price, r.level) ∷ [])
                (z.queue ++ (key b.arena, (resting_order S seq ts n b own other h z)) ∷ [])
                (λ m v.
                  Stands-rung S r.arena n.price r.level z.queue []
                    (key b.arena, (resting_order S seq ts n b own other h z)) m v r.hold));
        sorted =
            let (s, t) =
              IsSorted-split (before n.side) z.better (rung n.price z.queue z.worse)
                (subst (λ v. IsSorted (before n.side) v) z.whole h.near.sorted) in
            IsSorted-zoom (before n.side) (before-IsOrder n.side) n.price _ z.better z.worse
              z.before z.after s (IsSorted-rung (before n.side) n.price z.queue z.worse t);
        distinct =
            IsDistinct-Inserted own (own_after S seq ts n b own other h z)
              (joiner S seq ts n b own other h z) (own-Inserted S seq ts n b own other h z)
              h.near.distinct behind.vacant;
        kept =
            All-Inserted own (own_after S seq ts n b own other h z)
              (joiner S seq ts n b own other h z) (own-Inserted S seq ts n b own other h z)
              (IsKept n.side rested_book.id_index) its_place
              (kept_same n.side (makers own) behind.own_kept);
      }

      far_side : IsSide S (opposite n.side) r.ladder rested_book
      far_side =
          let o = (resting_order S seq ts n b own other h z) in
          let open_side =
            rested-IsOpen S n (key b.arena) o o other r.ladder z.queue
              (swept_book S n.side r.levels r.matched (sweep_for n seq ts other)
                (placed S n seq ts b))
              _ r.arena r.ready
              (λ j inside.
                h.apart j
                  (ground (arith, inside, zoom-has j n.price z.better z.queue z.worse own z.whole)))
              (λ j out. (r.frame j out).0) r.kept in
          record {
            stands = open_side.stands;
            sorted = behind.sorted;
            distinct = open_side.distinct;
            kept = kept_same (opposite n.side) (makers r.ladder) behind.left_kept;
          }

      sides_apart :
          (j : ℕ)
          → has j (entries (own_after S seq ts n b own other h z)) ≡ true
          → has j (entries r.ladder) ≡ false
      sides_apart j inside = elim (Bool-cases (key b.arena == j)) [
        | inl same ↦
            let e : key b.arena ≡ j = ground (arith, same) in
            subst (λ (i : ℕ). has i (entries r.ladder) ≡ false) e r.ready.outside
        | inr differs ↦
            let grown =
              has-Inserted own (own_after S seq ts n b own other h z)
                (joiner S seq ts n b own other h z) (own-Inserted S seq ts n b own other h z) j in
            behind.apart j (ground (arith, grown, inside, differs))
      ]

      still_uncrossed :
          ((sweep_for n seq ts other).rest == 0) ≡ false
          → AreUncrossed
              (opposite n.side)
              (makers (own_after S seq ts n b own other h z))
              (makers r.ladder)
      still_uncrossed rest =
          let done =
            still_left rest (
              sweep-done (crosses n.side n.kind n.price) n.side n.id seq ts n.qty (makers other)) in
          All-Inserted own (own_after S seq ts n b own other h z)
            (joiner S seq ts n b own other h z) (own-Inserted S seq ts n b own other h z)
            (λ (m : Maker).
              All (λ (m' : Maker). before (opposite n.side) m.price m'.price ≡ true)
                (makers r.ladder))
            (beyond-All S r.arena n.side n.kind n.price _ r.ladder far_side.stands behind.sorted
              (subst (IsUncrossed (crosses n.side n.kind n.price)) (sym r.left) done))
            behind.uncrossed

      still_listed :
          (id : ℕ) (loc : Location)
          → lookup id rested_book.id_index ≡ some loc
          → has_id id (makers (own_after S seq ts n b own other h z) ++ makers r.ladder) ≡ true
      unfolding new_order
      still_listed id loc at = ground (
        arith,
        at,
        lookup-insert n.id id (record { price = n.price; side = n.side; slot = key b.arena }) ids,
        has_id-Inserted own (own_after S seq ts n b own other h z)
            (joiner S seq ts n b own other h z) (own-Inserted S seq ts n b own other h z) id,
        has_id-append id (makers (own_after S seq ts n b own other h z)) (makers r.ladder),
        has_id-append id (makers own) (makers r.ladder),
        behind.listed id loc,
      )

      pub rested-IsBook :
          is_limit n.kind ≡ true
          → ((sweep_for n seq ts other).rest == 0) ≡ false
          → IsBook S n.side (own_after S seq ts n b own other h z) r.ladder rested_book
      rested-IsBook limited rest = record {
        near = near_side (joiner-IsKept limited rest);
        far = far_side;
        apart = sides_apart;
        uncrossed = still_uncrossed rest;
        listed = still_listed;
        unique =
            insert-IsUnique n.id _ ids
              (without-IsUnique (sweep_for n seq ts other).fills b.id_index h.unique);
        stops = record { buys = h.stops.buys; sells = h.stops.sells };
      }
