-- ===== src/Core/Whole/Zoom.antt =====
-- crates/core/src/book.rs: one price of a side of the book, with what is better and what is worse.
use order_matching_engine_ru.Prelude.{
  ◌≡◌, refl, sym, ap, ◌∙◌, inl, inr, true, false, [], ◌∷◌, ◌++◌, arith, Bool-cases, All,
}
use mathlib.Core.Path.{subst}
use order_matching_engine_ru.Prelude.Int.{ℤ, eqb_ℤ, eqb_ℤ_iff}
use order_matching_engine_ru.Core.Types.{Price, Order}
use order_matching_engine_ru.Core.Slab.{Slab}
use order_matching_engine_ru.Core.PriceLevel.{PriceLevel, empty_level}
use order_matching_engine_ru.Core.Maps.{KeyOrder, BTreeMap, find, put, delete}
use order_matching_engine_ru.Core.Maps.Laws.{
  IsOrder, IsSorted, AllAfter, AllAfter-trans, find_after,
}
use order_matching_engine_ru.Core.Book.{Levels, level_or_new}
use order_matching_engine_ru.Core.Book.Chain.{Entries}
use order_matching_engine_ru.Core.Book.Queue.{Holds}
use order_matching_engine_ru.Core.Matcher.Sweep.{Ladder}
use order_matching_engine_ru.Core.Matcher.Ladder.{rung, Stands}

-- All keys come before `k`.
abbrev pub AllBefore : {V : Type 0} → KeyOrder → ℤ → BTreeMap V → Type 0
AllBefore {V} order k m = All (λ (e : ℤ × V). order e.0 k ≡ true) m

module _ {V : Type 0} (order : KeyOrder) (ord : IsOrder order) where
  delete_after : (k : ℤ) (m : BTreeMap V) → AllAfter order k m → delete k m ≡ m
  unfolding delete
  delete_after k [] a = refl
  delete_after k ((j, v) ∷ m) (a, more) =
      let other : eqb_ℤ j k ≡ false = ground (arith, ord.irrefl k j) in
      rw other (ap (λ (x : BTreeMap V). (j, v) ∷ x) (delete_after k m more))

module _ (S : Slab Order) (order : KeyOrder) (ord : IsOrder order) where
  open S use {Arena}

  -- A side that stands for a ladder, split at a price, whose queue may be empty.
  pub record Zoom (a : Arena) (p : Price) (m : Levels) (v : Ladder) : Type 0 where
    pub above : Levels
    pub below : Levels
    pub better : Ladder
    pub queue : Entries
    pub worse : Ladder
    pub front : Stands S a above better
    pub back : Stands S a below worse
    pub whole : v ≡ better ++ rung p queue worse
    pub level : Holds S a (level_or_new (find p m)) queue
    pub written : (l : PriceLevel) → put order p l m ≡ above ++ (p, l) ∷ below
    pub dropped : delete p m ≡ above ++ below
    pub before : AllBefore order p better
    pub after : AllAfter order p worse

  empty-Holds : (a : Arena) → Holds S a empty_level []
  empty-Holds a = record {
    sums = record { head = refl; tail = refl; total = refl; bounded = omega arith };
    distinct = tt;
    chain = tt;
  }

  -- Every price splits a sorted side.
  pub zoom :
      (a : Arena) (p : Price) (m : Levels) (v : Ladder)
      → Stands S a m v
      → IsSorted order m
      → IsSorted order v
      → Zoom a p m v
  unfolding find put delete
  zoom a p [] [] h s t = record {
    above = [];
    below = [];
    better = [];
    queue = [];
    worse = [];
    front = tt;
    back = tt;
    whole = refl;
    level = empty-Holds a;
    written = λ l. refl;
    dropped = refl;
    before = tt;
    after = tt;
  }
  zoom a p [] (_ ∷ _) h s t = absurd h
  zoom a p (_ ∷ _) [] h s t = absurd h
  zoom a p (_ ∷ _) ((_, []) ∷ _) h s t = absurd h
  zoom a p ((j, l) ∷ m) ((i, e ∷ q) ∷ v) (at, h, hs) (later, s) (later', t) =
      elim (Bool-cases (eqb_ℤ j p)) [
        | inl same ↦
            let here : i ≡ p = sym at ∙ (eqb_ℤ_iff j p).0 same in
            record {
              above = [];
              below = m;
              better = [];
              queue = e ∷ q;
              worse = v;
              front = tt;
              back = hs;
              whole = ap (λ (x : Price). (x, e ∷ q) ∷ v) here;
              level = rw same h;
              written = λ l. rw same refl;
              dropped = rw same refl;
              before = tt;
              after = subst (λ x. AllAfter order x v) here later';
            }
        | inr other ↦ elim (Bool-cases (order p j)) [
          | inl first ↦
              let first' : order p i ≡ true = subst (λ x. order p x ≡ true) at first in
              let all : AllAfter order p ((j, l) ∷ m) =
                (first, AllAfter-trans order ord p j m first later) in
              record {
                above = [];
                below = (j, l) ∷ m;
                better = [];
                queue = [];
                worse = (i, e ∷ q) ∷ v;
                front = tt;
                back = (at, h, hs);
                whole = refl;
                level =
                    subst (λ x. Holds S a (level_or_new x) [])
                      (sym (find_after order ord p ((j, l) ∷ m) all)) (empty-Holds a);
                written = λ l. rw (other, first) refl;
                dropped = delete_after order ord p ((j, l) ∷ m) all;
                before = tt;
                after = (first', AllAfter-trans order ord p i v first' later');
              }
          | inr past ↦
              let z = zoom a p m v hs s t in
              record {
                above = (j, l) ∷ z.above;
                below = z.below;
                better = (i, e ∷ q) ∷ z.better;
                queue = z.queue;
                worse = z.worse;
                front = (at, h, z.front);
                back = z.back;
                whole = ap (λ (x : Ladder). (i, e ∷ q) ∷ x) z.whole;
                level = rw other z.level;
                written = λ l'. rw (other, past) (ap (λ (x : Levels). (j, l) ∷ x) (z.written l'));
                dropped = rw other (ap (λ (x : Levels). (j, l) ∷ x) z.dropped);
                before = (
                  subst (λ x. order x p ≡ true) at (ord.total p j (ground (arith, other)) past),
                  z.before,
                );
                after = z.after;
              }
        ]
      ]
