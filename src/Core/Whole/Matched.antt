-- ===== src/Core/Whole/Matched.antt =====
-- crates/core/src/matcher.rs: both sides of a well-formed book behind `match_order`.
use order_matching_engine_ru.Prelude.{
  ℕ, ◌≡◌, refl, sym, ap, ◌∙◌, true, false, none, some, List, [], ◌∷◌, ◌++◌, arith, ◌==◌, Bool-cases,
  inl, inr,
}
use mathlib.Core.Path.{subst}
use order_matching_engine_ru.Core.Types.{Side, opposite, Order, NewOrder, new_order}
use order_matching_engine_ru.Core.Slab.{Slab}
use order_matching_engine_ru.Core.Maps.{KeyOrder, HashMap, lookup}
use order_matching_engine_ru.Core.Maps.Laws.{IsSorted}
use order_matching_engine_ru.Core.Book.{OrderBook, Location, before, side_levels}
use order_matching_engine_ru.Core.Book.Chain.{AreApart, IsDistinct, has}
use order_matching_engine_ru.Core.Matcher.Loop.{crosses}
use order_matching_engine_ru.Core.Book.Queue.{has-append}
use order_matching_engine_ru.Core.Matcher.Resting.Parts.{apart_from}
use order_matching_engine_ru.Core.Matcher.Ladder.{entries, Stands, Stands-frame}
use order_matching_engine_ru.Core.Matcher.Sweep.{Ladder, Maker, makers, without}
use order_matching_engine_ru.Core.Matcher.Immediate.Admission.{
  sweep_for, placed, lookup-without, vacant-Stands,
}
use order_matching_engine_ru.Core.Whole.Kept.{
  has_id, entries_of, AllKept, All-split, has_id-append, entries_of-append, entries_of-makers,
  lookup-without_if,
}
use order_matching_engine_ru.Core.Whole.Swept.{
  Trimmed, All-Trimmed, has_id-Trimmed, sweep-Trimmed, AllKept-without, AllKept-swept,
}
use order_matching_engine_ru.Core.Whole.Invariant.{IsBook, AreUncrossed}

uncrossed-Trimmed :
    (side : Side) (ms fills rest left : List Maker)
    → Trimmed rest left
    → AreUncrossed side ms (fills ++ rest)
    → AreUncrossed side ms left
uncrossed-Trimmed side [] fills rest left t a = tt
uncrossed-Trimmed side (m ∷ ms) fills rest left t (h, a) = (
  All-Trimmed (λ (m' : Maker). before side m.price m'.price ≡ true) (λ m' k lt e. e) rest left t
      (All-split (λ (m' : Maker). before side m.price m'.price ≡ true) fills rest h).1,
  uncrossed-Trimmed side ms fills rest left t a,
)

not_in_fills :
    (j : ℕ) (fills rest : List Maker)
    → has j (entries_of (fills ++ rest)) ≡ false
    → has j (entries_of fills) ≡ false
not_in_fills j fills rest out = ground (
  arith,
  ap (has j) (entries_of-append fills rest),
  has-append j (entries_of fills) (entries_of rest),
  out,
)

-- An id that is still in the index is not a fill's.
still_listed :
    (id : ℕ) (loc : Location) (own fills rest left : List Maker) (ids : HashMap Location)
    → Trimmed rest left
    → (lookup id ids ≡ some loc → has_id id (own ++ (fills ++ rest)) ≡ true)
    → lookup id (without fills ids) ≡ some loc
    → has_id id (own ++ left) ≡ true
still_listed id loc own fills rest left ids t known at = elim (Bool-cases (has_id id fills)) [
  | inl gone ↦
      let none_there : none ≡ some loc = sym (lookup-without_if id fills ids ∙ rw gone refl) ∙ at in
      absurd cc
  | inr kept ↦
      let old : lookup id ids ≡ some loc =
        sym (lookup-without_if id fills ids ∙ rw kept refl) ∙ at in
      ground (
        arith,
        known old,
        kept,
        has_id-append id own (fills ++ rest),
        has_id-append id fills rest,
        has_id-append id own left,
        has_id-Trimmed id rest left t,
      )
]

module _ (S : Slab Order) where
  open S use {Arena, get, key}

  -- The two sides behind a match, with the index that it leaves and the arena.
  pub record Behind (n : NewOrder) (own left : Ladder) (ids : HashMap Location) (arena : Arena)
      (b : OrderBook S) : Type 0 where
    pub stands : Stands S arena (side_levels S n.side b) own
    pub sorted : IsSorted (before (opposite n.side)) left
    pub own_kept : AllKept n.side ids (makers own)
    pub left_kept : AllKept (opposite n.side) ids (makers left)
    pub apart : AreApart (entries own) (entries left)
    pub uncrossed : AreUncrossed (opposite n.side) (makers own) (makers left)
    pub unknown : lookup n.id ids ≡ none
    pub listed :
        (id : ℕ) (loc : Location)
        → lookup id ids ≡ some loc
        → has_id id (makers own ++ makers left) ≡ true
    pub same : (j : ℕ) → has j (entries own) ≡ true → get arena j ≡ get b.arena j
    pub vacant : has (key b.arena) (entries own) ≡ false

  pub match-Behind :
      (seq ts : ℕ) (n : NewOrder) (own other left : Ladder) (b : OrderBook S) (arena : Arena)
      → IsBook S n.side own other b
      → lookup n.id b.id_index ≡ none
      → makers left ≡ (sweep_for n seq ts other).left
      → ((j : ℕ)
          → has j (entries other) ≡ false
          → (has j (entries left) ≡ false)
            × ((key b.arena == j) ≡ false → get arena j ≡ get (placed S n seq ts b).arena j))
      → ((order : KeyOrder) → IsSorted order other → IsSorted order left)
      → Behind n own left (without (sweep_for n seq ts other).fills b.id_index) arena b
  match-Behind seq ts n own other left b arena h new stay frame sorted =
      let w = sweep_for n seq ts other in
      let k = key b.arena in
      let (rest, whole, trimmed) =
        sweep-Trimmed (crosses n.side n.kind n.price) n.side n.id seq ts n.qty (makers other) in
      let slots = sym (entries_of-makers other) ∙ ap entries_of whole in
      let known = subst (λ ms. AllKept (opposite n.side) b.id_index ms) whole h.far.kept in
      let vacant =
        vacant-Stands S b.arena k (side_levels S n.side b) own (S.key_vacant b.arena)
          h.near.stands in
      let same = λ (j : ℕ) (inside : has j (entries own) ≡ true).
        let ne : (k == j) ≡ false = apart_from k j (entries own) inside vacant in
        (frame j (h.apart j inside)).1 ne
        ∙ ground (arith, S.get-insert b.arena (new_order n seq ts) j, ne) in
      let fills_kept = (All-split _ w.fills rest known).0 in
      record {
        stands = Stands-frame S b.arena arena (side_levels S n.side b) own same h.near.stands;
        sorted = sorted (before (opposite n.side)) h.far.sorted;
        own_kept =
            AllKept-without n.side (opposite n.side) b.id_index w.fills (makers own) fills_kept
              (λ j inside.
                let out = h.apart j (subst (λ q. has j q ≡ true) (entries_of-makers own) inside) in
                not_in_fills j w.fills rest (subst (λ q. has j q ≡ false) slots out))
              h.near.kept;
        left_kept =
            subst (λ ms. AllKept (opposite n.side) (without w.fills b.id_index) ms) (sym stay)
              (AllKept-swept (opposite n.side) b.id_index w.fills rest w.left trimmed
                (subst IsDistinct slots h.far.distinct) known);
        apart = λ j inside. (frame j (h.apart j inside)).0;
        uncrossed =
            subst (λ ms. AreUncrossed (opposite n.side) (makers own) ms) (sym stay)
              (uncrossed-Trimmed (opposite n.side) (makers own) w.fills rest w.left trimmed
                (subst (λ ms. AreUncrossed (opposite n.side) (makers own) ms) whole h.uncrossed));
        unknown = lookup-without n.id w.fills b.id_index new;
        listed = λ id loc at.
            subst (λ ms. has_id id (makers own ++ ms) ≡ true) (sym stay)
              (still_listed id loc (makers own) w.fills rest w.left b.id_index trimmed
                (λ e. subst (λ ms. has_id id (makers own ++ ms) ≡ true) whole (h.listed id loc e))
                at);
        same = same;
        vacant = vacant;
      }
