-- ===== src/Core/Whole/Located.antt =====
-- crates/core/src/book.rs: where a resting order is that the index knows.
use order_matching_engine_ru.Prelude.{
  ℕ, ◌≡◌, refl, sym, ap, ◌∙◌, Bool, true, false, ◌&&◌, ◌||◌, none, some, List, [], ◌∷◌, ◌++◌, arith,
  ◌==◌, inl, inr, Bool-cases, Option-cases, All,
}
use mathlib.Core.Path.{subst}
use order_matching_engine_ru.Prelude.Int.{eqb_ℤ, eqb_ℤ_refl}
use order_matching_engine_ru.Core.Types.{Price, Side, Order}
use order_matching_engine_ru.Core.Slab.{Slab}
use order_matching_engine_ru.Core.PriceLevel.{PriceLevel}
use order_matching_engine_ru.Core.Maps.{KeyOrder, HashMap, lookup, find}
use order_matching_engine_ru.Core.Maps.Laws.{IsOrder}
use order_matching_engine_ru.Core.Book.{Location, Levels, level_or_new}
use order_matching_engine_ru.Core.Book.Chain.{Entries, first}
use order_matching_engine_ru.Core.Book.Queue.{Holds}
use order_matching_engine_ru.Core.Matcher.Sweep.{Ladder, Maker, makers, queue_makers}
use order_matching_engine_ru.Core.Whole.Kept.{has_id, AllKept, place_of}
use order_matching_engine_ru.Core.Whole.Zoom.{Zoom}
use order_matching_engine_ru.Core.Whole.Level.{makers_zoom, makers_after, makers_ahead}

-- Whether an order of the id is there at the price.
abbrev has_at : ℕ → Price → List Maker → Bool
has_at id p [] = false
has_at id p (m ∷ ms) = ((m.order.id == id) && eqb_ℤ m.price p) || has_at id p ms

has_at-append :
    (id : ℕ) (p : Price) (xs ys : List Maker)
    → has_at id p (xs ++ ys) ≡ (has_at id p xs || has_at id p ys)
has_at-append id p [] ys = refl
has_at-append id p (m ∷ xs) ys = ground (arith, has_at-append id p xs ys)

has_at-other :
    (id : ℕ) (p : Price) (ms : List Maker)
    → All (λ (m : Maker). eqb_ℤ m.price p ≡ false) ms
    → has_at id p ms ≡ false
has_at-other id p [] a = refl
has_at-other id p (m ∷ ms) (h, a) = ground (arith, h, has_at-other id p ms a)

has_at-middle :
    (id : ℕ) (p : Price) (xs ys zs : List Maker)
    → has_at id p xs ≡ false
    → has_at id p zs ≡ false
    → has_at id p (xs ++ (ys ++ zs)) ≡ true
    → has_at id p ys ≡ true
has_at-middle id p xs ys zs out out' inside =
    ground (arith, inside, has_at-append id p xs (ys ++ zs), has_at-append id p ys zs, out, out')

-- A maker that the index knows is where it says, at its price.
has_at-known :
    (side : Side) (ids : HashMap Location) (id : ℕ) (loc : Location) (ms : List Maker)
    → AllKept side ids ms
    → lookup id ids ≡ some loc
    → has_id id ms ≡ true
    → has_at id loc.price ms ≡ true
has_at-known side ids id loc [] a at inside = inside
has_at-known side ids id loc (m ∷ ms) (h, a) at inside = elim (Bool-cases (m.order.id == id)) [
  | inl same ↦
      let e : m.order.id ≡ id = ground (arith, same) in
      let there : some (place_of side m) ≡ some loc =
        sym h.known ∙ ap (λ (j : ℕ). lookup j ids) e ∙ at in
      let price : m.price ≡ loc.price = cc in ground (arith, same, price, eqb_ℤ_refl loc.price)
  | inr other ↦
      let rest = has_at-known side ids id loc ms a at (ground (arith, inside, other)) in
      ground (arith, rest)
]

-- A queue with an order of the id, taken apart at it.
pub record Split (id : ℕ) (q : Entries) : Type 0 where
  pub ahead : Entries
  pub slot : ℕ
  pub order : Order
  pub behind : Entries
  pub whole : q ≡ ahead ++ (slot, order) ∷ behind
  pub same : order.id ≡ id

Split-queue :
    (id : ℕ) (p : Price) (q : Entries) → has_at id p (queue_makers p q) ≡ true → Split id q
Split-queue id p [] inside = absurd cc
Split-queue id p ((s, o) ∷ q) inside = elim (Bool-cases (o.id == id)) [
  | inl same ↦ record {
    ahead = [];
    slot = s;
    order = o;
    behind = q;
    whole = refl;
    same = ground (arith, same);
  }
  | inr other ↦
      let t = Split-queue id p q (ground (arith, inside, other)) in
      record {
        ahead = (s, o) ∷ t.ahead;
        slot = t.slot;
        order = t.order;
        behind = t.behind;
        whole = ap (λ (x : Entries). (s, o) ∷ x) t.whole;
        same = t.same;
      }
]

module _ (S : Slab Order) (order : KeyOrder) (ord : IsOrder order) where
  open S use {Arena}

  -- An order that the index knows is in the queue of its price.
  pub locate :
      (side : Side) (ids : HashMap Location) (id : ℕ) (loc : Location) (a : Arena) (m : Levels)
      (v : Ladder)
      → (z : Zoom S order ord a loc.price m v) → AllKept side ids (makers v)
      → lookup id ids ≡ some loc
      → has_id id (makers v) ≡ true
      → Split id z.queue
  locate side ids id loc a m v z kept at inside =
      let p = loc.price in
      let there = has_at-known side ids id loc (makers v) kept at inside in
      let parts = ap (has_at id p) (ap makers z.whole ∙ makers_zoom p z.queue z.better z.worse) in
      let better =
        has_at-other id p (makers z.better)
          (apart_all (makers z.better) (makers_ahead order ord p z.better z.before)) in
      let worse =
        has_at-other id p (makers z.worse)
          (apart_all' (makers z.worse) (makers_after order ord p z.worse z.after)) in
      Split-queue id p z.queue (
        has_at-middle id p (makers z.better) (queue_makers p z.queue) (makers z.worse) better worse
          (sym parts ∙ there))
    where
      apart_all :
          (ms : List Maker)
          → All (λ (m : Maker). order m.price loc.price ≡ true) ms
          → All (λ (m : Maker). eqb_ℤ m.price loc.price ≡ false) ms
      apart_all [] a = tt
      apart_all (m ∷ ms) (h, a) = (ground (arith, h, ord.irrefl m.price loc.price), apart_all ms a)

      apart_all' :
          (ms : List Maker)
          → All (λ (m : Maker). order loc.price m.price ≡ true) ms
          → All (λ (m : Maker). eqb_ℤ m.price loc.price ≡ false) ms
      apart_all' [] a = tt
      apart_all' (m ∷ ms) (h, a) =
          (ground (arith, h, ord.irrefl loc.price m.price), apart_all' ms a)

  -- A queue that is not empty has a level.
  pub level-some :
      (a : Arena) (p : Price) (m : Levels) (q r : Entries) (e : ℕ × Order)
      → Holds S a (level_or_new (find p m)) (q ++ e ∷ r)
      → (l : PriceLevel) × (find p m ≡ some l) × Holds S a l (q ++ e ∷ r)
  level-some a p m q r e h = elim (Option-cases (find p m)) [
    | inr (l, at) ↦ (l, at, subst (λ x. Holds S a (level_or_new x) (q ++ e ∷ r)) at h)
    | inl missing ↦
        let empty = subst (λ x. Holds S a (level_or_new x) (q ++ e ∷ r)) missing h in
        absurd (some_first q empty.sums.head)
  ]
    where
      some_first : (q : Entries) → none ≡ first (q ++ e ∷ r) none → ⊥
      some_first [] h = cc
      some_first (d ∷ q) h = cc
