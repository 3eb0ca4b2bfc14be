-- ===== src/Core/Whole/Kept.antt =====
-- crates/core/src/book.rs: the resting orders of a side and their places in `id_index`.
use order_matching_engine_ru.Prelude.{
  ℕ, ◌<◌, ◌≡◌, refl, sym, ap, ◌∙◌, inl, inr, Bool, true, false, ◌||◌, none, some, List, [], ◌∷◌,
  ◌++◌, arith, ◌==◌, if◌then◌else◌, Bool-cases, All,
}
use mathlib.Core.List.{append_assoc}
use order_matching_engine_ru.Core.Types.{Price, Side}
use order_matching_engine_ru.Core.Maps.{HashMap, lookup, erase}
use order_matching_engine_ru.Core.Maps.Laws.{lookup-erase}
use order_matching_engine_ru.Core.Book.{Location}
use order_matching_engine_ru.Core.Book.Chain.{Entries, has}
use order_matching_engine_ru.Core.Matcher.{is_limit}
use order_matching_engine_ru.Core.Matcher.Ladder.{entries, AllOpen}
use order_matching_engine_ru.Core.Matcher.Sweep.{Ladder, Maker, queue_makers, makers, without}

abbrev pub has_id : ℕ → List Maker → Bool
has_id id [] = false
has_id id (m ∷ ms) = (m.order.id == id) || has_id id ms

abbrev pub entries_of : List Maker → Entries
entries_of [] = []
entries_of (m ∷ ms) = (m.slot, m.order) ∷ entries_of ms

-- Where the index says that a maker is.
abbrev pub place_of : Side → Maker → Location
place_of side m = record { price = m.price; side = side; slot = m.slot }

-- A maker of a side: a limit order of that side and of the price of its level, with something left,
-- which the index knows by its id.
pub record IsKept (side : Side) (ids : HashMap Location) (m : Maker) : Type 0 where
  pub own : m.order.side ≡ side
  pub limited : is_limit m.order.kind ≡ true
  pub priced : m.order.price ≡ m.price
  pub some_left : 0 < m.order.remaining
  pub known : lookup m.order.id ids ≡ some (place_of side m)

abbrev pub AllKept : Side → HashMap Location → List Maker → Type 0
AllKept side ids ms = All (IsKept side ids) ms

pub has_id-append :
    (id : ℕ) (xs ys : List Maker) → has_id id (xs ++ ys) ≡ (has_id id xs || has_id id ys)
has_id-append id [] ys = refl
has_id-append id (m ∷ xs) ys = ground (arith, has_id-append id xs ys)

pub entries_of-append :
    (xs ys : List Maker) → entries_of (xs ++ ys) ≡ entries_of xs ++ entries_of ys
entries_of-append [] ys = refl
entries_of-append (m ∷ xs) ys =
    ap (λ (q : Entries). (m.slot, m.order) ∷ q) (entries_of-append xs ys)

entries_of-queue_makers : (p : Price) (q : Entries) → entries_of (queue_makers p q) ≡ q
entries_of-queue_makers p [] = refl
entries_of-queue_makers p (e ∷ q) = ap (λ (x : Entries). e ∷ x) (entries_of-queue_makers p q)

pub entries_of-makers : (v : Ladder) → entries_of (makers v) ≡ entries v
entries_of-makers [] = refl
entries_of-makers ((p, q) ∷ v) =
    entries_of-append (queue_makers p q) (makers v)
    ∙ ap (λ (x : Entries). x ++ entries_of (makers v)) (entries_of-queue_makers p q)
    ∙ ap (λ (x : Entries). q ++ x) (entries_of-makers v)

pub makers-append : (v w : Ladder) → makers (v ++ w) ≡ makers v ++ makers w
makers-append [] w = refl
makers-append ((p, q) ∷ v) w =
    ap (λ (x : List Maker). queue_makers p q ++ x) (makers-append v w)
    ∙ sym (append_assoc (queue_makers p q) (makers v) (makers w))

pub queue_makers-append :
    (p : Price) (q r : Entries) → queue_makers p (q ++ r) ≡ queue_makers p q ++ queue_makers p r
queue_makers-append p [] r = refl
queue_makers-append p ((s, o) ∷ q) r =
    ap (λ (x : List Maker). record { price = p; slot = s; order = o } ∷ x)
      (queue_makers-append p q r)

pub All-split {ℓ} :
    {A : Type 0} (P : A → Type ℓ) (xs ys : List A) → All P (xs ++ ys) → All P xs × All P ys
All-split P [] ys a = (tt, a)
All-split P (x ∷ xs) ys (a, more) = let (l, r) = All-split P xs ys more in ((a, l), r)

pub AllKept-AllOpen :
    (side : Side) (ids : HashMap Location) (ms : List Maker)
    → AllKept side ids ms
    → AllOpen (entries_of ms)
AllKept-AllOpen side ids [] a = tt
AllKept-AllOpen side ids (m ∷ ms) (h, a) = (h.some_left, AllKept-AllOpen side ids ms a)

-- An id whose place is at none of the makers' slots is none of theirs.
pub has_id_elsewhere :
    (side : Side) (ids : HashMap Location) (id : ℕ) (loc : Location) (ms : List Maker)
    → AllKept side ids ms
    → lookup id ids ≡ some loc
    → has loc.slot (entries_of ms) ≡ false
    → has_id id ms ≡ false
has_id_elsewhere side ids id loc [] a at out = refl
has_id_elsewhere side ids id loc (m ∷ ms) (h, a) at out = elim (Bool-cases (m.order.id == id)) [
  | inl same ↦
      let e : m.order.id ≡ id = ground (arith, same) in
      let there : some (place_of side m) ≡ some loc =
        sym h.known ∙ ap (λ (j : ℕ). lookup j ids) e ∙ at in
      let slots : m.slot ≡ loc.slot = cc in absurd (ground (arith, slots, out))
  | inr other ↦
      let rest = has_id_elsewhere side ids id loc ms a at (ground (arith, out)) in
      ground (arith, other, rest)
]

-- An id that the index does not know is none of the makers'.
pub has_id_unknown :
    (side : Side) (ids : HashMap Location) (id : ℕ) (ms : List Maker)
    → AllKept side ids ms
    → lookup id ids ≡ none
    → has_id id ms ≡ false
has_id_unknown side ids id [] a new = refl
has_id_unknown side ids id (m ∷ ms) (h, a) new = elim (Bool-cases (m.order.id == id)) [
  | inl same ↦
      let e : m.order.id ≡ id = ground (arith, same) in
      let clash : some (place_of side m) ≡ none =
        sym h.known ∙ ap (λ (j : ℕ). lookup j ids) e ∙ new in
      absurd cc
  | inr other ↦ ground (arith, other, has_id_unknown side ids id ms a new)
]

-- The index may change at ids that are none of the makers'.
pub AllKept-frame :
    (side : Side) (ids ids' : HashMap Location) (ms : List Maker)
    → ((j : ℕ) → has_id j ms ≡ true → lookup j ids' ≡ lookup j ids)
    → AllKept side ids ms
    → AllKept side ids' ms
AllKept-frame side ids ids' [] same a = tt
AllKept-frame side ids ids' (m ∷ ms) same (h, a) = (
  record {
    own = h.own;
    limited = h.limited;
    priced = h.priced;
    some_left = h.some_left;
    known = same m.order.id (ground arith) ∙ h.known;
  },
  AllKept-frame side ids ids' ms (λ j k. same j (ground arith)) a,
)

-- The index without the fills.
pub lookup-without_if :
    (id : ℕ) (ms : List Maker) (ids : HashMap Location)
    → lookup id (without ms ids) ≡ (if has_id id ms then none else lookup id ids)
lookup-without_if id [] ids = refl
lookup-without_if id (m ∷ ms) ids =
    let rest = lookup-without_if id ms (erase m.order.id ids) in
    ground (arith, rest, lookup-erase m.order.id id ids)

pub has_id_differs :
    (id j : ℕ) (ms : List Maker) → has_id j ms ≡ true → has_id id ms ≡ false → (id == j) ≡ false
has_id_differs id j ms inside out = elim (Bool-cases (id == j)) [
  | inl equal ↦
      let e : id ≡ j = ground (arith, equal) in
      let clash : false ≡ true = sym out ∙ ap (λ (i : ℕ). has_id i ms) e ∙ inside in absurd cc
  | inr differ ↦ differ
]

-- Another id may leave the index.
pub AllKept-erased :
    (side : Side) (id : ℕ) (ids : HashMap Location) (ms : List Maker)
    → has_id id ms ≡ false
    → AllKept side ids ms
    → AllKept side (erase id ids) ms
AllKept-erased side id ids ms out a =
    AllKept-frame side ids (erase id ids) ms
      (λ j inside. lookup-erase id j ids ∙ rw (has_id_differs id j ms inside out) refl) a
