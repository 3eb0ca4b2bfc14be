-- ===== src/Core/Whole/Place.antt =====
-- crates/core/src/book.rs: an order that takes its place on a side, or gives it up.
use order_matching_engine_ru.Prelude.{
  ℕ, ◌+◌, ◌≡◌, sym, ap, ◌∙◌, false, ◌||◌, List, [], ◌∷◌, ◌++◌, arith, ◌==◌, All, All-append,
}
use mathlib.Core.Path.{subst}
use order_matching_engine_ru.Core.Book.Chain.{has, IsDistinct}
use order_matching_engine_ru.Core.Book.Queue.{has-append}
use order_matching_engine_ru.Core.Matcher.Ladder.{entries}
use order_matching_engine_ru.Core.Matcher.Sweep.{Ladder, Maker, makers}
use order_matching_engine_ru.Core.Matcher.Sweep.Facts.{volume}
use order_matching_engine_ru.Core.Whole.Kept.{
  has_id, entries_of, All-split, has_id-append, entries_of-append, entries_of-makers,
}

-- The second ladder is the first with one more maker.
abbrev pub Inserted : Ladder → Ladder → Maker → Type 0
Inserted v v' m = (xs ys : List Maker) × (makers v ≡ xs ++ ys) × (makers v' ≡ xs ++ m ∷ ys)

IsDistinct-insert :
    (xs ys : List Maker) (m : Maker)
    → IsDistinct (entries_of (xs ++ ys))
    → has m.slot (entries_of (xs ++ ys)) ≡ false
    → IsDistinct (entries_of (xs ++ m ∷ ys))
IsDistinct-insert [] ys m d out = (out, d)
IsDistinct-insert (x ∷ xs) ys m (o, d) out = (
  rw (entries_of-append xs (m ∷ ys)) (
      ground (
        arith,
        has-append x.slot (entries_of xs) ((m.slot, m.order) ∷ entries_of ys),
        has-append x.slot (entries_of xs) (entries_of ys),
        ap (has x.slot) (entries_of-append xs ys),
        o,
        out,
      )),
  IsDistinct-insert xs ys m d (ground arith),
)

IsDistinct-remove :
    (xs ys : List Maker) (m : Maker)
    → IsDistinct (entries_of (xs ++ m ∷ ys))
    → IsDistinct (entries_of (xs ++ ys)) × (has m.slot (entries_of (xs ++ ys)) ≡ false)
IsDistinct-remove [] ys m (o, d) = (d, o)
IsDistinct-remove (x ∷ xs) ys m (o, d) =
    let (d', out) = IsDistinct-remove xs ys m d in
    let there : has x.slot (entries_of xs ++ (m.slot, m.order) ∷ entries_of ys) ≡ false =
      ap (has x.slot) (sym (entries_of-append xs (m ∷ ys))) ∙ o in
    let parts = has-append x.slot (entries_of xs) ((m.slot, m.order) ∷ entries_of ys) in
    (
      (
        rw (entries_of-append xs ys)
            (ground (arith, parts, there, has-append x.slot (entries_of xs) (entries_of ys))),
        d',
      ),
      ground (arith, parts, there, out),
    )

pub volume-append : (xs ys : List Maker) → volume (xs ++ ys) ≡ volume xs + volume ys
volume-append [] ys = omega arith
volume-append (m ∷ xs) ys = omega (arith, volume-append xs ys)

module _ (v v' : Ladder) (m : Maker) (i : Inserted v v' m) where
  pub has-Inserted : (j : ℕ) → has j (entries v') ≡ ((m.slot == j) || has j (entries v))
  has-Inserted j =
      let (xs, ys, before, after) = i in
      let old = ap (λ (x : List Maker). entries_of x) before ∙ entries_of-append xs ys in
      let new = ap (λ (x : List Maker). entries_of x) after ∙ entries_of-append xs (m ∷ ys) in
      ground (
        arith,
        ap (has j) (sym (entries_of-makers v) ∙ old),
        ap (has j) (sym (entries_of-makers v') ∙ new),
        has-append j (entries_of xs) (entries_of ys),
        has-append j (entries_of xs) ((m.slot, m.order) ∷ entries_of ys),
      )

  pub has_id-Inserted :
      (id : ℕ) → has_id id (makers v') ≡ ((m.order.id == id) || has_id id (makers v))
  has_id-Inserted id =
      let (xs, ys, before, after) = i in
      ground (
        arith,
        ap (has_id id) before,
        ap (has_id id) after,
        has_id-append id xs ys,
        has_id-append id xs (m ∷ ys),
      )

  pub IsDistinct-Inserted :
      IsDistinct (entries v) → has m.slot (entries v) ≡ false → IsDistinct (entries v')
  IsDistinct-Inserted d out =
      let (xs, ys, before, after) = i in
      let old : entries v ≡ entries_of (xs ++ ys) =
        sym (entries_of-makers v) ∙ ap entries_of before in
      let new : entries_of (xs ++ m ∷ ys) ≡ entries v' =
        ap entries_of (sym after) ∙ entries_of-makers v' in
      subst IsDistinct new (
        IsDistinct-insert xs ys m (subst IsDistinct old d)
          (subst (λ q. has m.slot q ≡ false) old out))

  pub IsDistinct-removed :
      IsDistinct (entries v') → IsDistinct (entries v) × (has m.slot (entries v) ≡ false)
  IsDistinct-removed d =
      let (xs, ys, before, after) = i in
      let old : entries_of (xs ++ ys) ≡ entries v =
        ap entries_of (sym before) ∙ entries_of-makers v in
      let new : entries v' ≡ entries_of (xs ++ m ∷ ys) =
        sym (entries_of-makers v') ∙ ap entries_of after in
      let (d', out) = IsDistinct-remove xs ys m (subst IsDistinct new d) in
      (subst IsDistinct old d', subst (λ q. has m.slot q ≡ false) old out)

  pub All-Inserted : (P : Maker → Type 0) → P m → All P (makers v) → All P (makers v')
  All-Inserted P h a =
      let (xs, ys, before, after) = i in
      let (l, r) = All-split P xs ys (subst (λ x. All P x) before a) in
      subst (λ x. All P x) (sym after) (All-append P xs (m ∷ ys) l (h, r))

  pub All-removed : (P : Maker → Type 0) → All P (makers v') → P m × All P (makers v)
  All-removed P a =
      let (xs, ys, before, after) = i in
      let (l, (h, r)) = All-split P xs (m ∷ ys) (subst (λ x. All P x) after a) in
      (h, subst (λ x. All P x) (sym before) (All-append P xs ys l r))

  pub volume-Inserted : volume (makers v') ≡ m.order.remaining + volume (makers v)
  volume-Inserted =
      let (xs, ys, before, after) = i in
      omega
        (arith, ap volume before, ap volume after, volume-append xs ys, volume-append xs (m ∷ ys))
