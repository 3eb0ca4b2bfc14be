-- ===== src/Core/Whole/Swept.antt =====
-- crates/core/src/matcher.rs: the makers and the index behind a match.
use order_matching_engine_ru.Prelude.{
  ℕ, ◌-◌, ◌<◌, ◌≡◌, refl, sym, ap, ◌∙◌, ◌⊎◌, inl, inr, Bool, true, false, List, [], ◌∷◌, ◌++◌,
  arith, ◌==◌, leb, Bool-cases, All,
}
use mathlib.Core.Path.{subst}
use order_matching_engine_ru.Core.Types.{Price, Side}
use order_matching_engine_ru.Core.Maps.{HashMap}
use order_matching_engine_ru.Core.Book.{Location}
use order_matching_engine_ru.Core.Book.Chain.{has, IsDistinct}
use order_matching_engine_ru.Core.Book.Queue.{IsDistinct-split}
use order_matching_engine_ru.Core.Matcher.Sweep.{Maker, sweep, reduced, without}
use order_matching_engine_ru.Core.Whole.Kept.{
  has_id, entries_of, IsKept, AllKept, All-split, entries_of-append, has_id_elsewhere,
  lookup-without_if,
}

-- A maker that a trade has made smaller.
abbrev pub smaller : Maker → ℕ → Maker
smaller m n = record m { order = reduced m.order n }

-- What is left of some makers when at most the first of them has been made smaller.
abbrev pub Trimmed : List Maker → List Maker → Type 0
Trimmed [] left = left ≡ []
Trimmed (m ∷ ms) left =
    (left ≡ m ∷ ms) ⊎ ((n : ℕ) × (n < m.order.remaining) × (left ≡ smaller m n ∷ ms))

Trimmed-same : (ms : List Maker) → Trimmed ms ms
Trimmed-same [] = refl
Trimmed-same (m ∷ ms) = inl refl

pub All-Trimmed :
    (P : Maker → Type 0)
    → ((m : Maker) (n : ℕ) → n < m.order.remaining → P m → P (smaller m n))
    → (ms left : List Maker) → Trimmed ms left
    → All P ms
    → All P left
All-Trimmed P stable [] left e a = subst (λ x. All P x) (sym e) tt
All-Trimmed P stable (m ∷ ms) left (inl e) a = subst (λ x. All P x) (sym e) a
All-Trimmed P stable (m ∷ ms) left (inr (n, lt, e)) (h, a) =
    subst (λ x. All P x) (sym e) (stable m n lt h, a)

pub has_id-Trimmed :
    (id : ℕ) (ms left : List Maker) → Trimmed ms left → has_id id left ≡ has_id id ms
has_id-Trimmed id [] left e = ap (has_id id) e
has_id-Trimmed id (m ∷ ms) left (inl e) = ap (has_id id) e
has_id-Trimmed id (m ∷ ms) left (inr (n, lt, e)) = ap (has_id id) e

module _ (crosses : Price → Bool) (side : Side) (taker seq ts : ℕ) where
  -- The makers before the match are those that it uses up and, behind them, those that it leaves.
  pub sweep-Trimmed :
      (r : ℕ) (ms : List Maker)
      → let w = sweep crosses side taker seq ts r ms in
        (rest : List Maker) × (ms ≡ w.fills ++ rest) × Trimmed rest w.left
  unfolding sweep
  sweep-Trimmed r [] = ([], refl, refl)
  sweep-Trimmed r (m ∷ ms) = elim (Bool-cases (r == 0)) [
    | inl full ↦ rw full (m ∷ ms, refl, inl refl)
    | inr more ↦ elim (Bool-cases (crosses m.price)) [
      | inr past ↦ rw (more, past) (m ∷ ms, refl, inl refl)
      | inl crossed ↦ elim (Bool-cases (leb m.order.remaining r)) [
        | inl fits ↦
            let (rest, whole, trimmed) = sweep-Trimmed (r - m.order.remaining) ms in
            rw (more, crossed, fits) (rest, ap (λ (x : List Maker). m ∷ x) whole, trimmed)
        | inr over ↦
            let lt : r < m.order.remaining = ground (arith, over) in
            rw (more, crossed, over) (m ∷ ms, refl, inr (r, lt, refl))
      ]
    ]
  ]

-- Makers at other slots than the fills' are not affected by the fills' leaving the index.
pub AllKept-without :
    (side side' : Side) (ids : HashMap Location) (fills ms : List Maker)
    → AllKept side' ids fills
    → ((j : ℕ) → has j (entries_of ms) ≡ true → has j (entries_of fills) ≡ false)
    → AllKept side ids ms
    → AllKept side (without fills ids) ms
AllKept-without side side' ids fills [] f apart a = tt
AllKept-without side side' ids fills (m ∷ ms) f apart (h, a) =
    let out =
      has_id_elsewhere side' ids m.order.id _ fills f h.known (apart m.slot (ground arith)) in
    (
      record {
        own = h.own;
        limited = h.limited;
        priced = h.priced;
        some_left = h.some_left;
        known = lookup-without_if m.order.id fills ids ∙ rw out h.known;
      },
      AllKept-without side side' ids fills ms f (λ j k. apart j (ground arith)) a,
    )

IsKept-smaller :
    (side : Side) (ids : HashMap Location) (m : Maker) (n : ℕ)
    → n < m.order.remaining
    → IsKept side ids m
    → IsKept side ids (smaller m n)
IsKept-smaller side ids m n lt h = record {
  own = h.own;
  limited = h.limited;
  priced = h.priced;
  some_left = omega arith;
  known = h.known;
}

-- The makers that a match leaves are where the index says, when the fills have left it.
pub AllKept-swept :
    (side : Side) (ids : HashMap Location) (fills rest left : List Maker)
    → Trimmed rest left
    → IsDistinct (entries_of (fills ++ rest))
    → AllKept side ids (fills ++ rest)
    → AllKept side (without fills ids) left
AllKept-swept side ids fills rest left trimmed distinct a =
    let (f, r) = All-split (IsKept side ids) fills rest a in
    let (_, _, apart) =
      IsDistinct-split (entries_of fills) (entries_of rest)
        (subst IsDistinct (entries_of-append fills rest) distinct) in
    All-Trimmed (IsKept side (without fills ids)) (IsKept-smaller side (without fills ids)) rest
      left trimmed (AllKept-without side side ids fills rest f (λ j h. ground (arith, apart j)) r)
