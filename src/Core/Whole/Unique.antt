-- ===== src/Core/Whole/Unique.antt =====
-- crates/core/src/book.rs: `id_index` as a map, with one entry for each id, and a sum over its entries.
use order_matching_engine_ru.Prelude.{
  ℕ, ◌+◌, ◌≡◌, refl, sym, ap, ◌∙◌, true, false, none, some, List, [], ◌∷◌, arith, ◌==◌, inl, inr,
  Bool-cases, All,
}
use mathlib.Core.Path.{subst}
use order_matching_engine_ru.Core.Maps.{HashMap, lookup, erase, insert}
use order_matching_engine_ru.Core.Maps.Laws.{lookup-erase}
use order_matching_engine_ru.Core.Matcher.Sweep.{Maker, without}
use order_matching_engine_ru.Core.Matcher.Sweep.Facts.{volume}
use order_matching_engine_ru.Core.Whole.Kept.{has_id}

module _ {V : Type 0} where
  abbrev pub IsUnique : HashMap V → Type 0
  IsUnique [] = Unit {0}
  IsUnique ((k, _) ∷ m) = (lookup k m ≡ none) × IsUnique m

  pub erase-IsUnique : (id : ℕ) (m : HashMap V) → IsUnique m → IsUnique (erase id m)
  unfolding erase
  erase-IsUnique id [] u = tt
  erase-IsUnique id ((k, v) ∷ m) (new, u) = elim (Bool-cases (k == id)) [
    | inl same ↦ rw same (erase-IsUnique id m u)
    | inr other ↦ rw other (lookup-erase id k m ∙ ground (arith, new), erase-IsUnique id m u)
  ]

  pub insert-IsUnique : (id : ℕ) (v : V) (m : HashMap V) → IsUnique m → IsUnique (insert id v m)
  unfolding insert
  insert-IsUnique id v m u = (lookup-erase id id m ∙ ground arith, erase-IsUnique id m u)

  pub without-IsUnique : (ms : List Maker) (m : HashMap V) → IsUnique m → IsUnique (without ms m)
  without-IsUnique [] m u = u
  without-IsUnique (x ∷ ms) m u =
      without-IsUnique ms (erase x.order.id m) (erase-IsUnique x.order.id m u)

  erase_unknown : (id : ℕ) (m : HashMap V) → lookup id m ≡ none → erase id m ≡ m
  unfolding erase lookup
  erase_unknown id [] new = refl
  erase_unknown id ((k, v) ∷ m) new = elim (Bool-cases (k == id)) [
    | inl same ↦ let clash : some v ≡ none = sym (rw same refl) ∙ new in absurd cc
    | inr other ↦
        let rest : lookup id m ≡ none = sym (rw other refl) ∙ new in
        rw other (ap (λ (x : HashMap V). (k, v) ∷ x) (erase_unknown id m rest))
  ]

  abbrev pub sum_of : (V → ℕ) → HashMap V → ℕ
  sum_of f [] = 0
  sum_of f ((_, v) ∷ m) = f v + sum_of f m

  sum_of-erase :
      (f : V → ℕ) (id : ℕ) (v : V) (m : HashMap V)
      → IsUnique m
      → lookup id m ≡ some v
      → sum_of f m ≡ f v + sum_of f (erase id m)
  unfolding erase lookup
  sum_of-erase f id v [] u at = absurd cc
  sum_of-erase f id v ((k, w) ∷ m) (new, u) at = elim (Bool-cases (k == id)) [
    | inl same ↦
        let e : k ≡ id = ground (arith, same) in
        let found : some w ≡ some v = sym (rw same refl) ∙ at in
        let value : w ≡ v = cc in
        let gone = erase_unknown id m (subst (λ j. lookup j m ≡ none) e new) in
        rw same (omega (arith, ap f value, ap (sum_of f) gone))
    | inr other ↦
        let rest : lookup id m ≡ some v = sym (rw other refl) ∙ at in
        rw other (omega (arith, sum_of-erase f id v m u rest))
  ]

-- No two makers have an id in common.
abbrev pub IsFresh : List Maker → Type 0
IsFresh [] = Unit {0}
IsFresh (m ∷ ms) = (has_id m.order.id ms ≡ false) × IsFresh ms

module _ {V : Type 0} (f : V → ℕ) where
  -- The map has a maker's id, with a value that says what the maker has left.
  abbrev pub Counts : HashMap V → Maker → Type 0
  Counts ids m = (v : V) × (lookup m.order.id ids ≡ some v) × (f v ≡ m.order.remaining)

  Counts-erase :
      (id : ℕ) (ids : HashMap V) (ms : List Maker)
      → has_id id ms ≡ false
      → All (Counts ids) ms
      → All (Counts (erase id ids)) ms
  Counts-erase id ids [] out a = tt
  Counts-erase id ids (m ∷ ms) out ((v, at, count), a) =
      let other : (id == m.order.id) ≡ false = ground (arith, out) in
      (
        (v, lookup-erase id m.order.id ids ∙ rw other at, count),
        Counts-erase id ids ms (ground (arith, out)) a,
      )

  -- A map with the makers' ids and no other adds up to their volume.
  pub sum_of-volume :
      (ms : List Maker) (ids : HashMap V)
      → IsUnique ids
      → IsFresh ms
      → All (Counts ids) ms
      → ((id : ℕ) (v : V) → lookup id ids ≡ some v → has_id id ms ≡ true)
      → sum_of f ids ≡ volume ms
  unfolding lookup
  sum_of-volume [] [] u fresh a listed = omega arith
  sum_of-volume [] ((k, v) ∷ ids) u fresh a listed =
      let same : (k == k) ≡ true = ground arith in
      absurd (let clash : false ≡ true = listed k v (rw same refl) in cc)
  sum_of-volume (m ∷ ms) ids u (new, fresh) ((v, at, count), a) listed =
      let id = m.order.id in
      let rest =
        sum_of-volume ms (erase id ids) (erase-IsUnique id ids u) fresh
          (Counts-erase id ids ms new a) (λ j w there. still j w there) in
      omega (arith, sum_of-erase f id v ids u at, rest, count)
    where
      still : (j : ℕ) (w : V) → lookup j (erase m.order.id ids) ≡ some w → has_id j ms ≡ true
      still j w there = elim (Bool-cases (m.order.id == j)) [
        | inl same ↦
            let gone : none ≡ some w = sym (lookup-erase m.order.id j ids ∙ rw same refl) ∙ there in
            absurd cc
        | inr other ↦
            let old : lookup j ids ≡ some w =
              sym (lookup-erase m.order.id j ids ∙ rw other refl) ∙ there in
            ground (arith, listed j w old, other)
      ]

module _ {V : Type 0} where
  known_behind :
      (k : ℕ) (v : V) (m xs : HashMap V)
      → lookup k m ≡ none
      → All (λ (e : ℕ × V). lookup e.0 m ≡ some e.1) xs
      → All (λ (e : ℕ × V). lookup e.0 ((k, v) ∷ m) ≡ some e.1) xs
  unfolding lookup
  known_behind k v m [] new a = tt
  known_behind k v m ((j, w) ∷ xs) new (at, a) = elim (Bool-cases (k == j)) [
    | inl same ↦
        let e : k ≡ j = ground (arith, same) in
        let clash : none ≡ some w = sym new ∙ ap (λ (i : ℕ). lookup i m) e ∙ at in absurd cc
    | inr other ↦ (rw other at, known_behind k v m xs new a)
  ]

  -- Every entry is the one of its id.
  pub entries_known : (m : HashMap V) → IsUnique m → All (λ (e : ℕ × V). lookup e.0 m ≡ some e.1) m
  unfolding lookup
  entries_known [] u = tt
  entries_known ((k, v) ∷ m) (new, u) =
      let same : (k == k) ≡ true = ground arith in
      (rw same refl, known_behind k v m m new (entries_known m u))
