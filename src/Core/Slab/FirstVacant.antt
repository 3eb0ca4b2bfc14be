-- ===== src/Core/Slab/FirstVacant.antt =====
-- A slab that gives out the lowest vacant key: the parameter's laws can hold, and examples run on it.
use order_matching_engine_ru.Prelude.{
  ℕ, zero, suc, ◌≡◌, refl, Option, none, some, List, [], ◌∷◌, arith, ◌==◌, if◌then◌else◌,
}
use order_matching_engine_ru.Core.Slab.{Slab}

module _ {A : Type 0} where
  abbrev pub cell : List (Option A) → ℕ → Option A
  cell [] k = none
  cell (c ∷ cs) zero = c
  cell (c ∷ cs) (suc k) = cell cs k

  abbrev pub first_vacant : List (Option A) → ℕ
  first_vacant [] = 0
  first_vacant (none ∷ cs) = 0
  first_vacant (some x ∷ cs) = suc (first_vacant cs)

  abbrev pub fill : List (Option A) → A → List (Option A)
  fill [] x = some x ∷ []
  fill (none ∷ cs) x = some x ∷ cs
  fill (some y ∷ cs) x = some y ∷ fill cs x

  abbrev pub write : List (Option A) → ℕ → Option A → List (Option A)
  write [] k c = []
  write (_ ∷ cs) zero c = c ∷ cs
  write (d ∷ cs) (suc k) c = d ∷ write cs k c

module _ {A : Type 0} where
  pub cell-first_vacant : (cs : List (Option A)) → cell cs (first_vacant cs) ≡ none
  cell-first_vacant [] = refl
  cell-first_vacant (none ∷ cs) = refl
  cell-first_vacant (some x ∷ cs) = cell-first_vacant cs

  pub cell-fill :
      (cs : List (Option A)) (x : A) (j : ℕ)
      → cell (fill cs x) j ≡ (if first_vacant cs == j then some x else cell cs j)
  cell-fill [] x zero = refl
  cell-fill [] x (suc j) = ground arith
  cell-fill (none ∷ cs) x zero = refl
  cell-fill (none ∷ cs) x (suc j) = ground arith
  cell-fill (some y ∷ cs) x zero = ground arith
  cell-fill (some y ∷ cs) x (suc j) = ground (arith, cell-fill cs x j)

  pub cell-write :
      (cs : List (Option A)) (k : ℕ) (c : Option A) (j : ℕ) {y : A}
      → cell cs k ≡ some y
      → cell (write cs k c) j ≡ (if k == j then c else cell cs j)
  cell-write [] k c j h = cc
  cell-write (d ∷ cs) zero c zero h = refl
  cell-write (d ∷ cs) zero c (suc j) h = ground arith
  cell-write (d ∷ cs) (suc k) c zero h = ground arith
  cell-write (d ∷ cs) (suc k) c (suc j) h = ground (arith, cell-write cs k c j h)

abbrev pub vacant_first : {A : Type 0} → Slab A
vacant_first {A} = record {
  Arena = List (Option A);
  empty = [];
  get = cell;
  key = first_vacant;
  insert = fill;
  set = λ cs k x. write cs k (some x);
  remove = λ cs k. write cs k none;
  get-empty = λ j. refl;
  key_vacant = cell-first_vacant;
  get-insert = cell-fill;
  get-set = λ cs k x j. cell-write cs k (some x) j;
  get-remove = λ cs k j. cell-write cs k none j;
}
