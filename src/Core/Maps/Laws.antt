-- ===== src/Core/Maps/Laws.antt =====
-- The laws of the maps: reads after writes, and the order of the keys.
use mathlib.Core.Path.{subst}
use order_matching_engine_ru.Prelude.{
  ℕ, ◌≡◌, refl, true, false, none, some, [], ◌∷◌, arith, ◌==◌, if◌then◌else◌, All,
}
use order_matching_engine_ru.Prelude.Int.{ℤ, eqb_ℤ, eqb_ℤ_iff}
use order_matching_engine_ru.Core.Maps.{
  KeyOrder, ascending, descending, BTreeMap, find, put, delete, HashMap, lookup, erase, insert,
}

module _ {V : Type 0} where
  pub find-put :
      (before : KeyOrder) (k j : ℤ) (v : V) (m : BTreeMap V)
      → find j (put before k v m) ≡ (if eqb_ℤ k j then some v else find j m)
  unfolding find put
  find-put before k j v [] = refl
  find-put before k j v ((i, w) ∷ m) = ground (arith, find-put before k j v m)

  pub find-delete_ne :
      (k j : ℤ) (m : BTreeMap V) → eqb_ℤ k j ≡ false → find j (delete k m) ≡ find j m
  unfolding find delete
  find-delete_ne k j [] h = refl
  find-delete_ne k j ((i, w) ∷ m) h = ground (arith, find-delete_ne k j m h)

  pub lookup-erase :
      (k j : ℕ) (m : HashMap V) → lookup j (erase k m) ≡ (if k == j then none else lookup j m)
  unfolding lookup erase
  lookup-erase k j [] = ground arith
  lookup-erase k j ((i, w) ∷ m) = ground (arith, lookup-erase k j m)

  pub lookup-insert :
      (k j : ℕ) (v : V) (m : HashMap V)
      → lookup j (insert k v m) ≡ (if k == j then some v else lookup j m)
  unfolding lookup insert
  lookup-insert k j v m = ground (arith, lookup-erase k j m)

-- The two key orders are strict and total.
pub record IsOrder (before : KeyOrder) : Type 0 where
  pub irrefl : (a b : ℤ) → eqb_ℤ a b ≡ true → before a b ≡ false
  pub trans : (a b c : ℤ) → before a b ≡ true → before b c ≡ true → before a c ≡ true
  pub total : (a b : ℤ) → eqb_ℤ a b ≡ false → before a b ≡ false → before b a ≡ true

pub ascending-IsOrder : IsOrder ascending
ascending-IsOrder = record {
  irrefl = λ a b h. ground arith;
  trans = λ a b c h k. ground arith;
  total = λ a b h k. ground arith;
}

pub descending-IsOrder : IsOrder descending
descending-IsOrder = record {
  irrefl = λ a b h. ground arith;
  trans = λ a b c h k. ground arith;
  total = λ a b h k. ground arith;
}

module _ {V : Type 0} where
  -- All keys come after `k`.
  abbrev pub AllAfter : KeyOrder → ℤ → BTreeMap V → Type 0
  AllAfter before k m = All (λ (e : ℤ × V). before k e.0 ≡ true) m

  abbrev pub IsSorted : KeyOrder → BTreeMap V → Type 0
  IsSorted before [] = Unit {0}
  IsSorted before ((k, _) ∷ m) = AllAfter before k m × IsSorted before m

module _ {V : Type 0} (before : KeyOrder) (ord : IsOrder before) where
  pub AllAfter-trans :
      (i k : ℤ) (m : BTreeMap V) → before i k ≡ true → AllAfter before k m → AllAfter before i m
  AllAfter-trans i k [] h a = tt
  AllAfter-trans i k ((j, v) ∷ m) h (a, more) = (ord.trans i k j h a, AllAfter-trans i k m h more)

  AllAfter-put :
      (i k : ℤ) (v : V) (m : BTreeMap V)
      → before i k ≡ true
      → AllAfter before i m
      → AllAfter before i (put before k v m)
  unfolding put
  AllAfter-put i k v [] h a = (h, tt)
  AllAfter-put i k v ((j, w) ∷ m) h (a, more) = ground (arith, AllAfter-put i k v m h more)

  AllAfter-delete :
      (i k : ℤ) (m : BTreeMap V) → AllAfter before i m → AllAfter before i (delete k m)
  unfolding delete
  AllAfter-delete i k [] a = tt
  AllAfter-delete i k ((j, w) ∷ m) (a, more) = ground (arith, AllAfter-delete i k m more)

  AllAfter-same :
      (i k : ℤ) (m : BTreeMap V) → eqb_ℤ i k ≡ true → AllAfter before i m → AllAfter before k m
  AllAfter-same i k m h a = subst (λ j. AllAfter before j m) ((eqb_ℤ_iff i k).0 h) a

  -- A write keeps the keys in order.
  pub put-IsSorted :
      (k : ℤ) (v : V) (m : BTreeMap V) → IsSorted before m → IsSorted before (put before k v m)
  unfolding put
  put-IsSorted k v [] s = (tt, tt)
  put-IsSorted k v ((j, w) ∷ m) (a, s) = ground (
    arith,
    AllAfter-same j k m,
    AllAfter-trans k j m,
    AllAfter-put j k v m,
    ord.total k j,
    put-IsSorted k v m s,
  )

  pub delete-IsSorted : (k : ℤ) (m : BTreeMap V) → IsSorted before m → IsSorted before (delete k m)
  unfolding delete
  delete-IsSorted k [] s = tt
  delete-IsSorted k ((j, w) ∷ m) (a, s) =
      ground (arith, AllAfter-delete j k m a, delete-IsSorted k m s)

  pub find_after : (k : ℤ) (m : BTreeMap V) → AllAfter before k m → find k m ≡ none
  unfolding find
  find_after k [] a = refl
  find_after k ((j, v) ∷ m) (a, more) = ground (arith, find_after k m more, ord.irrefl k j)

  -- In a sorted map a deleted key is gone.
  pub find-delete_self : (k : ℤ) (m : BTreeMap V) → IsSorted before m → find k (delete k m) ≡ none
  unfolding find delete
  find-delete_self k [] s = refl
  find-delete_self k ((j, w) ∷ m) (a, s) =
      ground (arith, find_after k m, AllAfter-same j k m, find-delete_self k m s)
