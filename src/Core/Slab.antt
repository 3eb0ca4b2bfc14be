-- ===== src/Core/Slab.antt =====
-- The arena of crates/core/src/book.rs is a `slab::Slab`, a third-party type. It is a parameter of
-- the model: what its documentation promises of `insert`, indexing and `remove`.
pub mod FirstVacant
use order_matching_engine_ru.Prelude.{
  ℕ, ◌≡◌, Option, none, some, Outcome, ok, panic, ◌>>=◌, unwrap, ◌==◌, if◌then◌else◌,
}

-- `set` is a write through `IndexMut`. `insert` returns the key that it chose, which was vacant.
pub record Slab (A : Type 0) : Type 1 where
  pub Arena : Type 0
  pub empty : Arena
  pub get : Arena → ℕ → Option A
  pub key : Arena → ℕ
  pub insert : Arena → A → Arena
  pub set : Arena → ℕ → A → Arena
  pub remove : Arena → ℕ → Arena
  pub get-empty : (j : ℕ) → get empty j ≡ none
  pub key_vacant : (a : Arena) → get a (key a) ≡ none
  pub get-insert :
      (a : Arena) (x : A) (j : ℕ) → get (insert a x) j ≡ (if key a == j then some x else get a j)
  pub get-set :
      (a : Arena) (k : ℕ) (x : A) (j : ℕ) {y : A}
      → get a k ≡ some y
      → get (set a k x) j ≡ (if k == j then some x else get a j)
  pub get-remove :
      (a : Arena) (k j : ℕ) {y : A}
      → get a k ≡ some y
      → get (remove a k) j ≡ (if k == j then none else get a j)

module _ {A : Type 0} (S : Slab A) where
  open S use {Arena, get, set, remove}

  -- `arena[slot]` panics on a vacant key.
  unfoldable pub index : Arena → ℕ → Outcome A
  index a k = unwrap (get a k)

  -- `arena[slot].field = …`
  unfoldable pub modify : Arena → ℕ → (A → A) → Outcome Arena
  unfolding index
  modify a k f = do x ← index a k; ok (set a k (f x))

  -- `arena.remove(slot)` panics on a vacant key.
  unfoldable pub take_out : Arena → ℕ → Outcome Arena
  unfolding index
  take_out a k = do _ ← index a k; ok (remove a k)
