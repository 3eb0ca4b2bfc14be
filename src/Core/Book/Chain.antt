-- ===== src/Core/Book/Chain.antt =====
-- The intrusive list of a price level: orders in the arena, linked through `prev` and `next`.
use order_matching_engine_ru.Prelude.{
  ℕ, ◌≡◌, refl, sym, ◌∙◌, Bool, true, false, ◌||◌, Option, none, some, List, [], ◌∷◌, ◌++◌, Outcome,
  ok, arith, ◌==◌,
}
use order_matching_engine_ru.Core.Types.{Order}
use order_matching_engine_ru.Core.Slab.{Slab}
use order_matching_engine_ru.Core.Book.{set_next, set_prev}

-- The slots of a queue with the orders in them. The links of an order here are of no account.
abbrev pub Entries : Type 0
Entries = List (ℕ × Order)

abbrev pub linked : Option ℕ → Option ℕ → Order → Order
linked prev next o = record o { prev = prev; next = next }

-- The slot of the first entry, or else the given one.
abbrev pub first : Entries → Option ℕ → Option ℕ
first [] e = e
first ((s, _) ∷ q) e = some s

-- The slot of the last entry, or else the given one.
abbrev pub final : Option ℕ → Entries → Option ℕ
final p [] = p
final p ((s, _) ∷ q) = final (some s) q

abbrev pub has : ℕ → Entries → Bool
has j [] = false
has j ((s, _) ∷ q) = (s == j) || has j q

abbrev pub IsDistinct : Entries → Type 0
IsDistinct [] = Unit {0}
IsDistinct ((s, _) ∷ q) = (has s q ≡ false) × IsDistinct q

-- No slot is in both.
abbrev pub AreApart : Entries → Entries → Type 0
AreApart q r = (j : ℕ) → has j q ≡ true → has j r ≡ false

module _ (S : Slab Order) where
  open S use {Arena, get}

  -- The orders of `q` are in the arena, linked in this order, from behind `p` to before `e`.
  abbrev pub Chain : Arena → Option ℕ → Entries → Option ℕ → Type 0
  Chain a p [] e = Unit {0}
  Chain a p ((s, o) ∷ q) e = (get a s ≡ some (linked p (first q e) o)) × Chain a (some s) q e

  -- The arenas agree but for the slots of `q`.
  abbrev pub SameOutside : Entries → Arena → Arena → Type 0
  SameOutside q a a' = (j : ℕ) → has j q ≡ false → get a' j ≡ get a j

  pub Chain-frame :
      (a a' : Arena) (p : Option ℕ) (q : Entries) (e : Option ℕ)
      → ((j : ℕ) → has j q ≡ true → get a' j ≡ get a j)
      → Chain a p q e
      → Chain a' p q e
  Chain-frame a a' p [] e same c = tt
  Chain-frame a a' p ((s, o) ∷ q) e same (c, cs) =
      (same s (ground arith) ∙ c, Chain-frame a a' (some s) q e (λ j h. same j (ground arith)) cs)

  pub Chain-append :
      (a : Arena) (p : Option ℕ) (q r : Entries) (e : Option ℕ)
      → Chain a p q (first r e)
      → Chain a (final p q) r e
      → Chain a p (q ++ r) e
  Chain-append a p [] r e c d = d
  Chain-append a p ((s, o) ∷ []) r e (c, cs) d = (c, d)
  Chain-append a p ((s, o) ∷ (t, u) ∷ q) r e (c, cs) d =
      (c, Chain-append a (some s) ((t, u) ∷ q) r e cs d)

  pub Chain-split :
      (a : Arena) (p : Option ℕ) (q r : Entries) (e : Option ℕ)
      → Chain a p (q ++ r) e
      → Chain a p q (first r e) × Chain a (final p q) r e
  Chain-split a p [] r e c = (tt, c)
  Chain-split a p ((s, o) ∷ []) r e (c, cs) = ((c, tt), cs)
  Chain-split a p ((s, o) ∷ (t, u) ∷ q) r e (c, cs) =
      let rest = Chain-split a (some s) ((t, u) ∷ q) r e cs in ((c, rest.0), rest.1)

  -- A write to the `next` field of the last order.
  abbrev pub Relinked : Entries → Arena → (Arena → Type 0) → Outcome Arena → Type 0
  Relinked q a P r = (a' : Arena) × (r ≡ ok a') × P a' × SameOutside q a a'

  set_next-final_cons :
      (a : Arena) (p : Option ℕ) (s : ℕ) (o : Order) (q : Entries) (e v : Option ℕ)
      → IsDistinct ((s, o) ∷ q)
      → Chain a p ((s, o) ∷ q) e
      → Relinked
          ((s, o) ∷ q)
          a
          (λ a'. Chain a' p ((s, o) ∷ q) v)
          (set_next S (final (some s) q) v a)
  unfolding set_next
  set_next-final_cons a p s o [] e v d (c, _) = (
    S.set a s (linked p v o),
    rw c,
    (ground (arith, S.get-set a s (linked p v o) s c), tt),
    λ j h. ground (arith, S.get-set a s (linked p v o) j c),
  )
  set_next-final_cons a p s o ((t, u) ∷ q) e v (d, ds) (c, cs) =
      let (a', run, chain, same) = set_next-final_cons a (some s) t u q e v ds cs in
      (a', run, (same s d ∙ c, chain), λ j h. same j (ground arith))

  -- The `next` field of the last of `q`, if there is one, is set.
  pub set_next-final :
      (a : Arena) (q : Entries) (e v : Option ℕ)
      → IsDistinct q
      → Chain a none q e
      → Relinked q a (λ a'. Chain a' none q v) (set_next S (final none q) v a)
  unfolding set_next
  set_next-final a [] e v d c = (a, refl, tt, λ j h. refl)
  set_next-final a ((s, o) ∷ q) e v d c = set_next-final_cons a none s o q e v d c

  -- The `prev` field of the first of `q`, if there is one, is set.
  pub set_prev-first :
      (a : Arena) (p v : Option ℕ) (q : Entries)
      → IsDistinct q
      → Chain a p q none
      → Relinked q a (λ a'. Chain a' v q none) (set_prev S (first q none) v a)
  unfolding set_prev
  set_prev-first a p v [] d c = (a, refl, tt, λ j h. refl)
  set_prev-first a p v ((s, o) ∷ q) (d, ds) (c, cs) =
      let a' : Arena = S.set a s (linked v (first q none) o) in
      let wrote = λ (j : ℕ). S.get-set a s (linked v (first q none) o) j c in
      (
        a',
        rw c,
        (
          ground (arith, wrote s),
          Chain-frame a a' (some s) q none (λ j h. ground (arith, wrote j, sym d)) cs,
        ),
        λ j h. ground (arith, wrote j),
      )
