-- ===== src/Core/Book/Queue/Ends.antt =====
-- Queues as lists of entries: ends, totals and distinct slots of a concatenation.
use order_matching_engine_ru.Prelude.{
  ℕ, ◌+◌, ◌≡◌, refl, true, false, ◌||◌, Option, some, [], ◌∷◌, ◌++◌, arith,
}
use order_matching_engine_ru.Core.Types.{Order}
use order_matching_engine_ru.Core.Book.Chain.{Entries, first, final, has, IsDistinct, AreApart}

abbrev pub total_remaining : Entries → ℕ
total_remaining [] = 0
total_remaining ((_, o) ∷ q) = o.remaining + total_remaining q

pub total_remaining-append :
    (q r : Entries) → total_remaining (q ++ r) ≡ total_remaining q + total_remaining r
total_remaining-append [] r = omega arith
total_remaining-append ((s, o) ∷ q) r = omega (arith, total_remaining-append q r)

pub has-append : (j : ℕ) (q r : Entries) → has j (q ++ r) ≡ (has j q || has j r)
has-append j [] r = refl
has-append j ((s, o) ∷ q) r = ground (arith, has-append j q r)

pub first-append : (q r : Entries) (e : Option ℕ) → first (q ++ r) e ≡ first q (first r e)
first-append [] r e = refl
first-append ((s, o) ∷ q) r e = refl

pub final-append : (p : Option ℕ) (q r : Entries) → final p (q ++ r) ≡ final (final p q) r
final-append p [] r = refl
final-append p ((s, o) ∷ q) r = final-append (some s) q r

-- The end of a queue that is not empty does not depend on what stands before it.
pub final_cons :
    (p : Option ℕ) (s : ℕ) (o : Order) (q : Entries) → final p ((s, o) ∷ q) ≡ final (some s) q
final_cons p s o q = refl

pub IsDistinct-append :
    (q r : Entries) → IsDistinct q → IsDistinct r → AreApart q r → IsDistinct (q ++ r)
IsDistinct-append [] r d e apart = e
IsDistinct-append ((s, o) ∷ q) r (d, ds) e apart = (
  ground (arith, has-append s q r, apart s),
  IsDistinct-append q r ds e (λ j h. apart j (ground arith)),
)

pub IsDistinct-split :
    (q r : Entries) → IsDistinct (q ++ r) → IsDistinct q × IsDistinct r × AreApart q r
IsDistinct-split [] r d = (tt, d, λ j h. cc)
IsDistinct-split ((s, o) ∷ q) r (d, ds) =
    let rest = IsDistinct-split q r ds in
    (
      (ground (arith, has-append s q r), rest.0),
      rest.1,
      λ j h. ground (arith, has-append s q r, rest.2 j),
    )

pub has-append_left : (j : ℕ) (q r : Entries) → has j q ≡ true → has j (q ++ r) ≡ true
has-append_left j q r h = rw (has-append, h)

pub has-append_right : (j : ℕ) (q r : Entries) → has j r ≡ true → has j (q ++ r) ≡ true
has-append_right j q r h = rw has-append (ground arith)

pub not-has-append :
    (j : ℕ) (q r : Entries) → has j (q ++ r) ≡ false → (has j q ≡ false) × (has j r ≡ false)
not-has-append j q r h = ground (arith, has-append j q r)

-- Membership in what comes before or behind excludes the other.
pub apart_front : (j : ℕ) (q r : Entries) → IsDistinct (q ++ r) → has j r ≡ true → has j q ≡ false
apart_front j q r d h = ground (arith, (IsDistinct-split q r d).2 j)
