-- ===== src/Core/Matcher/Ladder.antt =====
-- One side of the book as a ladder of queues.
use order_matching_engine_ru.Prelude.{refl, ℕ, ◌<◌, ◌≡◌, true, [], ◌∷◌, ◌++◌, none, All}
use order_matching_engine_ru.Core.Types.{Price, Order}
use order_matching_engine_ru.Core.Slab.{Slab}
use order_matching_engine_ru.Core.Book.{Levels}
use order_matching_engine_ru.Core.PriceLevel.{PriceLevel}
use order_matching_engine_ru.Core.Book.Chain.{Entries, has, Chain-frame}
use order_matching_engine_ru.Core.Book.Queue.{Holds, has-append_left, has-append_right}
use order_matching_engine_ru.Core.Maps.{KeyOrder}
use order_matching_engine_ru.Core.Maps.Laws.{IsSorted}
use order_matching_engine_ru.Core.Matcher.Sweep.{Ladder, queue_makers, makers}

-- Every order of the side.
abbrev pub entries : Ladder → Entries
entries [] = []
entries ((_, q) ∷ v) = q ++ entries v

-- A queue that has run empty is no rung of the ladder.
abbrev pub rung : Price → Entries → Ladder → Ladder
rung p [] v = v
rung p (e ∷ q) v = (p, e ∷ q) ∷ v

pub entries-rung : (p : Price) (q : Entries) (v : Ladder) → entries (rung p q v) ≡ q ++ entries v
entries-rung p [] v = refl
entries-rung p (e ∷ q) v = refl

pub makers-rung :
    (p : Price) (q : Entries) (v : Ladder) → makers (rung p q v) ≡ queue_makers p q ++ makers v
makers-rung p [] v = refl
makers-rung p (e ∷ q) v = refl

pub rung-IsSorted :
    (before : KeyOrder) (p : Price) (e : ℕ × Order) (q : Entries) (v : Ladder)
    → IsSorted before ((p, e ∷ q) ∷ v)
    → IsSorted before (rung p q v)
rung-IsSorted before p e [] v h = h.1
rung-IsSorted before p e (d ∷ q) v h = h

-- Every resting order has something left.
abbrev pub AllOpen : Entries → Type 0
AllOpen q = All (λ (e : ℕ × Order). 0 < e.1.remaining) q

module _ (S : Slab Order) where
  open S use {Arena, get}

  -- The levels stand for the queues of the ladder, none of which is empty.
  abbrev pub Stands : Arena → Levels → Ladder → Type 0
  Stands a [] [] = Unit {0}
  Stands a [] (_ ∷ _) = ⊥
  Stands a (_ ∷ _) [] = ⊥
  Stands a (_ ∷ _) ((_, []) ∷ _) = ⊥
  Stands a ((p, l) ∷ m) ((p', e ∷ q) ∷ v) = (p ≡ p') × Holds S a l (e ∷ q) × Stands a m v

  pub Holds-frame :
      (a a' : Arena) (l : PriceLevel) (q : Entries)
      → ((j : ℕ) → has j q ≡ true → get a' j ≡ get a j)
      → Holds S a l q
      → Holds S a' l q
  Holds-frame a a' l q same h = record {
    sums = h.sums;
    distinct = h.distinct;
    chain = Chain-frame S a a' none q none same h.chain;
  }

  -- A side stands for its ladder whatever happens to other cells.
  pub Stands-frame :
      (a a' : Arena) (m : Levels) (v : Ladder)
      → ((j : ℕ) → has j (entries v) ≡ true → get a' j ≡ get a j)
      → Stands a m v
      → Stands a' m v
  Stands-frame a a' [] [] same h = tt
  Stands-frame a a' [] (_ ∷ _) same h = absurd h
  Stands-frame a a' (_ ∷ _) [] same h = absurd h
  Stands-frame a a' (_ ∷ _) ((_, []) ∷ _) same h = absurd h
  Stands-frame a a' ((p, l) ∷ m) ((p', e ∷ q) ∷ v) same (at, h, hs) = (
    at,
    Holds-frame a a' l (e ∷ q) (λ j k. same j (has-append_left j (e ∷ q) (entries v) k)) h,
    Stands-frame a a' m v (λ j k. same j (has-append_right j (e ∷ q) (entries v) k)) hs,
  )
