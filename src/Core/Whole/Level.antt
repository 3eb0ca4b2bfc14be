-- ===== src/Core/Whole/Level.antt =====
-- crates/core/src/book.rs: a side with the queue of one price written.
use order_matching_engine_ru.Prelude.{
  ℕ, ◌≡◌, refl, sym, ap, ◌∙◌, true, false, arith, [], ◌∷◌, ◌++◌, List, All, All-append,
}
use mathlib.Core.Path.{subst}
use mathlib.Core.List.{append_assoc}
use order_matching_engine_ru.Prelude.Int.{ℤ, eqb_ℤ_refl}
use order_matching_engine_ru.Core.Types.{Price, Order}
use order_matching_engine_ru.Core.Slab.{Slab}
use order_matching_engine_ru.Core.PriceLevel.{PriceLevel}
use order_matching_engine_ru.Core.Maps.{KeyOrder}
use order_matching_engine_ru.Core.Maps.Laws.{IsOrder, IsSorted, AllAfter, AllAfter-trans}
use order_matching_engine_ru.Core.Book.{Levels}
use order_matching_engine_ru.Core.Book.Chain.{Entries}
use order_matching_engine_ru.Core.Book.Queue.{Holds}
use order_matching_engine_ru.Core.Matcher.Ladder.{rung, Stands, entries}
use order_matching_engine_ru.Core.Matcher.Sweep.{Ladder, Maker, queue_makers, makers}
use order_matching_engine_ru.Core.Matcher.Ladder.{makers-rung, entries-rung}
use order_matching_engine_ru.Core.Whole.Kept.{All-split, makers-append, queue_makers-append}
use order_matching_engine_ru.Core.Whole.Zoom.{AllBefore}

module _ (order : KeyOrder) (ord : IsOrder order) where
  sorted_behind :
      (i p : ℤ) (q : Entries) (better worse : Ladder)
      → order i p ≡ true
      → AllAfter order i better
      → AllAfter order p worse
      → AllAfter order i (better ++ rung p q worse)
  sorted_behind i p [] better worse h a b =
      All-append (λ e. order i e.0 ≡ true) better worse a (AllAfter-trans order ord i p worse h b)
  sorted_behind i p (e ∷ q) better worse h a b =
      All-append (λ e. order i e.0 ≡ true) better ((p, e ∷ q) ∷ worse) a
        (h, AllAfter-trans order ord i p worse h b)

  -- A side stays sorted whatever the queue of the price is.
  pub IsSorted-zoom :
      (p : ℤ) (q : Entries) (better worse : Ladder)
      → AllBefore order p better
      → AllAfter order p worse
      → IsSorted order better
      → IsSorted order worse
      → IsSorted order (better ++ rung p q worse)
  IsSorted-zoom p [] [] worse a b s t = t
  IsSorted-zoom p (e ∷ q) [] worse a b s t = (b, t)
  IsSorted-zoom p q ((i, r) ∷ better) worse (h, a) b (l, s) t =
      (sorted_behind i p q better worse h l b, IsSorted-zoom p q better worse a b s t)

pub IsSorted-split :
    (order : KeyOrder) (v w : Ladder)
    → IsSorted order (v ++ w)
    → IsSorted order v × IsSorted order w
IsSorted-split order [] w s = (tt, s)
IsSorted-split order ((i, q) ∷ v) w (a, s) =
    let (l, r) = IsSorted-split order v w s in
    ((((All-split (λ (e : ℤ × Entries). order i e.0 ≡ true) v w a).0, l)), r)

pub IsSorted-rung :
    (order : KeyOrder) (p : ℤ) (q : Entries) (v : Ladder)
    → IsSorted order (rung p q v)
    → IsSorted order v
IsSorted-rung order p [] v s = s
IsSorted-rung order p (e ∷ q) v s = s.1

pub makers_zoom :
    (p : Price) (q : Entries) (better worse : Ladder)
    → makers (better ++ rung p q worse) ≡ makers better ++ (queue_makers p q ++ makers worse)
makers_zoom p q better worse =
    makers-append better (rung p q worse)
    ∙ ap (λ (x : List Maker). makers better ++ x) (makers-rung p q worse)

pub entries_zoom :
    (p : Price) (q : Entries) (better worse : Ladder)
    → entries (better ++ rung p q worse) ≡ entries better ++ (q ++ entries worse)
entries_zoom p q [] worse = entries-rung p q worse
entries_zoom p q ((i, r) ∷ better) worse =
    ap (λ (x : Entries). r ++ x) (entries_zoom p q better worse)
    ∙ sym (append_assoc r (entries better) (q ++ entries worse))

-- The makers where the queue of a price has two parts.
pub makers_parts :
    (p : Price) (q r : Entries) (better worse : Ladder)
    → makers (better ++ rung p (q ++ r) worse)
      ≡ (makers better ++ queue_makers p q) ++ (queue_makers p r ++ makers worse)
makers_parts p q r better worse =
    makers_zoom p (q ++ r) better worse
    ∙ ap (λ (x : List Maker). makers better ++ (x ++ makers worse)) (queue_makers-append p q r)
    ∙ ap (λ (x : List Maker). makers better ++ x)
        (append_assoc (queue_makers p q) (queue_makers p r) (makers worse))
    ∙ sym (append_assoc (makers better) (queue_makers p q) (queue_makers p r ++ makers worse))

module _ (order : KeyOrder) (ord : IsOrder order) where
  queue_makers_at :
      (p : Price) (q : Entries) → All (λ (m : Maker). order p m.price ≡ false) (queue_makers p q)
  queue_makers_at p [] = tt
  queue_makers_at p (e ∷ q) = (ord.irrefl p p (eqb_ℤ_refl p), queue_makers_at p q)

  queue_makers-All :
      (P : Price → Type 0) (p : Price) (q : Entries)
      → P p
      → All (λ (m : Maker). P m.price) (queue_makers p q)
  queue_makers-All P p [] h = tt
  queue_makers-All P p (e ∷ q) h = (h, queue_makers-All P p q h)

  pub makers_after :
      (p : Price) (v : Ladder)
      → AllAfter order p v
      → All (λ (m : Maker). order p m.price ≡ true) (makers v)
  makers_after p [] a = tt
  makers_after p ((i, q) ∷ v) (h, a) =
      All-append (λ (m : Maker). order p m.price ≡ true) (queue_makers i q) (makers v)
        (queue_makers-All (λ x. order p x ≡ true) i q h) (makers_after p v a)

  makers_before :
      (p : Price) (v : Ladder)
      → AllBefore order p v
      → All (λ (m : Maker). order p m.price ≡ false) (makers v)
  makers_before p [] a = tt
  makers_before p ((i, q) ∷ v) (h, a) =
      let behind : order p i ≡ false =
        ground (arith, h, ord.trans i p i h, ord.irrefl i i (eqb_ℤ_refl i)) in
      All-append (λ (m : Maker). order p m.price ≡ false) (queue_makers i q) (makers v)
        (queue_makers-All (λ x. order p x ≡ false) i q behind) (makers_before p v a)

  pub makers_ahead :
      (p : Price) (v : Ladder)
      → AllBefore order p v
      → All (λ (m : Maker). order m.price p ≡ true) (makers v)
  makers_ahead p [] a = tt
  makers_ahead p ((i, q) ∷ v) (h, a) =
      All-append (λ (m : Maker). order m.price p ≡ true) (queue_makers i q) (makers v)
        (queue_makers-All (λ x. order x p ≡ true) i q h) (makers_ahead p v a)

  -- No maker of a better price, or of the price, is behind the price.
  pub makers_not_behind :
      (p : Price) (q : Entries) (better : Ladder)
      → AllBefore order p better
      → All (λ (m : Maker). order p m.price ≡ false) (makers better ++ queue_makers p q)
  makers_not_behind p q better a =
      All-append (λ (m : Maker). order p m.price ≡ false) (makers better) (queue_makers p q)
        (makers_before p better a) (queue_makers_at p q)

module _ (S : Slab Order) where
  open S use {Arena}

  pub Stands-append :
      (a : Arena) (m m' : Levels) (v v' : Ladder)
      → Stands S a m v
      → Stands S a m' v'
      → Stands S a (m ++ m') (v ++ v')
  Stands-append a [] m' [] v' h h' = h'
  Stands-append a [] m' (_ ∷ _) v' h h' = absurd h
  Stands-append a (_ ∷ _) m' [] v' h h' = absurd h
  Stands-append a (_ ∷ _) m' ((_, []) ∷ _) v' h h' = absurd h
  Stands-append a ((p, l) ∷ m) m' ((p', e ∷ q) ∷ v) v' (at, h, hs) h' =
      (at, h, Stands-append a m m' v v' hs h')

  -- A level for a queue with an order, in front of a side.
  pub Stands-rung :
      (a : Arena) (p : Price) (l : PriceLevel) (q r : Entries) (e : ℕ × Order) (m : Levels)
      (v : Ladder)
      → Holds S a l (q ++ e ∷ r)
      → Stands S a m v
      → Stands S a ((p, l) ∷ m) (rung p (q ++ e ∷ r) v)
  Stands-rung a p l [] r e m v h hs = (refl, h, hs)
  Stands-rung a p l (d ∷ q) r e m v h hs = (refl, h, hs)

  pub Stands-IsSorted :
      (order : KeyOrder) (a : Arena) (m : Levels) (v : Ladder)
      → Stands S a m v
      → IsSorted order v
      → IsSorted order m
  Stands-IsSorted order a [] [] h s = tt
  Stands-IsSorted order a [] (_ ∷ _) h s = absurd h
  Stands-IsSorted order a (_ ∷ _) [] h s = absurd h
  Stands-IsSorted order a (_ ∷ _) ((_, []) ∷ _) h s = absurd h
  Stands-IsSorted order a ((p, l) ∷ m) ((i, e ∷ q) ∷ v) (at, h, hs) (later, s) = (
    keys m v hs (subst (λ x. AllAfter order x v) (sym at) later),
    Stands-IsSorted order a m v hs s,
  )
    where
      keys : (m : Levels) (v : Ladder) → Stands S a m v → AllAfter order p v → AllAfter order p m
      keys [] v h b = tt
      keys (_ ∷ _) [] h b = absurd h
      keys (_ ∷ _) ((_, []) ∷ _) h b = absurd h
      keys ((j, k) ∷ m) ((i, e ∷ q) ∷ v) (at, h, hs) (b, more) =
          (subst (λ x. order p x ≡ true) (sym at) b, keys m v hs more)
