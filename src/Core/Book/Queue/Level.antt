-- ===== src/Core/Book/Queue/Level.antt =====
-- crates/core/src/price_level.rs: what each operation makes of the ends and the total of a queue.
use order_matching_engine_ru.Prelude.{
  ℕ, ◌+◌, ◌<◌, ◌^◌, ◌≡◌, refl, false, Option, none, some, [], ◌∷◌, ◌++◌, arith, if◌then◌else◌, ◌==◌,
  add_u64, saturating_sub,
}
use order_matching_engine_ru.Core.Types.{Order}
use order_matching_engine_ru.Core.PriceLevel.{PriceLevel, push_back, remove}
use order_matching_engine_ru.Core.Book.{unlink_level, tail_after, is_slot}
use order_matching_engine_ru.Core.Matcher.Loop.{tail_or}
use order_matching_engine_ru.Core.Book.Chain.{Entries, first, final, has}
use order_matching_engine_ru.Core.Book.Queue.Ends.{
  total_remaining, total_remaining-append, final-append,
}

-- The fields of a level that stands for the queue.
pub record Sums (l : PriceLevel) (q : Entries) : Type 0 where
  pub head : l.head ≡ first q none
  pub tail : l.tail ≡ final none q
  pub total : l.total_qty ≡ total_remaining q
  pub bounded : total_remaining q < 2 ^ 64

final-some : (s : ℕ) (q : Entries) → (t : ℕ) × (final (some s) q ≡ some t)
final-some s [] = (s, refl)
final-some s ((t, o) ∷ q) = final-some t q

pub push_back-Sums :
    (l : PriceLevel) (q : Entries) (slot : ℕ) (o : Order)
    → Sums l q
    → total_remaining q + o.remaining < 2 ^ 64
    → Sums (push_back slot o.remaining l) (q ++ (slot, o) ∷ [])
unfolding push_back
push_back-Sums l [] slot o h fits = ground arith
push_back-Sums l ((s, u) ∷ q) slot o h fits = record {
  head = ground (arith, final-some s q);
  tail = rw (final-append (some s) q ((slot, o) ∷ []));
  total = omega (arith, h.total, total_remaining-append q ((slot, o) ∷ []));
  bounded = omega (arith, total_remaining-append q ((slot, o) ∷ []));
}

-- A level that advances to its second order.
abbrev pub advanced : PriceLevel → ℕ → Option ℕ → PriceLevel
advanced l qty next = record l {
  head = next;
  tail = tail_after next l.tail;
  total_qty = saturating_sub l.total_qty qty;
}

-- The level behind `pop_head`.
pub advanced-Sums :
    (l : PriceLevel) (s : ℕ) (o : Order) (q : Entries)
    → Sums l ((s, o) ∷ q)
    → Sums (advanced l o.remaining (first q none)) q
advanced-Sums l s o [] h = ground arith
advanced-Sums l s o ((t, u) ∷ q) h = ground arith

-- A level with an order put back in front.
abbrev pub returned : PriceLevel → ℕ → ℕ → PriceLevel
returned l slot qty = record l {
  head = some slot;
  tail = tail_or l.tail slot;
  total_qty = add_u64 l.total_qty qty;
  count = add_u64 l.count 1;
}

-- The level behind `reinsert_at_head`.
pub returned-Sums :
    (l : PriceLevel) (q : Entries) (slot : ℕ) (o : Order)
    → Sums l q
    → total_remaining q + o.remaining < 2 ^ 64
    → Sums (returned l slot o.remaining) ((slot, o) ∷ q)
returned-Sums l [] slot o h fits = ground arith
returned-Sums l ((s, u) ∷ q) slot o h fits = ground (arith, final-some s q)

is_slot-first :
    (slot : ℕ) (o : Order) (q r : Entries)
    → has slot q ≡ false
    → (if is_slot (first (q ++ (slot, o) ∷ r) none) slot
        then first r none
        else first (q ++ (slot, o) ∷ r) none)
      ≡ first (q ++ r) none
is_slot-first slot o [] r out = ground arith
is_slot-first slot o ((s, u) ∷ q) r out = ground arith

is_slot-final :
    (slot : ℕ) (o : Order) (p : Option ℕ) (q r : Entries)
    → has slot r ≡ false
    → (if is_slot (final p (q ++ (slot, o) ∷ r)) slot
        then final p q
        else final p (q ++ (slot, o) ∷ r))
      ≡ final p (q ++ r)
is_slot-final slot o p ((s, u) ∷ q) r out = is_slot-final slot o (some s) q r out
is_slot-final slot o p [] [] out = ground arith
is_slot-final slot o p [] ((t, v) ∷ r) out = later t r (ground arith) (ground arith)
  where
    later :
        (t : ℕ) (r : Entries)
        → (t == slot) ≡ false
        → has slot r ≡ false
        → (if is_slot (final (some t) r) slot then p else final (some t) r) ≡ final (some t) r
    later t [] ne out = rw ne
    later t ((v, w) ∷ r) ne out = later v r (ground arith) (ground arith)

-- The level behind `remove_slot`, between the orders on both sides.
pub unlink_level-Sums :
    (l : PriceLevel) (q r : Entries) (slot : ℕ) (o : Order)
    → Sums l (q ++ (slot, o) ∷ r)
    → has slot q ≡ false
    → has slot r ≡ false
    → Sums (unlink_level slot (final none q) (first r none) o.remaining l) (q ++ r)
unfolding unlink_level remove
unlink_level-Sums l q r slot o h out_q out_r = record {
  head = rw h.head (is_slot-first slot o q r out_q);
  tail = rw h.tail (is_slot-final slot o none q r out_r);
  total =
      omega (arith, h.total, total_remaining-append q r, total_remaining-append q ((slot, o) ∷ r));
  bounded =
      omega
        (arith, h.bounded, total_remaining-append q r, total_remaining-append q ((slot, o) ∷ r));
}
