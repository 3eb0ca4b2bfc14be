-- ===== src/Core/Book/Queue.antt =====
-- The operations of crates/core/src/book.rs and matcher.rs on one price level, against a FIFO queue.
pub mod Ends
pub mod Level
pub use Ends.*
pub use Level.*
use order_matching_engine_ru.Prelude.{
  ℕ, ◌+◌, ◌<◌, ◌^◌, ◌≡◌, refl, sym, ap, ◌∙◌, true, false, Option, none, some, List, [], ◌∷◌, ◌++◌,
  Outcome, ok, ◌>>=◌, saturating_sub, arith, if◌then◌else◌, ◌==◌,
}
use order_matching_engine_ru.Core.Types.{Price, Side, buy, sell, Order}
use order_matching_engine_ru.Core.Slab.{Slab, index, modify}
use order_matching_engine_ru.Core.Maps.{find, put, delete}
use order_matching_engine_ru.Core.PriceLevel.{PriceLevel, push_back, pop_front, is_empty, remove}
use order_matching_engine_ru.Core.Book.{
  OrderBook, Levels, before, level_or_new, side_levels, with_levels, insert_resting, pop_head,
  remove_slot, unlink_level, set_next, set_prev,
}
use order_matching_engine_ru.Core.Matcher.Loop.{reinsert_at_head}
use order_matching_engine_ru.Core.Book.Chain.{
  Entries, linked, first, final, has, IsDistinct, Chain, SameOutside, Chain-frame, Chain-append,
  Chain-split, set_next-final, set_prev-first,
}

module _ (S : Slab Order) where
  open S use {Arena, get}

  -- The level and the links of its orders stand for the queue.
  pub record Holds (a : Arena) (l : PriceLevel) (q : Entries) : Type 0 where
    pub sums : Sums l q
    pub distinct : IsDistinct q
    pub chain : Chain S a none q none

  -- The book with one level written, and the arena.
  abbrev pub at_level : Side → Price → PriceLevel → Arena → OrderBook S → OrderBook S
  at_level side price l a b =
      with_levels S side (put (before side) price l (side_levels S side b)) (record b { arena = a })

  -- A run that writes one level, which then stands for `q`, and cells of `r` only.
  abbrev pub Leaves :
      Side → Price → OrderBook S → Entries → Entries → Outcome (OrderBook S) → Type 0
  Leaves side price b q r run =
      (a : Arena) × (l : PriceLevel) × (run ≡ ok (at_level side price l a b))
      × Holds a l q
      × SameOutside S r b.arena a

  -- A cell outside a queue can be written first.
  Chain-past_write :
      (a : Arena) (slot : ℕ) (o : Order) (p : Option ℕ) (q : Entries) (e : Option ℕ)
      → ((j : ℕ) → get (S.set a slot o) j ≡ (if slot == j then some o else get a j))
      → has slot q ≡ false
      → Chain S a p q e
      → Chain S (S.set a slot o) p q e
  Chain-past_write a slot o p q e wrote out c =
      Chain-frame S a (S.set a slot o) p q e (λ j k. ground (arith, wrote j)) c

  same_past_write :
      (a a' : Arena) (slot : ℕ) (o : Order) (q r : Entries)
      → ((j : ℕ) → get (S.set a slot o) j ≡ (if slot == j then some o else get a j))
      → ((j : ℕ) → has j r ≡ false → (has j q ≡ false) × ((slot == j) ≡ false))
      → SameOutside S q (S.set a slot o) a'
      → SameOutside S r a a'
  same_past_write a a' slot o q r wrote out same j k = ground (arith, wrote j, out j k, same j)

  IsDistinct-snoc :
      (q : Entries) (slot : ℕ) (o : Order)
      → IsDistinct q
      → has slot q ≡ false
      → IsDistinct (q ++ (slot, o) ∷ [])
  IsDistinct-snoc q slot o d out =
      IsDistinct-append q ((slot, o) ∷ []) d (refl, tt) (λ j h. elsewhere q j h out)
    where
      elsewhere :
          (q : Entries) (j : ℕ)
          → has j q ≡ true
          → has slot q ≡ false
          → has j ((slot, o) ∷ []) ≡ false
      elsewhere [] j h k = cc
      elsewhere ((s, u) ∷ q) j h k = ground (arith, elsewhere q j)

  -- An order of the arena that is in no queue of its price joins the back of that queue, if the level
  -- of its price, or a new one where there is none, stands for the queue and the quantities together
  -- fit a `u64`: `insert_resting` succeeds, the level then stands for the queue with the order behind
  -- it, and neither another level nor a cell outside the new queue changes.
  pub insert_resting-append :
      (b : OrderBook S) (slot : ℕ) (o : Order) (q : Entries)
      → get b.arena slot ≡ some o
      → Holds b.arena (level_or_new (find o.price (side_levels S o.side b))) q
      → has slot q ≡ false
      → total_remaining q + o.remaining < 2 ^ 64
      → Leaves o.side o.price b
          (q ++ (slot, o) ∷ [])
          (q ++ (slot, o) ∷ [])
          (insert_resting S slot b)
  unfolding insert_resting
  insert_resting-append b slot o q at h out fits =
      let new = linked (final none q) none o in
      let a₁ : Arena = S.set b.arena slot new in
      let wrote = λ (j : ℕ). S.get-set b.arena slot new j at in
      let kept = Chain-past_write b.arena slot new none q none wrote out h.chain in
      let (a₂, run, chain, same) = set_next-final S a₁ q none (some slot) h.distinct kept in
      let level = level_or_new (find o.price (side_levels S o.side b)) in
      (
        a₂,
        push_back slot o.remaining level,
        rw (at, h.sums.tail, run),
        record {
          sums = push_back-Sums level q slot o h.sums fits;
          distinct = IsDistinct-snoc q slot o h.distinct out;
          chain =
              Chain-append S a₂ none q ((slot, o) ∷ []) none chain
                (same slot out ∙ ground (arith, wrote slot), tt);
        },
        same_past_write b.arena a₂ slot new q (q ++ (slot, o) ∷ []) wrote
            (λ j k. ground (arith, has-append j q ((slot, o) ∷ []))) same,
      )

  pop_front-some :
      (l : PriceLevel) (s n : ℕ)
      → l.head ≡ some s
      → pop_front n l ≡ (some s, record l { total_qty = saturating_sub l.total_qty n })
  unfolding pop_front
  pop_front-some l s n h = ground arith

  -- Where the level of a price stands for a queue with a first order, `pop_head` returns the slot of
  -- that order. The level then stands for the rest of the queue, and neither another level nor a cell
  -- outside that rest changes, so the popped order keeps its cell.
  pub pop_head-cons :
      (side : Side) (price : Price) (b : OrderBook S) (l : PriceLevel) (s : ℕ) (o : Order)
      (q : Entries)
      → find price (side_levels S side b) ≡ some l
      → Holds b.arena l ((s, o) ∷ q)
      → (a : Arena) × (l' : PriceLevel) × (pop_head S side price b
          ≡ ok (some s, at_level side price l' a b))
        × Holds a l' q
        × SameOutside S q b.arena a
  unfolding pop_head pop_front
  pop_head-cons side price b l s o q at h =
      let (a, run, chain, same) = set_prev-first S b.arena (some s) none q h.distinct.1 h.chain.1 in
      (
        a,
        advanced l o.remaining (first q none),
        rw (at, h.sums.head, h.chain.0, run, pop_head)
            (rw (pop_front-some l s o.remaining h.sums.head)),
        record { sums = advanced-Sums l s o q h.sums; distinct = h.distinct.1; chain = chain },
        same,
      )

  -- An order of the arena that is not in the queue of a price goes to the front of that queue, if the
  -- level, or a new one where there is none, stands for the queue and the quantities together fit a
  -- `u64`: `reinsert_at_head` succeeds, the level then stands for the queue behind the order, and
  -- neither another level nor a cell outside the new queue changes.
  pub reinsert_at_head-cons :
      (side : Side) (price : Price) (b : OrderBook S) (s : ℕ) (o : Order) (q : Entries)
      → get b.arena s ≡ some o
      → Holds b.arena (level_or_new (find price (side_levels S side b))) q
      → has s q ≡ false
      → total_remaining q + o.remaining < 2 ^ 64
      → Leaves side price b ((s, o) ∷ q) ((s, o) ∷ q) (reinsert_at_head S s price side b)
  unfolding reinsert_at_head
  reinsert_at_head-cons side price b s o q at h out fits =
      let o₁ : Order = record o { prev = none } in
      let a₁ : Arena = S.set b.arena s o₁ in
      let wrote₁ = λ (j : ℕ). S.get-set b.arena s o₁ j at in
      let at₁ : get a₁ s ≡ some o₁ = ground (arith, wrote₁ s) in
      let new = linked none (first q none) o in
      let a₂ : Arena = S.set a₁ s new in
      let wrote₂ = λ (j : ℕ). S.get-set a₁ s new j at₁ in
      let kept =
        Chain-past_write a₁ s new none q none wrote₂ out
          (Chain-past_write b.arena s o₁ none q none wrote₁ out h.chain) in
      let (a₃, run, chain, same) = set_prev-first S a₂ none (some s) q h.distinct kept in
      let level = level_or_new (find price (side_levels S side b)) in
      (
        a₃,
        returned level s o.remaining,
        rw (at, at₁, h.sums.head, run),
        record {
          sums = returned-Sums level q s o h.sums fits;
          distinct = (out, h.distinct);
          chain = (same s out ∙ ground (arith, wrote₂ s), chain);
        },
        λ j k. ground (arith, wrote₁ j, wrote₂ j, same j),
      )

  -- The book with one level written if it has an order left, else dropped, and the arena.
  abbrev pub at_level_or_drop : Side → Price → PriceLevel → Arena → OrderBook S → OrderBook S
  at_level_or_drop side price l a b =
      let levels = side_levels S side b in
      with_levels S side
        (if is_empty l then delete price levels else put (before side) price l levels)
        (record b { arena = a })

  -- Where the level of a price stands for a queue, `remove_slot` takes an order of it out, wherever it
  -- stands: the level then stands for the queue without the order, the others in their places, and is
  -- dropped if it was the last. Neither another level nor a cell outside the rest of the queue changes.
  pub remove_slot-append :
      (side : Side) (price : Price) (b : OrderBook S) (l : PriceLevel) (q r : Entries) (s : ℕ)
      (o : Order)
      → find price (side_levels S side b) ≡ some l
      → Holds b.arena l (q ++ (s, o) ∷ r)
      → (a : Arena) × (l' : PriceLevel) × (remove_slot S s side price o.remaining b
          ≡ ok (at_level_or_drop side price l' a b))
        × Holds a l' (q ++ r)
        × SameOutside S (q ++ r) b.arena a
  unfolding remove_slot
  remove_slot-append side price b l q r s o at h =
      let (front, (cell, back)) = Chain-split S b.arena none q ((s, o) ∷ r) none h.chain in
      let (dq, (out_r, dr), apart) = IsDistinct-split q ((s, o) ∷ r) h.distinct in
      let prev = final none q in
      let next = first r none in
      let (a₁, run₁, chain₁, same₁) = set_next-final S b.arena q (some s) next dq front in
      let back₁ =
        Chain-frame S b.arena a₁ (some s) r none (λ j k. ground (arith, apart j, same₁ j)) back in
      let (a₂, run₂, chain₂, same₂) = set_prev-first S a₁ (some s) prev r dr back₁ in
      let front₂ =
        Chain-frame S a₁ a₂ none q next (λ j k. ground (arith, apart j, same₂ j)) chain₁ in
      (
        a₂,
        unlink_level s prev next o.remaining l,
        rw (cell, run₁, run₂, at),
        record {
          sums = unlink_level-Sums l q r s o h.sums (ground (arith, apart s)) out_r;
          distinct = IsDistinct-append q r dq dr (λ j k. ground (arith, apart j));
          chain = Chain-append S a₂ none q r none front₂ chain₂;
        },
        λ j k. ground (arith, has-append j q r, same₁ j, same₂ j),
      )
