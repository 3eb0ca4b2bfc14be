-- ===== src/Engine/Shard/Examples.antt =====
-- A shard with one book and commands of two symbols.
use order_matching_engine_ru.Prelude.{
  ℕ, ◌+◌, ◌≡◌, refl, sym, ◌∙◌, inl, inr, Option, some, none, List, [], ◌∷◌, ◌==◌, arith, Outcome,
  Bool-cases,
}
use mathlib.Core.Path.{subst}
use order_matching_engine_ru.Prelude.Int.{pos}
use order_matching_engine_ru.Core.Types.{
  Command, Sequenced, Side, buy, sell, limit, gtc, OutputEvent,
}
use order_matching_engine_ru.Core.Slab.FirstVacant.{vacant_first}
use order_matching_engine_ru.Core.Maps.{HashMap, lookup}
use order_matching_engine_ru.Core.Book.{OrderBook}
use order_matching_engine_ru.Core.Book
use order_matching_engine_ru.Core.Matcher.{apply}
use order_matching_engine_ru.Engine.Channel.Queue.{unbounded_queue}
use order_matching_engine_ru.Engine.Shard.{Shard, symbol_of}
use order_matching_engine_ru.Engine.Shard.Log.{process_all}
use order_matching_engine_ru.Engine.Shard.Isolation.{
  apply_all, for_symbol, EachRuns, EachApplied, process_all-EachApplied,
}

abbrev an_order : ℕ → ℕ → Side → Sequenced
an_order seq symbol side = record {
  seq = seq;
  ts = 10 + seq;
  cmd = Command.new (record {
    id = seq;
    symbol = symbol;
    side = side;
    kind = limit;
    tif = gtc;
    price = pos 100;
    stop_price = pos 0;
    qty = 5;
  });
}

-- Two orders of symbol 7 that trade, around one of symbol 9, which has no book.
abbrev mixed : List (Sequenced × ℕ)
mixed = (an_order 1 7 sell, 20) ∷ (an_order 2 9 buy, 21) ∷ (an_order 3 7 buy, 22) ∷ []

abbrev one_book : HashMap (OrderBook vacant_first)
one_book = (7, Book.new vacant_first 7 (pos 1)) ∷ []

abbrev no_checksum : List ℕ → ℕ
no_checksum bytes = 0

abbrev no_text : Sequenced → List ℕ
no_text s = []

abbrev one_book_shard : Shard vacant_first (unbounded_queue OutputEvent) no_checksum no_text 3
one_book_shard = record { books = one_book; egress = []; metrics = []; latencies = [] }

book_of_7-runs :
    (b' : OrderBook vacant_first) × (apply_all vacant_first 3
        (for_symbol 7 mixed)
        (Book.new vacant_first 7 (pos 1))
      ≡ Outcome.ok b')
unfolding apply Book.new symbol_of
book_of_7-runs = (_, refl)

lookup-one_book :
    (symbol : ℕ) (b : OrderBook vacant_first)
    → lookup symbol one_book ≡ some b
    → (7 ≡ symbol) × (Book.new vacant_first 7 (pos 1) ≡ b)
unfolding lookup
lookup-one_book symbol b at = elim (Bool-cases (7 == symbol)) [
  | inl same ↦
      let e : some (Book.new vacant_first 7 (pos 1)) ≡ some b = sym (rw same refl) ∙ at in
      (ground (arith, same), cc)
  | inr other ↦
      let e : ◌≡◌ {A = Option (OrderBook vacant_first)} none (some b) = sym (rw other refl) ∙ at in
      absurd cc
]

mixed-EachRuns :
    EachRuns vacant_first (unbounded_queue OutputEvent) no_checksum no_text 3 mixed one_book
mixed-EachRuns symbol b at =
    let (s, e) = lookup-one_book symbol b at in
    subst
      (λ (j : ℕ).
        (b' : OrderBook vacant_first) × (apply_all vacant_first 3 (for_symbol j mixed) b
          ≡ Outcome.ok b'))
      s
      (subst
        (λ (x : OrderBook vacant_first).
          (b' : OrderBook vacant_first) × (apply_all vacant_first 3 (for_symbol 7 mixed) x
            ≡ Outcome.ok b'))
        e book_of_7-runs)

process_all-EachApplied_example :
    (s' : Shard vacant_first (unbounded_queue OutputEvent) no_checksum no_text 3) × (process_all
        vacant_first
        (unbounded_queue OutputEvent)
        no_checksum
        no_text
        3
        mixed
        one_book_shard
      ≡ Outcome.ok s')
    × EachApplied vacant_first
        (unbounded_queue OutputEvent)
        no_checksum
        no_text
        3
        mixed
        one_book
        s'.books
process_all-EachApplied_example =
    process_all-EachApplied vacant_first (unbounded_queue OutputEvent) no_checksum no_text 3 mixed
      one_book_shard mixed-EachRuns
