-- ===== src/Engine/Examples.antt =====
-- The theorems about the engine on concrete channels, commands and configurations.
use order_matching_engine_ru.Prelude.{
  ℕ, ◌+◌, ◌%◌, ◌^◌, ◌<◌, ◌≡◌, refl, ◌⊎◌, true, false, some, List, [], ◌∷◌, arith, length, map,
  Outcome,
}
use order_matching_engine_ru.Prelude.Int.{pos}
use order_matching_engine_ru.Prelude.Result.{Result}
use order_matching_engine_ru.Core.Types.{
  Command, Sequenced, Side, buy, sell, limit, gtc, OutputEvent, accepted, filled,
}
use order_matching_engine_ru.Core.Slab.FirstVacant.{vacant_first}
use order_matching_engine_ru.Wal.Record.{WalRecord}
use order_matching_engine_ru.Wal.Writer.{Disk}
use order_matching_engine_ru.Engine.Channel.Queue.{
  Items, unbounded_queue, bounded_queue, unbounded_queue-IsUnbounded,
}
use order_matching_engine_ru.Engine.Egress.{EgressBus, send_batch, drain}
use order_matching_engine_ru.Engine.Egress.Fanout.{
  send_each, send_batch-queue, send_batch-send_each, drain-queue,
}
use order_matching_engine_ru.Engine.Sequencer.{new_sequencer}
use order_matching_engine_ru.Engine.Shard.{Shard, add_books, symbol_of, shard_for}
use order_matching_engine_ru.Engine.Shard.Log.{records}
use order_matching_engine_ru.Engine.Submit.{
  Symbols, get_elem?, shard_symbols, Engine, start, submit,
}
use order_matching_engine_ru.Engine.Submit.Routing.{
  routed, shard_symbols-routed, numbered, Accepts, Refuses, submit-Accepts,
}

abbrev events : List OutputEvent
events = accepted 1 1 ∷ filled 1 1 ∷ []

-- A subscriber that is behind by one event, and one that is gone.
abbrev behind : Items OutputEvent
behind = record { items = accepted 9 9 ∷ []; receiver = true }

abbrev gone : Items OutputEvent
gone = record { items = accepted 9 9 ∷ []; receiver = false }

abbrev bus : EgressBus (unbounded_queue OutputEvent)
bus = gone ∷ behind ∷ []

send_batch-queue_example :
    map (unbounded_queue OutputEvent).queue (send_batch (unbounded_queue OutputEvent) events bus)
    ≡ (accepted 9 9 ∷ accepted 1 1 ∷ filled 1 1 ∷ []) ∷ []
send_batch-queue_example =
    send_batch-queue (unbounded_queue OutputEvent) (unbounded_queue-IsUnbounded OutputEvent)
      (accepted 1 1) (filled 1 1 ∷ []) bus

send_batch-send_each_example :
    send_batch (unbounded_queue OutputEvent) events bus
    ≡ send_each (unbounded_queue OutputEvent) events bus
send_batch-send_each_example =
    send_batch-send_each (unbounded_queue OutputEvent) (unbounded_queue-IsUnbounded OutputEvent)
      events bus

drain-queue_example :
    (c' : Items OutputEvent) × (drain (unbounded_queue OutputEvent) behind events
      ≡ (c', accepted 1 1 ∷ filled 1 1 ∷ accepted 9 9 ∷ []))
    × (c'.items ≡ [])
drain-queue_example = drain-queue (unbounded_queue OutputEvent) behind events

abbrev a_new : ℕ → ℕ → Side → Command
a_new symbol id side = Command.new (record {
  id = id;
  symbol = symbol;
  side = side;
  kind = limit;
  tif = gtc;
  price = pos 100;
  stop_price = pos 0;
  qty = 5;
})

abbrev a_sequenced : ℕ → Command → Sequenced
a_sequenced seq cmd = record { seq = seq; ts = 10 + seq; cmd = cmd }

-- Two orders that trade.
abbrev commands : List (Sequenced × ℕ)
commands = (a_sequenced 1 (a_new 7 1 sell), 20) ∷ (a_sequenced 2 (a_new 7 2 buy), 21) ∷ []

abbrev size_word : List ℕ → ℕ
size_word bytes = length bytes % 2 ^ 32

abbrev two_bytes : Sequenced → List ℕ
two_bytes s = 123 ∷ 125 ∷ []

abbrev shard_records : List (Sequenced × ℕ) → List WalRecord
shard_records = records vacant_first (unbounded_queue OutputEvent) size_word two_bytes 3

abbrev empty_disk : Disk
empty_disk = record { files = λ j. []; durable = λ j. [] }

abbrev opened : Shard vacant_first (unbounded_queue OutputEvent) size_word two_bytes 3
opened = record {
  books = add_books vacant_first ((7, pos 1) ∷ []) [];
  egress = bus;
  metrics = [];
  latencies = [];
}

abbrev symbols : Symbols
symbols = (7, pos 1) ∷ (4, pos 5) ∷ (9, pos 1) ∷ []

shard_symbols-routed_example :
    (lists : List Symbols) × (shard_symbols 2 symbols ≡ Outcome.ok lists)
    × ((i : ℕ) → i < 2 → get_elem? lists i ≡ some (routed 2 i symbols))
shard_symbols-routed_example = shard_symbols-routed 2 symbols (omega arith)

-- What the two shards own.
routed_symbols :
    ◌≡◌ {A = Symbols × Symbols}
      (routed 2 0 symbols, routed 2 1 symbols)
      ((4, pos 5) ∷ [], (7, pos 1) ∷ (9, pos 1) ∷ [])
unfolding shard_for
routed_symbols = refl

-- An engine that has just started, with room for one command in each of two rings.
abbrev started : Engine (bounded_queue Sequenced 1)
started = record {
  senders = (bounded_queue Sequenced 1).empty ∷ (bounded_queue Sequenced 1).empty ∷ [];
  sequencer = new_sequencer;
  num_shards = 2;
}

start-started : start (bounded_queue Sequenced 1) 2 ≡ started
unfolding start
start-started = refl

submit-Accepts_example :
    (r : Result ℕ Command × Engine (bounded_queue Sequenced 1)) × (submit
        (bounded_queue Sequenced 1)
        (a_new 7 1 sell)
        20
        started
      ≡ Outcome.ok r)
    × (r.1.sequencer.next_seq ≡ 2)
    × (((true ≡ true)
          × Accepts
              (bounded_queue Sequenced 1)
              (a_new 7 1 sell)
              started
              (numbered (bounded_queue Sequenced 1) (a_new 7 1 sell) 20 started)
              r)
        ⊎ ((true ≡ false) × Refuses (bounded_queue Sequenced 1) (a_new 7 1 sell) started r))
unfolding new_sequencer shard_for symbol_of
submit-Accepts_example =
    submit-Accepts (bounded_queue Sequenced 1) (a_new 7 1 sell) 20 started
      (bounded_queue Sequenced 1).empty (omega arith) refl
