-- ===== src/Engine/System/Examples.antt =====
-- One shard and two callers: the second takes its number behind the first, and pushes before it.
use order_matching_engine_ru.Prelude.{ℕ, ◌+◌, ◌≤◌, ◌≡◌, refl, true, List, [], ◌∷◌, ◌++◌, arith}
use order_matching_engine_ru.Core.Types.{Command, Sequenced}
use order_matching_engine_ru.Engine.Channel.Queue.{Items, bounded_queue}
use order_matching_engine_ru.Engine.Sequencer.{new_sequencer, next, try_push, pop}
use order_matching_engine_ru.Engine.Shard.{symbol_of, shard_for}
use order_matching_engine_ru.Engine.Submit.{start}
use order_matching_engine_ru.Engine.System.{
  System, init, numbered_by, pushed_to, popped_from, number, push, take_next, Reach, begin, later,
}
use order_matching_engine_ru.Engine.System.Fifo.{for_shard, Reach-Fifo}
use order_matching_engine_ru.Engine.System.Numbers.{count, Reach-once}

abbrev a_cancel : ℕ → Command
a_cancel id = Command.cancel id 7

abbrev first_command : Sequenced
first_command = record { seq = 1; ts = 10; cmd = a_cancel 1 }

abbrev second_command : Sequenced
second_command = record { seq = 2; ts = 11; cmd = a_cancel 2 }

abbrev ring_of : List Sequenced → Items Sequenced
ring_of items = record { items = items; receiver = true }

abbrev two_numbered : System (bounded_queue Sequenced 4)
two_numbered =
    numbered_by (bounded_queue Sequenced 4) (a_cancel 2) 11
      (numbered_by (bounded_queue Sequenced 4) (a_cancel 1) 10 (init (bounded_queue Sequenced 4) 1))

abbrev second_pushed : System (bounded_queue Sequenced 4)
second_pushed =
    pushed_to (bounded_queue Sequenced 4) second_command (ring_of (second_command ∷ []))
      (first_command ∷ []) two_numbered

abbrev both_pushed : System (bounded_queue Sequenced 4)
both_pushed =
    pushed_to (bounded_queue Sequenced 4) first_command
      (ring_of (second_command ∷ first_command ∷ [])) [] second_pushed

abbrev one_popped : System (bounded_queue Sequenced 4)
one_popped =
    popped_from (bounded_queue Sequenced 4) 0 second_command (ring_of (first_command ∷ []))
      both_pushed

abbrev both_popped : System (bounded_queue Sequenced 4)
both_popped = popped_from (bounded_queue Sequenced 4) 0 first_command (ring_of []) one_popped

second_pushed-Reach :
    Reach (bounded_queue Sequenced 4) (init (bounded_queue Sequenced 4) 1) second_pushed
unfolding init start numbered_by next new_sequencer pushed_to try_push symbol_of shard_for
second_pushed-Reach =
    later
      (later (later begin (number (init (bounded_queue Sequenced 4) 1) (a_cancel 1) 10)) (
        number
          (numbered_by (bounded_queue Sequenced 4) (a_cancel 1) 10
            (init (bounded_queue Sequenced 4) 1))
          (a_cancel 2) 11))
      (push two_numbered (first_command ∷ []) [] second_command (ring_of [])
        (ring_of (second_command ∷ [])) refl refl refl)

both_pushed-Reach :
    Reach (bounded_queue Sequenced 4) (init (bounded_queue Sequenced 4) 1) both_pushed
unfolding init start numbered_by next new_sequencer pushed_to try_push symbol_of shard_for
both_pushed-Reach = later second_pushed-Reach (
    push second_pushed [] [] first_command (ring_of (second_command ∷ []))
      (ring_of (second_command ∷ first_command ∷ [])) refl refl refl)

one_popped-Reach : Reach (bounded_queue Sequenced 4) (init (bounded_queue Sequenced 4) 1) one_popped
unfolding init start numbered_by next new_sequencer pushed_to popped_from pop symbol_of shard_for
one_popped-Reach = later both_pushed-Reach (
    take_next both_pushed 0 second_command (ring_of (second_command ∷ first_command ∷ []))
      (ring_of (first_command ∷ [])) refl refl)

both_popped-Reach :
    Reach (bounded_queue Sequenced 4) (init (bounded_queue Sequenced 4) 1) both_popped
unfolding init start numbered_by next new_sequencer pushed_to popped_from pop symbol_of shard_for
both_popped-Reach =
    later one_popped-Reach
      (take_next one_popped 0 first_command (ring_of (first_command ∷ [])) (ring_of []) refl refl)

-- The shard takes number 2 before number 1.
overtakes : both_popped.popped 0 ≡ second_command ∷ first_command ∷ []
unfolding popped_from pushed_to numbered_by init
overtakes = refl

Reach-Fifo_example :
    one_popped.popped 0 ++ first_command ∷ []
    ≡ for_shard (bounded_queue Sequenced 4) 1 0 (second_command ∷ first_command ∷ [])
unfolding init start numbered_by pushed_to popped_from symbol_of shard_for
Reach-Fifo_example =
    Reach-Fifo (bounded_queue Sequenced 4) 1 one_popped-Reach 0 (ring_of (first_command ∷ [])) refl

Reach-once_example : count 2 (first_command ∷ []) + count 2 (second_command ∷ []) ≤ 1
unfolding init start numbered_by next new_sequencer pushed_to try_push symbol_of shard_for
Reach-once_example = Reach-once (bounded_queue Sequenced 4) 1 2 second_pushed-Reach (omega arith)
