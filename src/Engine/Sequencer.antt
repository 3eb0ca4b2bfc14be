-- ===== src/Engine/Sequencer.antt =====
-- crates/engine/src/sequencer.rs and ring.rs. `fetch_add` is one atomic step and wraps; the time of
-- the call is an argument.
use order_matching_engine_ru.Prelude.{ℕ, Option, add_u64}
use order_matching_engine_ru.Prelude.Result.{Result}
use order_matching_engine_ru.Core.Types.{Sequenced}
use order_matching_engine_ru.Engine.Channel.{Channel, try_send}

pub record Sequencer : Type 0 where
  pub next_seq : ℕ

unfoldable pub new_sequencer : Sequencer
new_sequencer = record { next_seq = 1 }

-- `next`, at the time that has passed since the epoch.
unfoldable pub next : ℕ → Sequencer → (ℕ × ℕ) × Sequencer
next now s = ((s.next_seq, now), record { next_seq = add_u64 s.next_seq 1 })

unfoldable pub current : Sequencer → ℕ
current s = s.next_seq

module _ (K : Channel Sequenced) where
  -- `RingSender::try_push` and `SharedSender::try_push`.
  unfoldable pub try_push : Sequenced → K.State → Result K.State Sequenced
  unfolding try_send
  try_push cmd c = try_send K cmd c

  -- `RingReceiver::pop`, where it does not wait.
  unfoldable pub pop : K.State → Option (Sequenced × K.State)
  pop c = K.received c
