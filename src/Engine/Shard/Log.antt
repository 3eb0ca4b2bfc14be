-- ===== src/Engine/Shard/Log.antt =====
-- The log of a shard against the commands that it processes.
use order_matching_engine_ru.Prelude.{ℕ, suc, ◌≤◌, List, [], ◌∷◌, map, keep, Outcome, ◌>>=◌}
use order_matching_engine_ru.Prelude
use order_matching_engine_ru.Core.Types.{Sequenced, Order, OutputEvent}
use order_matching_engine_ru.Core.Slab.{Slab}
use order_matching_engine_ru.Engine.Channel.{Channel}
use order_matching_engine_ru.Engine.Shard.{Shard, record_of, process}
use order_matching_engine_ru.Wal.Record.{WalRecord}
use order_matching_engine_ru.Wal.Writer.{WalWriter, Disk, flush}

module _ (S : Slab Order) (K : Channel OutputEvent) (crc32 : List ℕ → ℕ)
    (to_vec : Sequenced → List ℕ) (fuel : ℕ) where
  -- The commands applied one after the other, with no log.
  abbrev pub process_all :
      List (Sequenced × ℕ) → Shard S K crc32 to_vec fuel → Outcome (Shard S K crc32 to_vec fuel)
  process_all [] s = Prelude.ok s
  process_all ((cmd, now) ∷ more) s = process S K crc32 to_vec fuel cmd now s >>= process_all more

  -- What the log is to hold.
  abbrev pub records : List (Sequenced × ℕ) → List WalRecord
  records cmds = map (λ (cmd, _). record_of S K crc32 to_vec fuel cmd) cmds

  -- The last flush.
  abbrev closed :
      WalWriter × Disk × Shard S K crc32 to_vec fuel
      → Outcome (WalWriter × Disk × Shard S K crc32 to_vec fuel)
  closed (w, d, s) = Prelude.ok ((flush w d).0, (flush w d).1, s)
