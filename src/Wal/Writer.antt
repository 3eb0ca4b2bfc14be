-- ===== src/Wal/Writer.antt =====
-- crates/wal/src/writer.rs and the constant of segment.rs. The disk is explicit: what has reached the
-- file of each segment, and how much of that a sync has made durable. Calls of the file system
-- succeed. A `BufWriter` keeps what is written until a flush; that it may pass some on earlier is not
-- observed before one.
pub mod Recovery
pub mod Append
use order_matching_engine_ru.Prelude.{
  ℕ, suc, ◌+◌, ◌*◌, ◌%◌, Bool, Option, none, some, List, [], ◌∷◌, ◌++◌, leb, ◌==◌, if◌then◌else◌,
  length, add_u64, Outcome, ok, panic, ◌>>=◌,
}
use order_matching_engine_ru.Wal.Record.{RecordType, WalRecord, encode}

-- 64 MiB.
abbrev pub segment_size : ℕ
segment_size = 64 * 1024 * 1024

pub data FsyncPolicy : Type 0 where
  per_record : FsyncPolicy
  every : ℕ → FsyncPolicy
  off : FsyncPolicy

pub record WalWriter : Type 0 where
  pub seg_idx : ℕ
  pub seg_bytes : ℕ
  pub file : List ℕ
  pub fsync : FsyncPolicy
  pub write_count : ℕ

-- The bytes of the file of each segment index, and those that survive a loss of power.
pub record Disk : Type 0 where
  pub files : ℕ → List ℕ
  pub durable : ℕ → List ℕ

abbrev pub written : (ℕ → List ℕ) → ℕ → List ℕ → ℕ → List ℕ
written f i bytes j = if i == j then bytes else f j

abbrev pub next_segment : Option ℕ → ℕ
next_segment none = 1
next_segment (some i) = i + 1

-- `last` is the index of the highest segment that exists, as its file name says, if any.
unfoldable pub open_writer : Option ℕ → FsyncPolicy → Disk → WalWriter
open_writer last fsync d = record {
  seg_idx = next_segment last;
  seg_bytes = length (d.files (next_segment last));
  file = [];
  fsync = fsync;
  write_count = 0;
}

unfoldable pub flush : WalWriter → Disk → WalWriter × Disk
flush w d = (
  record w { file = [] },
  record d { files = written d.files w.seg_idx (d.files w.seg_idx ++ w.file) },
)

unfoldable pub do_fsync : WalWriter → Disk → WalWriter × Disk
unfolding flush
do_fsync w d =
    let (w, d) = flush w d in
    (w, record d { durable = written d.durable w.seg_idx (d.files w.seg_idx) })

unfoldable pub roll_segment : WalWriter → Disk → WalWriter × Disk
unfolding flush
roll_segment w d =
    let (w, d) = flush w d in
    (record w { seg_idx = add_u64 w.seg_idx 1; seg_bytes = 0; file = [] }, d)

-- The `match self.fsync`; `write_count % 0` panics.
unfoldable pub sync_by_policy : FsyncPolicy → WalWriter → Disk → Outcome (WalWriter × Disk)
unfolding do_fsync
sync_by_policy per_record w d = ok (do_fsync w d)
sync_by_policy (every n) w d =
    if n == 0 then panic else if w.write_count % n == 0 then ok (do_fsync w d) else ok (w, d)
sync_by_policy off w d = ok (w, d)

-- The roll at the end of `append`.
unfoldable pub roll_if_full : WalWriter × Disk → WalWriter × Disk
unfolding roll_segment
roll_if_full (w, d) = if leb segment_size w.seg_bytes then roll_segment w d else (w, d)

module _ (crc32 : List ℕ → ℕ) where
  unfoldable pub append : WalRecord → WalWriter → Disk → Outcome (WalWriter × Disk)
  unfolding sync_by_policy roll_if_full
  append rec w d = do
    let bytes = encode crc32 rec
    let w : WalWriter = record w {
      file = w.file ++ bytes;
      seg_bytes = add_u64 w.seg_bytes (length bytes);
      write_count = add_u64 w.write_count 1;
    }
    s ← sync_by_policy w.fsync w d
    ok (roll_if_full s)

  -- Appends of a run of records.
  unfoldable pub append_all : List WalRecord → WalWriter → Disk → Outcome (WalWriter × Disk)
  unfolding append
  append_all [] w d = ok (w, d)
  append_all (r ∷ rs) w d = do (w, d) ← append r w d; append_all rs w d
