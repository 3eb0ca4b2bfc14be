-- ===== src/Wal/Writer/Append/LogOf.antt =====
-- The records of the segments up to one, in order.
use order_matching_engine_ru.Prelude.{
  ℕ, zero, suc, ◌<◌, ◌≡◌, refl, sym, ap, ◌∙◌, false, List, [], ◌∷◌, ◌++◌, arith, ◌==◌, ==_refl,
}
use mathlib.Core.List.{append-nil, append_assoc}
use order_matching_engine_ru.Wal.Record.{WalRecord}
use order_matching_engine_ru.Wal.Reader.Replay.{records_of}
use order_matching_engine_ru.Wal.Writer.Recovery.{with_record}

-- The indices of the segments that exist, in the order of their names.
abbrev pub indices : ℕ → List ℕ
indices zero = []
indices (suc n) = indices n ++ suc n ∷ []

pub records_of-append :
    {P : Type 0} (runs : P → List WalRecord) (ps qs : List P)
    → records_of runs (ps ++ qs) ≡ records_of runs ps ++ records_of runs qs
records_of-append runs [] qs = refl
records_of-append runs (p ∷ ps) qs =
    ap (λ xs. runs p ++ xs) (records_of-append runs ps qs)
    ∙ sym (append_assoc (runs p) (records_of runs ps) (records_of runs qs))

-- The records of the segments up to one.
abbrev pub log_of : (ℕ → List WalRecord) → ℕ → List WalRecord
log_of runs n = records_of runs (indices n)

pub log_of-suc :
    (runs : ℕ → List WalRecord) (n : ℕ) → log_of runs (suc n) ≡ log_of runs n ++ runs (suc n)
log_of-suc runs n =
    records_of-append runs (indices n) (suc n ∷ [])
    ∙ ap (λ xs. log_of runs n ++ xs) (append-nil (runs (suc n)))

pub log_of-below :
    (runs : ℕ → List WalRecord) (i n : ℕ) (r : WalRecord)
    → n < i
    → log_of (with_record runs i r) n ≡ log_of runs n
log_of-below runs i zero r h = refl
log_of-below runs i (suc n) r h =
    let other : (i == suc n) ≡ false = ground arith in
    rw
      (
        log_of-suc (with_record runs i r) n,
        log_of-suc runs n,
        other,
        log_of-below runs i n r (omega arith),
      )
      refl

pub log_of-with_record :
    (runs : ℕ → List WalRecord) (i : ℕ) (r : WalRecord)
    → 0 < i
    → log_of (with_record runs i r) i ≡ log_of runs i ++ r ∷ []
log_of-with_record runs zero r h = absurd (omega arith)
log_of-with_record runs (suc n) r h =
    rw
      (
        log_of-suc (with_record runs (suc n) r) n,
        log_of-suc runs n,
        ==_refl (suc n),
        log_of-below runs (suc n) n r (omega arith),
      )
      (sym (append_assoc (log_of runs n) (runs (suc n)) (r ∷ [])))
