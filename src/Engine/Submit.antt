-- ===== src/Engine/Submit.antt =====
-- crates/engine/src/lib.rs: how `Engine::start` deals the symbols out to the shards, and `submit`.
-- Threads, log directories and the metrics handle are left out.
pub mod Routing
pub mod Started
use order_matching_engine_ru.Prelude.{
  ℕ, zero, suc, ◌≡◌, Option, none, some, List, [], ◌∷◌, ◌++◌, ◌==◌, if◌then◌else◌, Outcome, panic,
  ◌>>=◌, unwrap,
}
use order_matching_engine_ru.Prelude
use order_matching_engine_ru.Prelude.Result.{Result, ok, err}
use order_matching_engine_ru.Core.Types.{Price, Command, Sequenced}
use order_matching_engine_ru.Engine.Channel.{Channel}
use order_matching_engine_ru.Engine.Sequencer.{Sequencer, new_sequencer, next, try_push}
use order_matching_engine_ru.Engine.Shard.{symbol_of, shard_for}

module _ {A : Type 0} where
  abbrev pub get_elem? : List A → ℕ → Option A
  get_elem? [] i = none
  get_elem? (x ∷ xs) zero = some x
  get_elem? (x ∷ xs) (suc i) = get_elem? xs i

  abbrev pub set : List A → ℕ → A → List A
  set [] i v = []
  set (x ∷ xs) zero v = v ∷ xs
  set (x ∷ xs) (suc i) v = x ∷ set xs i v

  abbrev pub replicate : ℕ → A → List A
  replicate zero x = []
  replicate (suc n) x = x ∷ replicate n x

abbrev pub Symbols : Type 0
Symbols = List (ℕ × Price)

-- `shard_symbols[i].push(entry)`; an index out of range panics.
unfoldable pub push_at : ℕ → ℕ × Price → List Symbols → Outcome (List Symbols)
push_at i entry lists = do
  have ← unwrap (get_elem? lists i)
  Prelude.ok (set lists i (have ++ entry ∷ []))

-- The loop of `start` over the symbols; `% 0` panics.
unfoldable pub deal : ℕ → Symbols → List Symbols → Outcome (List Symbols)
unfolding push_at shard_for
deal num_shards [] lists = Prelude.ok lists
deal num_shards ((symbol, tick) ∷ more) lists = if num_shards == 0 then panic else (do
  lists ← push_at (shard_for symbol num_shards) (symbol, tick) lists
  deal num_shards more lists)

unfoldable pub shard_symbols : ℕ → Symbols → Outcome (List Symbols)
unfolding deal
shard_symbols num_shards symbols = deal num_shards symbols (replicate num_shards [])

module _ (K : Channel Sequenced) where
  pub record Engine : Type 0 where
    pub senders : List K.State
    pub sequencer : Sequencer
    pub num_shards : ℕ

  -- The engine that `start` returns, as far as `submit` is concerned.
  unfoldable pub start : ℕ → Engine
  start num_shards = record {
    senders = replicate num_shards K.empty;
    sequencer = new_sequencer;
    num_shards = num_shards;
  }

  -- `submit` behind the push to a shard: the answer for the caller, and the engine.
  unfoldable pub after_push :
      Command → ℕ → ℕ → Engine → Result K.State Sequenced → Result ℕ Command × Engine
  after_push cmd seq shard e (ok sender) =
      (ok seq, record e { senders = set e.senders shard sender })
  after_push cmd seq shard e (err _) = (err cmd, e)

  -- `try_push` to the sender of the shard. The number is used up either way.
  unfoldable pub submit : Command → ℕ → Engine → Outcome (Result ℕ Command × Engine)
  unfolding next after_push
  submit cmd now e = if e.num_shards == 0 then panic else (do
    let shard = shard_for (symbol_of cmd) e.num_shards
    let ((seq, ts), sequencer) = next now e.sequencer
    sender ← unwrap (get_elem? e.senders shard)
    Prelude.ok (
        after_push cmd seq shard (record e { sequencer = sequencer })
          (try_push K (record { seq = seq; ts = ts; cmd = cmd }) sender)))
