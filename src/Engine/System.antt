-- ===== src/Engine/System.antt =====
-- crates/engine with its threads: what the callers of `submit` and the shards do to the sequencer and
-- the rings, an atomic operation at a time. `submit` takes its number and pushes its command in two
-- steps, and others may come between them.
pub mod Fifo
pub mod Numbers
mod Examples
use order_matching_engine_ru.Prelude.{
  ℕ, zero, suc, ◌≡◌, some, List, [], ◌∷◌, ◌++◌, ◌==◌, if◌then◌else◌,
}
use order_matching_engine_ru.Prelude.Result.{ok, err}
use order_matching_engine_ru.Core.Types.{Command, Sequenced}
use order_matching_engine_ru.Engine.Channel.{Channel}
use order_matching_engine_ru.Engine.Sequencer.{next, try_push, pop}
use order_matching_engine_ru.Engine.Shard.{symbol_of, shard_for}
use order_matching_engine_ru.Engine.Submit.{get_elem?, set, Engine, start}

module _ (K : Channel Sequenced) where
  -- `pending` holds the commands that have a number and were not pushed yet, `popped` what each shard
  -- has taken. The rest keeps a history: what was pushed, and how many numbers were given out.
  pub record System : Type 0 where
    pub engine : Engine K
    pub pending : List Sequenced
    pub popped : ℕ → List Sequenced
    pub accepted : List Sequenced
    pub handed : ℕ

  unfoldable pub init : ℕ → System
  unfolding start
  init n = record { engine = start K n; pending = []; popped = λ i. []; accepted = []; handed = 0 }

  -- `self.sequencer.next()`, for a caller of `submit`.
  unfoldable pub numbered_by : Command → ℕ → System → System
  unfolding next
  numbered_by cmd now s =
      let ((seq, ts), sequencer) = next now s.engine.sequencer in
      record s {
        engine = record s.engine { sequencer = sequencer };
        pending = s.pending ++ record { seq = seq; ts = ts; cmd = cmd } ∷ [];
        handed = suc s.handed;
      }

  abbrev pub shard_of : System → Sequenced → ℕ
  shard_of s c = shard_for (symbol_of c.cmd) s.engine.num_shards

  -- `self.senders[shard].try_push(…)` went through: `rest` is who else is on the way.
  unfoldable pub pushed_to : Sequenced → K.State → List Sequenced → System → System
  pushed_to c ring rest s = record s {
    engine = record s.engine { senders = set s.engine.senders (shard_of s c) ring };
    pending = rest;
    accepted = s.accepted ++ c ∷ [];
  }

  -- A shard took a command from its ring.
  unfoldable pub popped_from : ℕ → Sequenced → K.State → System → System
  popped_from i c ring s = record s {
    engine = record s.engine { senders = set s.engine.senders i ring };
    popped = λ j. if i == j then s.popped j ++ c ∷ [] else s.popped j;
  }

  -- The steps over-approximate what can happen: `take_next` is there whenever the ring has a command,
  -- also while the thread of the shard is still in `apply`, or has not come back from it.
  pub data Step : System → System → Type 0 where
    number : (s : System) (cmd : Command) (now : ℕ) → Step s (numbered_by cmd now s)
    push :
        (s : System) (before after : List Sequenced) (c : Sequenced) (ring ring' : K.State)
        → s.pending ≡ before ++ c ∷ after
        → get_elem? s.engine.senders (shard_of s c) ≡ some ring
        → try_push K c ring ≡ ok ring'
        → Step s (pushed_to c ring' (before ++ after) s)
    refuse :
        (s : System) (before after : List Sequenced) (c : Sequenced) (ring : K.State)
        → s.pending ≡ before ++ c ∷ after
        → get_elem? s.engine.senders (shard_of s c) ≡ some ring
        → try_push K c ring ≡ err c
        → Step s (record s { pending = before ++ after })
    take_next :
        (s : System) (i : ℕ) (c : Sequenced) (ring ring' : K.State)
        → get_elem? s.engine.senders i ≡ some ring
        → pop K ring ≡ some (c, ring')
        → Step s (popped_from i c ring' s)

  -- What can come of a state.
  pub data Reach (s : System) : System → Type 0 where
    begin : Reach s s
    later : {t u : System} → Reach s t → Step t u → Reach s u
