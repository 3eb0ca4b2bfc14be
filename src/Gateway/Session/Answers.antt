-- ===== src/Gateway/Session/Answers.antt =====
-- What a client gets for the lines that it sends.
use order_matching_engine_ru.Prelude.{
  ℕ, ◌<◌, ◌≡◌, ◌⊎◌, Bool, true, false, Option, none, some, List, [], ◌∷◌, ◌++◌, map, ◌==◌,
  if◌then◌else◌, arith, Outcome, ◌>>=◌, Bool-cases, add_u64,
}
use order_matching_engine_ru.Prelude
use order_matching_engine_ru.Prelude.Result.{Result, ok, err}
use order_matching_engine_ru.Core.Types.{Command, Sequenced}
use order_matching_engine_ru.Engine.Channel.{Channel}
use order_matching_engine_ru.Engine.Shard.{symbol_of, shard_for}
use order_matching_engine_ru.Engine.Submit.{get_elem?, Engine}
use order_matching_engine_ru.Engine.Submit.Routing.{waiting, numbered}
use order_matching_engine_ru.Protocol.Double.{Double}
use order_matching_engine_ru.Protocol.Json.{JsonInbound, json_to_command}
use order_matching_engine_ru.Gateway.Session.{
  Line, trim, Input, Response, error, submitted, ring_full,
}

module _ (K : Channel Sequenced) (D : Double) {E : Type 0}
    (parse_inbound : Line → Result (JsonInbound D) E) where
  -- The command is behind what waits for the shard of its symbol, with its number, and nowhere else.
  abbrev pub IsQueued : Command → ℕ → Engine K → Engine K → Type 0
  IsQueued cmd now e e' =
      (i : ℕ) (queue : List Sequenced)
      → waiting K e i ≡ some queue
      → waiting K e' i
        ≡ some (
            if shard_for (symbol_of cmd) e.num_shards == i
            then queue ++ numbered K cmd now e ∷ []
            else queue)

  -- What a command does: it is queued and its number is the answer, or its ring takes nothing, the
  -- answer says so and the rings stay. The number is used up either way.
  abbrev pub IsSubmitted : Command → ℕ → Engine K → Response E → Engine K → Type 0
  IsSubmitted cmd now e r e' =
      (c : K.State) × (get_elem? e.senders (shard_for (symbol_of cmd) e.num_shards) ≡ some c)
      × (e'.sequencer.next_seq ≡ add_u64 e.sequencer.next_seq 1)
      × (((K.accepts c ≡ true) × (r ≡ submitted e.sequencer.next_seq) × IsQueued cmd now e e')
          ⊎ ((K.accepts c ≡ false) × (r ≡ ring_full) × (e'.senders ≡ e.senders)))

  -- The answer to a message, and the engine before and after it.
  abbrev pub IsAnswer : Result (JsonInbound D) E → ℕ → Engine K → Response E → Engine K → Type 0
  IsAnswer (err x) now e r e' = (r ≡ error x) × (e' ≡ e)
  IsAnswer (ok msg) now e r e' =
      (cmd : Command) × (json_to_command D msg ≡ some cmd) × IsSubmitted cmd now e r e'

  abbrev pub AnswersTo : Line → ℕ → Engine K → List (Response E) → Engine K → Type 0
  AnswersTo [] now e out e' = (out ≡ []) × (e' ≡ e)
  AnswersTo (c ∷ cs) now e out e' =
      (r : Response E) × (out ≡ r ∷ []) × IsAnswer (parse_inbound (c ∷ cs)) now e r e'

  -- One answer for each line that is not blank, in the order of the lines, each to the engine that the
  -- line before it leaves.
  abbrev pub Answers : List Input → Engine K → List (Response E) → Engine K → Type 0
  Answers [] e out e' = (out ≡ []) × (e' ≡ e)
  Answers (i ∷ is) e out e' =
      (here later : List (Response E)) × (e₁ : Engine K) × (out ≡ here ++ later)
      × AnswersTo (trim i.line) i.now e here e₁
      × Answers is e₁ later e'

  abbrev as_list : Option (Response E) → List (Response E)
  as_list none = []
  as_list (some r) = r ∷ []
