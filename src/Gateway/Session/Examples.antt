-- ===== src/Gateway/Session/Examples.antt =====
-- A session of four lines on an engine with one ring of one place.
use order_matching_engine_ru.Prelude.{
  ℕ, ◌≡◌, refl, true, List, [], ◌∷◌, ◌==◌, if◌then◌else◌, Outcome,
}
use order_matching_engine_ru.Prelude.Result.{Result, ok, err}
use order_matching_engine_ru.Core.Types.{Sequenced}
use order_matching_engine_ru.Engine.Channel.Queue.{bounded_queue}
use order_matching_engine_ru.Engine.Sequencer.{new_sequencer, next, try_push}
use order_matching_engine_ru.Engine.Shard.{symbol_of, shard_for}
use order_matching_engine_ru.Engine.Submit.{Engine, submit}
use order_matching_engine_ru.Protocol.Double.Whole.{whole_numbers}
use order_matching_engine_ru.Protocol.Json.{
  JsonInbound, json_to_command, symbol_to_id, hash_from, hash_byte,
}
use order_matching_engine_ru.Gateway.Session.{
  Line, Input, Response, error, submitted, ring_full, trim, is_whitespace, trim_start, trim_end,
  run_command, run_message, run_line, after_answer, handle_json_session,
}
use order_matching_engine_ru.Gateway.Session.Answers.{Answers}

-- `C` is a cancel of order 1, and nothing else is a message.
abbrev parse : Line → Result (JsonInbound whole_numbers) ℕ
parse [] = err 0
parse (c ∷ cs) =
    if c == 67 then ok (JsonInbound.cancel (record { id = 1; symbol = 65 ∷ [] })) else err c

abbrev an_input : Line → Input
an_input line = record { line = line; now = 5; sent = true }

-- " C", a blank line, "x" and "C".
abbrev inputs : List Input
inputs =
    an_input (32 ∷ 67 ∷ []) ∷ an_input (32 ∷ []) ∷ an_input (120 ∷ []) ∷ an_input (67 ∷ []) ∷ []

abbrev one_shard : Engine (bounded_queue Sequenced 1)
one_shard = record {
  senders = (bounded_queue Sequenced 1).empty ∷ [];
  sequencer = new_sequencer;
  num_shards = 1;
}

abbrev answers :
    Outcome (Engine (bounded_queue Sequenced 1) × List (Response ℕ)) → List (Response ℕ)
answers (Outcome.ok (_, out)) = out
answers _ = []

answers_of_inputs :
    answers
      (handle_json_session (bounded_queue Sequenced 1) whole_numbers parse inputs one_shard [])
    ≡ submitted 1 ∷ error 120 ∷ ring_full ∷ []
unfolding handle_json_session run_line trim trim_start trim_end is_whitespace after_answer
    run_message run_command json_to_command submit next new_sequencer try_push symbol_of shard_for
    symbol_to_id hash_from hash_byte
answers_of_inputs = refl
