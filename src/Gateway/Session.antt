-- ===== src/Gateway/Session.antt =====
-- crates/gateway/src/session.rs: the loop of one session, over the lines that it reads until the
-- client is gone. `parse_inbound` is serde_json's reading of a message, a parameter, with its errors.
pub mod Answers
mod Examples
use order_matching_engine_ru.Prelude.{
  ℕ, Bool, true, false, not, ◌||◌, ◌&&◌, Option, none, some, List, [], ◌∷◌, ◌++◌, ◌==◌, leb,
  if◌then◌else◌, Outcome, ◌>>=◌,
}
use order_matching_engine_ru.Prelude
use order_matching_engine_ru.Prelude.Result.{Result, ok, err}
use order_matching_engine_ru.Core.Types.{Command, Sequenced}
use order_matching_engine_ru.Engine.Channel.{Channel}
use order_matching_engine_ru.Engine.Submit.{Engine, submit}
use order_matching_engine_ru.Protocol.Double.{Double}
use order_matching_engine_ru.Protocol.Json.{JsonInbound, json_to_command}

-- A line is its characters.
abbrev pub Line : Type 0
Line = List ℕ

-- The property White_Space of Unicode, which `trim` goes by.
unfoldable pub is_whitespace : ℕ → Bool
is_whitespace c =
    (leb 9 c && leb c 13)
    || c == 32
    || c == 0x85
    || c == 0xa0
    || c == 0x1680
    || (leb 0x2000 c && leb c 0x200a)
    || c == 0x2028
    || c == 0x2029
    || c == 0x202f
    || c == 0x205f
    || c == 0x3000

unfoldable pub trim_start : Line → Line
unfolding is_whitespace
trim_start [] = []
trim_start (c ∷ cs) = if is_whitespace c then trim_start cs else c ∷ cs

abbrev pub end_with : ℕ → Line → Line
end_with c [] = if is_whitespace c then [] else c ∷ []
end_with c (d ∷ ds) = c ∷ d ∷ ds

unfoldable pub trim_end : Line → Line
unfolding is_whitespace
trim_end [] = []
trim_end (c ∷ cs) = end_with c (trim_end cs)

unfoldable pub trim : Line → Line
unfolding trim_start trim_end
trim l = trim_end (trim_start l)

-- A line that is read, the time of its `submit`, and whether the client takes the answer.
pub record Input : Type 0 where
  pub line : Line
  pub now : ℕ
  pub sent : Bool

-- What is written: `{"t":"error","msg":"…"}`, `{"t":"submitted","seq":…}`, and the error `ring_full`.
pub data Response (E : Type 0) : Type 0 where
  error : E → Response E
  submitted : (seq : ℕ) → Response E
  ring_full : Response E

module _ (K : Channel Sequenced) (D : Double) {E : Type 0}
    (parse_inbound : Line → Result (JsonInbound D) E) where
  abbrev pub response_to : Result ℕ Command → Response E
  response_to (ok seq) = submitted seq
  response_to (err _) = ring_full

  unfoldable pub run_command :
      Option Command → ℕ → Engine K → Outcome (Option (Response E) × Engine K)
  run_command none now e = Prelude.ok (none, e)
  run_command (some cmd) now e = do
    (answer, e) ← submit K cmd now e
    Prelude.ok (some (response_to answer), e)

  unfoldable pub run_message :
      Result (JsonInbound D) E → ℕ → Engine K → Outcome (Option (Response E) × Engine K)
  unfolding run_command json_to_command
  run_message (err x) now e = Prelude.ok (some (error x), e)
  run_message (ok msg) now e = run_command (json_to_command D msg) now e

  abbrev pub unless_empty : Line → ℕ → Engine K → Outcome (Option (Response E) × Engine K)
  unless_empty [] now e = Prelude.ok (none, e)
  unless_empty (c ∷ cs) now e = run_message (parse_inbound (c ∷ cs)) now e

  -- The answer to a line, if there is one, and the engine.
  unfoldable pub run_line : Line → ℕ → Engine K → Outcome (Option (Response E) × Engine K)
  unfolding trim run_message
  run_line line now e = unless_empty (trim line) now e

  -- Only an acknowledgement that cannot be written ends the session.
  unfoldable pub ends_session : Response E → Bool
  ends_session (submitted _) = true
  ends_session _ = false

  -- Whether the session goes on, and what the client was sent: an answer that cannot be written is lost.
  unfoldable pub after_answer :
      Bool → Option (Response E) → List (Response E) → Bool × List (Response E)
  unfolding ends_session
  after_answer sent none out = (true, out)
  after_answer true (some r) out = (true, out ++ r ∷ [])
  after_answer false (some r) out = (not (ends_session r), out)

  -- The loop, with what the client was sent.
  unfoldable pub handle_json_session :
      List Input → Engine K → List (Response E) → Outcome (Engine K × List (Response E))
  unfolding run_line after_answer
  handle_json_session [] e out = Prelude.ok (e, out)
  handle_json_session (i ∷ is) e out = do
    (answer, e) ← run_line i.line i.now e
    let (more, out) = after_answer i.sent answer out
    if more then handle_json_session is e out else Prelude.ok (e, out)
