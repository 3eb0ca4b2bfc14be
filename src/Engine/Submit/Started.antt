-- ===== src/Engine/Submit/Started.antt =====
-- crates/engine/src/lib.rs: an engine that was started with shards stays as `submit` needs it.
use order_matching_engine_ru.Prelude.{
  ℕ, ◌<◌, ◌≡◌, refl, ◌∙◌, inl, inr, some, List, ◌==◌, arith, Bool-cases, true, false, ◌>>=◌,
  if◌then◌else◌,
}
use order_matching_engine_ru.Prelude
use order_matching_engine_ru.Prelude.Result.{Result, ok, err}
use order_matching_engine_ru.Core.Types.{Command, Sequenced}
use order_matching_engine_ru.Engine.Channel.{Channel}
use order_matching_engine_ru.Engine.Sequencer.{next, try_push}
use order_matching_engine_ru.Engine.Shard.{symbol_of, shard_for}
use order_matching_engine_ru.Engine.Submit.{get_elem?, set, Engine, submit}
use order_matching_engine_ru.Engine.Submit.Routing.{get_elem?-set, shard_for-lt, numbered}

module _ (K : Channel Sequenced) where
  -- There are shards, and each has its sender.
  pub record IsStarted (e : Engine K) : Type 0 where
    pub some_shards : 0 < e.num_shards
    pub sender : (i : ℕ) → i < e.num_shards → (c : K.State) × (get_elem? e.senders i ≡ some c)

  set-sender :
      (n shard : ℕ) (senders : List K.State) (c c' : K.State)
      → get_elem? senders shard ≡ some c
      → ((i : ℕ) → i < n → (d : K.State) × (get_elem? senders i ≡ some d))
      → (i : ℕ) → i < n
      → (d : K.State) × (get_elem? (set senders shard c') i ≡ some d)
  set-sender n shard senders c c' at all i lt = elim (Bool-cases (shard == i)) [
    | inl same ↦ (c', get_elem?-set senders shard i c' c at ∙ rw same refl)
    | inr other ↦ let (d, h) = all i lt in (d, get_elem?-set senders shard i c' c at ∙ rw other h)
  ]

  pub submit-IsStarted :
      (cmd : Command) (now : ℕ) (e : Engine K)
      → IsStarted e
      → (r : Result ℕ Command × Engine K) × (submit K cmd now e ≡ Prelude.ok r) × IsStarted r.1
  unfolding submit next try_push
  submit-IsStarted cmd now e g =
      let some_shards : (e.num_shards == 0) ≡ false = ground (arith, g.some_shards) in
      let shard = shard_for (symbol_of cmd) e.num_shards in
      let (c, at) = g.sender shard (shard_for-lt (symbol_of cmd) e.num_shards g.some_shards) in
      let sent = numbered K cmd now e in
      let (_, sequencer) = next now e.sequencer in
      elim (Bool-cases (K.accepts c)) [
        | inr full ↦ (
          (err cmd, record e { sequencer = sequencer }),
          rw (some_shards, at, full) refl,
          record { some_shards = g.some_shards; sender = g.sender },
        )
        | inl room ↦ (
          (
            ok sent.seq,
            record e { sequencer = sequencer; senders = set e.senders shard (K.sent c sent) },
          ),
          rw (some_shards, at, room) refl,
          record {
            some_shards = g.some_shards;
            sender = set-sender e.num_shards shard e.senders c (K.sent c sent) at g.sender;
          },
        )
      ]
