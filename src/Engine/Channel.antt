-- ===== src/Engine/Channel.antt =====
-- The channels of crossbeam_channel, a third-party crate, as crates/engine uses them: a parameter of
-- the model, with what the documentation promises of sending and receiving.
pub mod Queue
use order_matching_engine_ru.Prelude.{
  ℕ, ◌≡◌, Bool, true, false, Option, none, some, List, [], ◌∷◌, ◌++◌, if◌then◌else◌,
}
use order_matching_engine_ru.Prelude.Result.{Result, ok, err}

-- `accepts` says whether a send goes through: there is a receiver, and room where the channel is
-- bounded. `received` is the message that `recv` or `try_recv` takes and what it leaves. `empty` is a
-- new channel.
pub record Channel (A : Type 0) : Type 1 where
  pub State : Type 0
  pub queue : State → List A
  pub accepts : State → Bool
  pub sent : State → A → State
  pub received : State → Option (A × State)
  pub empty : State
  pub queue-empty : queue empty ≡ []
  pub queue-sent : (c : State) (x : A) → accepts c ≡ true → queue (sent c x) ≡ queue c ++ x ∷ []
  pub received-none : (c : State) → queue c ≡ [] → received c ≡ none
  pub received-some :
      (c : State) (x : A) (xs : List A)
      → queue c ≡ x ∷ xs
      → (c' : State) × (received c ≡ some (x, c')) × (queue c' ≡ xs)

-- An unbounded channel whose receiver lives stays open when it is sent to.
pub record IsUnbounded {A : Type 0} (K : Channel A) : Type 0 where
  pub accepts-sent : (c : K.State) (x : A) → K.accepts c ≡ true → K.accepts (K.sent c x) ≡ true

module _ {A : Type 0} (K : Channel A) where
  open K use {State, accepts, sent}

  -- `try_send`, with the message handed back whether the channel is full or has no receiver.
  unfoldable pub try_send : A → State → Result State A
  try_send x c = if accepts c then ok (sent c x) else err x
