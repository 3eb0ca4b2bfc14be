-- ===== src/Engine/Egress.antt =====
-- crates/engine/src/egress.rs. The subscribers behind the mutex are a list of channels; each call
-- holds the lock from end to end.
pub mod Fanout
use order_matching_engine_ru.Prelude.{
  ℕ, zero, suc, ◌≡◌, Bool, true, false, Option, none, some, List, [], ◌∷◌, ◌++◌, if◌then◌else◌,
  length,
}
use order_matching_engine_ru.Core.Types.{OutputEvent}
use order_matching_engine_ru.Engine.Channel.{Channel}

module _ (K : Channel OutputEvent) where
  open K use {State, queue, accepts, sent, received}

  abbrev pub EgressBus : Type 0
  EgressBus = List State

  -- `subscribe`, with the new channel's place at the end.
  unfoldable pub subscribe : EgressBus → EgressBus
  subscribe subs = subs ++ K.empty ∷ []

  unfoldable pub egress_bus : EgressBus
  unfolding subscribe
  egress_bus = subscribe []

  -- `retain` drops the subscribers whose receiver is gone.
  unfoldable pub send : OutputEvent → EgressBus → EgressBus
  send e [] = []
  send e (c ∷ subs) = if accepts c then sent c e ∷ send e subs else send e subs

  -- `events.iter().all(…)` on one subscriber: it stops at the first send that fails.
  unfoldable pub send_all : List OutputEvent → State → Option State
  send_all [] c = some c
  send_all (e ∷ es) c = elim (accepts c) [ true ↦ send_all es (sent c e) | false ↦ none ]

  abbrev pub with_kept : Option State → EgressBus → EgressBus
  with_kept none subs = subs
  with_kept (some c) subs = c ∷ subs

  unfoldable pub retain_all : List OutputEvent → EgressBus → EgressBus
  retain_all es [] = []
  retain_all es (c ∷ subs) = with_kept (send_all es c) (retain_all es subs)

  unfoldable pub send_batch : List OutputEvent → EgressBus → EgressBus
  unfolding retain_all
  send_batch [] subs = subs
  send_batch (e ∷ es) subs = retain_all (e ∷ es) subs

  -- `drain`, on a channel that no one sends to meanwhile: as many rounds as there are messages, and one
  -- that finds none. The loop takes no lock, so a sender may run beside it, which is not modelled.
  unfoldable pub drain_rounds : ℕ → State → List OutputEvent → State × List OutputEvent
  drain_rounds zero c out = (c, out)
  drain_rounds (suc n) c out = elim (received c) [
    | none ↦ (c, out)
    | some (e, c') ↦ drain_rounds n c' (out ++ e ∷ [])
  ]

  unfoldable pub drain : State → List OutputEvent → State × List OutputEvent
  unfolding drain_rounds
  drain c out = drain_rounds (suc (length (queue c))) c out
