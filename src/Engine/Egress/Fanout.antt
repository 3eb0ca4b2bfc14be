-- ===== src/Engine/Egress/Fanout.antt =====
-- What the subscribers of the bus see.
use order_matching_engine_ru.Prelude.{
  ℕ, zero, suc, ◌<◌, ◌≡◌, refl, sym, ap, ◌∙◌, true, some, List, [], ◌∷◌, ◌++◌, map, if◌then◌else◌,
  length, arith, Bool-cases, inl, inr, All,
}
use mathlib.Core.List.{append-nil, append_assoc}
use order_matching_engine_ru.Core.Types.{OutputEvent}
use order_matching_engine_ru.Engine.Channel.{Channel, IsUnbounded}
use order_matching_engine_ru.Engine.Egress.{
  EgressBus, send, send_all, retain_all, send_batch, drain_rounds, drain,
}

module _ (K : Channel OutputEvent) where
  open K use {State, queue, accepts, sent, received}

  -- The messages that each live subscriber has not read, with some more behind them.
  abbrev pub unread_with : List OutputEvent → EgressBus K → List (List OutputEvent)
  unread_with es [] = []
  unread_with es (c ∷ subs) =
      if accepts c then (queue c ++ es) ∷ unread_with es subs else unread_with es subs

  send_all-queue :
      (open_sent : IsUnbounded K) (es : List OutputEvent) (c : State)
      → accepts c ≡ true
      → (c' : State) × (send_all K es c ≡ some c')
        × (queue c' ≡ queue c ++ es)
        × (accepts c' ≡ true)
  unfolding send_all
  send_all-queue u [] c h = (c, refl, sym (append-nil (queue c)), h)
  send_all-queue u (e ∷ es) c h =
      let (c', run, q, live) = send_all-queue u es (sent c e) (u.accepts-sent c e h) in
      (
        c',
        rw (send_all, h) run,
        q ∙ ap (λ xs. xs ++ es) (K.queue-sent c e h) ∙ append_assoc (queue c) (e ∷ []) es,
        live,
      )

  retain_all-queue :
      (u : IsUnbounded K) (e : OutputEvent) (es : List OutputEvent) (subs : EgressBus K)
      → map queue (retain_all K (e ∷ es) subs) ≡ unread_with (e ∷ es) subs
  unfolding retain_all send_all
  retain_all-queue u e es [] = refl
  retain_all-queue u e es (c ∷ subs) = elim (Bool-cases (accepts c)) [
    | inl live ↦
        let (c', run, q, _) = send_all-queue u es (sent c e) (u.accepts-sent c e live) in
        let whole =
          q ∙ ap (λ xs. xs ++ es) (K.queue-sent c e live) ∙ append_assoc (queue c) (e ∷ []) es in
        rw (retain_all, send_all, live, run, whole, retain_all-queue u e es subs) refl
    | inr gone ↦ rw (retain_all, send_all, gone, retain_all-queue u e es subs) refl
  ]

  -- A batch that is not empty reaches every subscriber that still has a receiver, whole and in order,
  -- behind what it has not read yet; the others are dropped, and the places of the rest are kept.
  pub send_batch-queue :
      (u : IsUnbounded K) (e : OutputEvent) (es : List OutputEvent) (subs : EgressBus K)
      → map queue (send_batch K (e ∷ es) subs) ≡ unread_with (e ∷ es) subs
  unfolding send_batch
  send_batch-queue u e es subs = retain_all-queue u e es subs

  -- `send`, an event at a time.
  abbrev pub send_each : List OutputEvent → EgressBus K → EgressBus K
  send_each [] subs = subs
  send_each (e ∷ es) subs = send_each es (send K e subs)

  abbrev sent_all : List OutputEvent → State → State
  sent_all [] c = c
  sent_all (e ∷ es) c = sent_all es (sent c e)

  abbrev live : EgressBus K → EgressBus K
  live [] = []
  live (c ∷ subs) = if accepts c then c ∷ live subs else live subs

  abbrev AllLive : EgressBus K → Type 0
  AllLive subs = All (λ c. accepts c ≡ true) subs

  AllLive-live : (subs : EgressBus K) → AllLive (live subs)
  AllLive-live [] = tt
  AllLive-live (c ∷ subs) = elim (Bool-cases (accepts c)) [
    | inl on ↦ rw on (on, AllLive-live subs)
    | inr gone ↦ rw gone (AllLive-live subs)
  ]

  send-live :
      (e : OutputEvent) (subs : EgressBus K) → send K e subs ≡ map (λ c. sent c e) (live subs)
  unfolding send
  send-live e [] = refl
  send-live e (c ∷ subs) = elim (Bool-cases (accepts c)) [
    | inl on ↦ rw (send, on, send-live e subs) refl
    | inr gone ↦ rw (send, gone, send-live e subs) refl
  ]

  AllLive-sent :
      (u : IsUnbounded K) (e : OutputEvent) (subs : EgressBus K)
      → AllLive subs
      → AllLive (map (λ c. sent c e) subs)
  AllLive-sent u e [] h = tt
  AllLive-sent u e (c ∷ subs) (h, hs) = (u.accepts-sent c e h, AllLive-sent u e subs hs)

  live-AllLive : (subs : EgressBus K) → AllLive subs → live subs ≡ subs
  live-AllLive [] h = refl
  live-AllLive (c ∷ subs) (h, hs) = rw (h, live-AllLive subs hs) refl

  map-sent_all :
      (e : OutputEvent) (es : List OutputEvent) (subs : EgressBus K)
      → map (sent_all es) (map (λ c. sent c e) subs) ≡ map (sent_all (e ∷ es)) subs
  map-sent_all e es [] = refl
  map-sent_all e es (c ∷ subs) = ap (λ cs. sent_all es (sent c e) ∷ cs) (map-sent_all e es subs)

  send_each-AllLive :
      (u : IsUnbounded K) (es : List OutputEvent) (subs : EgressBus K)
      → AllLive subs
      → send_each es subs ≡ map (sent_all es) subs
  send_each-AllLive u [] subs h = sym (map_id subs)
    where
      map_id : (xs : EgressBus K) → map (λ c. c) xs ≡ xs
      map_id [] = refl
      map_id (x ∷ xs) = ap (λ ys. x ∷ ys) (map_id xs)
  send_each-AllLive u (e ∷ es) subs h =
      let one = send-live e subs ∙ ap (map (λ c. sent c e)) (live-AllLive subs h) in
      ap (send_each es) one
      ∙ send_each-AllLive u es (map (λ c. sent c e) subs) (AllLive-sent u e subs h)
      ∙ map-sent_all e es subs

  send_all-live :
      (u : IsUnbounded K) (es : List OutputEvent) (c : State)
      → accepts c ≡ true
      → send_all K es c ≡ some (sent_all es c)
  unfolding send_all
  send_all-live u [] c h = refl
  send_all-live u (e ∷ es) c h =
      rw (send_all, h) (send_all-live u es (sent c e) (u.accepts-sent c e h))

  retain_all-live :
      (u : IsUnbounded K) (e : OutputEvent) (es : List OutputEvent) (subs : EgressBus K)
      → retain_all K (e ∷ es) subs ≡ map (sent_all (e ∷ es)) (live subs)
  unfolding retain_all send_all
  retain_all-live u e es [] = refl
  retain_all-live u e es (c ∷ subs) = elim (Bool-cases (accepts c)) [
    | inl on ↦ rw (send_all-live u (e ∷ es) c on, on, retain_all-live u e es subs) refl
    | inr gone ↦ rw (send_all, gone, retain_all-live u e es subs) refl
  ]

  -- Sending the events of a command as one batch is sending them one after the other, for channels
  -- that stay open when they are sent to.
  pub send_batch-send_each :
      (u : IsUnbounded K) (es : List OutputEvent) (subs : EgressBus K)
      → send_batch K es subs ≡ send_each es subs
  unfolding send_batch
  send_batch-send_each u [] subs = refl
  send_batch-send_each u (e ∷ es) subs =
      retain_all-live u e es subs
      ∙ sym (map-sent_all e es (live subs))
      ∙ sym (
          send_each-AllLive u es (map (λ c. sent c e) (live subs))
            (AllLive-sent u e (live subs) (AllLive-live subs)))
      ∙ ap (send_each es) (sym (send-live e subs))

  drain_rounds-queue :
      (n : ℕ) (c : State) (xs out : List OutputEvent)
      → queue c ≡ xs
      → length xs < n
      → (c' : State) × (drain_rounds K n c out ≡ (c', out ++ xs)) × (queue c' ≡ [])
  unfolding drain_rounds
  drain_rounds-queue zero c xs out q h = absurd (omega (arith, h))
  drain_rounds-queue (suc n) c [] out q h =
      (c, rw (drain_rounds, K.received-none c q) (ap (λ xs. (c, xs)) (sym (append-nil out))), q)
  drain_rounds-queue (suc n) c (x ∷ xs) out q h =
      let (c₁, took, q₁) = K.received-some c x xs q in
      let (c₂, run, q₂) = drain_rounds-queue n c₁ xs (out ++ x ∷ []) q₁ (omega (arith, h)) in
      (c₂, rw (drain_rounds, took) (run ∙ ap (λ ys. (c₂, ys)) (append_assoc out (x ∷ []) xs)), q₂)

  -- On a channel that no one sends to meanwhile, `drain` ends, hands over all messages that wait, in
  -- order, behind what `out` holds already, and leaves the channel empty.
  pub drain-queue :
      (c : State) (out : List OutputEvent)
      → (c' : State) × (drain K c out ≡ (c', out ++ queue c)) × (queue c' ≡ [])
  unfolding drain
  drain-queue c out = drain_rounds-queue (suc (length (queue c))) c (queue c) out refl (omega arith)
