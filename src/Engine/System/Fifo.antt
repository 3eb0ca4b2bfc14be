-- ===== src/Engine/System/Fifo.antt =====
-- What the rings deliver, whatever the interleaving of callers and shards.
use order_matching_engine_ru.Prelude.{
  ℕ, zero, suc, ◌≡◌, refl, sym, ap, ◌∙◌, ◌⊎◌, inl, inr, true, false, Option, none, some, List, [],
  ◌∷◌, ◌++◌, ◌==◌, if◌then◌else◌, arith, keep, Bool-cases,
}
use mathlib.Core.Path.{subst}
use mathlib.Core.List.{append_assoc}
use order_matching_engine_ru.Prelude.Result.{ok, err}
use order_matching_engine_ru.Core.Types.{Sequenced}
use order_matching_engine_ru.Engine.Channel.{Channel}
use order_matching_engine_ru.Engine.Sequencer.{try_push, pop}
use order_matching_engine_ru.Engine.Shard.{symbol_of, shard_for}
use order_matching_engine_ru.Engine.Submit.{get_elem?, set, replicate}
use order_matching_engine_ru.Engine.Submit.Routing.{get_elem?-set}
use order_matching_engine_ru.Engine.System.{
  System, init, numbered_by, shard_of, pushed_to, popped_from, Step, number, push, refuse,
  take_next, Reach, begin, later,
}

module _ (K : Channel Sequenced) where
  -- The commands for a shard, in the order in which they were pushed.
  abbrev pub for_shard : ℕ → ℕ → List Sequenced → List Sequenced
  for_shard n i cs = keep (λ c. shard_for (symbol_of c.cmd) n == i) cs

  for_shard-append :
      (n i : ℕ) (cs : List Sequenced) (c : Sequenced)
      → for_shard n i (cs ++ c ∷ []) ≡ (
          if shard_for (symbol_of c.cmd) n == i
          then for_shard n i cs ++ c ∷ []
          else for_shard n i cs)
  for_shard-append n i [] c = ground arith
  for_shard-append n i (d ∷ cs) c = ground (arith, for_shard-append n i cs c)

  -- Each shard has taken, and has waiting for it, exactly its commands.
  abbrev pub Fifo : System K → Type 0
  Fifo s =
      (i : ℕ) (ring : K.State)
      → get_elem? s.engine.senders i ≡ some ring
      → s.popped i ++ K.queue ring ≡ for_shard s.engine.num_shards i s.accepted

  pub try_push-queue :
      (c : Sequenced) (ring ring' : K.State)
      → try_push K c ring ≡ ok ring'
      → (K.accepts ring ≡ true) × (K.queue ring' ≡ K.queue ring ++ c ∷ [])
  unfolding try_push
  try_push-queue c ring ring' h = elim (Bool-cases (K.accepts ring)) [
    | inl room ↦
        let e : ok (K.sent ring c) ≡ ok ring' = sym (rw room refl) ∙ h in
        let r : K.sent ring c ≡ ring' = cc in (room, ap K.queue (sym r) ∙ K.queue-sent ring c room)
    | inr full ↦ let e : err c ≡ ok ring' = sym (rw full refl) ∙ h in absurd cc
  ]

  pub pop-queue :
      (ring ring' : K.State) (c : Sequenced) (xs : List Sequenced)
      → K.queue ring ≡ xs
      → pop K ring ≡ some (c, ring')
      → xs ≡ c ∷ K.queue ring'
  unfolding pop
  pop-queue ring ring' c [] q h =
      let e : ◌≡◌ {A = Option (Sequenced × K.State)} none (some (c, ring')) =
        sym (K.received-none ring q) ∙ h in
      absurd cc
  pop-queue ring ring' c (x ∷ xs) q h =
      let (ring₁, r, q₁) = K.received-some ring x xs q in
      let e : ◌≡◌ {A = Option (Sequenced × K.State)} (some (x, ring₁)) (some (c, ring')) =
        sym r ∙ h in
      let same_command : x ≡ c = cc in let same_ring : ring₁ ≡ ring' = cc in cc

  -- Two views of the same place of a list.
  pub same_place :
      {A : Type 0} (xs : List A) (i j : ℕ) (v w x : A)
      → get_elem? xs i ≡ some x
      → get_elem? (set xs i v) j ≡ some w
      → (i ≡ j × v ≡ w) ⊎ ((i == j) ≡ false × get_elem? xs j ≡ some w)
  same_place xs i j v w x at h = elim (Bool-cases (i == j)) [
    | inl same ↦
        let e : some v ≡ some w = sym (get_elem?-set xs i j v x at ∙ rw same refl) ∙ h in
        inl (ground (arith, same), cc)
    | inr other ↦ inr (other, sym (get_elem?-set xs i j v x at ∙ rw other refl) ∙ h)
  ]

  pushed_to-Fifo :
      (s : System K) (c : Sequenced) (ring ring' : K.State) (rest : List Sequenced)
      → get_elem? s.engine.senders (shard_of K s c) ≡ some ring
      → try_push K c ring ≡ ok ring'
      → Fifo s
      → Fifo (pushed_to K c ring' rest s)
  unfolding pushed_to
  pushed_to-Fifo s c ring ring' rest at sent fifo i r h =
      elim (same_place s.engine.senders (shard_of K s c) i ring' r ring at h) [
        | inl (here, e) ↦
            let same : (shard_of K s c == i) ≡ true = ground (arith, here) in
            let before =
              fifo i ring (subst (λ (j : ℕ). get_elem? s.engine.senders j ≡ some ring) here at) in
            ap (λ q. s.popped i ++ q) (ap K.queue (sym e) ∙ (try_push-queue c ring ring' sent).1)
            ∙ sym (append_assoc (s.popped i) (K.queue ring) (c ∷ []))
            ∙ ap (λ xs. xs ++ c ∷ []) before
            ∙ sym (for_shard-append s.engine.num_shards i s.accepted c ∙ rw same refl)
        | inr (other, h') ↦
            fifo i r h' ∙ sym (for_shard-append s.engine.num_shards i s.accepted c ∙ rw other refl)
      ]

  popped_from-Fifo :
      (s : System K) (i : ℕ) (c : Sequenced) (ring ring' : K.State)
      → get_elem? s.engine.senders i ≡ some ring
      → pop K ring ≡ some (c, ring')
      → Fifo s
      → Fifo (popped_from K i c ring' s)
  unfolding popped_from
  popped_from-Fifo s i c ring ring' at got fifo j r h =
      elim (same_place s.engine.senders i j ring' r ring at h) [
        | inl (here, e) ↦
            let same : (i == j) ≡ true = ground (arith, here) in
            let before =
              fifo j ring (subst (λ (k : ℕ). get_elem? s.engine.senders k ≡ some ring) here at) in
            rw same (
              append_assoc (s.popped j) (c ∷ []) (K.queue r)
              ∙ ap (λ q. s.popped j ++ q)
                  (ap (λ x. c ∷ K.queue x) (sym e)
                    ∙ sym (pop-queue ring ring' c (K.queue ring) refl got))
              ∙ before)
        | inr (other, h') ↦ rw other (fifo j r h')
      ]

  Step-Fifo : {s t : System K} → Step K s t → Fifo s → Fifo t
  unfolding numbered_by
  Step-Fifo (number s cmd now) fifo = fifo
  Step-Fifo (push s before after c ring ring' p at sent) fifo =
      pushed_to-Fifo s c ring ring' (before ++ after) at sent fifo
  Step-Fifo (refuse s before after c ring p at back) fifo = fifo
  Step-Fifo (take_next s i c ring ring' at got) fifo = popped_from-Fifo s i c ring ring' at got fifo

  pub queue-replicate :
      (n i : ℕ) (ring : K.State) → get_elem? (replicate n K.empty) i ≡ some ring → K.queue ring ≡ []
  queue-replicate zero i ring h = absurd cc
  queue-replicate (suc n) zero ring h =
      let e : K.empty ≡ ring = cc in ap K.queue (sym e) ∙ K.queue-empty
  queue-replicate (suc n) (suc i) ring h = queue-replicate n i ring h

  init-Fifo : (n : ℕ) → Fifo (init K n)
  unfolding init
  init-Fifo n i ring h = queue-replicate n i ring h

  -- However callers and shards interleave: what a shard has taken from its ring, and then what waits
  -- in it, are the commands whose push went through and whose symbol the shard owns, in the order of
  -- the pushes. None is lost, taken twice, or taken by another shard.
  pub Reach-Fifo : (n : ℕ) {s : System K} → Reach K (init K n) s → Fifo s
  Reach-Fifo n begin = init-Fifo n
  Reach-Fifo n (later r st) = Step-Fifo st (Reach-Fifo n r)
