-- ===== src/Engine/Submit/Routing.antt =====
-- Symbols and commands reach the same shard.
use order_matching_engine_ru.Prelude.{
  ℕ, zero, suc, ◌+◌, ◌%◌, ◌<◌, ◌≡◌, refl, sym, ap, ◌∙◌, ◌⊎◌, inl, inr, Bool, true, false, Option,
  none, some, List, [], ◌∷◌, ◌++◌, arith, ◌==◌, if◌then◌else◌, Outcome, ◌>>=◌, keep, length,
  add_u64, Bool-cases,
}
use order_matching_engine_ru.Prelude
use mathlib.Core.Path.{subst}
use mathlib.Core.Option
use mathlib.Core.List.{append-nil, append_assoc}
use order_matching_engine_ru.Prelude.Result.{Result, ok, err}
use order_matching_engine_ru.Core.Types.{Price, Command, Sequenced}
use order_matching_engine_ru.Engine.Channel.{Channel}
use order_matching_engine_ru.Engine.Sequencer.{Sequencer, next, try_push}
use order_matching_engine_ru.Engine.Shard.{symbol_of, shard_for}
use order_matching_engine_ru.Engine.Submit.{
  get_elem?, set, replicate, Symbols, push_at, deal, shard_symbols, Engine, submit,
}

pub get_elem?-set :
    {A : Type 0} (xs : List A) (i j : ℕ) (v x : A)
    → get_elem? xs i ≡ some x
    → get_elem? (set xs i v) j ≡ (if i == j then some v else get_elem? xs j)
get_elem?-set [] i j v x h = cc
get_elem?-set (y ∷ ys) zero zero v x h = refl
get_elem?-set (y ∷ ys) zero (suc j) v x h = ground arith
get_elem?-set (y ∷ ys) (suc i) zero v x h = ground arith
get_elem?-set (y ∷ ys) (suc i) (suc j) v x h = ground (arith, get_elem?-set ys i j v x h)

pub get_elem?-replicate :
    {A : Type 0} (n i : ℕ) (x : A) → i < n → get_elem? (replicate n x) i ≡ some x
get_elem?-replicate zero i x h = absurd (omega arith)
get_elem?-replicate (suc n) zero x h = refl
get_elem?-replicate (suc n) (suc i) x h = get_elem?-replicate n i x (omega arith)

-- The entries that belong to a shard.
abbrev pub routed : ℕ → ℕ → Symbols → Symbols
routed n i symbols = keep (λ (symbol, _). shard_for symbol n == i) symbols

-- The lists when each shard has the entries of `done` that belong to it.
abbrev Dealt : ℕ → Symbols → List Symbols → Type 0
Dealt n done lists = (i : ℕ) → i < n → get_elem? lists i ≡ some (routed n i done)

pub shard_for-lt : (symbol n : ℕ) → 0 < n → shard_for symbol n < n
unfolding shard_for
shard_for-lt symbol n h = grind arith

routed-append :
    (n i : ℕ) (xs : Symbols) (symbol : ℕ) (tick : Price)
    → routed n i (xs ++ (symbol, tick) ∷ [])
      ≡ (if shard_for symbol n == i then routed n i xs ++ (symbol, tick) ∷ [] else routed n i xs)
routed-append n i [] symbol tick = ground arith
routed-append n i ((s, t) ∷ xs) symbol tick = ground (arith, routed-append n i xs symbol tick)

deal-Dealt :
    (n : ℕ) (more before : Symbols) (lists : List Symbols)
    → 0 < n
    → Dealt n before lists
    → (lists' : List Symbols) × (deal n more lists ≡ Prelude.ok lists')
      × Dealt n (before ++ more) lists'
unfolding deal push_at
deal-Dealt n [] before lists pos h =
    (lists, refl, λ i lt. h i lt ∙ ap (λ xs. some (routed n i xs)) (sym (append-nil before)))
deal-Dealt n ((symbol, tick) ∷ more) before lists pos h =
    let shard = shard_for symbol n in
    let below = shard_for-lt symbol n pos in
    let here = h shard below in
    let some_shards : (n == 0) ≡ false = ground arith in
    let lists₁ = set lists shard (routed n shard before ++ (symbol, tick) ∷ []) in
    let h₁ : Dealt n (before ++ (symbol, tick) ∷ []) lists₁ = λ i lt.
      elim (Bool-cases (shard == i)) [
        | inl same ↦
            let at : shard ≡ i = ground (arith, same) in
            get_elem?-set lists shard i (routed n shard before ++ (symbol, tick) ∷ [])
              (routed n shard before) here
            ∙ rw same (
                ap (λ (j : ℕ). some (routed n j before ++ (symbol, tick) ∷ [])) at
                ∙ ap some (sym (routed-append n i before symbol tick ∙ rw same refl)))
        | inr other ↦
            get_elem?-set lists shard i (routed n shard before ++ (symbol, tick) ∷ [])
              (routed n shard before) here
            ∙ rw other
                (h i lt ∙ ap some (sym (routed-append n i before symbol tick ∙ rw other refl)))
      ] in
    let (lists₂, run, h₂) = deal-Dealt n more (before ++ (symbol, tick) ∷ []) lists₁ pos h₁ in
    (
      lists₂,
      rw (deal, some_shards, here) run,
      subst (λ xs. Dealt n xs lists₂) (append_assoc before ((symbol, tick) ∷ []) more) h₂,
    )

-- With at least one shard, `start` deals the symbols out without a panic, and each shard gets exactly
-- those that `shard_for` sends to it, in the order of the configuration.
pub shard_symbols-routed :
    (n : ℕ) (symbols : Symbols)
    → 0 < n
    → (lists : List Symbols) × (shard_symbols n symbols ≡ Prelude.ok lists)
      × ((i : ℕ) → i < n → get_elem? lists i ≡ some (routed n i symbols))
unfolding shard_symbols
shard_symbols-routed n symbols pos =
    deal-Dealt n symbols [] (replicate n []) pos (λ i lt. get_elem?-replicate n i [] lt)

module _ (K : Channel Sequenced) where
  -- The messages that wait for a shard.
  abbrev pub waiting : Engine K → ℕ → Option (List Sequenced)
  waiting e i = Option.map K.queue (get_elem? e.senders i)

  -- The command with the number and the time that `submit` gives it.
  abbrev pub numbered : Command → ℕ → Engine K → Sequenced
  numbered cmd now e = record { seq = e.sequencer.next_seq; ts = now; cmd = cmd }

  -- `submit` puts the numbered command behind what waits for one shard, and nothing else.
  abbrev pub Accepts : Command → Engine K → Sequenced → Result ℕ Command × Engine K → Type 0
  Accepts cmd e sent (answer, e') =
      (answer ≡ ok sent.seq)
      × ((i : ℕ) (queue : List Sequenced)
          → waiting e i ≡ some queue
          → waiting e' i
            ≡ some
                (if shard_for (symbol_of cmd) e.num_shards == i then queue ++ sent ∷ [] else queue))

  -- `submit` hands the command back, and no queue changes.
  abbrev pub Refuses : Command → Engine K → Result ℕ Command × Engine K → Type 0
  Refuses cmd e (answer, e') = (answer ≡ err cmd) × (e'.senders ≡ e.senders)

  -- On an engine with at least one shard and a sender for each, `submit` does not panic. The command
  -- goes to the queue of the shard that owns its symbol, under the next number, and to no other; or its
  -- channel does not accept it, it is handed back and no queue changes. The number is used up either
  -- way: the next call gets the one after it, with the wrap-around of a `u64`.
  pub submit-Accepts :
      (cmd : Command) (now : ℕ) (e : Engine K) (c : K.State)
      → 0 < e.num_shards
      → get_elem? e.senders (shard_for (symbol_of cmd) e.num_shards) ≡ some c
      → (r : Result ℕ Command × Engine K) × (submit K cmd now e ≡ Prelude.ok r)
        × (r.1.sequencer.next_seq ≡ add_u64 e.sequencer.next_seq 1)
        × (((K.accepts c ≡ true) × Accepts cmd e (numbered cmd now e) r)
            ⊎ ((K.accepts c ≡ false) × Refuses cmd e r))
  unfolding submit try_push next
  submit-Accepts cmd now e c pos at =
      let some_shards : (e.num_shards == 0) ≡ false = ground arith in
      let shard = shard_for (symbol_of cmd) e.num_shards in
      let sequencer : Sequencer = record { next_seq = add_u64 e.sequencer.next_seq 1 } in
      let sent = numbered cmd now e in
      elim (Bool-cases (K.accepts c)) [
        | inr full ↦ (
          (err cmd, record e { sequencer = sequencer }),
          rw (some_shards, at, full) refl,
          refl,
          inr (full, (refl, refl)),
        )
        | inl room ↦ (
          (
            ok sent.seq,
            record e { sequencer = sequencer; senders = set e.senders shard (K.sent c sent) },
          ),
          rw (some_shards, at, room) refl,
          refl,
          inl (room, (refl, λ i queue h. placed i queue room h)),
        )
      ]
    where
      placed :
          (i : ℕ) (queue : List Sequenced)
          → K.accepts c ≡ true
          → waiting e i ≡ some queue
          → Option.map K.queue (
              get_elem?
                (set e.senders
                  (shard_for (symbol_of cmd) e.num_shards)
                  (K.sent c (numbered cmd now e)))
                i)
            ≡ some (
                if shard_for (symbol_of cmd) e.num_shards == i
                then queue ++ numbered cmd now e ∷ []
                else queue)
      placed i queue room h = elim (Bool-cases (shard_for (symbol_of cmd) e.num_shards == i)) [
        | inl same ↦
            let eq : shard_for (symbol_of cmd) e.num_shards ≡ i = ground (arith, same) in
            let here : some (K.queue c) ≡ some queue =
              ap (Option.map K.queue)
                (sym (subst (λ (j : ℕ). get_elem? e.senders j ≡ some c) eq at))
              ∙ h in
            let q : K.queue c ≡ queue = cc in
            ap (Option.map K.queue) (
              get_elem?-set e.senders (shard_for (symbol_of cmd) e.num_shards) i
                (K.sent c (numbered cmd now e)) c at)
            ∙ rw same (
                ap some (
                  K.queue-sent c (numbered cmd now e) room
                  ∙ ap (λ xs. xs ++ numbered cmd now e ∷ []) q))
        | inr other ↦
            ap (Option.map K.queue) (
              get_elem?-set e.senders (shard_for (symbol_of cmd) e.num_shards) i
                (K.sent c (numbered cmd now e)) c at)
            ∙ rw other h
      ]
