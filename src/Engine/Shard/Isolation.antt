-- ===== src/Engine/Shard/Isolation.antt =====
-- The books of a shard, one symbol at a time.
use order_matching_engine_ru.Prelude.{
  ℕ, ◌≡◌, refl, sym, ap, ◌∙◌, inl, inr, Bool, true, false, Option, none, some, List, [], ◌∷◌, keep,
  ◌==◌, if◌then◌else◌, arith, Outcome, ◌>>=◌, Bool-cases, Option-cases, saturating_sub, ==_refl,
  ◌++◌,
}
use order_matching_engine_ru.Prelude
use mathlib.Core.Path.{subst}
use order_matching_engine_ru.Core.Types.{Sequenced, Order, OutputEvent}
use order_matching_engine_ru.Core.Slab.{Slab}
use order_matching_engine_ru.Core.Maps.{HashMap, lookup, insert}
use order_matching_engine_ru.Core.Maps.Laws.{lookup-insert}
use order_matching_engine_ru.Core.Book.{OrderBook}
use order_matching_engine_ru.Core.Matcher.{apply}
use order_matching_engine_ru.Core.Matcher.Loop.{Events}
use order_matching_engine_ru.Engine.Channel.{Channel}
use order_matching_engine_ru.Engine.Egress.{send_batch}
use order_matching_engine_ru.Engine.Shard.{Shard, symbol_of, command_metrics, process}
use order_matching_engine_ru.Engine.Shard.Log.{process_all}

module _ (S : Slab Order) (fuel : ℕ) where
  -- The commands of one symbol applied to its book, whatever the rest of the shard does.
  abbrev pub apply_all : List (Sequenced × ℕ) → OrderBook S → Outcome (OrderBook S)
  apply_all [] b = Prelude.ok b
  apply_all ((cmd, _) ∷ more) b = apply S fuel cmd b [] >>= λ (b, _). apply_all more b

  -- A run that succeeds, succeeds in its first step.
  apply_all-cons :
      (x : Outcome (OrderBook S × Events)) (more : List (Sequenced × ℕ)) (b' : OrderBook S)
      → (x >>= λ (b, _). apply_all more b) ≡ Prelude.ok b'
      → (b : OrderBook S) × (events : Events) × (x ≡ Prelude.ok (b, events))
        × (apply_all more b ≡ Prelude.ok b')
  apply_all-cons (Prelude.ok (b, events)) more b' h = (b, events, refl, h)
  apply_all-cons Prelude.panic more b' h = absurd cc
  apply_all-cons Prelude.out_of_fuel more b' h = absurd cc

abbrev pub for_symbol : ℕ → List (Sequenced × ℕ) → List (Sequenced × ℕ)
for_symbol symbol cmds = keep (λ (cmd, _). symbol_of cmd.cmd == symbol) cmds

module _ (S : Slab Order) (K : Channel OutputEvent) (crc32 : List ℕ → ℕ)
    (to_vec : Sequenced → List ℕ) (fuel : ℕ) where
  -- The commands of each symbol alone go through on its book.
  abbrev pub EachRuns : List (Sequenced × ℕ) → HashMap (OrderBook S) → Type 0
  EachRuns cmds books =
      (symbol : ℕ) (b : OrderBook S)
      → lookup symbol books ≡ some b
      → (b' : OrderBook S) × (apply_all S fuel (for_symbol symbol cmds) b ≡ Prelude.ok b')

  -- Each symbol has the book that its commands alone make of the one it had.
  abbrev pub EachApplied :
      List (Sequenced × ℕ) → HashMap (OrderBook S) → HashMap (OrderBook S) → Type 0
  EachApplied cmds books books' =
      (symbol : ℕ) (b b' : OrderBook S)
      → lookup symbol books ≡ some b
      → apply_all S fuel (for_symbol symbol cmds) b ≡ Prelude.ok b'
      → lookup symbol books' ≡ some b'

  for_symbol-own :
      (cmd : Sequenced) (now symbol : ℕ) (more : List (Sequenced × ℕ))
      → (symbol_of cmd.cmd == symbol) ≡ true
      → for_symbol symbol ((cmd, now) ∷ more) ≡ (cmd, now) ∷ for_symbol symbol more
  for_symbol-own cmd now symbol more h = rw h refl

  for_symbol-other :
      (cmd : Sequenced) (now symbol : ℕ) (more : List (Sequenced × ℕ))
      → (symbol_of cmd.cmd == symbol) ≡ false
      → for_symbol symbol ((cmd, now) ∷ more) ≡ for_symbol symbol more
  for_symbol-other cmd now symbol more h = rw h refl

  abbrev unknown : Sequenced → ℕ → Shard S K crc32 to_vec fuel → Shard S K crc32 to_vec fuel
  unknown cmd now s = record s { latencies = s.latencies ++ saturating_sub now cmd.ts ∷ [] }

  abbrev applied :
      Sequenced
      → ℕ
      → OrderBook S
      → Events
      → Shard S K crc32 to_vec fuel
      → Shard S K crc32 to_vec fuel
  applied cmd now book events s = record {
    books = insert (symbol_of cmd.cmd) book s.books;
    egress = send_batch K events s.egress;
    metrics = s.metrics ++ command_metrics S cmd.cmd events book;
    latencies = s.latencies ++ saturating_sub now cmd.ts ∷ [];
  }

  process-none :
      (cmd : Sequenced) (now : ℕ) (s : Shard S K crc32 to_vec fuel)
      → lookup (symbol_of cmd.cmd) s.books ≡ none
      → process S K crc32 to_vec fuel cmd now s ≡ Prelude.ok (unknown cmd now s)
  unfolding process
  process-none cmd now s h = rw (process, h) refl

  process-some :
      (cmd : Sequenced) (now : ℕ) (s : Shard S K crc32 to_vec fuel) (b b₁ : OrderBook S)
      (events : Events)
      → lookup (symbol_of cmd.cmd) s.books ≡ some b
      → apply S fuel cmd b [] ≡ Prelude.ok (b₁, events)
      → process S K crc32 to_vec fuel cmd now s ≡ Prelude.ok (applied cmd now b₁ events s)
  unfolding process
  process-some cmd now s b b₁ events h run = rw (process, h, run) refl

  -- What is left of the runs of the symbols behind a command with no book.
  EachRuns-none :
      (cmd : Sequenced) (now : ℕ) (more : List (Sequenced × ℕ)) (books : HashMap (OrderBook S))
      → lookup (symbol_of cmd.cmd) books ≡ none
      → (symbol : ℕ) (b : OrderBook S) → lookup symbol books ≡ some b
      → for_symbol symbol ((cmd, now) ∷ more) ≡ for_symbol symbol more
  EachRuns-none cmd now more books gone symbol b at =
      elim (Bool-cases (symbol_of cmd.cmd == symbol)) [
        | inl same ↦
            let e : symbol_of cmd.cmd ≡ symbol = ground (arith, same) in
            let clash : none ≡ some b =
              sym (subst (λ (j : ℕ). lookup j books ≡ none) e gone) ∙ at in
            absurd cc
        | inr other ↦ for_symbol-other cmd now symbol more other
      ]

  -- A command with a book: what its symbol has behind it, and the others.
  EachRuns-insert :
      (cmd : Sequenced) (now : ℕ) (more : List (Sequenced × ℕ)) (books : HashMap (OrderBook S))
      (b₀ b₁ : OrderBook S)
      → lookup (symbol_of cmd.cmd) books ≡ some b₀
      → ((b' : OrderBook S)
          → apply_all S fuel (for_symbol (symbol_of cmd.cmd) ((cmd, now) ∷ more)) b₀ ≡ Prelude.ok b'
          → apply_all S fuel (for_symbol (symbol_of cmd.cmd) more) b₁ ≡ Prelude.ok b')
      → (symbol : ℕ) (b b' : OrderBook S) → lookup symbol books ≡ some b
      → apply_all S fuel (for_symbol symbol ((cmd, now) ∷ more)) b ≡ Prelude.ok b'
      → (b₂ : OrderBook S) × (lookup symbol (insert (symbol_of cmd.cmd) b₁ books) ≡ some b₂)
        × (apply_all S fuel (for_symbol symbol more) b₂ ≡ Prelude.ok b')
  EachRuns-insert cmd now more books b₀ b₁ here onward symbol b b' at h =
      elim (Bool-cases (symbol_of cmd.cmd == symbol)) [
        | inl same ↦
            let e : symbol_of cmd.cmd ≡ symbol = ground (arith, same) in
            let twice : some b₀ ≡ some b =
              sym here ∙ subst (λ (j : ℕ). lookup j books ≡ some b) (sym e) at in
            let one : b₀ ≡ b = cc in
            (
              b₁,
              lookup-insert (symbol_of cmd.cmd) symbol b₁ books ∙ rw same refl,
              subst (λ (j : ℕ). apply_all S fuel (for_symbol j more) b₁ ≡ Prelude.ok b') e
                  (onward b' (
                    subst
                      (λ (j : ℕ).
                        apply_all S fuel (for_symbol j ((cmd, now) ∷ more)) b₀ ≡ Prelude.ok b')
                      (sym e)
                      (ap (apply_all S fuel (for_symbol symbol ((cmd, now) ∷ more))) one ∙ h))),
            )
        | inr other ↦ (
          b,
          lookup-insert (symbol_of cmd.cmd) symbol b₁ books ∙ rw other at,
          ap (λ cs. apply_all S fuel cs b) (sym (for_symbol-other cmd now symbol more other)) ∙ h,
        )
      ]

  inserted-EachRuns :
      (cmd : Sequenced) (now : ℕ) (more : List (Sequenced × ℕ)) (books : HashMap (OrderBook S))
      (b₁ b'' : OrderBook S)
      → apply_all S fuel (for_symbol (symbol_of cmd.cmd) more) b₁ ≡ Prelude.ok b''
      → EachRuns ((cmd, now) ∷ more) books
      → EachRuns more (insert (symbol_of cmd.cmd) b₁ books)
  inserted-EachRuns cmd now more books b₁ b'' rest runs symbol b at =
      elim (Bool-cases (symbol_of cmd.cmd == symbol)) [
        | inl same ↦
            let e : symbol_of cmd.cmd ≡ symbol = ground (arith, same) in
            let both : some b₁ ≡ some b =
              sym (lookup-insert (symbol_of cmd.cmd) symbol b₁ books ∙ rw same refl) ∙ at in
            let one : b₁ ≡ b = cc in
            (
              b'',
              subst (λ (j : ℕ). apply_all S fuel (for_symbol j more) b ≡ Prelude.ok b'') e
                  (ap (apply_all S fuel (for_symbol (symbol_of cmd.cmd) more)) (sym one) ∙ rest),
            )
        | inr other ↦
            let (b', h) =
              runs symbol b
                (sym (lookup-insert (symbol_of cmd.cmd) symbol b₁ books ∙ rw other refl) ∙ at) in
            (
              b',
              ap (λ cs. apply_all S fuel cs b) (sym (for_symbol-other cmd now symbol more other))
                  ∙ h,
            )
      ]

  -- A shard whose symbols' commands go through on their own books goes through as well, however the
  -- commands of the symbols are mixed: each symbol ends with the book that its commands alone make of
  -- the one it had. A command of one symbol does not touch the book of another.
  pub process_all-EachApplied :
      (cmds : List (Sequenced × ℕ)) (s : Shard S K crc32 to_vec fuel)
      → EachRuns cmds s.books
      → (s' : Shard S K crc32 to_vec fuel) × (process_all S K crc32 to_vec fuel cmds s
          ≡ Prelude.ok s')
        × EachApplied cmds s.books s'.books
  process_all-EachApplied [] s runs =
      (s, refl, λ symbol b b' at h. let same : b ≡ b' = cc in at ∙ ap some same)
  process_all-EachApplied ((cmd, now) ∷ more) s runs =
      elim (Option-cases (lookup (symbol_of cmd.cmd) s.books)) [
        | inl gone ↦
            let skip = EachRuns-none cmd now more s.books gone in
            let (s', run, each) = process_all-EachApplied more (unknown cmd now s) (λ symbol b at.
              subst (λ cs. (b' : OrderBook S) × (apply_all S fuel cs b ≡ Prelude.ok b'))
                (skip symbol b at) (runs symbol b at)) in
            (
              s',
              rw (process-none cmd now s gone) run,
              λ symbol b b' at h.
                  each symbol b b' at
                    (ap (λ cs. apply_all S fuel cs b) (sym (skip symbol b at)) ∙ h),
            )
        | inr (b₀, here) ↦
            let own =
              for_symbol-own cmd now (symbol_of cmd.cmd) more (==_refl (symbol_of cmd.cmd)) in
            let (b'', all) = runs (symbol_of cmd.cmd) b₀ here in
            let (b₁, events, run₁, rest) =
              apply_all-cons S fuel (apply S fuel cmd b₀ []) (for_symbol (symbol_of cmd.cmd) more)
                b'' (ap (λ cs. apply_all S fuel cs b₀) (sym own) ∙ all) in
            let onward : apply_all S fuel (for_symbol (symbol_of cmd.cmd) ((cmd, now) ∷ more)) b₀
                ≡ apply_all S fuel (for_symbol (symbol_of cmd.cmd) more) b₁ =
              ap (λ cs. apply_all S fuel cs b₀) own
              ∙ ap (λ x. x >>= λ (b, _). apply_all S fuel (for_symbol (symbol_of cmd.cmd) more) b)
                  run₁ in
            let (s', run, each) =
              process_all-EachApplied more (applied cmd now b₁ events s)
                (inserted-EachRuns cmd now more s.books b₁ b'' rest runs) in
            (
              s',
              rw (process-some cmd now s b₀ b₁ events here run₁) run,
              λ symbol b b' at h.
                  let (b₂, at₂, h₂) =
                    EachRuns-insert cmd now more s.books b₀ b₁ here (λ b' h. sym onward ∙ h) symbol
                      b b' at h in
                  each symbol b₂ b' at₂ h₂,
            )
      ]
