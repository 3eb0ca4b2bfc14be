-- ===== src/Engine/System/Numbers.antt =====
-- The sequence numbers, whatever the interleaving of the callers.
use order_matching_engine_ru.Prelude.{
  ℕ, suc, ◌+◌, ◌-◌, ◌^◌, ◌≤◌, ◌<◌, ◌≡◌, refl, ap, List, [], ◌∷◌, ◌++◌, ◌==◌, if◌then◌else◌, arith,
}
use order_matching_engine_ru.Core.Types.{Command, Sequenced}
use order_matching_engine_ru.Engine.Channel.{Channel}
use order_matching_engine_ru.Engine.Sequencer.{new_sequencer}
use order_matching_engine_ru.Engine.System.{
  System, init, numbered_by, pushed_to, popped_from, Step, number, push, refuse, take_next, Reach,
  begin, later,
}

-- How many commands of a list have a number.
abbrev pub count : ℕ → List Sequenced → ℕ
count q [] = 0
count q (c ∷ cs) = (if c.seq == q then 1 else 0) + count q cs

count-append : (q : ℕ) (xs ys : List Sequenced) → count q (xs ++ ys) ≡ count q xs + count q ys
count-append q [] ys = omega arith
count-append q (x ∷ xs) ys = ground (arith, count-append q xs ys)

module _ (K : Channel Sequenced) where
  -- Before the counter wraps: the numbers that were given out are those from 1, each at most once.
  record Numbered (s : System K) : Type 0 where
    next : s.handed < 2 ^ 64 - 1 → s.engine.sequencer.next_seq ≡ suc s.handed
    once : s.handed < 2 ^ 64 → (q : ℕ) → count q s.pending + count q s.accepted ≤ 1
    given : s.handed < 2 ^ 64 → (q : ℕ) → s.handed < q → count q s.pending + count q s.accepted ≡ 0

  count-remove :
      (q : ℕ) (before after : List Sequenced) (c : Sequenced)
      → count q (before ++ c ∷ after) ≡ count q (before ++ after) + (if c.seq == q then 1 else 0)
  count-remove q before after c =
      omega (arith, count-append q before (c ∷ after), count-append q before after)

  numbered_by-Numbered :
      (s : System K) (cmd : Command) (now : ℕ) → Numbered s → Numbered (numbered_by K cmd now s)
  unfolding numbered_by
  numbered_by-Numbered s cmd now v =
      let c : Sequenced = record { seq = s.engine.sequencer.next_seq; ts = now; cmd = cmd } in
      record {
        next = λ small. omega (arith, small, v.next (omega (arith, small)));
        once = λ small q. ground (
          arith,
          v.next (omega (arith, small)),
          v.once (omega (arith, small)) q,
          v.given (omega (arith, small)) q,
          count-append q s.pending (c ∷ []),
        );
        given = λ small q above. ground (
          arith,
          v.next (omega (arith, small)),
          v.given (omega (arith, small)) q (omega (arith, above)),
          count-append q s.pending (c ∷ []),
        );
      }

  pushed_to-Numbered :
      (s : System K) (before after : List Sequenced) (c : Sequenced) (ring : K.State)
      → s.pending ≡ before ++ c ∷ after
      → Numbered s
      → Numbered (pushed_to K c ring (before ++ after) s)
  unfolding pushed_to
  pushed_to-Numbered s before after c ring p v =
      let kept : (q : ℕ)
          → count q (before ++ after) + count q (s.accepted ++ c ∷ [])
            ≡ count q s.pending + count q s.accepted =
        λ q. omega (
          arith,
          ap (count q) p,
          count-remove q before after c,
          count-append q s.accepted (c ∷ []),
        ) in
      record {
        next = v.next;
        once = λ small q. omega (arith, kept q, v.once small q);
        given = λ small q above. omega (arith, kept q, v.given small q above);
      }

  refused-Numbered :
      (s : System K) (before after : List Sequenced) (c : Sequenced)
      → s.pending ≡ before ++ c ∷ after
      → Numbered s
      → Numbered (record s { pending = before ++ after })
  refused-Numbered s before after c p v = record {
    next = v.next;
    once = λ small q. omega (arith, ap (count q) p, count-remove q before after c, v.once small q);
    given = λ small q above.
        omega (arith, ap (count q) p, count-remove q before after c, v.given small q above);
  }

  popped_from-Numbered :
      (s : System K) (i : ℕ) (c : Sequenced) (ring : K.State)
      → Numbered s
      → Numbered (popped_from K i c ring s)
  unfolding popped_from
  popped_from-Numbered s i c ring v = record { next = v.next; once = v.once; given = v.given }

  Step-Numbered : {s t : System K} → Step K s t → Numbered s → Numbered t
  Step-Numbered (number s cmd now) v = numbered_by-Numbered s cmd now v
  Step-Numbered (push s before after c ring ring' p at sent) v =
      pushed_to-Numbered s before after c ring' p v
  Step-Numbered (refuse s before after c ring p at back) v = refused-Numbered s before after c p v
  Step-Numbered (take_next s i c ring ring' at got) v = popped_from-Numbered s i c ring' v

  init-Numbered : (n : ℕ) → Numbered (init K n)
  unfolding init new_sequencer
  init-Numbered n = record {
    next = λ small. refl;
    once = λ small q. omega arith;
    given = λ small q above. refl;
  }

  Reach-Numbered : (n : ℕ) {s : System K} → Reach K (init K n) s → Numbered s
  Reach-Numbered n begin = init-Numbered n
  Reach-Numbered n (later r st) = Step-Numbered st (Reach-Numbered n r)

  -- As long as fewer than 2 ^ 64 numbers were given out, no two commands that are on the way or were
  -- accepted have the same sequence number, however the callers interleave.
  pub Reach-once :
      (n : ℕ) {s : System K} (q : ℕ)
      → Reach K (init K n) s
      → s.handed < 2 ^ 64
      → count q s.pending + count q s.accepted ≤ 1
  Reach-once n q r small = (Reach-Numbered n r).once small q
