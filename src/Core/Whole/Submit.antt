-- ===== src/Core/Whole/Submit.antt =====
-- crates/core/src/matcher.rs: `apply_new` on a well-formed book does what the market does.
use order_matching_engine_ru.Prelude.{
  ℕ, suc, ◌+◌, ◌-◌, ◌<◌, ◌≤◌, ◌^◌, ◌≡◌, refl, sym, ap, ◌∙◌, ◌⊎◌, true, false, ◌&&◌, ◌||◌, none,
  some, [], ◌∷◌, ◌++◌, arith, ok, ◌==◌, ltb, inl, inr, Bool-cases, Option-cases,
}
use mathlib.Core.Path.{subst}
use mathlib.Core.List.{append_assoc}
use order_matching_engine_ru.Prelude.Int.{pos, leb_ℤ}
use order_matching_engine_ru.Core.Types.{
  Side, opposite, NewOrder, accepted, rejected, zero_qty, duplicate_id, bad_price, fok_unfillable,
  has_limit_price, is_stop, is_fok, Order,
}
use order_matching_engine_ru.Core.Slab.{Slab}
use order_matching_engine_ru.Core.Maps.{lookup}
use order_matching_engine_ru.Core.Book.{OrderBook, Location, side_levels}
use order_matching_engine_ru.Core.Matcher.{Result, is_limit, apply_new_with, apply_new}
use order_matching_engine_ru.Core.Matcher.Loop.{Events, available_qty, crosses}
use order_matching_engine_ru.Core.Matcher.Sweep.{Ladder, makers}
use order_matching_engine_ru.Core.Matcher.Sweep.Facts.{volume, sweep-volume}
use order_matching_engine_ru.Core.Matcher.Immediate.{sweep_for, IsAdmitted}
use order_matching_engine_ru.Core.Matcher.Resting.{apply_new-Rests, part_event}
use order_matching_engine_ru.Core.Whole.Kept.{has_id-append, has_id_unknown}
use order_matching_engine_ru.Core.Whole.Place.{volume-Inserted}
use order_matching_engine_ru.Core.Whole.Invariant.{IsBook, resting}
use order_matching_engine_ru.Core.Whole.Ended.{apply_new-ended, far-IsOpen}
use order_matching_engine_ru.Core.Whole.Joiner.{
  own-Zoom, room, own_after, joiner, own-Inserted, own_after-offers,
}
use order_matching_engine_ru.Core.Whole.Rested.{rested_book, rested-IsBook}
use order_matching_engine_ru.Core.Whole.Exchange.{
  Turn, request, settled, submitted, is_offered, liquidity,
}
use order_matching_engine_ru.Core.Whole.Branches.{
  settled-rests, settled-ends, submitted-empty, submitted-known, submitted-bad, submitted-short,
  submitted-settled,
}
use order_matching_engine_ru.Core.Whole.Offers.{
  offers, filling, is_offered-offers, fill-offers, available_in-liquidity,
}

regroup : (out a b c : Events) → out ++ a ++ b ++ c ≡ out ++ (a ++ b ++ c)
regroup out a b c = ap (λ x. x ++ c) (append_assoc out a b) ∙ append_assoc out (a ++ b) c

module _ (S : Slab Order) where
  open S use {key}

  -- A run that leaves a well-formed book, whose offers are those of the step, with the step's events,
  -- and with at most the bound resting.
  pub record Refines (side : Side) (t : Turn) (bound : ℕ) (out : Events) (run : Result S)
      : Type 0 where
    pub book : OrderBook S
    pub own : Ladder
    pub other : Ladder
    pub ran : run ≡ ok (book, out ++ t.events)
    pub sound : IsBook S side own other book
    pub own_offers : offers (makers own) ≡ t.own
    pub other_offers : offers (makers other) ≡ t.other
    pub bounded : resting own other ≤ bound

  module _ (fuel seq ts : ℕ) (n : NewOrder) (b : OrderBook S) (own other : Ladder) (out : Events)
      (h : IsBook S n.side own other b) (fits : resting own other + n.qty < 2 ^ 64) where
    abbrev Does : Turn → Type 0
    Does t =
        Refines n.side t (resting own other + n.qty) out (apply_new S (suc fuel) seq ts n b out)

    settle-Does :
        IsAdmitted S n b
        → Does (settled (request n) seq (offers (makers own)) (filling (sweep_for n seq ts other)))
    settle-Does g =
        let w = sweep_for n seq ts other in
        let moved =
          sweep-volume (crosses n.side n.kind n.price) n.side n.id seq ts n.qty (makers other) in
        let end = λ (why : (is_limit n.kind ≡ false) ⊎ (w.rest ≡ 0)).
          subst Does (settled-ends (request n) seq (offers (makers own)) (filling w) why) (
            let (b', left, run, sound, stay) =
              apply_new-ended S fuel seq ts n b own other out g h why in
            record {
              book = b';
              own = own;
              other = left;
              ran = run ∙ ap (λ es. ok (b', es)) (regroup out _ w.events _);
              sound = sound;
              own_offers = refl;
              other_offers = ap offers stay;
              bounded = omega (arith, ap volume stay, moved.1);
            }) in
        elim (Bool-cases (is_limit n.kind)) [
          | inr kind ↦ end (inl kind)
          | inl limited ↦ elim (Bool-cases (w.rest == 0)) [
            | inl done ↦ end (inr (ground (arith, done)))
            | inr left ↦
                let z = own-Zoom S seq ts n b own other h in
                let r =
                  apply_new-Rests S fuel seq ts n b other z.queue out g
                    (far-IsOpen S n.side own other b h) h.stops
                    (room S seq ts n b own other h z (omega (arith, fits))) limited left in
                let run = apply_new S (suc fuel) seq ts n b out in
                let book = rested_book S seq ts n b own other h z out run r in
                subst Does
                  (settled-rests (request n) seq (offers (makers own)) (filling w) limited left)
                  (record {
                    book = book;
                    own = own_after S seq ts n b own other h z;
                    other = r.ladder;
                    ran =
                        r.ran
                        ∙ ap (λ es. ok (book, es))
                            (regroup out (accepted n.id seq ∷ []) w.events
                              (part_event n.id seq (n.qty - w.rest) w.rest));
                    sound = rested-IsBook S seq ts n b own other h z out run r g limited left;
                    own_offers = sym (own_after-offers S seq ts n b own other h z);
                    other_offers = ap offers r.left;
                    bounded = omega (
                      arith,
                      ap volume r.left,
                      moved.0,
                      moved.1,
                      volume-Inserted own (own_after S seq ts n b own other h z)
                          (joiner S seq ts n b own other h z)
                          (own-Inserted S seq ts n b own other h z),
                    );
                  })
          ]
        ]

    unchanged :
        (es : Events)
        → apply_new S (suc fuel) seq ts n b out ≡ ok (b, out ++ es)
        → Does (record { own = offers (makers own); other = offers (makers other); events = es })
    unchanged es run = record {
      book = b;
      own = own;
      other = other;
      ran = run;
      sound = h;
      own_offers = refl;
      other_offers = refl;
      bounded = omega arith;
    }

    -- The index knows the ids that are offered.
    offered_known :
        (loc : Location)
        → lookup n.id b.id_index ≡ some loc
        → (is_offered n.id (offers (makers own)) || is_offered n.id (offers (makers other))) ≡ true
    offered_known loc at = ground (
      arith,
      h.listed n.id loc at,
      has_id-append n.id (makers own) (makers other),
      is_offered-offers n.id (makers own),
      is_offered-offers n.id (makers other),
    )

    offered_new :
        lookup n.id b.id_index ≡ none
        → (is_offered n.id (offers (makers own)) || is_offered n.id (offers (makers other))) ≡ false
    offered_new new = ground (
      arith,
      is_offered-offers n.id (makers own),
      is_offered-offers n.id (makers other),
      has_id_unknown n.side b.id_index n.id (makers own) h.near.kept new,
      has_id_unknown (opposite n.side) b.id_index n.id (makers other) h.far.kept new,
    )

    available_lem :
        available_qty S n.side n.price b ≡ liquidity n.side n.price (offers (makers other))
    unfolding available_qty
    available_lem =
        let counted =
          available_in-liquidity S b.arena n.side n.price (side_levels S (opposite n.side) b) other
            0 h.far.stands (omega (arith, fits)) in
        omega (arith, counted)

    -- On a well-formed book an order that is no stop does what the market does, in every branch of
    -- `apply_new`, as long as the quantities that rest and the order's fit a `u64` together. No call
    -- panics, and no recursion is needed.
    pub apply_new-Refines :
        is_stop n.kind ≡ false
        → Does (submitted (request n) seq ts (offers (makers own)) (offers (makers other)))
    unfolding apply_new
    apply_new-Refines no_stop =
        let os = offers (makers own) in
        let os' = offers (makers other) in
        let req = request n in
        elim (Bool-cases (n.qty == 0)) [
          | inl empty ↦
              subst Does (submitted-empty req seq ts os os' empty)
                (unchanged (rejected n.id zero_qty seq ∷ []) (rw (apply_new_with, empty) refl))
          | inr some_qty ↦ elim (Option-cases (lookup n.id b.id_index)) [
            | inr (loc, known) ↦
                subst Does (submitted-known req seq ts os os' some_qty (offered_known loc known)) (
                  unchanged (rejected n.id duplicate_id seq ∷ [])
                    (rw (apply_new_with, some_qty, known) refl))
            | inl new ↦
                let fresh = offered_new new in
                elim (Bool-cases (has_limit_price n.kind && leb_ℤ n.price (pos 0))) [
                  | inl bad ↦ subst Does (submitted-bad req seq ts os os' some_qty fresh bad) (
                      unchanged (rejected n.id bad_price seq ∷ [])
                        (rw (apply_new_with, some_qty, new, bad) refl))
                  | inr good ↦
                      elim (Bool-cases
                        (is_fok n.kind && ltb (available_qty S n.side n.price b) n.qty)) [
                          | inl short ↦
                              subst Does
                                (submitted-short req seq ts os os' some_qty fresh good
                                  (rw (sym available_lem) short))
                                (unchanged
                                  (accepted n.id seq ∷ rejected n.id fok_unfillable seq ∷ [])
                                  (rw (apply_new_with, some_qty, new, good, no_stop, short) refl))
                          | inr enough ↦
                              subst Does
                                (ap (settled req seq os) (
                                    sym (
                                      fill-offers (crosses n.side n.kind n.price) n.side n.id seq ts
                                        n.qty (makers other)))
                                  ∙ submitted-settled req seq ts os os' some_qty fresh good
                                      (rw (sym available_lem) enough))
                                (settle-Does (record {
                                  some_qty = ground (arith, some_qty);
                                  small = omega (arith, fits);
                                  new = new;
                                  good = good;
                                  no_stop = no_stop;
                                  fillable = enough;
                                }))
                        ]
                ]
          ]
        ]
