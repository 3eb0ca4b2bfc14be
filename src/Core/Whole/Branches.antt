-- ===== src/Core/Whole/Branches.antt =====
-- The branches of a submission to the market, one equation each.
use order_matching_engine_ru.Prelude.{
  ℕ, ◌-◌, ◌≡◌, refl, ◌⊎◌, inl, inr, true, false, ◌&&◌, ◌||◌, List, [], ◌∷◌, ◌++◌, arith, ◌==◌, ltb,
  Bool-cases,
}
use order_matching_engine_ru.Prelude.Int.{pos, leb_ℤ}
use order_matching_engine_ru.Core.Types.{
  accepted, rejected, zero_qty, duplicate_id, bad_price, fok_unfillable, has_limit_price, is_fok,
}
use order_matching_engine_ru.Core.Matcher.{is_limit}
use order_matching_engine_ru.Core.Matcher.Loop.{Events, crosses}
use order_matching_engine_ru.Core.Matcher.Immediate.{ending}
use order_matching_engine_ru.Core.Matcher.Resting.{part_event}
use order_matching_engine_ru.Core.Whole.Exchange.{
  Offer, Turn, Filling, Request, place, settled, submitted, is_offered, liquidity, fill,
}

module _ (n : Request) (seq : ℕ) (own : List Offer) (f : Filling) where
  abbrev pub rest_step : Turn
  rest_step = record {
    own = place n.side (record { id = n.id; price = n.price; qty = f.rest }) own;
    other = f.left;
    events = accepted n.id seq ∷ [] ++ f.events ++ part_event n.id seq (n.qty - f.rest) f.rest;
  }

  abbrev pub end_step : Turn
  end_step = record {
    own = own;
    other = f.left;
    events = accepted n.id seq ∷ [] ++ f.events ++ ending n.id seq (n.qty - f.rest) f.rest;
  }

  pub settled-rests :
      is_limit n.kind ≡ true → (f.rest == 0) ≡ false → rest_step ≡ settled n seq own f
  unfolding settled
  settled-rests limited left = rw (limited, left) refl

  pub settled-ends : (is_limit n.kind ≡ false) ⊎ (f.rest ≡ 0) → end_step ≡ settled n seq own f
  unfolding settled
  settled-ends (inl other) = rw other refl
  settled-ends (inr done) =
      let empty : (f.rest == 0) ≡ true = ground (arith, done) in
      elim (Bool-cases (is_limit n.kind)) [
        | inl limited ↦ rw (limited, empty) refl
        | inr other ↦ rw other refl
      ]

module _ (n : Request) (seq ts : ℕ) (own other : List Offer) where
  abbrev pub refusal : Events → Turn
  refusal es = record { own = own; other = other; events = es }

  pub submitted-empty :
      (n.qty == 0) ≡ true → refusal (rejected n.id zero_qty seq ∷ []) ≡ submitted n seq ts own other
  unfolding submitted
  submitted-empty empty = rw empty refl

  pub submitted-known :
      (n.qty == 0) ≡ false
      → (is_offered n.id own || is_offered n.id other) ≡ true
      → refusal (rejected n.id duplicate_id seq ∷ []) ≡ submitted n seq ts own other
  unfolding submitted
  submitted-known some_qty known = rw (some_qty, known) refl

  module _ (some_qty : (n.qty == 0) ≡ false)
      (new : (is_offered n.id own || is_offered n.id other) ≡ false) where
    pub submitted-bad :
        (has_limit_price n.kind && leb_ℤ n.price (pos 0)) ≡ true
        → refusal (rejected n.id bad_price seq ∷ []) ≡ submitted n seq ts own other
    unfolding submitted
    submitted-bad bad = rw (some_qty, new, bad) refl

    pub submitted-short :
        (has_limit_price n.kind && leb_ℤ n.price (pos 0)) ≡ false
        → (is_fok n.kind && ltb (liquidity n.side n.price other) n.qty) ≡ true
        → refusal (accepted n.id seq ∷ rejected n.id fok_unfillable seq ∷ [])
          ≡ submitted n seq ts own other
    unfolding submitted
    submitted-short good short = rw (some_qty, new, good, short) refl

    pub submitted-settled :
        (has_limit_price n.kind && leb_ℤ n.price (pos 0)) ≡ false
        → (is_fok n.kind && ltb (liquidity n.side n.price other) n.qty) ≡ false
        → settled n seq own (fill (crosses n.side n.kind n.price) n.side n.id seq ts n.qty other)
          ≡ submitted n seq ts own other
    unfolding submitted
    submitted-settled good enough = rw (some_qty, new, good, enough) refl
