-- ===== src/Core/Matcher/Rejection.antt =====
-- The orders that `apply_new` turns away.
use order_matching_engine_ru.Prelude.{
  ℕ, suc, ◌<◌, ◌≡◌, refl, sym, ap, ◌∙◌, ◌⊎◌, inl, inr, true, false, ◌&&◌, none, some, [], ◌∷◌, ◌++◌,
  arith, ok, ◌==◌, ltb, Bool-cases, Option-cases,
}
use order_matching_engine_ru.Prelude.Int.{pos, ◌≤ℤ◌, leb_ℤ}
use order_matching_engine_ru.Core.Types.{
  Order, fok, NewOrder, accepted, rejected, RejectReason, zero_qty, duplicate_id, bad_price,
  fok_unfillable, has_limit_price, is_stop, is_fok,
}
use order_matching_engine_ru.Core.Slab.{Slab}
use order_matching_engine_ru.Core.Maps.{lookup}
use order_matching_engine_ru.Core.Book.{OrderBook, Location}
use order_matching_engine_ru.Core.Matcher.{Result, apply_new_with, apply_new}
use order_matching_engine_ru.Core.Matcher.Loop.{Events, available_qty}

module _ (S : Slab Order) where
  -- An order that must not get into the book: it has no quantity, its id is known, its limit is not
  -- positive, or it must be filled as a whole and cannot be.
  abbrev pub IsRefused : NewOrder → OrderBook S → Type 0
  IsRefused n b =
      (n.qty ≡ 0)
      ⊎ ((loc : Location) × (lookup n.id b.id_index ≡ some loc))
      ⊎ ((has_limit_price n.kind ≡ true) × (n.price ≤ℤ pos 0))
      ⊎ ((n.kind ≡ fok) × (available_qty S n.side n.price b < n.qty))

  -- A run that ends in a rejection, after at most an acknowledgement, and leaves the book alone.
  abbrev pub Rejects : NewOrder → ℕ → OrderBook S → Events → Result S → Type 0
  Rejects n seq b out run =
      (reason : RejectReason) × (es : Events) × (run
        ≡ ok (b, out ++ (es ++ rejected n.id reason seq ∷ [])))
      × ((es ≡ []) ⊎ (es ≡ accepted n.id seq ∷ []))

  -- A refused order that passes the tests before the liquidity check is FOK and finds too little.
  refused_fok :
      (n : NewOrder) (b : OrderBook S)
      → IsRefused n b
      → (n.qty == 0) ≡ false
      → lookup n.id b.id_index ≡ none
      → (has_limit_price n.kind && leb_ℤ n.price (pos 0)) ≡ false
      → (n.kind ≡ fok) × (available_qty S n.side n.price b < n.qty)
  refused_fok n b (inl empty) some_qty new good = absurd (ground arith)
  refused_fok n b (inr (inl (loc, known))) some_qty new good =
      absurd (let h : none ≡ some loc = sym new ∙ known in cc)
  refused_fok n b (inr (inr (inl (limited, low)))) some_qty new good = absurd (ground arith)
  refused_fok n b (inr (inr (inr h))) some_qty new good = h

  -- A refused order is rejected and leaves the book as it was: one that has no quantity, has an id that
  -- is known, is of a kind with a limit and has one that is not positive, or is FOK and finds less than
  -- its quantity. The last event is its rejection, and at most its acknowledgement stands before it.
  pub apply_new-Rejects :
      (fuel seq ts : ℕ) (n : NewOrder) (b : OrderBook S) (out : Events)
      → IsRefused n b
      → Rejects n seq b out (apply_new S (suc fuel) seq ts n b out)
  unfolding apply_new is_stop is_fok
  apply_new-Rejects fuel seq ts n b out why = elim (Bool-cases (n.qty == 0)) [
    | inl empty ↦ (zero_qty, [], rw (apply_new_with, empty) refl, inl refl)
    | inr some_qty ↦ elim (Option-cases (lookup n.id b.id_index)) [
      | inr (_, known) ↦ (duplicate_id, [], rw (apply_new_with, some_qty, known) refl, inl refl)
      | inl new ↦ elim (Bool-cases (has_limit_price n.kind && leb_ℤ n.price (pos 0))) [
        | inl bad ↦ (bad_price, [], rw (apply_new_with, some_qty, new, bad) refl, inl refl)
        | inr good ↦
            let (kind, short) = refused_fok n b why some_qty new good in
            let no_stop : is_stop n.kind ≡ false = ap is_stop kind in
            let whole : is_fok n.kind ≡ true = ap is_fok kind in
            let less : ltb (available_qty S n.side n.price b) n.qty ≡ true = ground arith in
            (
              fok_unfillable,
              accepted n.id seq ∷ [],
              rw (apply_new_with, some_qty, new, good, no_stop, whole, less) refl,
              inr refl,
            )
      ]
    ]
  ]
