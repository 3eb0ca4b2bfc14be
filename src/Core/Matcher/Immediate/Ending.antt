-- ===== src/Core/Matcher/Immediate/Ending.antt =====
-- The steps of `apply_new` behind the match, for an order that does not rest.
use order_matching_engine_ru.Prelude.{
  ℕ, ◌<◌, ◌≡◌, refl, sym, ap, ◌∙◌, ◌⊎◌, inl, inr, true, false, Option, none, some, [], ◌∷◌, ◌++◌,
  arith, ok, ◌==◌, ltb, if◌then◌else◌, Bool-cases,
}
use mathlib.Core.Path.{subst}
use mathlib.Core.List.{append_assoc}
use order_matching_engine_ru.Core.Types.{
  Price, Order, NewOrder, filled, partially_filled, cancelled,
}
use order_matching_engine_ru.Core.Slab.{Slab, index, take_out}
use order_matching_engine_ru.Core.Maps.{erase}
use order_matching_engine_ru.Core.Book.{OrderBook}
use order_matching_engine_ru.Core.Matcher.{Result, is_limit, finish, check_stops}
use order_matching_engine_ru.Core.Matcher.Loop.{Events}
use order_matching_engine_ru.Core.Matcher.Immediate.Admission.{HasNoStops}

-- What is said at the end of an order that does not rest.
abbrev pub ending : ℕ → ℕ → ℕ → ℕ → Events
ending id seq fill rest =
    if rest == 0
    then filled id seq ∷ []
    else if ltb 0 fill
    then partially_filled id fill rest seq ∷ cancelled id seq ∷ []
    else cancelled id seq ∷ []

module _ (S : Slab Order) where
  open S use {Arena, get, key}

  -- The book without stop orders, and with a last trade.
  abbrev clear : Option Price → OrderBook S → OrderBook S
  clear last b = record b { stop_buys = []; stop_sells = []; last_trade = last }

  check_stops-clear :
      (submit : NewOrder → OrderBook S → Events → Result S) (last : Option Price) (b : OrderBook S)
      (out : Events)
      → check_stops S submit (clear last b) out ≡ ok (clear last b, out)
  unfolding check_stops
  check_stops-clear submit none b out = refl
  check_stops-clear submit (some p) b out = refl

  clear_lem : (b : OrderBook S) → HasNoStops S b → clear b.last_trade b ≡ b
  clear_lem b h =
      ap (λ m. record b { stop_buys = m; stop_sells = [] }) (sym h.buys)
      ∙ ap (λ m. record b { stop_sells = m }) (sym h.sells)

  -- With no stop order nothing is triggered.
  pub check_stops_none :
      (submit : NewOrder → OrderBook S → Events → Result S) (b : OrderBook S) (out : Events)
      → HasNoStops S b
      → check_stops S submit b out ≡ ok (b, out)
  check_stops_none submit b out h =
      subst (λ x. check_stops S submit x out ≡ ok (x, out)) (clear_lem b h)
        (check_stops-clear submit b.last_trade b out)

  -- The index loses the id of an order that is filled; there was none for it.
  abbrev pub index_after : ℕ → ℕ → OrderBook S → OrderBook S
  index_after id rest b = record b {
    id_index = if rest == 0 then erase id b.id_index else b.id_index;
  }

  finish-filled :
      (n : NewOrder) (k seq fill : ℕ) (o : Order) (b : OrderBook S) (out : Events)
      → get b.arena k ≡ some o
      → 0 < fill
      → o.remaining ≡ 0
      → finish S n k fill seq b out
        ≡ ok (
          record b { arena = S.remove b.arena k; id_index = erase n.id b.id_index },
          out ++ filled n.id seq ∷ [],
        )
  unfolding finish index take_out
  finish-filled n k seq fill o b out at some_fill done =
      let more : ltb 0 fill ≡ true = ground (arith, some_fill) in
      let empty : (o.remaining == 0) ≡ true = ground (arith, done) in rw (at, more, empty) refl

  finish-unfilled :
      (n : NewOrder) (k seq fill : ℕ) (o : Order) (b : OrderBook S) (out : Events)
      → get b.arena k ≡ some o
      → (o.remaining == 0) ≡ false
      → is_limit n.kind ≡ false
      → finish S n k fill seq b out
        ≡ ok (
          record b { arena = S.remove b.arena k },
          out
              ++ (if ltb 0 fill
                  then partially_filled n.id fill o.remaining seq ∷ cancelled n.id seq ∷ []
                  else cancelled n.id seq ∷ []),
        )
  unfolding finish index
  finish-unfilled n k seq fill o b out at left kind = elim (Bool-cases (ltb 0 fill)) [
    | inl more ↦
        rw (at, more, left, kind)
          (ap (λ es. ok (record b { arena = S.remove b.arena k }, es))
            (append_assoc out (partially_filled n.id fill o.remaining seq ∷ [])
              (cancelled n.id seq ∷ [])))
    | inr nothing ↦ rw (at, nothing, kind) refl
  ]

  pub finish-ending :
      (n : NewOrder) (k seq fill : ℕ) (o : Order) (b : OrderBook S) (out : Events)
      → get b.arena k ≡ some o
      → (o.remaining ≡ 0 → 0 < fill)
      → (is_limit n.kind ≡ false) ⊎ (o.remaining ≡ 0)
      → finish S n k fill seq b out
        ≡ ok (
          record (index_after n.id o.remaining b) { arena = S.remove b.arena k },
          out ++ ending n.id seq fill o.remaining,
        )
  finish-ending n k seq fill o b out at full why = elim (Bool-cases (o.remaining == 0)) [
    | inl empty ↦
        let done : o.remaining ≡ 0 = ground (arith, empty) in
        rw empty (finish-filled n k seq fill o b out at (full done) done)
    | inr left ↦
        let kind : is_limit n.kind ≡ false = not_limit left why in
        rw left (finish-unfilled n k seq fill o b out at left kind)
  ]
    where
      not_limit :
          (o.remaining == 0) ≡ false
          → (is_limit n.kind ≡ false) ⊎ (o.remaining ≡ 0)
          → is_limit n.kind ≡ false
      not_limit left (inl kind) = kind
      not_limit left (inr done) = absurd (ground (arith, left, done))
