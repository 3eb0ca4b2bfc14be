-- ===== src/Core/Matcher.antt =====
-- crates/core/src/matcher.rs: one command applied to a book. `out` is the event vector. The matching
-- loop and the resubmission of triggered stops run on fuel.
pub mod Loop
pub mod Sweep
pub mod Ladder
pub mod Trade
pub mod Round
pub mod Refinement
pub mod MatchOrder
pub mod Promises
pub mod TakeOut
pub mod Cancel
pub mod Rejection
pub mod Replace
pub mod Immediate
pub mod Resting
mod Tests
mod Examples
use order_matching_engine_ru.Prelude.{
  ℕ, zero, suc, Bool, true, false, ◌&&◌, Option, none, some, List, [], ◌∷◌, ◌++◌, Outcome, ok,
  out_of_fuel, ◌>>=◌, ◌==◌, ltb, if◌then◌else◌,
}
use order_matching_engine_ru.Prelude.Int.{ℤ, pos, leb_ℤ, ltb_ℤ}
use order_matching_engine_ru.Core.Types.{
  Price, Side, buy, sell, opposite, Order, OrderType, limit, NewOrder, new_order, Command,
  Sequenced, OutputEvent, accepted, rejected, partially_filled, filled, cancelled, replaced,
  RejectReason, duplicate_id, unknown_id, zero_qty, bad_price, fok_unfillable, has_limit_price,
  is_stop, is_fok, triggered_kind,
}
use order_matching_engine_ru.Core.Types
use order_matching_engine_ru.Core.Slab.{Slab, index, take_out}
use order_matching_engine_ru.Core.Maps.{
  ascending, descending, BTreeMap, find, put, up_to, after, lookup, erase, insert,
}
use order_matching_engine_ru.Core.Book.{
  OrderBook, Location, insert_resting, remove_slot, remove_empty,
}
use Loop.{Events, available_qty, match_order, settle_maker, reinsert_at_head}

-- The slots listed under the keys of a range, in order.
unfoldable pub slots : BTreeMap (List ℕ) → List ℕ
slots [] = []
slots ((_, v) ∷ m) = v ++ slots m

-- `entry(key).or_default().push(slot)`
abbrev pub or_default : Option (List ℕ) → List ℕ
or_default none = []
or_default (some v) = v

unfoldable pub is_limit : OrderType → Bool
is_limit limit = true
is_limit _ = false

module _ (S : Slab Order) where
  open S use {key}

  abbrev pub Result : Type 0
  Result = Outcome (OrderBook S × Events)

  unfoldable pub add_stop : Side → Price → ℕ → OrderBook S → OrderBook S
  unfolding put find
  add_stop buy p slot b = record b {
    stop_buys = put ascending p (or_default (find p b.stop_buys) ++ slot ∷ []) b.stop_buys;
  }
  add_stop sell p slot b = record b {
    stop_sells = put descending p (or_default (find p b.stop_sells) ++ slot ∷ []) b.stop_sells;
  }

  -- The branch of `apply_new` that holds a stop order until it is triggered.
  unfoldable pub hold_stop : NewOrder → ℕ → ℕ → OrderBook S → Events → OrderBook S × Events
  unfolding add_stop insert new_order
  hold_stop n seq ts b out =
      let slot = key b.arena in
      let location : Location = record { price = n.stop_price; side = n.side; slot = slot } in
      (
        add_stop n.side n.stop_price slot (record b {
          arena = S.insert b.arena (new_order n seq ts);
          id_index = insert n.id location b.id_index;
        }),
        out ++ accepted n.id seq ∷ [],
      )

  -- A limit order's remainder rests in the book; that of any other kind is cancelled. No stop order
  -- gets here: `hold_stop` took it.
  unfoldable pub settle : NewOrder → ℕ → ℕ → OrderBook S → Events → Result
  unfolding insert insert_resting take_out is_limit
  settle n slot seq b out =
      if is_limit n.kind
      then (do
        let location : Location = record { price = n.price; side = n.side; slot = slot }
        b ← insert_resting S slot (record b { id_index = insert n.id location b.id_index })
        ok (b, out))
      else (do
        a ← take_out S b.arena slot
        ok (record b { arena = a }, out ++ cancelled n.id seq ∷ []))

  -- What `apply_new` does after the match, with the quantity that it filled.
  unfoldable pub finish : NewOrder → ℕ → ℕ → ℕ → OrderBook S → Events → Result
  unfolding index take_out erase settle
  finish n slot fill seq b out = do
    order ← index S b.arena slot
    if ltb 0 fill && order.remaining == 0
        then (do
          a ← take_out S b.arena slot
          ok (
            record b { arena = a; id_index = erase n.id b.id_index },
            out ++ filled n.id seq ∷ [],
          ))
        else if ltb 0 fill
        then settle n slot seq b (out ++ partially_filled n.id fill order.remaining seq ∷ [])
        else settle n slot seq b out

  -- The order that a triggered stop is resubmitted as.
  unfoldable pub resubmitted : Order → NewOrder
  unfolding triggered_kind
  resubmitted o = record {
    id = o.id;
    symbol = o.symbol;
    side = o.side;
    kind = triggered_kind o.kind;
    tif = o.tif;
    price = o.price;
    stop_price = pos 0;
    qty = o.remaining;
  }

  -- A triggered order leaves the index and the arena before it is submitted again.
  unfoldable pub release : ℕ → Order → OrderBook S → OrderBook S
  unfolding erase
  release slot order b = record b {
    id_index = erase order.id b.id_index;
    arena = S.remove b.arena slot;
  }

  -- `for slot in triggered { … }`, where `submit` is `apply_new`.
  unfoldable pub trigger_loop :
      (NewOrder → OrderBook S → Events → Result) → List ℕ → OrderBook S → Events → Result
  unfolding release resubmitted
  trigger_loop submit [] b out = ok (b, out)
  trigger_loop submit (slot ∷ rest) b out = elim (S.get b.arena slot) [
    | none ↦ trigger_loop submit rest b out
    | some order ↦ do
      (b, out) ← submit (resubmitted order) (release slot order b) out
      trigger_loop submit rest b out
  ]

  unfoldable pub trigger_stops :
      (NewOrder → OrderBook S → Events → Result) → Price → OrderBook S → Events → Result
  unfolding slots trigger_loop
  trigger_stops submit last b out = do
    (b, out) ← trigger_loop submit (slots (up_to ascending last b.stop_buys)) b out
    let b : OrderBook S = record b { stop_buys = after ascending last b.stop_buys }
    (b, out) ← trigger_loop submit (slots (up_to descending last b.stop_sells)) b out
    ok (record b { stop_sells = after descending last b.stop_sells }, out)

  -- `if let Some(last) = book.last_trade { trigger_stops(…) }`
  unfoldable pub check_stops :
      (NewOrder → OrderBook S → Events → Result) → OrderBook S → Events → Result
  unfolding trigger_stops
  check_stops submit b out = elim b.last_trade [
    | none ↦ ok (b, out)
    | some last ↦ trigger_stops submit last b out
  ]

  -- From the insertion into the arena on.
  unfoldable pub execute :
      (NewOrder → OrderBook S → Events → Result) → NewOrder → ℕ → ℕ → OrderBook S → Events → Result
  unfolding new_order match_order finish check_stops
  execute submit n seq ts b out = do
    let slot = key b.arena
    (fill, b, out) ←
        match_order S slot seq ts (record b { arena = S.insert b.arena (new_order n seq ts) }) out
    (b, out) ← finish n slot fill seq b out
    check_stops submit b out

  -- `apply_new`, one level of the recursion through `trigger_stops`.
  unfoldable pub apply_new_with :
      (NewOrder → OrderBook S → Events → Result) → NewOrder → ℕ → ℕ → OrderBook S → Events → Result
  apply_new_with submit n seq ts b out =
      if n.qty == 0
      then ok (b, out ++ rejected n.id zero_qty seq ∷ [])
      else elim (lookup n.id b.id_index) [
        | some _ ↦ ok (b, out ++ rejected n.id duplicate_id seq ∷ [])
        | none ↦
            if has_limit_price n.kind && leb_ℤ n.price (pos 0)
            then ok (b, out ++ rejected n.id bad_price seq ∷ [])
            else if is_stop n.kind
            then ok (hold_stop n seq ts b out)
            else if is_fok n.kind && ltb (available_qty S n.side n.price b) n.qty
            then ok (b, out ++ accepted n.id seq ∷ rejected n.id fok_unfillable seq ∷ [])
            else execute submit n seq ts b (out ++ accepted n.id seq ∷ [])
      ]

  -- The fuel bounds how deep triggered stops trigger one another.
  unfoldable pub apply_new : ℕ → ℕ → ℕ → NewOrder → OrderBook S → Events → Result
  unfolding apply_new_with
  apply_new zero seq ts n b out = out_of_fuel
  apply_new (suc fuel) seq ts n b out = apply_new_with (apply_new fuel seq ts) n seq ts b out

  unfoldable pub apply_cancel : ℕ → ℕ → OrderBook S → Events → Result
  unfolding index take_out
  apply_cancel id seq b out = elim (lookup id b.id_index) [
    | none ↦ ok (b, out ++ rejected id unknown_id seq ∷ [])
    | some loc ↦ do
      order ← index S b.arena loc.slot
      b ←
          remove_slot S loc.slot loc.side loc.price order.remaining
            (record b { id_index = erase id b.id_index })
      a ← take_out S b.arena loc.slot
      ok (record b { arena = a }, out ++ cancelled id seq ∷ [])
  ]

  -- The order that a replacement submits.
  unfoldable pub replacement : ℕ → Order → Price → ℕ → NewOrder
  replacement id o new_price new_qty = record {
    id = id;
    symbol = o.symbol;
    side = o.side;
    kind = o.kind;
    tif = o.tif;
    price = new_price;
    stop_price = pos 0;
    qty = new_qty;
  }

  unfoldable pub apply_replace : ℕ → ℕ → Price → ℕ → ℕ → ℕ → OrderBook S → Events → Result
  unfolding index take_out replacement
  apply_replace fuel id new_price new_qty seq ts b out =
      if new_qty == 0
      then ok (b, out ++ rejected id zero_qty seq ∷ [])
      else elim (lookup id b.id_index) [
        | none ↦ ok (b, out ++ rejected id unknown_id seq ∷ [])
        | some loc ↦ do
          order ← index S b.arena loc.slot
          b ←
              remove_slot S loc.slot order.side loc.price order.remaining
                (record b { id_index = erase id b.id_index })
          a ← take_out S b.arena loc.slot
          apply_new fuel seq ts (replacement id order new_price new_qty) (record b { arena = a })
              (out ++ replaced id seq ∷ [])
      ]

  unfoldable pub apply_command : ℕ → Command → ℕ → ℕ → OrderBook S → Events → Result
  unfolding apply_new apply_cancel apply_replace
  apply_command fuel (Command.new n) seq ts b out = apply_new fuel seq ts n b out
  apply_command fuel (Command.cancel id _) seq ts b out = apply_cancel id seq b out
  apply_command fuel (Command.replace id new_price new_qty _) seq ts b out =
      apply_replace fuel id new_price new_qty seq ts b out

  unfoldable pub apply : ℕ → Sequenced → OrderBook S → Events → Result
  unfolding has_limit_price is_stop is_fok hold_stop available_qty execute apply_command lookup
      erase remove_slot settle_maker remove_empty reinsert_at_head opposite
  apply fuel c b out = apply_command fuel c.cmd c.seq c.ts b out
