-- ===== src/Core/Whole/Exchange.antt =====
-- What a matching engine for one symbol is to do: the offers of each side by price and then by time, and
-- what a command makes of them. No slot, link, level or index is part of it.
use order_matching_engine_ru.Prelude.{
  ℕ, ◌+◌, ◌-◌, Bool, true, false, ◌&&◌, ◌||◌, List, [], ◌∷◌, ◌++◌, Option, none, some, ◌==◌, ltb,
  leb, if◌then◌else◌,
}
use order_matching_engine_ru.Prelude.Int.{pos, leb_ℤ}
use order_matching_engine_ru.Core.Types.{
  Price, Side, buy, sell, opposite, OrderType, limit, NewOrder, Command, Sequenced, OutputEvent,
  accepted, rejected, trade, filled, partially_filled, cancelled, replaced, zero_qty, duplicate_id,
  bad_price, fok_unfillable, unknown_id, has_limit_price, is_fok, is_stop,
}
use order_matching_engine_ru.Core.Types
use order_matching_engine_ru.Core.Book.{before, choose}
use order_matching_engine_ru.Core.Matcher.{is_limit}
use order_matching_engine_ru.Core.Matcher.Loop.{Events, crosses, beyond}
use order_matching_engine_ru.Core.Matcher.Immediate.{ending}
use order_matching_engine_ru.Core.Matcher.Resting.{part_event}

pub record Offer : Type 0 where
  pub id : ℕ
  pub price : Price
  pub qty : ℕ

-- A new order, as far as it matters for the match.
pub record Request : Type 0 where
  pub id : ℕ
  pub side : Side
  pub kind : OrderType
  pub price : Price
  pub qty : ℕ

-- The offers of the side of a command, those of the other side, and what is said.
pub record Turn : Type 0 where
  pub own : List Offer
  pub other : List Offer
  pub events : Events

pub record Filling : Type 0 where
  pub rest : ℕ
  pub left : List Offer
  pub events : Events

unfoldable pub is_offered : ℕ → List Offer → Bool
is_offered id [] = false
is_offered id (o ∷ os) = (o.id == id) || is_offered id os

-- The offers without the one of an id.
unfoldable pub withdraw : ℕ → List Offer → List Offer
withdraw id [] = []
withdraw id (o ∷ os) = if o.id == id then os else o ∷ withdraw id os

-- An offer takes its place behind all that are not worse.
unfoldable pub place : Side → Offer → List Offer → List Offer
place side o [] = o ∷ []
place side o (x ∷ os) = if before side o.price x.price then o ∷ x ∷ os else x ∷ place side o os

-- What there is at a limit or better.
unfoldable pub liquidity : Side → Price → List Offer → ℕ
liquidity side bound [] = 0
liquidity side bound (o ∷ os) =
    if beyond side bound o.price then 0 else o.qty + liquidity side bound os

-- The taker trades with the offers that it crosses, one after the other, as long as it has something
-- left. An offer that has more than the taker wants keeps its place.
module _ (crossing : Price → Bool) (side : Side) (taker seq ts : ℕ) where
  abbrev pub traded : Offer → ℕ → OutputEvent
  traded o n = trade seq taker o.id o.price n side ts

  unfoldable pub fill : ℕ → List Offer → Filling
  fill r [] = record { rest = r; left = []; events = [] }
  fill r (o ∷ os) =
      let more = fill (r - o.qty) os in
      if r == 0
      then record { rest = r; left = o ∷ os; events = [] }
      else if crossing o.price
      then (if leb o.qty r
          then record more { events = traded o o.qty ∷ filled o.id seq ∷ more.events }
          else record {
            rest = 0;
            left = record o { qty = o.qty - r } ∷ os;
            events = traded o r ∷ partially_filled o.id r (o.qty - r) seq ∷ [];
          })
      else record { rest = r; left = o ∷ os; events = [] }

-- What becomes of an order that is let through, when the other side's offers are filled.
unfoldable pub settled : Request → ℕ → List Offer → Filling → Turn
unfolding place is_limit
settled n seq own f =
    let said = accepted n.id seq ∷ [] ++ f.events in
    let rests = is_limit n.kind && not_zero f.rest in
    record {
      own =
          if rests
          then place n.side (record { id = n.id; price = n.price; qty = f.rest }) own
          else own;
      other = f.left;
      events =
          if rests
          then said ++ part_event n.id seq (n.qty - f.rest) f.rest
          else said ++ ending n.id seq (n.qty - f.rest) f.rest;
    }
  where
    not_zero : ℕ → Bool
    not_zero r = if r == 0 then false else true

-- A new order, on its own side and the other.
unfoldable pub submitted : Request → ℕ → ℕ → List Offer → List Offer → Turn
unfolding is_offered liquidity fill settled has_limit_price is_fok crosses
submitted n seq ts own other =
    if n.qty == 0
    then refused zero_qty
    else if is_offered n.id own || is_offered n.id other
    then refused duplicate_id
    else if has_limit_price n.kind && leb_ℤ n.price (pos 0)
    then refused bad_price
    else if is_fok n.kind && ltb (liquidity n.side n.price other) n.qty
    then record {
      own = own;
      other = other;
      events = accepted n.id seq ∷ rejected n.id fok_unfillable seq ∷ [];
    }
    else settled n seq own (fill (crosses n.side n.kind n.price) n.side n.id seq ts n.qty other)
  where
    refused : Types.RejectReason → Turn
    refused reason = record { own = own; other = other; events = rejected n.id reason seq ∷ [] }

abbrev pub request : NewOrder → Request
request n = record { id = n.id; side = n.side; kind = n.kind; price = n.price; qty = n.qty }

pub record Market : Type 0 where
  pub bids : List Offer
  pub asks : List Offer

abbrev pub offers_of : Side → Market → List Offer
offers_of side m = choose side m.bids m.asks

-- The market behind a step of a command on the given side.
abbrev pub seen_from : Side → Turn → Market
seen_from side t = record { bids = choose side t.own t.other; asks = choose side t.other t.own }

-- The side that an id is offered on.
unfoldable pub side_of : ℕ → Market → Option Side
unfolding is_offered
side_of id m =
    if is_offered id m.bids then some buy else if is_offered id m.asks then some sell else none

abbrev pub stepped : Side → Turn → Market × Events
stepped side t = (seen_from side t, t.events)

unfoldable pub cancelled_by : ℕ → ℕ → Market → Market × Events
unfolding side_of withdraw
cancelled_by id seq m = elim (side_of id m) [
  | none ↦ (m, rejected id unknown_id seq ∷ [])
  | some side ↦ stepped side (record {
    own = withdraw id (offers_of side m);
    other = offers_of (opposite side) m;
    events = cancelled id seq ∷ [];
  })
]

-- A replacement gives up its place and is submitted as a new limit order.
unfoldable pub replaced_by : ℕ → Price → ℕ → ℕ → ℕ → Market → Market × Events
unfolding side_of withdraw submitted opposite
replaced_by id price qty seq ts m =
    if qty == 0 then (m, rejected id zero_qty seq ∷ []) else elim (side_of id m) [
      | none ↦ (m, rejected id unknown_id seq ∷ [])
      | some side ↦
          let t =
            submitted (record { id = id; side = side; kind = limit; price = price; qty = qty }) seq
              ts (withdraw id (offers_of side m)) (offers_of (opposite side) m) in
          (seen_from side t, replaced id seq ∷ t.events)
    ]

-- One command.
unfoldable pub exchange : Sequenced → Market → Market × Events
unfolding submitted cancelled_by replaced_by opposite
exchange c m = act c.cmd
  where
    act : Command → Market × Events
    act (Command.new n) =
        stepped n.side
          (submitted (request n) c.seq c.ts (offers_of n.side m) (offers_of (opposite n.side) m))
    act (Command.cancel id _) = cancelled_by id c.seq m
    act (Command.replace id price qty _) = replaced_by id price qty c.seq c.ts m

-- Commands one after the other, with all that is said.
unfoldable pub exchange_all : List Sequenced → Market → Market × Events
unfolding exchange
exchange_all [] m = (m, [])
exchange_all (c ∷ cs) m =
    let (m', es) = exchange c m in let (m'', more) = exchange_all cs m' in (m'', es ++ more)

abbrev pub empty_market : Market
empty_market = record { bids = []; asks = [] }

-- What a command can add to the book.
abbrev pub qty_of : Command → ℕ
qty_of (Command.new n) = n.qty
qty_of (Command.cancel _ _) = 0
qty_of (Command.replace _ _ qty _) = qty

abbrev pub qty_of_all : List Sequenced → ℕ
qty_of_all [] = 0
qty_of_all (c ∷ cs) = qty_of c.cmd + qty_of_all cs

-- Whether a command submits a stop order.
unfoldable pub submits_stop : Command → Bool
unfolding is_stop
submits_stop (Command.new n) = is_stop n.kind
submits_stop _ = false
