-- ===== src/Paper.antt =====
-- `PersistentPaperBroker` of asset_management/execution/paper.py: its stored state and its calls.
-- Quantities and prices are counted in their smallest units, cash and fees in the product of the
-- two, so that a quantity times a price is an amount. Names are numbers, 0 for a blank one. The
-- stored text of a request or of a fill is a number too: the code compares the whole text.
pub mod Calls
pub mod Reserve
pub mod Sound
mod Filled
pub mod Keeps
pub mod Entries
pub mod Runs
pub mod Effects
pub mod Initialize
mod Tests
use toss_trading_core.Prelude.{
  Bool, Option, Result, [], err, false, if◌then◌else◌, none, ok, some, true, ℕ, ◌&&◌, ◌==◌, ◌||◌,
  ◌∷◌,
}
use toss_trading_core.Prelude.Dict.{Dict, get}
use toss_trading_core.Prelude.Int.{negsuc, pos, ℤ, ◌*ℤ◌, ◌+ℤ◌, ◌-ℤ◌}

-- A value given as a decimal: no finite decimal, or an amount of units.
pub data Given : Type 0 where
  invalid : Given
  units : ℤ → Given

pub data PaperError : Type 0 where
  invalid_decimal uninitialized order_identity ownership_or_side unsupported_order_type : PaperError
  notional_conflict currency_conflict idempotency_conflict insufficient_cash : PaperError
  insufficient_position key_mismatch order_not_found cancel_identity_conflict : PaperError
  fill_id_required fill_conflict order_not_open limit_or_quantity fee_exceeds_reserve : PaperError
  currency_required invalid_positions initialization_conflict : PaperError

-- `_number`: finite and not negative, and not zero where it must be positive.
unfoldable pub number : Bool → Given → Result PaperError ℕ
number positive invalid = err invalid_decimal
number positive (units (negsuc n)) = err invalid_decimal
number positive (units (pos n)) = if positive && n == 0 then err invalid_decimal else ok n

pub data Side : Type 0 where
  buy sell : Side

-- The statuses of a paper order.
pub data Status : Type 0 where
  open_order partially_filled filled canceled : Status

-- What the code keeps of a request.
pub record Request : Type 0 where
  pub body : ℕ
  pub client_order_id : ℕ
  pub order_intent_id : ℕ
  pub instrument_id : ℕ
  pub side : Side
  pub quantity : ℕ
  pub limit_price : ℕ

pub record Order : Type 0 where
  pub client_order_id : ℕ
  pub broker_order_id : ℕ
  pub status : Status
  pub filled_quantity : ℕ
  pub remaining_fee : ℕ
  pub request : Request

pub record Fill : Type 0 where
  pub body : ℕ
  pub fill_id : ℕ
  pub client_order_id : ℕ
  pub quantity : ℕ
  pub price : ℕ
  pub fee : ℕ

-- The JSON state of one account; `initial` stands for the text that `initialize` compares.
pub record Account : Type 0 where
  pub initial : ℕ
  pub currency : ℕ
  pub cash : ℤ
  pub positions : Dict ℤ
  pub orders : Dict Order
  pub fills : Dict Fill

unfoldable pub is_open : Status → Bool
is_open open_order = true
is_open partially_filled = true
is_open filled = false
is_open canceled = false

abbrev pub remaining : Order → ℤ
remaining o = pos o.request.quantity -ℤ pos o.filled_quantity

abbrev pub cash_of_side : Side → Order → ℤ
cash_of_side buy o = remaining o *ℤ pos o.request.limit_price +ℤ pos o.remaining_fee
cash_of_side sell o = pos o.remaining_fee

abbrev pub position_of_side : Side → Order → ℤ
position_of_side buy o = pos 0
position_of_side sell o = remaining o

-- What one order reserves of the cash, and of an instrument's position.
unfoldable pub order_cash : Order → ℤ
unfolding is_open
order_cash o = if is_open o.status then cash_of_side o.request.side o else pos 0

unfoldable pub order_position : ℕ → Order → ℤ
unfolding is_open
order_position instrument o =
    if is_open o.status && o.request.instrument_id == instrument
    then position_of_side o.request.side o
    else pos 0

-- `_reserved`: its cash, and its position of one instrument (0 for an absent key).
unfoldable pub reserved_cash : Dict Order → ℤ
reserved_cash [] = pos 0
reserved_cash ((k, o) ∷ orders) = order_cash o +ℤ reserved_cash orders

unfoldable pub reserved_position : ℕ → Dict Order → ℤ
reserved_position instrument [] = pos 0
reserved_position instrument ((k, o) ∷ orders) =
    order_position instrument o +ℤ reserved_position instrument orders

-- state['positions'].get(instrument, '0')
abbrev pub or_zero : Option ℤ → ℤ
or_zero none = pos 0
or_zero (some v) = v

unfoldable pub position : ℕ → Account → ℤ
position instrument a = or_zero (get instrument a.positions)

-- The first order with this client id or this intent, in the order of the dict.
unfoldable pub find_existing : Request → Dict Order → Option Order
find_existing r [] = none
find_existing r ((k, o) ∷ orders) =
    let rest = find_existing r orders in
    if o.client_order_id == r.client_order_id || o.request.order_intent_id == r.order_intent_id
    then some o
    else rest

-- The arguments of a call, before any check.
pub record RawRequest : Type 0 where
  pub body : ℕ
  pub client_order_id : ℕ
  pub order_intent_id : ℕ
  pub instrument_id : ℕ
  pub account : ℕ
  pub side : Option Side
  pub quantity : Given
  pub limit_price : Given
  pub expected_fee : Given
  pub limit_type : Bool
  pub notional_amount : Option Given
  pub currency : Option ℕ

-- A request that has passed the checks made before the state is read, with its fee.
pub record Checked : Type 0 where
  pub request : Request
  pub fee : ℕ
  pub currency : Option ℕ

abbrev pub notional_agrees : Option Given → ℕ → Result PaperError (Unit {0})
notional_agrees none amount = ok tt
notional_agrees (some v) amount = elim (number false v) [
  | err e ↦ err e
  | ok n ↦ if n == amount then ok tt else err notional_conflict
]

abbrev pub known_side : Option Side → Result PaperError Side
known_side none = err ownership_or_side
known_side (some s) = ok s
