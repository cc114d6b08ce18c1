-- ===== src/Ledger/Positions.antt =====
-- `PositionLedger` of asset_management/ledger/positions.py: its tables, `record_opening` and
-- `reserve_sell`. Quantities and prices are counted in smallest units. The texts of the opening's
-- quantity and cost keep their places, since the tax lot stores them.
use toss_trading_core.Prelude.{
  Bool, Datetime, List, Option, Result, [], aware, err, false, if◌then◌else◌, is_some, naive, none,
  ok, require, some, true, ℕ, ◌&&◌, ◌==◌, ◌>>=◌, ◌>>◌, ◌||◌, ◌∷◌,
}
use toss_trading_core.Ledger.{
  Evidence, LedgerError, amount_negative, evidence_missing, finite_decimal, instant_of, integrity,
  invalid_decimal, not_negative, opening_position_unknown, quantity_negative,
  time_or_policy_missing,
}
use toss_trading_core.Ledger.Cash.{is_given, proven_by}
use toss_trading_core.Ledger.CashOrders.{reserve_checked, status_of}
use toss_trading_core.Ledger.Reservations.{Reservation, ReservationRow, reserve}
use toss_trading_core.Lots.{Amount, Given, LotRow, Tables, below_zero, exactly, invalid}
use toss_trading_core.Prelude.Int.{ℤ}

-- A row of `am_position_opening_balance`.
pub record PositionOpening : Type 0 where
  pub position_opening_id : ℕ
  pub account_id : ℕ
  pub instrument_id : ℕ
  pub native_currency : ℕ
  pub as_of_utc : ℕ
  pub quantity : ℕ
  pub average_cost : ℕ

-- A row of `am_position_ledger`.
pub record PositionRow : Type 0 where
  pub position_event_id : ℕ
  pub account_id : ℕ
  pub instrument_id : ℕ
  pub quantity_delta : ℤ
  pub created_at_utc : ℕ

-- A row of `am_position_event_settlement`.
pub record SettlementRow : Type 0 where
  pub position_event_id : ℕ
  pub settlement_date : Option ℕ

pub record PositionTables : Type 0 where
  pub position_openings : List PositionOpening
  pub position_rows : List PositionRow
  pub settlements : List SettlementRow
  pub sell_reservations : List ReservationRow
  pub lot_tables : Tables

unfoldable pub find_position : ℕ → ℕ → List PositionOpening → Option PositionOpening
find_position account instrument [] = none
find_position account instrument (o ∷ rows) =
    let rest = find_position account instrument rows in
    if o.account_id == account && o.instrument_id == instrument then some o else rest

abbrev pub has_lot : ℕ → List LotRow → Bool
has_lot id [] = false
has_lot id (r ∷ rows) = r.lot_id == id || has_lot id rows

-- A given decimal that is finite and not below zero.
abbrev pub given_amount : Given → Result LedgerError Given
given_amount invalid = err invalid_decimal
given_amount below_zero = ok below_zero
given_amount (exactly a) = ok (exactly a)

abbrev pub both_amounts : Given → Given → Result LedgerError (Amount × Amount)
both_amounts invalid b = err invalid_decimal
both_amounts below_zero b = err quantity_negative
both_amounts (exactly q) invalid = err invalid_decimal
both_amounts (exactly q) below_zero = err quantity_negative
both_amounts (exactly q) (exactly c) = ok (q, c)

-- The arguments of `record_opening`; `local_day` is the day of `as_of_utc` in its own time zone.
pub record PositionOpeningRequest : Type 0 where
  pub account_id : ℕ
  pub instrument_id : ℕ
  pub native_currency : ℕ
  pub as_of_utc : Datetime
  pub local_day : ℕ
  pub quantity : Given
  pub average_cost : Given
  pub evidence : Option ℕ
  pub approved_by : Option ℕ
  pub tax_policy_version : ℕ

abbrev pub instant_with_policy : Datetime → ℕ → Result LedgerError ℕ
instant_with_policy naive policy = err time_or_policy_missing
instant_with_policy (aware t) policy = if policy == 0 then err time_or_policy_missing else ok t

-- The checks of `record_opening`: the time, the quantity and the cost.
unfoldable pub check_position :
    Evidence → PositionOpeningRequest → Result LedgerError (ℕ × (Amount × Amount))
check_position known a = do
  require (is_given a.evidence && is_given a.approved_by) opening_position_unknown
  require (proven_by known a.evidence) evidence_missing
  t ← instant_with_policy a.as_of_utc a.tax_policy_version
  q ← given_amount a.quantity
  c ← given_amount a.average_cost
  v ← both_amounts q c
  ok (t, v)

-- The opening's tax lot, without an execution delta (0 stands for NULL). The policy version that it
-- stores is read by no query.
abbrev pub opening_lot : (ℕ → ℕ) → ℕ → PositionOpeningRequest → ℕ → Amount → Amount → LotRow
opening_lot lot_name fresh a at q c = record {
  lot_id = lot_name fresh;
  execution_delta_id = 0;
  account_id = a.account_id;
  instrument_id = a.instrument_id;
  acquisition_date = a.local_day;
  settlement_date = some a.local_day;
  quantity = q;
  price = c;
  commission = record { value = 0; places = 0 };
  currency = a.native_currency;
  fx_rate = record { value = 1; places = 0 };
  observed_at_utc = at;
}

abbrev pub with_position :
    (ℕ → ℕ) → ℕ → PositionOpeningRequest → ℕ → Amount → Amount → PositionTables → PositionTables
with_position lot_name fresh a at q c t = record t {
  position_openings =
      record {
        position_opening_id = fresh;
        account_id = a.account_id;
        instrument_id = a.instrument_id;
        native_currency = a.native_currency;
        as_of_utc = at;
        quantity = q.value;
        average_cost = c.value;
      }
      ∷ t.position_openings;
  lot_tables = record t.lot_tables {
    lots = opening_lot lot_name fresh a at q c ∷ t.lot_tables.lots;
  };
}

abbrev pub insert_position :
    (ℕ → ℕ)
    → ℕ
    → PositionOpeningRequest
    → Result LedgerError (ℕ × (Amount × Amount))
    → PositionTables
    → Result LedgerError ℕ × PositionTables
insert_position lot_name fresh a (err e) t = (err e, t)
insert_position lot_name fresh a (ok (at, (q, c))) t =
    if is_some (find_position a.account_id a.instrument_id t.position_openings)
      || has_lot (lot_name fresh) t.lot_tables.lots
    then (err integrity, t)
    else (ok fresh, with_position lot_name fresh a at q c t)

-- `record_opening`; `lot_name` stands for the text of the opening's lot.
unfoldable pub record_position_opening :
    (ℕ → ℕ)
    → ℕ
    → Evidence
    → PositionOpeningRequest
    → PositionTables
    → Result LedgerError ℕ × PositionTables
unfolding check_position find_position
record_position_opening lot_name fresh known a t =
    insert_position lot_name fresh a (check_position known a) t

abbrev pub unless_released : Bool → ℕ → ℕ
unless_released true n = 0
unless_released false n = n

-- What `reserve_sell` asks the table for.
unfoldable pub sell_reservation :
    ℕ → ℕ → ℕ → Option ℤ → ℕ → Datetime → Bool → Result LedgerError Reservation
sell_reservation order account instrument quantity source observed released = do
  t ← instant_of observed
  x ← finite_decimal quantity
  n ← not_negative x amount_negative
  ok (record {
    broker_order_id = order;
    account_id = account;
    subject = instrument;
    amount = unless_released released n;
    status = status_of released;
    source_response_id = source;
    observed_at_utc = t;
  })

-- `reserve_sell`
unfoldable pub reserve_sell :
    ℕ
    → Evidence
    → ℕ
    → ℕ
    → ℕ
    → Option ℤ
    → ℕ
    → Datetime
    → Bool
    → PositionTables
    → Result LedgerError ℕ × PositionTables
unfolding sell_reservation reserve
reserve_sell fresh known order account instrument quantity source observed released t =
    let (r, rows) =
      reserve_checked fresh known
        (sell_reservation order account instrument quantity source observed released)
        t.sell_reservations in
    (r, record t { sell_reservations = rows })
