-- ===== src/Ledger/CashOrders.antt =====
-- `OpenBuyOrder` and `reserve_open_order` of asset_management/ledger/cash.py. Money is counted in
-- units that a unit of a price makes with a unit of a quantity.
use toss_trading_core.Prelude.{
  Bool, Datetime, List, Option, Result, err, false, none, ok, some, true, ℕ, ◌+◌, ◌>>=◌,
}
use toss_trading_core.Ledger.{
  Evidence, LedgerError, amount_negative, finite_decimal, instant_of, not_negative,
  price_or_amount_unknown,
}
use toss_trading_core.Ledger.Cash.{CashTables}
use toss_trading_core.Ledger.Reservations.{
  Reservation, ReservationRow, ReservationStatus, released_status, reserve, reserved_status,
}
use toss_trading_core.Prelude.Int.{ℤ, ◌*ℤ◌}

-- `OpenBuyOrder`, with decimals that are given and finite or not.
pub record OpenBuyOrder : Type 0 where
  pub broker_order_id : ℕ
  pub account_id : ℕ
  pub currency : ℕ
  pub remaining_quantity : Option (Option ℤ)
  pub limit_price : Option (Option ℤ)
  pub remaining_amount : Option (Option ℤ)
  pub expected_fees : Option ℤ

abbrev pub principal_of : OpenBuyOrder → Result LedgerError ℤ
principal_of order = elim order.remaining_amount [
  | some x ↦ finite_decimal x
  | none ↦ elim order.remaining_quantity [
    | none ↦ err price_or_amount_unknown
    | some q ↦ elim order.limit_price [
      | none ↦ err price_or_amount_unknown
      | some p ↦ (do x ← finite_decimal q; y ← finite_decimal p; ok (x *ℤ y))
    ]
  ]
]

-- `OpenBuyOrder.reserve`
unfoldable pub reserve_of : OpenBuyOrder → Result LedgerError ℕ
reserve_of order = do
  f ← finite_decimal order.expected_fees
  fees ← not_negative f amount_negative
  p ← principal_of order
  principal ← not_negative p amount_negative
  ok (principal + fees)

abbrev pub reserved_amount : Bool → OpenBuyOrder → Result LedgerError ℕ
reserved_amount true order = ok 0
reserved_amount false order = reserve_of order

abbrev pub status_of : Bool → ReservationStatus
status_of true = released_status
status_of false = reserved_status

-- What `reserve_open_order` asks the table for.
unfoldable pub cash_reservation :
    OpenBuyOrder → ℕ → Datetime → Bool → Result LedgerError Reservation
unfolding reserve_of
cash_reservation order source observed released = do
  t ← instant_of observed
  n ← reserved_amount released order
  ok (record {
    broker_order_id = order.broker_order_id;
    account_id = order.account_id;
    subject = order.currency;
    amount = n;
    status = status_of released;
    source_response_id = source;
    observed_at_utc = t;
  })

abbrev pub reserve_checked :
    ℕ
    → Evidence
    → Result LedgerError Reservation
    → List ReservationRow
    → Result LedgerError ℕ × List ReservationRow
reserve_checked fresh known (err e) rows = (err e, rows)
reserve_checked fresh known (ok q) rows = reserve fresh q known rows

-- `reserve_open_order`
unfoldable pub reserve_open_order :
    ℕ
    → Evidence
    → OpenBuyOrder
    → ℕ
    → Datetime
    → Bool
    → CashTables
    → Result LedgerError ℕ × CashTables
unfolding cash_reservation reserve
reserve_open_order fresh known order source observed released t =
    let (r, rows) =
      reserve_checked fresh known (cash_reservation order source observed released)
        t.reservations in
    (r, record t { reservations = rows })
