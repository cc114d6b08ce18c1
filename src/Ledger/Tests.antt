-- ===== src/Ledger/Tests.antt =====
-- Runs of the cash and position ledgers, and each theorem at an input that meets its hypotheses.
use toss_trading_core.Prelude.{List, [], arith, aware, none, ok, refl, some, ℕ, ◌*◌, ◌+◌, ◌∷◌, ◌≡◌}
use toss_trading_core.Ledger.{BrokerConstraint, Evidence}
use toss_trading_core.Ledger.Balance.{IsBalanced, cash_state-IsBalanced}
use toss_trading_core.Ledger.Cash.{CashOpening, CashTables, manual_adjustment, trade_proceeds}
use toss_trading_core.Ledger.CashEvents.{
  CashEvent, append_cash_event, cash_row, check_event, find_cash_event, find_key,
}
use toss_trading_core.Ledger.CashState.{CashState, cash_state, is_authorized, window_of}
use toss_trading_core.Ledger.Holdings.{IsHeld, position_state-IsHeld}
use toss_trading_core.Ledger.PointInTime.{append_cash_event-late}
use toss_trading_core.Ledger.PositionState.{PositionState, position_state}
use toss_trading_core.Ledger.Positions.{PositionOpening, PositionTables}
use toss_trading_core.Ledger.Repeats.{append_cash_event_again}
use toss_trading_core.Ledger.Replaced.{held_for, reserve-Replaced}
use toss_trading_core.Ledger.Reservations.{
  Reservation, ReservationRow, Window, find_reservation, reserve, reserved_status, reserved_total,
}
use toss_trading_core.Ledger.Reserved.{IsSequenced, reserve-IsSequenced}
use toss_trading_core.Ledger.Signed.{IsSoundCash, append_cash_event-IsSoundCash}
use toss_trading_core.Lots.{LotRow}
use toss_trading_core.Prelude.Int.{negsuc, pos, ◌+ℤ◌, ◌-ℤ◌}

abbrev known_ids : Evidence
known_ids = record {
  raw_responses = 7 ∷ 8 ∷ 9 ∷ [];
  dataset_manifests = [];
  broker_orders = 21 ∷ 22 ∷ [];
}

abbrev day : ℕ → ℕ
day n = n * 86400000000

-- An opening of 1000 on day 10.
abbrev opened_cash : CashTables
opened_cash = record {
  openings =
      record { account_id = 1; currency = 2; as_of_utc = day 10; opening_balance = 1000 } ∷ [];
  ledger = [];
  metadata = [];
  authorizations = [];
  reservations = [];
}

-- A sale on day 11 whose proceeds add_settled on day 13.
abbrev proceeds : CashEvent
proceeds = record {
  account_id = 1;
  currency = 2;
  amount = some (pos 250);
  event_type = trade_proceeds;
  created_at_utc = aware (day 11);
  idempotency_key = 51;
  settlement_date = some 13;
  reason = none;
  approved_by = none;
}

-- An approved adjustment on day 12.
abbrev adjustment : CashEvent
adjustment = record {
  account_id = 1;
  currency = 2;
  amount = some (negsuc 99);
  event_type = manual_adjustment;
  created_at_utc = aware (day 12);
  idempotency_key = 52;
  settlement_date = none;
  reason = some 3;
  approved_by = some 4;
}

abbrev reservation : ℕ → ℕ → ℕ → Reservation
reservation source n at = record {
  broker_order_id = 21;
  account_id = 1;
  subject = 2;
  amount = n;
  status = reserved_status;
  source_response_id = source;
  observed_at_utc = at;
}

abbrev one_reserved : List ReservationRow
one_reserved =
    record { reservation_event_id = 61; sequence_no = 1; body = reservation 7 300 (day 11) } ∷ []

abbrev booked : CashTables
booked = record {
  openings = opened_cash.openings;
  ledger =
      cash_row 32 adjustment (day 12) (negsuc 99) ∷ cash_row 31 proceeds (day 11) (pos 250) ∷ [];
  metadata =
      record { cash_event_id = 32; idempotency_key = 52; reason = some 3; approved_by = some 4 }
      ∷ record { cash_event_id = 31; idempotency_key = 51; reason = none; approved_by = none }
      ∷ [];
  authorizations = record { cash_event_id = 32; reason = some 3; approved_by = some 4 } ∷ [];
  reservations = one_reserved;
}

appends_two :
    append_cash_event 32 adjustment
      (record (append_cash_event 31 proceeds opened_cash).1 { reservations = one_reserved })
    ≡ (ok 32, booked)
unfolding append_cash_event check_event find_cash_event find_key
appends_two = refl

-- On day 12 the proceeds are still unsettled.
abbrev booked_state : CashState
booked_state = record {
  account_id = 1;
  currency = 2;
  as_of_utc = day 12;
  settled_cash = pos 900;
  unsettled_cash = pos 250;
  reserved_cash = 300;
  available_cash = 600;
  broker_buying_power_constraint = some 500;
  orderable_cash = 500;
}

abbrev broker_limit : BrokerConstraint
broker_limit = record {
  value = 500;
  observed_at_utc = day 12;
  valid_until_utc = day 13;
  source_response_id = 9;
}

booked_state-read :
    cash_state known_ids 1 2 (aware (day 12)) (some broker_limit) booked ≡ ok booked_state
unfolding cash_state ◌+ℤ◌ ◌-ℤ◌
booked_state-read = refl

cash_state-IsBalanced_example :
    (o : CashOpening) × IsBalanced known_ids 1 2 (day 12) (some broker_limit) booked o booked_state
cash_state-IsBalanced_example =
    cash_state-IsBalanced known_ids 1 2 (day 12) (some broker_limit) booked booked_state
      booked_state-read

-- Selling 4 of 10 shares on day 11, to add_settled on day 13, with a lot of the opening.
abbrev share_lot : LotRow
share_lot = record {
  lot_id = 71;
  execution_delta_id = 0;
  account_id = 1;
  instrument_id = 3;
  acquisition_date = 10;
  settlement_date = some 10;
  quantity = record { value = 10; places = 0 };
  price = record { value = 6; places = 0 };
  commission = record { value = 0; places = 0 };
  currency = 2;
  fx_rate = record { value = 1; places = 0 };
  observed_at_utc = day 10;
}

abbrev share_tables : PositionTables
share_tables = record {
  position_openings =
      record {
        position_opening_id = 70;
        account_id = 1;
        instrument_id = 3;
        native_currency = 2;
        as_of_utc = day 10;
        quantity = 10;
        average_cost = 6;
      }
      ∷ [];
  position_rows =
      record {
        position_event_id = 81;
        account_id = 1;
        instrument_id = 3;
        quantity_delta = negsuc 3;
        created_at_utc = day 11;
      }
      ∷ [];
  settlements = record { position_event_id = 81; settlement_date = some 13 } ∷ [];
  sell_reservations = [];
  lot_tables = record { lots = share_lot ∷ []; disposals = [] };
}

abbrev share_state : PositionState
share_state = record {
  account_id = 1;
  instrument_id = 3;
  native_currency = 2;
  quantity = pos 6;
  average_cost = (600, 100);
  settled_quantity = pos 10;
  unsettled_quantity = negsuc 3;
  reserved_sell_quantity = 0;
  available_to_sell = 10;
}

share_state-read : position_state known_ids 1 3 (aware (day 12)) none share_tables ≡ ok share_state
unfolding position_state ◌+ℤ◌ ◌-ℤ◌
share_state-read = refl

position_state-IsHeld_example : (o : PositionOpening) × IsHeld share_tables (day 12) o share_state
position_state-IsHeld_example =
    position_state-IsHeld known_ids 1 3 (day 12) none share_tables share_state share_state-read

append_cash_event-late_example :
    cash_state known_ids 1 2 (aware (day 11)) none (append_cash_event 32 adjustment booked).1
    ≡ cash_state known_ids 1 2 (aware (day 11)) none booked
append_cash_event-late_example =
    append_cash_event-late 32 adjustment (day 12) booked known_ids 1 2 (day 11) none refl
      (ground arith)

booked-IsSoundCash : IsSoundCash booked
unfolding is_authorized
booked-IsSoundCash =
    (record { signed = refl; authorized = refl }, (record { signed = refl; authorized = refl }, tt))

append_cash_event-IsSoundCash_example : IsSoundCash (append_cash_event 33 proceeds booked).1
append_cash_event-IsSoundCash_example =
    append_cash_event-IsSoundCash 33 proceeds booked booked-IsSoundCash

proceeds_stored : (append_cash_event 31 proceeds opened_cash).0 ≡ ok 31
unfolding append_cash_event
proceeds_stored = refl

append_cash_event_again_example :
    append_cash_event 33 proceeds (append_cash_event 31 proceeds opened_cash).1
    ≡ (ok 31, (append_cash_event 31 proceeds opened_cash).1)
append_cash_event_again_example =
    append_cash_event_again 31 33 proceeds opened_cash 31 proceeds_stored

one_reserved-IsSequenced : IsSequenced one_reserved
one_reserved-IsSequenced = (omega arith, tt, tt)

reserve-IsSequenced_example :
    IsSequenced (reserve 62 (reservation 8 120 (day 12)) known_ids one_reserved).1
reserve-IsSequenced_example =
    reserve-IsSequenced 62 (reservation 8 120 (day 12)) known_ids one_reserved
      one_reserved-IsSequenced

reserve_lowers : (reserve 62 (reservation 8 120 (day 12)) known_ids one_reserved).0 ≡ ok 62
unfolding reserve
reserve_lowers = refl

new_response : find_reservation 21 8 one_reserved ≡ none
unfolding find_reservation
new_response = refl

abbrev twelve : Window
twelve = window_of 1 2 (day 10) (day 12)

reserve-Replaced_example :
    reserved_total twelve (reserve 62 (reservation 8 120 (day 12)) known_ids one_reserved).1
      + held_for twelve 21 one_reserved one_reserved
    ≡ reserved_total twelve one_reserved + 120
reserve-Replaced_example =
    reserve-Replaced 62 (reservation 8 120 (day 12)) known_ids one_reserved twelve 62
      one_reserved-IsSequenced new_response reserve_lowers refl
