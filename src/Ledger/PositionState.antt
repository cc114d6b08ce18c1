-- ===== src/Ledger/PositionState.antt =====
-- `state` of `PositionLedger` of asset_management/ledger/positions.py. Every tax lot and disposal has
-- its timing here, so the test for a missing one does not occur. The average cost is an exact
-- fraction.
use toss_trading_core.Prelude.{
  Bool, Datetime, List, Option, Result, [], aware, err, if◌then◌else◌, leb, ltb, none, not, ok,
  require, some, true, ℕ, ◌&&◌, ◌*◌, ◌+◌, ◌==◌, ◌>>=◌, ◌>>◌, ◌||◌, ◌∷◌,
}
use toss_trading_core.Ledger.{
  BrokerConstraint, Evidence, LedgerError, check_constraint, currency_conflict, day_of, in_span,
  instant_of, not_negative, opening_position_unknown, quantity_negative, reserved_exceeds_settled,
  settlement_missing, time_or_policy_missing,
}
use toss_trading_core.Ledger.CashState.{cap_by, window_of}
use toss_trading_core.Ledger.Positions.{
  PositionOpening, PositionRow, PositionTables, SettlementRow, find_position,
}
use toss_trading_core.Ledger.Reservations.{Window, reserved_total}
use toss_trading_core.Lots.{LotError, Tables, TaxLot, lots_of}
use toss_trading_core.Lots.Dispose.{available}
use toss_trading_core.Prelude.Dict.{total}
use toss_trading_core.Prelude.Int.{ltb_ℤ, pos, pos_part, ℤ, ◌+ℤ◌, ◌-ℤ◌}
use toss_trading_core.Prelude.Sorted.{select_by}

-- ORDER BY created_at_utc, position_event_id
abbrev pub moves_first : PositionRow → PositionRow → Bool
moves_first r s =
    ltb r.created_at_utc s.created_at_utc
    || (r.created_at_utc == s.created_at_utc && leb r.position_event_id s.position_event_id)

abbrev pub selects_move : Window → PositionRow → Bool
selects_move w r =
    r.account_id == w.account_id
    && r.instrument_id == w.subject
    && in_span w.from_utc w.to_utc r.created_at_utc

-- The events of the window, in order.
unfoldable pub select_moves : Window → List PositionRow → List PositionRow
unfolding select_by
select_moves w rows = select_by moves_first (selects_move w) rows

unfoldable pub find_settlement : ℕ → List SettlementRow → Option SettlementRow
find_settlement id [] = none
find_settlement id (s ∷ rows) =
    let rest = find_settlement id rows in if s.position_event_id == id then some s else rest

-- Whether an event has settled by the day; no day counts as settled.
abbrev pub has_settled : ℕ → SettlementRow → Bool
has_settled day s = elim s.settlement_date [ none ↦ true | some d ↦ leb d day ]

-- The total and the settled quantity after one event, with its settlement.
abbrev pub move : ℕ → ℤ → Option SettlementRow → ℤ × ℤ → Result LedgerError (ℤ × ℤ)
move day x none (total, settled) = err settlement_missing
move day x (some s) (total, settled) =
    if ltb_ℤ (total +ℤ x) (pos 0)
    then err quantity_negative
    else ok (total +ℤ x, if has_settled day s then settled +ℤ x else settled)

unfoldable pub replay_moves :
    List SettlementRow → ℕ → List PositionRow → ℤ × ℤ → Result LedgerError (ℤ × ℤ)
unfolding find_settlement
replay_moves settlements day [] q = ok q
replay_moves settlements day (r ∷ rows) q =
    move day r.quantity_delta (find_settlement r.position_event_id settlements) q
    >>= replay_moves settlements day rows

-- The sum of what remains of the lots.
unfoldable pub lots_remaining : List TaxLot → ℕ
lots_remaining [] = 0
lots_remaining (l ∷ lots) = pos_part l.remaining_quantity + lots_remaining lots

-- The cost of what remains, with the commission in proportion: a numerator and a denominator.
unfoldable pub lots_cost : List TaxLot → ℕ × ℕ
lots_cost [] = (0, 1)
lots_cost (l ∷ lots) =
    let (n, d) = lots_cost lots in
    if pos_part l.remaining_quantity == 0 then (n, d) else (
      pos_part l.remaining_quantity
            * (l.row.price.value * l.row.quantity.value + l.row.commission.value)
            * d
          + n * l.row.quantity.value,
      d * l.row.quantity.value,
    )

abbrev pub average_of : List TaxLot → ℕ × ℕ
average_of lots =
    let (n, d) = lots_cost lots in
    let q = lots_remaining lots in if q == 0 then (0, 1) else (n, d * q)

unfoldable pub all_in : ℕ → List TaxLot → Bool
all_in currency [] = true
all_in currency (l ∷ lots) = l.row.currency == currency && all_in currency lots

-- `PositionState`
pub record PositionState : Type 0 where
  pub account_id : ℕ
  pub instrument_id : ℕ
  pub native_currency : ℕ
  pub quantity : ℤ
  pub average_cost : ℕ × ℕ
  pub settled_quantity : ℤ
  pub unsettled_quantity : ℤ
  pub reserved_sell_quantity : ℕ
  pub available_to_sell : ℕ

abbrev pub read_lots : Result LotError (List TaxLot) → Result LedgerError (List TaxLot)
read_lots (err e) = err time_or_policy_missing
read_lots (ok lots) = ok lots

abbrev pub position_by : ℕ → Option PositionOpening → Result LedgerError PositionOpening
position_by as_of none = err opening_position_unknown
position_by as_of (some o) = if ltb as_of o.as_of_utc then err opening_position_unknown else ok o

-- What follows the sums: no negative quantity, nothing reserved that is not settled, the broker's
-- constraint, and the lots.
unfoldable pub finish_position :
    Evidence
    → ℕ
    → Option BrokerConstraint
    → Tables
    → PositionOpening
    → ℕ
    → ℤ × ℤ
    → Result LedgerError PositionState
unfolding check_constraint lots_of lots_remaining lots_cost all_in
finish_position known as_of constraint lots o reserved (total, settled) = do
  require (not (ltb_ℤ total (pos 0) || ltb_ℤ settled (pos 0))) quantity_negative
  available ← not_negative (settled -ℤ pos reserved) reserved_exceeds_settled
  limit ← check_constraint known as_of constraint
  held ← read_lots (lots_of o.account_id o.instrument_id (some (aware as_of)) lots)
  require (all_in o.native_currency held) currency_conflict
  ok (record {
    account_id = o.account_id;
    instrument_id = o.instrument_id;
    native_currency = o.native_currency;
    quantity = total;
    average_cost = average_of held;
    settled_quantity = settled;
    unsettled_quantity = total -ℤ settled;
    reserved_sell_quantity = reserved;
    available_to_sell = cap_by available limit;
  })

-- The state from the opening on, whose account and instrument are those asked for.
unfoldable pub position_from :
    Evidence
    → ℕ
    → Option BrokerConstraint
    → PositionTables
    → PositionOpening
    → Result LedgerError PositionState
unfolding select_moves replay_moves reserved_total finish_position
position_from known as_of constraint t o =
    let w = window_of o.account_id o.instrument_id o.as_of_utc as_of in
    replay_moves t.settlements (day_of as_of) (select_moves w t.position_rows)
      (pos o.quantity, pos o.quantity)
    >>= finish_position known as_of constraint t.lot_tables o (reserved_total w t.sell_reservations)

-- `state`
unfoldable pub position_state :
    Evidence
    → ℕ
    → ℕ
    → Datetime
    → Option BrokerConstraint
    → PositionTables
    → Result LedgerError PositionState
unfolding find_position position_from
position_state known account instrument as_of constraint t = instant_of as_of >>= λ at.
    position_by at (find_position account instrument t.position_openings)
    >>= position_from known at constraint t
