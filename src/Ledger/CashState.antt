-- ===== src/Ledger/CashState.antt =====
-- `state` of `CashLedger` of asset_management/ledger/cash.py.
use toss_trading_core.Prelude.{
  Bool, Datetime, List, Option, Result, [], err, false, if◌then◌else◌, leb, ltb, min, none, not, ok,
  option_eq, require, some, true, ℕ, ◌&&◌, ◌==◌, ◌>>=◌, ◌>>◌, ◌||◌, ◌∷◌,
}
use toss_trading_core.Ledger.{
  BrokerConstraint, Evidence, LedgerError, authorization_conflict, check_constraint, day_of,
  in_span, instant_of, not_negative, opening_unknown, reserved_exceeds_settled, settled_negative,
}
use toss_trading_core.Ledger.Cash.{
  AuthorizationRow, CashOpening, CashRow, CashTables, MetadataRow, find_opening, is_manual,
}
use toss_trading_core.Ledger.Reservations.{Window, reserved_total}
use toss_trading_core.Lots.Dispose.{available}
use toss_trading_core.Prelude.Int.{ltb_ℤ, pos, ℤ, ◌+ℤ◌, ◌-ℤ◌}
use toss_trading_core.Prelude.Sorted.{select_by}

-- ORDER BY created_at_utc, cash_event_id
abbrev pub happens_first : CashRow → CashRow → Bool
happens_first r s =
    ltb r.created_at_utc s.created_at_utc
    || (r.created_at_utc == s.created_at_utc && leb r.cash_event_id s.cash_event_id)

abbrev pub selects : Window → CashRow → Bool
selects w r =
    r.account_id == w.account_id
    && r.currency == w.subject
    && in_span w.from_utc w.to_utc r.created_at_utc

-- The events of the window, in order.
unfoldable pub select_events : Window → List CashRow → List CashRow
unfolding select_by
select_events w rows = select_by happens_first (selects w) rows

unfoldable pub find_metadata : ℕ → List MetadataRow → Option MetadataRow
find_metadata id [] = none
find_metadata id (m ∷ rows) =
    let rest = find_metadata id rows in if m.cash_event_id == id then some m else rest

unfoldable pub find_authorization : ℕ → List AuthorizationRow → Option AuthorizationRow
find_authorization id [] = none
find_authorization id (a ∷ rows) =
    let rest = find_authorization id rows in if a.cash_event_id == id then some a else rest

abbrev pub agree : Option AuthorizationRow → Option MetadataRow → Bool
agree none m = false
agree (some a) none = false
agree (some a) (some m) = option_eq a.reason m.reason && option_eq a.approved_by m.approved_by

-- A manual adjustment must have an authorization that its metadata repeat.
unfoldable pub is_authorized : CashTables → CashRow → Bool
unfolding find_metadata find_authorization
is_authorized t r =
    not (is_manual r.event_type)
    || agree (find_authorization r.cash_event_id t.authorizations)
        (find_metadata r.cash_event_id t.metadata)

-- Whether an event settles after the day.
abbrev pub is_pending : ℕ → CashRow → Bool
is_pending day r = elim r.settlement_date [ none ↦ false | some s ↦ ltb day s ]

abbrev pub add_settled : Bool → ℤ → ℤ × ℤ → Result LedgerError (ℤ × ℤ)
add_settled true x (settled, unsettled) = ok (settled, unsettled +ℤ x)
add_settled false x (settled, unsettled) =
    if ltb_ℤ (settled +ℤ x) (pos 0) then err settled_negative else ok (settled +ℤ x, unsettled)

-- Settled and unsettled cash after one event.
unfoldable pub replay_event : CashTables → ℕ → CashRow → ℤ × ℤ → Result LedgerError (ℤ × ℤ)
unfolding is_authorized
replay_event t day r s =
    require (is_authorized t r) authorization_conflict >> add_settled (is_pending day r) r.amount s

unfoldable pub replay_events : CashTables → ℕ → List CashRow → ℤ × ℤ → Result LedgerError (ℤ × ℤ)
unfolding replay_event
replay_events t day [] s = ok s
replay_events t day (r ∷ rows) s = replay_event t day r s >>= replay_events t day rows

-- `CashState`
pub record CashState : Type 0 where
  pub account_id : ℕ
  pub currency : ℕ
  pub as_of_utc : ℕ
  pub settled_cash : ℤ
  pub unsettled_cash : ℤ
  pub reserved_cash : ℕ
  pub available_cash : ℕ
  pub broker_buying_power_constraint : Option ℕ
  pub orderable_cash : ℕ

abbrev pub cap_by : ℕ → Option ℕ → ℕ
cap_by available none = available
cap_by available (some c) = min available c

-- The opening must be known by the time of the state.
unfoldable pub known_opening : ℕ → Option CashOpening → Result LedgerError CashOpening
known_opening as_of none = err opening_unknown
known_opening as_of (some o) = if ltb as_of o.as_of_utc then err opening_unknown else ok o

abbrev pub window_of : ℕ → ℕ → ℕ → ℕ → Window
window_of account subject from to = record {
  account_id = account;
  subject = subject;
  from_utc = from;
  to_utc = to;
}

-- What follows the sums: nothing that is reserved may be missing, and the broker's constraint.
unfoldable pub finish_state :
    Evidence → ℕ → ℕ → ℕ → Option BrokerConstraint → ℕ → ℤ × ℤ → Result LedgerError CashState
unfolding check_constraint
finish_state known account currency as_of constraint reserved (settled, unsettled) = do
  available ← not_negative (settled -ℤ pos reserved) reserved_exceeds_settled
  limit ← check_constraint known as_of constraint
  ok (record {
    account_id = account;
    currency = currency;
    as_of_utc = as_of;
    settled_cash = settled;
    unsettled_cash = unsettled;
    reserved_cash = reserved;
    available_cash = available;
    broker_buying_power_constraint = limit;
    orderable_cash = cap_by available limit;
  })

-- The state from the opening on.
unfoldable pub state_from :
    Evidence
    → ℕ
    → ℕ
    → ℕ
    → Option BrokerConstraint
    → CashTables
    → CashOpening
    → Result LedgerError CashState
unfolding select_events replay_events reserved_total finish_state
state_from known account currency as_of constraint t o =
    let w = window_of account currency o.as_of_utc as_of in
    replay_events t (day_of as_of) (select_events w t.ledger) (pos o.opening_balance, pos 0)
    >>= finish_state known account currency as_of constraint (reserved_total w t.reservations)

-- `state`
unfoldable pub cash_state :
    Evidence
    → ℕ
    → ℕ
    → Datetime
    → Option BrokerConstraint
    → CashTables
    → Result LedgerError CashState
unfolding find_opening known_opening state_from
cash_state known account currency as_of constraint t = instant_of as_of >>= λ at.
    known_opening at (find_opening account currency t.openings)
    >>= state_from known account currency at constraint t
