-- ===== src/Ledger.antt =====
-- The ledgers of cash and of positions, asset_management/ledger/cash.py, positions.py and posting.py:
-- what they share. Amounts are counted in smallest units, and an account, an instrument or a
-- currency in capitals is a number, 0 for a blank one. A day is a number of days of UTC.
pub mod Reservations
pub mod Reserved
pub mod Replaced
pub mod Cash
pub mod CashEvents
pub mod CashOrders
pub mod CashState
pub mod Balance
pub mod PointInTime
pub mod Signed
pub mod Repeats
pub mod Positions
pub mod PositionState
pub mod Holdings
mod Tests
use toss_trading_core.Prelude.{
  Bool, Datetime, List, Option, Result, [], aware, err, false, leb, naive, none, not, ok, require,
  some, ℕ, ◌&&◌, ◌/◌, ◌==◌, ◌>>=◌, ◌>>◌, ◌||◌, ◌∷◌,
}
use toss_trading_core.Prelude.Int.{negsuc, pos, ℤ}

pub data LedgerError : Type 0 where
  invalid_decimal amount_negative naive_time integrity evidence_unknown evidence_missing :
      LedgerError
  adjustment_unapproved wrong_sign key_conflict authorization_conflict : LedgerError
  reservation_conflict identity_changed time_backwards price_or_amount_unknown : LedgerError
  opening_unknown settled_negative reserved_exceeds_settled constraint_invalid constraint_stale :
      LedgerError
  constraint_unproven opening_position_unknown settlement_missing quantity_negative : LedgerError
  currency_conflict time_or_policy_missing : LedgerError

-- `exact` of asset_management/ledger/cash.py, on a value that is a finite decimal or not.
abbrev pub finite_decimal : Option ℤ → Result LedgerError ℤ
finite_decimal none = err invalid_decimal
finite_decimal (some x) = ok x

-- A value that must not be below zero.
abbrev pub not_negative : ℤ → LedgerError → Result LedgerError ℕ
not_negative (pos n) e = ok n
not_negative (negsuc n) e = err e

abbrev pub instant_of : Datetime → Result LedgerError ℕ
instant_of naive = err naive_time
instant_of (aware t) = ok t

-- `date` of an instant.
abbrev pub day_of : ℕ → ℕ
day_of t = t / 86400000000

abbrev pub is_in : ℕ → List ℕ → Bool
is_in x [] = false
is_in x (y ∷ ys) = x == y || is_in x ys

-- The ids in the tables that the ledgers refer to.
pub record Evidence : Type 0 where
  pub raw_responses : List ℕ
  pub dataset_manifests : List ℕ
  pub broker_orders : List ℕ

-- A time in the window from an opening to the time of the state.
abbrev pub in_span : ℕ → ℕ → ℕ → Bool
in_span from to t = leb from t && leb t to

-- `BrokerConstraint` after its checks.
pub record BrokerConstraint : Type 0 where
  pub value : ℕ
  pub observed_at_utc : ℕ
  pub valid_until_utc : ℕ
  pub source_response_id : ℕ

-- `BrokerConstraint.__post_init__`
unfoldable pub make_constraint :
    Option ℤ → Datetime → Datetime → ℕ → Result LedgerError BrokerConstraint
make_constraint value naive valid_until source = err constraint_invalid
make_constraint value (aware observed) naive source = err constraint_invalid
make_constraint value (aware observed) (aware valid_until) source = do
  require (not (source == 0)) constraint_invalid
  require (leb observed valid_until) constraint_invalid
  x ← finite_decimal value
  n ← not_negative x amount_negative
  ok (record {
    value = n;
    observed_at_utc = observed;
    valid_until_utc = valid_until;
    source_response_id = source;
  })

-- A constraint that a state uses must cover its time and have its response stored.
unfoldable pub check_constraint :
    Evidence → ℕ → Option BrokerConstraint → Result LedgerError (Option ℕ)
check_constraint evidence as_of none = ok none
check_constraint evidence as_of (some c) = do
  require (leb c.observed_at_utc as_of && leb as_of c.valid_until_utc) constraint_stale
  require (is_in c.source_response_id evidence.raw_responses) constraint_unproven
  ok (some c.value)
