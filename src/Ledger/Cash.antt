-- ===== src/Ledger/Cash.antt =====
-- `CashLedger` of asset_management/ledger/cash.py: its tables and `record_opening`. An id of uuid4 is the argument `fresh`.
use toss_trading_core.Prelude.{
  Bool, Datetime, List, Option, Result, [], err, false, if◌then◌else◌, none, not, ok, require, some,
  true, ℕ, ◌&&◌, ◌==◌, ◌>>=◌, ◌>>◌, ◌||◌, ◌∷◌,
}
use toss_trading_core.Ledger.{
  Evidence, LedgerError, amount_negative, evidence_missing, finite_decimal, instant_of, integrity,
  is_in, not_negative, opening_unknown,
}
use toss_trading_core.Ledger.Reservations.{ReservationRow}
use toss_trading_core.Prelude.Int.{ltb_ℤ, pos, ℤ}

-- `CashEventType`
pub data CashEventType : Type 0 where
  deposit withdrawal trade_cost trade_proceeds commission tax dividend : CashEventType
  withholding interest fx_conversion_in fx_conversion_out : CashEventType
  corporate_action_cash manual_adjustment : CashEventType

-- The sign that an amount of a type must have.
pub data Sign : Type 0 where
  not_below not_above any_sign : Sign

-- `positive_types` and `negative_types`
abbrev pub sign_of : CashEventType → Sign
sign_of deposit = not_below
sign_of trade_proceeds = not_below
sign_of dividend = not_below
sign_of interest = not_below
sign_of fx_conversion_in = not_below
sign_of withdrawal = not_above
sign_of trade_cost = not_above
sign_of commission = not_above
sign_of tax = not_above
sign_of withholding = not_above
sign_of fx_conversion_out = not_above
sign_of corporate_action_cash = any_sign
sign_of manual_adjustment = any_sign

abbrev pub has_sign : Sign → ℤ → Bool
has_sign not_below x = not (ltb_ℤ x (pos 0))
has_sign not_above x = not (ltb_ℤ (pos 0) x)
has_sign any_sign x = true

-- The number of a type, by which types are compared.
abbrev pub type_number : CashEventType → ℕ
type_number deposit = 0
type_number withdrawal = 1
type_number trade_cost = 2
type_number trade_proceeds = 3
type_number commission = 4
type_number tax = 5
type_number dividend = 6
type_number withholding = 7
type_number interest = 8
type_number fx_conversion_in = 9
type_number fx_conversion_out = 10
type_number corporate_action_cash = 11
type_number manual_adjustment = 12

abbrev pub is_manual : CashEventType → Bool
is_manual type = type_number type == type_number manual_adjustment

-- A row of `am_cash_opening_balance`.
pub record CashOpening : Type 0 where
  pub account_id : ℕ
  pub currency : ℕ
  pub as_of_utc : ℕ
  pub opening_balance : ℕ

-- A row of `am_cash_ledger`.
pub record CashRow : Type 0 where
  pub cash_event_id : ℕ
  pub account_id : ℕ
  pub currency : ℕ
  pub amount : ℤ
  pub settlement_date : Option ℕ
  pub event_type : CashEventType
  pub created_at_utc : ℕ

-- A row of `am_cash_event_metadata`, and one of `am_manual_cash_authorization`.
pub record MetadataRow : Type 0 where
  pub cash_event_id : ℕ
  pub idempotency_key : ℕ
  pub reason : Option ℕ
  pub approved_by : Option ℕ

pub record AuthorizationRow : Type 0 where
  pub cash_event_id : ℕ
  pub reason : Option ℕ
  pub approved_by : Option ℕ

pub record CashTables : Type 0 where
  pub openings : List CashOpening
  pub ledger : List CashRow
  pub metadata : List MetadataRow
  pub authorizations : List AuthorizationRow
  pub reservations : List ReservationRow

unfoldable pub find_opening : ℕ → ℕ → List CashOpening → Option CashOpening
find_opening account currency [] = none
find_opening account currency (o ∷ rows) =
    let rest = find_opening account currency rows in
    if o.account_id == account && o.currency == currency then some o else rest

-- A text that is given and is not blank.
abbrev pub is_given : Option ℕ → Bool
is_given none = false
is_given (some x) = not (x == 0)

abbrev pub proven_by : Evidence → Option ℕ → Bool
proven_by evidence none = false
proven_by evidence (some x) = is_in x evidence.raw_responses || is_in x evidence.dataset_manifests

-- The checks of `record_opening`: the time and the balance that it stores.
unfoldable pub check_opening :
    Evidence → Datetime → Option ℤ → Option ℕ → Option ℕ → Result LedgerError (ℕ × ℕ)
check_opening known as_of balance evidence approved_by = do
  require (is_given evidence && is_given approved_by) opening_unknown
  require (proven_by known evidence) evidence_missing
  t ← instant_of as_of
  x ← finite_decimal balance
  n ← not_negative x amount_negative
  ok (t, n)

abbrev pub insert_opening :
    ℕ
    → ℕ
    → ℕ
    → Result LedgerError (ℕ × ℕ)
    → Option CashOpening
    → CashTables
    → Result LedgerError ℕ × CashTables
insert_opening fresh account currency (err e) old t = (err e, t)
insert_opening fresh account currency (ok (at, n)) (some o) t = (err integrity, t)
insert_opening fresh account currency (ok (at, n)) none t = (
  ok fresh,
  record t {
    openings =
        record { account_id = account; currency = currency; as_of_utc = at; opening_balance = n }
        ∷ t.openings;
  },
)

-- `record_opening`: an account and a currency have one opening.
unfoldable pub record_opening :
    ℕ
    → Evidence
    → ℕ
    → ℕ
    → Datetime
    → Option ℤ
    → Option ℕ
    → Option ℕ
    → CashTables
    → Result LedgerError ℕ × CashTables
unfolding check_opening find_opening
record_opening fresh known account currency as_of balance evidence approved_by t =
    insert_opening fresh account currency (check_opening known as_of balance evidence approved_by)
      (find_opening account currency t.openings) t
