-- ===== src/Ledger/CashEvents.antt =====
-- `append_event` of asset_management/ledger/cash.py: its checks, the event of its key, and what it
-- stores. An id of uuid4 is the argument `fresh`.
use toss_trading_core.Prelude.{
  Bool, Datetime, List, Option, Result, [], err, if◌then◌else◌, is_some, none, not, ok, option_eq,
  require, some, true, ℕ, ◌&&◌, ◌==◌, ◌>>=◌, ◌>>◌, ◌||◌, ◌∷◌,
}
use toss_trading_core.Ledger.{
  LedgerError, adjustment_unapproved, finite_decimal, instant_of, integrity, key_conflict,
  wrong_sign,
}
use toss_trading_core.Ledger.Cash.{
  AuthorizationRow, CashEventType, CashRow, CashTables, MetadataRow, has_sign, is_given, is_manual,
  sign_of, type_number,
}
use toss_trading_core.Prelude.Int.{eq_ℤ, ℤ}

-- The arguments of `append_event`.
pub record CashEvent : Type 0 where
  pub account_id : ℕ
  pub currency : ℕ
  pub amount : Option ℤ
  pub event_type : CashEventType
  pub created_at_utc : Datetime
  pub idempotency_key : ℕ
  pub settlement_date : Option ℕ
  pub reason : Option ℕ
  pub approved_by : Option ℕ

-- The checks of `append_event`: the instant and the amount.
unfoldable pub check_event : CashEvent → Result LedgerError (ℕ × ℤ)
check_event e = do
  t ← instant_of e.created_at_utc
  require (not (is_manual e.event_type) || (is_given e.reason && is_given e.approved_by))
      adjustment_unapproved
  x ← finite_decimal e.amount
  require (has_sign (sign_of e.event_type) x) wrong_sign
  ok (t, x)

unfoldable pub find_cash_event : ℕ → List CashRow → Option CashRow
find_cash_event id [] = none
find_cash_event id (r ∷ rows) =
    let rest = find_cash_event id rows in if r.cash_event_id == id then some r else rest

unfoldable pub find_key : ℕ → List MetadataRow → Option MetadataRow
find_key key [] = none
find_key key (m ∷ rows) =
    let rest = find_key key rows in if m.idempotency_key == key then some m else rest

abbrev pub join_row : MetadataRow → Option CashRow → Option (MetadataRow × CashRow)
join_row m none = none
join_row m (some r) = some (m, r)

-- The metadata of a key, joined with their event.
abbrev pub join_event : Option MetadataRow → List CashRow → Option (MetadataRow × CashRow)
join_event none rows = none
join_event (some m) rows = join_row m (find_cash_event m.cash_event_id rows)

abbrev pub same_cash_event : CashEvent → ℕ → ℤ → MetadataRow → CashRow → Bool
same_cash_event e at amount m r =
    e.account_id == r.account_id
    && e.currency == r.currency
    && eq_ℤ amount r.amount
    && option_eq e.settlement_date r.settlement_date
    && type_number e.event_type == type_number r.event_type
    && at == r.created_at_utc
    && option_eq e.reason m.reason
    && option_eq e.approved_by m.approved_by

abbrev pub not_blank : Option ℕ → Bool
not_blank none = true
not_blank (some x) = not (x == 0)

-- The constraints of the three tables: the primary key and the idempotency key are free, and no
-- text is blank.
abbrev pub can_insert : ℕ → CashEvent → CashTables → Bool
can_insert fresh e t =
    not (is_some (find_cash_event fresh t.ledger))
    && not (is_some (find_key e.idempotency_key t.metadata))
    && not_blank e.reason
    && not_blank e.approved_by

abbrev pub authorized_by : ℕ → CashEvent → List AuthorizationRow → List AuthorizationRow
authorized_by fresh e rows =
    if is_manual e.event_type
    then record { cash_event_id = fresh; reason = e.reason; approved_by = e.approved_by } ∷ rows
    else rows

abbrev pub cash_row : ℕ → CashEvent → ℕ → ℤ → CashRow
cash_row fresh e at amount = record {
  cash_event_id = fresh;
  account_id = e.account_id;
  currency = e.currency;
  amount = amount;
  settlement_date = e.settlement_date;
  event_type = e.event_type;
  created_at_utc = at;
}

abbrev pub with_event : ℕ → CashEvent → ℕ → ℤ → CashTables → CashTables
with_event fresh e at amount t = record t {
  ledger = cash_row fresh e at amount ∷ t.ledger;
  metadata =
      record {
        cash_event_id = fresh;
        idempotency_key = e.idempotency_key;
        reason = e.reason;
        approved_by = e.approved_by;
      }
      ∷ t.metadata;
  authorizations = authorized_by fresh e t.authorizations;
}

-- What follows the lookup of the key; an error rolls the savepoint back.
abbrev pub append_unless_known :
    ℕ
    → CashEvent
    → ℕ
    → ℤ
    → Option (MetadataRow × CashRow)
    → CashTables
    → Result LedgerError ℕ × CashTables
append_unless_known fresh e at amount (some (m, r)) t =
    if same_cash_event e at amount m r then (ok m.cash_event_id, t) else (err key_conflict, t)
append_unless_known fresh e at amount none t =
    if can_insert fresh e t then (ok fresh, with_event fresh e at amount t) else (err integrity, t)

abbrev pub append_checked :
    ℕ → CashEvent → Result LedgerError (ℕ × ℤ) → CashTables → Result LedgerError ℕ × CashTables
append_checked fresh e (err x) t = (err x, t)
append_checked fresh e (ok (at, amount)) t =
    append_unless_known fresh e at amount
      (join_event (find_key e.idempotency_key t.metadata) t.ledger) t

-- `append_event`
unfoldable pub append_cash_event : ℕ → CashEvent → CashTables → Result LedgerError ℕ × CashTables
unfolding check_event find_cash_event find_key
append_cash_event fresh e t = append_checked fresh e (check_event e) t
