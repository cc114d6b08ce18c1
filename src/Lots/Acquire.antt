-- ===== src/Lots/Acquire.antt =====
-- `acquire` of asset_management/ledger/tax_lots.py. `lot_name` stands for the uuid5 of its text;
-- `policy_known` says that the policy version is FIFO-v1.
use toss_trading_core.Prelude.{
  Bool, Datetime, Option, Result, aware, err, false, if◌then◌else◌, leb, naive, none, ok, option_eq,
  require, some, true, ℕ, ◌&&◌, ◌==◌, ◌>>=◌, ◌>>◌, ◌∷◌,
}
use toss_trading_core.Lots.{
  Amount, Given, LotError, LotRow, Tables, below_zero, exact, exactly, find_lot, invalid,
  lot_conflict, lot_values_invalid, policy_or_time_required, settlement_before_acquisition,
}

-- The arguments of `acquire`.
pub record Acquisition : Type 0 where
  pub execution_delta_id : ℕ
  pub account_id : ℕ
  pub instrument_id : ℕ
  pub acquisition_date : ℕ
  pub settlement_date : Option ℕ
  pub quantity : Given
  pub price : Given
  pub commission : Given
  pub currency : ℕ
  pub fx_rate : Given
  pub policy_known : Bool
  pub observed_at_utc : Datetime

-- A value that must not be below zero, or must be above.
abbrev pub at_least_zero : Given → Result LotError Amount
at_least_zero invalid = err lot_values_invalid
at_least_zero below_zero = err lot_values_invalid
at_least_zero (exactly a) = ok a

abbrev pub above_zero : Given → Result LotError Amount
above_zero invalid = err lot_values_invalid
above_zero below_zero = err lot_values_invalid
above_zero (exactly a) = if a.value == 0 then err lot_values_invalid else ok a

abbrev pub instant_if : Bool → Datetime → Result LotError ℕ
instant_if false t = err policy_or_time_required
instant_if true naive = err policy_or_time_required
instant_if true (aware t) = ok t

abbrev pub settles_in_time : Option ℕ → ℕ → Bool
settles_in_time none day = true
settles_in_time (some s) day = leb day s

-- The checks of `acquire`, and the values that it stores.
unfoldable pub check_acquisition : (ℕ → ℕ) → Acquisition → Result LotError LotRow
check_acquisition lot_name a = do
  q ← exact a.quantity
  p ← exact a.price
  c ← exact a.commission
  f ← exact a.fx_rate
  quantity ← above_zero q
  price ← at_least_zero p
  commission ← at_least_zero c
  fx ← above_zero f
  instant ← instant_if a.policy_known a.observed_at_utc
  require (settles_in_time a.settlement_date a.acquisition_date) settlement_before_acquisition
  ok (record {
    lot_id = lot_name a.execution_delta_id;
    execution_delta_id = a.execution_delta_id;
    account_id = a.account_id;
    instrument_id = a.instrument_id;
    acquisition_date = a.acquisition_date;
    settlement_date = a.settlement_date;
    quantity = quantity;
    price = price;
    commission = commission;
    currency = a.currency;
    fx_rate = fx;
    observed_at_utc = instant;
  })

abbrev pub same_amount : Amount → Amount → Bool
same_amount a b = a.value == b.value && a.places == b.places

-- The stored values equal the new ones; the timing is not among them.
unfoldable pub same_values : LotRow → LotRow → Bool
same_values a b =
    a.lot_id == b.lot_id
    && a.account_id == b.account_id
    && a.instrument_id == b.instrument_id
    && a.acquisition_date == b.acquisition_date
    && option_eq a.settlement_date b.settlement_date
    && same_amount a.quantity b.quantity
    && same_amount a.price b.price
    && same_amount a.commission b.commission
    && a.currency == b.currency
    && same_amount a.fx_rate b.fx_rate

unfoldable pub store_lot : LotRow → Tables → Result LotError ℕ × Tables
unfolding find_lot same_values
store_lot r t = elim (find_lot r.execution_delta_id t.lots) [
  | some old ↦ (if same_values old r then ok r.lot_id else err lot_conflict, t)
  | none ↦ (ok r.lot_id, record t { lots = r ∷ t.lots })
]

-- `acquire`
unfoldable pub acquire : (ℕ → ℕ) → Acquisition → Tables → Result LotError ℕ × Tables
unfolding check_acquisition store_lot
acquire lot_name a t = elim (check_acquisition lot_name a) [
  | err e ↦ (err e, t)
  | ok r ↦ store_lot r t
]
