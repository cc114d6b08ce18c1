-- ===== src/Lots.antt =====
-- `TaxLotLedger` of asset_management/ledger/tax_lots.py: the tables of lots and of disposals, each
-- row with its timing, and the queries on them. Quantities are counted in smallest units; `places`
-- is the number of decimals of a text. Dates are day numbers.
pub mod Acquire
pub mod Dispose
pub mod Fifo
pub mod Conserved
pub mod Acquired
mod Tests
use toss_trading_core.Prelude.{
  Bool, Datetime, List, Option, Result, [], aware, err, if◌then◌else◌, leb, ltb, naive, none, ok,
  some, true, ℕ, ◌&&◌, ◌+◌, ◌==◌, ◌>>=◌, ◌||◌, ◌∷◌,
}
use toss_trading_core.Prelude.Int.{pos, ℤ, ◌-ℤ◌}

pub record Amount : Type 0 where
  pub value : ℕ
  pub places : ℕ

-- A value given as a decimal: no finite one, one below zero, or an amount.
pub data Given : Type 0 where
  invalid below_zero : Given
  exactly : Amount → Given

pub data LotError : Type 0 where
  invalid_decimal lot_values_invalid policy_or_time_required settlement_before_acquisition :
      LotError
  lot_conflict naive_as_of disposal_not_positive disposal_conflict disposal_before_acquisition :
      LotError
  exceeds_lots : LotError

-- A row of `am_tax_lot`, whose policy version is always FIFO-v1, with its row of
-- `am_tax_lot_timing`.
pub record LotRow : Type 0 where
  pub lot_id : ℕ
  pub execution_delta_id : ℕ
  pub account_id : ℕ
  pub instrument_id : ℕ
  pub acquisition_date : ℕ
  pub settlement_date : Option ℕ
  pub quantity : Amount
  pub price : Amount
  pub commission : Amount
  pub currency : ℕ
  pub fx_rate : Amount
  pub observed_at_utc : ℕ

-- A row of `am_tax_lot_disposal` with its timing.
pub record DisposalRow : Type 0 where
  pub disposal_id : ℕ
  pub lot_id : ℕ
  pub execution_delta_id : ℕ
  pub quantity : ℕ
  pub disposal_date : ℕ
  pub observed_at_utc : ℕ

pub record Tables : Type 0 where
  pub lots : List LotRow
  pub disposals : List DisposalRow

-- `TaxLot`: a lot and what remains of it.
pub record TaxLot : Type 0 where
  pub row : LotRow
  pub remaining_quantity : ℤ

-- `exact` of asset_management/ledger/cash.py, which allows a value below zero.
abbrev pub exact : Given → Result LotError Given
exact invalid = err invalid_decimal
exact below_zero = ok below_zero
exact (exactly a) = ok (exactly a)

-- The row of this execution delta.
unfoldable pub find_lot : ℕ → List LotRow → Option LotRow
find_lot delta [] = none
find_lot delta (r ∷ rows) =
    let rest = find_lot delta rows in if r.execution_delta_id == delta then some r else rest

abbrev pub known_by : Option ℕ → ℕ → Bool
known_by none t = true
known_by (some cutoff) t = leb t cutoff

-- What was disposed of a lot by a time.
unfoldable pub disposed_of : ℕ → Option ℕ → List DisposalRow → ℕ
disposed_of lot cutoff [] = 0
disposed_of lot cutoff (d ∷ rows) =
    let rest = disposed_of lot cutoff rows in
    if d.lot_id == lot && known_by cutoff d.observed_at_utc then d.quantity + rest else rest

-- ORDER BY acquisition_date, lot_id
abbrev pub comes_first : LotRow → LotRow → Bool
comes_first r s =
    ltb r.acquisition_date s.acquisition_date
    || (r.acquisition_date == s.acquisition_date && leb r.lot_id s.lot_id)

unfoldable pub insert_sorted : LotRow → List LotRow → List LotRow
insert_sorted r [] = r ∷ []
insert_sorted r (s ∷ rows) =
    let rest = insert_sorted r rows in if comes_first r s then r ∷ s ∷ rows else s ∷ rest

-- The rows of an account and an instrument that are known by a time, in order.
unfoldable pub select_lots : ℕ → ℕ → Option ℕ → List LotRow → List LotRow
unfolding insert_sorted
select_lots account instrument cutoff [] = []
select_lots account instrument cutoff (r ∷ rows) =
    let rest = select_lots account instrument cutoff rows in
    if r.account_id == account && r.instrument_id == instrument && known_by cutoff r.observed_at_utc
    then insert_sorted r rest
    else rest

unfoldable pub with_remaining : Option ℕ → List DisposalRow → List LotRow → List TaxLot
unfolding disposed_of
with_remaining cutoff disposals [] = []
with_remaining cutoff disposals (r ∷ rows) =
    record {
      row = r;
      remaining_quantity = pos r.quantity.value -ℤ pos (disposed_of r.lot_id cutoff disposals);
    }
    ∷ with_remaining cutoff disposals rows

abbrev pub cutoff_of : Option Datetime → Result LotError (Option ℕ)
cutoff_of none = ok none
cutoff_of (some naive) = err naive_as_of
cutoff_of (some (aware t)) = ok (some t)

-- `lots`
unfoldable pub lots_of : ℕ → ℕ → Option Datetime → Tables → Result LotError (List TaxLot)
unfolding select_lots with_remaining
lots_of account instrument as_of t = cutoff_of as_of >>= λ cutoff.
    ok (with_remaining cutoff t.disposals (select_lots account instrument cutoff t.lots))
