-- ===== src/Lots/Dispose.antt =====
-- `dispose_fifo` of asset_management/ledger/tax_lots.py. `disposal_name` stands for the uuid5 of its
-- text; `policy_known` says that the policy version is FIFO-v1.
use toss_trading_core.Prelude.{
  Bool, Datetime, List, Result, [], aware, err, if◌then◌else◌, ltb, map, min, not, ok, some, ℕ,
  ◌++◌, ◌+◌, ◌-◌, ◌==◌, ◌>>=◌, ◌∷◌,
}
use toss_trading_core.Lots.{
  DisposalRow, Given, LotError, Tables, TaxLot, below_zero, disposal_before_acquisition,
  disposal_conflict, disposal_not_positive, exactly, exceeds_lots, invalid, invalid_decimal,
  lots_of,
}
use toss_trading_core.Lots.Acquire.{instant_if}
use toss_trading_core.Prelude.Int.{negsuc, pos, ℤ}

-- What a lot can give; nothing if more was disposed than it had.
abbrev pub available : ℤ → ℕ
available (pos n) = n
available (negsuc n) = 0

abbrev pub put_plan :
    ℕ → ℕ → Result LotError (List (ℕ × ℕ) × ℕ) → Result LotError (List (ℕ × ℕ) × ℕ)
put_plan lot take (err e) = err e
put_plan lot take (ok (plans, rest)) = ok ((lot, take) ∷ plans, rest)

-- The loop of `dispose_fifo`: the lots and quantities taken, and what is left to take.
unfoldable pub plan_fifo : ℕ → ℕ → List TaxLot → Result LotError (List (ℕ × ℕ) × ℕ)
plan_fifo day remaining [] = ok ([], remaining)
plan_fifo day remaining (lot ∷ lots) =
    let take = min remaining (available lot.remaining_quantity) in
    let rest = plan_fifo day (remaining - take) lots in
    if ltb day lot.row.acquisition_date
    then err disposal_before_acquisition
    else if take == 0
    then rest
    else if remaining - take == 0
    then ok ((lot.row.lot_id, take) ∷ [], 0)
    else put_plan lot.row.lot_id take rest

-- The arguments of `dispose_fifo` once they are checked.
pub record Disposal : Type 0 where
  pub execution_delta_id : ℕ
  pub account_id : ℕ
  pub instrument_id : ℕ
  pub quantity : ℕ
  pub disposal_date : ℕ
  pub instant : ℕ

abbrev pub disposal_row : (ℕ → ℕ → ℕ) → Disposal → ℕ × ℕ → DisposalRow
disposal_row disposal_name d (lot, take) = record {
  disposal_id = disposal_name d.execution_delta_id lot;
  lot_id = lot;
  execution_delta_id = d.execution_delta_id;
  quantity = take;
  disposal_date = d.disposal_date;
  observed_at_utc = d.instant;
}

-- The rows of this execution delta: their ids, and their sum.
unfoldable pub ids_of : ℕ → List DisposalRow → List ℕ
ids_of delta [] = []
ids_of delta (r ∷ rows) =
    let rest = ids_of delta rows in
    if r.execution_delta_id == delta then r.disposal_id ∷ rest else rest

unfoldable pub disposed_by : ℕ → List DisposalRow → ℕ
disposed_by delta [] = 0
disposed_by delta (r ∷ rows) =
    let rest = disposed_by delta rows in
    if r.execution_delta_id == delta then r.quantity + rest else rest

abbrev pub store_plans :
    (ℕ → ℕ → ℕ)
    → Disposal
    → Result LotError (List (ℕ × ℕ) × ℕ)
    → Tables
    → Result LotError (List ℕ) × Tables
store_plans disposal_name d (err e) t = (err e, t)
store_plans disposal_name d (ok (plans, rest)) t =
    if not (rest == 0)
    then (err exceeds_lots, t)
    else let rows = map (disposal_row disposal_name d) plans in
      (ok (map (λ r. r.disposal_id) rows), record t { disposals = rows ++ t.disposals })

-- The part of `dispose_fifo` for a delta that has no disposal yet.
unfoldable pub dispose_new : (ℕ → ℕ → ℕ) → Disposal → Tables → Result LotError (List ℕ) × Tables
unfolding plan_fifo lots_of
dispose_new disposal_name d t =
    store_plans disposal_name d
      (lots_of d.account_id d.instrument_id (some (aware d.instant)) t >>= λ lots.
        plan_fifo d.disposal_date d.quantity lots)
      t

abbrev pub dispose_known :
    (ℕ → ℕ → ℕ) → Disposal → List ℕ → Tables → Result LotError (List ℕ) × Tables
dispose_known disposal_name d [] t = dispose_new disposal_name d t
dispose_known disposal_name d (x ∷ xs) t = (
  if disposed_by d.execution_delta_id t.disposals == d.quantity
      then ok (x ∷ xs)
      else err disposal_conflict,
  t,
)

unfoldable pub dispose_checked : (ℕ → ℕ → ℕ) → Disposal → Tables → Result LotError (List ℕ) × Tables
unfolding dispose_new ids_of disposed_by
dispose_checked disposal_name d t =
    dispose_known disposal_name d (ids_of d.execution_delta_id t.disposals) t

abbrev pub positive_quantity : Given → Result LotError ℕ
positive_quantity invalid = err invalid_decimal
positive_quantity below_zero = err disposal_not_positive
positive_quantity (exactly a) = if a.value == 0 then err disposal_not_positive else ok a.value

unfoldable pub check_disposal : ℕ → ℕ → ℕ → Given → ℕ → Datetime → Bool → Result LotError Disposal
check_disposal delta account instrument quantity day at policy_known = do
  instant ← instant_if policy_known at
  q ← positive_quantity quantity
  ok (record {
    execution_delta_id = delta;
    account_id = account;
    instrument_id = instrument;
    quantity = q;
    disposal_date = day;
    instant = instant;
  })

-- `dispose_fifo`
unfoldable pub dispose_fifo :
    (ℕ → ℕ → ℕ)
    → ℕ
    → ℕ
    → ℕ
    → Given
    → ℕ
    → Datetime
    → Bool
    → Tables
    → Result LotError (List ℕ) × Tables
unfolding check_disposal dispose_checked
dispose_fifo disposal_name delta account instrument quantity day at policy_known t =
    elim (check_disposal delta account instrument quantity day at policy_known) [
      | err e ↦ (err e, t)
      | ok d ↦ dispose_checked disposal_name d t
    ]
