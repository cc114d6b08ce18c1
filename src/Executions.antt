-- ===== src/Executions.antt =====
-- `ExecutionSnapshotRepository` of asset_management/account/executions.py: the snapshots of what an
-- order has filled so far, and the deltas between them that reach the ledger. Amounts are counted in
-- smallest units; `places` is the number of decimals a value is written with, which its text shows.
pub mod Repository
pub mod Totals
pub mod Replays
pub mod Grows
mod Tests
use toss_trading_core.Prelude.{
  Bool, Datetime, List, Option, Result, [], aware, err, false, if◌then◌else◌, ltb, naive, none, not,
  ok, some, true, ℕ, ◌&&◌, ◌==◌, ◌>>=◌, ◌>>◌, ◌||◌, ◌∷◌,
}

pub record Decimal : Type 0 where
  pub value : ℕ
  pub places : ℕ

-- What a caller gives for a decimal: no finite decimal, one below zero, or a value.
pub data Reading : Type 0 where
  unreadable negative : Reading
  exactly : Decimal → Reading

pub data ExecutionError : Type 0 where
  naive_timestamp invalid_decimal negative_decimal zero_conflict positive_incomplete :
      ExecutionError
  no_broker_order exceeds_ordered evidence_conflict replay_out_of_order repeat_out_of_order :
      ExecutionError
  time_backwards cumulative_decrease : ExecutionError

-- The four amounts that a snapshot and a delta carry.
pub record Values : Type 0 where
  pub quantity : ℕ
  pub amount : ℕ
  pub commission : ℕ
  pub tax : ℕ

pub record ExecutionSnapshot : Type 0 where
  pub execution_snapshot_id : ℕ
  pub broker_order_id : ℕ
  pub sequence_no : ℕ
  pub cumulative : Values
  pub average_price : Option ℕ
  pub observed_at_utc : ℕ
  pub source_response_id : ℕ
  pub content_hash : ℕ

pub record ExecutionDelta : Type 0 where
  pub execution_delta_id : ℕ
  pub broker_order_id : ℕ
  pub from_snapshot_id : Option ℕ
  pub to_snapshot_id : ℕ
  pub values : Values

pub record Tables : Type 0 where
  pub snapshots : List ExecutionSnapshot
  pub deltas : List ExecutionDelta

-- The arguments of `append`.
pub record Report : Type 0 where
  pub broker_order_id : ℕ
  pub cumulative_quantity : Reading
  pub cumulative_amount : Reading
  pub average_price : Option Reading
  pub cumulative_commission : Reading
  pub cumulative_tax : Reading
  pub observed_at_utc : Datetime
  pub source_response_id : ℕ

-- A report whose values have been read.
pub record Checked : Type 0 where
  pub broker_order_id : ℕ
  pub quantity : Decimal
  pub amount : Decimal
  pub average : Option Decimal
  pub commission : Decimal
  pub tax : Decimal
  pub instant : ℕ
  pub source_response_id : ℕ

-- `_exact_decimal`
unfoldable pub exact_decimal : Reading → Result ExecutionError Decimal
exact_decimal unreadable = err invalid_decimal
exact_decimal negative = err negative_decimal
exact_decimal (exactly d) = ok d

unfoldable pub optional_decimal : Option Reading → Result ExecutionError (Option Decimal)
unfolding exact_decimal
optional_decimal none = ok none
optional_decimal (some r) = exact_decimal r >>= λ d. ok (some d)

abbrev pub instant_of : Datetime → Result ExecutionError ℕ
instant_of naive = err naive_timestamp
instant_of (aware t) = ok t

abbrev pub given_and_not_zero : Option Decimal → Bool
given_and_not_zero none = false
given_and_not_zero (some d) = not (d.value == 0)

abbrev pub absent_or_zero : Option Decimal → Bool
absent_or_zero none = true
absent_or_zero (some d) = d.value == 0

-- Nothing filled has no amount and no price; something filled has both.
unfoldable pub check_values : Checked → Result ExecutionError (Unit {0})
check_values c =
    if c.quantity.value == 0 && (not (c.amount.value == 0) || given_and_not_zero c.average)
    then err zero_conflict
    else if ltb 0 c.quantity.value && (c.amount.value == 0 || absent_or_zero c.average)
    then err positive_incomplete
    else ok tt

-- The order of the table `am_broker_order` with its quantity, which may be missing.
unfoldable pub check_ordered : Option (Option ℕ) → Checked → Result ExecutionError (Unit {0})
check_ordered none c = err no_broker_order
check_ordered (some none) c = ok tt
check_ordered (some (some ordered)) c =
    if ltb ordered c.quantity.value then err exceeds_ordered else ok tt

unfoldable pub read_report : Report → Result ExecutionError Checked
unfolding exact_decimal optional_decimal
read_report r = do
  instant ← instant_of r.observed_at_utc
  quantity ← exact_decimal r.cumulative_quantity
  amount ← exact_decimal r.cumulative_amount
  average ← optional_decimal r.average_price
  commission ← exact_decimal r.cumulative_commission
  tax ← exact_decimal r.cumulative_tax
  ok (record {
    broker_order_id = r.broker_order_id;
    quantity = quantity;
    amount = amount;
    average = average;
    commission = commission;
    tax = tax;
    instant = instant;
    source_response_id = r.source_response_id;
  })

abbrev pub later_snapshot : ExecutionSnapshot → Option ExecutionSnapshot → Option ExecutionSnapshot
later_snapshot r none = some r
later_snapshot r (some q) = if ltb r.sequence_no q.sequence_no then some q else some r

-- `_latest`: ORDER BY sequence_no DESC LIMIT 1.
unfoldable pub latest_snapshot : ℕ → List ExecutionSnapshot → Option ExecutionSnapshot
latest_snapshot order [] = none
latest_snapshot order (r ∷ rows) =
    let rest = latest_snapshot order rows in
    if r.broker_order_id == order then later_snapshot r rest else rest

-- The row of this order that a test holds of.
unfoldable pub find_row :
    (ExecutionSnapshot → Bool) → ℕ → List ExecutionSnapshot → Option ExecutionSnapshot
find_row test order [] = none
find_row test order (r ∷ rows) =
    let rest = find_row test order rows in
    if r.broker_order_id == order && test r then some r else rest

abbrev pub from_source : ℕ → ExecutionSnapshot → Bool
from_source source r = r.source_response_id == source

abbrev pub with_content : ℕ → ExecutionSnapshot → Bool
with_content hash r = r.content_hash == hash

-- `delta_for_snapshot`
unfoldable pub delta_for_snapshot : ℕ → List ExecutionDelta → Option ExecutionDelta
delta_for_snapshot snapshot [] = none
delta_for_snapshot snapshot (d ∷ rows) =
    let rest = delta_for_snapshot snapshot rows in
    if d.to_snapshot_id == snapshot then some d else rest

-- `has_ledger_effect`
unfoldable pub has_ledger_effect : ExecutionDelta → Bool
has_ledger_effect d =
    let v = d.values in
    not (v.quantity == 0) || not (v.amount == 0) || not (v.commission == 0) || not (v.tax == 0)

abbrev pub no_values : Values
no_values = record { quantity = 0; amount = 0; commission = 0; tax = 0 }

abbrev pub previous_values : Option ExecutionSnapshot → Values
previous_values none = no_values
previous_values (some s) = s.cumulative

abbrev pub current_values : Checked → Values
current_values c = record {
  quantity = c.quantity.value;
  amount = c.amount.value;
  commission = c.commission.value;
  tax = c.tax.value;
}
