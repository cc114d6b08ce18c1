-- ===== src/Executions/Repository.antt =====
-- `append` of `ExecutionSnapshotRepository` in asset_management/account/executions.py. `digest`
-- stands for the SHA-256 of the five texts; `fresh` numbers the uuid4 of the snapshot and the delta.
use toss_trading_core.Prelude.{
  Bool, List, Option, Result, [], err, false, if◌then◌else◌, ltb, none, not, ok, some, ℕ, ◌&&◌, ◌+◌,
  ◌-◌, ◌==◌, ◌>>=◌, ◌>>◌, ◌||◌, ◌∷◌,
}
use toss_trading_core.Executions.{
  Checked, Decimal, ExecutionDelta, ExecutionError, ExecutionSnapshot, Report, Tables, Values,
  check_ordered, check_values, cumulative_decrease, current_values, evidence_conflict, find_row,
  from_source, latest_snapshot, previous_values, read_report, repeat_out_of_order,
  replay_out_of_order, time_backwards, with_content,
}
use toss_trading_core.Prelude.Dict.{Dict, get}

abbrev pub any_decreases : Values → Values → Bool
any_decreases new old =
    ltb new.quantity old.quantity
    || ltb new.amount old.amount
    || ltb new.commission old.commission
    || ltb new.tax old.tax

abbrev pub difference : Values → Values → Values
difference new old = record {
  quantity = new.quantity - old.quantity;
  amount = new.amount - old.amount;
  commission = new.commission - old.commission;
  tax = new.tax - old.tax;
}

abbrev pub earlier_than : ℕ → Option ExecutionSnapshot → Bool
earlier_than instant none = false
earlier_than instant (some s) = ltb instant s.observed_at_utc

abbrev pub next_sequence : Option ExecutionSnapshot → ℕ
next_sequence none = 1
next_sequence (some s) = s.sequence_no + 1

abbrev pub snapshot_id : Option ExecutionSnapshot → Option ℕ
snapshot_id none = none
snapshot_id (some s) = some s.execution_snapshot_id

-- What `append` returns: a snapshot, with the delta if it is new.
abbrev pub Appended : Type 0
Appended = Result ExecutionError (ExecutionSnapshot × Option ExecutionDelta)

-- The row that was found must be the latest of its order.
unfoldable pub return_latest :
    ExecutionSnapshot → Option ExecutionSnapshot → ExecutionError → Appended
return_latest found none e = err e
return_latest found (some s) e =
    if s.execution_snapshot_id == found.execution_snapshot_id then ok (s, none) else err e

unfoldable pub replay_source : ℕ → ℕ → ExecutionSnapshot → Option ExecutionSnapshot → Appended
unfolding return_latest
replay_source hash instant found newest =
    if not (found.content_hash == hash && found.observed_at_utc == instant)
    then err evidence_conflict
    else return_latest found newest replay_out_of_order

abbrev pub new_snapshot : Checked → ℕ → ℕ → Option ExecutionSnapshot → ExecutionSnapshot
new_snapshot c hash fresh previous = record {
  execution_snapshot_id = fresh;
  broker_order_id = c.broker_order_id;
  sequence_no = next_sequence previous;
  cumulative = current_values c;
  average_price = map_value c.average;
  observed_at_utc = c.instant;
  source_response_id = c.source_response_id;
  content_hash = hash;
}
  where
    map_value : Option Decimal → Option ℕ
    map_value none = none
    map_value (some d) = some d.value

abbrev pub new_delta : Checked → ℕ → ℕ → Option ExecutionSnapshot → ExecutionDelta
new_delta c fresh snapshot previous = record {
  execution_delta_id = fresh;
  broker_order_id = c.broker_order_id;
  from_snapshot_id = snapshot_id previous;
  to_snapshot_id = snapshot;
  values = difference (current_values c) (previous_values previous);
}

-- The two inserts, once no row repeats the report.
unfoldable pub append_new :
    Checked → ℕ → ℕ × ℕ → Option ExecutionSnapshot → Tables → Appended × Tables
append_new c hash fresh previous t =
    if earlier_than c.instant previous
    then (err time_backwards, t)
    else if any_decreases (current_values c) (previous_values previous)
    then (err cumulative_decrease, t)
    else let s = new_snapshot c hash fresh.0 previous in
      let d = new_delta c fresh.1 fresh.0 previous in
      (ok (s, some d), record { snapshots = s ∷ t.snapshots; deltas = d ∷ t.deltas })

-- The part of `append` after the hash: a repeated source, a repeated content, or a new row.
unfoldable pub append_hashed : Checked → ℕ → ℕ × ℕ → Tables → Appended × Tables
unfolding replay_source return_latest append_new
append_hashed c hash fresh t =
    let newest = latest_snapshot c.broker_order_id t.snapshots in
    elim (find_row (from_source c.source_response_id) c.broker_order_id t.snapshots) [
      | some found ↦ (replay_source hash c.instant found newest, t)
      | none ↦ elim (find_row (with_content hash) c.broker_order_id t.snapshots) [
        | some found ↦ (return_latest found newest repeat_out_of_order, t)
        | none ↦ append_new c hash fresh newest t
      ]
    ]

-- The digits of the five texts, in the order of the payload.
abbrev pub payload : Checked → List (Option Decimal)
payload c = some c.quantity ∷ some c.amount ∷ c.average ∷ some c.commission ∷ some c.tax ∷ []

unfoldable pub check_report : Dict (Option ℕ) → Report → Result ExecutionError Checked
unfolding read_report check_values check_ordered get
check_report orders r = do
  c ← read_report r
  check_values c
  check_ordered (get c.broker_order_id orders) c
  ok c

-- `append`
unfoldable pub append_report :
    (List (Option Decimal) → ℕ) → Dict (Option ℕ) → Report → ℕ × ℕ → Tables → Appended × Tables
unfolding check_report append_hashed
append_report digest orders r fresh t = elim (check_report orders r) [
  | err e ↦ (err e, t)
  | ok c ↦ append_hashed c (digest (payload c)) fresh t
]
