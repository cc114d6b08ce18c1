-- ===== src/Executions/Tests.antt =====
-- Runs of the execution repository, and each theorem at an input that meets its hypotheses. The
-- digest here reads the places and values of the texts.
use toss_trading_core.Prelude.{
  List, Option, [], ap, aware, err, none, ok, refl, some, true, ℕ, ◌*◌, ◌+◌, ◌∷◌, ◌≡◌,
}
use toss_trading_core.Executions.{
  Decimal, ExecutionDelta, ExecutionSnapshot, Reading, Report, Tables, check_ordered, check_values,
  delta_for_snapshot, exact_decimal, exactly, exceeds_ordered, find_row, has_ledger_effect,
  latest_snapshot, optional_decimal, read_report,
}
use toss_trading_core.Executions.Grows.{AtMost, append_report-AtMost, cumulative_of}
use toss_trading_core.Executions.Replays.{append_report_again}
use toss_trading_core.Executions.Repository.{
  append_hashed, append_new, append_report, check_report, replay_source, return_latest,
}
use toss_trading_core.Executions.Totals.{IsTotalled, append_report-IsTotalled, total_delta}
use toss_trading_core.Prelude.Dict.{Dict, get}

abbrev fold_texts : List (Option Decimal) → ℕ
fold_texts [] = 1
fold_texts (none ∷ ds) = let rest = fold_texts ds in rest * 3
fold_texts (some d ∷ ds) = let rest = fold_texts ds in rest * 1000 + d.value * 10 + d.places

abbrev whole : ℕ → Reading
whole n = exactly (record { value = n; places = 0 })

abbrev report : ℕ → ℕ → ℕ → ℕ → Report
report q a at source = record {
  broker_order_id = 7;
  cumulative_quantity = whole q;
  cumulative_amount = whole a;
  average_price = some (whole 5);
  cumulative_commission = whole 1;
  cumulative_tax = whole 0;
  observed_at_utc = aware at;
  source_response_id = source;
}

abbrev ordered : Dict (Option ℕ)
ordered = (7, some 10) ∷ []

abbrev empty : Tables
empty = record { snapshots = []; deltas = [] }

abbrev first_row : ExecutionSnapshot
first_row = record {
  execution_snapshot_id = 1;
  broker_order_id = 7;
  sequence_no = 1;
  cumulative = record { quantity = 2; amount = 10; commission = 1; tax = 0 };
  average_price = some 5;
  observed_at_utc = 100;
  source_response_id = 50;
  content_hash = fold_texts (
      some (record { value = 2; places = 0 })
      ∷ some (record { value = 10; places = 0 })
      ∷ some (record { value = 5; places = 0 })
      ∷ some (record { value = 1; places = 0 })
      ∷ some (record { value = 0; places = 0 })
      ∷ []);
}

abbrev first_delta : ExecutionDelta
first_delta = record {
  execution_delta_id = 2;
  broker_order_id = 7;
  from_snapshot_id = none;
  to_snapshot_id = 1;
  values = record { quantity = 2; amount = 10; commission = 1; tax = 0 };
}

abbrev after_first : Tables
after_first = record { snapshots = first_row ∷ []; deltas = first_delta ∷ [] }

first_report :
    append_report fold_texts ordered (report 2 10 100 50) (1, 2) empty
    ≡ (ok (first_row, some first_delta), after_first)
unfolding append_report check_report append_hashed append_new replay_source return_latest
    read_report check_values check_ordered exact_decimal optional_decimal find_row latest_snapshot
    get
first_report = refl

-- More than was ordered is refused.
too_much :
    append_report fold_texts ordered (report 11 55 100 50) (1, 2) empty
    ≡ (err exceeds_ordered, empty)
unfolding append_report check_report append_hashed append_new replay_source return_latest
    read_report check_values check_ordered exact_decimal optional_decimal find_row latest_snapshot
    get
too_much = refl

delta_of_first : delta_for_snapshot 1 after_first.deltas ≡ some first_delta
unfolding delta_for_snapshot
delta_of_first = refl

effect_of_first : has_ledger_effect first_delta ≡ true
unfolding has_ledger_effect
effect_of_first = refl

empty-IsTotalled : IsTotalled empty
unfolding total_delta latest_snapshot
empty-IsTotalled order = refl

append_report-IsTotalled_example :
    IsTotalled (append_report fold_texts ordered (report 2 10 100 50) (1, 2) empty).1
append_report-IsTotalled_example =
    append_report-IsTotalled fold_texts ordered (report 2 10 100 50) (1, 2) empty empty-IsTotalled

append_report-AtMost_example :
    AtMost
      (cumulative_of 7 after_first)
      (cumulative_of 7 (append_report fold_texts ordered (report 4 20 110 51) (3, 4) after_first).1)
append_report-AtMost_example =
    append_report-AtMost fold_texts ordered (report 4 20 110 51) (3, 4) after_first 7

append_report_again_example :
    append_report fold_texts ordered
      (report 2 10 100 50)
      (3, 4)
      (append_report fold_texts ordered (report 2 10 100 50) (1, 2) empty).1
    ≡ (ok (first_row, none), (append_report fold_texts ordered (report 2 10 100 50) (1, 2) empty).1)
append_report_again_example =
    append_report_again fold_texts ordered (report 2 10 100 50) (1, 2) (3, 4) empty first_row
      (some first_delta) (ap (λ x. x.0) first_report)
