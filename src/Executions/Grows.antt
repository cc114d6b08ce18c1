-- ===== src/Executions/Grows.antt =====
-- The cumulative values of an order never fall.
use toss_trading_core.Prelude.{
  ==_eq, Bool-cases, List, Option, Option-cases, Result, arith, err, false, inl, inr, ok, refl,
  subst, ℕ, ◌==◌, ◌∷◌, ◌≡◌, ◌≤◌,
}
use toss_trading_core.Executions.{
  Checked, Decimal, ExecutionDelta, ExecutionError, Report, Tables, Values, current_values,
  find_row, from_source, latest_snapshot, previous_values, with_content,
}
use toss_trading_core.Executions.Replays.{with_rows}
use toss_trading_core.Executions.Repository.{
  any_decreases, append_hashed, append_new, append_report, check_report, earlier_than, new_delta,
  payload,
}
use toss_trading_core.Executions.Totals.{latest-new}
use toss_trading_core.Prelude.Dict.{Dict}

-- Component by component, no more than.
abbrev pub AtMost : Values → Values → Type 0
AtMost v w =
    (v.quantity ≤ w.quantity)
    × (v.amount ≤ w.amount)
    × (v.commission ≤ w.commission)
    × (v.tax ≤ w.tax)

-- The latest cumulative values of an order.
abbrev pub cumulative_of : ℕ → Tables → Values
cumulative_of order t = previous_values (latest_snapshot order t.snapshots)

AtMost-refl : (v : Values) → AtMost v v
AtMost-refl v = (omega arith, omega arith, omega arith, omega arith)

no_decrease-AtMost : (new old : Values) → any_decreases new old ≡ false → AtMost old new
no_decrease-AtMost new old h = (ground arith, ground arith, ground arith, ground arith)

inserted-AtMost :
    (c : Checked) (hash fresh order : ℕ) (deltas : List ExecutionDelta) (t : Tables)
    → any_decreases (current_values c) (cumulative_of c.broker_order_id t) ≡ false
    → AtMost (cumulative_of order t) (cumulative_of order (with_rows c hash fresh deltas t))
inserted-AtMost c hash fresh order deltas t h = elim (Bool-cases (c.broker_order_id == order)) [
  | inl same ↦
      subst (λ i. AtMost (cumulative_of i t) (cumulative_of i (with_rows c hash fresh deltas t)))
        (==_eq c.broker_order_id order same)
        (rw (latest-new c hash fresh t.snapshots) (no_decrease-AtMost (current_values c) _ h))
  | inr other ↦ unfold latest_snapshot in rw other (AtMost-refl (cumulative_of order t))
]

append_new-AtMost :
    (c : Checked) (hash order : ℕ) (fresh : ℕ × ℕ) (t : Tables)
    → AtMost (cumulative_of order t) (
        cumulative_of order
          (append_new c hash fresh (latest_snapshot c.broker_order_id t.snapshots) t).1)
unfolding append_new
append_new-AtMost c hash order fresh t =
    let newest = latest_snapshot c.broker_order_id t.snapshots in
    elim (Bool-cases (earlier_than c.instant newest)) [
      | inl e ↦ rw e (AtMost-refl (cumulative_of order t))
      | inr e ↦ elim (Bool-cases (any_decreases (current_values c) (previous_values newest))) [
        | inl d ↦ rw (e, d) (AtMost-refl (cumulative_of order t))
        | inr d ↦
            rw (e, d)
              (inserted-AtMost c hash fresh.0 order (new_delta c fresh.1 fresh.0 newest ∷ t.deltas)
                t d)
      ]
    ]

append_hashed-AtMost :
    (c : Checked) (hash order : ℕ) (fresh : ℕ × ℕ) (t : Tables)
    → AtMost (cumulative_of order t) (cumulative_of order (append_hashed c hash fresh t).1)
unfolding append_hashed
append_hashed-AtMost c hash order fresh t =
    elim (Option-cases
      (find_row (from_source c.source_response_id) c.broker_order_id t.snapshots)) [
        | inr (s, e) ↦ rw (e, append_hashed) (AtMost-refl (cumulative_of order t))
        | inl m ↦ elim (Option-cases (find_row (with_content hash) c.broker_order_id t.snapshots)) [
          | inr (s, e) ↦ rw (m, e, append_hashed) (AtMost-refl (cumulative_of order t))
          | inl n ↦ rw (m, n, append_hashed) (append_new-AtMost c hash order fresh t)
        ]
      ]

-- Whatever is reported, the cumulative quantity, amount, commission and tax of every order never
-- fall.
pub append_report-AtMost :
    (digest : List (Option Decimal) → ℕ) (orders : Dict (Option ℕ)) (r : Report) (fresh : ℕ × ℕ)
    (t : Tables) (order : ℕ)
    → AtMost (cumulative_of order t) (cumulative_of order (append_report digest orders r fresh t).1)
unfolding append_report
append_report-AtMost digest orders r fresh t order = go (check_report orders r) refl
  where
    go :
        (x : Result ExecutionError Checked)
        → check_report orders r ≡ x
        → AtMost
            (cumulative_of order t)
            (cumulative_of order (append_report digest orders r fresh t).1)
    go (err e) h = rw (h, append_report) (AtMost-refl (cumulative_of order t))
    go (ok c) h = rw (h, append_report) (append_hashed-AtMost c (digest (payload c)) order fresh t)
