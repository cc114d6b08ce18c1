-- ===== src/Executions/Totals.antt =====
-- The deltas of an order add up to its latest cumulative snapshot.
use toss_trading_core.Prelude.{
  ==_eq, ==_refl, Bool-cases, List, Option, Option-cases, Result, [], arith, err, false,
  if◌then◌else◌, inl, inr, ok, refl, some, subst, ℕ, ◌+◌, ◌==◌, ◌∷◌, ◌≡◌,
}
use toss_trading_core.Executions.{
  Checked, Decimal, ExecutionDelta, ExecutionError, ExecutionSnapshot, Report, Tables, Values,
  current_values, find_row, from_source, latest_snapshot, no_values, previous_values, with_content,
}
use toss_trading_core.Executions.Repository.{
  any_decreases, append_hashed, append_new, append_report, check_report, difference, earlier_than,
  new_delta, new_snapshot, payload,
}
use toss_trading_core.Prelude.Dict.{Dict}

abbrev pub add_values : Values → Values → Values
add_values v w = record {
  quantity = v.quantity + w.quantity;
  amount = v.amount + w.amount;
  commission = v.commission + w.commission;
  tax = v.tax + w.tax;
}

-- The sum of the deltas of one order.
unfoldable pub total_delta : ℕ → List ExecutionDelta → Values
total_delta order [] = no_values
total_delta order (d ∷ rows) =
    let rest = total_delta order rows in
    if d.broker_order_id == order then add_values d.values rest else rest

-- The sum of the deltas of every order is what its latest snapshot says.
abbrev pub IsTotalled : Tables → Type 0
IsTotalled t =
    (order : ℕ) → total_delta order t.deltas ≡ previous_values (latest_snapshot order t.snapshots)

no_decrease :
    (new old : Values) → any_decreases new old ≡ false → add_values (difference new old) old ≡ new
no_decrease new old h = ground arith

-- The row that `append_new` conses is the latest one of its order.
pub latest-new :
    (c : Checked) (hash fresh : ℕ) (rows : List ExecutionSnapshot)
    → latest_snapshot c.broker_order_id
        (new_snapshot c hash fresh (latest_snapshot c.broker_order_id rows) ∷ rows)
      ≡ some (new_snapshot c hash fresh (latest_snapshot c.broker_order_id rows))
unfolding latest_snapshot
latest-new c hash fresh rows = elim (Option-cases (latest_snapshot c.broker_order_id rows)) [
  | inl m ↦ rw (m, ==_refl c.broker_order_id) refl
  | inr (q, e) ↦ rw (e, ==_refl c.broker_order_id) (ground arith)
]

inserted-IsTotalled :
    (c : Checked) (hash fresh fresh' : ℕ) (t : Tables)
    → any_decreases
        (current_values c)
        (previous_values (latest_snapshot c.broker_order_id t.snapshots))
      ≡ false
    → IsTotalled t
    → IsTotalled (record {
      snapshots =
          new_snapshot c hash fresh (latest_snapshot c.broker_order_id t.snapshots) ∷ t.snapshots;
      deltas = new_delta c fresh' fresh (latest_snapshot c.broker_order_id t.snapshots) ∷ t.deltas;
    })
inserted-IsTotalled c hash fresh fresh' t h totalled order =
    elim (Bool-cases (c.broker_order_id == order)) [
      | inl same ↦
          subst
            (λ i.
              total_delta i (
                new_delta c fresh' fresh (latest_snapshot c.broker_order_id t.snapshots) ∷ t.deltas)
              ≡ previous_values (
                  latest_snapshot i (
                    new_snapshot c hash fresh (latest_snapshot c.broker_order_id t.snapshots)
                    ∷ t.snapshots)))
            (==_eq c.broker_order_id order same)
            (unfold total_delta in
              rw
                (
                  ==_refl c.broker_order_id,
                  latest-new c hash fresh t.snapshots,
                  totalled c.broker_order_id,
                )
                (no_decrease (current_values c) _ h))
      | inr other ↦ unfold total_delta latest_snapshot in rw other (totalled order)
    ]

append_new-IsTotalled :
    (c : Checked) (hash : ℕ) (fresh : ℕ × ℕ) (t : Tables)
    → IsTotalled t
    → IsTotalled (append_new c hash fresh (latest_snapshot c.broker_order_id t.snapshots) t).1
unfolding append_new
append_new-IsTotalled c hash fresh t totalled =
    let newest = latest_snapshot c.broker_order_id t.snapshots in
    elim (Bool-cases (earlier_than c.instant newest)) [
      | inl e ↦ rw e totalled
      | inr e ↦ elim (Bool-cases (any_decreases (current_values c) (previous_values newest))) [
        | inl d ↦ rw (e, d) totalled
        | inr d ↦ rw (e, d) (inserted-IsTotalled c hash fresh.0 fresh.1 t d totalled)
      ]
    ]

append_hashed-IsTotalled :
    (c : Checked) (hash : ℕ) (fresh : ℕ × ℕ) (t : Tables)
    → IsTotalled t
    → IsTotalled (append_hashed c hash fresh t).1
unfolding append_hashed total_delta latest_snapshot
append_hashed-IsTotalled c hash fresh t totalled =
    elim (Option-cases
      (find_row (from_source c.source_response_id) c.broker_order_id t.snapshots)) [
        | inr (s, e) ↦ rw (e, append_hashed) totalled
        | inl m ↦ elim (Option-cases (find_row (with_content hash) c.broker_order_id t.snapshots)) [
          | inr (s, e) ↦ rw (m, e, append_hashed) totalled
          | inl n ↦ rw (m, n, append_hashed) (append_new-IsTotalled c hash fresh t totalled)
        ]
      ]

-- Every report, accepted or refused, keeps the ledger's deltas in step with the broker: for each
-- order the deltas add up to the latest cumulative quantity, amount, commission and tax.
pub append_report-IsTotalled :
    (digest : List (Option Decimal) → ℕ) (orders : Dict (Option ℕ)) (r : Report) (fresh : ℕ × ℕ)
    (t : Tables)
    → IsTotalled t
    → IsTotalled (append_report digest orders r fresh t).1
unfolding append_report total_delta latest_snapshot
append_report-IsTotalled digest orders r fresh t totalled = go (check_report orders r) refl
  where
    go :
        (x : Result ExecutionError Checked)
        → check_report orders r ≡ x
        → IsTotalled (append_report digest orders r fresh t).1
    go (err e) h = rw (h, append_report) totalled
    go (ok c) h =
        rw (h, append_report) (append_hashed-IsTotalled c (digest (payload c)) fresh t totalled)
