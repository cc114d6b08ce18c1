-- ===== src/Executions/Replays.antt =====
-- What a repeated report does, and the order in which cumulative values move.
use toss_trading_core.Prelude.{
  ==_refl, Bool, Bool-cases, List, Option, Option-cases, Result, ap, arith, err, inl, inr, none,
  not, ok, refl, some, subst, sym, true, ℕ, ◌&&◌, ◌==◌, ◌∙◌, ◌∷◌, ◌≡◌, ◌⊎◌,
}
use toss_trading_core.Executions.{
  Checked, Decimal, ExecutionDelta, ExecutionError, ExecutionSnapshot, Report, Tables,
  cumulative_decrease, current_values, evidence_conflict, find_row, from_source, latest_snapshot,
  previous_values, repeat_out_of_order, replay_out_of_order, time_backwards, with_content,
}
use toss_trading_core.Executions.Repository.{
  Appended, any_decreases, append_hashed, append_new, append_report, check_report, earlier_than,
  new_delta, new_snapshot, payload, replay_source, return_latest,
}
use toss_trading_core.Executions.Totals.{latest-new}
use toss_trading_core.Prelude.Dict.{Dict}

find_row-cons :
    (test : ExecutionSnapshot → Bool) (r : ExecutionSnapshot) (rows : List ExecutionSnapshot)
    → test r ≡ true
    → find_row test r.broker_order_id (r ∷ rows) ≡ some r
unfolding find_row
find_row-cons test r rows h = ground arith

abbrev pub with_rows : Checked → ℕ → ℕ → List ExecutionDelta → Tables → Tables
with_rows c hash fresh deltas t = record {
  snapshots =
      new_snapshot c hash fresh (latest_snapshot c.broker_order_id t.snapshots) ∷ t.snapshots;
  deltas = deltas;
}

replay_source-same :
    (hash instant : ℕ) (s : ExecutionSnapshot)
    → s.content_hash ≡ hash
    → s.observed_at_utc ≡ instant
    → replay_source hash instant s (some s) ≡ ok (s, none)
unfolding replay_source return_latest
replay_source-same hash instant s e f = ground arith

found_again :
    (c : Checked) (hash : ℕ) (fresh : ℕ × ℕ) (t : Tables) (s : ExecutionSnapshot)
    → find_row (from_source c.source_response_id) c.broker_order_id t.snapshots ≡ some s
    → append_hashed c hash fresh t
      ≡ (replay_source hash c.instant s (latest_snapshot c.broker_order_id t.snapshots), t)
unfolding append_hashed
found_again c hash fresh t s e = rw (e, append_hashed) refl

-- A row that was just inserted answers the same report again.
inserted_again :
    (c : Checked) (hash fresh : ℕ) (fresh' : ℕ × ℕ) (deltas : List ExecutionDelta) (t : Tables)
    → append_hashed c hash fresh' (with_rows c hash fresh deltas t) ≡ (
      ok (new_snapshot c hash fresh (latest_snapshot c.broker_order_id t.snapshots), none),
      with_rows c hash fresh deltas t,
    )
inserted_again c hash fresh fresh' deltas t =
    let newest = latest_snapshot c.broker_order_id t.snapshots in
    found_again c hash fresh' (with_rows c hash fresh deltas t) (new_snapshot c hash fresh newest) (
      find_row-cons (from_source c.source_response_id) (new_snapshot c hash fresh newest)
        t.snapshots (==_refl c.source_response_id))
    ∙ ap
        (λ x. (
          replay_source hash c.instant (new_snapshot c hash fresh newest) x,
          with_rows c hash fresh deltas t,
        ))
        (latest-new c hash fresh t.snapshots)
    ∙ ap (λ x. (x, with_rows c hash fresh deltas t))
        (replay_source-same hash c.instant (new_snapshot c hash fresh newest) refl refl)

-- A report that repeats a row changes nothing and brings no delta.
return_latest-none :
    (found : ExecutionSnapshot) (newest : Option ExecutionSnapshot) (e : ExecutionError)
    (s : ExecutionSnapshot) (d : Option ExecutionDelta)
    → return_latest found newest e ≡ ok (s, d)
    → return_latest found newest e ≡ ok (s, none)
unfolding return_latest
return_latest-none found none e s d h = cc h
return_latest-none found (some q) e s d h = ground arith

replay_source-none :
    (hash instant : ℕ) (found : ExecutionSnapshot) (newest : Option ExecutionSnapshot)
    (s : ExecutionSnapshot) (d : Option ExecutionDelta)
    → replay_source hash instant found newest ≡ ok (s, d)
    → replay_source hash instant found newest ≡ ok (s, none)
unfolding replay_source
replay_source-none hash instant found newest s d h =
    elim (Bool-cases (not (found.content_hash == hash && found.observed_at_utc == instant))) [
      | inl y ↦ let k : err evidence_conflict ≡ ok (s, d) = rw y at h in cc k
      | inr n ↦ rw n (return_latest-none found newest replay_out_of_order s d (rw n at h))
    ]

ok_snapshot :
    (x y : ExecutionSnapshot) (d e : Option ExecutionDelta)
    → ◌≡◌ {A = Appended} (ok (x, d)) (ok (y, e))
    → x ≡ y
ok_snapshot x y d e h = cc h

-- The tables after an accepted report: the same, or with the two new rows.
abbrev Outcome : Checked → ℕ → ℕ × ℕ → ℕ × ℕ → ExecutionSnapshot → Tables → Tables → Type 0
Outcome c hash fresh fresh' s t t' =
    ((t' ≡ t) × (append_hashed c hash fresh' t ≡ (ok (s, none), t)))
    ⊎ ((deltas : List ExecutionDelta) × t' ≡ with_rows c hash fresh.0 deltas t
        × new_snapshot c hash fresh.0 (latest_snapshot c.broker_order_id t.snapshots) ≡ s)

append_new-Outcome :
    (c : Checked) (hash : ℕ) (fresh fresh' : ℕ × ℕ) (t : Tables) (s : ExecutionSnapshot)
    (d : Option ExecutionDelta)
    → (append_new c hash fresh (latest_snapshot c.broker_order_id t.snapshots) t).0 ≡ ok (s, d)
    → Outcome c hash fresh fresh' s t
        (append_new c hash fresh (latest_snapshot c.broker_order_id t.snapshots) t).1
unfolding append_new
append_new-Outcome c hash fresh fresh' t s d h =
    let newest = latest_snapshot c.broker_order_id t.snapshots in
    elim (Bool-cases (earlier_than c.instant newest)) [
      | inl e ↦ let k : err time_backwards ≡ ok (s, d) = rw e at h in cc k
      | inr e ↦ elim (Bool-cases (any_decreases (current_values c) (previous_values newest))) [
        | inl f ↦ let k : err cumulative_decrease ≡ ok (s, d) = rw (e, f) at h in cc k
        | inr f ↦
            rw (e, f)
              (inr (
                new_delta c fresh.1 fresh.0 newest ∷ t.deltas,
                refl,
                ok_snapshot _ s _ d (rw (e, f) at h),
              ))
      ]
    ]

append_hashed-Outcome :
    (c : Checked) (hash : ℕ) (fresh fresh' : ℕ × ℕ) (t : Tables) (s : ExecutionSnapshot)
    (d : Option ExecutionDelta)
    → (append_hashed c hash fresh t).0 ≡ ok (s, d)
    → Outcome c hash fresh fresh' s t (append_hashed c hash fresh t).1
unfolding append_hashed
append_hashed-Outcome c hash fresh fresh' t s d h =
    let newest = latest_snapshot c.broker_order_id t.snapshots in
    elim (Option-cases
      (find_row (from_source c.source_response_id) c.broker_order_id t.snapshots)) [
        | inr (q, e) ↦
            rw (e, append_hashed)
              (inl (
                refl,
                ap (λ x. (x, t))
                    (replay_source-none hash c.instant q newest s d (rw (e, append_hashed) at h)),
              ))
        | inl m ↦ elim (Option-cases (find_row (with_content hash) c.broker_order_id t.snapshots)) [
          | inr (q, e) ↦
              rw (m, e, append_hashed)
                (inl (
                  refl,
                  ap (λ x. (x, t))
                      (return_latest-none q newest repeat_out_of_order s d
                        (rw (m, e, append_hashed) at h)),
                ))
          | inl n ↦
              let p : append_hashed c hash fresh t ≡ append_new c hash fresh newest t =
                rw (m, n, append_hashed) refl in
              subst (λ x. Outcome c hash fresh fresh' s t x.1) (sym p)
                (append_new-Outcome c hash fresh fresh' t s d (subst (λ x. x.0 ≡ ok (s, d)) p h))
        ]
      ]

append_hashed_again :
    (c : Checked) (hash : ℕ) (fresh fresh' : ℕ × ℕ) (t : Tables) (s : ExecutionSnapshot)
    (d : Option ExecutionDelta)
    → (append_hashed c hash fresh t).0 ≡ ok (s, d)
    → append_hashed c hash fresh' (append_hashed c hash fresh t).1
      ≡ (ok (s, none), (append_hashed c hash fresh t).1)
append_hashed_again c hash fresh fresh' t s d h =
    elim (append_hashed-Outcome c hash fresh fresh' t s d h) [
      | inl (e, f) ↦ subst (λ t'. append_hashed c hash fresh' t' ≡ (ok (s, none), t')) (sym e) f
      | inr (deltas, e, f) ↦
          subst (λ t'. append_hashed c hash fresh' t' ≡ (ok (s, none), t')) (sym e)
            (subst
              (λ x.
                append_hashed c hash fresh' (with_rows c hash fresh.0 deltas t)
                ≡ (ok (x, none), with_rows c hash fresh.0 deltas t))
              f (inserted_again c hash fresh.0 fresh' deltas t))
    ]

append_report-checked :
    (digest : List (Option Decimal) → ℕ) (orders : Dict (Option ℕ)) (r : Report) (fresh : ℕ × ℕ)
    (t : Tables) (c : Checked)
    → check_report orders r ≡ ok c
    → append_report digest orders r fresh t ≡ append_hashed c (digest (payload c)) fresh t
unfolding append_report
append_report-checked digest orders r fresh t c h = rw (h, append_report) refl

append_report-refused :
    (digest : List (Option Decimal) → ℕ) (orders : Dict (Option ℕ)) (r : Report) (fresh : ℕ × ℕ)
    (t : Tables) (e : ExecutionError)
    → check_report orders r ≡ err e
    → append_report digest orders r fresh t ≡ (err e, t)
unfolding append_report
append_report-refused digest orders r fresh t e h = rw (h, append_report) refl

-- A report that was accepted and is sent again returns the same snapshot with no new delta, and
-- changes nothing.
pub append_report_again :
    (digest : List (Option Decimal) → ℕ) (orders : Dict (Option ℕ)) (r : Report)
    (fresh fresh' : ℕ × ℕ) (t : Tables) (s : ExecutionSnapshot) (d : Option ExecutionDelta)
    → (append_report digest orders r fresh t).0 ≡ ok (s, d)
    → append_report digest orders r fresh' (append_report digest orders r fresh t).1
      ≡ (ok (s, none), (append_report digest orders r fresh t).1)
append_report_again digest orders r fresh fresh' t s d h = go (check_report orders r) refl
  where
    go :
        (x : Result ExecutionError Checked)
        → check_report orders r ≡ x
        → append_report digest orders r fresh' (append_report digest orders r fresh t).1
          ≡ (ok (s, none), (append_report digest orders r fresh t).1)
    go (err e) k =
        let a : ◌≡◌ {A = Appended} (err e) (ok (s, d)) =
          sym (ap (λ x. x.0) (append_report-refused digest orders r fresh t e k)) ∙ h in
        cc a
    go (ok c) k =
        let p : append_report digest orders r fresh t
            ≡ append_hashed c (digest (payload c)) fresh t =
          append_report-checked digest orders r fresh t c k in
        subst (λ x. append_report digest orders r fresh' x.1 ≡ (ok (s, none), x.1)) (sym p)
          (append_report-checked digest orders r fresh' _ c k
            ∙ append_hashed_again c (digest (payload c)) fresh fresh' t s d
                (subst (λ x. x.0 ≡ ok (s, d)) p h))
