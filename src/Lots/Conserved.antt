-- ===== src/Lots/Conserved.antt =====
-- What the disposals of an execution delta add up to.
use toss_trading_core.Prelude.{
  ==_eq, ==_refl, Bool, Bool-cases, Datetime, List, Result, [], arith, aware, err, inl, inr, ltb,
  map, min, ok, refl, some, subst, ℕ, ◌++◌, ◌+◌, ◌-◌, ◌==◌, ◌>>=◌, ◌∷◌, ◌≡◌, ◌≤◌,
}
use toss_trading_core.Lots.{
  Amount, DisposalRow, LotError, Tables, TaxLot, disposal_conflict, exactly, exceeds_lots, lots_of,
}
use toss_trading_core.Lots.Dispose.{
  Disposal, available, check_disposal, disposal_row, dispose_checked, dispose_fifo, dispose_known,
  dispose_new, disposed_by, ids_of, plan_fifo, put_plan, store_plans,
}

unfoldable pub sum_plans : List (ℕ × ℕ) → ℕ
sum_plans [] = 0
sum_plans ((lot, take) ∷ plans) = take + sum_plans plans

abbrev Adds : ℕ → Result LotError (List (ℕ × ℕ) × ℕ) → Type 0
Adds q (err e) = Unit
Adds q (ok (plans, rest)) = sum_plans plans + rest ≡ q

put_plan-Adds :
    (lot take q : ℕ) (x : Result LotError (List (ℕ × ℕ) × ℕ))
    → take ≤ q
    → Adds (q - take) x
    → Adds q (put_plan lot take x)
unfolding sum_plans
put_plan-Adds lot take q (err e) h a = tt
put_plan-Adds lot take q (ok (plans, rest)) h a = omega arith

plan_fifo-Adds : (day q : ℕ) (lots : List TaxLot) → Adds q (plan_fifo day q lots)
unfolding plan_fifo sum_plans
plan_fifo-Adds day q [] = omega arith
plan_fifo-Adds day q (lot ∷ lots) =
    let take = min q (available lot.remaining_quantity) in
    let rest = plan_fifo-Adds day (q - take) lots in
    elim (Bool-cases (ltb day lot.row.acquisition_date)) [
      | inl y ↦ rw y tt
      | inr b ↦ elim (Bool-cases (take == 0)) [
        | inl z ↦
            let e : take ≡ 0 = ==_eq take 0 z in
            let k : Adds q (plan_fifo day (q - take) lots) =
              subst (λ n. Adds n (plan_fifo day (q - take) lots)) (omega arith) rest in
            rw (b, z) k
        | inr z ↦ elim (Bool-cases (q - take == 0)) [
          | inl s ↦ rw (b, z, s) (ground arith)
          | inr s ↦ rw (b, z, s) (put_plan-Adds lot.row.lot_id take q _ (omega arith) rest)
        ]
      ]
    ]

disposed_by-stored :
    (disposal_name : ℕ → ℕ → ℕ) (d : Disposal) (plans : List (ℕ × ℕ)) (rows : List DisposalRow)
    → disposed_by d.execution_delta_id (map (disposal_row disposal_name d) plans ++ rows)
      ≡ sum_plans plans + disposed_by d.execution_delta_id rows
unfolding disposed_by sum_plans
disposed_by-stored disposal_name d [] rows = omega arith
disposed_by-stored disposal_name d ((lot, take) ∷ plans) rows =
    rw (==_refl d.execution_delta_id) (omega (arith, disposed_by-stored disposal_name d plans rows))

-- A delta that no row names has disposed of nothing.
ids_of-none :
    (delta : ℕ) (rows : List DisposalRow) → ids_of delta rows ≡ [] → disposed_by delta rows ≡ 0
unfolding ids_of disposed_by
ids_of-none delta [] h = refl
ids_of-none delta (r ∷ rows) h =
    let rest = ids_of-none delta rows in
    elim (Bool-cases (r.execution_delta_id == delta)) [
      | inl y ↦ let k : r.disposal_id ∷ ids_of delta rows ≡ [] = rw y at h in cc k
      | inr n ↦ rw n (rest (rw n at h))
    ]

store_plans-disposed :
    (disposal_name : ℕ → ℕ → ℕ) (d : Disposal) (x : Result LotError (List (ℕ × ℕ) × ℕ)) (t : Tables)
    (ids : List ℕ)
    → Adds d.quantity x
    → disposed_by d.execution_delta_id t.disposals ≡ 0
    → (store_plans disposal_name d x t).0 ≡ ok ids
    → disposed_by d.execution_delta_id (store_plans disposal_name d x t).1.disposals ≡ d.quantity
store_plans-disposed disposal_name d (err e) t ids a z h = cc h
store_plans-disposed disposal_name d (ok (plans, rest)) t ids a z h =
    elim (Bool-cases (rest == 0)) [
      | inr n ↦
          let k : ◌≡◌ {A = Result LotError (List ℕ)} (err exceeds_lots) (ok ids) = rw n at h in cc k
      | inl y ↦
          let e : rest ≡ 0 = ==_eq rest 0 y in
          rw y (omega (arith, disposed_by-stored disposal_name d plans t.disposals))
    ]

lots_then_plan-Adds :
    (d : Disposal) (x : Result LotError (List TaxLot))
    → Adds d.quantity (x >>= λ lots. plan_fifo d.disposal_date d.quantity lots)
lots_then_plan-Adds d (err e) = tt
lots_then_plan-Adds d (ok lots) = plan_fifo-Adds d.disposal_date d.quantity lots

dispose_known-disposed :
    (disposal_name : ℕ → ℕ → ℕ) (d : Disposal) (known : List ℕ) (t : Tables) (ids : List ℕ)
    → ids_of d.execution_delta_id t.disposals ≡ known
    → (dispose_known disposal_name d known t).0 ≡ ok ids
    → disposed_by d.execution_delta_id (dispose_known disposal_name d known t).1.disposals
      ≡ d.quantity
unfolding dispose_new
dispose_known-disposed disposal_name d [] t ids e h =
    store_plans-disposed disposal_name d _ t ids
      (lots_then_plan-Adds d (lots_of d.account_id d.instrument_id (some (aware d.instant)) t))
      (ids_of-none d.execution_delta_id t.disposals e) h
dispose_known-disposed disposal_name d (x ∷ xs) t ids e h =
    elim (Bool-cases (disposed_by d.execution_delta_id t.disposals == d.quantity)) [
      | inl y ↦ ==_eq _ _ y
      | inr n ↦
          let k : ◌≡◌ {A = Result LotError (List ℕ)} (err disposal_conflict) (ok ids) = rw n at h in
          cc k
    ]

check_disposal-fields :
    (delta account instrument : ℕ) (a : Amount) (day : ℕ) (at : Datetime) (policy_known : Bool)
    (d : Disposal)
    → check_disposal delta account instrument (exactly a) day at policy_known ≡ ok d
    → (d.execution_delta_id ≡ delta) × (d.quantity ≡ a.value)
unfolding check_disposal
check_disposal-fields delta account instrument a day at policy_known d h = ground arith

abbrev Leaves : ℕ → ℕ → Result LotError (List ℕ) × Tables → Type 0
Leaves delta q (r, t) = (ids : List ℕ) → r ≡ ok ids → disposed_by delta t.disposals ≡ q

dispose_checked-Leaves :
    (disposal_name : ℕ → ℕ → ℕ) (d : Disposal) (t : Tables)
    → Leaves d.execution_delta_id d.quantity (dispose_checked disposal_name d t)
unfolding dispose_checked
dispose_checked-Leaves disposal_name d t ids h =
    dispose_known-disposed disposal_name d (ids_of d.execution_delta_id t.disposals) t ids refl h

-- A disposal that returns, first or repeated, leaves rows of its execution delta that add up to
-- just the quantity that was asked for.
pub dispose_fifo-Leaves :
    (disposal_name : ℕ → ℕ → ℕ) (delta account instrument : ℕ) (a : Amount) (day : ℕ)
    (at : Datetime) (policy_known : Bool) (t : Tables) (ids : List ℕ)
    → let (r, t') =
        dispose_fifo disposal_name delta account instrument (exactly a) day at policy_known t in
      r ≡ ok ids → disposed_by delta t'.disposals ≡ a.value
unfolding dispose_fifo
dispose_fifo-Leaves disposal_name delta account instrument a day at policy_known t =
    go (check_disposal delta account instrument (exactly a) day at policy_known)
      (λ d k. check_disposal-fields delta account instrument a day at policy_known d k)
  where
    go :
        (c : Result LotError Disposal)
        → ((d : Disposal) → c ≡ ok d → (d.execution_delta_id ≡ delta) × (d.quantity ≡ a.value))
        → Leaves delta a.value
            (elim c [ err e ↦ (err e, t) | ok d ↦ dispose_checked disposal_name d t ])
    go (err e) f = λ ids h. cc h
    go (ok d) f =
        let (x, y) = f d refl in
        subst (λ q. Leaves delta q (dispose_checked disposal_name d t)) y
          (subst (λ i. Leaves i d.quantity (dispose_checked disposal_name d t)) x
            (dispose_checked-Leaves disposal_name d t))
