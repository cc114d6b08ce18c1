-- ===== src/Lots/Acquired.antt =====
-- An acquisition leaves a lot of its quantity under its execution delta.
use toss_trading_core.Prelude.{
  ==_refl, Bool-cases, Option, Result, ap, arith, bind_ok, err, if◌then◌else◌, inl, inr, none, ok,
  ok_inj, refl, require_ok, some, subst, sym, true, ℕ, ◌==◌, ◌∷◌, ◌≡◌,
}
use toss_trading_core.Lots.{
  Amount, LotError, LotRow, Tables, exact, exactly, find_lot, lot_conflict, lot_values_invalid,
  settlement_before_acquisition,
}
use toss_trading_core.Lots.Acquire.{
  Acquisition, above_zero, acquire, at_least_zero, check_acquisition, instant_if, same_values,
  settles_in_time, store_lot,
}

check_acquisition-fields :
    (lot_name : ℕ → ℕ) (a : Acquisition) (q : Amount) (r : LotRow)
    → a.quantity ≡ exactly q
    → check_acquisition lot_name a ≡ ok r
    → (r.execution_delta_id ≡ a.execution_delta_id) × (r.quantity.value ≡ q.value)
unfolding check_acquisition
check_acquisition-fields lot_name a q r e h =
    let (g, g1, r1) = bind_ok (exact a.quantity) _ r h in
    let (p, _, r2) = bind_ok (exact a.price) _ r r1 in
    let (c, _, r3) = bind_ok (exact a.commission) _ r r2 in
    let (f, _, r4) = bind_ok (exact a.fx_rate) _ r r3 in
    let (quantity, g2, r5) = bind_ok (above_zero g) _ r r4 in
    let (price, _, r6) = bind_ok (at_least_zero p) _ r r5 in
    let (commission, _, r7) = bind_ok (at_least_zero c) _ r r6 in
    let (fx, _, r8) = bind_ok (above_zero f) _ r r7 in
    let (at, _, r9) = bind_ok (instant_if a.policy_known a.observed_at_utc) _ r r8 in
    let (_, last) =
      require_ok (settles_in_time a.settlement_date a.acquisition_date)
        settlement_before_acquisition _ r r9 in
    let g3 : exactly q ≡ g = ok_inj (subst (λ z. exact z ≡ ok g) e g1) in
    let k : quantity ≡ q = taken quantity (subst (λ z. above_zero z ≡ ok quantity) (sym g3) g2) in
    subst (λ z. (z.execution_delta_id ≡ a.execution_delta_id) × (z.quantity.value ≡ q.value))
      (ok_inj last) (refl, ap (λ z. z.value) k)
  where
    taken : (x : Amount) → above_zero (exactly q) ≡ ok x → x ≡ q
    taken x h = elim (Bool-cases (q.value == 0)) [
      | inl y ↦ let c : err lot_values_invalid ≡ ok x = rw y at h in cc c
      | inr n ↦ sym (ok_inj (rw n at h))
    ]

-- A lot under the delta that has the quantity.
abbrev pub HasLot : ℕ → ℕ → Tables → Type 0
HasLot delta q t = (r : LotRow) × (find_lot delta t.lots ≡ some r) × (r.quantity.value ≡ q)

same_values-quantity : (a b : LotRow) → same_values a b ≡ true → a.quantity.value ≡ b.quantity.value
unfolding same_values
same_values-quantity a b h = ground (arith, h)

store_lot-HasLot :
    (r : LotRow) (t : Tables) (id : ℕ)
    → (store_lot r t).0 ≡ ok id
    → HasLot r.execution_delta_id r.quantity.value (store_lot r t).1
unfolding store_lot find_lot
store_lot-HasLot r t id = go (find_lot r.execution_delta_id t.lots) refl
  where
    Kept : Result LotError ℕ × Tables → Type 0
    Kept p = p.0 ≡ ok id → HasLot r.execution_delta_id r.quantity.value p.1

    go :
        (o : Option LotRow)
        → find_lot r.execution_delta_id t.lots ≡ o
        → Kept (elim o [
          | some old ↦ (if same_values old r then ok r.lot_id else err lot_conflict, t)
          | none ↦ (ok r.lot_id, record t { lots = r ∷ t.lots })
        ])
    go none f = λ h. (r, rw (==_refl r.execution_delta_id) refl, refl)
    go (some old) f = elim (Bool-cases (same_values old r)) [
      | inl y ↦ rw y (λ h. (old, f, same_values-quantity old r y))
      | inr n ↦ rw n (λ h. cc h)
    ]

pub acquire-HasLot :
    (lot_name : ℕ → ℕ) (a : Acquisition) (q : Amount) (t : Tables) (id : ℕ)
    → a.quantity ≡ exactly q
    → (acquire lot_name a t).0 ≡ ok id
    → HasLot a.execution_delta_id q.value (acquire lot_name a t).1
unfolding acquire
acquire-HasLot lot_name a q t id e =
    go (check_acquisition lot_name a) (λ r k. check_acquisition-fields lot_name a q r e k)
  where
    Kept : Result LotError ℕ × Tables → Type 0
    Kept p = p.0 ≡ ok id → HasLot a.execution_delta_id q.value p.1

    go :
        (c : Result LotError LotRow)
        → ((r : LotRow)
            → c ≡ ok r
            → (r.execution_delta_id ≡ a.execution_delta_id) × (r.quantity.value ≡ q.value))
        → Kept (elim c [ err x ↦ (err x, t) | ok r ↦ store_lot r t ])
    go (err x) f = λ h. cc h
    go (ok r) f = λ h.
        let (i, v) = f r refl in
        subst (λ z. HasLot z q.value (store_lot r t).1) i
          (subst (λ z. HasLot r.execution_delta_id z (store_lot r t).1) v
            (store_lot-HasLot r t id h))
