-- ===== src/Ledger/Replaced.antt =====
-- A new event of an order replaces what the order held before.
use toss_trading_core.Prelude.{
  ==_eq, ==_refl, All, All-map, Bool-cases, List, Result, [], ap, arith, err, false, if◌then◌else◌,
  inl, inr, none, ok, refl, subst, sym, true, ℕ, ◌+◌, ◌<◌, ◌==◌, ◌∷◌, ◌≡◌, ◌≤◌,
}
use toss_trading_core.Ledger.{Evidence, LedgerError, integrity}
use toss_trading_core.Ledger.Reservations.{
  Reservation, ReservationRow, Window, can_reserve, find_reservation, held_by, if_reserved,
  in_window, insert_reservation, latest_of, reserve, reserve_unless_known, reserved_total,
  sequence_after, sequence_in, sum_held,
}
use toss_trading_core.Ledger.Reserved.{IsSequenced, Precedes, reserve-IsSequenced}

-- What the rows of an order hold.
unfoldable pub held_for : Window → ℕ → List ReservationRow → List ReservationRow → ℕ
unfolding sequence_in
held_for w order rows [] = 0
held_for w order rows (r ∷ rest) =
    let others = held_for w order rows rest in
    if r.body.broker_order_id == order then held_by w rows r + others else others

-- The rows of an order are below a number.
abbrev pub Below : ℕ → ℕ → ReservationRow → Type 0
Below order n s = s.body.broker_order_id ≡ order → s.sequence_no < n

sequence_in-upper :
    (w : Window) (order n : ℕ) (rows : List ReservationRow)
    → 1 ≤ n
    → All (Below order n) rows
    → sequence_in w order rows < n
unfolding sequence_in
sequence_in-upper w order n [] one a = omega (arith, one)
sequence_in-upper w order n (r ∷ rows) one a =
    let i = sequence_in-upper w order n rows one a.1 in
    elim (Bool-cases (r.body.broker_order_id == order)) [
      | inr k ↦ rw k i
      | inl y ↦ elim (Bool-cases (in_window w r.body)) [
        | inr k ↦ rw (y, k) i
        | inl k ↦ let l = a.0 (==_eq _ order y) in rw (y, k) (omega (arith, i, l))
      ]
    ]

-- A row in the window that is above all others of its order is its last.
sequence_in-new :
    (w : Window) (x : ReservationRow) (rows : List ReservationRow)
    → in_window w x.body ≡ true
    → 1 ≤ x.sequence_no
    → All (Below x.body.broker_order_id x.sequence_no) rows
    → sequence_in w x.body.broker_order_id (x ∷ rows) ≡ x.sequence_no
unfolding sequence_in
sequence_in-new w x rows i one a =
    let l = sequence_in-upper w x.body.broker_order_id x.sequence_no rows one a in
    rw (==_refl x.body.broker_order_id, i) (omega (arith, l))

sequence_in-other :
    (w : Window) (order : ℕ) (x : ReservationRow) (rows : List ReservationRow)
    → (x.body.broker_order_id == order) ≡ false
    → sequence_in w order (x ∷ rows) ≡ sequence_in w order rows
unfolding sequence_in
sequence_in-other w order x rows n = rw n refl

sum_held-replaced :
    (w : Window) (x : ReservationRow) (rows rest : List ReservationRow)
    → in_window w x.body ≡ true
    → 1 ≤ x.sequence_no
    → All (Below x.body.broker_order_id x.sequence_no) rows
    → All (Below x.body.broker_order_id x.sequence_no) rest
    → sum_held w (x ∷ rows) rest + held_for w x.body.broker_order_id rows rest
      ≡ sum_held w rows rest
unfolding sum_held held_for
sum_held-replaced w x rows [] i one a b = refl
sum_held-replaced w x rows (r ∷ rest) i one a b =
    let ih = sum_held-replaced w x rows rest i one a b.1 in
    elim (Bool-cases (r.body.broker_order_id == x.body.broker_order_id)) [
      | inl y ↦ let old : held_by w (x ∷ rows) r ≡ 0 = gone y in rw y (omega (arith, ih, old))
      | inr n ↦
          let same : held_by w (x ∷ rows) r ≡ held_by w rows r = kept n in
          rw n (omega (arith, ih, same))
    ]
  where
    differ : r.sequence_no < x.sequence_no → (r.sequence_no == x.sequence_no) ≡ false
    differ l = ground (arith, l)

    apart :
        (r.body.broker_order_id == x.body.broker_order_id) ≡ false
        → (x.body.broker_order_id == r.body.broker_order_id) ≡ false
    apart n = ground (arith, n)

    gone : (r.body.broker_order_id == x.body.broker_order_id) ≡ true → held_by w (x ∷ rows) r ≡ 0
    gone y =
        let e = ==_eq r.body.broker_order_id x.body.broker_order_id y in
        let l : sequence_in w r.body.broker_order_id (x ∷ rows) ≡ x.sequence_no =
          subst (λ o. sequence_in w o (x ∷ rows) ≡ x.sequence_no) (sym e)
            (sequence_in-new w x rows i one a) in
        let d : (r.sequence_no == x.sequence_no) ≡ false = differ (b.0 e) in
        subst (λ n. (if r.sequence_no == n then if_reserved r.body.status r.body.amount else 0) ≡ 0)
          (sym l) (rw d refl)

    kept :
        (r.body.broker_order_id == x.body.broker_order_id) ≡ false
        → held_by w (x ∷ rows) r ≡ held_by w rows r
    kept n =
        ap (λ m. if r.sequence_no == m then if_reserved r.body.status r.body.amount else 0)
          (sequence_in-other w r.body.broker_order_id x rows (apart n))

-- A call for a new response that returns stores one row under the id that it was given.
pub reserve-row :
    (fresh : ℕ) (q : Reservation) (evidence : Evidence) (rows : List ReservationRow) (id : ℕ)
    → find_reservation q.broker_order_id q.source_response_id rows ≡ none
    → (reserve fresh q evidence rows).0 ≡ ok id
    → (n : ℕ) × ((reserve fresh q evidence rows).1
        ≡ record { reservation_event_id = fresh; sequence_no = n; body = q } ∷ rows)
unfolding reserve
reserve-row fresh q evidence rows id k h =
    subst
      (λ o.
        (reserve_unless_known fresh q evidence o rows).0 ≡ ok id
        → (n : ℕ) × ((reserve_unless_known fresh q evidence o rows).1
            ≡ record { reservation_event_id = fresh; sequence_no = n; body = q } ∷ rows))
      (sym k) (go (sequence_after q (latest_of q.broker_order_id rows))) h
  where
    go :
        (s : Result LedgerError ℕ)
        → (insert_reservation fresh q evidence s rows).0 ≡ ok id
        → (n : ℕ) × ((insert_reservation fresh q evidence s rows).1
            ≡ record { reservation_event_id = fresh; sequence_no = n; body = q } ∷ rows)
    go (err e) g = cc g
    go (ok n) g = elim (Bool-cases (can_reserve fresh q evidence rows)) [
      | inl y ↦ (n, rw y refl)
      | inr y ↦ let c : err integrity ≡ ok id = rw y at g in cc c
    ]

sum_held-new :
    (w : Window) (x : ReservationRow) (rows : List ReservationRow)
    → in_window w x.body ≡ true
    → 1 ≤ x.sequence_no
    → All (Below x.body.broker_order_id x.sequence_no) rows
    → sum_held w (x ∷ rows) (x ∷ rows) + held_for w x.body.broker_order_id rows rows
      ≡ sum_held w rows rows + if_reserved x.body.status x.body.amount
unfolding sum_held
sum_held-new w x rows i one a =
    let old = sum_held-replaced w x rows rows i one a a in
    let l : held_by w (x ∷ rows) x ≡ if_reserved x.body.status x.body.amount =
      rw (sequence_in-new w x rows i one a, ==_refl x.sequence_no) refl in
    omega (arith, old, l)

-- A report of an order from a new response makes the order hold exactly what it asks for, in every
-- window with its time, and leaves what the other orders hold.
pub reserve-Replaced :
    (fresh : ℕ) (q : Reservation) (evidence : Evidence) (rows : List ReservationRow) (w : Window)
    (id : ℕ)
    → IsSequenced rows
    → find_reservation q.broker_order_id q.source_response_id rows ≡ none
    → (reserve fresh q evidence rows).0 ≡ ok id
    → in_window w q ≡ true
    → reserved_total w (reserve fresh q evidence rows).1 + held_for w q.broker_order_id rows rows
      ≡ reserved_total w rows + if_reserved q.status q.amount
unfolding reserve reserved_total
reserve-Replaced fresh q evidence rows w id s k h i =
    let (n, e) = reserve-row fresh q evidence rows id k h in
    let (one, before, _) = subst IsSequenced e (reserve-IsSequenced fresh q evidence rows s) in
    subst
      (λ new.
        sum_held w new new + held_for w q.broker_order_id rows rows
        ≡ sum_held w rows rows + if_reserved q.status q.amount)
      (sym e)
      (sum_held-new w (record { reservation_event_id = fresh; sequence_no = n; body = q }) rows i
        one
        (All-map (Precedes (record { reservation_event_id = fresh; sequence_no = n; body = q }))
          (Below q.broker_order_id n) (λ x p o. (p o).0) rows before))
