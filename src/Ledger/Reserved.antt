-- ===== src/Ledger/Reserved.antt =====
-- The events of an order are in sequence, and what is reserved in a window follows its last event.
use toss_trading_core.Prelude.{
  ==_eq, ==_refl, All, All-map, Bool-cases, List, Option, Option-cases, [], arith, false, inl, inr,
  ltb, none, ok, refl, some, some_inj, subst, sym, true, ℕ, ◌&&◌, ◌+◌, ◌<◌, ◌==◌, ◌∙◌, ◌∷◌, ◌≡◌,
  ◌≢◌, ◌≤◌,
}
use toss_trading_core.Ledger.{Evidence}
use toss_trading_core.Ledger.Reservations.{
  Reservation, ReservationRow, can_reserve, find_reservation, insert_reservation, latest_of,
  reserve, same_reservation, sequence_after,
}

-- An older row of the same order has a smaller number, the same account and subject, and no later
-- time.
abbrev pub Precedes : ReservationRow → ReservationRow → Type 0
Precedes r s =
    s.body.broker_order_id ≡ r.body.broker_order_id
    → (s.sequence_no < r.sequence_no)
      × (s.body.observed_at_utc ≤ r.body.observed_at_utc)
      × (s.body.account_id ≡ r.body.account_id)
      × (s.body.subject ≡ r.body.subject)

abbrev pub IsSequenced : List ReservationRow → Type 0
IsSequenced [] = Unit
IsSequenced (r ∷ rows) = (1 ≤ r.sequence_no) × All (Precedes r) rows × IsSequenced rows

-- The latest row of an order is one of the rows.
pub latest_of-All :
    (P : ReservationRow → Type 0) (order : ℕ) (rows : List ReservationRow) (r : ReservationRow)
    → All P rows
    → latest_of order rows ≡ some r
    → P r × (r.body.broker_order_id ≡ order)
unfolding latest_of
latest_of-All P order [] r a h = cc
latest_of-All P order (x ∷ rows) r a h = elim (Bool-cases (x.body.broker_order_id == order)) [
  | inr n ↦ latest_of-All P order rows r a.1 (rw n at h)
  | inl y ↦ elim (Option-cases (latest_of order rows)) [
    | inl m ↦
        let e : x ≡ r = some_inj (rw (y, m) at h) in
        subst (λ z. P z × (z.body.broker_order_id ≡ order)) e (a.0, ==_eq _ order y)
    | inr (s, m) ↦ elim (Bool-cases (ltb s.sequence_no x.sequence_no)) [
      | inl l ↦
          let e : x ≡ r = some_inj (rw (y, m, l) at h) in
          subst (λ z. P z × (z.body.broker_order_id ≡ order)) e (a.0, ==_eq _ order y)
      | inr l ↦
          let e : s ≡ r = some_inj (rw (y, m, l) at h) in
          latest_of-All P order rows r a.1 (rw e at m)
    ]
  ]
]

-- In a sequence the first row of an order is its latest one.
pub latest_of-head :
    (order : ℕ) (x : ReservationRow) (rows : List ReservationRow)
    → IsSequenced (x ∷ rows)
    → (x.body.broker_order_id == order) ≡ true
    → latest_of order (x ∷ rows) ≡ some x
unfolding latest_of
latest_of-head order x rows (one, before, rest) y = elim (Option-cases (latest_of order rows)) [
  | inl m ↦ rw (y, m) refl
  | inr (s, m) ↦
      let (p, q) = latest_of-All (Precedes x) order rows s before m in
      let l : s.sequence_no < x.sequence_no = (p (q ∙ sym (==_eq _ order y))).0 in
      rw (y, m) (ground (arith, l))
]

pub latest_of-other :
    (order : ℕ) (x : ReservationRow) (rows : List ReservationRow)
    → (x.body.broker_order_id == order) ≡ false
    → latest_of order (x ∷ rows) ≡ latest_of order rows
unfolding latest_of
latest_of-other order x rows n = rw n refl

-- The latest row bounds every row of its order; no row is of an order without a latest one.
abbrev pub UpTo : ℕ → Option ReservationRow → ReservationRow → Type 0
UpTo order none s = s.body.broker_order_id ≢ order
UpTo order (some r) s =
    s.body.broker_order_id ≡ order
    → (s.sequence_no ≤ r.sequence_no)
      × (s.body.observed_at_utc ≤ r.body.observed_at_utc)
      × (s.body.account_id ≡ r.body.account_id)
      × (s.body.subject ≡ r.body.subject)

pub latest_of-UpTo :
    (order : ℕ) (rows : List ReservationRow)
    → IsSequenced rows
    → All (UpTo order (latest_of order rows)) rows
unfolding latest_of
latest_of-UpTo order [] q = tt
latest_of-UpTo order (x ∷ rows) q = elim (Bool-cases (x.body.broker_order_id == order)) [
  | inl y ↦
      subst (λ o. All (UpTo order o) (x ∷ rows)) (sym (latest_of-head order x rows q y))
        (
          (λ _. (omega arith, omega arith, refl, refl)),
          All-map (Precedes x) (UpTo order (some x)) (bound y) rows q.1,
        )
  | inr n ↦
      subst (λ o. All (UpTo order o) (x ∷ rows)) (sym (latest_of-other order x rows n))
        (other n (latest_of order rows) refl, latest_of-UpTo order rows q.2)
]
  where
    bound :
        (x.body.broker_order_id == order) ≡ true
        → (s : ReservationRow) → Precedes x s
        → UpTo order (some x) s
    bound y s p h = let (a, b, c, d) = p (h ∙ sym (==_eq _ order y)) in (omega (arith, a), b, c, d)

    other :
        (x.body.broker_order_id == order) ≡ false
        → (o : Option ReservationRow) → latest_of order rows ≡ o
        → UpTo order o x
    other n none m = λ h.
        let k : (order == order) ≡ false = subst (λ z. (z == order) ≡ false) h n in
        cc (k, ==_refl order)
    other n (some r) m = λ h.
        let k : (order == order) ≡ false = subst (λ z. (z == order) ≡ false) h n in
        cc (k, ==_refl order)

-- Every call keeps the table in sequence.
pub reserve-IsSequenced :
    (fresh : ℕ) (q : Reservation) (evidence : Evidence) (rows : List ReservationRow)
    → IsSequenced rows
    → IsSequenced (reserve fresh q evidence rows).1
unfolding reserve
reserve-IsSequenced fresh q evidence rows s =
    elim (Option-cases (find_reservation q.broker_order_id q.source_response_id rows)) [
      | inr (r, k) ↦ elim (Bool-cases (same_reservation q r.body)) [
        | inl y ↦ rw (k, y) s
        | inr n ↦ rw (k, n) s
      ]
      | inl k ↦
          rw k
            (fresh_row (latest_of q.broker_order_id rows) (latest_of-UpTo q.broker_order_id rows s))
    ]
  where
    inserted :
        (n : ℕ)
        → IsSequenced (record { reservation_event_id = fresh; sequence_no = n; body = q } ∷ rows)
        → IsSequenced (insert_reservation fresh q evidence (ok n) rows).1
    inserted n a = elim (Bool-cases (can_reserve fresh q evidence rows)) [
      | inl y ↦ rw y a
      | inr y ↦ rw y s
    ]

    fresh_row :
        (o : Option ReservationRow)
        → All (UpTo q.broker_order_id o) rows
        → IsSequenced (insert_reservation fresh q evidence (sequence_after q o) rows).1
    fresh_row none a = inserted 1 (
      omega arith,
      All-map (UpTo q.broker_order_id none)
          (Precedes (record { reservation_event_id = fresh; sequence_no = 1; body = q }))
          (λ x n h. elim (n h) [ ]) rows a,
      s,
    )
    fresh_row (some r) a =
        elim (Bool-cases (r.body.account_id == q.account_id && r.body.subject == q.subject)) [
          | inr n ↦ rw n s
          | inl y ↦ elim (Bool-cases (ltb q.observed_at_utc r.body.observed_at_utc)) [
            | inl l ↦ rw (y, l) s
            | inr l ↦
                rw (y, l)
                  (inserted (r.sequence_no + 1) (
                    omega arith,
                    All-map (UpTo q.broker_order_id (some r))
                        (Precedes (record {
                          reservation_event_id = fresh;
                          sequence_no = r.sequence_no + 1;
                          body = q;
                        }))
                        (λ x p h.
                          let (b, c, d, e) = p h in
                          (
                            omega (arith, b),
                            ground (arith, c, l),
                            ground (arith, d, y),
                            ground (arith, e, y),
                          ))
                        rows a,
                    s,
                  ))
          ]
        ]
