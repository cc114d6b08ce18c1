-- ===== src/Ledger/Repeats.antt =====
-- A call that is repeated after it returned gives the same id and stores nothing.
use toss_trading_core.Prelude.{
  ==_refl, Bool-cases, List, Option, Result, ap, arith, err, inl, inr, none, ok, refl, some, true,
  ℕ, ◌∙◌, ◌∷◌, ◌≡◌,
}
use toss_trading_core.Ledger.{Evidence, LedgerError}
use toss_trading_core.Ledger.Cash.{CashRow, CashTables, MetadataRow, type_number}
use toss_trading_core.Ledger.CashEvents.{
  CashEvent, append_cash_event, append_checked, append_unless_known, can_insert, cash_row,
  check_event, find_cash_event, find_key, join_event, join_row, same_cash_event, with_event,
}
use toss_trading_core.Ledger.Reservations.{
  Reservation, ReservationRow, can_reserve, find_reservation, insert_reservation, latest_of,
  sequence_after, reserve, reserve_unless_known, same_reservation,
}
use toss_trading_core.Ledger.Signed.{option_eq_refl}
use toss_trading_core.Prelude.Int.{eq_ℤ, ℤ}

eq_ℤ_refl : (x : ℤ) → eq_ℤ x x ≡ true
eq_ℤ_refl x = ground arith

same_event_refl :
    (e : CashEvent) (fresh at : ℕ) (x : ℤ)
    → same_cash_event e at x
        (record {
          cash_event_id = fresh;
          idempotency_key = e.idempotency_key;
          reason = e.reason;
          approved_by = e.approved_by;
        })
        (cash_row fresh e at x)
      ≡ true
same_event_refl e fresh at x =
    rw
      (
        ==_refl e.account_id,
        ==_refl e.currency,
        eq_ℤ_refl x,
        option_eq_refl e.settlement_date,
        ==_refl (type_number e.event_type),
        ==_refl at,
        option_eq_refl e.reason,
        option_eq_refl e.approved_by,
      )
      refl

abbrev metadata_of : ℕ → CashEvent → MetadataRow
metadata_of fresh e = record {
  cash_event_id = fresh;
  idempotency_key = e.idempotency_key;
  reason = e.reason;
  approved_by = e.approved_by;
}

-- The key of a stored event leads to it.
with_event-joined :
    (fresh : ℕ) (e : CashEvent) (at : ℕ) (x : ℤ) (t : CashTables)
    → let t' = with_event fresh e at x t in
      join_event (find_key e.idempotency_key t'.metadata) t'.ledger
      ≡ some (
        record {
          cash_event_id = fresh;
          idempotency_key = e.idempotency_key;
          reason = e.reason;
          approved_by = e.approved_by;
        },
        cash_row fresh e at x,
      )
unfolding find_key find_cash_event
with_event-joined fresh e at x t =
    let k : find_key e.idempotency_key (with_event fresh e at x t).metadata
        ≡ some (metadata_of fresh e) =
      rw (==_refl e.idempotency_key) refl in
    let f : find_cash_event fresh (with_event fresh e at x t).ledger
        ≡ some (cash_row fresh e at x) =
      rw (==_refl fresh) refl in
    ap (λ m. join_event m (with_event fresh e at x t).ledger) k
    ∙ ap (join_row (metadata_of fresh e)) f

-- After a call that returns, the same call with any new id returns the same id again and leaves the
-- tables as they are: a key stands for one event.
pub append_cash_event_again :
    (fresh fresh' : ℕ) (e : CashEvent) (t : CashTables) (id : ℕ)
    → (append_cash_event fresh e t).0 ≡ ok id
    → append_cash_event fresh' e (append_cash_event fresh e t).1
      ≡ (ok id, (append_cash_event fresh e t).1)
unfolding append_cash_event
append_cash_event_again fresh fresh' e t id = go (check_event e)
  where
    Again : Result LedgerError (ℕ × ℤ) → Result LedgerError ℕ × CashTables → Type 0
    Again k p = p.0 ≡ ok id → append_checked fresh' e k p.1 ≡ (ok id, p.1)

    looked :
        (b : ℕ) (x : ℤ) (o : Option (MetadataRow × CashRow))
        → join_event (find_key e.idempotency_key t.metadata) t.ledger ≡ o
        → Again (ok (b, x)) (append_unless_known fresh e b x o t)
    looked b x none j = elim (Bool-cases (can_insert fresh e t)) [
      | inr n ↦ rw n (λ h. cc h)
      | inl y ↦ rw y (λ h.
          rw (with_event-joined fresh e b x t, same_event_refl e fresh b x)
            (ap (λ i. (i, with_event fresh e b x t)) h))
    ]
    looked b x (some (m, r)) j = elim (Bool-cases (same_cash_event e b x m r)) [
      | inr n ↦ rw n (λ h. cc h)
      | inl y ↦ rw y (λ h. rw (j, y) (ap (λ i. (i, t)) h))
    ]

    go : (k : Result LedgerError (ℕ × ℤ)) → Again k (append_checked fresh e k t)
    go (err z) = λ h. cc h
    go (ok (b, x)) = looked b x (join_event (find_key e.idempotency_key t.metadata) t.ledger) refl

same_reservation_refl : (q : Reservation) → same_reservation q q ≡ true
same_reservation_refl q = ground arith

-- The same for a reservation: an order and a response stand for one event.
pub reserve_again :
    (fresh fresh' : ℕ) (q : Reservation) (evidence : Evidence) (rows : List ReservationRow) (id : ℕ)
    → (reserve fresh q evidence rows).0 ≡ ok id
    → reserve fresh' q evidence (reserve fresh q evidence rows).1
      ≡ (ok id, (reserve fresh q evidence rows).1)
unfolding reserve find_reservation
reserve_again fresh fresh' q evidence rows id =
    looked (find_reservation q.broker_order_id q.source_response_id rows) refl
  where
    Again : Result LedgerError ℕ × List ReservationRow → Type 0
    Again p = p.0 ≡ ok id → reserve fresh' q evidence p.1 ≡ (ok id, p.1)

    inserted : (k : Result LedgerError ℕ) → Again (insert_reservation fresh q evidence k rows)
    inserted (err z) = λ h. cc h
    inserted (ok n) = elim (Bool-cases (can_reserve fresh q evidence rows)) [
      | inr y ↦ rw y (λ h. cc h)
      | inl y ↦ rw y (λ h.
          rw (==_refl q.broker_order_id, ==_refl q.source_response_id, same_reservation_refl q)
            (ap
              (λ i. (i, record { reservation_event_id = fresh; sequence_no = n; body = q } ∷ rows))
              h))
    ]

    looked :
        (o : Option ReservationRow)
        → find_reservation q.broker_order_id q.source_response_id rows ≡ o
        → Again (reserve_unless_known fresh q evidence o rows)
    looked none j = inserted (sequence_after q (latest_of q.broker_order_id rows))
    looked (some r) j = elim (Bool-cases (same_reservation q r.body)) [
      | inr n ↦ rw n (λ h. cc h)
      | inl y ↦ rw y (λ h. rw (j, y) (ap (λ i. (i, rows)) h))
    ]
