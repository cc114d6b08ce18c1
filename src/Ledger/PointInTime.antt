-- ===== src/Ledger/PointInTime.antt =====
-- What is booked after a time does not change the state as of that time.
use toss_trading_core.Prelude.{
  All, Bool, Bool-cases, List, Option, Result, [], ap, arith, aware, bind_ext, bind_ok, err, false,
  inl, inr, is_some, none, not, ok, ok_inj, refl, require, require_ok, some, subst, true, ℕ, ◌&&◌,
  ◌<◌, ◌==◌, ◌>>=◌, ◌>>◌, ◌∙◌, ◌∷◌, ◌≡◌,
}
use toss_trading_core.Ledger.{
  BrokerConstraint, Evidence, LedgerError, adjustment_unapproved, authorization_conflict, day_of,
  finite_decimal, instant_of, wrong_sign,
}
use toss_trading_core.Ledger.Cash.{CashRow, CashTables, MetadataRow, find_opening, is_manual}
use toss_trading_core.Ledger.CashEvents.{
  CashEvent, append_cash_event, append_checked, append_unless_known, can_insert, cash_row,
  check_event, find_cash_event, find_key, join_event, not_blank, same_cash_event, with_event,
}
use toss_trading_core.Ledger.CashState.{
  add_settled, cash_state, find_authorization, find_metadata, finish_state, happens_first,
  is_authorized, is_pending, known_opening, replay_event, replay_events, select_events, selects,
  state_from, window_of,
}
use toss_trading_core.Ledger.Reservations.{Window, reserved_total}
use toss_trading_core.Prelude.Int.{pos, ℤ}
use toss_trading_core.Prelude.Sorted.{select_by-All, select_by-skip}

abbrev pub IsOther : ℕ → CashRow → Type 0
IsOther fresh r = (fresh == r.cash_event_id) ≡ false

-- An id without a row is the id of no row.
pub find_cash_event-IsOther :
    (fresh : ℕ) (rows : List CashRow) → find_cash_event fresh rows ≡ none → All (IsOther fresh) rows
unfolding find_cash_event
find_cash_event-IsOther fresh [] h = tt
find_cash_event-IsOther fresh (r ∷ rows) h = elim (Bool-cases (r.cash_event_id == fresh)) [
  | inl y ↦ let c : some r ≡ none = rw y at h in cc c
  | inr n ↦ (ground (arith, n), find_cash_event-IsOther fresh rows (rw n at h))
]

-- The new rows are not those of another event.
pub is_authorized-other :
    (fresh : ℕ) (e : CashEvent) (at : ℕ) (x : ℤ) (t : CashTables) (r : CashRow)
    → IsOther fresh r
    → is_authorized (with_event fresh e at x t) r ≡ is_authorized t r
unfolding is_authorized find_metadata find_authorization
is_authorized-other fresh e at x t r n = elim (Bool-cases (is_manual e.event_type)) [
  | inl y ↦ rw (y, n) refl
  | inr y ↦ rw (y, n) refl
]

replay_events-other :
    (fresh : ℕ) (e : CashEvent) (at : ℕ) (x : ℤ) (t : CashTables) (day : ℕ) (rows : List CashRow)
    (s : ℤ × ℤ)
    → All (IsOther fresh) rows
    → replay_events (with_event fresh e at x t) day rows s ≡ replay_events t day rows s
unfolding replay_events replay_event
replay_events-other fresh e at x t day [] s a = refl
replay_events-other fresh e at x t day (r ∷ rows) s a =
    let step : replay_event (with_event fresh e at x t) day r s ≡ replay_event t day r s =
      ap (λ b. require b authorization_conflict >> add_settled (is_pending day r) r.amount s)
        (is_authorized-other fresh e at x t r a.0) in
    ap (λ m. m >>= replay_events (with_event fresh e at x t) day rows) step
    ∙ bind_ext (replay_event t day r s) (replay_events (with_event fresh e at x t) day rows)
        (replay_events t day rows) (λ s'. replay_events-other fresh e at x t day rows s' a.1)

-- An event outside the window is not selected.
select_events-late :
    (w : Window) (r : CashRow) (rows : List CashRow)
    → w.to_utc < r.created_at_utc
    → select_events w (r ∷ rows) ≡ select_events w rows
unfolding select_events
select_events-late w r rows l = select_by-skip happens_first (selects w) r rows (ground (arith, l))

select_events-All :
    (P : CashRow → Type 0) (w : Window) (rows : List CashRow)
    → All P rows
    → All P (select_events w rows)
unfolding select_events
select_events-All P w rows a = select_by-All happens_first (selects w) P rows a

with_event-state :
    (fresh : ℕ) (e : CashEvent) (at : ℕ) (x : ℤ) (t : CashTables) (known : Evidence)
    (account currency as_of : ℕ) (constraint : Option BrokerConstraint)
    → as_of < at
    → find_cash_event fresh t.ledger ≡ none
    → cash_state known account currency (aware as_of) constraint (with_event fresh e at x t)
      ≡ cash_state known account currency (aware as_of) constraint t
unfolding cash_state state_from
with_event-state fresh e at x t known account currency as_of constraint l f =
    bind_ext (known_opening as_of (find_opening account currency t.openings))
      (state_from known account currency as_of constraint (with_event fresh e at x t))
      (state_from known account currency as_of constraint t)
      (λ o.
        let w : Window = window_of account currency o.as_of_utc as_of in
        let start : ℤ × ℤ = (pos o.opening_balance, pos 0) in
        ap
          (λ m.
            m
            >>= finish_state known account currency as_of constraint
                (reserved_total w t.reservations))
          (ap (λ rows. replay_events (with_event fresh e at x t) (day_of as_of) rows start)
              (select_events-late w (cash_row fresh e at x) t.ledger l)
            ∙ replay_events-other fresh e at x t (day_of as_of) (select_events w t.ledger) start (
                select_events-All (IsOther fresh) w t.ledger
                  (find_cash_event-IsOther fresh t.ledger f))))

check_event-instant :
    (e : CashEvent) (at b : ℕ) (x : ℤ)
    → e.created_at_utc ≡ aware at
    → check_event e ≡ ok (b, x)
    → at ≡ b
unfolding check_event
check_event-instant e at b x c h =
    let (t, i, r1) = bind_ok (instant_of e.created_at_utc) _ (b, x) h in
    let (_, r2) = require_ok _ adjustment_unapproved _ (b, x) r1 in
    let (y, _, r3) = bind_ok (finite_decimal e.amount) _ (b, x) r2 in
    let (_, r4) = require_ok _ wrong_sign _ (b, x) r3 in
    ok_inj (subst (λ d. instant_of d ≡ ok t) c i) ∙ ap (λ p. p.0) (ok_inj r4)

pub can_insert-free :
    (fresh : ℕ) (e : CashEvent) (t : CashTables)
    → can_insert fresh e t ≡ true
    → find_cash_event fresh t.ledger ≡ none
can_insert-free fresh e t h =
    free (find_cash_event fresh t.ledger) (not (is_some (find_key e.idempotency_key t.metadata)))
      (not_blank e.reason) (not_blank e.approved_by) h
  where
    free : (o : Option CashRow) (a b c : Bool) → (not (is_some o) && a && b && c) ≡ true → o ≡ none
    free none a b c k = refl
    free (some r) a b c k = cc k

-- Appending an event of a later time, accepted or refused, leaves every state as of an earlier time
-- as it was, with its errors.
pub append_cash_event-late :
    (fresh : ℕ) (e : CashEvent) (at : ℕ) (t : CashTables) (known : Evidence)
    (account currency as_of : ℕ) (constraint : Option BrokerConstraint)
    → e.created_at_utc ≡ aware at
    → as_of < at
    → cash_state known account currency (aware as_of) constraint (append_cash_event fresh e t).1
      ≡ cash_state known account currency (aware as_of) constraint t
unfolding append_cash_event
append_cash_event-late fresh e at t known account currency as_of constraint c l =
    go (check_event e) refl
  where
    same : CashTables → Type 0
    same t' =
        cash_state known account currency (aware as_of) constraint t'
        ≡ cash_state known account currency (aware as_of) constraint t

    inserted : (b : ℕ) (x : ℤ) → as_of < b → same (append_unless_known fresh e b x none t).1
    inserted b x l = elim (Bool-cases (can_insert fresh e t)) [
      | inr n ↦ rw n refl
      | inl y ↦ rw y (
          with_event-state fresh e b x t known account currency as_of constraint l
            (can_insert-free fresh e t y))
    ]

    looked :
        (b : ℕ) (x : ℤ)
        → as_of < b
        → (o : Option (MetadataRow × CashRow)) → same (append_unless_known fresh e b x o t).1
    looked b x l none = inserted b x l
    looked b x l (some (m, r)) = elim (Bool-cases (same_cash_event e b x m r)) [
      | inl y ↦ rw y refl
      | inr n ↦ rw n refl
    ]

    go : (k : Result LedgerError (ℕ × ℤ)) → check_event e ≡ k → same (append_checked fresh e k t).1
    go (err z) h = refl
    go (ok (b, x)) h =
        looked b x (subst (λ z. as_of < z) (check_event-instant e at b x c h) l)
          (join_event (find_key e.idempotency_key t.metadata) t.ledger)
