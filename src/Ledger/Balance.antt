-- ===== src/Ledger/Balance.antt =====
-- The replay of the cash events, in their order and with its refusals, gives the sums over the table.
use toss_trading_core.Prelude.{
  Bool, Bool-cases, List, Option, [], and_both, ap, arith, aware, bind_ok, err, false,
  if◌then◌else◌, inl, inr, leb, leb_le, ltb, ltb_ge, min, none, not, ok, ok_inj, refl, require_ok,
  some, subst, sym, true, ℕ, ◌&&◌, ◌∙◌, ◌∷◌, ◌≡◌, ◌≤◌,
}
use toss_trading_core.Ledger.{
  BrokerConstraint, Evidence, LedgerError, authorization_conflict, check_constraint,
  constraint_stale, constraint_unproven, day_of, is_in, not_negative, opening_unknown,
  reserved_exceeds_settled, settled_negative,
}
use toss_trading_core.Ledger.Cash.{CashOpening, CashRow, CashTables, find_opening}
use toss_trading_core.Ledger.CashState.{
  CashState, add_settled, cap_by, cash_state, finish_state, happens_first, is_authorized,
  is_pending, known_opening, replay_event, replay_events, select_events, selects, state_from,
  window_of,
}
use toss_trading_core.Ledger.Reservations.{Window, reserved_total}
use toss_trading_core.Prelude.Int.{ltb_ℤ, negsuc, pos, ℤ, ◌+ℤ◌, ◌-ℤ◌}
use toss_trading_core.Prelude.Sorted.{add_assoc, add_zero, sum_if, sum_if-select}

-- The sum of the amounts that pass a test.
abbrev pub cash_sum : (CashRow → Bool) → List CashRow → ℤ
cash_sum test rows = sum_if test (λ r. r.amount) rows

cash_sum-select :
    (test : CashRow → Bool) (w : Window) (rows : List CashRow)
    → cash_sum test (select_events w rows) ≡ cash_sum (λ r. selects w r && test r) rows
unfolding select_events
cash_sum-select test w rows = sum_if-select happens_first (selects w) test (λ r. r.amount) rows

abbrev Sums : CashTables → ℕ → List CashRow → ℤ × ℤ → ℤ × ℤ → Type 0
Sums t day rows (s, u) (s', u') =
    (s' ≡ s +ℤ cash_sum (λ r. not (is_pending day r)) rows)
    × (u' ≡ u +ℤ cash_sum (is_pending day) rows)

add_settled-ok :
    (b : Bool) (x s u s' u' : ℤ)
    → add_settled b x (s, u) ≡ ok (s', u')
    → (s' ≡ (if b then s else s +ℤ x)) × (u' ≡ (if b then u +ℤ x else u))
add_settled-ok true x s u s' u' h =
    let e = ok_inj h in (sym (ap (λ p. p.0) e), sym (ap (λ p. p.1) e))
add_settled-ok false x s u s' u' h = elim (Bool-cases (ltb_ℤ (s +ℤ x) (pos 0))) [
  | inl y ↦ let c : err settled_negative ≡ ok (s', u') = rw y at h in cc c
  | inr n ↦
      let e : ◌≡◌ {A = ℤ × ℤ} (s +ℤ x, u) (s', u') = ok_inj (rw n at h) in
      (sym (ap (λ p. p.0) e), sym (ap (λ p. p.1) e))
]

replay_events-Sums :
    (t : CashTables) (day : ℕ) (rows : List CashRow) (s u s' u' : ℤ)
    → replay_events t day rows (s, u) ≡ ok (s', u')
    → Sums t day rows (s, u) (s', u')
unfolding replay_events sum_if replay_event
replay_events-Sums t day [] s u s' u' h =
    let e = ok_inj h in (sym (ap (λ p. p.0) e) ∙ add_zero s, sym (ap (λ p. p.1) e) ∙ add_zero u)
replay_events-Sums t day (r ∷ rows) s u s' u' h =
    let ((s1, u1), one, more) =
      bind_ok (replay_event t day r (s, u)) (replay_events t day rows) (s', u') h in
    let (_, settled) =
      require_ok (is_authorized t r) authorization_conflict
        (add_settled (is_pending day r) r.amount (s, u)) (s1, u1) one in
    joined (is_pending day r) s1 u1 (add_settled-ok (is_pending day r) r.amount s u s1 u1 settled)
      (replay_events-Sums t day rows s1 u1 s' u' more)
  where
    joined :
        (b : Bool) (s1 u1 : ℤ)
        → (s1 ≡ (if b then s else s +ℤ r.amount)) × (u1 ≡ (if b then u +ℤ r.amount else u))
        → Sums t day rows (s1, u1) (s', u')
        → (s'
            ≡ s
              +ℤ (if not b
                  then r.amount +ℤ cash_sum (λ r. not (is_pending day r)) rows
                  else cash_sum (λ r. not (is_pending day r)) rows))
          × (u'
              ≡ u
                +ℤ (if b
                    then r.amount +ℤ cash_sum (is_pending day) rows
                    else cash_sum (is_pending day) rows))
    joined true s1 u1 (a, b) (c, d) = (
      c ∙ ap (λ z. z +ℤ cash_sum (λ r. not (is_pending day r)) rows) a,
      d
          ∙ ap (λ z. z +ℤ cash_sum (is_pending day) rows) b
          ∙ add_assoc u r.amount (cash_sum (is_pending day) rows),
    )
    joined false s1 u1 (a, b) (c, d) = (
      c
          ∙ ap (λ z. z +ℤ cash_sum (λ r. not (is_pending day r)) rows) a
          ∙ add_assoc s r.amount (cash_sum (λ r. not (is_pending day r)) rows),
      d ∙ ap (λ z. z +ℤ cash_sum (is_pending day) rows) b,
    )

-- The window of a state, and the sums over the table that it stands for.
abbrev pub window_for : CashOpening → CashState → Window
window_for o c = window_of c.account_id c.currency o.as_of_utc c.as_of_utc

-- What a constraint that was given does to a state: it covers the state's time, its response is
-- stored, and the state has its value, beyond which nothing is orderable.
pub record IsConstrained (known : Evidence) (b : BrokerConstraint) (c : CashState) : Type 0 where
  pub covers : (b.observed_at_utc ≤ c.as_of_utc) × (c.as_of_utc ≤ b.valid_until_utc)
  pub proven : is_in b.source_response_id known.raw_responses ≡ true
  pub recorded : c.broker_buying_power_constraint ≡ some b.value
  pub capped : c.orderable_cash ≡ min c.available_cash b.value

abbrev pub Constrained : Evidence → Option BrokerConstraint → CashState → Type 0
Constrained known none c =
    (c.broker_buying_power_constraint ≡ none) × (c.orderable_cash ≡ c.available_cash)
Constrained known (some b) c = IsConstrained known b c

pub record IsBalanced (known_ids : Evidence) (account currency as_of : ℕ)
    (constraint : Option BrokerConstraint) (t : CashTables) (o : CashOpening) (c : CashState)
    : Type 0 where
  pub asked : (c.account_id ≡ account) × (c.currency ≡ currency) × (c.as_of_utc ≡ as_of)
  pub opened : find_opening c.account_id c.currency t.openings ≡ some o
  pub known : o.as_of_utc ≤ c.as_of_utc
  pub settled :
      c.settled_cash
      ≡ pos o.opening_balance
        +ℤ cash_sum
            (λ r. selects (window_for o c) r && not (is_pending (day_of c.as_of_utc) r))
            t.ledger
  pub unsettled :
      c.unsettled_cash
      ≡ pos 0
        +ℤ cash_sum (λ r. selects (window_for o c) r && is_pending (day_of c.as_of_utc) r) t.ledger
  pub reserved : c.reserved_cash ≡ reserved_total (window_for o c) t.reservations
  pub available : pos c.available_cash ≡ c.settled_cash -ℤ pos c.reserved_cash
  pub constrained : Constrained known_ids constraint c

pub not_negative-ok : (x : ℤ) (e : LedgerError) (n : ℕ) → not_negative x e ≡ ok n → pos n ≡ x
not_negative-ok (pos m) e n h = ap pos (sym (ok_inj h))
not_negative-ok (negsuc m) e n h = cc h

pub cap_by-le : (n : ℕ) (limit : Option ℕ) → cap_by n limit ≤ n
cap_by-le n none = omega arith
cap_by-le n (some c) = omega arith

-- What `check_constraint` lets pass, in a state whose orderable cash is capped by it.
check_constraint-Constrained :
    (known : Evidence) (as_of : ℕ) (constraint : Option BrokerConstraint) (limit : Option ℕ)
    (c : CashState)
    → c.as_of_utc ≡ as_of
    → c.broker_buying_power_constraint ≡ limit
    → c.orderable_cash ≡ cap_by c.available_cash limit
    → check_constraint known as_of constraint ≡ ok limit
    → Constrained known constraint c
unfolding check_constraint
check_constraint-Constrained known as_of none limit c at r o h =
    let e : none ≡ limit = ok_inj h in (r ∙ sym e, o ∙ ap (cap_by c.available_cash) (sym e))
check_constraint-Constrained known as_of (some b) limit c at r o h =
    let (covers, r1) =
      require_ok (leb b.observed_at_utc as_of && leb as_of b.valid_until_utc) constraint_stale _
        limit h in
    let (proven, r2) =
      require_ok (is_in b.source_response_id known.raw_responses) constraint_unproven _ limit r1 in
    let e : some b.value ≡ limit = ok_inj r2 in
    let (from, to) = and_both _ _ covers in
    record {
      covers = (
        subst (λ t. b.observed_at_utc ≤ t) (sym at) (leb_le _ _ from),
        subst (λ t. t ≤ b.valid_until_utc) (sym at) (leb_le _ _ to),
      );
      proven = proven;
      recorded = r ∙ sym e;
      capped = o ∙ ap (cap_by c.available_cash) (sym e);
    }

state_from-IsBalanced :
    (known : Evidence) (account currency as_of : ℕ) (constraint : Option BrokerConstraint)
    (t : CashTables) (o : CashOpening) (c : CashState)
    → find_opening account currency t.openings ≡ some o
    → o.as_of_utc ≤ as_of
    → state_from known account currency as_of constraint t o ≡ ok c
    → IsBalanced known account currency as_of constraint t o c
unfolding state_from finish_state
state_from-IsBalanced known account currency as_of constraint t o c f l h =
    let w : Window = window_of account currency o.as_of_utc as_of in
    let ((s, u), replayed, finished) =
      bind_ok
        (replay_events t (day_of as_of) (select_events w t.ledger) (pos o.opening_balance, pos 0))
        (finish_state known account currency as_of constraint (reserved_total w t.reservations)) c
        h in
    let (a, b) =
      replay_events-Sums t (day_of as_of) (select_events w t.ledger) (pos o.opening_balance) (pos 0)
        s u replayed in
    let (n, available, rest) =
      bind_ok (not_negative (s -ℤ pos (reserved_total w t.reservations)) reserved_exceeds_settled) _
        c finished in
    let (limit, checked, last) = bind_ok (check_constraint known as_of constraint) _ c rest in
    subst (IsBalanced known account currency as_of constraint t o) (ok_inj last) (record {
      asked = (refl, refl, refl);
      opened = f;
      known = l;
      settled =
          a
          ∙ ap (λ z. pos o.opening_balance +ℤ z)
              (cash_sum-select (λ r. not (is_pending (day_of as_of) r)) w t.ledger);
      unsettled = b ∙ ap (λ z. pos 0 +ℤ z) (cash_sum-select (is_pending (day_of as_of)) w t.ledger);
      reserved = refl;
      available = not_negative-ok _ _ n available;
      constrained =
          check_constraint-Constrained known as_of constraint limit _ refl refl refl checked;
    })

-- A state that is returned has an opening that was known by then. Its settled and unsettled cash are
-- the opening plus the sums over the table of the events in its window that have settled by its day
-- and of those that have not, whatever the order of the rows; its reserved cash is what the last
-- events of the open orders reserve; its available cash is the settled less the reserved, which is
-- not below zero. Without a broker's constraint all of that is orderable; a constraint that was
-- given covers the time of the state and has its response stored, and what is orderable is the
-- lesser of the available cash and its value. The state is that of the account, the currency and the
-- time that were asked for.
pub cash_state-IsBalanced :
    (known : Evidence) (account currency as_of : ℕ) (constraint : Option BrokerConstraint)
    (t : CashTables) (c : CashState)
    → cash_state known account currency (aware as_of) constraint t ≡ ok c
    → (o : CashOpening) × IsBalanced known account currency as_of constraint t o c
unfolding cash_state known_opening
cash_state-IsBalanced known account currency as_of constraint t c h =
    let (o, opened, rest) =
      bind_ok (known_opening as_of (find_opening account currency t.openings))
        (state_from known account currency as_of constraint t) c h in
    go o (find_opening account currency t.openings) refl opened rest
  where
    go :
        (o : CashOpening) (x : Option CashOpening)
        → find_opening account currency t.openings ≡ x
        → known_opening as_of x ≡ ok o
        → state_from known account currency as_of constraint t o ≡ ok c
        → (o : CashOpening) × IsBalanced known account currency as_of constraint t o c
    go o none f g s = cc g
    go o (some p) f g s = elim (Bool-cases (ltb as_of p.as_of_utc)) [
      | inl y ↦ let e : err opening_unknown ≡ ok o = rw y at g in cc e
      | inr n ↦
          let e : p ≡ o = ok_inj (rw n at g) in
          (
            p,
            state_from-IsBalanced known account currency as_of constraint t p c f (ltb_ge _ _ n) (
                subst (λ q. state_from known account currency as_of constraint t q ≡ ok c) (sym e)
                  s),
          )
    ]
