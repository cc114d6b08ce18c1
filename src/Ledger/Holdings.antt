-- ===== src/Ledger/Holdings.antt =====
-- The replay of the position events gives the sums over the table.
use toss_trading_core.Prelude.{
  Bool, Bool-cases, List, Option, [], ap, arith, aware, bind_ok, err, false, if◌then◌else◌, inl,
  inr, ltb, ltb_ge, none, not, ok, ok_inj, refl, require_ok, some, some_inj, subst, sym, true, ℕ,
  ◌&&◌, ◌+◌, ◌==◌, ◌||◌, ◌∙◌, ◌∷◌, ◌≡◌, ◌≤◌,
}
use toss_trading_core.Ledger.{
  BrokerConstraint, Evidence, check_constraint, currency_conflict, day_of, not_negative,
  opening_position_unknown, quantity_negative, reserved_exceeds_settled,
}
use toss_trading_core.Ledger.Balance.{cap_by-le, not_negative-ok}
use toss_trading_core.Ledger.CashState.{cap_by, window_of}
use toss_trading_core.Ledger.PositionState.{
  PositionState, find_settlement, finish_position, has_settled, move, moves_first, position_by,
  position_from, position_state, replay_moves, select_moves, selects_move,
}
use toss_trading_core.Ledger.Positions.{
  PositionOpening, PositionRow, PositionTables, SettlementRow, find_position,
}
use toss_trading_core.Ledger.Reservations.{Window, reserved_total}
use toss_trading_core.Prelude.Int.{int_laws, ltb_ℤ, neg_part, pos, pos_part, ℤ, ◌+ℤ◌, ◌-ℤ◌, ◌≤ℤ◌}
use toss_trading_core.Prelude.Sorted.{add_assoc, add_zero, sum_if, sum_if-select}

abbrev pub move_sum : (PositionRow → Bool) → List PositionRow → ℤ
move_sum test rows = sum_if test (λ r. r.quantity_delta) rows

abbrev pub settled_by : ℕ → Option SettlementRow → Bool
settled_by day none = false
settled_by day (some s) = has_settled day s

abbrev pub is_settled : List SettlementRow → ℕ → PositionRow → Bool
is_settled settlements day r = settled_by day (find_settlement r.position_event_id settlements)

move-ok :
    (day : ℕ) (x : ℤ) (o : Option SettlementRow) (q s q' s' : ℤ)
    → move day x o (q, s) ≡ ok (q', s')
    → (q' ≡ q +ℤ x) × (s' ≡ (if settled_by day o then s +ℤ x else s)) × (pos 0 ≤ℤ q')
move-ok day x none q s q' s' h = cc h
move-ok day x (some o) q s q' s' h = elim (Bool-cases (ltb_ℤ (q +ℤ x) (pos 0))) [
  | inl y ↦ let c : err quantity_negative ≡ ok (q', s') = rw y at h in cc c
  | inr n ↦
      let e : ◌≡◌ {A = ℤ × ℤ} (q +ℤ x, if has_settled day o then s +ℤ x else s) (q', s') =
        ok_inj (rw n at h) in
      (
        sym (ap (λ p. p.0) e),
        sym (ap (λ p. p.1) e),
        subst (λ z. pos 0 ≤ℤ z) (ap (λ p. p.0) e) (ltb_ge _ _ n),
      )
]

move_sum-select :
    (test : PositionRow → Bool) (w : Window) (rows : List PositionRow)
    → move_sum test (select_moves w rows) ≡ move_sum (λ r. selects_move w r && test r) rows
unfolding select_moves
move_sum-select test w rows =
    sum_if-select moves_first (selects_move w) test (λ r. r.quantity_delta) rows

abbrev Moves : List SettlementRow → ℕ → List PositionRow → ℤ × ℤ → ℤ × ℤ → Type 0
Moves settlements day rows (q, s) (q', s') =
    (q' ≡ q +ℤ move_sum (λ r. true) rows) × (s' ≡ s +ℤ move_sum (is_settled settlements day) rows)

replay_moves-Moves :
    (settlements : List SettlementRow) (day : ℕ) (rows : List PositionRow) (q s q' s' : ℤ)
    → replay_moves settlements day rows (q, s) ≡ ok (q', s')
    → Moves settlements day rows (q, s) (q', s')
unfolding replay_moves sum_if
replay_moves-Moves settlements day [] q s q' s' h =
    let e = ok_inj h in (sym (ap (λ p. p.0) e) ∙ add_zero q, sym (ap (λ p. p.1) e) ∙ add_zero s)
replay_moves-Moves settlements day (r ∷ rows) q s q' s' h =
    let ((q1, s1), one, more) =
      bind_ok (move day r.quantity_delta (find_settlement r.position_event_id settlements) (q, s))
        (replay_moves settlements day rows) (q', s') h in
    let (a, b, _) =
      move-ok day r.quantity_delta (find_settlement r.position_event_id settlements) q s q1 s1
        one in
    let (c, d) = replay_moves-Moves settlements day rows q1 s1 q' s' more in
    (
      c
          ∙ ap (λ z. z +ℤ move_sum (λ r. true) rows) a
          ∙ add_assoc q r.quantity_delta (move_sum (λ r. true) rows),
      d
          ∙ ap (λ z. z +ℤ move_sum (is_settled settlements day) rows) b
          ∙ joined (is_settled settlements day r) (move_sum (is_settled settlements day) rows),
    )
  where
    joined :
        (b : Bool) (x : ℤ)
        → (if b then s +ℤ r.quantity_delta else s) +ℤ x
          ≡ s +ℤ (if b then r.quantity_delta +ℤ x else x)
    joined true x = add_assoc s r.quantity_delta x
    joined false x = refl

-- What a state says in terms of the tables alone.
abbrev pub window_held : PositionOpening → ℕ → Window
window_held o as_of = window_of o.account_id o.instrument_id o.as_of_utc as_of

pub record IsHeld (t : PositionTables) (as_of : ℕ) (o : PositionOpening) (p : PositionState)
    : Type 0 where
  pub opened : find_position p.account_id p.instrument_id t.position_openings ≡ some o
  pub known : o.as_of_utc ≤ as_of
  pub total :
      p.quantity
      ≡ pos o.quantity
        +ℤ move_sum (λ r. selects_move (window_held o as_of) r && true) t.position_rows
  pub settled :
      p.settled_quantity
      ≡ pos o.quantity
        +ℤ move_sum
            (λ r. selects_move (window_held o as_of) r && is_settled t.settlements (day_of as_of) r)
            t.position_rows
  pub unsettled : p.unsettled_quantity ≡ p.quantity -ℤ p.settled_quantity
  pub reserved : p.reserved_sell_quantity ≡ reserved_total (window_held o as_of) t.sell_reservations
  pub not_short : pos 0 ≤ℤ p.quantity
  pub available : pos (p.available_to_sell + p.reserved_sell_quantity) ≤ℤ p.settled_quantity

find_position-fields :
    (account instrument : ℕ) (rows : List PositionOpening) (o : PositionOpening)
    → find_position account instrument rows ≡ some o
    → (o.account_id ≡ account) × (o.instrument_id ≡ instrument)
unfolding find_position
find_position-fields account instrument [] o h = cc h
find_position-fields account instrument (x ∷ rows) o h =
    elim (Bool-cases (x.account_id == account && x.instrument_id == instrument)) [
      | inr n ↦ find_position-fields account instrument rows o (rw n at h)
      | inl y ↦
          let e : x ≡ o = some_inj (rw y at h) in
          subst (λ z. (z.account_id ≡ account) × (z.instrument_id ≡ instrument)) e
            (ground (arith, y), ground (arith, y))
    ]

position_from-IsHeld :
    (known : Evidence) (as_of : ℕ) (constraint : Option BrokerConstraint) (t : PositionTables)
    (o : PositionOpening) (p : PositionState)
    → find_position o.account_id o.instrument_id t.position_openings ≡ some o
    → o.as_of_utc ≤ as_of
    → position_from known as_of constraint t o ≡ ok p
    → IsHeld t as_of o p
unfolding position_from finish_position
position_from-IsHeld known as_of constraint t o p f l h =
    let w : Window = window_held o as_of in
    let ((q, s), replayed, finished) =
      bind_ok
        (replay_moves t.settlements (day_of as_of) (select_moves w t.position_rows)
          (pos o.quantity, pos o.quantity))
        (finish_position known as_of constraint t.lot_tables o
          (reserved_total w t.sell_reservations))
        p h in
    let (a, b) =
      replay_moves-Moves t.settlements (day_of as_of) (select_moves w t.position_rows)
        (pos o.quantity) (pos o.quantity) q s replayed in
    let (signs, r1) = require_ok _ quantity_negative _ p finished in
    let (n, available, r2) =
      bind_ok
        (not_negative (s -ℤ pos (reserved_total w t.sell_reservations)) reserved_exceeds_settled) _
        p r1 in
    let (limit, _, r3) = bind_ok (check_constraint known as_of constraint) _ p r2 in
    let (_, last) = require_ok _ currency_conflict _ p r3 in
    subst (IsHeld t as_of o) (ok_inj last) (record {
      opened = f;
      known = l;
      total = a ∙ ap (λ z. pos o.quantity +ℤ z) (move_sum-select (λ r. true) w t.position_rows);
      settled =
          b
          ∙ ap (λ z. pos o.quantity +ℤ z)
              (move_sum-select (is_settled t.settlements (day_of as_of)) w t.position_rows);
      unsettled = refl;
      reserved = refl;
      not_short = not_short_of q s signs;
      available =
          bound n (reserved_total w t.sell_reservations) limit s (not_negative-ok _ _ n available);
    })
  where
    not_short_of : (q s : ℤ) → not (ltb_ℤ q (pos 0) || ltb_ℤ s (pos 0)) ≡ true → pos 0 ≤ℤ q
    not_short_of q s h = ground (arith, h)

    bound :
        (n r : ℕ) (limit : Option ℕ) (s : ℤ) → pos n ≡ s -ℤ pos r → pos (cap_by n limit + r) ≤ℤ s
    bound n r limit s e =
        let c = cap_by-le n limit in
        let x : n ≡ pos_part (s -ℤ pos r) = ap pos_part e in
        let y : 0 ≡ neg_part (s -ℤ pos r) = ap neg_part e in omega (int_laws, c, x, y)

-- A state that is returned has an opening that was known by then. Its quantity and its settled
-- quantity are the opening plus the sums over the table of the events in its window, all of them and
-- those that have settled by its day, whatever the order of the rows; the quantity is not below
-- zero, and what may be sold and what is reserved together are at most the settled quantity.
pub position_state-IsHeld :
    (known : Evidence) (account instrument as_of : ℕ) (constraint : Option BrokerConstraint)
    (t : PositionTables) (p : PositionState)
    → position_state known account instrument (aware as_of) constraint t ≡ ok p
    → (o : PositionOpening) × IsHeld t as_of o p
unfolding position_state
position_state-IsHeld known account instrument as_of constraint t p h =
    let (o, opened, rest) =
      bind_ok (position_by as_of (find_position account instrument t.position_openings))
        (position_from known as_of constraint t) p h in
    go o (find_position account instrument t.position_openings) refl opened rest
  where
    go :
        (o : PositionOpening) (x : Option PositionOpening)
        → find_position account instrument t.position_openings ≡ x
        → position_by as_of x ≡ ok o
        → position_from known as_of constraint t o ≡ ok p
        → (o : PositionOpening) × IsHeld t as_of o p
    go o none f g s = cc g
    go o (some y) f g s = elim (Bool-cases (ltb as_of y.as_of_utc)) [
      | inl l ↦ let e : err opening_position_unknown ≡ ok o = rw l at g in cc e
      | inr n ↦
          let e : y ≡ o = ok_inj (rw n at g) in
          let (a, b) = find_position-fields account instrument t.position_openings y f in
          (
            y,
            position_from-IsHeld known as_of constraint t y p
                (subst (λ i. find_position y.account_id i t.position_openings ≡ some y) (sym b)
                  (subst (λ i. find_position i instrument t.position_openings ≡ some y) (sym a) f))
                (ltb_ge _ _ n)
                (subst (λ z. position_from known as_of constraint t z ≡ ok p) (sym e) s),
          )
    ]
