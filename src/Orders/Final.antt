-- ===== src/Orders/Final.antt =====
-- What the transition table of asset_management/account/orders.py means for whole histories.
use toss_trading_core.Prelude.{
  ==_eq, Bool, Bool-cases, Datetime, List, Option, Option-cases, Result, [], arith, aware, err, inl,
  inr, naive, none, ok, refl, some, subst, sym, true, ℕ, ◌==◌, ◌∙◌, ◌∷◌, ◌≡◌, ◌≤◌, ◌⊎◌,
}
use toss_trading_core.Orders.{
  OrderError, OrderState, allowed_transitions, assert_order_transition, contains, index_injective,
  planned, submitted, submitting, terminal_order_states,
}
use toss_trading_core.Orders.Journal.{
  Follows, IsJournal, append-IsJournal, append_at-IsJournal, latest-cons,
}
use toss_trading_core.Orders.Repository.{
  Observation, OrderStateEvent, Table, append, append_at, find_source, latest, new_event,
  store_checked,
}

abbrev pub is_terminal : OrderState → Bool
is_terminal = contains terminal_order_states

-- How far an order has come: not yet sent, being sent, sent, known to the broker.
abbrev pub phase : OrderState → ℕ
phase planned = 0
phase submitting = 1
phase submitted = 2
phase _ = 3

-- What one accepted transition can do: a final state stays, and no phase comes back.
pub record Advances (a b : OrderState) : Type 0 where
  pub final : is_terminal a ≡ true → b ≡ a
  pub forward : phase a ≤ phase b

Advances-refl : (a : OrderState) → Advances a a
Advances-refl a = ground arith

Advances-trans : {a b c : OrderState} → Advances a b → Advances b c → Advances a c
Advances-trans {a} {b} {c} p q = record {
  final =
      λ t. let e : b ≡ a = p.final t in q.final (subst (λ s. is_terminal s ≡ true) (sym e) t) ∙ e;
  forward = omega arith;
}

allowed-forward : (a b : OrderState) → contains (allowed_transitions a) b ≡ true → phase a ≤ phase b
unfolding allowed_transitions
allowed-forward planned b h = ground arith
allowed-forward _ b h = ground arith

-- A transition that the guard accepts advances.
pub accepted-Advances :
    (a b : OrderState) → assert_order_transition (some a) b ≡ ok tt → Advances a b
unfolding assert_order_transition
accepted-Advances a b h = ground (arith, index_injective a b, allowed-forward a b)

-- How the latest event of an order may change: it does not disappear, and its state advances.
abbrev pub Continues : Option OrderStateEvent → Option OrderStateEvent → Type 0
Continues none _ = Unit
Continues (some e) none = ⊥
Continues (some e) (some e') = Advances e.state e'.state

Continues-refl : (o : Option OrderStateEvent) → Continues o o
Continues-refl none = tt
Continues-refl (some e) = Advances-refl e.state

Continues-trans : (a b c : Option OrderStateEvent) → Continues a b → Continues b c → Continues a c
Continues-trans none b c p q = tt
Continues-trans (some e) (some f) (some g) p q = Advances-trans p q
Continues-trans (some e) (some f) none p q = q
Continues-trans (some e) none c p q = absurd p

-- A row that goes on from the latest one continues it.
Follows-Continues :
    (r : OrderStateEvent) (o : Option OrderStateEvent) → Follows r o → Continues o (some r)
Follows-Continues r none f = tt
Follows-Continues r (some q) f = accepted-Advances q.state r.state f.3

cons-Continues :
    (order : ℕ) (r : OrderStateEvent) (rows : Table)
    → IsJournal (r ∷ rows)
    → Continues (latest order rows) (latest order (r ∷ rows))
cons-Continues order r rows j =
    rw (latest-cons order r rows j) (elim (Bool-cases (r.broker_order_id == order)) [
      | inl same ↦ rw same (
          Follows-Continues r (latest order rows)
            (subst (λ k. Follows r (latest k rows)) (==_eq r.broker_order_id order same) j.0))
      | inr other ↦ rw other (Continues-refl (latest order rows))
    ])

abbrev Grown : Table → Table → Type 0
Grown rows rows' = (rows' ≡ rows) ⊎ ((r : OrderStateEvent) × (rows' ≡ r ∷ rows))

store_checked-Grown :
    (c : Result OrderError (Unit {0})) (r : OrderStateEvent) (rows : Table)
    → Grown rows (store_checked c r rows).1
unfolding store_checked
store_checked-Grown (err e) r rows = inl refl
store_checked-Grown (ok u) r rows = inr (r, refl)

-- A call of `append` leaves the table, or conses one row.
append_at-Grown :
    (o : Observation) (t : Datetime) (fresh : ℕ) (rows : Table)
    → Grown rows (append_at o t fresh rows).1
unfolding append_at
append_at-Grown o naive fresh rows = inl refl
append_at-Grown o (aware instant) fresh rows =
    elim (Option-cases (find_source o.broker_order_id o.source_response_id rows)) [
      | inr (e, found) ↦ inl (rw (found, append_at))
      | inl missing ↦
          rw (missing, append_at) (store_checked-Grown _ (new_event o instant fresh rows) rows)
    ]

Grown-Continues :
    (order : ℕ) (rows rows' : Table)
    → IsJournal rows'
    → Grown rows rows'
    → Continues (latest order rows) (latest order rows')
Grown-Continues order rows rows' j (inl same) = rw same (Continues-refl (latest order rows))
Grown-Continues order rows rows' j (inr (r, more)) =
    rw more (cons-Continues order r rows (subst IsJournal more j))

append-Continues :
    (order : ℕ) (o : Observation) (t : Datetime) (fresh : ℕ) (rows : Table)
    → IsJournal rows
    → Continues (latest order rows) (latest order (append_at o t fresh rows).1)
append-Continues order o t fresh rows j =
    Grown-Continues order rows (append_at o t fresh rows).1 (append_at-IsJournal o t fresh rows j)
      (append_at-Grown o t fresh rows)

-- The calls of `append` one after another, each with its fresh id.
unfoldable pub append_all : List (Observation × ℕ) → Table → Table
append_all [] rows = rows
append_all ((o, fresh) ∷ calls) rows = append_all calls (append o fresh rows).1

-- However `append` is called, accepted or refused, a final state of an order stays for ever, and
-- an order never falls back to an earlier phase of being sent.
pub append_all-Continues :
    (order : ℕ) (calls : List (Observation × ℕ)) (rows : Table)
    → IsJournal rows
    → Continues (latest order rows) (latest order (append_all calls rows))
unfolding append_all
append_all-Continues order [] rows j = Continues-refl (latest order rows)
append_all-Continues order ((o, fresh) ∷ calls) rows j =
    Continues-trans (latest order rows) (latest order (append o fresh rows).1) _
      (unfold append in append-Continues order o o.observed_at_utc fresh rows j)
      (append_all-Continues order calls (append o fresh rows).1 (append-IsJournal o fresh rows j))
