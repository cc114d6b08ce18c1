-- ===== src/Orders/Newest.antt =====
-- The event that `append` returns is the latest of its order.
use toss_trading_core.Prelude.{
  ==_eq, All, Bool-cases, Datetime, Option, Option-cases, Result, [], ap, arith, aware, err, inl,
  inr, ltb, naive, none, ok, ok_inj, option_eq, refl, some, some_inj, subst, sym, ℕ, ◌&&◌, ◌==◌,
  ◌∙◌, ◌∷◌, ◌≡◌,
}
use toss_trading_core.Orders.{
  BrokerWord, OrderError, OrderState, evidence_conflict, evidence_not_latest, index_injective,
  normalize_broker_order_state, state_eq, unknown, unknown_broker_state,
}
use toss_trading_core.Orders.Journal.{latest-new_event}
use toss_trading_core.Orders.Repository.{
  Observation, OrderStateEvent, Table, append, append_at, append_broker_state, broker_observation,
  check_new, find_source, later, latest, new_event, raise_unknown, replay_evidence, store_checked,
}

-- An id names one row.
abbrev pub HasUniqueIds : Table → Type 0
HasUniqueIds rows =
    All (λ x. All (λ y. y.order_state_event_id ≡ x.order_state_event_id → y ≡ x) rows) rows

find_source-All :
    (P : OrderStateEvent → Type 0) (order : ℕ) (source : Option ℕ) (rows : Table)
    (x : OrderStateEvent)
    → All P rows
    → find_source order source rows ≡ some x
    → P x
unfolding find_source
find_source-All P order none rows x a h = cc
find_source-All P order (some source) [] x a h = cc
find_source-All P order (some source) (r ∷ rows) x a h =
    elim (Bool-cases (r.broker_order_id == order && option_eq r.source_response_id (some source))) [
      | inl y ↦ subst P (some_inj (rw y at h)) a.0
      | inr n ↦ find_source-All P order (some source) rows x a.1 (rw n at h)
    ]

later-All :
    (P : OrderStateEvent → Type 0) (r : OrderStateEvent) (o : Option OrderStateEvent)
    (x : OrderStateEvent)
    → P r
    → ((q : OrderStateEvent) → o ≡ some q → P q)
    → later r o ≡ some x
    → P x
later-All P r none x p f h = subst P (some_inj h) p
later-All P r (some q) x p f h = elim (Bool-cases (ltb r.sequence_no q.sequence_no)) [
  | inl y ↦ subst P (some_inj (rw y at h)) (f q refl)
  | inr n ↦ subst P (some_inj (rw n at h)) p
]

latest-All :
    (P : OrderStateEvent → Type 0) (order : ℕ) (rows : Table) (x : OrderStateEvent)
    → All P rows
    → latest order rows ≡ some x
    → P x
unfolding latest
latest-All P order [] x a h = cc
latest-All P order (r ∷ rows) x a h = elim (Bool-cases (r.broker_order_id == order)) [
  | inl y ↦
      later-All P r (latest order rows) x a.0 (λ q e. latest-All P order rows q a.1 e) (rw y at h)
  | inr n ↦ latest-All P order rows x a.1 (rw n at h)
]

replay_evidence-newest :
    (o : Observation) (instant : ℕ) (x : OrderStateEvent) (newest : Option OrderStateEvent)
    (e : OrderStateEvent)
    → ((q : OrderStateEvent)
        → newest ≡ some q
        → q.order_state_event_id ≡ x.order_state_event_id
        → q ≡ x)
    → replay_evidence o instant x newest ≡ ok e
    → (newest ≡ some e) × (e.state ≡ o.state)
unfolding replay_evidence
replay_evidence-newest o instant x none e f h = ground arith
replay_evidence-newest o instant x (some q) e f h =
    elim (Bool-cases
      (state_eq x.state o.state && x.observed_at_utc == instant && option_eq x.reason o.reason)) [
        | inr n ↦ let c : err evidence_conflict ≡ ok e = rw n at h in cc c
        | inl y ↦ elim (Bool-cases (q.order_state_event_id == x.order_state_event_id)) [
          | inr n ↦ let c : err evidence_not_latest ≡ ok e = rw (y, n) at h in cc c
          | inl i ↦
              let same : q ≡ e = ok_inj (rw (y, i) at h) in
              let stored : e ≡ x = sym same ∙ f q refl (==_eq _ _ i) in
              (
                ap some same,
                ap (λ z. z.state) stored ∙ index_injective x.state o.state (ground (arith, y)),
              )
        ]
      ]

err_ne_ok : {E A : Type 0} {e : E} {a : A} → ◌≡◌ {A = Result E A} (err e) (ok a) → ⊥
err_ne_ok h = cc h

store_checked-newest :
    (o : Observation) (instant fresh : ℕ) (rows : Table) (e : OrderStateEvent)
    (c : Result OrderError (Unit {0}))
    → check_new o instant (latest o.broker_order_id rows) ≡ c
    → (store_checked c (new_event o instant fresh rows) rows).0 ≡ ok e
    → (latest o.broker_order_id (store_checked c (new_event o instant fresh rows) rows).1 ≡ some e)
      × (e.state ≡ o.state)
unfolding store_checked
store_checked-newest o instant fresh rows e (err z) checked h = elim (err_ne_ok h) [ ]
store_checked-newest o instant fresh rows e (ok tt) checked h =
    let same : new_event o instant fresh rows ≡ e = ok_inj h in
    (latest-new_event o instant fresh rows checked ∙ ap some same, ap (λ z. z.state) (sym same))

raise_unknown-ok :
    (s : OrderState) (r : Result OrderError OrderStateEvent) (e : OrderStateEvent)
    → raise_unknown s r ≡ ok e
    → r ≡ ok e
raise_unknown-ok s (err x) e h = cc h
raise_unknown-ok s (ok x) e h = elim (Bool-cases (state_eq s unknown)) [
  | inl y ↦ let c : err unknown_broker_state ≡ ok e = rw y at h in cc c
  | inr n ↦ rw n at h
]

append_at-newest :
    (o : Observation) (t : Datetime) (fresh : ℕ) (rows : Table) (e : OrderStateEvent)
    → HasUniqueIds rows
    → (append_at o t fresh rows).0 ≡ ok e
    → (latest o.broker_order_id (append_at o t fresh rows).1 ≡ some e) × (e.state ≡ o.state)
unfolding append_at
append_at-newest o naive fresh rows e u h = elim (err_ne_ok h) [ ]
append_at-newest o (aware instant) fresh rows e u h =
    elim (Option-cases (find_source o.broker_order_id o.source_response_id rows)) [
      | inl m ↦
          rw (m, append_at)
            (store_checked-newest o instant fresh rows e
              (check_new o instant (latest o.broker_order_id rows)) refl (rw (m, append_at) at h))
      | inr (x, found) ↦
          let known =
            find_source-All
              (λ x. All (λ y. y.order_state_event_id ≡ x.order_state_event_id → y ≡ x) rows)
              o.broker_order_id o.source_response_id rows x u found in
          rw (found, append_at)
            (replay_evidence-newest o instant x (latest o.broker_order_id rows) e
              (λ q m.
                latest-All (λ y. y.order_state_event_id ≡ x.order_state_event_id → y ≡ x)
                  o.broker_order_id rows q known m)
              (rw (found, append_at) at h))
    ]

-- An event that `append` returns is the latest of its order then, and has the state that was asked
-- for, whether it is new or was there.
pub append-newest :
    (o : Observation) (fresh : ℕ) (rows : Table) (e : OrderStateEvent)
    → HasUniqueIds rows
    → (append o fresh rows).0 ≡ ok e
    → (latest o.broker_order_id (append o fresh rows).1 ≡ some e) × (e.state ≡ o.state)
unfolding append
append-newest o fresh rows e u h = append_at-newest o o.observed_at_utc fresh rows e u h

pub append_broker_state-newest :
    (order : ℕ) (raw : BrokerWord) (at : Datetime) (source fresh : ℕ) (rows : Table)
    (e : OrderStateEvent)
    → HasUniqueIds rows
    → (append_broker_state order raw at source fresh rows).0 ≡ ok e
    → (latest order (append_broker_state order raw at source fresh rows).1 ≡ some e)
      × (e.state ≡ normalize_broker_order_state raw)
unfolding append_broker_state
append_broker_state-newest order raw at source fresh rows e u h =
    append-newest (broker_observation order raw at source) fresh rows e u
      (raise_unknown-ok (normalize_broker_order_state raw) _ e h)
