-- ===== src/Orders/Replay.antt =====
-- Repeated evidence, unknown broker words, and the proof that an order is final.
use toss_trading_core.Prelude.{
  Bool, Bool-cases, Datetime, List, Option, [], ap, arith, aware, err, inl, inr, ltb, naive, none,
  not, ok, option_eq, refl, some, subst, sym, true, ℕ, ◌∙◌, ◌∷◌, ◌≡◌, ◌≤◌,
}
use toss_trading_core.Orders.{
  OrderState, assert_order_transition, canceled, contains, filled, normalize_broker_order_state,
  other_word, planned, rejected, replaced, state_eq, unknown, unknown_broker_state,
}
use toss_trading_core.Orders.Final.{Continues, append_all, append_all-Continues}
use toss_trading_core.Orders.Journal.{IsJournal, latest-new_event}
use toss_trading_core.Orders.Repository.{
  Observation, OrderStateEvent, Table, append, append_at, append_broker_state, blocks_new_order,
  broker_observation, check_new, find_source, latest, new_event, replay_evidence, require_terminal,
  terminal_of,
}

-- The row that was just stored is found again by its evidence.
module _ (o : Observation) (instant source fresh : ℕ) (rows : Table) where
  abbrev stored_row : OrderStateEvent
  stored_row = new_event o instant fresh rows

  find_source-stored :
      o.source_response_id ≡ some source
      → find_source o.broker_order_id (some source) (stored_row ∷ rows) ≡ some stored_row
  unfolding find_source
  find_source-stored e = ground arith

option_eq_refl : (a : Option ℕ) → option_eq a a ≡ true
option_eq_refl none = refl
option_eq_refl (some a) = ground arith

state_eq_refl : (s : OrderState) → state_eq s s ≡ true
state_eq_refl s = ground arith

replay-stored :
    (o : Observation) (instant fresh : ℕ) (rows : Table)
    → let r = new_event o instant fresh rows in replay_evidence o instant r (some r) ≡ ok r
unfolding replay_evidence
replay-stored o instant fresh rows = ground (arith, option_eq_refl o.reason, state_eq_refl o.state)

-- `append` on evidence that is in the table.
append_at-found :
    (o : Observation) (instant fresh : ℕ) (rows : Table) {x : OrderStateEvent}
    → find_source o.broker_order_id o.source_response_id rows ≡ some x
    → append_at o (aware instant) fresh rows
      ≡ (replay_evidence o instant x (latest o.broker_order_id rows), rows)
unfolding append_at
append_at-found o instant fresh rows e = rw (e, append_at)

-- `append` on new evidence that the checks let pass.
append_at-new :
    (o : Observation) (instant fresh : ℕ) (rows : Table)
    → find_source o.broker_order_id o.source_response_id rows ≡ none
    → check_new o instant (latest o.broker_order_id rows) ≡ ok tt
    → append_at o (aware instant) fresh rows
      ≡ (ok (new_event o instant fresh rows), new_event o instant fresh rows ∷ rows)
unfolding append_at
append_at-new o instant fresh rows m c = rw (m, append_at) (rw c)

-- The second run of a call whose first run stored a row.
append_at_stored :
    (o : Observation) (instant source fresh fresh' : ℕ) (rows : Table)
    → o.source_response_id ≡ some source
    → check_new o instant (latest o.broker_order_id rows) ≡ ok tt
    → let r = new_event o instant fresh rows in
      append_at o (aware instant) fresh' (r ∷ rows) ≡ (ok r, r ∷ rows)
append_at_stored o instant source fresh fresh' rows s c =
    let r = new_event o instant fresh rows in
    let found : find_source o.broker_order_id o.source_response_id (r ∷ rows) ≡ some r =
      subst (λ z. find_source o.broker_order_id z (r ∷ rows) ≡ some r) (sym s)
        (find_source-stored o instant source fresh rows s) in
    append_at-found o instant fresh' (r ∷ rows) found
    ∙ ap (λ z. (replay_evidence o instant r z, r ∷ rows)) (latest-new_event o instant fresh rows c)
    ∙ ap (λ z. (z, r ∷ rows)) (replay-stored o instant fresh rows)

append_at_again :
    (o : Observation) (t : Datetime) (source fresh fresh' : ℕ) (rows : Table) {e : OrderStateEvent}
    → o.source_response_id ≡ some source
    → (append_at o t fresh rows).0 ≡ ok e
    → append_at o t fresh' (append_at o t fresh rows).1 ≡ (ok e, (append_at o t fresh rows).1)
unfolding append_at
append_at_again o naive source fresh fresh' rows s h = cc
append_at_again o (aware instant) source fresh fresh' rows s h =
    ground (arith, append_at_stored o instant source fresh fresh' rows s)

-- Evidence that `append` has accepted is accepted again with the same event, whatever id is fresh,
-- and the table stays as it is.
pub append_again :
    (o : Observation) (source fresh fresh' : ℕ) (rows : Table) {e : OrderStateEvent}
    → o.source_response_id ≡ some source
    → (append o fresh rows).0 ≡ ok e
    → append o fresh' (append o fresh rows).1 ≡ (ok e, (append o fresh rows).1)
unfolding append
append_again o source fresh fresh' rows s h =
    append_at_again o o.observed_at_utc source fresh fresh' rows s h

-- The states that an UNKNOWN observation may follow.
abbrev pub admits_unknown : OrderState → Bool
admits_unknown s = not (contains (planned ∷ filled ∷ canceled ∷ replaced ∷ rejected ∷ []) s)

-- The latest event of an order, if it has one, is not after the instant and admits UNKNOWN.
abbrev pub AdmitsUnknown : ℕ → Option OrderStateEvent → Type 0
AdmitsUnknown instant none = Unit
AdmitsUnknown instant (some e) = (e.observed_at_utc ≤ instant) × (admits_unknown e.state ≡ true)

transition-unknown :
    (s : OrderState) → admits_unknown s ≡ true → assert_order_transition (some s) unknown ≡ ok tt
unfolding assert_order_transition
transition-unknown s h = ground arith

check_new-unknown :
    (order text instant source : ℕ) (previous : Option OrderStateEvent)
    → AdmitsUnknown instant previous
    → check_new (broker_observation order (other_word text) (aware instant) source) instant previous
      ≡ ok tt
unfolding check_new assert_order_transition normalize_broker_order_state
check_new-unknown order text instant source none a = refl
check_new-unknown order text instant source (some e) (not_later, admitted) =
    elim (Bool-cases (ltb instant e.observed_at_utc)) [
      | inl y ↦ let c : ⊥ = ground (arith, not_later, y) in elim c [ ]
      | inr n ↦ rw n (transition-unknown e.state admitted)
    ]

-- The table after UNKNOWN was observed: one row more, which is the latest of its order, tells the
-- response and the time, and blocks new orders.
abbrev pub KeepsUnknown : ℕ → ℕ → ℕ → Table → Table → Type 0
KeepsUnknown order instant source rows rows' =
    (e : OrderStateEvent) × (rows' ≡ e ∷ rows)
    × (latest order rows' ≡ some e)
    × (e.state ≡ unknown)
    × (e.source_response_id ≡ some source)
    × (e.observed_at_utc ≡ instant)
    × (blocks_new_order e ≡ true)

-- A word that the broker map does not know, in evidence that is not in the table yet, after events
-- of the order that are not later and whose latest state is neither PLANNED nor terminal (or after
-- none), raises an error and leaves an event UNKNOWN: it is the latest of the order, has the response
-- and the time of the observation, and blocks new orders.
pub append_broker_state-unknown :
    (order text instant source fresh : ℕ) (rows : Table)
    → find_source order (some source) rows ≡ none
    → AdmitsUnknown instant (latest order rows)
    → ((append_broker_state order (other_word text) (aware instant) source fresh rows).0
        ≡ err unknown_broker_state)
      × KeepsUnknown order instant source rows
          (append_broker_state order (other_word text) (aware instant) source fresh rows).1
unfolding append_broker_state append blocks_new_order
append_broker_state-unknown order text instant source fresh rows m a =
    let o = broker_observation order (other_word text) (aware instant) source in
    let c = check_new-unknown order text instant source (latest order rows) a in
    let stored = append_at-new o instant fresh rows m c in
    let e = new_event o instant fresh rows in
    rw stored (refl, (e, refl, latest-new_event o instant fresh rows c, refl, refl, refl, refl))

final_of :
    (a b : Option OrderStateEvent) {e : OrderStateEvent}
    → Continues a b
    → terminal_of a ≡ ok e
    → (e' : OrderStateEvent) × (terminal_of b ≡ ok e') × (e'.state ≡ e.state)
unfolding terminal_of
final_of none b c h = cc
final_of (some x) none c h = absurd c
final_of (some x) (some y) c h = (y, ground arith, ground arith)

-- An order that `require_terminal` has proved final keeps that state through all later calls.
pub require_terminal-append_all :
    (order : ℕ) (calls : List (Observation × ℕ)) (rows : Table) {e : OrderStateEvent}
    → IsJournal rows
    → require_terminal order rows ≡ ok e
    → (e' : OrderStateEvent) × (require_terminal order (append_all calls rows) ≡ ok e')
      × (e'.state ≡ e.state)
unfolding require_terminal
require_terminal-append_all order calls rows j h =
    final_of (latest order rows) (latest order (append_all calls rows))
      (append_all-Continues order calls rows j) h
