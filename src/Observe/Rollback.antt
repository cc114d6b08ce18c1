-- ===== src/Observe/Rollback.antt =====
-- What an observation that fails leaves.
use toss_trading_core.Prelude.{
  Bool-cases, Result, err, if◌then◌else◌, inl, inr, is_some, not, ok, refl, ◌&&◌, ◌>>=◌, ◌≡◌,
}
use toss_trading_core.Observe.{Desk, ObserveError, state_refused}
use toss_trading_core.Observe.Calls.{
  ObservedOrder, Sighting, World, after_unknown, bears_fill, either, observe, observe_event,
  observe_inside, observed,
}
use toss_trading_core.Orders.{OrderError, normalize_broker_order_state, state_eq, unknown}
use toss_trading_core.Orders.Repository.{OrderStateEvent, Table, append_broker_state}
use toss_trading_core.Posting.{Books}

observed-back :
    (x : Result ObserveError (ObservedOrder × Books)) (events : Table) (k : Desk) (e : ObserveError)
    → (observed x events k).0 ≡ err e
    → (observed x events k).1 ≡ k
observed-back (err z) events k e h = refl
observed-back (ok (r, b)) events k e h = cc h

observe_inside-back :
    (w : World) (o : Sighting) (k : Desk) (e : ObserveError)
    → (observe_inside w o k).0 ≡ err e
    → (observe_inside w o k).1 ≡ k
unfolding observe_inside
observe_inside-back w o k e =
    elim (Bool-cases (
      bears_fill (normalize_broker_order_state o.raw_state)
      && not (is_some o.execution && is_some o.posting_context))) [
        | inl y ↦ rw y (λ h. refl)
        | inr n ↦ rw n (
            appended (
              append_broker_state o.broker_order_id o.raw_state o.observed_at_utc
                o.source_response_id w.event_ids.1 k.order_events))
      ]
  where
    appended :
        (a : Result OrderError OrderStateEvent × Table)
        → (observed (either state_refused a.0 >>= λ event. observe_event w o event k) a.1 k).0
          ≡ err e
        → (observed (either state_refused a.0 >>= λ event. observe_event w o event k) a.1 k).1 ≡ k
    appended a =
        observed-back (either state_refused a.0 >>= λ event. observe_event w o event k) a.1 k e

-- The events that an observation keeps when it fails: only an UNKNOWN state has been stored.
abbrev pub evidence_kept : World → Sighting → Desk → Table
evidence_kept w o k =
    if state_eq (normalize_broker_order_state o.raw_state) unknown
    then (append_broker_state o.broker_order_id o.raw_state o.observed_at_utc o.source_response_id
        w.event_ids.0 k.order_events).1
    else k.order_events

-- An observation that fails leaves every table as it was, but for the events of the order when its
-- state is UNKNOWN: these are what the append of that state has made of them.
pub observe-rolled_back :
    (w : World) (o : Sighting) (k : Desk) (e : ObserveError)
    → (observe w o k).0 ≡ err e
    → (observe w o k).1 ≡ record k { order_events = evidence_kept w o k }
unfolding observe
observe-rolled_back w o k e =
    elim (Bool-cases (state_eq (normalize_broker_order_state o.raw_state) unknown)) [
      | inr n ↦ rw n (observe_inside-back w o k e)
      | inl y ↦ rw y (
          stored (
            append_broker_state o.broker_order_id o.raw_state o.observed_at_utc o.source_response_id
              w.event_ids.0 k.order_events))
    ]
  where
    stored :
        (a : Result OrderError OrderStateEvent × Table)
        → (after_unknown w o k a).0 ≡ err e
        → (after_unknown w o k a).1 ≡ record k { order_events = a.1 }
    stored (err z, events) h = refl
    stored (ok event, events) h = observe_inside-back w o (record k { order_events = events }) e h
