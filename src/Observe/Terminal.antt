-- ===== src/Observe/Terminal.antt =====
-- What an observation of a terminal state leaves.
use toss_trading_core.Prelude.{
  Bool, Bool-cases, Datetime, List, Option, Result, ap, bind_ok, err, if◌then◌else◌, inl, inr,
  is_some, none, not, ok, ok_inj, some, subst, sym, true, ℕ, ◌&&◌, ◌>>=◌, ◌∙◌, ◌≡◌,
}
use toss_trading_core.Executions.{ExecutionDelta, delta_for_snapshot, has_ledger_effect}
use toss_trading_core.Executions.Repository.{append_report}
use toss_trading_core.Ledger.{Evidence}
use toss_trading_core.Ledger.Reservations.{ReservationRow}
use toss_trading_core.Ledger.Reserved.{IsSequenced}
use toss_trading_core.Observe.{
  Desk, ObserveError, delta_needs_context, execution_refused, state_refused,
}
use toss_trading_core.Observe.Calls.{
  Execution, ObservedOrder, Sighting, World, after_unknown, bears_fill, check_cumulative_fill,
  delta_or, either, instant_or_zero, observe, observe_event, observe_execution, observe_fill,
  observe_inside, observed, post_delta, posted_or_error, release_if_terminal, report_of,
}
use toss_trading_core.Observe.Release.{release, release_reservations}
use toss_trading_core.Observe.Released.{IsReleased, release-IsReleased}
use toss_trading_core.Orders.{
  OrderError, OrderState, contains, normalize_broker_order_state, state_eq, terminal_order_states,
  unknown,
}
use toss_trading_core.Orders.Repository.{OrderStateEvent, Table, append_broker_state}
use toss_trading_core.Posting.{Books, PostError}
use toss_trading_core.Posting.Again.{post-inputs}
use toss_trading_core.Posting.Context.{PostingContext}
use toss_trading_core.Posting.Post.{ExecutionPosting, post}
use toss_trading_core.Prelude.Dict.{get}

-- Both tables of reservations are in sequence.
abbrev pub InSequence : Books → Type 0
InSequence b = IsSequenced b.cash.reservations × IsSequenced b.shares.sell_reservations

-- Neither cash nor shares are reserved for the order.
abbrev pub NothingReserved : ℕ → Books → Type 0
NothingReserved order b =
    IsReleased order b.cash.reservations × IsReleased order b.shares.sell_reservations

abbrev kept : Books → List ReservationRow × List ReservationRow
kept b = (b.cash.reservations, b.shares.sell_reservations)

post_delta-kept :
    (w : World) (at : Datetime) (d : Option ExecutionDelta) (context : Option PostingContext)
    (b : Books) (p : Option ExecutionPosting) (b' : Books)
    → post_delta w at d context b ≡ ok (p, b')
    → kept b' ≡ kept b
post_delta-kept w at none context b p b' h = ap kept (sym (ap (λ x. x.1) (ok_inj h)))
post_delta-kept w at (some d) none b p b' h = elim (Bool-cases (has_ledger_effect d)) [
  | inl y ↦ let c : err delta_needs_context ≡ ok (p, b') = rw y at h in cc c
  | inr n ↦
      let e : ◌≡◌ {A = Option ExecutionPosting × Books} (none, b) (p, b') = ok_inj (rw n at h) in
      ap kept (sym (ap (λ x. x.1) e))
]
post_delta-kept w at (some d) (some ctx) b p b' h =
    posted (post w.outside w.hash_context d ctx at b) h
    ∙ ap (λ i. (i.cash_reservations, i.sell_reservations))
        (post-inputs w.outside w.hash_context d ctx at b)
  where
    posted :
        (r : Result PostError ExecutionPosting × Books)
        → posted_or_error r ≡ ok (p, b')
        → kept b' ≡ kept (r.1)
    posted (err e, x) k = cc k
    posted (ok q, x) k =
        let e : ◌≡◌ {A = Option ExecutionPosting × Books} (some q, x) (p, b') = ok_inj k in
        ap kept (sym (ap (λ y. y.1) e))

observe_fill-kept :
    (w : World) (o : Sighting) (x : Option Execution) (event : OrderStateEvent) (k : Desk)
    (r : ObservedOrder) (b : Books)
    → observe_fill w o x event k ≡ ok (r, b)
    → (kept b ≡ kept k.books) × (r.state_event ≡ event)
unfolding observe_execution
observe_fill-kept w o none event k r b h =
    let e = ok_inj h in (ap kept (sym (ap (λ y. y.1) e)), sym (ap (λ y. y.0.state_event) e))
observe_fill-kept w o (some x) event k r b h =
    let a =
      append_report w.hash_report k.ordered (report_of o x) w.report_ids
        (record { snapshots = k.books.snapshots; deltas = k.books.deltas }) in
    let ((s, d), _, r1) = bind_ok (either execution_refused a.0) _ (r, b) h in
    let (_, _, r2) =
      bind_ok
        (check_cumulative_fill event.state s.cumulative.quantity (get o.broker_order_id k.ordered))
        _ (r, b) r1 in
    let ((p, b'), posted, r3) =
      bind_ok
        (post_delta w o.observed_at_utc
          (delta_or d (delta_for_snapshot s.execution_snapshot_id a.1.deltas)) o.posting_context
          (record k.books { snapshots = a.1.snapshots; deltas = a.1.deltas }))
        _ (r, b) r2 in
    let e = ok_inj r3 in
    (
      ap kept (sym (ap (λ y. y.1) e))
          ∙ post_delta-kept w o.observed_at_utc
              (delta_or d (delta_for_snapshot s.execution_snapshot_id a.1.deltas)) o.posting_context
              (record k.books { snapshots = a.1.snapshots; deltas = a.1.deltas }) p b' posted,
      sym (ap (λ y. y.0.state_event) e),
    )

InSequence-kept : (b b' : Books) → kept b' ≡ kept b → InSequence b → InSequence b'
InSequence-kept b b' e s = subst (λ p. IsSequenced p.0 × IsSequenced p.1) (sym e) s

release_reservations-NothingReserved :
    (fresh : ℕ → ℕ) (known : Evidence) (order source at : ℕ) (b b' : Books)
    → InSequence b
    → release_reservations fresh known order source at b ≡ ok b'
    → NothingReserved order b'
unfolding release_reservations
release_reservations-NothingReserved fresh known order source at b b' (s, t) h =
    let (cash, c, r1) = bind_ok (release fresh known order source at b.cash.reservations) _ b' h in
    let (shares, d, r2) =
      bind_ok (release fresh known order source at b.shares.sell_reservations) _ b' r1 in
    subst (NothingReserved order) (ok_inj r2) (
      release-IsReleased fresh known order source at b.cash.reservations cash s c,
      release-IsReleased fresh known order source at b.shares.sell_reservations shares t d,
    )

-- A terminal state ends in a release, whatever else it did.
release_if_terminal-released :
    (w : World) (o : Sighting) (s : OrderState) (k : Desk) (b b' : Books)
    → contains terminal_order_states s ≡ true
    → release_if_terminal w o s k b ≡ ok b'
    → release_reservations w.release_ids k.known o.broker_order_id o.source_response_id
        (instant_or_zero o.observed_at_utc)
        b
      ≡ ok b'
unfolding release_if_terminal
release_if_terminal-released w o s k b b' t h =
    subst
      (λ c.
        (if c
          then release_reservations w.release_ids k.known o.broker_order_id o.source_response_id
              (instant_or_zero o.observed_at_utc) b
          else ok b)
        ≡ ok b')
      t h

observe_event-NothingReserved :
    (w : World) (o : Sighting) (event : OrderStateEvent) (k : Desk) (r : ObservedOrder) (b : Books)
    → InSequence k.books
    → observe_event w o event k ≡ ok (r, b)
    → contains terminal_order_states r.state_event.state ≡ true
    → NothingReserved o.broker_order_id b
unfolding observe_event
observe_event-NothingReserved w o event k r b s h terminal =
    let ((r1, b1), filled_part, rest) = bind_ok (observe_fill w o o.execution event k) _ (r, b) h in
    let (b2, released, last) = bind_ok (release_if_terminal w o event.state k b1) _ (r, b) rest in
    let e : ◌≡◌ {A = ObservedOrder × Books} (r1, b2) (r, b) = ok_inj last in
    let (same, event_kept) = observe_fill-kept w o o.execution event k r1 b1 filled_part in
    let state : event ≡ r.state_event = sym event_kept ∙ ap (λ p. p.0.state_event) e in
    let t : contains terminal_order_states event.state ≡ true =
      subst (λ x. contains terminal_order_states x.state ≡ true) (sym state) terminal in
    subst (NothingReserved o.broker_order_id) (ap (λ p. p.1) e) (
      release_reservations-NothingReserved w.release_ids k.known o.broker_order_id
        o.source_response_id (instant_or_zero o.observed_at_utc) b1 b2
        (InSequence-kept k.books b1 same s)
        (release_if_terminal-released w o event.state k b1 b2 t released))

observe_inside-NothingReserved :
    (w : World) (o : Sighting) (k : Desk) (r : ObservedOrder)
    → InSequence k.books
    → (observe_inside w o k).0 ≡ ok r
    → contains terminal_order_states r.state_event.state ≡ true
    → NothingReserved o.broker_order_id (observe_inside w o k).1.books
unfolding observe_inside
observe_inside-NothingReserved w o k r s = elim (Bool-cases (needs_context)) [
  | inl y ↦ rw y (λ h. cc h)
  | inr n ↦ rw n (
      chosen (
        append_broker_state o.broker_order_id o.raw_state o.observed_at_utc o.source_response_id
          w.event_ids.1 k.order_events))
]
  where
    needs_context : Bool
    needs_context =
        bears_fill (normalize_broker_order_state o.raw_state)
        && not (is_some o.execution && is_some o.posting_context)

    Goal : Result ObserveError ObservedOrder × Desk → Type 0
    Goal p =
        p.0 ≡ ok r
        → contains terminal_order_states r.state_event.state ≡ true
        → NothingReserved o.broker_order_id p.1.books

    stored :
        (x : Result ObserveError (ObservedOrder × Books)) (events : Table)
        → ((b : Books)
            → x ≡ ok (r, b)
            → contains terminal_order_states r.state_event.state ≡ true
            → NothingReserved o.broker_order_id b)
        → Goal (observed x events k)
    stored (err e) events f = λ h. cc h
    stored (ok (q, b)) events f = λ h t. f b (ap (λ z. ok (z, b)) (ok_inj h)) t

    chosen :
        (a : Result OrderError OrderStateEvent × Table)
        → Goal (observed (either state_refused a.0 >>= λ event. observe_event w o event k) a.1 k)
    chosen (err e, events) = λ h. cc h
    chosen (ok event, events) =
        stored (observe_event w o event k) events
          (λ b h t. observe_event-NothingReserved w o event k r b s h t)

-- An observation that returns a terminal state, with the reservation tables in sequence before,
-- leaves neither cash nor shares reserved for its order.
pub observe-NothingReserved :
    (w : World) (o : Sighting) (k : Desk) (r : ObservedOrder)
    → InSequence k.books
    → (observe w o k).0 ≡ ok r
    → contains terminal_order_states r.state_event.state ≡ true
    → NothingReserved o.broker_order_id (observe w o k).1.books
unfolding observe
observe-NothingReserved w o k r s =
    elim (Bool-cases (state_eq (normalize_broker_order_state o.raw_state) unknown)) [
      | inr n ↦ rw n (observe_inside-NothingReserved w o k r s)
      | inl y ↦ rw y (
          first (
            append_broker_state o.broker_order_id o.raw_state o.observed_at_utc o.source_response_id
              w.event_ids.0 k.order_events))
    ]
  where
    first :
        (a : Result OrderError OrderStateEvent × Table)
        → (after_unknown w o k a).0 ≡ ok r
        → contains terminal_order_states r.state_event.state ≡ true
        → NothingReserved o.broker_order_id (after_unknown w o k a).1.books
    first (err e, events) = λ h. cc h
    first (ok event, events) =
        observe_inside-NothingReserved w o (record k { order_events = events }) r s
