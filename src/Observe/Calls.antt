-- ===== src/Observe/Calls.antt =====
-- `observe` of asset_management/execution/fills.py.
use toss_trading_core.Prelude.{
  Bool, Datetime, List, Option, Result, aware, err, if◌then◌else◌, is_some, ltb, naive, none, not,
  ok, require, some, ℕ, ◌&&◌, ◌==◌, ◌>>=◌, ◌>>◌, ◌||◌,
}
use toss_trading_core.Executions.{
  Decimal, ExecutionDelta, ExecutionSnapshot, Reading, Report, delta_for_snapshot,
  has_ledger_effect,
}
use toss_trading_core.Executions.Repository.{append_report}
use toss_trading_core.Observe.{
  Desk, ObserveError, delta_needs_context, execution_refused, fill_needs_context,
  filled_not_ordered, filled_not_positive, ordered_not_positive, partial_not_below, posting_refused,
  state_refused,
}
use toss_trading_core.Observe.Release.{release_reservations}
use toss_trading_core.Orders.{
  BrokerWord, OrderError, OrderState, contains, filled, normalize_broker_order_state,
  partially_filled, state_eq, terminal_order_states, unknown,
}
use toss_trading_core.Orders.Repository.{OrderStateEvent, Table, append_broker_state}
use toss_trading_core.Posting.{Books, PostError}
use toss_trading_core.Posting.Context.{Outside, PostingContext}
use toss_trading_core.Posting.Post.{ExecutionPosting, post}
use toss_trading_core.Prelude.Dict.{get}

-- The fill fields of a response.
pub record Execution : Type 0 where
  pub filled_quantity : Reading
  pub filled_amount : Reading
  pub average_filled_price : Option Reading
  pub commission : Reading
  pub tax : Reading

-- The arguments of `observe`.
pub record Sighting : Type 0 where
  pub broker_order_id : ℕ
  pub raw_state : BrokerWord
  pub observed_at_utc : Datetime
  pub source_response_id : ℕ
  pub execution : Option Execution
  pub posting_context : Option PostingContext

pub record ObservedOrder : Type 0 where
  pub state_event : OrderStateEvent
  pub execution_snapshot : Option ExecutionSnapshot
  pub execution_delta : Option ExecutionDelta
  pub posting : Option ExecutionPosting

-- The functions from outside, and the ids of uuid4: of the two state events, the snapshot, the delta,
-- and the releases.
pub record World : Type 0 where
  pub outside : Outside
  pub hash_context : PostingContext → ℕ
  pub hash_report : List (Option Decimal) → ℕ
  pub event_ids : ℕ × ℕ
  pub report_ids : ℕ × ℕ
  pub release_ids : ℕ → ℕ

abbrev pub report_of : Sighting → Execution → Report
report_of o x = record {
  broker_order_id = o.broker_order_id;
  cumulative_quantity = x.filled_quantity;
  cumulative_amount = x.filled_amount;
  average_price = x.average_filled_price;
  cumulative_commission = x.commission;
  cumulative_tax = x.tax;
  observed_at_utc = o.observed_at_utc;
  source_response_id = o.source_response_id;
}

abbrev pub either : {E F A : Type 0} → (E → F) → Result E A → Result F A
either f (err e) = err (f e)
either f (ok a) = ok a

-- A filled order has filled something, and just its quantity; a partly filled one less.
abbrev pub check_ordered_fill : OrderState → ℕ → Option (Option ℕ) → Result ObserveError (Unit {0})
check_ordered_fill s filled_so_far none = ok tt
check_ordered_fill s filled_so_far (some none) = ok tt
check_ordered_fill s filled_so_far (some (some n)) = do
  require (not (n == 0)) ordered_not_positive
  require (not (state_eq s filled) || filled_so_far == n) filled_not_ordered
  require (not (state_eq s partially_filled) || ltb filled_so_far n) partial_not_below

abbrev pub check_cumulative_fill :
    OrderState → ℕ → Option (Option ℕ) → Result ObserveError (Unit {0})
check_cumulative_fill s filled_so_far ordered = do
  require (not (state_eq s filled || state_eq s partially_filled) || ltb 0 filled_so_far)
      filled_not_positive
  check_ordered_fill s filled_so_far ordered

abbrev pub delta_or : Option ExecutionDelta → Option ExecutionDelta → Option ExecutionDelta
delta_or none other = other
delta_or (some d) other = some d

abbrev pub posted_or_error :
    Result PostError ExecutionPosting × Books
    → Result ObserveError (Option ExecutionPosting × Books)
posted_or_error (err e, b) = err (posting_refused e)
posted_or_error (ok p, b) = ok (some p, b)

-- The posting of the delta, if there is one and a context.
abbrev pub post_delta :
    World
    → Datetime
    → Option ExecutionDelta
    → Option PostingContext
    → Books
    → Result ObserveError (Option ExecutionPosting × Books)
post_delta w at none context b = ok (none, b)
post_delta w at (some d) none b =
    if has_ledger_effect d then err delta_needs_context else ok (none, b)
post_delta w at (some d) (some ctx) b = posted_or_error (post w.outside w.hash_context d ctx at b)

-- The part of `observe` for an execution.
unfoldable pub observe_execution :
    World
    → Sighting
    → Execution
    → OrderStateEvent
    → Desk
    → Result ObserveError (ObservedOrder × Books)
unfolding append_report delta_for_snapshot post get
observe_execution w o x event k =
    let (r, t) =
      append_report w.hash_report k.ordered (report_of o x) w.report_ids
        (record { snapshots = k.books.snapshots; deltas = k.books.deltas }) in
    either execution_refused r >>= λ (snapshot, delta).
    check_cumulative_fill event.state snapshot.cumulative.quantity (get o.broker_order_id k.ordered)
    >> (post_delta w o.observed_at_utc
          (delta_or delta (delta_for_snapshot snapshot.execution_snapshot_id t.deltas))
          o.posting_context (record k.books { snapshots = t.snapshots; deltas = t.deltas })
        >>= λ (posting, b). ok (
          record {
            state_event = event;
            execution_snapshot = some snapshot;
            execution_delta = delta;
            posting = posting;
          },
          b,
        ))

abbrev pub observe_fill :
    World
    → Sighting
    → Option Execution
    → OrderStateEvent
    → Desk
    → Result ObserveError (ObservedOrder × Books)
observe_fill w o none event k = ok (
  record { state_event = event; execution_snapshot = none; execution_delta = none; posting = none },
  k.books,
)
observe_fill w o (some x) event k = observe_execution w o x event k

abbrev pub instant_or_zero : Datetime → ℕ
instant_or_zero naive = 0
instant_or_zero (aware t) = t

-- A terminal state releases what is reserved for the order.
unfoldable pub release_if_terminal :
    World → Sighting → OrderState → Desk → Books → Result ObserveError Books
unfolding release_reservations
release_if_terminal w o s k b =
    if contains terminal_order_states s
    then release_reservations w.release_ids k.known o.broker_order_id o.source_response_id
        (instant_or_zero o.observed_at_utc) b
    else ok b

-- What follows the state event, inside the savepoint.
unfoldable pub observe_event :
    World → Sighting → OrderStateEvent → Desk → Result ObserveError (ObservedOrder × Books)
unfolding observe_execution release_if_terminal
observe_event w o event k = observe_fill w o o.execution event k >>= λ (result, b).
    release_if_terminal w o event.state k b >>= λ b'. ok (result, b')

abbrev pub bears_fill : OrderState → Bool
bears_fill s = state_eq s partially_filled || state_eq s filled

abbrev pub observed :
    Result ObserveError (ObservedOrder × Books)
    → Table
    → Desk
    → Result ObserveError ObservedOrder × Desk
observed (err e) events k = (err e, k)
observed (ok (result, b)) events k = (ok result, record k { order_events = events; books = b })

-- The savepoint of `observe`: an error leaves the desk as it was.
unfoldable pub observe_inside : World → Sighting → Desk → Result ObserveError ObservedOrder × Desk
unfolding append_broker_state observe_event
observe_inside w o k =
    if bears_fill (normalize_broker_order_state o.raw_state)
      && not (is_some o.execution && is_some o.posting_context)
    then (err fill_needs_context, k)
    else let (r, events) =
        append_broker_state o.broker_order_id o.raw_state o.observed_at_utc o.source_response_id
          w.event_ids.1 k.order_events in
      observed (either state_refused r >>= λ event. observe_event w o event k) events k

-- After the append of an UNKNOWN state: its error ends the call.
abbrev pub after_unknown :
    World
    → Sighting
    → Desk
    → Result OrderError OrderStateEvent × Table
    → Result ObserveError ObservedOrder × Desk
after_unknown w o k (err e, events) = (err (state_refused e), record k { order_events = events })
after_unknown w o k (ok event, events) = observe_inside w o (record k { order_events = events })

-- `observe`: an UNKNOWN state is stored first, and stays stored.
unfoldable pub observe : World → Sighting → Desk → Result ObserveError ObservedOrder × Desk
unfolding append_broker_state observe_inside
observe w o k =
    if state_eq (normalize_broker_order_state o.raw_state) unknown
    then after_unknown w o k (
        append_broker_state o.broker_order_id o.raw_state o.observed_at_utc o.source_response_id
          w.event_ids.0 k.order_events)
    else observe_inside w o k
