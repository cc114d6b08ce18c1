-- ===== src/Orders/Repository.antt =====
-- `OrderStateRepository` of asset_management/account/orders.py over the table
-- `am_order_state_event`. A row is consed to the table; the queries pick it by its sequence number.
-- Order, event and response ids are numbers, since they are only compared; `fresh` is the uuid4.
use toss_trading_core.Prelude.{
  Bool, Datetime, List, Option, Result, [], aware, err, false, if◌then◌else◌, is_some, ltb, max,
  naive, none, not, ok, option_eq, some, true, ℕ, ◌&&◌, ◌+◌, ◌==◌, ◌∷◌,
}
use toss_trading_core.Orders.{
  BrokerWord, OrderError, OrderState, assert_order_transition, contains, evidence_conflict,
  evidence_not_latest, final_state_not_proven, internal_start, naive_timestamp,
  normalize_broker_order_state, other_word, planned, review_order_states, state_eq, state_missing,
  submitting, terminal_order_states, time_backwards, unknown, unknown_broker_state,
}

-- A row of the table: an `OrderStateEvent` with its sequence number.
pub record OrderStateEvent : Type 0 where
  pub order_state_event_id : ℕ
  pub broker_order_id : ℕ
  pub sequence_no : ℕ
  pub previous_state : Option OrderState
  pub state : OrderState
  pub observed_at_utc : ℕ
  pub source_response_id : Option ℕ
  pub reason : Option ℕ

abbrev pub Table : Type 0
Table = List OrderStateEvent

-- `OrderStateEvent.blocks_new_order`
unfoldable pub blocks_new_order : OrderStateEvent → Bool
blocks_new_order e = contains review_order_states e.state

abbrev pub later : OrderStateEvent → Option OrderStateEvent → Option OrderStateEvent
later r none = some r
later r (some q) = if ltb r.sequence_no q.sequence_no then some q else some r

-- `OrderStateRepository.latest`: ORDER BY sequence_no DESC LIMIT 1.
unfoldable pub latest : ℕ → Table → Option OrderStateEvent
latest order [] = none
latest order (r ∷ rows) =
    let rest = latest order rows in if r.broker_order_id == order then later r rest else rest

-- COALESCE(MAX(sequence_no), 0)
unfoldable pub max_sequence : ℕ → Table → ℕ
max_sequence order [] = 0
max_sequence order (r ∷ rows) =
    let rest = max_sequence order rows in
    if r.broker_order_id == order then max r.sequence_no rest else rest

-- The row with this order and this response; NULL equals nothing.
unfoldable pub find_source : ℕ → Option ℕ → Table → Option OrderStateEvent
find_source order none rows = none
find_source order (some source) [] = none
find_source order (some source) (r ∷ rows) =
    let rest = find_source order (some source) rows in
    if r.broker_order_id == order && option_eq r.source_response_id (some source)
    then some r
    else rest

-- The arguments of `append`.
pub record Observation : Type 0 where
  pub broker_order_id : ℕ
  pub state : OrderState
  pub observed_at_utc : Datetime
  pub source_response_id : Option ℕ
  pub reason : Option ℕ
  pub external_initial : Bool

abbrev pub state_of : Option OrderStateEvent → Option OrderState
state_of none = none
state_of (some e) = some e.state

abbrev pub moves_backwards : ℕ → Option OrderStateEvent → Bool
moves_backwards instant none = false
moves_backwards instant (some e) = ltb instant e.observed_at_utc

-- Evidence that is in the table already: the same content, and the latest row of its order.
unfoldable pub replay_evidence :
    Observation → ℕ → OrderStateEvent → Option OrderStateEvent → Result OrderError OrderStateEvent
replay_evidence o instant existing newest =
    if not (
      state_eq existing.state o.state
      && existing.observed_at_utc == instant
      && option_eq existing.reason o.reason)
    then err evidence_conflict
    else elim newest [
      | none ↦ err evidence_not_latest
      | some e ↦
          if e.order_state_event_id == existing.order_state_event_id
          then ok e
          else err evidence_not_latest
    ]

-- The checks of a new event against the latest one.
unfoldable pub check_new : Observation → ℕ → Option OrderStateEvent → Result OrderError (Unit {0})
unfolding assert_order_transition
check_new o instant previous =
    if not (is_some previous)
      && not o.external_initial
      && not (contains (planned ∷ submitting ∷ []) o.state)
    then err internal_start
    else if moves_backwards instant previous
    then err time_backwards
    else assert_order_transition (state_of previous) o.state

abbrev pub new_event : Observation → ℕ → ℕ → Table → OrderStateEvent
new_event o instant fresh rows = record {
  order_state_event_id = fresh;
  broker_order_id = o.broker_order_id;
  sequence_no = max_sequence o.broker_order_id rows + 1;
  previous_state = state_of (latest o.broker_order_id rows);
  state = o.state;
  observed_at_utc = instant;
  source_response_id = o.source_response_id;
  reason = o.reason;
}

-- The insert, once the checks have passed.
unfoldable pub store_checked :
    Result OrderError (Unit {0})
    → OrderStateEvent
    → Table
    → Result OrderError OrderStateEvent × Table
store_checked (err e) row rows = (err e, rows)
store_checked (ok _) row rows = (ok row, row ∷ rows)

-- The body of `append`; a timestamp with no time zone is refused first.
unfoldable pub append_at :
    Observation → Datetime → ℕ → Table → Result OrderError OrderStateEvent × Table
unfolding replay_evidence store_checked
append_at o naive fresh rows = (err naive_timestamp, rows)
append_at o (aware instant) fresh rows =
    let newest = latest o.broker_order_id rows in
    elim (find_source o.broker_order_id o.source_response_id rows) [
      | some existing ↦ (replay_evidence o instant existing newest, rows)
      | none ↦ store_checked (check_new o instant newest) (new_event o instant fresh rows) rows
    ]

-- `OrderStateRepository.append`
unfoldable pub append : Observation → ℕ → Table → Result OrderError OrderStateEvent × Table
unfolding append_at
append o fresh rows = append_at o o.observed_at_utc fresh rows

-- The reason text names the word that was not understood.
abbrev pub unknown_reason : BrokerWord → Option ℕ
unknown_reason (other_word text) = some text
unknown_reason _ = none

abbrev pub broker_observation : ℕ → BrokerWord → Datetime → ℕ → Observation
broker_observation order raw at source = record {
  broker_order_id = order;
  state = normalize_broker_order_state raw;
  observed_at_utc = at;
  source_response_id = some source;
  reason = unknown_reason raw;
  external_initial = true;
}

-- UNKNOWN is stored first and raised then.
abbrev pub raise_unknown :
    OrderState → Result OrderError OrderStateEvent → Result OrderError OrderStateEvent
raise_unknown s (err e) = err e
raise_unknown s (ok event) = if state_eq s unknown then err unknown_broker_state else ok event

-- `OrderStateRepository.append_broker_state`
unfoldable pub append_broker_state :
    ℕ → BrokerWord → Datetime → ℕ → ℕ → Table → Result OrderError OrderStateEvent × Table
unfolding normalize_broker_order_state
append_broker_state order raw at source fresh rows =
    let (r, rows') = append (broker_observation order raw at source) fresh rows in
    (raise_unknown (normalize_broker_order_state raw) r, rows')

-- The state that `require_terminal` asks of the latest event.
unfoldable pub terminal_of : Option OrderStateEvent → Result OrderError OrderStateEvent
terminal_of none = err state_missing
terminal_of (some e) =
    if contains terminal_order_states e.state then ok e else err final_state_not_proven

-- `OrderStateRepository.require_terminal`
unfoldable pub require_terminal : ℕ → Table → Result OrderError OrderStateEvent
unfolding terminal_of
require_terminal order rows = terminal_of (latest order rows)
