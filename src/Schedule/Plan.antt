-- ===== src/Schedule/Plan.antt =====
-- `plan_schedule` of asset_management/execution/scheduling.py; `fingerprint` is the hash of all its
-- arguments.
use toss_trading_core.Prelude.{
  Bool, List, Option, Result, [], err, false, if◌then◌else◌, leb, length, ltb, map, max, min, none,
  not, ok, require, some, true, ℕ, ◌%◌, ◌&&◌, ◌*◌, ◌+◌, ◌-◌, ◌/◌, ◌==◌, ◌>>=◌, ◌>>◌, ◌||◌, ◌∷◌,
}
use toss_trading_core.Schedule.{
  ChildOrder, ExecutionSchedule, InstrumentOrderRule, IntentSide, Market, Parent, Reason, Request,
  ScheduleMode, SchedulingPolicy, buy_side, child_price_invalid, event_defer, event_deferred,
  immediate, market_cost_limit, microstructure, one, open_close_aware, order_adv_limit,
  order_type_unsupported, parent_lot_conflict, parent_market_conflict, passive_limit, pov_lite,
  schedule_ready, sell_side, session_unavailable, twap_lite, window_unavailable,
  window_volume_missing,
}
use toss_trading_core.Schedule.Allocate.{
  Frame, allocate, capacity_of, child_price, make_children, time_fraction,
}

unfoldable pub is_request : Request → Bool
is_request r =
    not (r.capability_evidence_id == 0)
    && not (length r.window_volumes == 0)
    && not (r.adv_quantity == 0)
    && leb r.urgency one

abbrev pub same_intent_side : IntentSide → IntentSide → Bool
same_intent_side buy_side buy_side = true
same_intent_side buy_side sell_side = false
same_intent_side sell_side buy_side = false
same_intent_side sell_side sell_side = true

abbrev pub mode_number : ScheduleMode → ℕ
mode_number immediate = 0
mode_number passive_limit = 1
mode_number twap_lite = 2
mode_number pov_lite = 3
mode_number open_close_aware = 4
mode_number event_defer = 5

abbrev pub is_mode : ScheduleMode → ScheduleMode → Bool
is_mode a b = mode_number a == mode_number b

abbrev pub session_time : Option ℕ → Result Reason ℕ
session_time none = err session_unavailable
session_time (some t) = ok t

-- The window before the urgency shortens it.
abbrev pub window_start : SchedulingPolicy → Request → ℕ → ℕ
window_start p r opened =
    let s = max r.evaluated_at (max r.transition_start opened) in
    if is_mode p.mode open_close_aware then max s (opened + p.event_buffer) else s

abbrev pub window_end : SchedulingPolicy → Request → ℕ → ℕ
window_end p r closed =
    let e = min r.valid_until (min r.forecast_valid_until closed) in
    if is_mode p.mode open_close_aware then min e (closed - p.event_buffer) else e

abbrev pub shortened : ℕ → ℕ → ℕ → ℕ
shortened urgency start end = start + (end - start) * time_fraction urgency / (2 * one)

abbrev pub any_event_near : ℕ → ℕ → ℕ → List ℕ → Bool
any_event_near buffer start end [] = false
any_event_near buffer start end (t ∷ times) =
    (leb start (t + buffer) && leb t (end + buffer)) || any_event_near buffer start end times

abbrev pub count_of : SchedulingPolicy → ℕ
count_of p =
    if is_mode p.mode twap_lite || is_mode p.mode pov_lite || is_mode p.mode open_close_aware
    then p.child_count
    else 1

abbrev pub reference_of : SchedulingPolicy → Parent → Market → ℕ
reference_of p parent m =
    if is_mode p.mode passive_limit
    then (elim parent.side [ buy_side ↦ m.bid | sell_side ↦ m.ask ])
    else m.executable_price_reference

abbrev pub price_of : SchedulingPolicy → InstrumentOrderRule → Parent → Market → ℕ
price_of p rule parent m =
    child_price parent.side (reference_of p parent m) parent.limit_price rule.price_tick

abbrev pub frame_of :
    SchedulingPolicy → InstrumentOrderRule → Parent → Market → Request → ℕ → ℕ → Frame
frame_of p rule parent m r start end = record {
  count = count_of p;
  start = start;
  end = end;
  price = price_of p rule parent m;
  rule = rule;
  fraction = time_fraction r.urgency;
}

-- The children of an allocation.
unfoldable pub plan_allocated :
    SchedulingPolicy
    → InstrumentOrderRule
    → Parent
    → Market
    → Request
    → ℕ
    → ℕ
    → List ℕ
    → Result Reason (List ChildOrder)
unfolding make_children
plan_allocated p rule parent m r start end allocation =
    require (not (price_of p rule parent m == 0)) child_price_invalid
    >> make_children (frame_of p rule parent m r start end) 0 allocation r.window_volumes

abbrev pub capacities : SchedulingPolicy → InstrumentOrderRule → Request → List ℕ
capacities p rule r = map (capacity_of r.urgency p.max_participation rule.lot_size) r.window_volumes

-- The children from the allocation on.
unfoldable pub plan_lots :
    SchedulingPolicy
    → InstrumentOrderRule
    → Parent
    → Market
    → Request
    → ℕ
    → ℕ
    → Result Reason (List ChildOrder)
unfolding allocate plan_allocated
plan_lots p rule parent m r start end = do
  require (length r.window_volumes == count_of p) window_volume_missing
  require (parent.quantity % rule.lot_size == 0) parent_lot_conflict
  allocation ← allocate p.mode (parent.quantity / rule.lot_size) (count_of p) (capacities p rule r)
  plan_allocated p rule parent m r start end allocation

abbrev pub within_order_limits : SchedulingPolicy → Parent → Request → Result Reason (Unit {0})
within_order_limits p parent r = do
  require (leb (parent.quantity * one) (p.max_order_adv * r.adv_quantity)) order_adv_limit
  require (leb r.volatility p.max_volatility && leb r.expected_impact_bps p.max_impact_bps)
      market_cost_limit

-- The children from the window on.
unfoldable pub plan_window :
    SchedulingPolicy
    → InstrumentOrderRule
    → Parent
    → Market
    → Request
    → ℕ
    → ℕ
    → Result Reason (List ChildOrder)
unfolding plan_lots
plan_window p rule parent m r start end =
    require
      (not (is_mode p.mode event_defer || any_event_near p.event_buffer start end r.event_times))
      event_deferred
    >> (within_order_limits p parent r >> plan_lots p rule parent m r start end)

-- The children from the regular session on.
unfoldable pub plan_session :
    SchedulingPolicy
    → InstrumentOrderRule
    → Parent
    → Market
    → Request
    → ℕ
    → ℕ
    → Result Reason (List ChildOrder)
unfolding plan_window
plan_session p rule parent m r opened closed =
    require (ltb (window_start p r opened) (window_end p r closed) && m.session_matches)
      window_unavailable
    >> plan_window p rule parent m r (window_start p r opened)
        (shortened r.urgency (window_start p r opened) (window_end p r closed))

abbrev pub market_usable : Parent → Market → Request → Result Reason (Unit {0})
market_usable parent m r = do
  require (m.instrument_id == parent.instrument_id && same_intent_side m.side parent.side)
      parent_market_conflict
  require m.fresh_allows microstructure
  require r.limit_supported order_type_unsupported

unfoldable pub plan_children :
    SchedulingPolicy
    → InstrumentOrderRule
    → Parent
    → Market
    → Request
    → Result Reason (List ChildOrder)
unfolding plan_session
plan_children p rule parent m r = do
  market_usable parent m r
  opened ← session_time m.regular_open_at
  closed ← session_time m.regular_close_at
  plan_session p rule parent m r opened closed

abbrev pub schedule_of :
    SchedulingPolicy → Parent → ℕ → Result Reason (List ChildOrder) → ExecutionSchedule
schedule_of p parent fingerprint (err reason) = record {
  parent_id = parent.order_intent_id;
  mode = p.mode;
  is_planned = false;
  reason = reason;
  input_hash = fingerprint;
  children = [];
  participation = p.max_participation;
}
schedule_of p parent fingerprint (ok children) = record {
  parent_id = parent.order_intent_id;
  mode = p.mode;
  is_planned = not (length children == 0);
  reason = schedule_ready;
  input_hash = fingerprint;
  children = children;
  participation = p.max_participation;
}

-- `plan_schedule`; none when it raises SCHEDULE_INPUT_INVALID.
unfoldable pub plan_schedule :
    ℕ
    → SchedulingPolicy
    → InstrumentOrderRule
    → Parent
    → Market
    → Request
    → Option ExecutionSchedule
unfolding is_request plan_children
plan_schedule fingerprint p rule parent m r =
    if is_request r
    then some (schedule_of p parent fingerprint (plan_children p rule parent m r))
    else none
