-- ===== src/Schedule.antt =====
-- `plan_schedule` of asset_management/execution/scheduling.py: how a parent order is split into
-- child orders. Times are microseconds, quantities and prices are in smallest units, and a ratio is
-- counted in millionths; volumes times ratios are kept as products, so nothing is rounded that the
-- code does not round.
pub mod Allocate
pub mod Plan
pub mod Shares
pub mod Planned
pub mod Bounds
mod Tests
use toss_trading_core.Prelude.{Bool, List, Option, leb, ltb, not, ℕ, ◌&&◌, ◌==◌}

pub data ScheduleMode : Type 0 where
  immediate passive_limit twap_lite pov_lite open_close_aware event_defer : ScheduleMode

pub data IntentSide : Type 0 where
  buy_side sell_side : IntentSide

pub data Reason : Type 0 where
  parent_market_conflict microstructure order_type_unsupported session_unavailable : Reason
  window_unavailable event_deferred order_adv_limit market_cost_limit : Reason
  window_volume_missing parent_lot_conflict capacity_insufficient : Reason
  child_price_invalid child_below_minimum child_window_invalid schedule_ready : Reason

abbrev pub one : ℕ
one = 1000000

pub record SchedulingPolicy : Type 0 where
  pub version : ℕ
  pub mode : ScheduleMode
  pub max_participation : ℕ
  pub max_order_adv : ℕ
  pub max_impact_bps : ℕ
  pub max_volatility : ℕ
  pub child_count : ℕ
  pub event_buffer : ℕ

-- `SchedulingPolicy.__post_init__`
unfoldable pub is_policy : SchedulingPolicy → Bool
is_policy p =
    not (p.version == 0)
    && ltb 0 p.max_participation
    && ltb 0 p.max_order_adv
    && ltb 0 p.max_impact_bps
    && ltb 0 p.max_volatility
    && leb p.max_participation one
    && leb p.max_order_adv one
    && leb 1 p.child_count
    && leb p.child_count 1000

-- `InstrumentOrderRule` of planner.py beside it, of which the fees are not read here.
pub record InstrumentOrderRule : Type 0 where
  pub lot_size : ℕ
  pub price_tick : ℕ
  pub minimum_quantity : ℕ
  pub minimum_notional : ℕ

unfoldable pub is_rule : InstrumentOrderRule → Bool
is_rule r = ltb 0 r.lot_size && ltb 0 r.price_tick

-- The parent, of `PlannedOrderIntent`.
pub record Parent : Type 0 where
  pub order_intent_id : ℕ
  pub instrument_id : ℕ
  pub side : IntentSide
  pub quantity : ℕ
  pub limit_price : ℕ

-- What the plan reads of the market: the quote on arrival, the regular session, whether the calendar
-- is in the quote's session, and the fresh assessment of the same evidence.
pub record Market : Type 0 where
  pub instrument_id : ℕ
  pub side : IntentSide
  pub bid : ℕ
  pub ask : ℕ
  pub regular_open_at : Option ℕ
  pub regular_close_at : Option ℕ
  pub session_matches : Bool
  pub fresh_allows : Bool
  pub executable_price_reference : ℕ

-- The other arguments of `plan_schedule`.
pub record Request : Type 0 where
  pub limit_supported : Bool
  pub capability_evidence_id : ℕ
  pub evaluated_at : ℕ
  pub transition_start : ℕ
  pub valid_until : ℕ
  pub forecast_valid_until : ℕ
  pub urgency : ℕ
  pub adv_quantity : ℕ
  pub volatility : ℕ
  pub expected_impact_bps : ℕ
  pub window_volumes : List ℕ
  pub event_times : List ℕ

-- `volume_cap` is counted in parts of 1 / (2 * one).
pub record ChildOrder : Type 0 where
  pub sequence : ℕ
  pub quantity : ℕ
  pub limit_price : ℕ
  pub not_before : ℕ
  pub expires_at : ℕ
  pub volume_cap : ℕ

pub record ExecutionSchedule : Type 0 where
  pub parent_id : ℕ
  pub mode : ScheduleMode
  pub is_planned : Bool
  pub reason : Reason
  pub input_hash : ℕ
  pub children : List ChildOrder
  pub participation : ℕ
