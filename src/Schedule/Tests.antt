-- ===== src/Schedule/Tests.antt =====
-- Plans of a small order, and the theorem at one of them.
use toss_trading_core.Prelude.{List, [], err, refl, some, true, ℕ, ◌*◌, ◌∷◌, ◌≡◌}
use toss_trading_core.Schedule.{
  ChildOrder, ExecutionSchedule, InstrumentOrderRule, Market, Parent, Request, SchedulingPolicy,
  buy_side, capacity_insufficient, is_policy, is_rule, schedule_ready, twap_lite,
}
use toss_trading_core.Schedule.Bounds.{Kept, plan_schedule-Kept}
use toss_trading_core.Schedule.Plan.{plan_children, plan_schedule}

abbrev twap : SchedulingPolicy
twap = record {
  version = 1;
  mode = twap_lite;
  max_participation = 100000;
  max_order_adv = 500000;
  max_impact_bps = 50;
  max_volatility = 9;
  child_count = 3;
  event_buffer = 10;
}

abbrev rule : InstrumentOrderRule
rule = record { lot_size = 10; price_tick = 5; minimum_quantity = 10; minimum_notional = 0 }

-- Buying 70, at most at 103.
abbrev parent : Parent
parent = record {
  order_intent_id = 1;
  instrument_id = 2;
  side = buy_side;
  quantity = 70;
  limit_price = 103;
}

abbrev market : Market
market = record {
  instrument_id = 2;
  side = buy_side;
  bid = 100;
  ask = 102;
  regular_open_at = some 1000;
  regular_close_at = some 5000;
  session_matches = true;
  fresh_allows = true;
  executable_price_reference = 104;
}

abbrev request : List ℕ → Request
request volumes = record {
  limit_supported = true;
  capability_evidence_id = 3;
  evaluated_at = 1100;
  transition_start = 0;
  valid_until = 4000;
  forecast_valid_until = 6000;
  urgency = 200000;
  adv_quantity = 1000;
  volatility = 1;
  expected_impact_bps = 2;
  window_volumes = volumes;
  event_times = 4500 ∷ [];
}

abbrev child : ℕ → ℕ → ℕ → ℕ → ChildOrder
child n q from to = record {
  sequence = n;
  quantity = q;
  limit_price = 100;
  not_before = from;
  expires_at = to;
  volume_cap = 400 * 1800000;
}

abbrev three : ExecutionSchedule
three = record {
  parent_id = 1;
  mode = twap_lite;
  is_planned = true;
  reason = schedule_ready;
  input_hash = 8;
  children = child 1 30 1100 1970 ∷ child 2 20 1970 2840 ∷ child 3 20 2840 3710 ∷ [];
  participation = 100000;
}

three-planned :
    plan_schedule 8 twap rule parent market (request (400 ∷ 400 ∷ 400 ∷ [])) ≡ some three
unfolding plan_schedule
three-planned = refl

-- With less volume forecast in the first window, the share is beyond the participation.
thin_window :
    plan_children twap rule parent market (request (200 ∷ 400 ∷ 400 ∷ []))
    ≡ err capacity_insufficient
unfolding plan_children
thin_window = refl

twap-is_policy : is_policy twap ≡ true
unfolding is_policy
twap-is_policy = refl

rule-is_rule : is_rule rule ≡ true
unfolding is_rule
rule-is_rule = refl

plan_schedule-Kept_example : Kept twap rule parent (request (400 ∷ 400 ∷ 400 ∷ [])) three.children
plan_schedule-Kept_example =
    plan_schedule-Kept 8 twap rule parent market (request (400 ∷ 400 ∷ 400 ∷ [])) three
      twap-is_policy rule-is_rule three-planned refl
