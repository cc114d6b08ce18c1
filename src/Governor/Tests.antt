-- ===== src/Governor/Tests.antt =====
-- Runs of the risk governor, and each theorem at an input that meets its hypotheses. The hashes
-- here are small sums.
use toss_trading_core.Prelude.{Bool, [], err, false, none, ok, refl, some, true, ℕ, ◌+◌, ◌∷◌, ◌≡◌}
use toss_trading_core.Governor.{
  RiskInputs, block, check_inputs, data_not_known, kill_switch_active, limit_breach, not_issued,
  reduce, spread_high, volatility_high,
}
use toss_trading_core.Governor.Authority.{IsAmong, Rests, authorize-decide_all, decide_all}
use toss_trading_core.Governor.Calls.{
  ApprovedRiskDecision, Library, all_known, authorize, authorize_issued, build, decide, decide_by,
  decide_under, evaluate, issue, known, stale,
}
use toss_trading_core.Governor.Decide.{
  RiskDecision, RiskGovernor, active, approved, decision_eq, least_multiplier, verdict,
}
use toss_trading_core.Governor.Policy.{RiskGovernorPolicy, check_policy, covered, covers, in_range}
use toss_trading_core.Governor.Target.{
  bind_target, bound_weights, check_weights, nonnegative, scale_weights, sum_others, sum_weights,
}
use toss_trading_core.Prelude.Dict.{Dict, get, put}
use toss_trading_core.Prelude.Int.{pos, ◌-ℤ◌}

abbrev policy : RiskGovernorPolicy
policy = record {
  policy_version = 3;
  reduction_multipliers =
      (14, 50)
      ∷ (15, 60)
      ∷ (16, 40)
      ∷ (17, 70)
      ∷ (18, 75)
      ∷ (19, 80)
      ∷ (20, 85)
      ∷ (21, 90)
      ∷ (22, 95)
      ∷ [];
  cash_instrument_id = 9;
}

abbrev inputs : Bool → Bool → Bool → RiskInputs
inputs killed volatile spread = record {
  runtime_run_id = 1;
  portfolio_target_id = 2;
  portfolio_target_hash = 52;
  policy_version = 3;
  as_of_utc = 5;
  evidence_ids = 6 ∷ 7 ∷ [];
  is_reconciliation_failed = false;
  is_order_state_unknown = false;
  is_initial_cash_unconfirmed = false;
  is_same_run_account_snapshot_missing = false;
  is_clock_risk = false;
  is_execution_price_stale = false;
  is_data_conflict = false;
  is_risk_model_failed = false;
  is_optimizer_infeasible = false;
  is_policy_mismatch = false;
  is_duplicate_order_intent = false;
  is_kill_switch_active = killed;
  is_runtime_mode_unauthorized = false;
  is_event_risk_blocked = false;
  is_volatility_high = volatile;
  is_low_confidence = false;
  is_event_risk_high = false;
  is_sector_concentrated = false;
  is_factor_concentrated = false;
  is_spread_high = spread;
  is_turnover_high = false;
  is_regime_uncertain = false;
  regime_uncertainty_evidence_id = none;
  is_risk_estimate_uncertain = false;
  is_evidence_insufficient = false;
  is_data_stale = false;
  is_insufficient_cash = false;
  is_cost_exceeds_benefit = false;
  is_defer_execution = false;
}

abbrev any_digest : ℕ → Bool
any_digest n = true

abbrev small : Library
small = record {
  hash_policy = λ p. p.policy_version + p.cash_instrument_id;
  digest = λ i h v. i.portfolio_target_hash + h + v.multiplier;
  sorted = λ xs. xs;
}

policy_checked : check_policy 100 policy ≡ ok tt
unfolding check_policy covers covered in_range get
policy_checked = refl

inputs_checked : check_inputs any_digest false (inputs false true true) ≡ ok tt
unfolding check_inputs
inputs_checked = refl

-- The least of the two multipliers is taken.
reduced :
    verdict 100 policy (inputs false true true)
    ≡ ok (record { state = reduce; multiplier = 50; reasons = volatility_high ∷ spread_high ∷ [] })
unfolding verdict active least_multiplier get
reduced = refl

killed :
    verdict 100 policy (inputs true true true)
    ≡ ok (record { state = block; multiplier = 0; reasons = kill_switch_active ∷ [] })
unfolding verdict active least_multiplier get
killed = refl

abbrev decision : RiskDecision
decision = record {
  state = reduce;
  exposure_multiplier = 50;
  reason_codes = volatility_high ∷ spread_high ∷ [];
  runtime_run_id = 1;
  portfolio_target_id = 2;
  portfolio_target_hash = 52;
  policy_version = 3;
  as_of_utc = 5;
  evidence_ids = 6 ∷ 7 ∷ [];
  content_hash = 114;
}

abbrev approval : ApprovedRiskDecision
approval = record { decision = decision; approved_target_hash = none; cash_instrument_id = 9 }

abbrev fresh_governor : RiskGovernor
fresh_governor = record { policy = some policy; issued = [] }

authorized :
    authorize small any_digest decision
      (decide_all small 100 (inputs true true true ∷ inputs false true true ∷ []) fresh_governor)
    ≡ ok approval
unfolding authorize authorize_issued issue approved decision_eq decide_all decide decide_under
    decide_by build verdict active least_multiplier get put
authorized = refl

-- Nothing that was not issued is authorized.
forged : authorize small any_digest decision fresh_governor ≡ err not_issued
unfolding authorize get
forged = refl

authorize-decide_all_example :
    (approval.decision ≡ decision)
    × Rests small 100
        (some policy)
        (IsAmong (inputs true true true ∷ inputs false true true ∷ []))
        decision
authorize-decide_all_example =
    authorize-decide_all small 100 any_digest (inputs true true true ∷ inputs false true true ∷ [])
      (some policy) decision approval authorized

abbrev small_hash : ℕ → Dict ℕ → ℕ
small_hash scale [] = 0
small_hash scale ((k, n) ∷ d) = k + n

-- Half of the instrument's 60 goes to the cash.
halved :
    bind_target small_hash any_digest 100
      (record {
        decision = record decision { portfolio_target_hash = 62 };
        approved_target_hash = none;
        cash_instrument_id = 9;
      })
      ((2, pos 60) ∷ (9, pos 40) ∷ [])
      9
    ≡ ok (
      record {
        decision = record decision { portfolio_target_hash = 62 };
        approved_target_hash = some 3002;
        cash_instrument_id = 9;
      },
      (2, 3000) ∷ (9, 7000) ∷ [],
    )
unfolding bind_target check_weights nonnegative sum_weights bound_weights scale_weights sum_others
    issue approved get put ◌-ℤ◌
halved = refl

evaluated : evaluate (known ∷ stale ∷ []) true true ≡ (block, data_not_known ∷ limit_breach ∷ [])
unfolding evaluate active all_known
evaluated = refl
