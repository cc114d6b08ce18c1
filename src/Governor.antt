-- ===== src/Governor.antt =====
-- The data of asset_management/decisions/governor.py: decision states, reason codes, the risk inputs
-- with their checks, and the policy. Ids, hashes and other texts are numbers, 0 for a blank one;
-- multipliers are counted in units of which `one` make 1.
pub mod Policy
pub mod Decide
pub mod Calls
pub mod Least
pub mod Clear
pub mod Authority
pub mod Target
mod Tests
use toss_trading_core.Prelude.{
  Bool, List, Option, Result, [], false, none, not, require, some, true, ℕ, ◌&&◌, ◌==◌, ◌>>=◌, ◌>>◌,
  ◌||◌, ◌∷◌,
}

-- `DecisionState`
pub data DecisionState : Type 0 where
  allow reduce block abstain defer : DecisionState

abbrev pub state_index : DecisionState → ℕ
state_index allow = 0
state_index reduce = 1
state_index block = 2
state_index abstain = 3
state_index defer = 4

-- `ReasonCode` of asset_management/decisions/reason_codes.py.
pub data ReasonCode : Type 0 where
  passed reconciliation_failed order_state_unknown initial_cash_unconfirmed : ReasonCode
  same_run_account_snapshot_missing clock_risk execution_price_stale data_conflict : ReasonCode
  risk_model_failed optimizer_infeasible policy_mismatch duplicate_order_intent : ReasonCode
  kill_switch_active runtime_mode_unauthorized volatility_high model_uncertain : ReasonCode
  event_risk_high sector_limit factor_limit spread_high turnover_high : ReasonCode
  regime_uncertain risk_estimate_uncertain evidence_insufficient data_stale : ReasonCode
  insufficient_cash cost_exceeds_benefit execution_deferred policy_missing : ReasonCode
  data_not_known reconciliation_required limit_breach mode_not_promoted : ReasonCode

-- The place of a code in the enumeration; codes are compared by it, and it is their key in a dict.
abbrev pub reason_index : ReasonCode → ℕ
reason_index passed = 0
reason_index reconciliation_failed = 1
reason_index order_state_unknown = 2
reason_index initial_cash_unconfirmed = 3
reason_index same_run_account_snapshot_missing = 4
reason_index clock_risk = 5
reason_index execution_price_stale = 6
reason_index data_conflict = 7
reason_index risk_model_failed = 8
reason_index optimizer_infeasible = 9
reason_index policy_mismatch = 10
reason_index duplicate_order_intent = 11
reason_index kill_switch_active = 12
reason_index runtime_mode_unauthorized = 13
reason_index volatility_high = 14
reason_index model_uncertain = 15
reason_index event_risk_high = 16
reason_index sector_limit = 17
reason_index factor_limit = 18
reason_index spread_high = 19
reason_index turnover_high = 20
reason_index regime_uncertain = 21
reason_index risk_estimate_uncertain = 22
reason_index evidence_insufficient = 23
reason_index data_stale = 24
reason_index insufficient_cash = 25
reason_index cost_exceeds_benefit = 26
reason_index execution_deferred = 27
reason_index policy_missing = 28
reason_index data_not_known = 29
reason_index reconciliation_required = 30
reason_index limit_breach = 31
reason_index mode_not_promoted = 32

pub data GovernorError : Type 0 where
  identity_incomplete evidence_missing evidence_repeated regime_evidence_required : GovernorError
  regime_adapter_required regime_evidence_invalid version_blank multipliers_incomplete :
      GovernorError
  multiplier_out_of_range cash_instrument_missing policy_required no_multiplier : GovernorError
  hash_collision not_issued policy_not_current no_trade not_approved : GovernorError
  cash_instrument_differs weights_missing weight_unnamed weights_not_one : GovernorError
  target_hash_differs cash_not_in_target issuer_required : GovernorError

-- `RiskInputs`; each flag carries its field's name with `_is`, since codes share the names.
pub record RiskInputs : Type 0 where
  pub runtime_run_id : ℕ
  pub portfolio_target_id : ℕ
  pub portfolio_target_hash : ℕ
  pub policy_version : ℕ
  pub as_of_utc : ℕ
  pub evidence_ids : List ℕ
  pub is_reconciliation_failed : Bool
  pub is_order_state_unknown : Bool
  pub is_initial_cash_unconfirmed : Bool
  pub is_same_run_account_snapshot_missing : Bool
  pub is_clock_risk : Bool
  pub is_execution_price_stale : Bool
  pub is_data_conflict : Bool
  pub is_risk_model_failed : Bool
  pub is_optimizer_infeasible : Bool
  pub is_policy_mismatch : Bool
  pub is_duplicate_order_intent : Bool
  pub is_kill_switch_active : Bool
  pub is_runtime_mode_unauthorized : Bool
  pub is_event_risk_blocked : Bool
  pub is_volatility_high : Bool
  pub is_low_confidence : Bool
  pub is_event_risk_high : Bool
  pub is_sector_concentrated : Bool
  pub is_factor_concentrated : Bool
  pub is_spread_high : Bool
  pub is_turnover_high : Bool
  pub is_regime_uncertain : Bool
  pub regime_uncertainty_evidence_id : Option ℕ
  pub is_risk_estimate_uncertain : Bool
  pub is_evidence_insufficient : Bool
  pub is_data_stale : Bool
  pub is_insufficient_cash : Bool
  pub is_cost_exceeds_benefit : Bool
  pub is_defer_execution : Bool

abbrev pub any_blank : List ℕ → Bool
any_blank [] = false
any_blank (x ∷ xs) = x == 0 || any_blank xs

abbrev pub member : ℕ → List ℕ → Bool
member a [] = false
member a (x ∷ xs) = x == a || member a xs

abbrev pub repeats : List ℕ → Bool
repeats [] = false
repeats (x ∷ xs) = member x xs || repeats xs

abbrev pub is_empty : List ℕ → Bool
is_empty [] = true
is_empty (x ∷ xs) = false

-- Whether the regime evidence may be used: `is_digest` is the test for 64 hexadecimal digits, and
-- `issued` says that the adapter made the inputs.
abbrev pub check_regime :
    (ℕ → Bool) → Bool → Bool → List ℕ → Option ℕ → Result GovernorError (Unit {0})
check_regime is_digest issued uncertain evidence none =
    require (not uncertain) regime_evidence_required
check_regime is_digest issued uncertain evidence (some e) = do
  require issued regime_adapter_required
  require (is_digest e && member e evidence) regime_evidence_invalid

-- `RiskInputs.__post_init__`, whose type tests have no counterpart here.
unfoldable pub check_inputs : (ℕ → Bool) → Bool → RiskInputs → Result GovernorError (Unit {0})
check_inputs is_digest issued i = do
  require
      (not (
        any_blank (
          i.runtime_run_id ∷ i.portfolio_target_id ∷ i.portfolio_target_hash ∷ i.policy_version
          ∷ i.as_of_utc ∷ [])))
      identity_incomplete
  require (not (is_empty i.evidence_ids || any_blank i.evidence_ids)) evidence_missing
  require (not (repeats i.evidence_ids)) evidence_repeated
  check_regime is_digest issued i.is_regime_uncertain i.evidence_ids
      i.regime_uncertainty_evidence_id

-- `HARD_BLOCKS`, with the value of each field.
abbrev pub hard_blocks : RiskInputs → List (Bool × ReasonCode)
hard_blocks i =
    (i.is_reconciliation_failed, reconciliation_failed)
    ∷ (i.is_order_state_unknown, order_state_unknown)
    ∷ (i.is_initial_cash_unconfirmed, initial_cash_unconfirmed)
    ∷ (i.is_same_run_account_snapshot_missing, same_run_account_snapshot_missing)
    ∷ (i.is_clock_risk, clock_risk)
    ∷ (i.is_execution_price_stale, execution_price_stale)
    ∷ (i.is_data_conflict, data_conflict)
    ∷ (i.is_risk_model_failed, risk_model_failed)
    ∷ (i.is_optimizer_infeasible, optimizer_infeasible)
    ∷ (i.is_policy_mismatch, policy_mismatch)
    ∷ (i.is_duplicate_order_intent, duplicate_order_intent)
    ∷ (i.is_kill_switch_active, kill_switch_active)
    ∷ (i.is_runtime_mode_unauthorized, runtime_mode_unauthorized)
    ∷ (i.is_event_risk_blocked, event_risk_high)
    ∷ []

-- The conditions under which the governor abstains.
abbrev pub abstentions : RiskInputs → List (Bool × ReasonCode)
abstentions i =
    (i.is_evidence_insufficient, evidence_insufficient)
    ∷ (i.is_data_stale, data_stale)
    ∷ (i.is_insufficient_cash, insufficient_cash)
    ∷ (i.is_cost_exceeds_benefit, cost_exceeds_benefit)
    ∷ []

-- `SOFT_REDUCTIONS`, with the value of each field.
abbrev pub soft_reductions : RiskInputs → List (Bool × ReasonCode)
soft_reductions i =
    (i.is_volatility_high, volatility_high)
    ∷ (i.is_low_confidence, model_uncertain)
    ∷ (i.is_event_risk_high, event_risk_high)
    ∷ (i.is_sector_concentrated, sector_limit)
    ∷ (i.is_factor_concentrated, factor_limit)
    ∷ (i.is_spread_high, spread_high)
    ∷ (i.is_turnover_high, turnover_high)
    ∷ (i.is_regime_uncertain, regime_uncertain)
    ∷ (i.is_risk_estimate_uncertain, risk_estimate_uncertain)
    ∷ []
