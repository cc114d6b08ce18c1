-- ===== src/Governor/Policy.antt =====
-- `RiskGovernorPolicy` of asset_management/decisions/governor.py and its checks.
use toss_trading_core.Prelude.{
  Bool, List, Result, [], is_some, ltb, map, not, require, true, ℕ, ◌&&◌, ◌==◌, ◌>>◌, ◌∷◌,
}
use toss_trading_core.Governor.{
  GovernorError, ReasonCode, cash_instrument_missing, event_risk_high, factor_limit, member,
  model_uncertain, multiplier_out_of_range, multipliers_incomplete, reason_index, regime_uncertain,
  risk_estimate_uncertain, sector_limit, spread_high, turnover_high, version_blank, volatility_high,
}
use toss_trading_core.Prelude.Dict.{Dict, get}

-- The multipliers are a dict from the reason codes' places.
pub record RiskGovernorPolicy : Type 0 where
  pub policy_version : ℕ
  pub reduction_multipliers : Dict ℕ
  pub cash_instrument_id : ℕ

-- The reasons of `SOFT_REDUCTIONS`.
abbrev pub expected_reasons : List ReasonCode
expected_reasons =
    volatility_high ∷ model_uncertain ∷ event_risk_high ∷ sector_limit ∷ factor_limit ∷ spread_high
    ∷ turnover_high ∷ regime_uncertain ∷ risk_estimate_uncertain ∷ []

-- Every expected reason is a key.
unfoldable pub covers : List ReasonCode → Dict ℕ → Bool
unfolding get
covers [] d = true
covers (r ∷ rs) d = is_some (get (reason_index r) d) && covers rs d

-- Every key is an expected reason.
unfoldable pub covered : Dict ℕ → Bool
covered [] = true
covered ((k, m) ∷ d) = member k (map reason_index expected_reasons) && covered d

-- Every multiplier lies strictly between zero and one.
unfoldable pub in_range : ℕ → Dict ℕ → Bool
in_range one [] = true
in_range one ((k, m) ∷ d) = ltb 0 m && ltb m one && in_range one d

-- `RiskGovernorPolicy.__post_init__`
unfoldable pub check_policy : ℕ → RiskGovernorPolicy → Result GovernorError (Unit {0})
unfolding covers covered in_range
check_policy one p = do
  require (not (p.policy_version == 0)) version_blank
  require (covers expected_reasons p.reduction_multipliers && covered p.reduction_multipliers)
      multipliers_incomplete
  require (in_range one p.reduction_multipliers) multiplier_out_of_range
  require (not (p.cash_instrument_id == 0)) cash_instrument_missing
