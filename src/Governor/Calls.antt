-- ===== src/Governor/Calls.antt =====
-- The calls of `RiskGovernor` that issue and authorize decisions, in
-- asset_management/decisions/governor.py.
use toss_trading_core.Prelude.{
  Bool, List, Option, Result, [], err, false, if◌then◌else◌, none, not, ok, require, some, true, ℕ,
  ◌&&◌, ◌==◌, ◌>>◌, ◌∷◌,
}
use toss_trading_core.Governor.{
  DecisionState, GovernorError, ReasonCode, RiskInputs, allow, block, cash_instrument_missing,
  data_not_known, hash_collision, limit_breach, no_trade, not_approved, not_issued, passed,
  policy_not_current, policy_required, reconciliation_required, target_hash_differs,
}
use toss_trading_core.Governor.Decide.{
  RiskDecision, RiskGovernor, Verdict, active, approved, decision_eq, same_issue, verdict,
}
use toss_trading_core.Governor.Policy.{RiskGovernorPolicy}
use toss_trading_core.Prelude.Dict.{get, put}

-- The parameters for code outside the repository: hashes of texts, and the built-in sort.
pub record Library : Type 0 where
  pub hash_policy : RiskGovernorPolicy → ℕ
  pub digest : RiskInputs → ℕ → Verdict → ℕ
  pub sorted : List ℕ → List ℕ

-- `RiskInputs.canonical`
abbrev pub canonical : Library → RiskInputs → RiskInputs
canonical l i = record i { evidence_ids = l.sorted i.evidence_ids }

abbrev pub decision_of : Library → RiskGovernorPolicy → RiskInputs → Verdict → RiskDecision
decision_of l p i v = record {
  state = v.state;
  exposure_multiplier = v.multiplier;
  reason_codes = v.reasons;
  runtime_run_id = i.runtime_run_id;
  portfolio_target_id = i.portfolio_target_id;
  portfolio_target_hash = i.portfolio_target_hash;
  policy_version = i.policy_version;
  as_of_utc = i.as_of_utc;
  evidence_ids = l.sorted i.evidence_ids;
  content_hash = l.digest (canonical l i) (l.hash_policy p) v;
}

-- `_build`
unfoldable pub build :
    Library
    → RiskGovernorPolicy
    → RiskInputs
    → Verdict
    → RiskGovernor
    → Result GovernorError RiskDecision × RiskGovernor
unfolding decision_eq
build l p i v g =
    let d = decision_of l p i v in
    let h = l.hash_policy p in
    if same_issue (get d.content_hash g.issued) (d, h)
    then (ok d, record g { issued = put d.content_hash (d, h) g.issued })
    else (err hash_collision, g)

-- `decide` under a policy.
unfoldable pub decide_by :
    Library
    → ℕ
    → RiskGovernorPolicy
    → RiskInputs
    → RiskGovernor
    → Result GovernorError RiskDecision × RiskGovernor
unfolding build verdict
decide_by l one p i g = elim (verdict one p i) [ err e ↦ (err e, g) | ok v ↦ build l p i v g ]

-- `decide` needs a policy.
unfoldable pub decide_under :
    Library
    → ℕ
    → Option RiskGovernorPolicy
    → RiskInputs
    → RiskGovernor
    → Result GovernorError RiskDecision × RiskGovernor
unfolding decide_by
decide_under l one none i g = (err policy_required, g)
decide_under l one (some p) i g = decide_by l one p i g

-- `decide`
unfoldable pub decide :
    Library → ℕ → RiskInputs → RiskGovernor → Result GovernorError RiskDecision × RiskGovernor
unfolding decide_under
decide l one i g = decide_under l one g.policy i g

-- `ApprovedRiskDecision`
pub record ApprovedRiskDecision : Type 0 where
  pub decision : RiskDecision
  pub approved_target_hash : Option ℕ
  pub cash_instrument_id : ℕ

-- `ApprovedRiskDecision._issue`, with the checks of its constructor. `is_digest` is the length test
-- of the hash.
unfoldable pub issue :
    (ℕ → Bool) → RiskDecision → Option ℕ → ℕ → Result GovernorError ApprovedRiskDecision
unfolding approved
issue is_digest d hash cash = do
  require (approved d) not_approved
  require (not (cash == 0)) cash_instrument_missing
  require (elim hash [ none ↦ true | some h ↦ is_digest h ]) target_hash_differs
  ok (record { decision = d; approved_target_hash = hash; cash_instrument_id = cash })

abbrev pub is_current : Library → RiskGovernorPolicy → RiskDecision → ℕ → Bool
is_current l p d h = d.policy_version == p.policy_version && h == l.hash_policy p

-- The part of `authorize` after the decision was found.
unfoldable pub authorize_issued :
    Library
    → (ℕ → Bool)
    → Option RiskGovernorPolicy
    → RiskDecision
    → ℕ
    → Result GovernorError ApprovedRiskDecision
unfolding issue
authorize_issued l is_digest none d h = err policy_not_current
authorize_issued l is_digest (some p) d h =
    if not (is_current l p d h)
    then err policy_not_current
    else if not (approved d)
    then err no_trade
    else issue is_digest d none p.cash_instrument_id

-- `authorize`
unfoldable pub authorize :
    Library → (ℕ → Bool) → RiskDecision → RiskGovernor → Result GovernorError ApprovedRiskDecision
unfolding authorize_issued decision_eq get
authorize l is_digest d g = elim (get d.content_hash g.issued) [
  | none ↦ err not_issued
  | some (e, h) ↦
      if not (decision_eq e d) then err not_issued else authorize_issued l is_digest g.policy d h
]

-- `DataStatus` of asset_management/domain/enums.py.
pub data DataStatus : Type 0 where
  known unknown missing stale conflict unreconciled : DataStatus

unfoldable pub all_known : List DataStatus → Bool
all_known [] = true
all_known (known ∷ ss) = all_known ss
all_known (_ ∷ ss) = false

-- `evaluate`: its action is ALLOW if there is no reason against it.
unfoldable pub evaluate : List DataStatus → Bool → Bool → DecisionState × List ReasonCode
unfolding all_known active
evaluate statuses reconciled limit_breached =
    elim (active (
      (not (all_known statuses), data_not_known)
      ∷ (not reconciled, reconciliation_required)
      ∷ (limit_breached, limit_breach)
      ∷ [])) [ [] ↦ (allow, passed ∷ []) | r ∷ rs ↦ (block, r ∷ rs) ]
