-- ===== src/Governor/Decide.antt =====
-- `RiskGovernor` of asset_management/decisions/governor.py: `decide`, `_build`, `authorize` and
-- `evaluate`. `hash_policy`, `digest` and `sorted` stand for the SHA-256 of the JSON texts and for
-- the built-in sort of the evidence ids.
use toss_trading_core.Prelude.{
  Bool, List, Option, Result, [], err, false, if◌then◌else◌, map, min, none, not, ok, some, true, ℕ,
  ◌&&◌, ◌++◌, ◌==◌, ◌>>=◌, ◌||◌, ◌∷◌,
}
use toss_trading_core.Governor.{
  DecisionState, GovernorError, ReasonCode, RiskInputs, abstain, abstentions, allow, block, defer,
  event_risk_high, execution_deferred, hard_blocks, no_multiplier, policy_mismatch, reason_index,
  reduce, soft_reductions, state_index,
}
use toss_trading_core.Governor.Policy.{RiskGovernorPolicy}
use toss_trading_core.Prelude.Dict.{Dict, get}

-- The reasons whose condition holds, in the order of the table.
unfoldable pub active : List (Bool × ReasonCode) → List ReasonCode
active [] = []
active ((b, r) ∷ rs) = let rest = active rs in if b then r ∷ rest else rest

abbrev pub has_reason : ReasonCode → List ReasonCode → Bool
has_reason r [] = false
has_reason r (x ∷ xs) = reason_index x == reason_index r || has_reason r xs

abbrev pub hard_reasons : ℕ → RiskInputs → List ReasonCode → List ReasonCode
hard_reasons version i hard =
    if not (i.policy_version == version) && not (has_reason policy_mismatch hard)
    then hard ++ policy_mismatch ∷ []
    else hard

-- min(self.policy.reduction_multipliers[reason] for reason in soft); no multiplier is a `KeyError`.
unfoldable pub least_multiplier : Dict ℕ → List ReasonCode → Result GovernorError ℕ
unfolding get
least_multiplier d [] = err no_multiplier
least_multiplier d (r ∷ []) = elim (get (reason_index r) d) [
  | none ↦ err no_multiplier
  | some m ↦ ok m
]
least_multiplier d (r ∷ r' ∷ rs) =
    let rest = least_multiplier d (r' ∷ rs) in
    elim (get (reason_index r) d) [ none ↦ err no_multiplier | some m ↦ rest >>= λ n. ok (min m n) ]

-- What `decide` passes to `_build`.
pub record Verdict : Type 0 where
  pub state : DecisionState
  pub multiplier : ℕ
  pub reasons : List ReasonCode

abbrev pub verdict_soft : ℕ → Dict ℕ → List ReasonCode → Result GovernorError Verdict
verdict_soft one d [] = ok (record { state = allow; multiplier = one; reasons = [] })
verdict_soft one d (r ∷ rs) = least_multiplier d (r ∷ rs) >>= λ m.
    ok (record { state = reduce; multiplier = m; reasons = r ∷ rs })

abbrev pub verdict_defer : ℕ → Dict ℕ → RiskInputs → Result GovernorError Verdict
verdict_defer one d i =
    if i.is_defer_execution
    then ok (record {
      state = defer;
      multiplier = 0;
      reasons = execution_deferred ∷ (if i.is_event_risk_high then event_risk_high ∷ [] else []);
    })
    else verdict_soft one d (active (soft_reductions i))

abbrev pub verdict_abstain :
    ℕ → Dict ℕ → RiskInputs → List ReasonCode → Result GovernorError Verdict
verdict_abstain one d i [] = verdict_defer one d i
verdict_abstain one d i (r ∷ rs) = ok (record { state = abstain; multiplier = 0; reasons = r ∷ rs })

abbrev pub verdict_hard : ℕ → Dict ℕ → RiskInputs → List ReasonCode → Result GovernorError Verdict
verdict_hard one d i [] = verdict_abstain one d i (active (abstentions i))
verdict_hard one d i (r ∷ rs) = ok (record { state = block; multiplier = 0; reasons = r ∷ rs })

-- The branches of `decide`, in their order.
unfoldable pub verdict : ℕ → RiskGovernorPolicy → RiskInputs → Result GovernorError Verdict
unfolding active least_multiplier
verdict one p i =
    verdict_hard one p.reduction_multipliers i
      (hard_reasons p.policy_version i (active (hard_blocks i)))

-- `RiskDecision`; its id is the content hash with a prefix, so that it is left out.
pub record RiskDecision : Type 0 where
  pub state : DecisionState
  pub exposure_multiplier : ℕ
  pub reason_codes : List ReasonCode
  pub runtime_run_id : ℕ
  pub portfolio_target_id : ℕ
  pub portfolio_target_hash : ℕ
  pub policy_version : ℕ
  pub as_of_utc : ℕ
  pub evidence_ids : List ℕ
  pub content_hash : ℕ

abbrev pub approves : DecisionState → Bool
approves allow = true
approves reduce = true
approves block = false
approves abstain = false
approves defer = false

-- `RiskDecision.approved`
unfoldable pub approved : RiskDecision → Bool
approved d = approves d.state

abbrev pub list_eq : List ℕ → List ℕ → Bool
list_eq [] [] = true
list_eq [] (y ∷ ys) = false
list_eq (x ∷ xs) [] = false
list_eq (x ∷ xs) (y ∷ ys) = x == y && list_eq xs ys

-- `==` of two decisions.
unfoldable pub decision_eq : RiskDecision → RiskDecision → Bool
decision_eq d e =
    state_index d.state == state_index e.state
    && d.exposure_multiplier == e.exposure_multiplier
    && list_eq (map reason_index d.reason_codes) (map reason_index e.reason_codes)
    && d.runtime_run_id == e.runtime_run_id
    && d.portfolio_target_id == e.portfolio_target_id
    && d.portfolio_target_hash == e.portfolio_target_hash
    && d.policy_version == e.policy_version
    && d.as_of_utc == e.as_of_utc
    && list_eq d.evidence_ids e.evidence_ids
    && d.content_hash == e.content_hash

-- `RiskGovernor`: its policy, and the decisions issued with their policy's hash.
pub record RiskGovernor : Type 0 where
  pub policy : Option RiskGovernorPolicy
  pub issued : Dict (RiskDecision × ℕ)

abbrev pub same_issue : Option (RiskDecision × ℕ) → RiskDecision × ℕ → Bool
same_issue none new = true
same_issue (some (d, h)) (d', h') = decision_eq d d' && h == h'
