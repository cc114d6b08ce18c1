-- ===== src/Governor/Clear.antt =====
-- What the inputs of a decision that may authorize an order have in common.
use toss_trading_core.Prelude.{
  ==_eq, All, Bool, Bool-cases, List, Result, [], arith, err, false, inl, inr, not, ok, ok_inj,
  refl, subst, sym, true, ℕ, ◌&&◌, ◌++◌, ◌==◌, ◌∷◌, ◌≡◌, ◌≢◌,
}
use toss_trading_core.Governor.{
  GovernorError, ReasonCode, RiskInputs, abstentions, hard_blocks, policy_mismatch, reduce,
  soft_reductions,
}
use toss_trading_core.Governor.Decide.{
  Verdict, active, approves, hard_reasons, has_reason, least_multiplier, verdict, verdict_abstain,
  verdict_defer, verdict_hard, verdict_soft,
}
use toss_trading_core.Governor.Least.{Below, LeastOf, Reached, least_multiplier-LeastOf}
use toss_trading_core.Governor.Policy.{RiskGovernorPolicy}
use toss_trading_core.Prelude.Dict.{Dict}

abbrev pub Weighed : ℕ → Dict ℕ → List ReasonCode → ℕ → Type 0
Weighed one d [] m = m ≡ one
Weighed one d (r ∷ rs) m = Below d m (r ∷ rs) × Reached d m (r ∷ rs)

abbrev pub NoneHold : List Bool → Type 0
NoneHold conditions = All (λ b. b ≡ false) conditions

-- The conditions under which nothing may be traded.
abbrev pub hard_conditions : RiskInputs → List Bool
hard_conditions i =
    i.is_reconciliation_failed ∷ i.is_order_state_unknown ∷ i.is_initial_cash_unconfirmed
    ∷ i.is_same_run_account_snapshot_missing ∷ i.is_clock_risk ∷ i.is_execution_price_stale
    ∷ i.is_data_conflict ∷ i.is_risk_model_failed ∷ i.is_optimizer_infeasible ∷ i.is_policy_mismatch
    ∷ i.is_duplicate_order_intent ∷ i.is_kill_switch_active ∷ i.is_runtime_mode_unauthorized
    ∷ i.is_event_risk_blocked ∷ []

-- The grounds to abstain, and the one to wait.
abbrev pub waiting_conditions : RiskInputs → List Bool
waiting_conditions i =
    i.is_evidence_insufficient ∷ i.is_data_stale ∷ i.is_insufficient_cash
    ∷ i.is_cost_exceeds_benefit ∷ i.is_defer_execution ∷ []

-- No hard condition, no ground to abstain or to wait, the policy's own version, and the least
-- multiplier of the soft conditions that hold (the full one if none does).
pub record Clear (one : ℕ) (p : RiskGovernorPolicy) (i : RiskInputs) (v : Verdict) : Type 0 where
  pub no_hard : NoneHold (hard_conditions i)
  pub same_version : i.policy_version ≡ p.policy_version
  pub no_wait : NoneHold (waiting_conditions i)
  pub weighed : Weighed one p.reduction_multipliers (active (soft_reductions i)) v.multiplier

-- Without a reason no condition of the table holds.
active-NoneHold : (rows : List (Bool × ReasonCode)) → active rows ≡ [] → All (λ r. r.0 ≡ false) rows
unfolding active
active-NoneHold [] h = tt
active-NoneHold ((true, r) ∷ rows) h = cc h
active-NoneHold ((false, r) ∷ rows) h = (refl, active-NoneHold rows h)

soft-Weighed :
    (one : ℕ) (d : Dict ℕ) (rs : List ReasonCode) (v : Verdict)
    → verdict_soft one d rs ≡ ok v
    → Weighed one d rs v.multiplier
soft-Weighed one d [] v h = ground arith
soft-Weighed one d (r ∷ rs) v h =
    go (least_multiplier d (r ∷ rs)) refl (least_multiplier-LeastOf d r rs)
  where
    go :
        (x : Result GovernorError ℕ)
        → least_multiplier d (r ∷ rs) ≡ x
        → LeastOf d (r ∷ rs) x
        → Weighed one d (r ∷ rs) v.multiplier
    go (err e) k l =
        let a : ◌≡◌ {A = Result GovernorError Verdict} (err e) (ok v) = rw k at h in cc a
    go (ok m) k l =
        let a : ◌≡◌ {A = Result GovernorError Verdict}
            (ok (record { state = reduce; multiplier = m; reasons = r ∷ rs })) (ok v) =
          rw k at h in
        subst (λ w. Weighed one d (r ∷ rs) w.multiplier) (ok_inj a) l

not_both :
    (w v : Verdict)
    → ◌≡◌ {A = Result GovernorError Verdict} (ok w) (ok v)
    → approves v.state ≡ true
    → approves w.state ≢ false
not_both w v h a b =
    let e : approves w.state ≡ true = subst (λ x. approves x.state ≡ true) (sym (ok_inj h)) a in
    cc (e, b)

defer-Weighed :
    (one : ℕ) (d : Dict ℕ) (i : RiskInputs) (v : Verdict)
    → verdict_defer one d i ≡ ok v
    → approves v.state ≡ true
    → (i.is_defer_execution ≡ false) × Weighed one d (active (soft_reductions i)) v.multiplier
defer-Weighed one d i v h a = elim (Bool-cases i.is_defer_execution) [
  | inl y ↦ absurd (not_both _ v (rw y at h) a refl)
  | inr n ↦ (n, soft-Weighed one d (active (soft_reductions i)) v (rw n at h))
]

abstain-Weighed :
    (one : ℕ) (d : Dict ℕ) (i : RiskInputs) (rs : List ReasonCode) (v : Verdict)
    → verdict_abstain one d i rs ≡ ok v
    → approves v.state ≡ true
    → (rs ≡ [])
      × (i.is_defer_execution ≡ false)
      × Weighed one d (active (soft_reductions i)) v.multiplier
abstain-Weighed one d i [] v h a = let (n, w) = defer-Weighed one d i v h a in (refl, n, w)
abstain-Weighed one d i (r ∷ rs) v h a = absurd (not_both _ v h a refl)

hard-Weighed :
    (one : ℕ) (d : Dict ℕ) (i : RiskInputs) (rs : List ReasonCode) (v : Verdict)
    → verdict_hard one d i rs ≡ ok v
    → approves v.state ≡ true
    → (rs ≡ [])
      × (active (abstentions i) ≡ [])
      × (i.is_defer_execution ≡ false)
      × Weighed one d (active (soft_reductions i)) v.multiplier
hard-Weighed one d i [] v h a =
    let (e, n, w) = abstain-Weighed one d i (active (abstentions i)) v h a in (refl, e, n, w)
hard-Weighed one d i (r ∷ rs) v h a = absurd (not_both _ v h a refl)

hard_reasons-empty :
    (version : ℕ) (i : RiskInputs) (hard : List ReasonCode)
    → hard_reasons version i hard ≡ []
    → (hard ≡ []) × (i.policy_version ≡ version)
hard_reasons-empty version i [] h = elim (Bool-cases (i.policy_version == version)) [
  | inl y ↦ (refl, ==_eq i.policy_version version y)
  | inr n ↦ let k : policy_mismatch ∷ [] ≡ [] = rw n at h in cc k
]
hard_reasons-empty version i (r ∷ rs) h =
    elim (Bool-cases
      (not (i.policy_version == version) && not (has_reason policy_mismatch (r ∷ rs)))) [
        | inl y ↦ let k : r ∷ (rs ++ policy_mismatch ∷ []) ≡ [] = rw y at h in cc k
        | inr n ↦ let k : r ∷ rs ≡ [] = rw n at h in cc k
      ]

-- A verdict ALLOW or REDUCE is given only for clear inputs.
pub verdict-Clear :
    (one : ℕ) (p : RiskGovernorPolicy) (i : RiskInputs) (v : Verdict)
    → verdict one p i ≡ ok v
    → approves v.state ≡ true
    → Clear one p i v
unfolding verdict
verdict-Clear one p i v h a =
    let (hard, abstention, waits, w) =
      hard-Weighed one p.reduction_multipliers i
        (hard_reasons p.policy_version i (active (hard_blocks i))) v h a in
    let (e, version) = hard_reasons-empty p.policy_version i (active (hard_blocks i)) hard in
    let (w1, (w2, (w3, (w4, _)))) = active-NoneHold (abstentions i) abstention in
    record {
      no_hard = active-NoneHold (hard_blocks i) e;
      same_version = version;
      no_wait = (w1, (w2, (w3, (w4, (waits, tt)))));
      weighed = w;
    }
