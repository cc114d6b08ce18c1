-- ===== src/Governor/Authority.antt =====
-- Only a decision that `decide` has issued for clear inputs authorizes an order.
use toss_trading_core.Prelude.{
  All, All-map, Bool, Bool-cases, List, Option, Option-cases, Result, [], arith, err, false,
  if◌then◌else◌, inl, inr, none, not, ok, refl, some, subst, sym, true, ℕ, ◌==◌, ◌∙◌, ◌∷◌, ◌≡◌, ◌⊎◌,
}
use toss_trading_core.Governor.{
  DecisionState, GovernorError, RiskInputs, no_trade, not_issued, policy_not_current, state_index,
}
use toss_trading_core.Governor.Calls.{
  ApprovedRiskDecision, Library, authorize, authorize_issued, build, decide, decide_by,
  decide_under, decision_of, is_current, issue,
}
use toss_trading_core.Governor.Clear.{Clear, verdict-Clear}
use toss_trading_core.Governor.Decide.{
  RiskDecision, RiskGovernor, Verdict, approved, approves, decision_eq, same_issue, verdict,
}
use toss_trading_core.Governor.Policy.{RiskGovernorPolicy}
use toss_trading_core.Prelude.Dict.{AllEntries, get, get-AllEntries, put-AllEntries}

-- An entry that `_build` has stored, under the governor's policy, for inputs in `P`.
abbrev pub Issued :
    Library → ℕ → Option RiskGovernorPolicy → (RiskInputs → Type 0) → ℕ → RiskDecision × ℕ → Type 0
Issued l one policy P k (d, h) =
    (p : RiskGovernorPolicy) × (i : RiskInputs) × (v : Verdict) × (policy ≡ some p)
    × P i
    × (verdict one p i ≡ ok v)
    × (d ≡ decision_of l p i v)
    × (h ≡ l.hash_policy p)

-- The governor keeps its policy, and has stored only such entries.
abbrev pub IsIssuing :
    Library → ℕ → Option RiskGovernorPolicy → (RiskInputs → Type 0) → RiskGovernor → Type 0
IsIssuing l one policy P g = (g.policy ≡ policy) × AllEntries (Issued l one policy P) g.issued

build-IsIssuing :
    (l : Library) (one : ℕ) (policy : Option RiskGovernorPolicy) (P : RiskInputs → Type 0)
    (p : RiskGovernorPolicy) (i : RiskInputs) (v : Verdict) (g : RiskGovernor)
    → policy ≡ some p
    → P i
    → verdict one p i ≡ ok v
    → IsIssuing l one policy P g
    → IsIssuing l one policy P (build l p i v g).1
unfolding build
build-IsIssuing l one policy P p i v g own given e (same, a) =
    let d = decision_of l p i v in
    elim (Bool-cases (same_issue (get d.content_hash g.issued) (d, l.hash_policy p))) [
      | inr n ↦ rw n (same, a)
      | inl y ↦ rw y (
        same,
        put-AllEntries (Issued l one policy P) d.content_hash (d, l.hash_policy p) g.issued a
            (p, i, v, own, given, e, refl, refl),
      )
    ]

decide_by-IsIssuing :
    (l : Library) (one : ℕ) (policy : Option RiskGovernorPolicy) (P : RiskInputs → Type 0)
    (p : RiskGovernorPolicy) (i : RiskInputs) (g : RiskGovernor)
    → policy ≡ some p
    → P i
    → IsIssuing l one policy P g
    → IsIssuing l one policy P (decide_by l one p i g).1
unfolding decide_by
decide_by-IsIssuing l one policy P p i g own given a = go (verdict one p i) refl
  where
    go :
        (x : Result GovernorError Verdict)
        → verdict one p i ≡ x
        → IsIssuing l one policy P (decide_by l one p i g).1
    go (err e) h = rw (h, decide_by) a
    go (ok v) h = rw (h, decide_by) (build-IsIssuing l one policy P p i v g own given h a)

decide_under-IsIssuing :
    (l : Library) (one : ℕ) (policy used : Option RiskGovernorPolicy) (P : RiskInputs → Type 0)
    (i : RiskInputs) (g : RiskGovernor)
    → policy ≡ used
    → P i
    → IsIssuing l one policy P g
    → IsIssuing l one policy P (decide_under l one used i g).1
unfolding decide_under
decide_under-IsIssuing l one policy none P i g own given a = a
decide_under-IsIssuing l one policy (some p) P i g own given a =
    decide_by-IsIssuing l one policy P p i g own given a

decide-IsIssuing :
    (l : Library) (one : ℕ) (policy : Option RiskGovernorPolicy) (P : RiskInputs → Type 0)
    (i : RiskInputs) (g : RiskGovernor)
    → P i
    → IsIssuing l one policy P g
    → IsIssuing l one policy P (decide l one i g).1
unfolding decide
decide-IsIssuing l one policy P i g given a =
    decide_under-IsIssuing l one policy g.policy P i g (sym a.0) given a

-- A governor's life: the decisions that it took, one after the other.
unfoldable pub decide_all : Library → ℕ → List RiskInputs → RiskGovernor → RiskGovernor
unfolding decide
decide_all l one [] g = g
decide_all l one (i ∷ is) g = decide_all l one is (decide l one i g).1

decide_all-IsIssuing :
    (l : Library) (one : ℕ) (policy : Option RiskGovernorPolicy) (P : RiskInputs → Type 0)
    (is : List RiskInputs) (g : RiskGovernor)
    → All P is
    → IsIssuing l one policy P g
    → IsIssuing l one policy P (decide_all l one is g)
unfolding decide_all
decide_all-IsIssuing l one policy P [] g given a = a
decide_all-IsIssuing l one policy P (i ∷ is) g given a =
    decide_all-IsIssuing l one policy P is (decide l one i g).1 given.1
      (decide-IsIssuing l one policy P i g given.0 a)

approves-same :
    (s t : DecisionState) → (state_index s == state_index t) ≡ true → approves s ≡ approves t
approves-same s t h = ground arith

issue-decision :
    (is_digest : ℕ → Bool) (d : RiskDecision) (hash : Option ℕ) (cash : ℕ)
    (a : ApprovedRiskDecision)
    → issue is_digest d hash cash ≡ ok a
    → a.decision ≡ d
unfolding issue
issue-decision is_digest d hash cash a h = ground arith

granted :
    (b : Bool) (x : Result GovernorError ApprovedRiskDecision) (a : ApprovedRiskDecision)
    → (if not b then err no_trade else x) ≡ ok a
    → (b ≡ true) × (x ≡ ok a)
granted true x a h = (refl, h)
granted false x a h = cc h

current :
    (b : Bool) (x : Result GovernorError ApprovedRiskDecision) (a : ApprovedRiskDecision)
    → (if b then err policy_not_current else x) ≡ ok a
    → x ≡ ok a
current false x a h = h
current true x a h = cc h

authorize_issued-approved :
    (l : Library) (is_digest : ℕ → Bool) (p : Option RiskGovernorPolicy) (d : RiskDecision) (h : ℕ)
    (a : ApprovedRiskDecision)
    → authorize_issued l is_digest p d h ≡ ok a
    → (approved d ≡ true) × (a.decision ≡ d)
unfolding authorize_issued
authorize_issued-approved l is_digest none d h a e = cc e
authorize_issued-approved l is_digest (some p) d h a e =
    let (y, k) =
      granted (approved d) (issue is_digest d none p.cash_instrument_id) a
        (current (not (is_current l p d h)) _ a e) in
    (y, issue-decision is_digest d none p.cash_instrument_id a k)

decision_eq-fields :
    (d e : RiskDecision)
    → decision_eq d e ≡ true
    → ((state_index d.state == state_index e.state) ≡ true)
      × (d.exposure_multiplier ≡ e.exposure_multiplier)
      × (d.portfolio_target_hash ≡ e.portfolio_target_hash)
unfolding decision_eq
decision_eq-fields d e h = ground arith

-- What an authorized decision rests on: the governor's own policy and inputs in `P`.
abbrev pub Rests :
    Library → ℕ → Option RiskGovernorPolicy → (RiskInputs → Type 0) → RiskDecision → Type 0
Rests l one policy P d =
    (p : RiskGovernorPolicy) × (i : RiskInputs) × (v : Verdict) × (policy ≡ some p)
    × P i
    × (verdict one p i ≡ ok v)
    × (decision_eq (decision_of l p i v) d ≡ true)
    × Clear one p i v
    × (d.exposure_multiplier ≡ v.multiplier)
    × (d.portfolio_target_hash ≡ i.portfolio_target_hash)

Issued-Rests :
    (l : Library) (one : ℕ) (policy : Option RiskGovernorPolicy) (P : RiskInputs → Type 0)
    (d e : RiskDecision) (h : ℕ)
    → Issued l one policy P d.content_hash (e, h)
    → decision_eq e d ≡ true
    → approved d ≡ true
    → Rests l one policy P d
unfolding approved
Issued-Rests l one policy P d e h (p, i, v, own, given, q, same, _) eq ap_d =
    let k : decision_eq (decision_of l p i v) d ≡ true =
      subst (λ x. decision_eq x d ≡ true) same eq in
    let (s, m, t) = decision_eq-fields (decision_of l p i v) d k in
    (
      p,
      i,
      v,
      own,
      given,
      q,
      k,
      verdict-Clear one p i v q (approves-same v.state d.state s ∙ ap_d),
      sym m,
      sym t,
    )

authorize-Rests :
    (l : Library) (one : ℕ) (policy : Option RiskGovernorPolicy) (P : RiskInputs → Type 0)
    (is_digest : ℕ → Bool) (d : RiskDecision) (g : RiskGovernor) (a : ApprovedRiskDecision)
    → IsIssuing l one policy P g
    → authorize l is_digest d g ≡ ok a
    → (a.decision ≡ d) × Rests l one policy P d
unfolding authorize
authorize-Rests l one policy P is_digest d g a issuing h =
    elim (Option-cases (get d.content_hash g.issued)) [
      | inl m ↦
          let k : ◌≡◌ {A = Result GovernorError ApprovedRiskDecision} (err not_issued) (ok a) =
            rw (m, authorize) at h in
          cc k
      | inr ((e, n), m) ↦ elim (Bool-cases (decision_eq e d)) [
        | inr w ↦
            let k : ◌≡◌ {A = Result GovernorError ApprovedRiskDecision} (err not_issued) (ok a) =
              rw (m, w, authorize) at h in
            cc k
        | inl y ↦
            let k : authorize_issued l is_digest g.policy d n ≡ ok a = rw (m, y, authorize) at h in
            let (ap_d, same) = authorize_issued-approved l is_digest g.policy d n a k in
            (
              same,
              Issued-Rests l one policy P d e n
                  (get-AllEntries (Issued l one policy P) d.content_hash g.issued issuing.1 m) y
                  ap_d,
            )
      ]
    ]

-- The inputs are among those of the list.
abbrev pub IsAmong : List RiskInputs → RiskInputs → Type 0
IsAmong [] i = ⊥
IsAmong (x ∷ is) i = (i ≡ x) ⊎ IsAmong is i

All-IsAmong : (is : List RiskInputs) → All (IsAmong is) is
All-IsAmong [] = tt
All-IsAmong (x ∷ is) =
    (inl refl, All-map (IsAmong is) (IsAmong (x ∷ is)) (λ i m. inr m) is (All-IsAmong is))

-- A governor that has issued nothing yet takes decisions on some inputs, one after the other. An
-- order is authorized then only on a decision that equals the one for some of these inputs under the
-- governor's own policy, and these have no hard condition, no ground to abstain or to wait and the
-- version of that policy; its multiplier is the least of the soft conditions that hold (the full one
-- if none does), and its target is the one of these inputs.
pub authorize-decide_all :
    (l : Library) (one : ℕ) (is_digest : ℕ → Bool) (is : List RiskInputs)
    (policy : Option RiskGovernorPolicy) (d : RiskDecision) (a : ApprovedRiskDecision)
    → authorize l is_digest d (decide_all l one is (record { policy = policy; issued = [] })) ≡ ok a
    → (a.decision ≡ d) × Rests l one policy (IsAmong is) d
authorize-decide_all l one is_digest is policy d a h =
    authorize-Rests l one policy (IsAmong is) is_digest d _ a
      (decide_all-IsIssuing l one policy (IsAmong is) is _ (All-IsAmong is) (refl, tt)) h
