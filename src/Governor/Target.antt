-- ===== src/Governor/Target.antt =====
-- `target_weight_hash`, `bind_target`, `authorize_target` and `apply_to_target` of
-- asset_management/decisions/governor.py. A weight is counted in units of which `one` make 1, a
-- weight times a multiplier in units of which `one * one` do; products are exact.
use toss_trading_core.Prelude.{
  Bool, Option, Result, [], err, if◌then◌else◌, is_some, none, not, ok, require, some, true, ℕ,
  ◌&&◌, ◌*◌, ◌+◌, ◌==◌, ◌>>=◌, ◌>>◌, ◌∷◌,
}
use toss_trading_core.Governor.{
  GovernorError, cash_instrument_differs, cash_not_in_target, target_hash_differs, weight_unnamed,
  weights_missing, weights_not_one,
}
use toss_trading_core.Governor.Calls.{ApprovedRiskDecision, Library, authorize, issue}
use toss_trading_core.Governor.Decide.{RiskDecision, RiskGovernor}
use toss_trading_core.Prelude.Dict.{Dict, get, put}
use toss_trading_core.Prelude.Int.{negsuc, pos, ℤ, ◌-ℤ◌}

-- The weights with no value below zero, as natural numbers.
unfoldable pub nonnegative : Dict ℤ → Option (Dict ℕ)
nonnegative [] = some []
nonnegative ((k, negsuc n) ∷ d) = none
nonnegative ((k, pos n) ∷ d) = elim (nonnegative d) [ none ↦ none | some e ↦ some ((k, n) ∷ e) ]

unfoldable pub sum_weights : Dict ℕ → ℕ
sum_weights [] = 0
sum_weights ((k, n) ∷ d) = n + sum_weights d

abbrev pub all_named : Dict ℤ → Bool
all_named [] = true
all_named ((k, v) ∷ d) = not (k == 0) && all_named d

abbrev pub sums_to : ℕ → Option (Dict ℕ) → Result GovernorError (Dict ℕ)
sums_to scale none = err weights_not_one
sums_to scale (some w) = if sum_weights w == scale then ok w else err weights_not_one

-- The checks of `target_weight_hash`; they return the weights that are hashed.
unfoldable pub check_weights : ℕ → Dict ℤ → Result GovernorError (Dict ℕ)
unfolding nonnegative sum_weights
check_weights scale [] = err weights_missing
check_weights scale (w ∷ ws) = do
  require (all_named (w ∷ ws)) weight_unnamed
  sums_to scale (nonnegative (w ∷ ws))

-- The weights but the cash, times the multiplier; the cash stays for now.
unfoldable pub scale_weights : ℕ → ℕ → Dict ℕ → Dict ℤ
scale_weights cash m [] = []
scale_weights cash m ((k, n) ∷ d) =
    let rest = scale_weights cash m d in (k, if k == cash then pos n else pos (n * m)) ∷ rest

-- The sum of the scaled weights but the cash.
unfoldable pub sum_others : ℕ → ℕ → Dict ℕ → ℕ
sum_others cash m [] = 0
sum_others cash m ((k, n) ∷ d) =
    let rest = sum_others cash m d in if k == cash then rest else n * m + rest

unfoldable pub bound_weights : ℕ → ℕ → ℕ → Dict ℕ → Dict ℤ
unfolding scale_weights sum_others
bound_weights one cash m w =
    put cash (pos (one * one) -ℤ pos (sum_others cash m w)) (scale_weights cash m w)

-- `bind_target`; `hash` stands for the SHA-256 of the weights' texts at a scale.
unfoldable pub bind_target :
    (ℕ → Dict ℕ → ℕ)
    → (ℕ → Bool)
    → ℕ
    → ApprovedRiskDecision
    → Dict ℤ
    → ℕ
    → Result GovernorError (ApprovedRiskDecision × Dict ℕ)
unfolding check_weights bound_weights issue get
bind_target hash is_digest one a weights cash = do
  require (cash == a.cash_instrument_id) cash_instrument_differs
  w ← check_weights one weights
  require (hash one w == a.decision.portfolio_target_hash) target_hash_differs
  require (not (cash == 0) && is_some (get cash w)) cash_not_in_target
  r ← check_weights (one * one) (bound_weights one cash a.decision.exposure_multiplier w)
  b ← issue is_digest a.decision (some (hash (one * one) r)) a.cash_instrument_id
  ok (b, r)

-- `authorize_target`
unfoldable pub authorize_target :
    Library
    → (ℕ → Dict ℕ → ℕ)
    → (ℕ → Bool)
    → ℕ
    → RiskDecision
    → Dict ℤ
    → ℕ
    → RiskGovernor
    → Result GovernorError (ApprovedRiskDecision × Dict ℕ)
unfolding authorize bind_target
authorize_target l hash is_digest one d weights cash g =
    authorize l is_digest d g >>= λ a. bind_target hash is_digest one a weights cash

-- `apply_to_target`
unfoldable pub apply_to_target :
    Library
    → (ℕ → Dict ℕ → ℕ)
    → (ℕ → Bool)
    → ℕ
    → RiskDecision
    → Dict ℤ
    → ℕ
    → RiskGovernor
    → Result GovernorError (Dict ℕ)
unfolding authorize_target
apply_to_target l hash is_digest one d weights cash g =
    authorize_target l hash is_digest one d weights cash g >>= λ r. ok (r.1)
