-- ===== src/Governor/Least.antt =====
-- The multiplier that `least_multiplier` returns is the least of the active conditions.
use toss_trading_core.Prelude.{
  Bool-cases, List, Option-cases, Result, [], ap, arith, err, inl, inr, leb, min, ok, some, subst,
  sym, ℕ, ◌>>=◌, ◌∙◌, ◌∷◌, ◌≡◌, ◌≤◌, ◌⊎◌,
}
use toss_trading_core.Governor.{GovernorError, ReasonCode, reason_index}
use toss_trading_core.Governor.Decide.{least_multiplier}
use toss_trading_core.Prelude.Dict.{Dict, get}

-- No active condition allows less.
unfoldable pub Below : Dict ℕ → ℕ → List ReasonCode → Type 0
Below d m [] = Unit
Below d m (r ∷ rs) = ((k : ℕ) × (get (reason_index r) d ≡ some k) × (m ≤ k)) × Below d m rs

-- One of the active conditions allows just this.
unfoldable pub Reached : Dict ℕ → ℕ → List ReasonCode → Type 0
Reached d m [] = ⊥
Reached d m (r ∷ rs) = (get (reason_index r) d ≡ some m) ⊎ Reached d m rs

Below-trans : (d : Dict ℕ) (m n : ℕ) (rs : List ReasonCode) → m ≤ n → Below d n rs → Below d m rs
unfolding Below
Below-trans d m n [] h b = tt
Below-trans d m n (r ∷ rs) h ((k, e, l), b) = ((k, e, omega arith), Below-trans d m n rs h b)

abbrev pub LeastOf : Dict ℕ → List ReasonCode → Result GovernorError ℕ → Type 0
LeastOf d rs (err e) = Unit
LeastOf d rs (ok m) = Below d m rs × Reached d m rs

min-LeastOf :
    (d : Dict ℕ) (r : ReasonCode) (rs : List ReasonCode) (k : ℕ) (x : Result GovernorError ℕ)
    → get (reason_index r) d ≡ some k
    → LeastOf d rs x
    → LeastOf d (r ∷ rs) (x >>= λ n. ok (min k n))
unfolding Below Reached
min-LeastOf d r rs k (err e) g l = tt
min-LeastOf d r rs k (ok n) g (b, a) =
    (((k, g, omega arith), Below-trans d (min k n) n rs (omega arith) b), reached)
  where
    reached : (get (reason_index r) d ≡ some (min k n)) ⊎ Reached d (min k n) rs
    reached = elim (Bool-cases (leb k n)) [
      | inl y ↦ let e : min k n ≡ k = ground arith in inl (g ∙ ap some (sym e))
      | inr w ↦ let e : min k n ≡ n = ground arith in inr (subst (λ x. Reached d x rs) (sym e) a)
    ]

pub least_multiplier-LeastOf :
    (d : Dict ℕ) (r : ReasonCode) (rs : List ReasonCode)
    → LeastOf d (r ∷ rs) (least_multiplier d (r ∷ rs))
unfolding least_multiplier Below Reached
least_multiplier-LeastOf d r [] = elim (Option-cases (get (reason_index r) d)) [
  | inl e ↦ rw (e, LeastOf) tt
  | inr (k, e) ↦ rw (e, LeastOf) (((k, e, omega arith), tt), inl e)
]
least_multiplier-LeastOf d r (r' ∷ rs) =
    let rest = least_multiplier-LeastOf d r' rs in
    elim (Option-cases (get (reason_index r) d)) [
      | inl e ↦ rw (e, LeastOf) tt
      | inr (k, e) ↦
          rw (e, LeastOf) (min-LeastOf d r (r' ∷ rs) k (least_multiplier d (r' ∷ rs)) e rest)
    ]
