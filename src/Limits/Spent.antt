-- ===== src/Limits/Spent.antt =====
-- What a token bucket grants is bounded by what it held and what it earned.
use toss_trading_core.Prelude.{
  Bool-cases, List, Option, Result, [], arith, err, inl, inr, leb, leb_le, min, none, ok, refl,
  some, subst, sym, ℕ, ◌*◌, ◌+◌, ◌-◌, ◌==◌, ◌∷◌, ◌≡◌, ◌≤◌,
}
use toss_trading_core.Limits.{LimitError, TokenBucket, refilled, try_acquire}
use toss_trading_core.Prelude.Dict.{total}

-- A try after some ticks: what it grants, and the bucket then.
abbrev pub granted : ℕ → Result LimitError (Option ℕ) → ℕ
granted n (err e) = 0
granted n (ok none) = n
granted n (ok (some w)) = 0

-- Tries for a number of units each, each some ticks after the last: the sum that is granted.
unfoldable pub run_tries : List (ℕ × ℕ) → TokenBucket → ℕ × TokenBucket
unfolding try_acquire
run_tries [] b = (0, b)
run_tries ((elapsed, n) ∷ tries) b =
    let (r, b') = try_acquire n (b.updated_at + elapsed) b in
    let (total, b'') = run_tries tries b' in (granted n r + total, b'')

-- What a refill earns over the ticks of the tries.
unfoldable pub earned : ℕ → List (ℕ × ℕ) → ℕ
earned refill [] = 0
earned refill ((elapsed, n) ∷ tries) = elapsed * refill + earned refill tries

refilled-le :
    (elapsed : ℕ) (b : TokenBucket)
    → refilled (b.updated_at + elapsed) b ≤ b.tokens + elapsed * b.refill
refilled-le elapsed b =
    subst (λ t. min b.capacity (b.tokens + t * b.refill) ≤ b.tokens + elapsed * b.refill)
      (sym (plus_minus b.updated_at elapsed)) (omega arith)
  where
    plus_minus : (u e : ℕ) → u + e - u ≡ e
    plus_minus u e = omega arith

-- One try: what it grants and what is left were there; the bucket is never above its capacity then.
pub try_acquire-granted :
    (n elapsed : ℕ) (b : TokenBucket)
    → let (r, b') = try_acquire n (b.updated_at + elapsed) b in
      (granted n r + b'.tokens ≤ b.tokens + elapsed * b.refill) × (b'.refill ≡ b.refill)
unfolding try_acquire
try_acquire-granted n elapsed b =
    let h = refilled-le elapsed b in
    elim (Bool-cases (n == 0)) [
      | inl z ↦ rw z (omega arith, refl)
      | inr z ↦ elim (Bool-cases (leb n (refilled (b.updated_at + elapsed) b))) [
        | inl y ↦
            let k : n ≤ refilled (b.updated_at + elapsed) b = leb_le n _ y in
            rw (z, y) (omega arith, refl)
        | inr y ↦ rw (z, y) (omega arith, refl)
      ]
    ]

-- However many tries come, what they take together and what is left at the end is no more than the
-- bucket held at first and earned since.
pub run_tries-earned :
    (tries : List (ℕ × ℕ)) (b : TokenBucket)
    → (run_tries tries b).0 + (run_tries tries b).1.tokens ≤ b.tokens + earned b.refill tries
unfolding run_tries earned
run_tries-earned [] b = omega arith
run_tries-earned ((elapsed, n) ∷ tries) b =
    let b' = (try_acquire n (b.updated_at + elapsed) b).1 in
    let rest = run_tries-earned tries b' in
    let (h, e) = try_acquire-granted n elapsed b in
    let rest' : (run_tries tries b').0 + (run_tries tries b').1.tokens
        ≤ b'.tokens + earned b.refill tries =
      subst
        (λ x. (run_tries tries b').0 + (run_tries tries b').1.tokens ≤ b'.tokens + earned x tries) e
        rest in
    omega arith
