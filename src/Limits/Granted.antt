-- ===== src/Limits/Granted.antt =====
-- A caller that waits as long as it is told is served.
use toss_trading_core.Prelude.{
  Bool-cases, List, Option, Result, [], ap, arith, err, false, inl, inr, leb, none, ok, ok_inj,
  refl, some, some_inj, subst, sym, true, ℕ, ◌*◌, ◌+◌, ◌-◌, ◌<◌, ◌==◌, ◌∙◌, ◌∷◌, ◌≡◌, ◌≢◌, ◌≤◌,
}
use toss_trading_core.Limits.{
  LimitError, TokenBucket, acquire_tokens, refilled, tokens_not_positive, try_acquire, wait_or_done,
}
use toss_trading_core.Limits.Spent.{earned}

-- A try that is told to wait leaves the bucket refilled at its time, with what it is told missing.
try_acquire-missing :
    (n now w : ℕ) (b : TokenBucket)
    → (try_acquire n now b).0 ≡ ok (some w)
    → ((try_acquire n now b).1 ≡ record b { tokens = refilled now b; updated_at = now })
      × (w + refilled now b ≡ n)
unfolding try_acquire
try_acquire-missing n now w b h = elim (Bool-cases (n == 0)) [
  | inl z ↦ let c : err tokens_not_positive ≡ ok (some w) = rw z at h in cc c
  | inr z ↦ elim (Bool-cases (leb n (refilled now b))) [
    | inl y ↦ let c : none ≡ some w = ok_inj (rw (z, y) at h) in cc c
    | inr y ↦
        let e : n - refilled now b ≡ w = some_inj (ok_inj (rw (z, y) at h)) in
        (rw (z, y) refl, ground (arith, y, e))
  ]
]

-- A try is served when the bucket has been refilled with enough.
try_acquire-served :
    (n now : ℕ) (b : TokenBucket) → n ≢ 0 → n ≤ refilled now b → (try_acquire n now b).0 ≡ ok none
unfolding try_acquire
try_acquire-served n now b z l =
    let a : (n == 0) ≡ false = ground (arith, z) in
    let c : leb n (refilled now b) ≡ true = ground (arith, l) in rw (a, c) refl

try_acquire-asked : (n now w : ℕ) (b : TokenBucket) → (try_acquire n now b).0 ≡ ok (some w) → n ≢ 0
unfolding try_acquire
try_acquire-asked n now w b h z =
    let e : (n == 0) ≡ true = rw z refl in
    let c : err tokens_not_positive ≡ ok (some w) = rw e at h in cc c

served-first :
    (r again : Result LimitError (Option ℕ) × TokenBucket)
    → r.0 ≡ ok none
    → (wait_or_done r again).0 ≡ ok none
served-first (err e, b) again h = cc h
served-first (ok none, b) again h = refl
served-first (ok (some w), b) again h = cc h

told-again :
    (r again : Result LimitError (Option ℕ) × TokenBucket) (w : ℕ)
    → r.0 ≡ ok (some w)
    → wait_or_done r again ≡ again
told-again (err e, b) again w h = cc h
told-again (ok none, b) again w h = cc h
told-again (ok (some v), b) again w h = refl

-- A caller that asks for no more than the capacity, is told at its first try that `w` tokens are
-- missing, and reads the clock again once they have been earned, is served: `acquire` returns at
-- that reading, whatever the later ones are.
pub acquire_tokens-served :
    (n now later w : ℕ) (times : List ℕ) (b : TokenBucket)
    → n ≤ b.capacity
    → (try_acquire n now b).0 ≡ ok (some w)
    → w ≤ (later - now) * b.refill
    → (acquire_tokens n (now ∷ later ∷ times) b).0 ≡ ok none
unfolding acquire_tokens
acquire_tokens-served n now later w times b fits told earned =
    let (left, missing) = try_acquire-missing n now w b told in
    let again =
      wait_or_done (try_acquire n later (try_acquire n now b).1)
        (acquire_tokens n times (try_acquire n later (try_acquire n now b).1).1) in
    ap (λ r. r.0) (told-again (try_acquire n now b) again w told)
    ∙ served-first (try_acquire n later (try_acquire n now b).1) _ (
        subst (λ x. (try_acquire n later x).0 ≡ ok none) (sym left)
          (try_acquire-served n later (record b { tokens = refilled now b; updated_at = now })
            (try_acquire-asked n now w b told) (omega (arith, fits, earned, missing))))

-- A caller that asks for more than the capacity is never served, however often the clock is read.
pub acquire_tokens-starved :
    (n : ℕ) (times : List ℕ) (b : TokenBucket)
    → b.capacity < n
    → (acquire_tokens n times b).0 ≡ ok (some n)
unfolding acquire_tokens try_acquire
acquire_tokens-starved n [] b h = refl
acquire_tokens-starved n (now ∷ times) b h =
    let z : (n == 0) ≡ false = ground (arith, h) in
    let y : leb n (refilled now b) ≡ false = ground (arith, h) in
    rw (z, y)
      (acquire_tokens-starved n times (record b { tokens = refilled now b; updated_at = now }) h)
