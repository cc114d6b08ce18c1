-- ===== src/Schedule/Shares.antt =====
-- The lots that are allocated are those of the parent.
use native.Mathlib.Nat.{div-add-mod, mod-lt}
use toss_trading_core.Prelude.{
  ==_eq, List, [], arith, length, min, ok, ok_inj, refl, require_ok, subst, suc, sum, true, zero, ℕ,
  ◌%◌, ◌*◌, ◌+◌, ◌-◌, ◌/◌, ◌==◌, ◌∷◌, ◌≡◌, ◌≤◌,
}
use toss_trading_core.Schedule.{
  ScheduleMode, capacity_insufficient, event_defer, immediate, open_close_aware, passive_limit,
  pov_lite, twap_lite,
}
use toss_trading_core.Schedule.Allocate.{
  allocate, even_from, fitting, pov_allocate, pov_result, within_capacity,
}

pub pov_allocate-total :
    (lots : ℕ) (caps : List ℕ)
    → let (xs, left) = pov_allocate lots caps in (sum xs + left ≡ lots) × (length xs ≡ length caps)
unfolding pov_allocate
pov_allocate-total lots [] = (omega arith, refl)
pov_allocate-total lots (room ∷ caps) =
    let (a, b) = pov_allocate-total (lots - min room lots) caps in
    (omega (arith, a), omega (arith, b))

even_from-total :
    (q r i k : ℕ)
    → (sum (even_from q r i k) + min r i ≡ k * q + min r (i + k)) × (length (even_from q r i k) ≡ k)
unfolding even_from
even_from-total q r i zero = (omega arith, refl)
even_from-total q r i (suc k) =
    let (a, b) = even_from-total q r (suc i) k in (ground (arith, a), omega (arith, b))

pub even-total :
    (lots count : ℕ) → 1 ≤ count → sum (even_from (lots / count) (lots % count) 0 count) ≡ lots
even-total lots count h =
    let (a, _) = even_from-total (lots / count) (lots % count) 0 count in
    let d = div-add-mod lots count in
    let l = mod-lt lots {m = count} (omega (arith, h)) in omega (arith, a, d, l)

fitting-ok :
    (caps xs ys : List ℕ) → fitting caps xs ≡ ok ys → (xs ≡ ys) × (within_capacity xs caps ≡ true)
fitting-ok caps xs ys h =
    let (y, r) = require_ok (within_capacity xs caps) capacity_insufficient _ ys h in (ok_inj r, y)

-- An allocation has a share for each window, none beyond its capacity, and sums to the lots.
pub record IsAllocation (lots count : ℕ) (caps xs : List ℕ) : Type 0 where
  pub total : sum xs ≡ lots
  pub shares : length xs ≡ count
  pub fits : within_capacity xs caps ≡ true

pov_result-IsAllocation :
    (lots : ℕ) (caps : List ℕ) (p : List ℕ × ℕ) (ys : List ℕ)
    → (sum p.0 + p.1 ≡ lots) × (length p.0 ≡ length caps)
    → pov_result p caps ≡ ok ys
    → IsAllocation lots (length caps) caps ys
pov_result-IsAllocation lots caps (xs, left) ys (total, len) h =
    let (none_left, r) = require_ok (left == 0) capacity_insufficient _ ys h in
    let (e, fits) = fitting-ok caps xs ys r in
    let z = ==_eq left 0 none_left in
    subst (IsAllocation lots (length caps) caps) e
      (record { total = omega (arith, total, z); shares = len; fits = fits })

even-IsAllocation :
    (lots count : ℕ) (caps ys : List ℕ)
    → 1 ≤ count
    → fitting caps (even_from (lots / count) (lots % count) 0 count) ≡ ok ys
    → IsAllocation lots count caps ys
even-IsAllocation lots count caps ys one_or_more h =
    let (e, fits) = fitting-ok caps (even_from (lots / count) (lots % count) 0 count) ys h in
    subst (IsAllocation lots count caps) e (record {
      total = even-total lots count one_or_more;
      shares = (even_from-total (lots / count) (lots % count) 0 count).1;
      fits = fits;
    })

pub allocate-IsAllocation :
    (mode : ScheduleMode) (lots count : ℕ) (caps ys : List ℕ)
    → 1 ≤ count
    → length caps ≡ count
    → allocate mode lots count caps ≡ ok ys
    → IsAllocation lots count caps ys
unfolding allocate
allocate-IsAllocation pov_lite lots count caps ys l e h =
    subst (λ n. IsAllocation lots n caps ys) e
      (pov_result-IsAllocation lots caps (pov_allocate lots caps) ys (pov_allocate-total lots caps)
        h)
allocate-IsAllocation immediate lots count caps ys l e h = even-IsAllocation lots count caps ys l h
allocate-IsAllocation passive_limit lots count caps ys l e h =
    even-IsAllocation lots count caps ys l h
allocate-IsAllocation twap_lite lots count caps ys l e h = even-IsAllocation lots count caps ys l h
allocate-IsAllocation open_close_aware lots count caps ys l e h =
    even-IsAllocation lots count caps ys l h
allocate-IsAllocation event_defer lots count caps ys l e h =
    even-IsAllocation lots count caps ys l h
