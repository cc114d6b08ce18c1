-- ===== src/Schedule/Planned.antt =====
-- What the children of a plan are.
use native.Mathlib.Nat.{
  div-le_of_le-mul, div-add-mod, mod-lt, mul-le-mul_left, div-mul-le_self, mul-le-mul_right,
  mul_assoc, mul_comm,
}
use toss_trading_core.Prelude.{
  ==_eq, All, Bool, Bool-cases, List, Option, [], and_both, ap, arith, bind_ok, false, inl, inr,
  leb, leb_le, length, ltb, ltb_ge, ltb_lt, map, none, ok, ok_inj, refl, require, require_ok, some,
  subst, suc, sum, true, zero, ℕ, ◌%◌, ◌&&◌, ◌*◌, ◌+◌, ◌-◌, ◌/◌, ◌<◌, ◌==◌, ◌>>=◌, ◌∙◌, ◌∷◌, ◌≡◌,
  ◌≤◌,
}
use toss_trading_core.Schedule.{ChildOrder, Reason, child_below_minimum, child_window_invalid, one}
use toss_trading_core.Schedule.Allocate.{
  Frame, check_child, child_of, divide_duration, left_of, make_children, within_capacity,
}

-- The quantities of the children.
abbrev pub quantity_sum : List ChildOrder → ℕ
quantity_sum [] = 0
quantity_sum (c ∷ cs) = c.quantity + quantity_sum cs

-- The volume of window number `n`, from 0 on.
abbrev pub volume_at : ℕ → List ℕ → Option ℕ
volume_at n [] = none
volume_at zero (v ∷ volumes) = some v
volume_at (suc n) (v ∷ volumes) = volume_at n volumes

-- A relation holds of the number of each window, from `i` on, and its volume.
abbrev pub Windows : (ℕ → ℕ → Type 0) → ℕ → List ℕ → Type 0
Windows W i [] = Unit
Windows W i (v ∷ volumes) = W i v × Windows W (suc i) volumes

-- A child of a frame whose windows have the volumes `W`: at its price, not below the minimum, in a
-- time that is not empty and is inside the whole window, and within the participation in the volume
-- of its own one, of which its cap is the part that the frame's fraction leaves.
pub record IsChild (f : Frame) (participation : ℕ) (W : ℕ → ℕ → Type 0) (c : ChildOrder)
    : Type 0 where
  pub window : ℕ
  pub volume : ℕ
  pub numbered : c.sequence ≡ window + 1
  pub has_volume : W window volume
  pub capped : c.volume_cap ≡ volume * f.fraction
  pub at_price : c.limit_price ≡ f.price
  pub large_enough : f.rule.minimum_quantity ≤ c.quantity
  pub not_early : f.start ≤ c.not_before
  pub in_order : c.not_before < c.expires_at
  pub not_late : c.expires_at ≤ f.end
  pub participates : c.quantity * (2 * one * one) ≤ volume * f.fraction * participation

-- A duration of at most `m` parts of `n` is at most `m` when it is divided by `n`.
divide_duration-le : (a n m : ℕ) → 1 ≤ n → a ≤ n * m → divide_duration a n ≤ m
divide_duration-le a n m l h =
    let q = div-le_of_le-mul n h in
    elim (Bool-cases (ltb (2 * (a % n)) n)) [
      | inl y ↦ rw y q
      | inr y ↦
          let r = ltb_ge _ _ y in
          let s : a / n + 1 ≤ m = below q r in
          elim (Bool-cases (ltb n (2 * (a % n)))) [
            | inl z ↦ rw (y, z) s
            | inr z ↦
                let e = mod-lt (a / n) {m = 2} (omega arith) in rw (y, z) (omega (arith, e, s))
          ]
    ]
  where
    below : a / n ≤ m → n ≤ 2 * (a % n) → a / n + 1 ≤ m
    below q r = elim (Bool-cases (leb m (a / n))) [
      | inr z ↦ ground (arith, z)
      | inl z ↦
          let g = mul-le-mul_left n (leb_le _ _ z) in
          let d = div-add-mod a n in let c : ⊥ = omega (arith, g, d, h, r, l) in elim c [ ]
    ]

left_of-inside : (f : Frame) (i : ℕ) → f.start ≤ f.end → 1 ≤ i → i ≤ f.count → left_of f i ≤ f.end
left_of-inside f i window first inside =
    let m = mul-le-mul_left (f.end - f.start) inside in
    let c = mul_comm (f.end - f.start) f.count in
    let d =
      divide_duration-le ((f.end - f.start) * i) f.count (f.end - f.start)
        (omega (arith, first, inside)) (omega (arith, m, c)) in
    omega (arith, d, window)

-- A capacity of whole lots stays within the participation.
capacity-bound :
    (a v fraction participation lot : ℕ)
    → a ≤ v * fraction * participation / (2 * one * one * lot)
    → a * lot * (2 * one * one) ≤ v * fraction * participation
capacity-bound a v fraction participation lot h =
    let x = v * fraction * participation in
    let m = mul-le-mul_right (2 * one * one * lot) h in
    let d = div-mul-le_self x (2 * one * one * lot) in
    let e : a * lot * (2 * one * one) ≡ a * (2 * one * one * lot) =
      mul_assoc a lot (2 * one * one) ∙ ap (λ z. a * z) (mul_comm lot (2 * one * one)) in
    omega (arith, m, d, e)

-- What the checks of a child give.
check_child-IsChild :
    (f : Frame) (participation : ℕ) (W : ℕ → ℕ → Type 0) (i a v : ℕ)
    → W i v
    → f.start ≤ f.end
    → i + 1 ≤ f.count
    → a ≤ v * f.fraction * participation / (2 * one * one * f.rule.lot_size)
    → check_child f (child_of f i a v) ≡ ok tt
    → IsChild f participation W (child_of f i a v)
check_child-IsChild f participation W i a v of_window window inside fits h =
    let c : ChildOrder = child_of f i a v in
    let (large, r) =
      require_ok
        (leb f.rule.minimum_quantity c.quantity
          && leb f.rule.minimum_notional (c.quantity * c.limit_price))
        child_below_minimum (require (ltb c.not_before c.expires_at) child_window_invalid) tt h in
    record {
      window = i;
      volume = v;
      numbered = refl;
      has_volume = of_window;
      capped = refl;
      at_price = refl;
      large_enough = leb_le _ _ (and_both _ _ large).0;
      not_early = omega arith;
      in_order = ltb_lt _ _ (required (ltb c.not_before c.expires_at) child_window_invalid r);
      not_late = left_of-inside f (i + 1) window (omega arith) inside;
      participates = capacity-bound a v f.fraction participation f.rule.lot_size fits;
    }
  where
    required : (b : Bool) (e : Reason) → require b e ≡ ok tt → b ≡ true
    required true e h = refl
    required false e h = cc h

-- Each window has its own number and volume.
pub Windows-numbered :
    (W : ℕ → ℕ → Type 0) (i : ℕ) (volumes : List ℕ)
    → ((n v : ℕ) → volume_at n volumes ≡ some v → W (i + n) v)
    → Windows W i volumes
Windows-numbered W i [] f = tt
Windows-numbered W i (v ∷ volumes) f = (
  subst (λ k. W k v) (omega arith) (f 0 v refl),
  Windows-numbered W (suc i) volumes (λ n u h. subst (λ k. W k u) (omega arith) (f (suc n) u h)),
)

abbrev pub caps_of : Frame → ℕ → List ℕ → List ℕ
caps_of f participation volumes =
    map (λ v. v * f.fraction * participation / (2 * one * one * f.rule.lot_size)) volumes

abbrev pub Children : Frame → ℕ → (ℕ → ℕ → Type 0) → List ℕ → List ChildOrder → Type 0
Children f participation W xs cs =
    (quantity_sum cs ≡ sum xs * f.rule.lot_size) × All (IsChild f participation W) cs

sum_more : (q a s lot : ℕ) → q ≡ s * lot → a * lot + q ≡ (a + s) * lot
sum_more q a s lot h = omega (arith, h)

pub make_children-Children :
    (f : Frame) (participation : ℕ) (W : ℕ → ℕ → Type 0) (i : ℕ) (xs volumes : List ℕ)
    (cs : List ChildOrder)
    → Windows W i volumes
    → f.start ≤ f.end
    → i + length xs ≤ f.count
    → length xs ≡ length volumes
    → within_capacity xs (caps_of f participation volumes) ≡ true
    → make_children f i xs volumes ≡ ok cs
    → Children f participation W xs cs
unfolding make_children within_capacity
make_children-Children f participation W i [] [] cs ws window inside l w h =
    subst (Children f participation W []) (ok_inj h) (omega arith, tt)
make_children-Children f participation W i [] (v ∷ volumes) cs ws window inside l w h =
    let c : ⊥ = omega (arith, l) in elim c [ ]
make_children-Children f participation W i (a ∷ xs) [] cs ws window inside l w h =
    let c : ⊥ = omega (arith, l) in elim c [ ]
make_children-Children f participation W i (a ∷ xs) (v ∷ volumes) cs ws window inside l w h =
    let (fits, more) =
      and_both (leb a (v * f.fraction * participation / (2 * one * one * f.rule.lot_size)))
        (within_capacity xs (caps_of f participation volumes)) w in
    elim (Bool-cases (a == 0)) [
      | inl z ↦
          let (s, all) =
            make_children-Children f participation W (suc i) xs volumes cs ws.1 window
              (omega (arith, inside)) (omega (arith, l)) more (rw z at h) in
          let e : a ≡ 0 = ==_eq a 0 z in (s ∙ ap (λ n. n * f.rule.lot_size) (omega (arith, e)), all)
      | inr z ↦
          let (_, checked, rest) =
            bind_ok (check_child f (child_of f i a v))
              (λ _. make_children f (suc i) xs volumes >>= λ cs. ok (child_of f i a v ∷ cs)) cs
              (rw z at h) in
          let (cs', made, last) =
            bind_ok (make_children f (suc i) xs volumes) (λ cs. ok (child_of f i a v ∷ cs)) cs
              rest in
          let (s, all) =
            make_children-Children f participation W (suc i) xs volumes cs' ws.1 window
              (omega (arith, inside)) (omega (arith, l)) more made in
          subst (Children f participation W (a ∷ xs)) (ok_inj last) (
            sum_more (quantity_sum cs') a (sum xs) f.rule.lot_size s,
            (
              check_child-IsChild f participation W i a v ws.0 window (omega (arith, inside))
                  (leb_le _ _ fits) checked,
              all,
            ),
          )
    ]
