-- ===== src/Prelude/Sorted.antt =====
-- `SELECT ... WHERE ... ORDER BY ...` on a list, and sums of integers over what it selects.
use toss_trading_core.Prelude.{
  All, Bool, Bool-cases, List, [], ap, false, if◌then◌else◌, inl, inr, refl, subst, sym, true, ◌&&◌,
  ◌∙◌, ◌∷◌, ◌≡◌,
}
use toss_trading_core.Prelude.Int.{int_laws, pos, ℤ, ◌+ℤ◌}

module _ {A : Type 0} where
  unfoldable pub insert_by : (A → A → Bool) → A → List A → List A
  insert_by before x [] = x ∷ []
  insert_by before x (y ∷ ys) =
      let rest = insert_by before x ys in if before x y then x ∷ y ∷ ys else y ∷ rest

  -- The items that pass a test, sorted.
  unfoldable pub select_by : (A → A → Bool) → (A → Bool) → List A → List A
  unfolding insert_by
  select_by before test [] = []
  select_by before test (x ∷ xs) =
      let rest = select_by before test xs in if test x then insert_by before x rest else rest

  -- The sum of a value over the items that pass a test.
  unfoldable pub sum_if : (A → Bool) → (A → ℤ) → List A → ℤ
  sum_if test value [] = pos 0
  sum_if test value (x ∷ xs) =
      let rest = sum_if test value xs in if test x then value x +ℤ rest else rest

  sum_if-insert :
      (before : A → A → Bool) (test : A → Bool) (value : A → ℤ) (x : A) (xs : List A)
      → sum_if test value (insert_by before x xs) ≡ sum_if test value (x ∷ xs)
  unfolding sum_if insert_by
  sum_if-insert before test value x [] = refl
  sum_if-insert before test value x (y ∷ ys) =
      let ih = sum_if-insert before test value x ys in
      elim (Bool-cases (before x y)) [
        | inl b ↦ rw b refl
        | inr n ↦ rw n (
            swap (test x) (test y) (sum_if test value ys)
              (sum_if test value (insert_by before x ys)) ih)
      ]
    where
      swap :
          (a b : Bool) (s s' : ℤ)
          → s' ≡ (if a then value x +ℤ s else s)
          → (if b then value y +ℤ s' else s') ≡ (
              if a
              then value x +ℤ (if b then value y +ℤ s else s)
              else (if b then value y +ℤ s else s))
      swap true true s s' h =
          subst (λ z. value y +ℤ z ≡ value x +ℤ (value y +ℤ s)) (sym h) (omega int_laws)
      swap true false s s' h = h
      swap false true s s' h = ap (λ z. value y +ℤ z) h
      swap false false s s' h = h

  -- Selecting and sorting do not change a sum.
  pub sum_if-select :
      (before : A → A → Bool) (w test : A → Bool) (value : A → ℤ) (xs : List A)
      → sum_if test value (select_by before w xs) ≡ sum_if (λ x. w x && test x) value xs
  unfolding sum_if select_by
  sum_if-select before w test value [] = refl
  sum_if-select before w test value (x ∷ xs) =
      let ih = sum_if-select before w test value xs in
      elim (Bool-cases (w x)) [
        | inr n ↦ rw n ih
        | inl y ↦ rw y (
            sum_if-insert before test value x (select_by before w xs)
            ∙ ap (λ z. if test x then value x +ℤ z else z) ih)
      ]

  insert_by-All :
      (before : A → A → Bool) (P : A → Type 0) (x : A) (xs : List A)
      → P x
      → All P xs
      → All P (insert_by before x xs)
  unfolding insert_by
  insert_by-All before P x [] p a = (p, tt)
  insert_by-All before P x (y ∷ ys) p a =
      let ih = insert_by-All before P x ys p a.1 in
      elim (Bool-cases (before x y)) [ inl b ↦ rw b (p, a) | inr n ↦ rw n (a.0, ih) ]

  pub select_by-All :
      (before : A → A → Bool) (test : A → Bool) (P : A → Type 0) (xs : List A)
      → All P xs
      → All P (select_by before test xs)
  unfolding select_by
  select_by-All before test P [] a = tt
  select_by-All before test P (x ∷ xs) a =
      let ih = select_by-All before test P xs a.1 in
      elim (Bool-cases (test x)) [
        | inl y ↦ rw y (insert_by-All before P x (select_by before test xs) a.0 ih)
        | inr n ↦ rw n ih
      ]

  pub select_by-skip :
      (before : A → A → Bool) (test : A → Bool) (x : A) (xs : List A)
      → test x ≡ false
      → select_by before test (x ∷ xs) ≡ select_by before test xs
  unfolding select_by
  select_by-skip before test x xs n = rw n refl

pub add_zero : (x : ℤ) → x ≡ x +ℤ pos 0
add_zero x = omega int_laws

pub add_assoc : (x y z : ℤ) → x +ℤ y +ℤ z ≡ x +ℤ (y +ℤ z)
add_assoc x y z = omega int_laws
