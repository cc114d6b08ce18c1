-- ===== src/Prelude/Dict.antt =====
-- Python's `dict` with keys that are only compared: an association list in the order of insertion.
use toss_trading_core.Prelude.{
  ==_eq, Bool-cases, List, Option, [], arith, if◌then◌else◌, inl, inr, none, some, some_inj, subst,
  ℕ, ◌+◌, ◌==◌, ◌∷◌, ◌≡◌,
}

abbrev pub Dict {ℓ} : Type ℓ → Type ℓ
Dict V = List (ℕ × V)

module _ {ℓ} {V : Type ℓ} where
  -- d.get(k)
  unfoldable pub get : ℕ → Dict V → Option V
  get k [] = none
  get k ((j, v) ∷ d) = let rest = get k d in if j == k then some v else rest

  -- d[k] = v: an old key keeps its place, a new one goes to the end.
  unfoldable pub put : ℕ → V → Dict V → Dict V
  put k v [] = (k, v) ∷ []
  put k v ((j, w) ∷ d) = let rest = put k v d in if j == k then (k, v) ∷ d else (j, w) ∷ rest

  pub get-put :
      (j k : ℕ) (v : V) (d : Dict V) → get j (put k v d) ≡ (if k == j then some v else get j d)
  unfolding get put
  get-put j k v [] = ground arith
  get-put j k v ((i, w) ∷ d) = ground (arith, get-put j k v d)

  -- The sum of a measure over the values.
  unfoldable pub total : (V → ℕ) → Dict V → ℕ
  total f [] = 0
  total f ((j, v) ∷ d) = f v + total f d

  pub total-put_old :
      (f : V → ℕ) (k : ℕ) (v : V) (d : Dict V) {w : V}
      → get k d ≡ some w
      → total f (put k v d) + f w ≡ total f d + f v
  unfolding get put total
  total-put_old f k v [] h = cc
  total-put_old f k v ((i, u) ∷ d) {w} h = elim (Bool-cases (i == k)) [
    | inl same ↦ let e : u ≡ w = some_inj (rw same at h) in rw (same, e) (omega arith)
    | inr other ↦ rw other (omega (arith, total-put_old f k v d {w = w} (rw other at h)))
  ]

  pub total-put_new :
      (f : V → ℕ) (k : ℕ) (v : V) (d : Dict V)
      → get k d ≡ none
      → total f (put k v d) ≡ total f d + f v
  unfolding get put total
  total-put_new f k v [] h = omega arith
  total-put_new f k v ((i, u) ∷ d) h = elim (Bool-cases (i == k)) [
    | inl same ↦ let e : some u ≡ none = rw same at h in cc e
    | inr other ↦ rw other (omega (arith, total-put_new f k v d (rw other at h)))
  ]

  -- Every entry satisfies `P`.
  abbrev pub AllEntries {κ} : (ℕ → V → Type κ) → Dict V → Type κ
  AllEntries P [] = Unit
  AllEntries P ((j, v) ∷ d) = P j v × AllEntries P d

  pub get-AllEntries {κ} :
      (P : ℕ → V → Type κ) (k : ℕ) (d : Dict V) {v : V} → AllEntries P d → get k d ≡ some v → P k v
  unfolding get
  get-AllEntries P k [] a h = cc
  get-AllEntries P k ((j, w) ∷ d) {v} a h = elim (Bool-cases (j == k)) [
    | inl same ↦ subst (λ i. P i v) (==_eq j k same) (subst (P j) (some_inj (rw same at h)) a.0)
    | inr other ↦ get-AllEntries P k d a.1 (rw other at h)
  ]

  pub put-AllEntries {κ} :
      (P : ℕ → V → Type κ) (k : ℕ) (v : V) (d : Dict V)
      → AllEntries P d
      → P k v
      → AllEntries P (put k v d)
  unfolding put
  put-AllEntries P k v [] a p = (p, tt)
  put-AllEntries P k v ((j, w) ∷ d) a p = elim (Bool-cases (j == k)) [
    | inl same ↦ rw same (p, a.1)
    | inr other ↦ rw other (a.0, put-AllEntries P k v d a.1 p)
  ]
