-- ===== src/Overrides/Lines.antt =====
-- The lines of the journal's text, after a line is written at its end.
use toss_trading_core.Prelude.{
  ==_eq, Bool, Bool-cases, List, [], and_both, ap, false, inl, inr, not, not-true, refl, true, ℕ,
  ◌&&◌, ◌++◌, ◌==◌, ◌∙◌, ◌∷◌, ◌≡◌, ◌≢◌,
}
use toss_trading_core.Overrides.Journal.{Text, extend_first, is_boundary, split_lines}

-- No character at which a text is cut.
unfoldable pub is_one_line : Text → Bool
unfolding is_boundary
is_one_line [] = true
is_one_line (c ∷ t) = not (is_boundary c) && is_one_line t

-- Empty, or with a newline at its end.
unfoldable pub ends_line : Text → Bool
ends_line [] = true
ends_line (c ∷ []) = c == 10
ends_line (c ∷ d ∷ t) = ends_line (d ∷ t)

pub split_lines-one : (t : Text) → is_one_line t ≡ true → split_lines (t ++ 10 ∷ []) ≡ t ∷ []
unfolding split_lines is_one_line
split_lines-one [] h = refl
split_lines-one (c ∷ t) h =
    let (a, b) = and_both (not (is_boundary c)) (is_one_line t) h in
    rw (not-true (is_boundary c) a) (ap (extend_first c) (split_lines-one t b))

-- A text that is cut inside has what stands before the cut as its first line.
pub split_lines-cut :
    (t : Text) (c : ℕ) (rest : Text)
    → is_one_line t ≡ true
    → is_boundary c ≡ true
    → (c == 13) ≡ false
    → split_lines (t ++ c ∷ rest) ≡ t ∷ split_lines rest
unfolding split_lines is_one_line
split_lines-cut [] c rest h b r = rw (b, r) refl
split_lines-cut (d ∷ t) c rest h b r =
    let (x, y) = and_both (not (is_boundary d)) (is_one_line t) h in
    rw (not-true (is_boundary d) x) (ap (extend_first d) (split_lines-cut t c rest y b r))

extend_first-append :
    (c : ℕ) (lines more : List Text)
    → lines ≢ []
    → extend_first c (lines ++ more) ≡ extend_first c lines ++ more
extend_first-append c [] more f = absurd (f refl)
extend_first-append c (l ∷ lines) more f = refl

-- The first character makes a line, unless it and a newline after it are one cut.
split_lines-ne-nil : (c : ℕ) (t : Text) → split_lines (c ∷ t) ≢ []
unfolding split_lines
split_lines-ne-nil c [] e = elim (Bool-cases (is_boundary c)) [
  | inl y ↦ elim (Bool-cases (c == 13)) [
    | inl z ↦ cc (rw (y, z) at e)
    | inr z ↦ cc (rw (y, z) at e)
  ]
  | inr n ↦ cc (rw n at e)
]
split_lines-ne-nil c (d ∷ t) e = elim (Bool-cases (is_boundary c)) [
  | inl y ↦ elim (Bool-cases (c == 13 && d == 10)) [
    | inl z ↦ split_lines-ne-nil d t (rw (y, z) at e)
    | inr z ↦ cons (rw (y, z) at e)
  ]
  | inr n ↦ extended (split_lines (d ∷ t)) (rw n at e)
]
  where
    cons : {l : Text} {ls : List Text} → l ∷ ls ≢ []
    cons h = cc h

    extended : (ls : List Text) → extend_first c ls ≢ []
    extended [] h = cc h
    extended (l ∷ ls) h = cc h

-- The lines of a text that ends a line are followed by those of what is written after it.
pub split_lines-append :
    (s t : Text) → ends_line s ≡ true → split_lines (s ++ t) ≡ split_lines s ++ split_lines t
unfolding split_lines ends_line
split_lines-append [] t h = refl
split_lines-append (c ∷ []) t h = let e : c ≡ 10 = ==_eq c 10 h in rw e refl
split_lines-append (c ∷ d ∷ s) t h =
    let rest = split_lines-append (d ∷ s) t h in
    elim (Bool-cases (is_boundary c)) [
      | inl y ↦ elim (Bool-cases (c == 13 && d == 10)) [
        | inl z ↦ rw (y, z) rest
        | inr z ↦ rw (y, z) (ap (λ x. [] ∷ x) rest)
      ]
      | inr n ↦ rw n (
          ap (extend_first c) rest
          ∙ extend_first-append c (split_lines (d ∷ s)) (split_lines t) (split_lines-ne-nil d s))
    ]

pub ends_line-append : (s t : Text) → ends_line (s ++ (t ++ 10 ∷ [])) ≡ true
unfolding ends_line
ends_line-append [] [] = refl
ends_line-append [] (c ∷ []) = refl
ends_line-append [] (c ∷ d ∷ t) = ends_line-append [] (d ∷ t)
ends_line-append (c ∷ []) [] = refl
ends_line-append (c ∷ []) (d ∷ t) = ends_line-append [] (d ∷ t)
ends_line-append (c ∷ d ∷ s) t = ends_line-append (d ∷ s) t
