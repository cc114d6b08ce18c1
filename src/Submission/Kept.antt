-- ===== src/Submission/Kept.antt =====
-- Rows of `submission` stay with their identity; only their state changes.
use toss_trading_core.Prelude.{
  ==_eq, ==_refl, Bool-cases, Option-cases, [], ap, arith, if◌then◌else◌, inl, inr, none, refl,
  some, some_inj, sym, ℕ, ◌==◌, ◌||◌, ◌∙◌, ◌∷◌, ◌≡◌, ◌≢◌,
}
use toss_trading_core.Prelude.Dict.{Dict, get, get-put, put}
use toss_trading_core.Submission.{
  Evidence, Journal, Reason, Row, SubmissionState, claimed_at, durable_before_submit, find_taken,
  record_state, set_state, submitting,
}
use toss_trading_core.Submission.Calls.{insert_row}

-- Every row stays under its key, the same but for its state.
abbrev pub Kept : Dict Row → Dict Row → Type 0
Kept rows rows' =
    (k : ℕ) (r : Row)
    → get k rows ≡ some r
    → (s : SubmissionState) × (get k rows' ≡ some (record r { state = s }))

pub Kept-refl : (rows : Dict Row) → Kept rows rows
Kept-refl rows k r h = (r.state, h)

pub Kept-trans : (a b c : Dict Row) → Kept a b → Kept b c → Kept a c
Kept-trans a b c p q k r h = let (s, e) = p k r h in q k (record r { state = s }) e

abbrev with_state : SubmissionState → Row → Row
with_state s r = record r { state = s }

put_state-Kept :
    (client : ℕ) (q : Row) (s : SubmissionState) (rows : Dict Row)
    → get client rows ≡ some q
    → Kept rows (put client (with_state s q) rows)
put_state-Kept client q s rows e k r h = elim (Bool-cases (client == k)) [
  | inl same ↦
      let n : client ≡ k = ==_eq client k same in
      let m : q ≡ r = some_inj (sym e ∙ ap (λ i. get i rows) n ∙ h) in
      (
        s,
        get-put k client (with_state s q) rows
            ∙ ap (λ b. if b then some (with_state s q) else get k rows) same
            ∙ ap (λ x. some (with_state s x)) m,
      )
  | inr other ↦ (
    r.state,
    get-put k client (with_state s q) rows
        ∙ ap (λ b. if b then some (with_state s q) else get k rows) other
        ∙ h,
  )
]

set_state-Kept :
    (client : ℕ) (s : SubmissionState) (rows : Dict Row) → Kept rows (set_state client s rows)
unfolding set_state
set_state-Kept client s rows = elim (Option-cases (get client rows)) [
  | inl e ↦ rw (e, set_state) (Kept-refl rows)
  | inr (q, e) ↦ rw (e, set_state) (put_state-Kept client q s rows e)
]

pub record_state-Kept :
    (client : ℕ) (s : SubmissionState) (reason : Reason) (e : Evidence) (j : Journal)
    → Kept j.rows (record_state client s reason e j).1.rows
unfolding record_state
record_state-Kept client s reason e j = set_state-Kept client s j.rows

-- A free key is no key of a row.
put_new-Kept :
    (client : ℕ) (v : Row) (rows : Dict Row)
    → get client rows ≡ none
    → Kept rows (put client v rows)
put_new-Kept client v rows e k r h = elim (Bool-cases (client == k)) [
  | inl same ↦
      let n : client ≡ k = ==_eq client k same in
      let m : none ≡ some r = sym e ∙ ap (λ i. get i rows) n ∙ h in cc m
  | inr other ↦
      (r.state, get-put k client v rows ∙ ap (λ b. if b then some v else get k rows) other ∙ h)
]

pub find_taken-none :
    (client economic : ℕ) (rows : Dict Row) (k : ℕ) (r : Row)
    → find_taken client economic rows ≡ none
    → get k rows ≡ some r
    → (client ≢ k) × (economic ≢ r.economic_key)
unfolding find_taken get
find_taken-none client economic [] k r f h = cc h
find_taken-none client economic ((j, q) ∷ rows) k r f h =
    let rest = find_taken-none client economic rows k r in
    elim (Bool-cases (j == client || q.economic_key == economic)) [
      | inl y ↦ let m : some q ≡ none = rw y at f in cc m
      | inr n ↦ elim (Bool-cases (j == k)) [
        | inl same ↦
            let e : q ≡ r = some_inj (rw same at h) in (λ x. ground arith, λ x. ground arith)
        | inr other ↦ rest (rw n at f) (rw other at h)
      ]
    ]

pub find_taken-free :
    (client economic : ℕ) (rows : Dict Row)
    → find_taken client economic rows ≡ none
    → get client rows ≡ none
find_taken-free client economic rows f = elim (Option-cases (get client rows)) [
  | inl e ↦ e
  | inr (r, e) ↦ absurd ((find_taken-none client economic rows client r f e).0 refl)
]

-- A row that is stored, in whatever state.
abbrev pub Known : Row → Journal → Type 0
Known r j = (s : SubmissionState) × (get r.client j.rows ≡ some (record r { state = s }))

pub Known-Kept : (r : Row) (j j' : Journal) → Known r j → Kept j.rows j'.rows → Known r j'
Known-Kept r j j' (s, e) k = k r.client (record r { state = s }) e

pub insert_row-Kept :
    (r : Row) (at : ℕ) (j : Journal)
    → get r.client j.rows ≡ none
    → Kept j.rows (insert_row r at j).rows
unfolding insert_row
insert_row-Kept r at j e =
    Kept-trans j.rows (put r.client r j.rows) _ (put_new-Kept r.client r j.rows e) (
      record_state-Kept r.client submitting durable_before_submit (claimed_at at)
        (record j { rows = put r.client r j.rows }))

pub insert_row-Known : (r : Row) (at : ℕ) (j : Journal) → Known r (insert_row r at j)
unfolding insert_row
insert_row-Known r at j =
    record_state-Kept r.client submitting durable_before_submit (claimed_at at)
      (record j { rows = put r.client r j.rows }) r.client r
      (get-put r.client r.client r j.rows
        ∙ ap (λ b. if b then some r else get r.client j.rows) (==_refl r.client))
