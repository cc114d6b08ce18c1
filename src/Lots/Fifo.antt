-- ===== src/Lots/Fifo.antt =====
-- The plan of a disposal is the first-in first-out one.
use toss_trading_core.Prelude.{
  ==_eq, Bool-cases, List, Result, [], arith, err, false, inl, inr, leb, leb_le, ltb, min, ok,
  subst, true, ℕ, ◌-◌, ◌<◌, ◌==◌, ◌∷◌, ◌≡◌, ◌≤◌,
}
use toss_trading_core.Lots.{LotError, TaxLot}
use toss_trading_core.Lots.Dispose.{available, plan_fifo, put_plan}

-- First in, first out, told without the loop: an empty lot gives nothing, a lot that is not enough
-- gives all that it has, and the lot that is enough gives the rest and is the last.
pub data Fifo : ℕ → List TaxLot → List (ℕ × ℕ) → Type 0 where
  passed :
      {q : ℕ} {lot : TaxLot} {lots : List TaxLot} {plans : List (ℕ × ℕ)}
      → available lot.remaining_quantity ≡ 0
      → Fifo q lots plans
      → Fifo q (lot ∷ lots) plans
  emptied :
      {q : ℕ} {lot : TaxLot} {lots : List TaxLot} {plans : List (ℕ × ℕ)}
      → available lot.remaining_quantity < q
      → Fifo (q - available lot.remaining_quantity) lots plans
      → Fifo q (lot ∷ lots) ((lot.row.lot_id, available lot.remaining_quantity) ∷ plans)
  sufficed :
      {q : ℕ} {lot : TaxLot} {lots : List TaxLot}
      → q ≤ available lot.remaining_quantity
      → Fifo q (lot ∷ lots) ((lot.row.lot_id, q) ∷ [])

-- A plan that leaves nothing to take.
abbrev pub IsFifo : ℕ → List TaxLot → Result LotError (List (ℕ × ℕ) × ℕ) → Type 0
IsFifo q lots (err e) = Unit
IsFifo q lots (ok (plans, rest)) = rest ≡ 0 → Fifo q lots plans

put_plan-IsFifo :
    (q : ℕ) (lot : TaxLot) (lots : List TaxLot) (x : Result LotError (List (ℕ × ℕ) × ℕ))
    → available lot.remaining_quantity < q
    → IsFifo (q - available lot.remaining_quantity) lots x
    → IsFifo q (lot ∷ lots) (put_plan lot.row.lot_id (available lot.remaining_quantity) x)
put_plan-IsFifo q lot lots (err e) h f = tt
put_plan-IsFifo q lot lots (ok (plans, rest)) h f = λ z. emptied h (f z)

passed-IsFifo :
    (q : ℕ) (lot : TaxLot) (lots : List TaxLot) (x : Result LotError (List (ℕ × ℕ) × ℕ))
    → available lot.remaining_quantity ≡ 0
    → IsFifo q lots x
    → IsFifo q (lot ∷ lots) x
passed-IsFifo q lot lots (err e) h f = tt
passed-IsFifo q lot lots (ok (plans, rest)) h f = λ z. passed h (f z)

-- One round of the loop, with the number that the lot can give.
round-IsFifo :
    (day q : ℕ) (lot : TaxLot) (lots : List TaxLot)
    → 0 < q
    → ((r : ℕ) → 0 < r → IsFifo r lots (plan_fifo day r lots))
    → IsFifo q (lot ∷ lots) (plan_fifo day q (lot ∷ lots))
unfolding plan_fifo
round-IsFifo day q lot lots h rest =
    let n = available lot.remaining_quantity in
    elim (Bool-cases (ltb day lot.row.acquisition_date)) [
      | inl y ↦ rw y tt
      | inr b ↦ elim (Bool-cases (n == 0)) [
        | inl z ↦
            let e : n ≡ 0 = ==_eq n 0 z in
            let m : min q n ≡ 0 = omega arith in
            rw (b, m)
              (subst (λ r. IsFifo q (lot ∷ lots) (plan_fifo day r lots)) (omega arith)
                (passed-IsFifo q lot lots (plan_fifo day q lots) e (rest q h)))
        | inr z ↦ elim (Bool-cases (leb q n)) [
          | inl s ↦
              let m : min q n ≡ q = ground arith in
              let k : (q == 0) ≡ false = ground arith in
              let k' : (q - q == 0) ≡ true = ground arith in
              rw (b, m, k, k') (λ _. sufficed (leb_le q n s))
          | inr s ↦
              let m : min q n ≡ n = ground arith in
              let k : (q - n == 0) ≡ false = ground arith in
              rw (b, m, z, k)
                (put_plan-IsFifo q lot lots (plan_fifo day (q - n) lots) (ground arith)
                  (rest (q - n) (ground arith)))
        ]
      ]
    ]

-- A plan that the loop completes takes the lots first in, first out, each in full before the next.
pub plan_fifo-IsFifo :
    (day q : ℕ) (lots : List TaxLot) → 0 < q → IsFifo q lots (plan_fifo day q lots)
plan_fifo-IsFifo day q [] h = unfold plan_fifo in λ z. let k : ⊥ = omega arith in absurd k
plan_fifo-IsFifo day q (lot ∷ lots) h =
    round-IsFifo day q lot lots h (λ r k. plan_fifo-IsFifo day r lots k)
