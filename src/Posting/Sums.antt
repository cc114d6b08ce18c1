-- ===== src/Posting/Sums.antt =====
-- What the writes of a posting add to the cash and to the position of its account.
use toss_trading_core.Prelude.{
  ==_eq, Bool-cases, ap, arith, bind_ok, err, inl, inr, is_some, ok, ok_inj, refl, subst, sym, true,
  ℕ, ◌&&◌, ◌==◌, ◌||◌, ◌∙◌, ◌≡◌, ◌⊎◌,
}
use toss_trading_core.Executions.{ExecutionDelta}
use toss_trading_core.Ledger.Balance.{cash_sum}
use toss_trading_core.Ledger.Cash.{CashTables}
use toss_trading_core.Ledger.CashEvents.{find_cash_event}
use toss_trading_core.Ledger.Holdings.{move_sum}
use toss_trading_core.Ledger.PositionState.{find_settlement}
use toss_trading_core.Ledger.Positions.{PositionTables}
use toss_trading_core.Lots.{Tables}
use toss_trading_core.Posting.{
  Books, Component, Side, buy, commission_part, principal, row_exists, sell, tax_part,
}
use toss_trading_core.Posting.Context.{Outside, PostingContext}
use toss_trading_core.Posting.Write.{
  add_cash, add_position, component_taken, has_position, quantity_of, signed_amount, write_cash,
  write_lots, write_position,
}
use toss_trading_core.Prelude.Int.{int_laws, pos, ℤ, ◌+ℤ◌, ◌-ℤ◌}
use toss_trading_core.Prelude.Sorted.{sum_if}

-- The sum of the cash rows of an account and a currency, and of the position rows of an account and
-- an instrument.
abbrev pub cash_in : PostingContext → CashTables → ℤ
cash_in ctx t =
    cash_sum (λ r. r.account_id == ctx.account_id && r.currency == ctx.currency) t.ledger

abbrev pub cash_total : PostingContext → Books → ℤ
cash_total ctx b = cash_in ctx b.cash

abbrev pub shares_in : PostingContext → PositionTables → ℤ
shares_in ctx t =
    move_sum (λ r. r.account_id == ctx.account_id && r.instrument_id == ctx.instrument_id)
      t.position_rows

abbrev pub share_total : PostingContext → Books → ℤ
share_total ctx b = shares_in ctx b.shares

-- The books after a step have this much more cash and this many more shares.
pub record Adds (ctx : PostingContext) (b b' : Books) (dc dq : ℤ) : Type 0 where
  pub cash_added : cash_total ctx b' ≡ dc +ℤ cash_total ctx b
  pub shares_added : share_total ctx b' ≡ dq +ℤ share_total ctx b

pub zero_add : (x : ℤ) → x ≡ pos 0 +ℤ x
zero_add x = omega int_laws

signed_zero : (c : Component) (s : Side) → signed_amount c s 0 ≡ pos 0
unfolding ◌-ℤ◌
signed_zero principal buy = refl
signed_zero principal sell = refl
signed_zero commission_part s = refl
signed_zero tax_part s = refl

both_same : (a b : ℕ) → (a == a && b == b) ≡ true
both_same a b = ground arith

nothing-Adds :
    (ctx : PostingContext) (b : Books) (dc dq : ℤ) → dc ≡ pos 0 → dq ≡ pos 0 → Adds ctx b b dc dq
nothing-Adds ctx b dc dq x y = record {
  cash_added = zero_add (cash_total ctx b) ∙ ap (λ z. z +ℤ cash_total ctx b) (sym x);
  shares_added = zero_add (share_total ctx b) ∙ ap (λ z. z +ℤ share_total ctx b) (sym y);
}

add_cash-Adds :
    (out : Outside) (c : Component) (ctx : PostingContext) (delta n at : ℕ) (b : Books)
    → Adds ctx b (add_cash out c ctx delta n at b) (signed_amount c ctx.side n) (pos 0)
unfolding sum_if
add_cash-Adds out c ctx delta n at b = record {
  cash_added = rw (both_same ctx.account_id ctx.currency) refl;
  shares_added = zero_add (share_total ctx b);
}

pub write_cash-Adds :
    (out : Outside) (c : Component) (ctx : PostingContext) (delta n at : ℕ) (b b' : Books)
    → write_cash out c ctx delta n at b ≡ ok b'
    → Adds ctx b b' (signed_amount c ctx.side n) (pos 0)
unfolding write_cash
write_cash-Adds out c ctx delta n at b b' h = elim (Bool-cases (n == 0)) [
  | inl z ↦
      let e : b ≡ b' = ok_inj (rw z at h) in
      let k : n ≡ 0 = ==_eq n 0 z in
      subst (λ x. Adds ctx b x (signed_amount c ctx.side n) (pos 0)) e
        (nothing-Adds ctx b (signed_amount c ctx.side n) (pos 0)
          (ap (signed_amount c ctx.side) k ∙ signed_zero c ctx.side) refl)
  | inr z ↦
      elim (Bool-cases (
        is_some (find_cash_event (out.cash_name c delta) b.cash.ledger)
        || component_taken delta c (out.cash_name c delta) b.components)) [
          | inl y ↦ let k : err row_exists ≡ ok b' = rw (z, y) at h in cc k
          | inr y ↦
              let e : add_cash out c ctx delta n at b ≡ b' = ok_inj (rw (z, y) at h) in
              subst (λ x. Adds ctx b x (signed_amount c ctx.side n) (pos 0)) e
                (add_cash-Adds out c ctx delta n at b)
        ]
]

quantity_zero : (s : Side) → quantity_of s 0 ≡ pos 0
unfolding ◌-ℤ◌
quantity_zero buy = refl
quantity_zero sell = refl

add_position-Adds :
    (out : Outside) (ctx : PostingContext) (d : ExecutionDelta) (at : ℕ) (lots : Tables) (b : Books)
    → Adds ctx b (add_position out ctx d at lots b) (pos 0) (quantity_of ctx.side d.values.quantity)
unfolding sum_if
add_position-Adds out ctx d at lots b = record {
  cash_added = zero_add (cash_total ctx b);
  shares_added = rw (both_same ctx.account_id ctx.instrument_id) refl;
}

-- The lots that a position was written with.
pub record LotsWritten (out : Outside) (ctx : PostingContext) (d : ExecutionDelta) (at : ℕ)
    (b b' : Books) : Type 0 where
  pub lots : Tables
  pub written : write_lots out ctx.side ctx d at b.shares.lot_tables ≡ ok lots
  pub stored : b' ≡ add_position out ctx d at lots b

-- A position that was written: nothing for no quantity, else a row with its lots.
pub write_position-cases :
    (out : Outside) (ctx : PostingContext) (d : ExecutionDelta) (at : ℕ) (b b' : Books)
    → write_position out ctx d at b ≡ ok b'
    → ((d.values.quantity ≡ 0) × (b' ≡ b)) ⊎ LotsWritten out ctx d at b b'
unfolding write_position
write_position-cases out ctx d at b b' h = elim (Bool-cases (d.values.quantity == 0)) [
  | inl z ↦ inl (==_eq _ 0 z, sym (ok_inj (rw z at h)))
  | inr z ↦
      elim (Bool-cases (
        has_position (out.position_name d.execution_delta_id) b.shares.position_rows
        || is_some
            (find_settlement (out.position_name d.execution_delta_id) b.shares.settlements))) [
              | inl y ↦ let k : err row_exists ≡ ok b' = rw (z, y) at h in cc k
              | inr y ↦
                  let (lots, w, r) =
                    bind_ok (write_lots out ctx.side ctx d at b.shares.lot_tables)
                      (λ lots. ok (add_position out ctx d at lots b)) b' (rw (z, y) at h) in
                  inr (record { lots = lots; written = w; stored = sym (ok_inj r) })
            ]
]

pub write_position-Adds :
    (out : Outside) (ctx : PostingContext) (d : ExecutionDelta) (at : ℕ) (b b' : Books)
    → write_position out ctx d at b ≡ ok b'
    → Adds ctx b b' (pos 0) (quantity_of ctx.side d.values.quantity)
write_position-Adds out ctx d at b b' h = elim (write_position-cases out ctx d at b b' h) [
  | inl (z, e) ↦
      subst (λ x. Adds ctx b x (pos 0) (quantity_of ctx.side d.values.quantity)) (sym e)
        (nothing-Adds ctx b (pos 0) (quantity_of ctx.side d.values.quantity) refl
          (ap (quantity_of ctx.side) z ∙ quantity_zero ctx.side))
  | inr w ↦
      subst (λ x. Adds ctx b x (pos 0) (quantity_of ctx.side d.values.quantity)) (sym w.stored)
        (add_position-Adds out ctx d at w.lots b)
]
