-- ===== src/Paper/Sound.antt =====
-- The paper broker never promises what it does not have: the reserved cash is covered by the cash,
-- and the reserved part of each position by the position.
use toss_trading_core.Prelude.{
  ==_eq, ==_refl, Bool-cases, arith, false, inl, inr, none, refl, subst, sym, ℕ, ◌+◌, ◌-◌, ◌==◌,
  ◌≡◌,
}
use toss_trading_core.Paper.{
  Account, Order, Request, Side, buy, position, reserved_cash, reserved_position, sell,
}
use toss_trading_core.Paper.Calls.{lacks_position, needed_cash, new_order}
use toss_trading_core.Paper.Reserve.{
  OrderFits, hold_of_side, order_hold, order_reserve, reserve_of_side, reserved_cash-pos,
  reserved_position-pos,
}
use toss_trading_core.Prelude.Dict.{AllEntries, get, put, put-AllEntries, total, total-put_new}
use toss_trading_core.Prelude.Int.{ltb_ℤ, pos, sub_parts, ◌-ℤ◌, ◌≤ℤ◌}

pub record IsSound (a : Account) : Type 0 where
  pub orders_sound : AllEntries OrderFits a.orders
  pub funded : reserved_cash a.orders ≤ℤ a.cash
  pub covered : (i : ℕ) → reserved_position i a.orders ≤ℤ position i a

-- What `IsSound` says in natural numbers.
module _ (a : Account) (s : IsSound a) where
  pub funded_total : pos (total order_reserve a.orders) ≤ℤ a.cash
  funded_total = subst (λ r. r ≤ℤ a.cash) (reserved_cash-pos a.orders s.orders_sound) s.funded

  pub covered_total : (i : ℕ) → pos (total (order_hold i) a.orders) ≤ℤ position i a
  covered_total i =
      subst (λ r. r ≤ℤ position i a) (reserved_position-pos i a.orders s.orders_sound) (s.covered i)

  -- Cash and positions are never negative.
  pub cash_nonneg : pos 0 ≤ℤ a.cash
  cash_nonneg = omega (arith, funded_total)

  pub position_nonneg : (i : ℕ) → pos 0 ≤ℤ position i a
  position_nonneg i = omega (arith, covered_total i)

-- To show soundness in natural numbers.
pub IsSound-of_totals :
    (a : Account)
    → AllEntries OrderFits a.orders
    → pos (total order_reserve a.orders) ≤ℤ a.cash
    → ((i : ℕ) → pos (total (order_hold i) a.orders) ≤ℤ position i a)
    → IsSound a
IsSound-of_totals a os f c = record {
  orders_sound = os;
  funded = subst (λ r. r ≤ℤ a.cash) (sym (reserved_cash-pos a.orders os)) f;
  covered = λ i. subst (λ r. r ≤ℤ position i a) (sym (reserved_position-pos i a.orders os)) (c i);
}

reserve-new :
    (side : Side) (broker_id : ℕ → ℕ) (r : Request) (fee : ℕ)
    → reserve_of_side side (new_order broker_id r fee) ≡ needed_cash side r fee
reserve-new buy broker_id r fee = let e : r.quantity - 0 ≡ r.quantity = omega arith in rw e
reserve-new sell broker_id r fee = refl

-- What is free of a position covers what a new order holds of it.
hold-new :
    (side : Side) (broker_id : ℕ → ℕ) (r : Request) (fee : ℕ) (a : Account)
    → IsSound a
    → lacks_position side r a ≡ false
    → pos (
        total (order_hold r.instrument_id) a.orders + hold_of_side side (new_order broker_id r fee))
      ≤ℤ position r.instrument_id a
hold-new buy broker_id r fee a s h = omega (arith, covered_total a s r.instrument_id)
hold-new sell broker_id r fee a s h =
    let i = r.instrument_id in
    let e = reserved_position-pos i a.orders s.orders_sound in
    let h' : ltb_ℤ (position i a -ℤ pos (total (order_hold i) a.orders)) (pos r.quantity) ≡ false =
      subst (λ z. ltb_ℤ (position i a -ℤ z) (pos r.quantity) ≡ false) e h in
    ground (arith, sub_parts (position i a) (pos (total (order_hold i) a.orders)))

-- A new order reserves what was found free.
module _ (broker_id : ℕ → ℕ) (r : Request) (fee : ℕ) (a : Account) (s : IsSound a)
    (fresh : get r.client_order_id a.orders ≡ none)
    (cash_free : ltb_ℤ (a.cash -ℤ reserved_cash a.orders) (pos (needed_cash r.side r fee)) ≡ false)
    (position_free : lacks_position r.side r a ≡ false) where
  abbrev placed : Order
  placed = new_order broker_id r fee

  new_order-OrderFits : OrderFits r.client_order_id placed
  new_order-OrderFits = record { within = omega arith; complete = λ e. cc e; keyed = refl }

  order_reserve-placed : order_reserve placed ≡ needed_cash r.side r fee
  unfolding order_reserve
  order_reserve-placed = reserve-new r.side broker_id r fee

  order_hold-placed : order_hold r.instrument_id placed ≡ hold_of_side r.side placed
  unfolding order_hold
  order_hold-placed = rw (==_refl r.instrument_id)

  order_hold-other : (i : ℕ) → (r.instrument_id == i) ≡ false → order_hold i placed ≡ 0
  unfolding order_hold
  order_hold-other i other = rw other

  funded_new : pos (total order_reserve (put r.client_order_id placed a.orders)) ≤ℤ a.cash
  funded_new =
      let n = needed_cash r.side r fee in
      let t = total order_reserve a.orders in
      let free : ltb_ℤ (a.cash -ℤ pos t) (pos n) ≡ false =
        subst (λ z. ltb_ℤ (a.cash -ℤ z) (pos n) ≡ false) (reserved_cash-pos a.orders s.orders_sound)
          cash_free in
      ground (
        arith,
        total-put_new order_reserve r.client_order_id placed a.orders fresh,
        order_reserve-placed,
        sub_parts a.cash (pos t),
        free,
      )

  covered_same :
      pos (total (order_hold r.instrument_id) (put r.client_order_id placed a.orders))
      ≤ℤ position r.instrument_id a
  covered_same = omega (
    arith,
    hold-new r.side broker_id r fee a s position_free,
    total-put_new (order_hold r.instrument_id) r.client_order_id placed a.orders fresh,
    order_hold-placed,
  )

  covered_new :
      (i : ℕ) → pos (total (order_hold i) (put r.client_order_id placed a.orders)) ≤ℤ position i a
  covered_new i = elim (Bool-cases (r.instrument_id == i)) [
    | inl same ↦
        subst
          (λ j. pos (total (order_hold j) (put r.client_order_id placed a.orders)) ≤ℤ position j a)
          (==_eq r.instrument_id i same) covered_same
    | inr other ↦ omega (
      arith,
      covered_total a s i,
      total-put_new (order_hold i) r.client_order_id placed a.orders fresh,
      order_hold-other i other,
    )
  ]

  pub submit_new-IsSound : IsSound (record a { orders = put r.client_order_id placed a.orders })
  unfolding position
  submit_new-IsSound =
      IsSound-of_totals (record a { orders = put r.client_order_id placed a.orders })
        (put-AllEntries OrderFits r.client_order_id placed a.orders s.orders_sound
          new_order-OrderFits)
        funded_new covered_new
