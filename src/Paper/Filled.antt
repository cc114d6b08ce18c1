-- ===== src/Paper/Filled.antt =====
-- What a fill that has passed the guards does to its order, and to the reservations.
use toss_trading_core.Prelude.{
  arith, false, if◌then◌else◌, ltb, ltb_ge, subst, true, ℕ, ◌*◌, ◌+◌, ◌-◌, ◌≡◌, ◌≤◌,
}
use toss_trading_core.Paper.{
  Fill, Order, Side, buy, filled, is_open, partially_filled, remaining, sell,
}
use toss_trading_core.Paper.Calls.{filled_order, worse_than_limit}
use toss_trading_core.Paper.Reserve.{
  OrderFits, fill_cost-le, hold_of_side, order_hold, order_hold-le, order_hold-live, order_reserve,
  order_reserve-le, order_reserve-live, reserve_of_side,
}
use toss_trading_core.Prelude.Int.{eq_ℤ, ltb_ℤ, pos, pos_sub}

module _ (f : Fill) (o : Order) (key : ℕ) (h : OrderFits key o) (is_live : is_open o.status ≡ true)
    (fits : ltb_ℤ (remaining o) (pos f.quantity) ≡ false)
    (fee_fits : ltb o.remaining_fee f.fee ≡ false) where
  abbrev left : ℕ
  left = o.request.quantity - o.filled_quantity

  remaining-pos : remaining o ≡ pos left
  remaining-pos = pos_sub o.request.quantity o.filled_quantity h.within

  quantity-le-left : f.quantity ≤ left
  quantity-le-left =
      let g : ltb_ℤ (pos left) (pos f.quantity) ≡ false =
        subst (λ z. ltb_ℤ z (pos f.quantity) ≡ false) remaining-pos fits in
      ground (arith, g)

  fee-le : f.fee ≤ o.remaining_fee
  fee-le = ltb_ge o.remaining_fee f.fee fee_fits

  status-filled : (filled_order f o).status ≡ filled → f.quantity ≡ left
  status-filled e =
      let g : (if eq_ℤ (pos f.quantity) (pos left) then filled else partially_filled) ≡ filled =
        subst (λ z. (if eq_ℤ (pos f.quantity) z then filled else partially_filled) ≡ filled)
          remaining-pos e in
      ground (arith, g)

  pub filled_order-OrderFits : OrderFits key (filled_order f o)
  filled_order-OrderFits = record {
    within = omega (arith, quantity-le-left, h.within);
    complete = λ e. omega (arith, status-filled e, h.within);
    keyed = h.keyed;
  }

  left-filled : o.request.quantity - (o.filled_quantity + f.quantity) ≡ left - f.quantity
  left-filled = omega arith

  reserve-buy :
      (s : Side)
      → s ≡ buy
      → worse_than_limit s f.price o.request.limit_price ≡ false
      → reserve_of_side s (filled_order f o) + f.quantity * f.price + f.fee ≤ reserve_of_side s o
  reserve-buy buy e w = rw left-filled (
      omega (
        arith,
        fee-le,
        fill_cost-le left f.quantity f.price o.request.limit_price quantity-le-left
            (ltb_ge o.request.limit_price f.price w),
      ))
  reserve-buy sell e w = cc

  reserve-sell :
      (s : Side) → s ≡ sell → reserve_of_side s (filled_order f o) + f.fee ≤ reserve_of_side s o
  reserve-sell buy e = cc
  reserve-sell sell e = omega (arith, fee-le)

  hold-filled : (s : Side) → hold_of_side s (filled_order f o) ≤ hold_of_side s o
  hold-filled buy = omega arith
  hold-filled sell = omega (arith, left-filled)

  hold-sell :
      (s : Side) → s ≡ sell → hold_of_side s (filled_order f o) + f.quantity ≤ hold_of_side s o
  hold-sell buy e = cc
  hold-sell sell e = omega (arith, left-filled, quantity-le-left)

  -- A buy fill frees at least what it costs, a sell fill at least its fee.
  pub order_reserve-buy :
      o.request.side ≡ buy
      → worse_than_limit o.request.side f.price o.request.limit_price ≡ false
      → order_reserve (filled_order f o) + f.quantity * f.price + f.fee ≤ order_reserve o
  order_reserve-buy e w = omega (
    arith,
    order_reserve-le (filled_order f o),
    order_reserve-live o is_live,
    reserve-buy o.request.side e w,
  )

  pub order_reserve-sell :
      o.request.side ≡ sell → order_reserve (filled_order f o) + f.fee ≤ order_reserve o
  order_reserve-sell e = omega (
    arith,
    order_reserve-le (filled_order f o),
    order_reserve-live o is_live,
    reserve-sell o.request.side e,
  )

  -- A fill holds no more of any instrument, and a sell fill less by its quantity.
  pub order_hold-filled : (i : ℕ) → order_hold i (filled_order f o) ≤ order_hold i o
  order_hold-filled i = ground (
    arith,
    order_hold-le (filled_order f o) i,
    order_hold-live o i is_live,
    hold-filled o.request.side,
  )

  pub order_hold-sell :
      o.request.side ≡ sell
      → order_hold o.request.instrument_id (filled_order f o) + f.quantity
        ≤ order_hold o.request.instrument_id o
  order_hold-sell e = ground (
    arith,
    order_hold-le (filled_order f o) o.request.instrument_id,
    order_hold-live o o.request.instrument_id is_live,
    hold-sell o.request.side e,
  )
