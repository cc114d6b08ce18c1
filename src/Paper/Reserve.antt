-- ===== src/Paper/Reserve.antt =====
-- The reservations of the paper broker as natural numbers, and how an update of one order moves them.
use toss_trading_core.Prelude.{
  Bool-cases, [], arith, if◌then◌else◌, inl, inr, none, refl, true, ℕ, ◌&&◌, ◌*◌, ◌+◌, ◌-◌, ◌==◌,
  ◌∷◌, ◌≡◌, ◌≤◌,
}
use toss_trading_core.Paper.{
  Order, Request, Side, buy, cash_of_side, filled, find_existing, is_open, order_cash,
  order_position, position_of_side, reserved_cash, reserved_position, sell,
}
use toss_trading_core.Prelude.Dict.{AllEntries, Dict, get, total}
use toss_trading_core.Prelude.Int.{pos, pos_add, pos_mul, pos_sub}

-- Nothing is filled beyond the order, a filled order is filled in full, and an order stands under
-- its own client id.
pub record OrderFits (key : ℕ) (o : Order) : Type 0 where
  pub within : o.filled_quantity ≤ o.request.quantity
  pub complete : o.status ≡ filled → o.filled_quantity ≡ o.request.quantity
  pub keyed : o.client_order_id ≡ key

abbrev pub reserve_of_side : Side → Order → ℕ
reserve_of_side buy o =
    (o.request.quantity - o.filled_quantity) * o.request.limit_price + o.remaining_fee
reserve_of_side sell o = o.remaining_fee

abbrev pub hold_of_side : Side → Order → ℕ
hold_of_side buy o = 0
hold_of_side sell o = o.request.quantity - o.filled_quantity

unfoldable pub order_reserve : Order → ℕ
unfolding is_open
order_reserve o = if is_open o.status then reserve_of_side o.request.side o else 0

unfoldable pub order_hold : ℕ → Order → ℕ
unfolding is_open
order_hold i o =
    if is_open o.status && o.request.instrument_id == i then hold_of_side o.request.side o else 0

module _ (o : Order) (within : o.filled_quantity ≤ o.request.quantity) where
  cash_of_side-pos : (s : Side) → cash_of_side s o ≡ pos (reserve_of_side s o)
  cash_of_side-pos buy = rw (pos_sub o.request.quantity o.filled_quantity within) (
      rw pos_mul (
        pos_add ((o.request.quantity - o.filled_quantity) * o.request.limit_price) o.remaining_fee))
  cash_of_side-pos sell = refl

  position_of_side-pos : (s : Side) → position_of_side s o ≡ pos (hold_of_side s o)
  position_of_side-pos buy = refl
  position_of_side-pos sell = pos_sub o.request.quantity o.filled_quantity within

  pub order_cash-pos : order_cash o ≡ pos (order_reserve o)
  unfolding order_cash order_reserve
  order_cash-pos = elim (Bool-cases (is_open o.status)) [
    | inl e ↦ rw e (cash_of_side-pos o.request.side)
    | inr e ↦ rw e
  ]

  pub order_position-pos : (i : ℕ) → order_position i o ≡ pos (order_hold i o)
  unfolding order_position order_hold
  order_position-pos i = elim (Bool-cases (is_open o.status && o.request.instrument_id == i)) [
    | inl e ↦ rw e (position_of_side-pos o.request.side)
    | inr e ↦ rw e
  ]

-- In sound orders the reserved cash and the reserved positions are sums of natural numbers.
pub reserved_cash-pos :
    (orders : Dict Order)
    → AllEntries OrderFits orders
    → reserved_cash orders ≡ pos (total order_reserve orders)
unfolding reserved_cash total
reserved_cash-pos [] a = refl
reserved_cash-pos ((k, o) ∷ orders) (h, a) =
    rw (order_cash-pos o h.within) (rw (reserved_cash-pos orders a) (pos_add _ _))

pub reserved_position-pos :
    (i : ℕ) (orders : Dict Order)
    → AllEntries OrderFits orders
    → reserved_position i orders ≡ pos (total (order_hold i) orders)
unfolding reserved_position total
reserved_position-pos i [] a = refl
reserved_position-pos i ((k, o) ∷ orders) (h, a) =
    rw (order_position-pos o h.within i) (rw (reserved_position-pos i orders a) (pos_add _ _))

-- A request that is not found has no entry under its client id.
pub find_existing-get :
    (r : Request) (orders : Dict Order)
    → AllEntries OrderFits orders
    → find_existing r orders ≡ none
    → get r.client_order_id orders ≡ none
unfolding find_existing get
find_existing-get r [] a h = refl
find_existing-get r ((k, o) ∷ orders) (p, a) h =
    ground (arith, p.keyed, find_existing-get r orders a)

-- An open order reserves by its side, and any other order no more than that.
module _ (o : Order) where
  pub order_reserve-le : order_reserve o ≤ reserve_of_side o.request.side o
  unfolding order_reserve
  order_reserve-le = ground arith

  pub order_reserve-live :
      is_open o.status ≡ true → order_reserve o ≡ reserve_of_side o.request.side o
  unfolding order_reserve
  order_reserve-live e = rw e

  abbrev pub hold_at : ℕ → ℕ
  hold_at i = if o.request.instrument_id == i then hold_of_side o.request.side o else 0

  pub order_hold-le : (i : ℕ) → order_hold i o ≤ hold_at i
  unfolding order_hold
  order_hold-le i = ground arith

  pub order_hold-live : (i : ℕ) → is_open o.status ≡ true → order_hold i o ≡ hold_at i
  unfolding order_hold
  order_hold-live i e = rw e

-- A fill at no more than the limit costs no more than was reserved for it.
pub fill_cost-le :
    (left q p limit : ℕ) → q ≤ left → p ≤ limit → (left - q) * limit + q * p ≤ left * limit
fill_cost-le left q p limit h k = grind arith
