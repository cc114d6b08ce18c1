-- ===== src/Paper/Calls.antt =====
-- The calls of `PersistentPaperBroker` of asset_management/execution/paper.py. A call returns its
-- result and the account that is stored after it; a call that raises is rolled back.
use toss_trading_core.Prelude.{
  Bool, Option, Result, err, false, if◌then◌else◌, ltb, none, not, ok, require, some, true, ℕ, ◌*◌,
  ◌+◌, ◌-◌, ◌==◌, ◌>>=◌, ◌>>◌, ◌||◌,
}
use toss_trading_core.Paper.{
  Account, Checked, Fill, Given, Order, PaperError, RawRequest, Request, Side, buy,
  cancel_identity_conflict, canceled, currency_conflict, fee_exceeds_reserve, fill_conflict,
  fill_id_required, filled, find_existing, idempotency_conflict, insufficient_cash,
  insufficient_position, is_open, key_mismatch, known_side, limit_or_quantity, notional_agrees,
  number, open_order, order_identity, order_not_found, order_not_open, ownership_or_side,
  partially_filled, position, remaining, reserved_cash, reserved_position, sell,
  unsupported_order_type,
}
use toss_trading_core.Prelude.Dict.{get, put}
use toss_trading_core.Prelude.Int.{eq_ℤ, ltb_ℤ, pos, ℤ, ◌+ℤ◌, ◌-ℤ◌}

-- The checks of `submit_order` before the transaction.
unfoldable pub check_request : ℕ → RawRequest → Result PaperError Checked
unfolding number
check_request account raw = do
  require (not (raw.client_order_id == 0 || raw.order_intent_id == 0 || raw.instrument_id == 0))
      order_identity
  require (raw.account == account) ownership_or_side
  side ← known_side raw.side
  quantity ← number true raw.quantity
  price ← number true raw.limit_price
  fee ← number false raw.expected_fee
  require raw.limit_type unsupported_order_type
  notional_agrees raw.notional_amount (quantity * price)
  ok (record {
    request = record {
      body = raw.body;
      client_order_id = raw.client_order_id;
      order_intent_id = raw.order_intent_id;
      instrument_id = raw.instrument_id;
      side = side;
      quantity = quantity;
      limit_price = price;
    };
    fee = fee;
    currency = raw.currency;
  })

abbrev pub needed_cash : Side → Request → ℕ → ℕ
needed_cash buy r fee = r.quantity * r.limit_price + fee
needed_cash sell r fee = fee

abbrev pub lacks_position : Side → Request → Account → Bool
lacks_position buy r a = false
lacks_position sell r a =
    ltb_ℤ (position r.instrument_id a -ℤ reserved_position r.instrument_id a.orders)
      (pos r.quantity)

abbrev pub new_order : (ℕ → ℕ) → Request → ℕ → Order
new_order broker_id r fee = record {
  client_order_id = r.client_order_id;
  broker_order_id = broker_id r.client_order_id;
  status = open_order;
  filled_quantity = 0;
  remaining_fee = fee;
  request = r;
}

abbrev pub currency_differs : Option ℕ → ℕ → Bool
currency_differs none currency = false
currency_differs (some c) currency = not (c == currency)

-- The transaction of `submit_order` for a request that is not stored yet.
unfoldable pub submit_new : (ℕ → ℕ) → Checked → Account → Result PaperError Order × Account
unfolding position
submit_new broker_id c a =
    let r = c.request in
    if ltb_ℤ (a.cash -ℤ reserved_cash a.orders) (pos (needed_cash r.side r c.fee))
    then (err insufficient_cash, a)
    else if lacks_position r.side r a
    then (err insufficient_position, a)
    else let o = new_order broker_id r c.fee in
      (ok o, record a { orders = put r.client_order_id o a.orders })

unfoldable pub submit_checked : (ℕ → ℕ) → Checked → Account → Result PaperError Order × Account
unfolding submit_new
submit_checked broker_id c a =
    if currency_differs c.currency a.currency
    then (err currency_conflict, a)
    else elim (find_existing c.request a.orders) [
      | some o ↦ (if o.request.body == c.request.body then ok o else err idempotency_conflict, a)
      | none ↦ submit_new broker_id c a
    ]

-- `submit_order`; `broker_id` is the hash that names the order.
unfoldable pub submit_order : (ℕ → ℕ) → ℕ → RawRequest → Account → Result PaperError Order × Account
unfolding submit_checked
submit_order broker_id account raw a = elim (check_request account raw) [
  | err e ↦ (err e, a)
  | ok c ↦ submit_checked broker_id c a
]

-- `submit`
unfoldable pub submit : (ℕ → ℕ) → ℕ → RawRequest → ℕ → Account → Result PaperError Order × Account
unfolding submit_order
submit broker_id account raw key a =
    if raw.client_order_id == key
    then submit_order broker_id account raw a
    else (err key_mismatch, a)

-- `get_order_status`
unfoldable pub get_order_status : ℕ → Account → Result PaperError Order
get_order_status client a = elim (get client a.orders) [
  | none ↦ err order_not_found
  | some o ↦ ok o
]

abbrev pub canceled_order : Order → Order
canceled_order o = record o { status = canceled }

-- `cancel_order`: an order that is not open is returned as it is.
unfoldable pub cancel_order : ℕ → Account → Result PaperError Order × Account
unfolding is_open
cancel_order client a = elim (get client a.orders) [
  | none ↦ (err order_not_found, a)
  | some o ↦
      if is_open o.status
      then (ok (canceled_order o), record a { orders = put client (canceled_order o) a.orders })
      else (ok o, a)
]

-- `cancel`
unfoldable pub cancel : ℕ → ℕ → Account → Result PaperError Order × Account
unfolding cancel_order get_order_status
cancel broker key a = elim (get_order_status key a) [
  | err e ↦ (err e, a)
  | ok o ↦
      if o.broker_order_id == broker then cancel_order key a else (err cancel_identity_conflict, a)
]

-- The guards on quantity and price: no more than remains, and no worse than the limit.
abbrev pub worse_than_limit : Side → ℕ → ℕ → Bool
worse_than_limit buy price limit = ltb limit price
worse_than_limit sell price limit = ltb price limit

abbrev pub signed : Side → ℕ → ℤ
signed buy n = pos n
signed sell n = pos 0 -ℤ pos n

abbrev pub cash_after : Side → Fill → ℤ → ℤ
cash_after buy f cash = cash +ℤ (pos 0 -ℤ pos (f.quantity * f.price)) -ℤ pos f.fee
cash_after sell f cash = cash +ℤ pos (f.quantity * f.price) -ℤ pos f.fee

abbrev pub filled_order : Fill → Order → Order
filled_order f o = record o {
  filled_quantity = o.filled_quantity + f.quantity;
  remaining_fee = o.remaining_fee - f.fee;
  status = if eq_ℤ (pos f.quantity) (remaining o) then filled else partially_filled;
}

-- The update of the state by a fill that has passed the guards.
unfoldable pub apply_fill : Fill → Order → Account → Account
unfolding position
apply_fill f o a =
    let instrument = o.request.instrument_id in
    record a {
      cash = cash_after o.request.side f a.cash;
      positions =
          put instrument (position instrument a +ℤ signed o.request.side f.quantity) a.positions;
      orders = put f.client_order_id (filled_order f o) a.orders;
      fills = put f.fill_id f a.fills;
    }

unfoldable pub fill_order : Fill → Order → Account → Result PaperError Fill × Account
unfolding apply_fill is_open
fill_order f o a =
    if not (is_open o.status)
    then (err order_not_open, a)
    else if ltb_ℤ (remaining o) (pos f.quantity)
        || worse_than_limit o.request.side f.price o.request.limit_price
    then (err limit_or_quantity, a)
    else if ltb o.remaining_fee f.fee
    then (err fee_exceeds_reserve, a)
    else (ok f, apply_fill f o a)

-- The transaction of `record_fill`.
unfoldable pub record_checked : Fill → Account → Result PaperError Fill × Account
unfolding fill_order
record_checked f a = elim (get f.fill_id a.fills) [
  | some old ↦ (if old.body == f.body then ok old else err fill_conflict, a)
  | none ↦ elim (get f.client_order_id a.orders) [
    | none ↦ (err order_not_open, a)
    | some o ↦ fill_order f o a
  ]
]

-- The checks of `record_fill` before the transaction.
unfoldable pub check_fill : ℕ → ℕ → ℕ → Given → Given → Given → Result PaperError Fill
unfolding number
check_fill body fill_id client quantity price fee = do
  require (not (fill_id == 0)) fill_id_required
  q ← number true quantity
  p ← number true price
  f ← number false fee
  ok (record {
    body = body;
    fill_id = fill_id;
    client_order_id = client;
    quantity = q;
    price = p;
    fee = f;
  })

-- `record_fill`
unfoldable pub record_fill :
    ℕ → ℕ → ℕ → Given → Given → Given → Account → Result PaperError Fill × Account
unfolding record_checked
record_fill body fill_id client quantity price fee a =
    elim (check_fill body fill_id client quantity price fee) [
      | err e ↦ (err e, a)
      | ok f ↦ record_checked f a
    ]

-- `get_balances`: the cash, the reserved and the available cash.
unfoldable pub get_balances : Account → ℤ × ℤ × ℤ
get_balances a = (a.cash, reserved_cash a.orders, a.cash -ℤ reserved_cash a.orders)
