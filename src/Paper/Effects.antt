-- ===== src/Paper/Effects.antt =====
-- What an accepted fill of the paper broker moves, and what a repeated submission does not.
use toss_trading_core.Prelude.{
  ==_refl, Bool-cases, List, Option, Option-cases, Result, ap, arith, err, false, inl, inr, ltb_ge,
  none, ok, refl, some, subst, sym, true, ℕ, ◌*◌, ◌+◌, ◌-◌, ◌==◌, ◌∙◌, ◌≡◌, ◌≤◌,
}
use toss_trading_core.Paper.{
  Account, Checked, Fill, Order, PaperError, RawRequest, Side, buy, find_existing, is_open,
  order_not_open, position, remaining, sell,
}
use toss_trading_core.Paper.Calls.{
  apply_fill, cash_after, check_request, currency_differs, fill_order, record_checked, signed,
  submit_checked, submit_order, worse_than_limit,
}
use toss_trading_core.Paper.Entries.{Persists}
use toss_trading_core.Paper.Keeps.{position-apply_fill}
use toss_trading_core.Paper.Reserve.{OrderFits, find_existing-get}
use toss_trading_core.Paper.Runs.{Call, run, run-IsSound, run-Persists}
use toss_trading_core.Paper.Sound.{IsSound}
use toss_trading_core.Prelude.Dict.{get, get-AllEntries, get-put}
use toss_trading_core.Prelude.Int.{int_laws, ltb_ℤ, pos, pos_sub, ◌+ℤ◌}

-- The code's account of a fill that is booked on order `o`.
pub record Booked (f : Fill) (o : Order) (a a' : Account) : Type 0 where
  pub bought :
      o.request.side ≡ buy
      → (a'.cash +ℤ pos (f.quantity * f.price) +ℤ pos f.fee ≡ a.cash)
        × (f.price ≤ o.request.limit_price)
        × (position o.request.instrument_id a'
            ≡ position o.request.instrument_id a +ℤ pos f.quantity)
  pub sold :
      o.request.side ≡ sell
      → (a'.cash +ℤ pos f.fee ≡ a.cash +ℤ pos (f.quantity * f.price))
        × (o.request.limit_price ≤ f.price)
        × (position o.request.instrument_id a' +ℤ pos f.quantity
            ≡ position o.request.instrument_id a)
  pub elsewhere : (i : ℕ) → (o.request.instrument_id == i) ≡ false → position i a' ≡ position i a
  pub within : o.filled_quantity + f.quantity ≤ o.request.quantity
  pub stored : get f.fill_id a'.fills ≡ some f

module _ (f : Fill) (o : Order) (a : Account)
    (priced : worse_than_limit o.request.side f.price o.request.limit_price ≡ false) where
  cash-apply_fill :
      (side : Side) → o.request.side ≡ side → (apply_fill f o a).cash ≡ cash_after side f a.cash
  unfolding apply_fill
  cash-apply_fill side e = ap (λ s. cash_after s f a.cash) e

  position-apply_fill_self :
      position o.request.instrument_id (apply_fill f o a)
      ≡ position o.request.instrument_id a +ℤ signed o.request.side f.quantity
  position-apply_fill_self = rw (position-apply_fill f o a) (rw (==_refl o.request.instrument_id))

  position-side :
      (side : Side)
      → o.request.side ≡ side
      → position o.request.instrument_id (apply_fill f o a)
        ≡ position o.request.instrument_id a +ℤ signed side f.quantity
  position-side side e =
      position-apply_fill_self
      ∙ ap (λ s. position o.request.instrument_id a +ℤ signed s f.quantity) e

  priced_side :
      (side : Side)
      → o.request.side ≡ side
      → worse_than_limit side f.price o.request.limit_price ≡ false
  priced_side side e =
      subst (λ s. worse_than_limit s f.price o.request.limit_price ≡ false) e priced

  fills-apply_fill : get f.fill_id (apply_fill f o a).fills ≡ some f
  unfolding apply_fill
  fills-apply_fill = rw (get-put f.fill_id f.fill_id f a.fills) (rw (==_refl f.fill_id))

  apply_fill-Booked :
      o.filled_quantity + f.quantity ≤ o.request.quantity → Booked f o a (apply_fill f o a)
  apply_fill-Booked w = record {
    bought = λ e. (
      rw (cash-apply_fill buy e) (omega int_laws),
      ltb_ge o.request.limit_price f.price (priced_side buy e),
      position-side buy e,
    );
    sold = λ e. (
      rw (cash-apply_fill sell e) (omega int_laws),
      ltb_ge f.price o.request.limit_price (priced_side sell e),
      rw (position-side sell e) (omega int_laws),
    );
    elsewhere = λ i n. rw (position-apply_fill f o a) (rw n);
    within = w;
    stored = fills-apply_fill;
  }

-- The guards that an accepted fill has passed.
fill_order-accepts :
    (f : Fill) (o : Order) (a : Account) {g : Fill}
    → (fill_order f o a).0 ≡ ok g
    → (is_open o.status ≡ true)
      × (ltb_ℤ (remaining o) (pos f.quantity) ≡ false)
      × (worse_than_limit o.request.side f.price o.request.limit_price ≡ false)
      × ((fill_order f o a).1 ≡ apply_fill f o a)
unfolding fill_order
fill_order-accepts f o a {g} h = ground arith

module _ (f : Fill) (a : Account) (new : get f.fill_id a.fills ≡ none) where
  record_checked-missing :
      get f.client_order_id a.orders ≡ none → (record_checked f a).0 ≡ err order_not_open
  unfolding record_checked
  record_checked-missing m = rw (new, record_checked) (rw (m, record_checked))

  record_checked-found :
      {o : Order} → get f.client_order_id a.orders ≡ some o → record_checked f a ≡ fill_order f o a
  unfolding record_checked
  record_checked-found found = rw (new, record_checked) (rw (found, record_checked))

fits-within :
    (f : Fill) (o : Order)
    → o.filled_quantity ≤ o.request.quantity
    → ltb_ℤ (remaining o) (pos f.quantity) ≡ false
    → o.filled_quantity + f.quantity ≤ o.request.quantity
fits-within f o within fits =
    let left = o.request.quantity - o.filled_quantity in
    let g : ltb_ℤ (pos left) (pos f.quantity) ≡ false =
      subst (λ z. ltb_ℤ z (pos f.quantity) ≡ false)
        (pos_sub o.request.quantity o.filled_quantity within) fits in
    ground (arith, g)

-- An accepted fill with a new id belongs to a stored open order, at a price no worse than its limit
-- and within its quantity. A buy takes the price and the fee from the cash and adds the shares; a
-- sell adds the price less the fee and takes the shares; no other position moves.
pub record_checked-Booked :
    (f : Fill) (a : Account) {g : Fill}
    → IsSound a
    → get f.fill_id a.fills ≡ none
    → (record_checked f a).0 ≡ ok g
    → (o : Order) × (get f.client_order_id a.orders ≡ some o)
      × (is_open o.status ≡ true)
      × Booked f o a (record_checked f a).1
record_checked-Booked f a s new h = elim (Option-cases (get f.client_order_id a.orders)) [
  | inl m ↦ cc (h, record_checked-missing f a new m)
  | inr (o, found) ↦
      let e = record_checked-found f a new found in
      let (working, fits, priced, booked) = fill_order-accepts f o a (ap (λ r. r.0) (sym e) ∙ h) in
      let within =
        (get-AllEntries OrderFits f.client_order_id a.orders s.orders_sound found).within in
      (
        o,
        found,
        working,
        rw e (rw booked (apply_fill-Booked f o a priced (fits-within f o within fits))),
      )
]

check_request-client :
    (account : ℕ) (raw : RawRequest) {c : Checked}
    → check_request account raw ≡ ok c
    → c.request.client_order_id ≡ raw.client_order_id
unfolding check_request
check_request-client account raw h = ground arith

submit_checked-stored :
    (broker_id : ℕ → ℕ) (c : Checked) (a : Account) {o : Order}
    → IsSound a
    → get c.request.client_order_id a.orders ≡ some o
    → (submit_checked broker_id c a).1 ≡ a
unfolding submit_checked
submit_checked-stored broker_id c a s found =
    elim (Bool-cases (currency_differs c.currency a.currency)) [
      | inl differs ↦ rw differs
      | inr same ↦ rw same (elim (Option-cases (find_existing c.request a.orders)) [
        | inr (x, e) ↦ rw (e, submit_checked)
        | inl e ↦ cc (found, find_existing-get c.request a.orders s.orders_sound e)
      ])
    ]

-- From a sound account, once a client id is stored, no later submission under it changes the
-- account, whatever else the request says and whatever calls came in between.
pub submit_order-stored :
    (broker_id : ℕ → ℕ) (account : ℕ) (raw : RawRequest) (calls : List Call) (a : Account)
    {o : Order}
    → IsSound a
    → get raw.client_order_id a.orders ≡ some o
    → (submit_order broker_id account raw (run broker_id account calls a)).1
      ≡ run broker_id account calls a
submit_order-stored broker_id account raw calls a {o} s found =
    stored (get raw.client_order_id b.orders) refl (
      subst (λ x. Persists x (get raw.client_order_id b.orders)) found
        (run-Persists broker_id account raw.client_order_id calls a s))
  where
    b : Account
    b = run broker_id account calls a

    sound : IsSound b
    sound = (run-IsSound broker_id account calls a s).0

    checked :
        {o' : Order}
        → get raw.client_order_id b.orders ≡ some o'
        → (c : Result PaperError Checked) → check_request account raw ≡ c
        → (submit_order broker_id account raw b).1 ≡ b
    checked f (err e) h = unfold submit_order in rw (h, submit_order)
    checked f (ok c) h =
        unfold submit_order in
        rw (h, submit_order)
          (submit_checked-stored broker_id c b sound
            (ap (λ k. get k b.orders) (check_request-client account raw h) ∙ f))

    stored :
        (x : Option Order)
        → get raw.client_order_id b.orders ≡ x
        → Persists (some o) x
        → (submit_order broker_id account raw b).1 ≡ b
    stored none e p = absurd p
    stored (some o') e p = checked e (check_request account raw) refl
