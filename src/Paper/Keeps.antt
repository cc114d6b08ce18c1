-- ===== src/Paper/Keeps.antt =====
-- Every call of the paper broker keeps it sound.
use toss_trading_core.Prelude.{
  ==_eq, Bool-cases, Option-cases, arith, false, if◌then◌else◌, inl, inr, ltb, none, refl, some,
  subst, true, ℕ, ◌==◌, ◌≡◌, ◌≤◌,
}
use toss_trading_core.Paper.{
  Account, Checked, Fill, Order, Side, buy, find_existing, is_open, position, remaining,
  reserved_cash, sell,
}
use toss_trading_core.Paper.Calls.{
  apply_fill, cancel_order, canceled_order, cash_after, currency_differs, fill_order, filled_order,
  lacks_position, needed_cash, record_checked, signed, submit_checked, submit_new, worse_than_limit,
}
use toss_trading_core.Paper.Filled.{
  filled_order-OrderFits, order_hold-filled, order_hold-sell, order_reserve-buy, order_reserve-sell,
}
use toss_trading_core.Paper.Reserve.{OrderFits, find_existing-get, order_hold, order_reserve}
use toss_trading_core.Paper.Sound.{
  IsSound, IsSound-of_totals, covered_total, funded_total, submit_new-IsSound,
}
use toss_trading_core.Prelude.Dict.{
  get, get-AllEntries, get-put, put, put-AllEntries, total, total-put_old,
}
use toss_trading_core.Prelude.Int.{int_laws, ltb_ℤ, pos, ◌+ℤ◌, ◌-ℤ◌, ◌≤ℤ◌}

-- An order that takes the place of another and reserves and holds no more.
replace-IsSound :
    (a : Account) (key : ℕ) (o o' : Order)
    → IsSound a
    → get key a.orders ≡ some o
    → OrderFits key o'
    → order_reserve o' ≤ order_reserve o
    → ((i : ℕ) → order_hold i o' ≤ order_hold i o)
    → IsSound (record a { orders = put key o' a.orders })
unfolding position
replace-IsSound a key o o' s found io less fewer =
    IsSound-of_totals (record a { orders = put key o' a.orders })
      (put-AllEntries OrderFits key o' a.orders s.orders_sound io)
      (omega (arith, funded_total a s, total-put_old order_reserve key o' a.orders found))
      (λ i.
        omega
          (arith, covered_total a s i, total-put_old (order_hold i) key o' a.orders found, fewer i))

canceled-reserve : (o : Order) → order_reserve (canceled_order o) ≡ 0
unfolding order_reserve
canceled-reserve o = refl

canceled-hold : (i : ℕ) (o : Order) → order_hold i (canceled_order o) ≡ 0
unfolding order_hold
canceled-hold i o = refl

canceled-OrderFits : (key : ℕ) (o : Order) → OrderFits key o → OrderFits key (canceled_order o)
canceled-OrderFits key o h = record { within = h.within; complete = λ e. cc e; keyed = h.keyed }

pub cancel_order-IsSound :
    (client : ℕ) (a : Account) → IsSound a → IsSound (cancel_order client a).1
unfolding cancel_order
cancel_order-IsSound client a s = elim (Option-cases (get client a.orders)) [
  | inl e ↦ rw (e, cancel_order) s
  | inr (o, e) ↦
      rw (e, cancel_order)
        (elim (Bool-cases (is_open o.status)) [
          | inl working ↦ rw working (
              replace-IsSound a client o (canceled_order o) s e
                (canceled-OrderFits client o
                  (get-AllEntries OrderFits client a.orders s.orders_sound e))
                (rw canceled-reserve (omega arith)) (λ i. rw (canceled-hold i o) (omega arith)))
          | inr closed ↦ rw closed s
        ])
]

pub position-apply_fill :
    (f : Fill) (o : Order) (a : Account) (i : ℕ)
    → position i (apply_fill f o a) ≡ (
        if o.request.instrument_id == i
        then position o.request.instrument_id a +ℤ signed o.request.side f.quantity
        else position i a)
unfolding apply_fill position
position-apply_fill f o a i =
    rw
      (get-put i o.request.instrument_id
        (position o.request.instrument_id a +ℤ signed o.request.side f.quantity) a.positions)
      (elim (Bool-cases (o.request.instrument_id == i)) [ inl e ↦ rw e | inr e ↦ rw e ])

-- The account after a fill, and what is known of the fill there.
module _ (f : Fill) (o : Order) (a : Account) (s : IsSound a)
    (found : get f.client_order_id a.orders ≡ some o) (is_live : is_open o.status ≡ true)
    (fits : ltb_ℤ (remaining o) (pos f.quantity) ≡ false)
    (priced : worse_than_limit o.request.side f.price o.request.limit_price ≡ false)
    (fee_fits : ltb o.remaining_fee f.fee ≡ false) where
  abbrev key : ℕ
  key = f.client_order_id

  stored-OrderFits : OrderFits key o
  stored-OrderFits = get-AllEntries OrderFits key a.orders s.orders_sound found

  funded_side :
      (side : Side)
      → o.request.side ≡ side
      → pos (total order_reserve (put key (filled_order f o) a.orders)) ≤ℤ cash_after side f a.cash
  funded_side buy e = omega (
    int_laws,
    funded_total a s,
    total-put_old order_reserve key (filled_order f o) a.orders found,
    order_reserve-buy f o key stored-OrderFits is_live fits fee_fits e priced,
  )
  funded_side sell e = omega (
    int_laws,
    funded_total a s,
    total-put_old order_reserve key (filled_order f o) a.orders found,
    order_reserve-sell f o key stored-OrderFits is_live fits fee_fits e,
  )

  covered_side :
      (side : Side)
      → o.request.side ≡ side
      → pos (total (order_hold o.request.instrument_id) (put key (filled_order f o) a.orders))
        ≤ℤ position o.request.instrument_id a +ℤ signed side f.quantity
  covered_side buy e = omega (
    int_laws,
    covered_total a s o.request.instrument_id,
    total-put_old (order_hold o.request.instrument_id) key (filled_order f o) a.orders found,
    order_hold-filled f o key stored-OrderFits is_live fits fee_fits o.request.instrument_id,
  )
  covered_side sell e = omega (
    int_laws,
    covered_total a s o.request.instrument_id,
    total-put_old (order_hold o.request.instrument_id) key (filled_order f o) a.orders found,
    order_hold-sell f o key stored-OrderFits is_live fits fee_fits e,
  )

  covered_fill :
      (i : ℕ)
      → pos (total (order_hold i) (put key (filled_order f o) a.orders))
        ≤ℤ position i (apply_fill f o a)
  covered_fill i =
      rw (position-apply_fill f o a i) (elim (Bool-cases (o.request.instrument_id == i)) [
        | inl same ↦ rw same (
            subst
              (λ j.
                pos (total (order_hold j) (put key (filled_order f o) a.orders))
                ≤ℤ position o.request.instrument_id a +ℤ signed o.request.side f.quantity)
              (==_eq o.request.instrument_id i same) (covered_side o.request.side refl))
        | inr other ↦ rw other (
            omega (
              arith,
              covered_total a s i,
              total-put_old (order_hold i) key (filled_order f o) a.orders found,
              order_hold-filled f o key stored-OrderFits is_live fits fee_fits i,
            ))
      ])

  apply_fill-IsSound : IsSound (apply_fill f o a)
  unfolding apply_fill
  apply_fill-IsSound =
      IsSound-of_totals (apply_fill f o a)
        (put-AllEntries OrderFits key (filled_order f o) a.orders s.orders_sound
          (filled_order-OrderFits f o key stored-OrderFits is_live fits fee_fits))
        (funded_side o.request.side refl) covered_fill

fill_order-IsSound :
    (f : Fill) (o : Order) (a : Account)
    → IsSound a
    → get f.client_order_id a.orders ≡ some o
    → IsSound (fill_order f o a).1
unfolding fill_order
fill_order-IsSound f o a s found = elim (Bool-cases (is_open o.status)) [
  | inr closed ↦ rw closed s
  | inl working ↦ rw working (elim (Bool-cases (ltb_ℤ (remaining o) (pos f.quantity))) [
    | inl over ↦ rw over s
    | inr fits ↦
        rw fits (elim (Bool-cases (worse_than_limit o.request.side f.price o.request.limit_price)) [
          | inl worse ↦ rw worse s
          | inr priced ↦ rw priced (elim (Bool-cases (ltb o.remaining_fee f.fee)) [
            | inl costly ↦ rw costly s
            | inr fee_fits ↦
                rw fee_fits (apply_fill-IsSound f o a s found working fits priced fee_fits)
          ])
        ])
  ])
]

pub record_checked-IsSound : (f : Fill) (a : Account) → IsSound a → IsSound (record_checked f a).1
unfolding record_checked
record_checked-IsSound f a s = elim (Option-cases (get f.fill_id a.fills)) [
  | inr (old, e) ↦ rw (e, record_checked) s
  | inl e ↦
      rw (e, record_checked)
        (elim (Option-cases (get f.client_order_id a.orders)) [
          | inl m ↦ rw (m, record_checked) s
          | inr (o, found) ↦ rw (found, record_checked) (fill_order-IsSound f o a s found)
        ])
]

submit_new-keeps :
    (broker_id : ℕ → ℕ) (c : Checked) (a : Account)
    → IsSound a
    → get c.request.client_order_id a.orders ≡ none
    → IsSound (submit_new broker_id c a).1
unfolding submit_new
submit_new-keeps broker_id c a s fresh =
    let r = c.request in
    elim (Bool-cases
      (ltb_ℤ (a.cash -ℤ reserved_cash a.orders) (pos (needed_cash r.side r c.fee)))) [
        | inl short ↦ rw short s
        | inr cash_free ↦ rw cash_free (elim (Bool-cases (lacks_position r.side r a)) [
          | inl lacks ↦ rw lacks s
          | inr position_free ↦
              rw position_free
                (submit_new-IsSound broker_id r c.fee a s fresh cash_free position_free)
        ])
      ]

pub submit_checked-IsSound :
    (broker_id : ℕ → ℕ) (c : Checked) (a : Account)
    → IsSound a
    → IsSound (submit_checked broker_id c a).1
unfolding submit_checked
submit_checked-IsSound broker_id c a s =
    elim (Bool-cases (currency_differs c.currency a.currency)) [
      | inl differs ↦ rw differs s
      | inr same ↦ rw same (elim (Option-cases (find_existing c.request a.orders)) [
        | inr (o, e) ↦ rw (e, submit_checked) s
        | inl e ↦
            rw (e, submit_checked)
              (submit_new-keeps broker_id c a s
                (find_existing-get c.request a.orders s.orders_sound e))
      ])
    ]
