-- ===== src/Paper/Entries.antt =====
-- What calls of the paper broker can do to the entry of one order.
use toss_trading_core.Prelude.{
  ==_eq, Bool-cases, Option, Option-cases, arith, false, inl, inr, ltb, none, refl, some, subst,
  sym, true, ℕ, ◌==◌, ◌||◌, ◌∙◌, ◌≡◌, ◌≤◌, ◌⊎◌,
}
use toss_trading_core.Paper.{
  Account, Checked, Fill, Order, find_existing, is_open, remaining, reserved_cash,
}
use toss_trading_core.Paper.Calls.{
  apply_fill, cancel_order, canceled_order, currency_differs, fill_order, filled_order,
  lacks_position, needed_cash, new_order, record_checked, submit_checked, submit_new,
  worse_than_limit,
}
use toss_trading_core.Paper.Reserve.{OrderFits, find_existing-get}
use toss_trading_core.Prelude.Dict.{AllEntries, Dict, get, get-put, put}
use toss_trading_core.Prelude.Int.{ltb_ℤ, pos, ◌-ℤ◌}

-- An open order may change, but not its request, and what is filled of it does not fall.
abbrev pub Entry : Option Order → Order → Type 0
Entry none o' = Unit
Entry (some o) o' =
    (is_open o.status ≡ true) × (o'.request ≡ o.request) × (o.filled_quantity ≤ o'.filled_quantity)

-- The orders after a call: as before, or with one entry new or replaced.
abbrev pub OrdersStep : Dict Order → Dict Order → Type 0
OrdersStep orders orders' =
    (orders' ≡ orders)
    ⊎ ((key : ℕ) × (o' : Order) × (orders' ≡ put key o' orders) × Entry (get key orders) o')

-- An order does not disappear, its request stays, what is filled does not fall, and once it is not
-- open any more it does not change at all.
pub record Goes (o o' : Order) : Type 0 where
  pub same_request : o'.request ≡ o.request
  pub grows : o.filled_quantity ≤ o'.filled_quantity
  pub closed_stays : is_open o.status ≡ false → o' ≡ o

abbrev pub Persists : Option Order → Option Order → Type 0
Persists none _ = Unit
Persists (some o) none = ⊥
Persists (some o) (some o') = Goes o o'

Goes-refl : (o : Order) → Goes o o
Goes-refl o = record { same_request = refl; grows = omega arith; closed_stays = λ c. refl }

pub Persists-refl : (a : Option Order) → Persists a a
Persists-refl none = tt
Persists-refl (some o) = Goes-refl o

Goes-trans : {a b c : Order} → Goes a b → Goes b c → Goes a c
Goes-trans p q = record {
  same_request = q.same_request ∙ p.same_request;
  grows = omega arith;
  closed_stays = λ c.
      q.closed_stays (subst (λ o. is_open o.status ≡ false) (sym (p.closed_stays c)) c)
      ∙ p.closed_stays c;
}

pub Persists-trans : (a b c : Option Order) → Persists a b → Persists b c → Persists a c
Persists-trans none b c p q = tt
Persists-trans (some x) (some y) (some z) p q = Goes-trans p q
Persists-trans (some x) (some y) none p q = q
Persists-trans (some x) none c p q = absurd p

Entry-Persists : (e : Option Order) (o' : Order) → Entry e o' → Persists e (some o')
Entry-Persists none o' h = tt
Entry-Persists (some o) o' (working, same, more) = record {
  same_request = same;
  grows = more;
  closed_stays = λ c. cc (working, c);
}

pub OrdersStep-Persists :
    (client : ℕ) (orders orders' : Dict Order)
    → OrdersStep orders orders'
    → Persists (get client orders) (get client orders')
OrdersStep-Persists client orders orders' (inl same) = rw same (Persists-refl (get client orders))
OrdersStep-Persists client orders orders' (inr (key, o', e, h)) = rw e (
    rw (get-put client key o' orders) (elim (Bool-cases (key == client)) [
      | inl same ↦ rw same (
          subst (λ k. Persists (get k orders) (some o')) (==_eq key client same)
            (Entry-Persists (get key orders) o' h))
      | inr other ↦ rw other (Persists-refl (get client orders))
    ]))

pub cancel_order-OrdersStep :
    (client : ℕ) (a : Account) → OrdersStep a.orders (cancel_order client a).1.orders
unfolding cancel_order
cancel_order-OrdersStep client a = elim (Option-cases (get client a.orders)) [
  | inl e ↦ rw (e, cancel_order) (inl refl)
  | inr (o, e) ↦
      rw (e, cancel_order)
        (elim (Bool-cases (is_open o.status)) [
          | inl working ↦
              rw working (inr (client, canceled_order o, refl, rw e (working, refl, omega arith)))
          | inr closed ↦ rw closed (inl refl)
        ])
]

fill_order-OrdersStep :
    (f : Fill) (o : Order) (a : Account)
    → get f.client_order_id a.orders ≡ some o
    → OrdersStep a.orders (fill_order f o a).1.orders
unfolding fill_order apply_fill
fill_order-OrdersStep f o a found = elim (Bool-cases (is_open o.status)) [
  | inr closed ↦ rw closed (inl refl)
  | inl working ↦
      rw working
        (elim (Bool-cases (
          ltb_ℤ (remaining o) (pos f.quantity)
          || worse_than_limit o.request.side f.price o.request.limit_price)) [
            | inl refused ↦ rw refused (inl refl)
            | inr fits ↦ rw fits (elim (Bool-cases (ltb o.remaining_fee f.fee)) [
              | inl costly ↦ rw costly (inl refl)
              | inr fee_fits ↦ rw fee_fits (
                  inr (
                    f.client_order_id,
                    filled_order f o,
                    refl,
                    rw found (working, refl, omega arith),
                  ))
            ])
          ])
]

pub record_checked-OrdersStep :
    (f : Fill) (a : Account) → OrdersStep a.orders (record_checked f a).1.orders
unfolding record_checked
record_checked-OrdersStep f a = elim (Option-cases (get f.fill_id a.fills)) [
  | inr (old, e) ↦ rw (e, record_checked) (inl refl)
  | inl e ↦
      rw (e, record_checked)
        (elim (Option-cases (get f.client_order_id a.orders)) [
          | inl m ↦ rw (m, record_checked) (inl refl)
          | inr (o, found) ↦ rw (found, record_checked) (fill_order-OrdersStep f o a found)
        ])
]

submit_new-OrdersStep :
    (broker_id : ℕ → ℕ) (c : Checked) (a : Account)
    → get c.request.client_order_id a.orders ≡ none
    → OrdersStep a.orders (submit_new broker_id c a).1.orders
unfolding submit_new
submit_new-OrdersStep broker_id c a fresh =
    let r = c.request in
    elim (Bool-cases
      (ltb_ℤ (a.cash -ℤ reserved_cash a.orders) (pos (needed_cash r.side r c.fee)))) [
        | inl short ↦ rw short (inl refl)
        | inr cash_free ↦ rw cash_free (elim (Bool-cases (lacks_position r.side r a)) [
          | inl lacks ↦ rw lacks (inl refl)
          | inr position_free ↦
              rw position_free
                (inr (r.client_order_id, new_order broker_id r c.fee, refl, rw fresh tt))
        ])
      ]

pub submit_checked-OrdersStep :
    (broker_id : ℕ → ℕ) (c : Checked) (a : Account)
    → AllEntries OrderFits a.orders
    → OrdersStep a.orders (submit_checked broker_id c a).1.orders
unfolding submit_checked
submit_checked-OrdersStep broker_id c a s =
    elim (Bool-cases (currency_differs c.currency a.currency)) [
      | inl differs ↦ rw differs (inl refl)
      | inr same ↦ rw same (elim (Option-cases (find_existing c.request a.orders)) [
        | inr (o, e) ↦ rw (e, submit_checked) (inl refl)
        | inl e ↦
            rw (e, submit_checked)
              (submit_new-OrdersStep broker_id c a (find_existing-get c.request a.orders s e))
      ])
    ]
