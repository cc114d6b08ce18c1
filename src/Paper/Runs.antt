-- ===== src/Paper/Runs.antt =====
-- Sequences of calls of the paper broker: soundness, and what an order's entry can still do.
use toss_trading_core.Prelude.{List, Result, [], err, ok, refl, ℕ, ◌∷◌, ◌≡◌}
use toss_trading_core.Paper.{Account, Checked, Fill, Given, PaperError, RawRequest, position}
use toss_trading_core.Paper.Calls.{
  cancel_order, check_fill, check_request, record_checked, record_fill, submit_checked,
  submit_order,
}
use toss_trading_core.Paper.Entries.{
  OrdersStep-Persists, Persists, Persists-refl, Persists-trans, cancel_order-OrdersStep,
  record_checked-OrdersStep, submit_checked-OrdersStep,
}
use toss_trading_core.Paper.Keeps.{
  cancel_order-IsSound, record_checked-IsSound, submit_checked-IsSound,
}
use toss_trading_core.Paper.Sound.{IsSound, cash_nonneg, position_nonneg}
use toss_trading_core.Prelude.Dict.{get}
use toss_trading_core.Prelude.Int.{pos, ◌≤ℤ◌}

-- The calls that change the stored state, with their arguments.
pub data Call : Type 0 where
  submitting : RawRequest → Call
  cancelling : ℕ → Call
  filling : ℕ → ℕ → ℕ → Given → Given → Given → Call

module _ (broker_id : ℕ → ℕ) (account : ℕ) where
  unfoldable pub step : Call → Account → Account
  unfolding submit_order cancel_order record_fill
  step (submitting raw) a = (submit_order broker_id account raw a).1
  step (cancelling client) a = (cancel_order client a).1
  step (filling body fill_id client quantity price fee) a =
      (record_fill body fill_id client quantity price fee a).1

  unfoldable pub run : List Call → Account → Account
  unfolding step
  run [] a = a
  run (call ∷ calls) a = run calls (step call a)

  step-IsSound : (call : Call) (a : Account) → IsSound a → IsSound (step call a)
  unfolding step
  step-IsSound (submitting raw) a s = submitted (check_request account raw) refl
    where
      submitted :
          (c : Result PaperError Checked)
          → check_request account raw ≡ c
          → IsSound (submit_order broker_id account raw a).1
      submitted (err e) h = rw (h, submit_order) s
      submitted (ok c) h = rw (h, submit_order) (submit_checked-IsSound broker_id c a s)
  step-IsSound (cancelling client) a s = cancel_order-IsSound client a s
  step-IsSound (filling body fill_id client quantity price fee) a s =
      recorded (check_fill body fill_id client quantity price fee) refl
    where
      recorded :
          (c : Result PaperError Fill)
          → check_fill body fill_id client quantity price fee ≡ c
          → IsSound (record_fill body fill_id client quantity price fee a).1
      recorded (err e) h = rw (h, record_fill) s
      recorded (ok f) h = rw (h, record_fill) (record_checked-IsSound f a s)

  all_calls-IsSound : (calls : List Call) (a : Account) → IsSound a → IsSound (run calls a)
  unfolding run
  all_calls-IsSound [] a s = s
  all_calls-IsSound (call ∷ calls) a s =
      all_calls-IsSound calls (step call a) (step-IsSound call a s)

  -- From a sound account no sequence of calls, accepted or refused, reserves more cash than there
  -- is or more of an instrument than is held; cash and positions stay at zero or above.
  pub run-IsSound :
      (calls : List Call) (a : Account)
      → IsSound a
      → IsSound (run calls a)
        × (pos 0 ≤ℤ (run calls a).cash)
        × ((i : ℕ) → pos 0 ≤ℤ position i (run calls a))
  run-IsSound calls a s =
      let s' = all_calls-IsSound calls a s in
      (s', cash_nonneg (run calls a) s', position_nonneg (run calls a) s')

  step-Persists :
      (client : ℕ) (call : Call) (a : Account)
      → IsSound a
      → Persists (get client a.orders) (get client (step call a).orders)
  unfolding step
  step-Persists client (submitting raw) a s = submitted (check_request account raw) refl
    where
      submitted :
          (c : Result PaperError Checked)
          → check_request account raw ≡ c
          → Persists
              (get client a.orders)
              (get client (submit_order broker_id account raw a).1.orders)
      submitted (err e) h = rw (h, submit_order) (Persists-refl (get client a.orders))
      submitted (ok c) h =
          rw (h, submit_order)
            (OrdersStep-Persists client a.orders (submit_checked broker_id c a).1.orders
              (submit_checked-OrdersStep broker_id c a s.orders_sound))
  step-Persists client (cancelling k) a s =
      OrdersStep-Persists client a.orders (cancel_order k a).1.orders (cancel_order-OrdersStep k a)
  step-Persists client (filling body fill_id k quantity price fee) a s =
      recorded (check_fill body fill_id k quantity price fee) refl
    where
      recorded :
          (c : Result PaperError Fill)
          → check_fill body fill_id k quantity price fee ≡ c
          → Persists
              (get client a.orders)
              (get client (record_fill body fill_id k quantity price fee a).1.orders)
      recorded (err e) h = rw (h, record_fill) (Persists-refl (get client a.orders))
      recorded (ok f) h =
          rw (h, record_fill)
            (OrdersStep-Persists client a.orders (record_checked f a).1.orders
              (record_checked-OrdersStep f a))

  -- From a sound account, through any calls: an order that is stored stays stored with its request,
  -- what is filled of it does not fall, and an order that is filled or canceled never changes.
  pub run-Persists :
      (client : ℕ) (calls : List Call) (a : Account)
      → IsSound a
      → Persists (get client a.orders) (get client (run calls a).orders)
  unfolding run
  run-Persists client [] a s = Persists-refl (get client a.orders)
  run-Persists client (call ∷ calls) a s =
      Persists-trans (get client a.orders) (get client (step call a).orders) _
        (step-Persists client call a s)
        (run-Persists client calls (step call a) (step-IsSound call a s))
