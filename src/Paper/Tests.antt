-- ===== src/Paper/Tests.antt =====
-- Runs of the paper broker on a small account, and each theorem at an input that meets its
-- hypotheses.
use toss_trading_core.Prelude.{List, [], arith, none, ok, refl, some, true, ℕ, ◌+◌, ◌∷◌, ◌≡◌, ◌≢◌}
use toss_trading_core.Paper.{
  Account, Fill, Order, RawRequest, buy, find_existing, is_open, open_order, order_cash,
  order_position, position, reserved_cash, reserved_position, sell, units,
}
use toss_trading_core.Paper.Calls.{check_fill, check_request, record_checked, submit_order}
use toss_trading_core.Paper.Effects.{Booked, record_checked-Booked, submit_order-stored}
use toss_trading_core.Paper.Entries.{Persists}
use toss_trading_core.Paper.Initialize.{SoundStored, initialize, initialize-SoundStored}
use toss_trading_core.Paper.Runs.{
  Call, cancelling, filling, run, run-IsSound, run-Persists, submitting,
}
use toss_trading_core.Paper.Sound.{IsSound}
use toss_trading_core.Prelude.Dict.{get, put}
use toss_trading_core.Prelude.Int.{pos, ◌*ℤ◌, ◌+ℤ◌, ◌-ℤ◌, ◌≤ℤ◌}

abbrev start : Account
start = record {
  initial = 1;
  currency = 840;
  cash = pos 1000;
  positions = (5, pos 10) ∷ [];
  orders = [];
  fills = [];
}

abbrev buy_request : RawRequest
buy_request = record {
  body = 77;
  client_order_id = 11;
  order_intent_id = 12;
  instrument_id = 6;
  account = 3;
  side = some buy;
  quantity = units (pos 4);
  limit_price = units (pos 200);
  expected_fee = units (pos 5);
  limit_type = true;
  notional_amount = some (units (pos 800));
  currency = none;
}

abbrev sell_request : RawRequest
sell_request = record buy_request {
  client_order_id = 21;
  order_intent_id = 22;
  instrument_id = 5;
  side = some sell;
  quantity = units (pos 11);
  notional_amount = none;
}

abbrev broker_id : ℕ → ℕ
broker_id client = client + 100

abbrev calls : List Call
calls =
    submitting buy_request
    ∷ submitting sell_request
    ∷ filling 1 31 11 (units (pos 3)) (units (pos 190)) (units (pos 2))
    ∷ filling 2 32 11 (units (pos 2)) (units (pos 190)) (units (pos 2))
    ∷ filling 3 33 11 (units (pos 1)) (units (pos 200)) (units (pos 3))
    ∷ cancelling 11
    ∷ []

-- The sale of eleven shares and the second fill are refused, and the order ends filled.
run-calls : (run broker_id 3 calls start).cash ≡ pos 225
unfolding run check_request check_fill find_existing get put reserved_cash order_cash ◌+ℤ◌ ◌-ℤ◌ ◌*ℤ◌
    reserved_position order_position
run-calls = refl

start-IsSound : IsSound start
unfolding reserved_cash reserved_position position get
start-IsSound = record { orders_sound = tt; funded = omega arith; covered = λ i. ground arith }

run-IsSound_example :
    IsSound (run broker_id 3 calls start)
    × (pos 0 ≤ℤ (run broker_id 3 calls start).cash)
    × ((i : ℕ) → pos 0 ≤ℤ position i (run broker_id 3 calls start))
run-IsSound_example = run-IsSound broker_id 3 calls start start-IsSound

run-Persists_example : Persists (get 11 start.orders) (get 11 (run broker_id 3 calls start).orders)
run-Persists_example = run-Persists broker_id 3 11 calls start start-IsSound

-- The account with the order stored.
abbrev bought : Order
bought = record {
  client_order_id = 11;
  broker_order_id = 111;
  status = open_order;
  filled_quantity = 0;
  remaining_fee = 5;
  request = record {
    body = 77;
    client_order_id = 11;
    order_intent_id = 12;
    instrument_id = 6;
    side = buy;
    quantity = 4;
    limit_price = 200;
  };
}

abbrev waiting : Account
waiting = record start { orders = (11, bought) ∷ [] }

waiting-IsSound : IsSound waiting
unfolding reserved_cash reserved_position position get order_cash order_position ◌-ℤ◌ ◌*ℤ◌ ◌+ℤ◌
waiting-IsSound = record {
  orders_sound = (record { within = omega arith; complete = λ e. cc e; keyed = refl }, tt);
  funded = omega arith;
  covered = λ i. ground arith;
}

submit_order-stored_example :
    (submit_order broker_id 3 buy_request (run broker_id 3 calls waiting)).1
    ≡ run broker_id 3 calls waiting
unfolding get
submit_order-stored_example =
    submit_order-stored broker_id 3 buy_request calls waiting waiting-IsSound refl

abbrev partial : Fill
partial = record {
  body = 1;
  fill_id = 31;
  client_order_id = 11;
  quantity = 3;
  price = 190;
  fee = 2;
}

record_checked-Booked_example :
    (o : Order) × (get 11 waiting.orders ≡ some o)
    × (is_open o.status ≡ true)
    × Booked partial o waiting (record_checked partial waiting).1
unfolding get record_checked ◌-ℤ◌
record_checked-Booked_example = record_checked-Booked partial waiting waiting-IsSound refl refl

initialize-SoundStored_example :
    SoundStored (initialize 1 true 840 (units (pos 1000)) ((5, units (pos 10)) ∷ []) none).1
    × ((initialize 1 true 840 (units (pos 1000)) ((5, units (pos 10)) ∷ []) none).0 ≡ ok tt
        → (initialize 1 true 840 (units (pos 1000)) ((5, units (pos 10)) ∷ []) none).1 ≢ none)
initialize-SoundStored_example =
    initialize-SoundStored 1 true 840 (units (pos 1000)) ((5, units (pos 10)) ∷ []) none tt
