-- ===== src/Lots/Tests.antt =====
-- Runs of the tax-lot ledger, and each theorem at an input that meets its hypotheses.
use toss_trading_core.Prelude.{
  List, [], ap, arith, aware, none, ok, refl, some, true, ℕ, ◌*◌, ◌+◌, ◌∷◌, ◌≡◌,
}
use toss_trading_core.Lots.{
  Amount, DisposalRow, LotRow, Tables, TaxLot, disposed_of, exactly, find_lot, insert_sorted,
  lots_of, select_lots, with_remaining,
}
use toss_trading_core.Lots.Acquire.{Acquisition, acquire, check_acquisition, same_values, store_lot}
use toss_trading_core.Lots.Conserved.{dispose_fifo-Leaves}
use toss_trading_core.Lots.Dispose.{
  check_disposal, dispose_checked, dispose_fifo, dispose_new, disposed_by, ids_of, plan_fifo,
}
use toss_trading_core.Lots.Fifo.{IsFifo, plan_fifo-IsFifo}
use toss_trading_core.Prelude.Int.{pos, ◌-ℤ◌}

abbrev whole : ℕ → Amount
whole n = record { value = n; places = 0 }

abbrev bought : ℕ → ℕ → ℕ → ℕ → LotRow
bought id day q at = record {
  lot_id = id;
  execution_delta_id = id;
  account_id = 1;
  instrument_id = 2;
  acquisition_date = day;
  settlement_date = none;
  quantity = whole q;
  price = whole 3;
  commission = whole 0;
  currency = 5;
  fx_rate = whole 1;
  observed_at_utc = at;
}

abbrev two_lots : Tables
two_lots = record { lots = bought 12 20 5 200 ∷ bought 11 10 4 100 ∷ []; disposals = [] }

abbrev disposal_id : ℕ → ℕ → ℕ
disposal_id delta lot = delta * 100 + lot

abbrev sold : ℕ → ℕ → ℕ → ℕ → DisposalRow
sold delta lot q at = record {
  disposal_id = disposal_id delta lot;
  lot_id = lot;
  execution_delta_id = delta;
  quantity = q;
  disposal_date = 30;
  observed_at_utc = at;
}

-- The older lot goes first.
oldest_first : dispose_fifo disposal_id 50 1 2 (exactly (whole 6)) 30 (aware 300) true two_lots ≡ (
  ok (5011 ∷ 5012 ∷ []),
  record two_lots { disposals = sold 50 11 4 300 ∷ sold 50 12 2 300 ∷ [] },
)
unfolding dispose_fifo check_disposal dispose_checked dispose_new ids_of disposed_by plan_fifo
    lots_of select_lots insert_sorted with_remaining disposed_of ◌-ℤ◌
oldest_first = refl

-- A disposal that was observed earlier, but is booked later, does not see the one above: the older
-- lot of 4 gives 4 again.
booked_late :
    (dispose_fifo disposal_id 51 1 2
      (exactly (whole 4))
      30
      (aware 250)
      true
      (record two_lots { disposals = sold 50 11 4 300 ∷ sold 50 12 2 300 ∷ [] })).1.disposals
    ≡ sold 51 11 4 250 ∷ sold 50 11 4 300 ∷ sold 50 12 2 300 ∷ []
unfolding dispose_fifo check_disposal dispose_checked dispose_new ids_of disposed_by plan_fifo
    lots_of select_lots insert_sorted with_remaining disposed_of ◌-ℤ◌
booked_late = refl

abbrev purchase : Acquisition
purchase = record {
  execution_delta_id = 13;
  account_id = 1;
  instrument_id = 2;
  acquisition_date = 40;
  settlement_date = some 42;
  quantity = exactly (whole 7);
  price = exactly (whole 3);
  commission = exactly (whole 0);
  currency = 5;
  fx_rate = exactly (whole 1);
  policy_known = true;
  observed_at_utc = aware 400;
}

acquired_twice :
    acquire (λ n. n) purchase (acquire (λ n. n) purchase two_lots).1
    ≡ (ok 13, (acquire (λ n. n) purchase two_lots).1)
unfolding acquire check_acquisition store_lot find_lot same_values
acquired_twice = refl

abbrev held : List TaxLot
held =
    record { row = bought 11 10 4 100; remaining_quantity = pos 4 }
    ∷ record { row = bought 12 20 5 200; remaining_quantity = pos 5 }
    ∷ []

plan_fifo-IsFifo_example : IsFifo 6 held (plan_fifo 30 6 held)
plan_fifo-IsFifo_example = plan_fifo-IsFifo 30 6 held (omega arith)

dispose_fifo-Leaves_example :
    disposed_by 50
      (dispose_fifo disposal_id 50 1 2 (exactly (whole 6)) 30 (aware 300) true two_lots).1.disposals
    ≡ 6
dispose_fifo-Leaves_example =
    dispose_fifo-Leaves disposal_id 50 1 2 (whole 6) 30 (aware 300) true two_lots (5011 ∷ 5012 ∷ [])
      (ap (λ x. x.0) oldest_first)
