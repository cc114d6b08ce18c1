-- ===== src/Posting/Write.antt =====
-- The writes of `ExecutionLedgerPoster.post` of asset_management/ledger/posting.py, inside its
-- savepoint: each returns the books with its rows, or the error that rolls all of them back.
use toss_trading_core.Prelude.{
  Bool, List, Option, Result, [], aware, err, false, if◌then◌else◌, is_some, none, not, ok, require,
  some, suc, true, zero, ℕ, ◌&&◌, ◌==◌, ◌>>=◌, ◌>>◌, ◌||◌, ◌∷◌,
}
use toss_trading_core.Executions.{ExecutionDelta}
use toss_trading_core.Ledger.{day_of}
use toss_trading_core.Ledger.Cash.{
  CashEventType, CashRow, commission, tax, trade_cost, trade_proceeds,
}
use toss_trading_core.Ledger.CashEvents.{find_cash_event}
use toss_trading_core.Ledger.PositionState.{find_settlement}
use toss_trading_core.Ledger.Positions.{PositionRow}
use toss_trading_core.Lots.{Given, LotError, Tables, exactly}
use toss_trading_core.Lots.Acquire.{Acquisition, acquire}
use toss_trading_core.Lots.Dispose.{dispose_fifo}
use toss_trading_core.Posting.{
  Books, Component, ComponentRow, ContextRow, PostError, PostingRow, SettlementEvidence, Side, buy,
  commission_part, lots_refused, principal, row_exists, sell, tax_part,
}
use toss_trading_core.Posting.Context.{Outside, PostingContext}
use toss_trading_core.Posting.Settlement.{persist}
use toss_trading_core.Prelude.Int.{pos, ℤ, ◌-ℤ◌}

abbrev pub component_number : Component → ℕ
component_number principal = 0
component_number commission_part = 1
component_number tax_part = 2

abbrev pub component_taken : ℕ → Component → ℕ → List ComponentRow → Bool
component_taken delta c id [] = false
component_taken delta c id (r ∷ rows) =
    (r.execution_delta_id == delta && component_number r.component == component_number c)
    || r.cash_event_id == id
    || component_taken delta c id rows

abbrev pub event_type_of : Component → Side → CashEventType
event_type_of principal buy = trade_cost
event_type_of principal sell = trade_proceeds
event_type_of commission_part side = commission
event_type_of tax_part side = tax

-- principal_direction * amount, and -value.
abbrev pub signed_amount : Component → Side → ℕ → ℤ
signed_amount principal buy n = pos 0 -ℤ pos n
signed_amount principal sell n = pos n
signed_amount commission_part side n = pos 0 -ℤ pos n
signed_amount tax_part side n = pos 0 -ℤ pos n

abbrev pub posted_row : Outside → Component → PostingContext → ℕ → ℕ → ℕ → CashRow
posted_row out c ctx delta n at = record {
  cash_event_id = out.cash_name c delta;
  account_id = ctx.account_id;
  currency = ctx.currency;
  amount = signed_amount c ctx.side n;
  settlement_date = some ctx.settlement_date;
  event_type = event_type_of c ctx.side;
  created_at_utc = at;
}

abbrev pub add_cash : Outside → Component → PostingContext → ℕ → ℕ → ℕ → Books → Books
add_cash out c ctx delta n at b = record b {
  cash = record b.cash { ledger = posted_row out c ctx delta n at ∷ b.cash.ledger };
  components =
      record { execution_delta_id = delta; component = c; cash_event_id = out.cash_name c delta }
      ∷ b.components;
}

-- The cash event of a component, unless its value is zero.
unfoldable pub write_cash :
    Outside → Component → PostingContext → ℕ → ℕ → ℕ → Books → Result PostError Books
unfolding find_cash_event
write_cash out c ctx delta n at b =
    if n == 0
    then ok b
    else if is_some (find_cash_event (out.cash_name c delta) b.cash.ledger)
        || component_taken delta c (out.cash_name c delta) b.components
    then err row_exists
    else ok (add_cash out c ctx delta n at b)

abbrev pub given : ℕ → Given
given n = exactly (record { value = n; places = 0 })

abbrev pub lots_written : {A : Type 0} → Result LotError A × Tables → Result PostError Tables
lots_written (err e, t) = err lots_refused
lots_written (ok a, t) = ok t

abbrev pub acquisition_of : Outside → PostingContext → ExecutionDelta → ℕ → Acquisition
acquisition_of out ctx d at = record {
  execution_delta_id = d.execution_delta_id;
  account_id = ctx.account_id;
  instrument_id = ctx.instrument_id;
  acquisition_date = day_of at;
  settlement_date = some ctx.settlement_date;
  quantity = given d.values.quantity;
  price = out.quotient d.values.amount d.values.quantity;
  commission = given d.values.commission;
  currency = ctx.currency;
  fx_rate = exactly ctx.fx_rate;
  policy_known = true;
  observed_at_utc = aware at;
}

-- The tax lots: a purchase acquires one, a sale disposes of the oldest.
unfoldable pub write_lots :
    Outside → Side → PostingContext → ExecutionDelta → ℕ → Tables → Result PostError Tables
unfolding acquire dispose_fifo
write_lots out buy ctx d at t = lots_written (acquire out.lot_name (acquisition_of out ctx d at) t)
write_lots out sell ctx d at t = lots_written (
    dispose_fifo out.disposal_name d.execution_delta_id ctx.account_id ctx.instrument_id
      (given d.values.quantity) (day_of at) (aware at) true t)

-- direction * quantity
abbrev pub quantity_of : Side → ℕ → ℤ
quantity_of buy n = pos n
quantity_of sell n = pos 0 -ℤ pos n

abbrev pub has_position : ℕ → List PositionRow → Bool
has_position id [] = false
has_position id (r ∷ rows) = r.position_event_id == id || has_position id rows

abbrev pub move_row : Outside → PostingContext → ExecutionDelta → ℕ → PositionRow
move_row out ctx d at = record {
  position_event_id = out.position_name d.execution_delta_id;
  account_id = ctx.account_id;
  instrument_id = ctx.instrument_id;
  quantity_delta = quantity_of ctx.side d.values.quantity;
  created_at_utc = at;
}

abbrev pub add_position : Outside → PostingContext → ExecutionDelta → ℕ → Tables → Books → Books
add_position out ctx d at lots b = record b {
  shares = record b.shares {
    position_rows = move_row out ctx d at ∷ b.shares.position_rows;
    settlements =
        record {
          position_event_id = out.position_name d.execution_delta_id;
          settlement_date = some ctx.settlement_date;
        }
        ∷ b.shares.settlements;
    lot_tables = lots;
  };
}

-- The position event with its settlement, and the lots, unless the quantity is zero.
unfoldable pub write_position :
    Outside → PostingContext → ExecutionDelta → ℕ → Books → Result PostError Books
unfolding find_settlement write_lots
write_position out ctx d at b =
    if d.values.quantity == 0
    then ok b
    else if has_position (out.position_name d.execution_delta_id) b.shares.position_rows
        || is_some (find_settlement (out.position_name d.execution_delta_id) b.shares.settlements)
    then err row_exists
    else write_lots out ctx.side ctx d at b.shares.lot_tables >>= λ lots.
        ok (add_position out ctx d at lots b)

abbrev pub if_moved : ℕ → ℕ → Option ℕ
if_moved zero id = none
if_moved (suc n) id = some id

abbrev pub has_context : ℕ → List ContextRow → Bool
has_context delta [] = false
has_context delta (r ∷ rows) = r.execution_delta_id == delta || has_context delta rows

abbrev pub shares_id : Option ℕ → Option ℕ → Bool
shares_id none o = false
shares_id (some x) none = false
shares_id (some x) (some y) = x == y

-- Whether a row of `am_execution_posting` has the delta or one of the ids.
abbrev pub posting_taken : ℕ → Option ℕ → Option ℕ → List PostingRow → Bool
posting_taken delta c p [] = false
posting_taken delta c p (r ∷ rows) =
    r.execution_delta_id == delta
    || shares_id r.cash_event_id c
    || shares_id r.position_event_id p
    || posting_taken delta c p rows

-- The first two writes: the evidence and the context.
unfoldable pub write_evidence :
    Outside
    → (PostingContext → ℕ)
    → SettlementEvidence
    → PostingContext
    → ℕ
    → Books
    → Result PostError Books
unfolding persist
write_evidence out hash e ctx delta b = do
  rows ← persist out.hash_evidence e b.evidence
  require (not (has_context delta b.contexts)) row_exists
  ok (record b {
    evidence = rows;
    contexts = record { execution_delta_id = delta; context_hash = hash ctx } ∷ b.contexts;
  })

abbrev pub cash_id : Outside → ExecutionDelta → Option ℕ
cash_id out d = if_moved d.values.amount (out.cash_name principal d.execution_delta_id)

abbrev pub position_id : Outside → ExecutionDelta → Option ℕ
position_id out d = if_moved d.values.quantity (out.position_name d.execution_delta_id)

abbrev pub posting_row : Outside → ExecutionDelta → ℕ → PostingRow
posting_row out d at = record {
  execution_delta_id = d.execution_delta_id;
  cash_event_id = cash_id out d;
  position_event_id = position_id out d;
  posted_at_utc = at;
}

-- The last write: the posting.
unfoldable pub write_posting : Outside → ExecutionDelta → ℕ → Books → Result PostError Books
write_posting out d at b =
    require
      (not (posting_taken d.execution_delta_id (cash_id out d) (position_id out d) b.postings))
      row_exists
    >> ok (record b { postings = posting_row out d at ∷ b.postings })

-- All writes, in their order.
unfoldable pub write_all :
    Outside
    → (PostingContext → ℕ)
    → SettlementEvidence
    → PostingContext
    → ExecutionDelta
    → ℕ
    → Books
    → Result PostError Books
unfolding write_evidence write_cash write_position write_posting
write_all out hash e ctx d at b = do
  b1 ← write_evidence out hash e ctx d.execution_delta_id b
  b2 ← write_cash out principal ctx d.execution_delta_id d.values.amount at b1
  b3 ← write_cash out commission_part ctx d.execution_delta_id d.values.commission at b2
  b4 ← write_cash out tax_part ctx d.execution_delta_id d.values.tax at b3
  b5 ← write_position out ctx d at b4
  write_posting out d at b5
