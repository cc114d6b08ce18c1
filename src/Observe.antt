-- ===== src/Observe.antt =====
-- `OrderObservationService` of asset_management/execution/fills.py: what a report of the broker does
-- to the order's state, to what it has filled, to the ledgers and to what is reserved for it. An
-- order's quantity is absent or a number; a text that is none is refused where the executions are
-- read.
pub mod Release
pub mod Calls
pub mod Recover
pub mod Recovered
pub mod Rollback
pub mod Released
pub mod Terminal
mod Tests
use toss_trading_core.Prelude.{Option, ℕ}
use toss_trading_core.Executions.{ExecutionError}
use toss_trading_core.Ledger.{Evidence}
use toss_trading_core.Orders.{OrderError}
use toss_trading_core.Orders.Repository.{Table}
use toss_trading_core.Posting.{Books, PostError}
use toss_trading_core.Prelude.Dict.{Dict}

pub data ObserveError : Type 0 where
  state_refused : OrderError → ObserveError
  execution_refused : ExecutionError → ObserveError
  posting_refused : PostError → ObserveError
  fill_needs_context filled_not_positive ordered_not_positive filled_not_ordered : ObserveError
  partial_not_below delta_needs_context release_conflict release_integrity : ObserveError
  no_evidence : ObserveError

-- All tables of an observation; `ordered` is the quantity in the payload of `am_broker_order`.
pub record Desk : Type 0 where
  pub order_events : Table
  pub ordered : Dict (Option ℕ)
  pub known : Evidence
  pub books : Books
