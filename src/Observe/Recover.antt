-- ===== src/Observe/Recover.antt =====
-- `recover_submission_timeout` of asset_management/execution/fills.py.
use toss_trading_core.Prelude.{
  Datetime, Option, Result, err, false, if◌then◌else◌, none, some, ℕ, ◌==◌,
}
use toss_trading_core.Observe.{ObserveError, no_evidence, state_refused}
use toss_trading_core.Observe.Calls.{either}
use toss_trading_core.Orders.{BrokerWord, review_required}
use toss_trading_core.Orders.Repository.{OrderStateEvent, Table, append, append_broker_state}

-- What the broker's lookup finds is a status word and, perhaps, the id of its response, which comes
-- before the id that was given.
abbrev pub evidence_id : Option ℕ → Option ℕ → Option ℕ
evidence_id none source = source
evidence_id (some found) source = if found == 0 then source else some found

abbrev pub recover_found :
    ℕ → BrokerWord → Datetime → Option ℕ → ℕ → Table → Result ObserveError OrderStateEvent × Table
recover_found order word at none fresh rows = (err no_evidence, rows)
recover_found order word at (some source) fresh rows =
    if source == 0
    then (err no_evidence, rows)
    else let (r, events) = append_broker_state order word at source fresh rows in
      (either state_refused r, events)

-- `recover_submission_timeout`; `timeout_reason` stands for the text of its reason.
unfoldable pub recover_submission_timeout :
    ℕ
    → ℕ
    → Datetime
    → Option (BrokerWord × Option ℕ)
    → Option ℕ
    → ℕ
    → Table
    → Result ObserveError OrderStateEvent × Table
unfolding append append_broker_state
recover_submission_timeout timeout_reason order at none source fresh rows =
    let (r, events) =
      append
        (record {
          broker_order_id = order;
          state = review_required;
          observed_at_utc = at;
          source_response_id = source;
          reason = some timeout_reason;
          external_initial = false;
        })
        fresh rows in
    (either state_refused r, events)
recover_submission_timeout timeout_reason order at (some (word, found)) source fresh rows =
    recover_found order word at (evidence_id found source) fresh rows
