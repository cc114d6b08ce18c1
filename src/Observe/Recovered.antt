-- ===== src/Observe/Recovered.antt =====
-- What a recovered submission leaves.
use toss_trading_core.Prelude.{
  Bool-cases, Datetime, Option, Result, ap, err, false, inl, inr, none, ok, ok_inj, some, ℕ, ◌==◌,
  ◌≡◌,
}
use toss_trading_core.Observe.{state_refused}
use toss_trading_core.Observe.Calls.{either}
use toss_trading_core.Observe.Recover.{evidence_id, recover_found, recover_submission_timeout}
use toss_trading_core.Orders.{
  BrokerWord, OrderError, OrderState, normalize_broker_order_state, review_required,
}
use toss_trading_core.Orders.Newest.{HasUniqueIds, append-newest, append_broker_state-newest}
use toss_trading_core.Orders.Repository.{OrderStateEvent, Table, append_broker_state, latest}

-- What the answer of the broker's lookup says of the order.
abbrev pub answered_state : Option (BrokerWord × Option ℕ) → OrderState
answered_state none = review_required
answered_state (some (word, found)) = normalize_broker_order_state word

either-ok :
    (r : Result OrderError OrderStateEvent) (e : OrderStateEvent)
    → either state_refused r ≡ ok e
    → r ≡ ok e
either-ok (err x) e h = cc h
either-ok (ok x) e h = ap ok (ok_inj h)

recover_found-newest :
    (order : ℕ) (word : BrokerWord) (at : Datetime) (source : Option ℕ) (fresh : ℕ) (rows : Table)
    (e : OrderStateEvent)
    → HasUniqueIds rows
    → (recover_found order word at source fresh rows).0 ≡ ok e
    → (latest order (recover_found order word at source fresh rows).1 ≡ some e)
      × (e.state ≡ normalize_broker_order_state word)
recover_found-newest order word at none fresh rows e u = λ h. cc h
recover_found-newest order word at (some source) fresh rows e u = elim (Bool-cases (source == 0)) [
  | inl y ↦ rw y (λ h. cc h)
  | inr n ↦ rw n (λ h.
      append_broker_state-newest order word at source fresh rows e u
        (either-ok (append_broker_state order word at source fresh rows).0 e h))
]

-- With an id for each row, the event that the recovery of a submission returns is the latest of the
-- order then. It has the state that the broker's answer names, and REVIEW_REQUIRED without an answer.
pub recover_submission_timeout-newest :
    (timeout_reason order : ℕ) (at : Datetime) (answer : Option (BrokerWord × Option ℕ))
    (source : Option ℕ) (fresh : ℕ) (rows : Table) (e : OrderStateEvent)
    → HasUniqueIds rows
    → (recover_submission_timeout timeout_reason order at answer source fresh rows).0 ≡ ok e
    → (latest order (recover_submission_timeout timeout_reason order at answer source fresh rows).1
        ≡ some e)
      × (e.state ≡ answered_state answer)
unfolding recover_submission_timeout
recover_submission_timeout-newest timeout_reason order at none source fresh rows e u h =
    append-newest
      (record {
        broker_order_id = order;
        state = review_required;
        observed_at_utc = at;
        source_response_id = source;
        reason = some timeout_reason;
        external_initial = false;
      })
      fresh rows e u (either-ok _ e h)
recover_submission_timeout-newest timeout_reason order at (some (word, found)) source fresh rows e u
      h =
    recover_found-newest order word at (evidence_id found source) fresh rows e u h
