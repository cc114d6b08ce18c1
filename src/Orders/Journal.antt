-- ===== src/Orders/Journal.antt =====
-- The table that `OrderStateRepository.append` keeps: per order the sequence numbers run without a
-- gap, the times do not fall, and each row goes on from the row before it.
use toss_trading_core.Prelude.{
  Datetime, Option, Option-cases, [], arith, aware, if◌then◌else◌, inl, inr, naive, none, ok, refl,
  some, ℕ, ◌+◌, ◌==◌, ◌∷◌, ◌≡◌, ◌≤◌,
}
use toss_trading_core.Orders.{assert_order_transition}
use toss_trading_core.Orders.Repository.{
  Observation, OrderStateEvent, Table, append, append_at, check_new, later, latest, max_sequence,
  new_event,
}

-- How a row goes on from the latest row of its order.
abbrev pub Follows : OrderStateEvent → Option OrderStateEvent → Type 0
Follows r none = (r.sequence_no ≡ 1) × (r.previous_state ≡ none)
Follows r (some q) =
    (r.sequence_no ≡ q.sequence_no + 1)
    × (r.previous_state ≡ some q.state)
    × (q.observed_at_utc ≤ r.observed_at_utc)
    × (assert_order_transition (some q.state) r.state ≡ ok tt)

abbrev pub IsJournal : Table → Type 0
IsJournal [] = Unit
IsJournal (r ∷ rows) = Follows r (latest r.broker_order_id rows) × IsJournal rows

abbrev sequence_of : Option OrderStateEvent → ℕ
sequence_of none = 0
sequence_of (some e) = e.sequence_no

max_sequence-latest :
    (order : ℕ) (rows : Table) → max_sequence order rows ≡ sequence_of (latest order rows)
unfolding max_sequence latest
max_sequence-latest order [] = refl
max_sequence-latest order (r ∷ rows) = ground (arith, max_sequence-latest order rows)

pub later-Follows :
    (r : OrderStateEvent) (o : Option OrderStateEvent) → Follows r o → later r o ≡ some r
later-Follows r none f = refl
later-Follows r (some q) f = ground arith

-- In a journal the newest row of an order is its latest.
pub latest-cons :
    (order : ℕ) (r : OrderStateEvent) (rows : Table)
    → IsJournal (r ∷ rows)
    → latest order (r ∷ rows) ≡ (if r.broker_order_id == order then some r else latest order rows)
unfolding latest
latest-cons order r rows j = ground (arith, later-Follows r (latest r.broker_order_id rows) j.0)

-- What `check_new` accepts goes on from the latest row.
pub check_new-Follows :
    (o : Observation) (instant fresh : ℕ) (rows : Table)
    → check_new o instant (latest o.broker_order_id rows) ≡ ok tt
    → Follows (new_event o instant fresh rows) (latest o.broker_order_id rows)
unfolding check_new
check_new-Follows o instant fresh rows h = elim (Option-cases (latest o.broker_order_id rows)) [
  | inl e ↦ rw e (ground (arith, max_sequence-latest o.broker_order_id rows))
  | inr (q, e) ↦ rw e (ground (arith, max_sequence-latest o.broker_order_id rows))
]

-- A row that was just stored is the latest of its order.
pub latest-new_event :
    (o : Observation) (instant fresh : ℕ) (rows : Table)
    → check_new o instant (latest o.broker_order_id rows) ≡ ok tt
    → latest o.broker_order_id (new_event o instant fresh rows ∷ rows)
      ≡ some (new_event o instant fresh rows)
unfolding latest
latest-new_event o instant fresh rows c = ground (
  arith,
  later-Follows (new_event o instant fresh rows) (latest o.broker_order_id rows),
  check_new-Follows o instant fresh rows c,
)

pub append_at-IsJournal :
    (o : Observation) (t : Datetime) (fresh : ℕ) (rows : Table)
    → IsJournal rows
    → IsJournal (append_at o t fresh rows).1
unfolding append_at
append_at-IsJournal o naive fresh rows j = j
append_at-IsJournal o (aware instant) fresh rows j =
    ground (arith, check_new-Follows o instant fresh rows)

-- Every call of `append`, accepted or refused, keeps the journal.
pub append-IsJournal :
    (o : Observation) (fresh : ℕ) (rows : Table)
    → IsJournal rows
    → IsJournal (append o fresh rows).1
unfolding append
append-IsJournal o fresh rows j = append_at-IsJournal o o.observed_at_utc fresh rows j
