-- ===== src/Ledger/Reservations.antt =====
-- The events that reserve cash or shares for an open order: the common part of `reserve_open_order`
-- of asset_management/ledger/cash.py and `reserve_sell` of positions.py beside it, and the query
-- of what is reserved in `state` of both.
use toss_trading_core.Prelude.{
  Bool, List, Option, Result, [], err, false, if◌then◌else◌, ltb, max, none, not, ok, some, true, ℕ,
  ◌&&◌, ◌+◌, ◌==◌, ◌||◌, ◌∷◌,
}
use toss_trading_core.Ledger.{
  Evidence, LedgerError, identity_changed, in_span, integrity, is_in, reservation_conflict,
  time_backwards,
}

-- Status RESERVED or RELEASED.
pub data ReservationStatus : Type 0 where
  reserved_status released_status : ReservationStatus

abbrev pub same_status : ReservationStatus → ReservationStatus → Bool
same_status reserved_status reserved_status = true
same_status reserved_status released_status = false
same_status released_status reserved_status = false
same_status released_status released_status = true

-- What a call asks for: `subject` is the currency or the instrument.
pub record Reservation : Type 0 where
  pub broker_order_id : ℕ
  pub account_id : ℕ
  pub subject : ℕ
  pub amount : ℕ
  pub status : ReservationStatus
  pub source_response_id : ℕ
  pub observed_at_utc : ℕ

-- A row of `am_cash_reservation_event` or of `am_position_reservation_event`.
pub record ReservationRow : Type 0 where
  pub reservation_event_id : ℕ
  pub sequence_no : ℕ
  pub body : Reservation

-- A row for the same order from the same response.
unfoldable pub find_reservation : ℕ → ℕ → List ReservationRow → Option ReservationRow
find_reservation order source [] = none
find_reservation order source (r ∷ rows) =
    let rest = find_reservation order source rows in
    if r.body.broker_order_id == order && r.body.source_response_id == source then some r else rest

abbrev pub later : ReservationRow → Option ReservationRow → Option ReservationRow
later r none = some r
later r (some s) = if ltb s.sequence_no r.sequence_no then some r else some s

-- ORDER BY sequence_no DESC LIMIT 1
unfoldable pub latest_of : ℕ → List ReservationRow → Option ReservationRow
latest_of order [] = none
latest_of order (r ∷ rows) =
    let rest = latest_of order rows in
    if r.body.broker_order_id == order then later r rest else rest

-- The stored values are the requested ones.
abbrev pub same_reservation : Reservation → Reservation → Bool
same_reservation a b =
    a.account_id == b.account_id
    && a.subject == b.subject
    && a.amount == b.amount
    && same_status a.status b.status
    && a.observed_at_utc == b.observed_at_utc

-- The next sequence number of an order, whose account and subject stay and whose times never fall.
abbrev pub sequence_after : Reservation → Option ReservationRow → Result LedgerError ℕ
sequence_after q none = ok 1
sequence_after q (some r) =
    if r.body.account_id == q.account_id && r.body.subject == q.subject
    then (if ltb q.observed_at_utc r.body.observed_at_utc
        then err time_backwards
        else ok (r.sequence_no + 1))
    else err identity_changed

abbrev pub has_id : ℕ → List ReservationRow → Bool
has_id id [] = false
has_id id (r ∷ rows) = r.reservation_event_id == id || has_id id rows

-- The primary key is free, and the order and the response are stored.
abbrev pub can_reserve : ℕ → Reservation → Evidence → List ReservationRow → Bool
can_reserve fresh q evidence rows =
    not (has_id fresh rows)
    && is_in q.broker_order_id evidence.broker_orders
    && is_in q.source_response_id evidence.raw_responses

abbrev pub insert_reservation :
    ℕ
    → Reservation
    → Evidence
    → Result LedgerError ℕ
    → List ReservationRow
    → Result LedgerError ℕ × List ReservationRow
insert_reservation fresh q evidence (err e) rows = (err e, rows)
insert_reservation fresh q evidence (ok n) rows =
    if can_reserve fresh q evidence rows
    then (ok fresh, record { reservation_event_id = fresh; sequence_no = n; body = q } ∷ rows)
    else (err integrity, rows)

abbrev pub reserve_unless_known :
    ℕ
    → Reservation
    → Evidence
    → Option ReservationRow
    → List ReservationRow
    → Result LedgerError ℕ × List ReservationRow
reserve_unless_known fresh q evidence (some r) rows =
    if same_reservation q r.body
    then (ok r.reservation_event_id, rows)
    else (err reservation_conflict, rows)
reserve_unless_known fresh q evidence none rows =
    insert_reservation fresh q evidence (sequence_after q (latest_of q.broker_order_id rows)) rows

-- The part of both calls that reads and writes the table.
unfoldable pub reserve :
    ℕ → Reservation → Evidence → List ReservationRow → Result LedgerError ℕ × List ReservationRow
unfolding find_reservation latest_of
reserve fresh q evidence rows =
    reserve_unless_known fresh q evidence
      (find_reservation q.broker_order_id q.source_response_id rows) rows

-- The window of a state: an account, a subject, and the times from its opening to its own.
pub record Window : Type 0 where
  pub account_id : ℕ
  pub subject : ℕ
  pub from_utc : ℕ
  pub to_utc : ℕ

abbrev pub in_window : Window → Reservation → Bool
in_window w q =
    q.account_id == w.account_id
    && q.subject == w.subject
    && in_span w.from_utc w.to_utc q.observed_at_utc

-- MAX(sequence_no) of the events of an order in the window; 0 when it has none.
unfoldable pub sequence_in : Window → ℕ → List ReservationRow → ℕ
sequence_in w order [] = 0
sequence_in w order (r ∷ rows) =
    let rest = sequence_in w order rows in
    if r.body.broker_order_id == order && in_window w r.body then max r.sequence_no rest else rest

abbrev pub if_reserved : ReservationStatus → ℕ → ℕ
if_reserved reserved_status n = n
if_reserved released_status n = 0

-- What a row holds: its amount when it is the last one of its order.
abbrev pub held_by : Window → List ReservationRow → ReservationRow → ℕ
held_by w rows r =
    if r.sequence_no == sequence_in w r.body.broker_order_id rows
    then if_reserved r.body.status r.body.amount
    else 0

unfoldable pub sum_held : Window → List ReservationRow → List ReservationRow → ℕ
unfolding sequence_in
sum_held w rows [] = 0
sum_held w rows (r ∷ rest) = held_by w rows r + sum_held w rows rest

-- The sum over the orders of what their last event in the window reserves.
unfoldable pub reserved_total : Window → List ReservationRow → ℕ
unfolding sum_held
reserved_total w rows = sum_held w rows rows
