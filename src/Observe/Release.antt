-- ===== src/Observe/Release.antt =====
-- `_release_reservations` of asset_management/execution/fills.py. An account, a subject and the
-- largest sequence number name one row, so its status is that of the row itself. The id of uuid4 for
-- a release is a function of the row that it releases.
use toss_trading_core.Prelude.{
  Bool, List, Result, [], false, if◌then◌else◌, is_some, leb, not, ok, require, true, ℕ, ◌&&◌, ◌+◌,
  ◌==◌, ◌>>=◌, ◌>>◌, ◌||◌, ◌∷◌,
}
use toss_trading_core.Ledger.{Evidence}
use toss_trading_core.Ledger.Reservations.{
  Reservation, ReservationRow, ReservationStatus, can_reserve, find_reservation, released_status,
  reserved_status,
}
use toss_trading_core.Observe.{ObserveError, release_conflict, release_integrity}
use toss_trading_core.Posting.{Books}

abbrev pub same_group : ReservationRow → ReservationRow → Bool
same_group r s =
    r.body.broker_order_id == s.body.broker_order_id
    && r.body.account_id == s.body.account_id
    && r.body.subject == s.body.subject

-- The row has the largest number among those of its order, account and subject.
unfoldable pub is_last : ReservationRow → List ReservationRow → Bool
is_last r [] = true
is_last r (s ∷ rows) = (not (same_group s r) || leb s.sequence_no r.sequence_no) && is_last r rows

abbrev pub is_reserved : ReservationStatus → Bool
is_reserved reserved_status = true
is_reserved released_status = false

abbrev pub release_of : ReservationRow → ℕ → ℕ → Reservation
release_of r source at = record r.body {
  amount = 0;
  status = released_status;
  source_response_id = source;
  observed_at_utc = at;
}

abbrev pub release_row : (ℕ → ℕ) → ReservationRow → ℕ → ℕ → ReservationRow
release_row fresh r source at = record {
  reservation_event_id = fresh r.reservation_event_id;
  sequence_no = r.sequence_no + 1;
  body = release_of r source at;
}

-- The release of one row: its response must be new for the order.
unfoldable pub release_one :
    (ℕ → ℕ)
    → Evidence
    → ℕ
    → ℕ
    → ReservationRow
    → List ReservationRow
    → Result ObserveError (List ReservationRow)
unfolding find_reservation
release_one fresh known source at r rows = do
  require (not (is_some (find_reservation r.body.broker_order_id source rows))) release_conflict
  require (can_reserve (fresh r.reservation_event_id) (release_of r source at) known rows)
      release_integrity
  ok (release_row fresh r source at ∷ rows)

abbrev pub must_release : ℕ → List ReservationRow → ReservationRow → Bool
must_release order all r =
    r.body.broker_order_id == order && is_last r all && is_reserved r.body.status

-- The loop over the rows that were fetched, `todo` of them left.
unfoldable pub release_all :
    (ℕ → ℕ)
    → Evidence
    → ℕ
    → ℕ
    → ℕ
    → List ReservationRow
    → List ReservationRow
    → List ReservationRow
    → Result ObserveError (List ReservationRow)
unfolding release_one is_last
release_all fresh known order source at all [] rows = ok rows
release_all fresh known order source at all (r ∷ todo) rows =
    (if must_release order all r then release_one fresh known source at r rows else ok rows)
    >>= release_all fresh known order source at all todo

unfoldable pub release :
    (ℕ → ℕ) → Evidence → ℕ → ℕ → ℕ → List ReservationRow → Result ObserveError (List ReservationRow)
unfolding release_all
release fresh known order source at rows = release_all fresh known order source at rows rows rows

-- `_release_reservations`: the cash, then the shares.
unfoldable pub release_reservations :
    (ℕ → ℕ) → Evidence → ℕ → ℕ → ℕ → Books → Result ObserveError Books
unfolding release
release_reservations fresh known order source at b = do
  cash ← release fresh known order source at b.cash.reservations
  shares ← release fresh known order source at b.shares.sell_reservations
  ok (record b {
    cash = record b.cash { reservations = cash };
    shares = record b.shares { sell_reservations = shares };
  })
