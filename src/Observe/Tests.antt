-- ===== src/Observe/Tests.antt =====
-- The cancellation of an order with cash reserved, and the theorem at it.
use toss_trading_core.Prelude.{[], ap, arith, aware, err, none, ok, refl, some, ◌+◌, ◌/◌, ◌∷◌, ◌≡◌}
use toss_trading_core.Ledger.Reservations.{ReservationRow, reserved_status}
use toss_trading_core.Lots.{exactly}
use toss_trading_core.Observe.{Desk, fill_needs_context, state_refused}
use toss_trading_core.Observe.Calls.{ObservedOrder, Sighting, World, observe}
use toss_trading_core.Observe.Recover.{recover_submission_timeout}
use toss_trading_core.Observe.Recovered.{answered_state, recover_submission_timeout-newest}
use toss_trading_core.Observe.Rollback.{evidence_kept, observe-rolled_back}
use toss_trading_core.Observe.Terminal.{InSequence, NothingReserved, observe-NothingReserved}
use toss_trading_core.Orders.{
  canceled, canceled_word, filled_word, other_word, review_required, submitting, unknown,
  unknown_broker_state,
}
use toss_trading_core.Orders.Newest.{HasUniqueIds}
use toss_trading_core.Orders.Repository.{
  OrderStateEvent, append, check_new, find_source, latest, max_sequence,
}
use toss_trading_core.Posting.{Books, buy}
use toss_trading_core.Posting.Context.{Outside}

abbrev outside : Outside
outside = record {
  hash_json = λ v. 5;
  sort_paths = λ paths. paths;
  hash_evidence = λ e. e.execution_delta_id;
  cash_name = λ c delta. delta;
  position_name = λ delta. delta;
  lot_name = λ delta. delta;
  disposal_name = λ delta lot. lot;
  quotient = λ n d. exactly (record { value = n / d; places = 0 });
}

abbrev world : World
world = record {
  outside = outside;
  hash_context = λ ctx. ctx.settlement_date;
  hash_report = λ values. 9;
  event_ids = (71, 72);
  report_ids = (81, 82);
  release_ids = λ row. row + 1000;
}

abbrev cash_reserved : ReservationRow
cash_reserved = record {
  reservation_event_id = 51;
  sequence_no = 1;
  body = record {
    broker_order_id = 21;
    account_id = 1;
    subject = 2;
    amount = 600;
    status = reserved_status;
    source_response_id = 6;
    observed_at_utc = 100;
  };
}

abbrev books : Books
books = record {
  orders =
      (21, record { account_id = 1; instrument = 3; side = some (some buy); currency = 2 }) ∷ [];
  snapshots = [];
  deltas = [];
  responses = [];
  evidence = [];
  contexts = [];
  components = [];
  postings = [];
  cash = record {
    openings = [];
    ledger = [];
    metadata = [];
    authorizations = [];
    reservations = cash_reserved ∷ [];
  };
  shares = record {
    position_openings = [];
    position_rows = [];
    settlements = [];
    sell_reservations = [];
    lot_tables = record { lots = []; disposals = [] };
  };
}

abbrev desk : Desk
desk = record {
  order_events = [];
  ordered = (21, some 10) ∷ [];
  known = record { raw_responses = 6 ∷ 7 ∷ []; dataset_manifests = []; broker_orders = 21 ∷ [] };
  books = books;
}

abbrev cancellation : Sighting
cancellation = record {
  broker_order_id = 21;
  raw_state = canceled_word;
  observed_at_utc = aware 200;
  source_response_id = 7;
  execution = none;
  posting_context = none;
}

abbrev canceled_event : OrderStateEvent
canceled_event = record {
  order_state_event_id = 72;
  broker_order_id = 21;
  sequence_no = 1;
  previous_state = none;
  state = canceled;
  observed_at_utc = 200;
  source_response_id = some 7;
  reason = none;
}

abbrev canceled_order : ObservedOrder
canceled_order = record {
  state_event = canceled_event;
  execution_snapshot = none;
  execution_delta = none;
  posting = none;
}

cancellation-observed : (observe world cancellation desk).0 ≡ ok canceled_order
unfolding observe append find_source check_new latest max_sequence
cancellation-observed = refl

-- A filled order without its execution is refused, and nothing is stored.
bare_fill-refused :
    observe world (record cancellation { raw_state = filled_word }) desk
    ≡ (err fill_needs_context, desk)
unfolding observe
bare_fill-refused = refl

cash-sequenced : InSequence books
cash-sequenced = ((omega arith, tt, tt), tt)

observe-NothingReserved_example : NothingReserved 21 (observe world cancellation desk).1.books
observe-NothingReserved_example =
    observe-NothingReserved world cancellation desk canceled_order cash-sequenced
      cancellation-observed refl

abbrev submitting_event : OrderStateEvent
submitting_event = record {
  order_state_event_id = 71;
  broker_order_id = 21;
  sequence_no = 1;
  previous_state = none;
  state = submitting;
  observed_at_utc = 100;
  source_response_id = none;
  reason = none;
}

abbrev review_event : OrderStateEvent
review_event = record {
  order_state_event_id = 72;
  broker_order_id = 21;
  sequence_no = 2;
  previous_state = some submitting;
  state = review_required;
  observed_at_utc = 200;
  source_response_id = none;
  reason = some 5;
}

-- The broker's lookup finds nothing.
timeout-reviewed :
    recover_submission_timeout 5 21 (aware 200) none none 72 (submitting_event ∷ [])
    ≡ (ok review_event, review_event ∷ submitting_event ∷ [])
unfolding recover_submission_timeout append find_source check_new latest max_sequence
timeout-reviewed = refl

one_row-HasUniqueIds : HasUniqueIds (submitting_event ∷ [])
one_row-HasUniqueIds = (((λ h. refl), tt), tt)

recover_submission_timeout-newest_example :
    (latest 21 (recover_submission_timeout 5 21 (aware 200) none none 72 (submitting_event ∷ [])).1
      ≡ some review_event)
    × (review_event.state ≡ answered_state none)
recover_submission_timeout-newest_example =
    recover_submission_timeout-newest 5 21 (aware 200) none none 72 (submitting_event ∷ [])
      review_event one_row-HasUniqueIds (ap (λ p. p.0) timeout-reviewed)

abbrev odd_word : Sighting
odd_word = record cancellation { raw_state = other_word 3 }

-- The word is refused, and the event UNKNOWN stays.
odd_word-refused : observe world odd_word desk ≡ (
  err (state_refused unknown_broker_state),
  record desk {
    order_events =
        record canceled_event { order_state_event_id = 71; state = unknown; reason = some 3 } ∷ [];
  },
)
unfolding observe append find_source check_new latest max_sequence
odd_word-refused = refl

observe-rolled_back_example :
    (observe world odd_word desk).1
    ≡ record desk { order_events = evidence_kept world odd_word desk }
observe-rolled_back_example =
    observe-rolled_back world odd_word desk (state_refused unknown_broker_state)
      (ap (λ p. p.0) odd_word-refused)
