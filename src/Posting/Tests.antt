-- ===== src/Posting/Tests.antt =====
-- The posting of a purchase and of a sale, and each theorem at an input that meets its hypotheses.
use toss_trading_core.Prelude.{
  [], aware, err, false, none, ok, refl, some, true, ℕ, ◌*◌, ◌+◌, ◌/◌, ◌∷◌, ◌≡◌,
}
use toss_trading_core.Executions.{ExecutionDelta, Values}
use toss_trading_core.Lots.{exactly}
use toss_trading_core.Posting.{
  Books, Component, Json, SettlementEvidence, buy, commission_part, element, json_list, json_object,
  json_text, member, no_elements, no_members, principal, settlement_conflict, tax_part,
}
use toss_trading_core.Posting.Again.{post_again}
use toss_trading_core.Posting.Booked.{IsBooked, post-IsBooked}
use toss_trading_core.Posting.Context.{Outside, PostingContext, fifo_policy, make_context}
use toss_trading_core.Posting.Post.{ExecutionPosting, find_posting, post}
use toss_trading_core.Posting.Settled.{IsSettled, resolve_settlement-IsSettled}
use toss_trading_core.Posting.Settlement.{resolve_settlement}
use toss_trading_core.Prelude.Int.{negsuc, pos, ◌-ℤ◌}

abbrev cash_number : Component → ℕ → ℕ
cash_number principal delta = delta * 10 + 1
cash_number commission_part delta = delta * 10 + 2
cash_number tax_part delta = delta * 10 + 3

-- Functions from outside that tell their arguments apart where the runs need it.
abbrev outside : Outside
outside = record {
  hash_json = λ v. 5;
  sort_paths = λ paths. paths;
  hash_evidence = λ e. e.execution_delta_id;
  cash_name = cash_number;
  position_name = λ delta. delta * 10 + 4;
  lot_name = λ delta. delta * 10 + 5;
  disposal_name = λ delta lot. delta * 100 + lot;
  quotient = λ n d. exactly (record { value = n / d; places = 0 });
}

abbrev context_hash_of : PostingContext → ℕ
context_hash_of ctx = ctx.settlement_date

abbrev day : ℕ → ℕ
day n = n * 86400000000

-- {"fills": [{"settlementDate": day 13}]}
abbrev body_text : Json
body_text = json_object (
    member 1 false
      (json_list
        (element (json_object (member 2 true (json_text (some 13)) no_members)) no_elements))
      no_members)

abbrev ten_bought : Values
ten_bought = record { quantity = 10; amount = 600; commission = 3; tax = 0 }

abbrev bought_delta : ExecutionDelta
bought_delta = record {
  execution_delta_id = 31;
  broker_order_id = 21;
  from_snapshot_id = none;
  to_snapshot_id = 41;
  values = ten_bought;
}

abbrev empty_books : Books
empty_books = record {
  orders =
      (21, record { account_id = 1; instrument = 3; side = some (some buy); currency = 2 }) ∷ [];
  snapshots =
      record {
        execution_snapshot_id = 41;
        broker_order_id = 21;
        sequence_no = 1;
        cumulative = ten_bought;
        average_price = some 60;
        observed_at_utc = day 11;
        source_response_id = 7;
        content_hash = 9;
      }
      ∷ [];
  deltas = bought_delta ∷ [];
  responses =
      record {
        raw_response_id = 7;
        from_toss = true;
        account_id = 1;
        status_code = 200;
        body = body_text;
        response_hash = 5;
      }
      ∷ [];
  evidence = [];
  contexts = [];
  components = [];
  postings = [];
  cash = record {
    openings = [];
    ledger = [];
    metadata = [];
    authorizations = [];
    reservations = [];
  };
  shares = record {
    position_openings = [];
    position_rows = [];
    settlements = [];
    sell_reservations = [];
    lot_tables = record { lots = []; disposals = [] };
  };
}

abbrev purchase : PostingContext
purchase = record {
  account_id = 1;
  instrument_id = 3;
  side = buy;
  currency = 2;
  settlement_date = 13;
  fx_rate = record { value = 1; places = 0 };
}

purchase-made :
    make_context 1 3 (some buy) 2 (some 13) fifo_policy (exactly (record { value = 1; places = 0 }))
    ≡ ok purchase
unfolding make_context
purchase-made = refl

abbrev purchase_posted : ExecutionPosting
purchase_posted = record {
  execution_delta_id = 31;
  cash_event_id = some 311;
  position_event_id = some 314;
  cash_delta = negsuc 602;
  quantity_delta = pos 10;
}

purchase-posts :
    (post outside context_hash_of bought_delta purchase (aware (day 11)) empty_books).0
    ≡ ok purchase_posted
unfolding post ◌-ℤ◌
purchase-posts = refl

-- A posting date that the response does not confirm is refused.
other_day-refused :
    (post outside context_hash_of bought_delta
      (record purchase { settlement_date = 14 })
      (aware (day 11))
      empty_books).0
    ≡ err settlement_conflict
unfolding post
other_day-refused = refl

no_posting : find_posting 31 empty_books.postings ≡ none
unfolding find_posting
no_posting = refl

post-IsBooked_example :
    IsBooked purchase bought_delta purchase_posted empty_books
      (post outside context_hash_of bought_delta purchase (aware (day 11)) empty_books).1
post-IsBooked_example =
    post-IsBooked outside context_hash_of bought_delta purchase (aware (day 11)) empty_books
      purchase_posted no_posting purchase-posts

post_again_example :
    post outside context_hash_of bought_delta purchase
      (aware (day 12))
      (post outside context_hash_of bought_delta purchase (aware (day 11)) empty_books).1
    ≡ (
      ok purchase_posted,
      (post outside context_hash_of bought_delta purchase (aware (day 11)) empty_books).1,
    )
post_again_example =
    post_again outside context_hash_of bought_delta purchase (day 11) (day 12) empty_books
      purchase_posted purchase-posts

abbrev resolved : SettlementEvidence
resolved = record {
  execution_delta_id = 31;
  execution_snapshot_id = 41;
  source_response_id = 7;
  settlement_date = 13;
  extraction_paths = (2 ∷ 0 ∷ 1 ∷ []) ∷ [];
  response_hash = 5;
}

resolved-found :
    resolve_settlement outside.hash_json outside.sort_paths empty_books 31 13 ≡ ok resolved
unfolding resolve_settlement
resolved-found = refl

resolve_settlement-IsSettled_example : IsSettled outside.hash_json empty_books 31 13 resolved
resolve_settlement-IsSettled_example =
    resolve_settlement-IsSettled outside.hash_json outside.sort_paths empty_books 31 13 resolved
      resolved-found
