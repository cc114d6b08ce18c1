-- ===== src/Limits/Tests.antt =====
-- Runs of the token bucket, and the theorem at an input.
use toss_trading_core.Prelude.{[], arith, false, none, ok, refl, some, true, ℕ, ◌+◌, ◌∷◌, ◌≡◌, ◌≤◌}
use toss_trading_core.Limits.{
  PrioritizedRead, ReadPriority, TokenBucket, acquire_tokens, existing_order_state, insert_read,
  make_bucket, new_market_data, number, priority_order, retry_after, try_acquire,
  update_from_headers,
}
use toss_trading_core.Limits.Granted.{acquire_tokens-served, acquire_tokens-starved}
use toss_trading_core.Limits.Spent.{earned, run_tries, run_tries-earned}

abbrev bucket : TokenBucket
bucket = record { capacity = 10; refill = 2; tokens = 10; updated_at = 100 }

bucket_made : make_bucket 10 2 none none 100 ≡ ok bucket
unfolding make_bucket
bucket_made = refl

taken : (run_tries ((0, 8) ∷ (1, 5) ∷ (3, 5) ∷ []) bucket).0 ≡ 13
unfolding run_tries try_acquire
taken = refl

waited :
    acquire_tokens 5 (101 ∷ 102 ∷ []) (record bucket { tokens = 1 })
    ≡ (ok none, record { capacity = 10; refill = 2; tokens = 0; updated_at = 102 })
unfolding acquire_tokens try_acquire
waited = refl

lowered :
    update_from_headers 1 (number 5) (number 9) bucket
    ≡ record { capacity = 5; refill = 2; tokens = 5; updated_at = 100 }
unfolding update_from_headers
lowered = refl

retried : retry_after ((false, some 3) ∷ (true, some 7) ∷ []) ≡ some 7
unfolding retry_after
retried = refl

abbrev read : ReadPriority → ℕ → PrioritizedRead
read p n = record { priority = p; endpoint = 1; sequence = n }

first_orders :
    priority_order
      (read new_market_data 1 ∷ read existing_order_state 3 ∷ read existing_order_state 2 ∷ [])
    ≡ read existing_order_state 2 ∷ read existing_order_state 3 ∷ read new_market_data 1 ∷ []
unfolding priority_order insert_read
first_orders = refl

run_tries-earned_example :
    (run_tries ((0, 8) ∷ (1, 5) ∷ (3, 5) ∷ []) bucket).0
      + (run_tries ((0, 8) ∷ (1, 5) ∷ (3, 5) ∷ []) bucket).1.tokens
    ≤ 10 + earned 2 ((0, 8) ∷ (1, 5) ∷ (3, 5) ∷ [])
run_tries-earned_example = run_tries-earned ((0, 8) ∷ (1, 5) ∷ (3, 5) ∷ []) bucket

first_told : (try_acquire 5 101 (record bucket { tokens = 1 })).0 ≡ ok (some 2)
unfolding try_acquire
first_told = refl

acquire_tokens-served_example :
    (acquire_tokens 5 (101 ∷ 102 ∷ 110 ∷ []) (record bucket { tokens = 1 })).0 ≡ ok none
acquire_tokens-served_example =
    acquire_tokens-served 5 101 102 2 (110 ∷ []) (record bucket { tokens = 1 }) (ground arith)
      first_told (ground arith)

acquire_tokens-starved_example : (acquire_tokens 11 (101 ∷ 500 ∷ []) bucket).0 ≡ ok (some 11)
acquire_tokens-starved_example = acquire_tokens-starved 11 (101 ∷ 500 ∷ []) bucket (ground arith)
