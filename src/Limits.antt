-- ===== src/Limits.antt =====
-- The token bucket of asset_management/broker/rate_limit.py. Tokens are counted in units, `unit` to
-- one token, and times in ticks of a clock that does not go back; the refill is a number of units
-- for each tick. A wait is given by the units that are missing, without the division by the refill.
-- Floats are taken as exact.
pub mod Spent
pub mod Granted
mod Tests
use toss_trading_core.Prelude.{
  Bool, List, Option, Result, [], err, if◌then◌else◌, leb, ltb, min, none, not, ok, require, some,
  ℕ, ◌&&◌, ◌*◌, ◌+◌, ◌-◌, ◌==◌, ◌>>=◌, ◌>>◌, ◌||◌, ◌∷◌,
}

pub record TokenBucket : Type 0 where
  pub capacity : ℕ
  pub refill : ℕ
  pub tokens : ℕ
  pub updated_at : ℕ

pub data LimitError : Type 0 where
  capacity_not_positive refill_not_positive tokens_not_positive : LimitError

abbrev pub or_default : Option ℕ → ℕ → ℕ
or_default none n = n
or_default (some m) n = m

-- `TokenBucket.__post_init__`, at a time.
unfoldable pub make_bucket : ℕ → ℕ → Option ℕ → Option ℕ → ℕ → Result LimitError TokenBucket
make_bucket capacity refill tokens updated now = do
  require (not (capacity == 0)) capacity_not_positive
  require (not (refill == 0)) refill_not_positive
  ok (record {
    capacity = capacity;
    refill = refill;
    tokens = or_default tokens capacity;
    updated_at = or_default updated now;
  })

abbrev pub refilled : ℕ → TokenBucket → ℕ
refilled now b = min b.capacity (b.tokens + (now - b.updated_at) * b.refill)

-- `try_acquire`: nothing if the tokens were there, else what is missing.
unfoldable pub try_acquire : ℕ → ℕ → TokenBucket → Result LimitError (Option ℕ) × TokenBucket
try_acquire n now b =
    if n == 0
    then (err tokens_not_positive, b)
    else if leb n (refilled now b)
    then (ok none, record b { tokens = refilled now b - n; updated_at = now })
    else (ok (some (n - refilled now b)), record b { tokens = refilled now b; updated_at = now })

abbrev pub wait_or_done :
    Result LimitError (Option ℕ) × TokenBucket
    → Result LimitError (Option ℕ) × TokenBucket
    → Result LimitError (Option ℕ) × TokenBucket
wait_or_done (err e, b) again = (err e, b)
wait_or_done (ok none, b) again = (ok none, b)
wait_or_done (ok (some w), b) again = again

-- `acquire`: it tries at each reading of the clock, until the tokens are there or the readings end.
-- The sum of the waits, which the code returns, is not kept.
unfoldable pub acquire_tokens :
    ℕ → List ℕ → TokenBucket → Result LimitError (Option ℕ) × TokenBucket
unfolding try_acquire
acquire_tokens n [] b = (ok (some n), b)
acquire_tokens n (now ∷ times) b =
    let r = try_acquire n now b in let again = acquire_tokens n times r.1 in wait_or_done r again

-- A header: not there, no finite number, or a number of units.
pub data Header : Type 0 where
  absent unusable : Header
  number : ℕ → Header

abbrev pub with_limit : ℕ → Header → TokenBucket → TokenBucket
with_limit unit absent b = b
with_limit unit unusable b = b
with_limit unit (number n) b = if leb unit n then record b { capacity = n } else b

abbrev pub with_remaining : Header → TokenBucket → TokenBucket
with_remaining absent b = b
with_remaining unusable b = b
with_remaining (number n) b = record b { tokens = min b.capacity n }

-- `update_from_headers`
unfoldable pub update_from_headers : ℕ → Header → Header → TokenBucket → TokenBucket
update_from_headers unit limit remaining b = with_remaining remaining (with_limit unit limit b)

-- `retry_after_seconds`: the first header of that name, told by its flag.
unfoldable pub retry_after : List (Bool × Option ℕ) → Option ℕ
retry_after [] = none
retry_after ((named, value) ∷ headers) =
    let rest = retry_after headers in if named then value else rest

-- `ReadPriority`, and `priority_order` of reads by priority and sequence.
pub data ReadPriority : Type 0 where
  existing_order_state cancel_or_modify_state account_reconciliation new_market_data : ReadPriority

abbrev pub priority_value : ReadPriority → ℕ
priority_value existing_order_state = 0
priority_value cancel_or_modify_state = 1
priority_value account_reconciliation = 2
priority_value new_market_data = 3

pub record PrioritizedRead : Type 0 where
  pub priority : ReadPriority
  pub endpoint : ℕ
  pub sequence : ℕ

abbrev pub not_after : PrioritizedRead → PrioritizedRead → Bool
not_after a b =
    ltb (priority_value a.priority) (priority_value b.priority)
    || (priority_value a.priority == priority_value b.priority && leb a.sequence b.sequence)

-- A stable sort: an equal read that came earlier stays in front.
unfoldable pub insert_read : PrioritizedRead → List PrioritizedRead → List PrioritizedRead
insert_read r [] = r ∷ []
insert_read r (s ∷ reads) =
    let rest = insert_read r reads in if not_after r s then r ∷ s ∷ reads else s ∷ rest

unfoldable pub priority_order : List PrioritizedRead → List PrioritizedRead
unfolding insert_read
priority_order [] = []
priority_order (r ∷ reads) = insert_read r (priority_order reads)
