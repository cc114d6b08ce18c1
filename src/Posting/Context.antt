-- ===== src/Posting/Context.antt =====
-- `ExecutionPostingContext` of asset_management/ledger/posting.py, and the functions from outside
-- that a posting uses.
use toss_trading_core.Prelude.{
  Bool, List, Option, Result, err, false, if◌then◌else◌, not, ok, require, true, ℕ, ◌&&◌, ◌==◌,
  ◌>>=◌, ◌>>◌,
}
use toss_trading_core.Lots.{Amount, Given, below_zero, exactly, invalid}
use toss_trading_core.Posting.{
  Component, Json, PostError, SettlementEvidence, Side, buy, context_incomplete, fx_invalid,
  fx_or_policy_required, sell, unsupported_policy, unsupported_side,
}
use toss_trading_core.Posting.Settlement.{found_or}

-- The hashes of a JSON value, of evidence and of a context, the order of texts, the ids of uuid5,
-- and the quotient of two decimals.
pub record Outside : Type 0 where
  pub hash_json : Json → ℕ
  pub sort_paths : List (List ℕ) → List (List ℕ)
  pub hash_evidence : SettlementEvidence → ℕ
  pub cash_name : Component → ℕ → ℕ
  pub position_name : ℕ → ℕ
  pub lot_name : ℕ → ℕ
  pub disposal_name : ℕ → ℕ → ℕ
  pub quotient : ℕ → ℕ → Given

-- The tax policy version: blank, FIFO-v1, or another.
pub data Policy : Type 0 where
  blank_policy fifo_policy other_policy : Policy

-- The context after its checks; its policy is FIFO-v1.
pub record PostingContext : Type 0 where
  pub account_id : ℕ
  pub instrument_id : ℕ
  pub side : Side
  pub currency : ℕ
  pub settlement_date : ℕ
  pub fx_rate : Amount

abbrev pub rate_of : Given → Result PostError Given
rate_of invalid = err fx_invalid
rate_of below_zero = ok below_zero
rate_of (exactly a) = ok (exactly a)

abbrev pub positive_rate : Policy → Given → Result PostError Amount
positive_rate blank_policy g = err fx_or_policy_required
positive_rate fifo_policy invalid = err fx_invalid
positive_rate fifo_policy below_zero = err fx_or_policy_required
positive_rate fifo_policy (exactly a) = if a.value == 0 then err fx_or_policy_required else ok a
positive_rate other_policy invalid = err fx_invalid
positive_rate other_policy below_zero = err fx_or_policy_required
positive_rate other_policy (exactly a) =
    if a.value == 0 then err fx_or_policy_required else err unsupported_policy

-- `__post_init__`; a side that is not BUY or SELL once it is stripped and in capitals is none.
unfoldable pub make_context :
    ℕ → ℕ → Option Side → ℕ → Option ℕ → Policy → Given → Result PostError PostingContext
make_context account instrument side currency settlement policy fx_rate = do
  s ← found_or unsupported_side side
  require (not (account == 0) && not (instrument == 0) && not (currency == 0)) context_incomplete
  day ← found_or context_incomplete settlement
  g ← rate_of fx_rate
  rate ← positive_rate policy g
  ok (record {
    account_id = account;
    instrument_id = instrument;
    side = s;
    currency = currency;
    settlement_date = day;
    fx_rate = rate;
  })

abbrev pub same_side : Side → Side → Bool
same_side buy buy = true
same_side buy sell = false
same_side sell buy = false
same_side sell sell = true
