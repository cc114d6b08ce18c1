-- ===== src/Posting/Post.antt =====
-- `ExecutionLedgerPoster.post` of asset_management/ledger/posting.py.
use toss_trading_core.Prelude.{
  Bool, Datetime, List, Option, Result, [], aware, err, false, if◌then◌else◌, naive, none, not, ok,
  require, some, true, ℕ, ◌&&◌, ◌==◌, ◌>>=◌, ◌>>◌, ◌∷◌,
}
use toss_trading_core.Executions.{ExecutionDelta, Values}
use toss_trading_core.Ledger.Positions.{PositionOpening, find_position}
use toss_trading_core.Posting.{
  Books, ContextRow, OrderRow, PostError, PostingRow, SettlementEvidence, Side, context_conflict,
  delta_conflict, delta_not_stored, naive_posting, opening_currency, order_incomplete, principal,
  replayed_context_conflict,
}
use toss_trading_core.Posting.Context.{Outside, PostingContext, same_side}
use toss_trading_core.Posting.Settlement.{
  find_delta, found_or, require_evidence, resolve_settlement,
}
use toss_trading_core.Posting.Write.{cash_id, position_id, quantity_of, signed_amount, write_all}
use toss_trading_core.Prelude.Dict.{get}
use toss_trading_core.Prelude.Int.{pos, ℤ, ◌-ℤ◌}

-- `ExecutionPosting`
pub record ExecutionPosting : Type 0 where
  pub execution_delta_id : ℕ
  pub cash_event_id : Option ℕ
  pub position_event_id : Option ℕ
  pub cash_delta : ℤ
  pub quantity_delta : ℤ

abbrev pub same_delta_values : Values → Values → Bool
same_delta_values a b =
    a.quantity == b.quantity
    && a.amount == b.amount
    && a.commission == b.commission
    && a.tax == b.tax

-- The side that an order's payload names; none is a blank one.
abbrev pub side_agrees : Side → Option Side → Bool
side_agrees s none = false
side_agrees s (some t) = same_side s t

-- The order's identity is complete, and the context repeats it.
abbrev pub check_identity : PostingContext → OrderRow → Result PostError (Unit {0})
check_identity ctx o = do
  side ← found_or order_incomplete o.side
  require (not (o.instrument == 0) && not (o.currency == 0)) order_incomplete
  require
      (ctx.account_id == o.account_id
        && ctx.instrument_id == o.instrument
        && side_agrees ctx.side side
        && ctx.currency == o.currency)
      context_conflict

abbrev pub opening_agrees : ℕ → Option PositionOpening → Bool
opening_agrees currency none = true
opening_agrees currency (some o) = o.native_currency == currency

-- The checks of a call after that of its time, up to its settlement evidence.
unfoldable pub check_evidence :
    Outside → PostingContext → ExecutionDelta → Books → Result PostError SettlementEvidence
unfolding find_delta resolve_settlement find_position get
check_evidence out ctx d b = do
  stored ← found_or delta_not_stored (find_delta d.execution_delta_id b.deltas)
  o ← found_or delta_not_stored (get stored.broker_order_id b.orders)
  require (d.broker_order_id == stored.broker_order_id && same_delta_values d.values stored.values)
      delta_conflict
  check_identity ctx o
  e ← resolve_settlement out.hash_json out.sort_paths b d.execution_delta_id ctx.settlement_date
  require
      (opening_agrees ctx.currency
        (find_position ctx.account_id ctx.instrument_id b.shares.position_openings))
      opening_currency
  ok e

abbrev pub posting_time : Datetime → Result PostError ℕ
posting_time naive = err naive_posting
posting_time (aware t) = ok t

unfoldable pub check_posting :
    Outside
    → PostingContext
    → ExecutionDelta
    → Datetime
    → Books
    → Result PostError (ℕ × SettlementEvidence)
unfolding check_evidence
check_posting out ctx d at b = do t ← posting_time at; e ← check_evidence out ctx d b; ok (t, e)

unfoldable pub find_posting : ℕ → List PostingRow → Option PostingRow
find_posting delta [] = none
find_posting delta (r ∷ rows) =
    let rest = find_posting delta rows in if r.execution_delta_id == delta then some r else rest

unfoldable pub find_context : ℕ → List ContextRow → Option ContextRow
find_context delta [] = none
find_context delta (r ∷ rows) =
    let rest = find_context delta rows in if r.execution_delta_id == delta then some r else rest

abbrev pub has_hash : ℕ → Option ContextRow → Bool
has_hash h none = false
has_hash h (some r) = r.context_hash == h

-- cash_delta
abbrev pub cash_delta_of : Side → Values → ℤ
cash_delta_of side v = signed_amount principal side v.amount -ℤ pos v.commission -ℤ pos v.tax

abbrev pub posting_of : ExecutionDelta → PostingContext → Option ℕ → Option ℕ → ExecutionPosting
posting_of d ctx c p = record {
  execution_delta_id = d.execution_delta_id;
  cash_event_id = c;
  position_event_id = p;
  cash_delta = cash_delta_of ctx.side d.values;
  quantity_delta = quantity_of ctx.side d.values.quantity;
}

-- A delta that is posted already: its evidence and its context must be the same.
unfoldable pub post_known :
    Outside
    → (PostingContext → ℕ)
    → PostingContext
    → ExecutionDelta
    → PostingRow
    → Books
    → Result PostError ExecutionPosting
unfolding require_evidence find_context
post_known out hash ctx d r b = do
  require_evidence out.hash_json out.sort_paths out.hash_evidence b d.execution_delta_id
      ctx.settlement_date
  require (has_hash (hash ctx) (find_context d.execution_delta_id b.contexts))
      replayed_context_conflict
  ok (posting_of d ctx r.cash_event_id r.position_event_id)

abbrev pub post_written :
    Outside
    → PostingContext
    → ExecutionDelta
    → Result PostError Books
    → Books
    → Result PostError ExecutionPosting × Books
post_written out ctx d (err e) b = (err e, b)
post_written out ctx d (ok b') b = (ok (posting_of d ctx (cash_id out d) (position_id out d)), b')

abbrev pub post_unless_known :
    Outside
    → (PostingContext → ℕ)
    → PostingContext
    → ExecutionDelta
    → ℕ × SettlementEvidence
    → Option PostingRow
    → Books
    → Result PostError ExecutionPosting × Books
post_unless_known out hash ctx d (at, e) (some r) b = (post_known out hash ctx d r b, b)
post_unless_known out hash ctx d (at, e) none b =
    post_written out ctx d (write_all out hash e ctx d at b) b

abbrev pub post_checked :
    Outside
    → (PostingContext → ℕ)
    → PostingContext
    → ExecutionDelta
    → Result PostError (ℕ × SettlementEvidence)
    → Books
    → Result PostError ExecutionPosting × Books
post_checked out hash ctx d (err x) b = (err x, b)
post_checked out hash ctx d (ok c) b =
    post_unless_known out hash ctx d c (find_posting d.execution_delta_id b.postings) b

-- `post`; `hash` is the SHA-256 of the context's canonical payload.
unfoldable pub post :
    Outside
    → (PostingContext → ℕ)
    → ExecutionDelta
    → PostingContext
    → Datetime
    → Books
    → Result PostError ExecutionPosting × Books
unfolding check_posting find_posting post_known write_all
post out hash d ctx at b = post_checked out hash ctx d (check_posting out ctx d at b) b
