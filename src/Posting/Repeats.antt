-- ===== src/Posting/Repeats.antt =====
-- A posting that is repeated finds what it stored.
use toss_trading_core.Prelude.{
  ==_refl, Bool-cases, List, ap, bind_ok, err, inl, inr, is_some, not, ok, ok_inj, refl, require_ok,
  some, subst, sym, ℕ, ◌&&◌, ◌==◌, ◌||◌, ◌∙◌, ◌≡◌,
}
use toss_trading_core.Executions.{ExecutionDelta, ExecutionSnapshot}
use toss_trading_core.Ledger.CashEvents.{find_cash_event}
use toss_trading_core.Ledger.Positions.{PositionOpening}
use toss_trading_core.Ledger.Reservations.{ReservationRow}
use toss_trading_core.Posting.{
  Books, Component, EvidenceRow, OrderRow, RawApiResponse, SettlementEvidence, commission_part,
  delta_conflict, delta_not_stored, opening_currency, principal, row_exists, tax_part,
}
use toss_trading_core.Posting.Context.{Outside, PostingContext}
use toss_trading_core.Posting.Post.{check_evidence, check_identity, find_context, find_posting}
use toss_trading_core.Posting.Settlement.{
  find_delta, find_evidence, found_or, has_snapshot, persist, resolve_settlement,
}
use toss_trading_core.Posting.Sums.{write_position-cases}
use toss_trading_core.Posting.Write.{
  cash_id, component_taken, has_context, position_id, posting_row, posting_taken, write_all,
  write_cash, write_evidence, write_position, write_posting,
}
use toss_trading_core.Prelude.Dict.{Dict, get}

-- What a posting leaves as it is, with all that its checks read.
pub record Inputs : Type 0 where
  pub orders : Dict OrderRow
  pub snapshots : List ExecutionSnapshot
  pub deltas : List ExecutionDelta
  pub responses : List RawApiResponse
  pub openings : List PositionOpening
  pub cash_reservations : List ReservationRow
  pub sell_reservations : List ReservationRow

abbrev pub inputs : Books → Inputs
inputs b = record {
  orders = b.orders;
  snapshots = b.snapshots;
  deltas = b.deltas;
  responses = b.responses;
  openings = b.shares.position_openings;
  cash_reservations = b.cash.reservations;
  sell_reservations = b.shares.sell_reservations;
}

-- What the later writes leave as it is.
abbrev Frame : Books → Books → Type 0
Frame b b' = (inputs b' ≡ inputs b) × (b'.evidence ≡ b.evidence) × (b'.contexts ≡ b.contexts)

abbrev with_inputs : Inputs → Books → Books
with_inputs i b = record b {
  orders = i.orders;
  snapshots = i.snapshots;
  deltas = i.deltas;
  responses = i.responses;
  shares = record b.shares { position_openings = i.openings };
}

pub check_evidence-inputs :
    (out : Outside) (ctx : PostingContext) (d : ExecutionDelta) (b b' : Books)
    → inputs b' ≡ inputs b
    → check_evidence out ctx d b' ≡ check_evidence out ctx d b
unfolding check_evidence resolve_settlement
check_evidence-inputs out ctx d b b' e = ap (λ i. check_evidence out ctx d (with_inputs i b)) e

pub resolve_settlement-inputs :
    (out : Outside) (delta day : ℕ) (b b' : Books)
    → inputs b' ≡ inputs b
    → resolve_settlement out.hash_json out.sort_paths b' delta day
      ≡ resolve_settlement out.hash_json out.sort_paths b delta day
unfolding resolve_settlement
resolve_settlement-inputs out delta day b b' e =
    ap (λ i. resolve_settlement out.hash_json out.sort_paths (with_inputs i b) delta day) e

-- Evidence that was checked is what is resolved.
pub check_evidence-resolve_settlement :
    (out : Outside) (ctx : PostingContext) (d : ExecutionDelta) (b : Books) (e : SettlementEvidence)
    → check_evidence out ctx d b ≡ ok e
    → resolve_settlement out.hash_json out.sort_paths b d.execution_delta_id ctx.settlement_date
      ≡ ok e
unfolding check_evidence
check_evidence-resolve_settlement out ctx d b e h =
    let (stored, _, r1) =
      bind_ok (found_or delta_not_stored (find_delta d.execution_delta_id b.deltas)) _ e h in
    let (o, _, r2) =
      bind_ok (found_or delta_not_stored (get stored.broker_order_id b.orders)) _ e r1 in
    let (_, r3) = require_ok _ delta_conflict _ e r2 in
    let (_, _, r4) = bind_ok (check_identity ctx o) _ e r3 in
    let (x, k, r5) =
      bind_ok
        (resolve_settlement out.hash_json out.sort_paths b d.execution_delta_id ctx.settlement_date)
        _ e r4 in
    let (_, last) = require_ok _ opening_currency _ e r5 in k ∙ last

write_cash-Frame :
    (out : Outside) (c : Component) (ctx : PostingContext) (delta n at : ℕ) (b b' : Books)
    → write_cash out c ctx delta n at b ≡ ok b'
    → Frame b b'
unfolding write_cash
write_cash-Frame out c ctx delta n at b b' h = elim (Bool-cases (n == 0)) [
  | inl z ↦ subst (Frame b) (ok_inj (rw z at h)) (refl, refl, refl)
  | inr z ↦
      elim (Bool-cases (
        is_some (find_cash_event (out.cash_name c delta) b.cash.ledger)
        || component_taken delta c (out.cash_name c delta) b.components)) [
          | inl y ↦ let k : err row_exists ≡ ok b' = rw (z, y) at h in cc k
          | inr y ↦ subst (Frame b) (ok_inj (rw (z, y) at h)) (refl, refl, refl)
        ]
]

write_position-Frame :
    (out : Outside) (ctx : PostingContext) (d : ExecutionDelta) (at : ℕ) (b b' : Books)
    → write_position out ctx d at b ≡ ok b'
    → Frame b b'
write_position-Frame out ctx d at b b' h = elim (write_position-cases out ctx d at b b' h) [
  | inl (z, e) ↦ subst (Frame b) (sym e) (refl, refl, refl)
  | inr w ↦ subst (Frame b) (sym w.stored) (refl, refl, refl)
]

Frame-trans : (a b c : Books) → Frame a b → Frame b c → Frame a c
Frame-trans a b c (x, y, z) (u, v, w) = (u ∙ x, v ∙ y, w ∙ z)

-- What a posting leaves for its repetition to find.
pub record IsWritten (out : Outside) (hash : PostingContext → ℕ) (e : SettlementEvidence)
    (ctx : PostingContext) (d : ExecutionDelta) (at : ℕ) (b b' : Books) : Type 0 where
  pub same_inputs : inputs b' ≡ inputs b
  pub evidence_found :
      find_evidence e.execution_delta_id b'.evidence
      ≡ some (record { evidence = e; evidence_hash = out.hash_evidence e })
  pub context_found :
      find_context d.execution_delta_id b'.contexts
      ≡ some (record { execution_delta_id = d.execution_delta_id; context_hash = hash ctx })
  pub posting_found : find_posting d.execution_delta_id b'.postings ≡ some (posting_row out d at)

-- After the first write the evidence and the context are found.
abbrev Begun :
    Outside
    → (PostingContext → ℕ)
    → SettlementEvidence
    → PostingContext
    → ℕ
    → Books
    → Books
    → Type 0
Begun out hash e ctx delta b b' =
    (inputs b' ≡ inputs b)
    × (find_evidence e.execution_delta_id b'.evidence
        ≡ some (record { evidence = e; evidence_hash = out.hash_evidence e }))
    × (find_context delta b'.contexts
        ≡ some (record { execution_delta_id = delta; context_hash = hash ctx }))

persist-found :
    (hash : SettlementEvidence → ℕ) (e : SettlementEvidence) (rows rows' : List EvidenceRow)
    → persist hash e rows ≡ ok rows'
    → find_evidence e.execution_delta_id rows'
      ≡ some (record { evidence = e; evidence_hash = hash e })
unfolding persist find_evidence
persist-found hash e rows rows' h =
    let (_, r) =
      require_ok
        (not (is_some (find_evidence e.execution_delta_id rows))
          && not (has_snapshot e.execution_snapshot_id rows))
        row_exists _ rows' h in
    subst
      (λ x.
        find_evidence e.execution_delta_id x
        ≡ some (record { evidence = e; evidence_hash = hash e }))
      (ok_inj r) (rw (==_refl e.execution_delta_id) refl)

write_evidence-Begun :
    (out : Outside) (hash : PostingContext → ℕ) (e : SettlementEvidence) (ctx : PostingContext)
    (delta : ℕ) (b b' : Books)
    → write_evidence out hash e ctx delta b ≡ ok b'
    → Begun out hash e ctx delta b b'
unfolding write_evidence find_context
write_evidence-Begun out hash e ctx delta b b' h =
    let (rows, k, r1) = bind_ok (persist out.hash_evidence e b.evidence) _ b' h in
    let (_, r2) = require_ok (not (has_context delta b.contexts)) row_exists _ b' r1 in
    subst (Begun out hash e ctx delta b) (ok_inj r2)
      (refl, persist-found out.hash_evidence e b.evidence rows k, rw (==_refl delta) refl)

write_posting-Frame :
    (out : Outside) (d : ExecutionDelta) (at : ℕ) (b b' : Books)
    → write_posting out d at b ≡ ok b'
    → Frame b b' × (find_posting d.execution_delta_id b'.postings ≡ some (posting_row out d at))
unfolding write_posting find_posting
write_posting-Frame out d at b b' h =
    let (_, r) =
      require_ok
        (not (posting_taken d.execution_delta_id (cash_id out d) (position_id out d) b.postings))
        row_exists _ b' h in
    subst
      (λ x.
        Frame b x × (find_posting d.execution_delta_id x.postings ≡ some (posting_row out d at)))
      (ok_inj r) ((refl, refl, refl), rw (==_refl d.execution_delta_id) refl)

pub write_all-IsWritten :
    (out : Outside) (hash : PostingContext → ℕ) (e : SettlementEvidence) (ctx : PostingContext)
    (d : ExecutionDelta) (at : ℕ) (b b' : Books)
    → write_all out hash e ctx d at b ≡ ok b'
    → IsWritten out hash e ctx d at b b'
unfolding write_all
write_all-IsWritten out hash e ctx d at b b' h =
    let id = d.execution_delta_id in
    let v = d.values in
    let (b1, w1, h1) = bind_ok (write_evidence out hash e ctx id b) _ b' h in
    let (b2, w2, h2) = bind_ok (write_cash out principal ctx id v.amount at b1) _ b' h1 in
    let (b3, w3, h3) = bind_ok (write_cash out commission_part ctx id v.commission at b2) _ b' h2 in
    let (b4, w4, h4) = bind_ok (write_cash out tax_part ctx id v.tax at b3) _ b' h3 in
    let (b5, w5, h5) = bind_ok (write_position out ctx d at b4) (write_posting out d at) b' h4 in
    let (same, evidence, context) = write_evidence-Begun out hash e ctx id b b1 w1 in
    let f2 = write_cash-Frame out principal ctx id v.amount at b1 b2 w2 in
    let f3 =
      Frame-trans b1 b2 b3 f2
        (write_cash-Frame out commission_part ctx id v.commission at b2 b3 w3) in
    let f4 = Frame-trans b1 b3 b4 f3 (write_cash-Frame out tax_part ctx id v.tax at b3 b4 w4) in
    let f5 = Frame-trans b1 b4 b5 f4 (write_position-Frame out ctx d at b4 b5 w5) in
    let (last, found) = write_posting-Frame out d at b5 b' h5 in
    let (x, y, z) = Frame-trans b1 b5 b' f5 last in
    record {
      same_inputs = x ∙ same;
      evidence_found = ap (find_evidence e.execution_delta_id) y ∙ evidence;
      context_found = ap (find_context id) z ∙ context;
      posting_found = found;
    }
