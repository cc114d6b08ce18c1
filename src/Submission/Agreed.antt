-- ===== src/Submission/Agreed.antt =====
-- What the rows of the authority say of a candidate that `_authority_verified` takes.
use toss_trading_core.Prelude.{
  ==_eq, Option, and_both, ap, arith, false, none, not-true, refl, some, some_inj, sym, true, ℕ,
  ◌∙◌, ◌≡◌, ◌≤◌,
}
use toss_trading_core.Submission.{SubmissionState, state_code}
use toss_trading_core.Submission.Recovery.{
  Authority, Found, Query, RawResponse, ReconciliationRow, SnapshotRow, StateRow, consistent,
  consistent_rows, is_row, none_or_row,
}

-- The three rows that were found: the state is the candidate's and comes from its response, the
-- reconciliation matches the candidate's snapshot of the account, every observation is not older than
-- the cutoff, and the reconciliation was completed after all of them.
pub record RowsAgree (q : Query) (f : Found) (status : SubmissionState) (cutoff : ℕ)
    (raw : RawResponse) (s : StateRow) (r : ReconciliationRow) (p : SnapshotRow) : Type 0 where
  pub state_code_same : state_code s.state ≡ state_code status
  pub from_response : s.source_response_id ≡ f.source_response_id
  pub of_snapshot : r.account_snapshot_id ≡ f.snapshot_id
  pub reconciled_account : r.account_id ≡ q.account
  pub matching : r.matches ≡ true
  pub snapshot_account : p.account_id ≡ q.account
  pub requested_after : cutoff ≤ raw.requested_at
  pub received_after : raw.requested_at ≤ raw.received_at
  pub state_after : cutoff ≤ s.observed_at
  pub snapshot_after : cutoff ≤ p.observed_at
  pub completed_last :
      (raw.received_at ≤ r.completed_at)
      × (s.observed_at ≤ r.completed_at)
      × (p.observed_at ≤ r.completed_at)

-- The rows belong to the candidate: its order intent, its broker order in the account, and its
-- reconciliation, which is the newest one and has neither a bad item nor an open issue.
pub record Agrees (q : Query) (f : Found) (status : SubmissionState) (intent cutoff : ℕ)
    (a : Authority) : Type 0 where
  pub client : a.client_row ≡ some intent
  pub linked : a.link_row ≡ some f.broker_order_id
  pub in_account : a.broker_row ≡ some q.account
  pub newest : a.newest_recon ≡ some f.reconciliation_id
  pub raw_linked : a.raw_link ≡ true
  pub no_bad_item : a.bad_item ≡ false
  pub no_open_issue : a.open_issue ≡ false
  pub raw_account : (b : ℕ) → a.raw.account_id ≡ some b → b ≡ q.account
  pub state : StateRow
  pub reconciliation : ReconciliationRow
  pub snapshot : SnapshotRow
  pub found_rows :
      (a.state_row ≡ some state)
      × (a.recon_row ≡ some reconciliation)
      × (a.snapshot_row ≡ some snapshot)
  pub rows_agree : RowsAgree q f status cutoff a.raw state reconciliation snapshot

is_row-some : (o : Option ℕ) (n : ℕ) → is_row o n ≡ true → o ≡ some n
is_row-some none n h = cc h
is_row-some (some m) n h = ap some (==_eq m n h)

none_or_row-same : (o : Option ℕ) (n b : ℕ) → none_or_row o n ≡ true → o ≡ some b → b ≡ n
none_or_row-same none n b h e = cc e
none_or_row-same (some m) n b h e = sym (some_inj e) ∙ ==_eq m n h

consistent_rows-RowsAgree :
    (q : Query) (f : Found) (status : SubmissionState) (cutoff : ℕ) (a : Authority) (s : StateRow)
    (r : ReconciliationRow) (p : SnapshotRow)
    → consistent_rows q f status cutoff a (some s) (some r) (some p) ≡ true
    → RowsAgree q f status cutoff a.raw s r p
unfolding consistent_rows
consistent_rows-RowsAgree q f status cutoff a s r p h = record {
  state_code_same = ground (arith, h);
  from_response = ground (arith, h);
  of_snapshot = ground (arith, h);
  reconciled_account = ground (arith, h);
  matching = ground (arith, h);
  snapshot_account = ground (arith, h);
  requested_after = ground (arith, h);
  received_after = ground (arith, h);
  state_after = ground (arith, h);
  snapshot_after = ground (arith, h);
  completed_last = ground (arith, h);
}

consistent_rows-found :
    (q : Query) (f : Found) (status : SubmissionState) (cutoff : ℕ) (a : Authority)
    (s : Option StateRow) (r : Option ReconciliationRow) (p : Option SnapshotRow)
    → consistent_rows q f status cutoff a s r p ≡ true
    → (s' : StateRow) × (r' : ReconciliationRow) × (p' : SnapshotRow) × (s ≡ some s')
      × (r ≡ some r')
      × (p ≡ some p')
      × RowsAgree q f status cutoff a.raw s' r' p'
unfolding consistent_rows
consistent_rows-found q f status cutoff a none r p h = cc h
consistent_rows-found q f status cutoff a (some s) none p h = cc h
consistent_rows-found q f status cutoff a (some s) (some r) none h = cc h
consistent_rows-found q f status cutoff a (some s) (some r) (some p) h =
    (s, r, p, refl, refl, refl, consistent_rows-RowsAgree q f status cutoff a s r p h)

pub consistent-Agrees :
    (q : Query) (f : Found) (status : SubmissionState) (intent cutoff : ℕ) (a : Authority)
    → consistent q f status intent cutoff a ≡ true
    → Agrees q f status intent cutoff a
unfolding consistent
consistent-Agrees q f status intent cutoff a h =
    let (x8, rows) = and_both _ _ h in
    let (x7, raw_account) = and_both _ _ x8 in
    let (x6, no_issue) = and_both _ _ x7 in
    let (x5, no_bad) = and_both _ _ x6 in
    let (x4, raw_link) = and_both _ _ x5 in
    let (x3, newest) = and_both _ _ x4 in
    let (x2, broker) = and_both _ _ x3 in
    let (client, link) = and_both _ _ x2 in
    let (s, r, p, es, er, ep, agree) =
      consistent_rows-found q f status cutoff a a.state_row a.recon_row a.snapshot_row rows in
    record {
      client = is_row-some a.client_row intent client;
      linked = is_row-some a.link_row f.broker_order_id link;
      in_account = is_row-some a.broker_row q.account broker;
      newest = is_row-some a.newest_recon f.reconciliation_id newest;
      raw_linked = raw_link;
      no_bad_item = not-true a.bad_item no_bad;
      no_open_issue = not-true a.open_issue no_issue;
      raw_account = λ b e. none_or_row-same a.raw.account_id q.account b raw_account e;
      state = s;
      reconciliation = r;
      snapshot = p;
      found_rows = (es, er, ep);
      rows_agree = agree;
    }
