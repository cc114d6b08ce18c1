-- ===== src/Submission/Proven.antt =====
-- What recovery records, and what blocks a submission.
use toss_trading_core.Prelude.{
  Bool-cases, Datetime, Option, Option-cases, Result, aware, err, false, inl, inr, leb, naive, none,
  not, ok, refl, some, true, ℕ, ◌==◌, ◌||◌, ◌≡◌,
}
use toss_trading_core.Submission.{
  Codec, Intent, Journal, Row, SubmissionError, SubmissionState, find_taken, has_unresolved,
  is_unresolved, row_of,
}
use toss_trading_core.Submission.Agreed.{Agrees}
use toss_trading_core.Submission.Calls.{
  Reply, claim, claim_checked, claim_new, economic_of, repeat, send, submit_once,
}
use toss_trading_core.Submission.Recovery.{
  Authority, Found, Pending, Query, complete_ids, echoes, is_posted, needs_posting, query_of,
}

-- What the authority answers for a candidate; without an authority, nothing.
abbrev pub answer_of : Option (Found → Option Authority) → Found → Option Authority
answer_of none f = none
answer_of (some authority) f = authority f

-- A state is proven: the candidate has all ids, and its status, for the query that was asked, with
-- rows that the authority answers for it, which agree and hold a posting if it is a fill.
pub record Proven (authority : Option (Found → Option Authority)) (q : Query) (f : Found)
    (s : SubmissionState) (intent cutoff : ℕ) : Type 0 where
  pub ledger : Authority
  pub answered : answer_of authority f ≡ some ledger
  pub identified : complete_ids f ≡ true
  pub same_status : f.status ≡ some s
  pub same_query : echoes f.echo q ≡ true
  pub resolved : is_unresolved s ≡ false
  pub agreed : Agrees q f s intent cutoff ledger
  pub posted : needs_posting s ≡ true → is_posted ledger.posted ≡ true

-- A recovery that leaves the unresolved states takes the status of a candidate that the lookup
-- returned, which the ledger proves.
abbrev pub Recovered :
    Codec
    → Option (Found → Option Authority)
    → ℕ
    → Pending
    → Option Found
    → SubmissionState
    → Type 0
Recovered codec authority client p none s = ⊥
Recovered codec authority client p (some f) s =
    Proven authority (query_of codec client p.row) f s (codec.decode p.row.payload).order_intent_id
      p.cutoff

repeat_sends_nothing :
    (codec : Codec) (account : ℕ) (i : Intent) (x : Result SubmissionError Row)
    (reply : Option Reply) (j : Journal)
    → let (_, j', sent) = send (repeat codec account i x) reply j in (j' ≡ j) × (sent ≡ none)
unfolding send
repeat_sends_nothing codec account i (err e) reply j = (refl, refl)
repeat_sends_nothing codec account i (ok r) reply j =
    elim (Bool-cases
      (not (r.client == i.client_order_id) || not (r.payload == codec.encode account i))) [
        | inl y ↦ rw y (refl, refl)
        | inr n ↦ rw n (refl, refl)
      ]

claim-unresolved :
    (codec : Codec) (account : ℕ) (i : Intent) (at expires : ℕ) (reply : Option Reply) (j : Journal)
    → has_unresolved account j.rows ≡ true
    → let (_, j', sent) =
        send (claim codec account i at expires j).0 reply (claim codec account i at expires j).1 in
      (j' ≡ j) × (sent ≡ none)
unfolding claim claim_new send
claim-unresolved codec account i at expires reply j h =
    elim (Option-cases (find_taken i.client_order_id (economic_of codec account i) j.rows)) [
      | inr (r, e) ↦
          rw (e, claim)
            (repeat_sends_nothing codec account i (row_of codec r.client j.rows) reply j)
      | inl f ↦ rw (f, claim, h) (refl, refl)
    ]

-- While an account has a row that is SUBMITTING or UNKNOWN_BROKER_STATE, no submission for it
-- reaches the transport, and the tables stay as they are.
pub submit_once-unresolved :
    (codec : Codec) (account : ℕ) (i : Intent) (at expires : Datetime) (reply : Option Reply)
    (j : Journal)
    → has_unresolved account j.rows ≡ true
    → ((submit_once codec account i at expires reply j).1 ≡ j)
      × ((submit_once codec account i at expires reply j).2 ≡ none)
unfolding submit_once claim_checked send
submit_once-unresolved codec account i naive expires reply j h = (refl, refl)
submit_once-unresolved codec account i (aware at) naive reply j h = (refl, refl)
submit_once-unresolved codec account i (aware at) (aware expires) reply j h =
    elim (Bool-cases (account == 0 || leb expires at)) [
      | inl y ↦ rw y (refl, refl)
      | inr n ↦ rw n (claim-unresolved codec account i at expires reply j h)
    ]
