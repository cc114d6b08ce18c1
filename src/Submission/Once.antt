-- ===== src/Submission/Once.antt =====
-- No order goes to the transport twice, whatever calls come in whatever order.
use toss_trading_core.Prelude.{
  Bool-cases, Datetime, List, Option, Option-cases, Result, [], aware, err, inl, inr, leb, ltb,
  naive, none, not, ok, some, ℕ, ◌==◌, ◌||◌, ◌∷◌, ◌≡◌, ◌≢◌,
}
use toss_trading_core.Prelude.Dict.{get}
use toss_trading_core.Submission.{
  Codec, Intent, Journal, Reason, Row, SubmissionError, SubmissionState, ambiguous_at,
  audit_sequence, find_taken, has_unresolved, reconciliation_required, recovered, recovery_cutoff,
  row_of, unknown_broker_state,
}
use toss_trading_core.Submission.Calls.{
  Claim, Operation, Reply, claim, claim_checked, claim_new, claimed, economic_of, evidence_of,
  mark_ambiguous, mark_row, new_row, reason_of, record_reply, recorded, refused, repeat, send,
  submit_once,
}
use toss_trading_core.Submission.Kept.{
  Kept, Kept-refl, Kept-trans, Known, Known-Kept, find_taken-free, find_taken-none, insert_row-Kept,
  insert_row-Known, record_state-Kept,
}
use toss_trading_core.Submission.Recover.{is_changed, settle, settle_row}
use toss_trading_core.Submission.Recovery.{Pending}

-- A step of the journal's life. A recovery settles with anything that was read and found before, so
-- other steps may have come in between.
pub data Step : Type 0 where
  submission : ℕ → Intent → Datetime → Datetime → Option Reply → Step
  marking : ℕ → Operation → Datetime → Step
  settling : ℕ → Pending → SubmissionState × Reason → Step

-- What a step does to the tables, and the row that it sends.
unfoldable pub step : Codec → Step → Journal → Journal × Option Row
unfolding submit_once mark_ambiguous settle
step codec (submission account i at expires reply) j =
    let (_, j', sent) = submit_once codec account i at expires reply j in (j', sent)
step codec (marking client operation at) j = ((mark_ambiguous codec client operation at j).1, none)
step codec (settling client p o) j = ((settle codec client p o j).1, none)

-- The row that goes out is stored, and none before it had its client or its economic key.
abbrev SendsRow : Journal → Journal → Row → Type 0
SendsRow j j' t =
    Known t j'
    × ((k : ℕ) (r : Row)
        → get k j.rows ≡ some r
        → (t.client ≢ k) × (t.economic_key ≢ r.economic_key))

abbrev Sends : Journal → Journal × Option Row → Type 0
Sends j (j', none) = Kept j.rows j'.rows
Sends j (j', some t) = Kept j.rows j'.rows × SendsRow j j' t

abbrev Claims : Journal → Claim × Journal → Type 0
Claims j (refused e, j') = Kept j.rows j'.rows
Claims j (recorded r, j') = Kept j.rows j'.rows
Claims j (claimed t, j') = Kept j.rows j'.rows × SendsRow j j' t

repeat-Claims :
    (codec : Codec) (account : ℕ) (i : Intent) (x : Result SubmissionError Row) (j : Journal)
    → Claims j (repeat codec account i x, j)
repeat-Claims codec account i (err e) j = Kept-refl j.rows
repeat-Claims codec account i (ok r) j =
    elim (Bool-cases
      (not (r.client == i.client_order_id) || not (r.payload == codec.encode account i))) [
        | inl y ↦ rw y (Kept-refl j.rows)
        | inr n ↦ rw n (Kept-refl j.rows)
      ]

claim_new-Claims :
    (t : Row) (at : ℕ) (j : Journal)
    → find_taken t.client t.economic_key j.rows ≡ none
    → Claims j (claim_new t at j)
unfolding claim_new
claim_new-Claims t at j f = elim (Bool-cases (has_unresolved t.account j.rows)) [
  | inl y ↦ rw y (Kept-refl j.rows)
  | inr n ↦ rw n (
    insert_row-Kept t at j (find_taken-free t.client t.economic_key j.rows f),
    (insert_row-Known t at j, λ k r h. find_taken-none t.client t.economic_key j.rows k r f h),
  )
]

claim-Claims :
    (codec : Codec) (account : ℕ) (i : Intent) (at expires : ℕ) (j : Journal)
    → Claims j (claim codec account i at expires j)
unfolding claim
claim-Claims codec account i at expires j =
    elim (Option-cases (find_taken i.client_order_id (economic_of codec account i) j.rows)) [
      | inr (r, e) ↦ rw (e, claim) (repeat-Claims codec account i (row_of codec r.client j.rows) j)
      | inl f ↦ rw (f, claim) (claim_new-Claims (new_row codec account i at expires) at j f)
    ]

claim_checked-Claims :
    (codec : Codec) (account : ℕ) (i : Intent) (at expires : Datetime) (j : Journal)
    → Claims j (claim_checked codec account i at expires j)
unfolding claim_checked
claim_checked-Claims codec account i naive expires j = Kept-refl j.rows
claim_checked-Claims codec account i (aware at) naive j = Kept-refl j.rows
claim_checked-Claims codec account i (aware at) (aware expires) j =
    elim (Bool-cases (account == 0 || leb expires at)) [
      | inl y ↦ rw y (Kept-refl j.rows)
      | inr n ↦ rw n (claim-Claims codec account i at expires j)
    ]

send-Sends :
    (c : Claim) (reply : Option Reply) (j j' : Journal)
    → Claims j (c, j')
    → let (_, j'', sent) = send c reply j' in Sends j (j'', sent)
unfolding send record_reply
send-Sends (refused e) reply j j' c = c
send-Sends (recorded r) reply j j' c = c
send-Sends (claimed t) none j j' c = c
send-Sends (claimed t) (some reply) j j' (kept, (stored, new)) =
    let k =
      record_state-Kept t.client unknown_broker_state reconciliation_required (evidence_of reply)
        j' in
    (
      Kept-trans j.rows j'.rows _ kept k,
      (Known-Kept t j' (record_reply t.client reply j').1 stored k, new),
    )

mark_row-Kept :
    (client : ℕ) (operation : Operation) (at : ℕ) (x : Result SubmissionError Row) (j : Journal)
    → Kept j.rows (mark_row client operation at x j).1.rows
mark_row-Kept client operation at (err e) j = Kept-refl j.rows
mark_row-Kept client operation at (ok r) j =
    elim (Bool-cases (ltb at (recovery_cutoff client r j.audits))) [
      | inl y ↦ rw y (Kept-refl j.rows)
      | inr n ↦
          rw n (
            record_state-Kept client unknown_broker_state (reason_of operation) (ambiguous_at at) j)
    ]

mark_ambiguous-Kept :
    (codec : Codec) (client : ℕ) (operation : Operation) (at : Datetime) (j : Journal)
    → Kept j.rows (mark_ambiguous codec client operation at j).1.rows
unfolding mark_ambiguous
mark_ambiguous-Kept codec client operation naive j = Kept-refl j.rows
mark_ambiguous-Kept codec client operation (aware at) j =
    mark_row-Kept client operation at (row_of codec client j.rows) j

settle_row-Kept :
    (client : ℕ) (p : Pending) (o : SubmissionState × Reason) (x : Result SubmissionError Row)
    (j : Journal)
    → Kept j.rows (settle_row client p o x j).1.rows
settle_row-Kept client p (s, reason) (err e) j = Kept-refl j.rows
settle_row-Kept client p (s, reason) (ok now) j =
    elim (Bool-cases (is_changed now p.row (audit_sequence client j.audits) p.generation)) [
      | inl y ↦ rw y (Kept-refl j.rows)
      | inr n ↦ rw n (record_state-Kept client s reason (recovered p.cutoff) j)
    ]

step-Sends : (codec : Codec) (x : Step) (j : Journal) → Sends j (step codec x j)
unfolding step submit_once settle
step-Sends codec (submission account i at expires reply) j =
    send-Sends (claim_checked codec account i at expires j).0 reply j
      (claim_checked codec account i at expires j).1
      (claim_checked-Claims codec account i at expires j)
step-Sends codec (marking client operation at) j = mark_ambiguous-Kept codec client operation at j
step-Sends codec (settling client p o) j = settle_row-Kept client p o (row_of codec client j.rows) j

-- A run: the tables after it, and the rows whose payload went to the transport.
unfoldable pub run_steps : Codec → List Step → Journal → Journal × List Row
unfolding step
run_steps codec [] j = (j, [])
run_steps codec (x ∷ xs) j =
    let (j', sent) = step codec x j in
    let (j'', rows) = run_steps codec xs j' in (j'', elim sent [ none ↦ rows | some t ↦ t ∷ rows ])

-- Every one of the rows has another client and another economic key.
abbrev pub AllDiffer : Row → List Row → Type 0
AllDiffer r [] = Unit
AllDiffer r (t ∷ ts) = ((t.client ≢ r.client) × (t.economic_key ≢ r.economic_key)) × AllDiffer r ts

-- No two of the rows share a client or an economic key.
abbrev pub AllOnce : List Row → Type 0
AllOnce [] = Unit
AllOnce (t ∷ ts) = AllDiffer t ts × AllOnce ts

join_differ :
    (r : Row) (j : Journal) (x : Journal × Option Row) (rows : List Row)
    → Known r j
    → Sends j x
    → AllDiffer r rows
    → AllDiffer r (elim x.1 [ none ↦ rows | some t ↦ t ∷ rows ])
join_differ r j (j', none) rows stored sends d = d
join_differ r j (j', some t) rows (s, e) (kept, (_, new)) d =
    (new r.client (record r { state = s }) e, d)

stored_after :
    (r : Row) (j : Journal) (x : Journal × Option Row) → Known r j → Sends j x → Known r x.0
stored_after r j (j', none) stored kept = Known-Kept r j j' stored kept
stored_after r j (j', some t) stored (kept, _) = Known-Kept r j j' stored kept

run_steps-AllDiffer :
    (codec : Codec) (xs : List Step) (r : Row) (j : Journal)
    → Known r j
    → AllDiffer r (run_steps codec xs j).1
unfolding run_steps
run_steps-AllDiffer codec [] r j stored = tt
run_steps-AllDiffer codec (x ∷ xs) r j stored =
    let later =
      run_steps-AllDiffer codec xs r (step codec x j).0
        (stored_after r j (step codec x j) stored (step-Sends codec x j)) in
    join_differ r j (step codec x j) _ stored (step-Sends codec x j) later

join_once :
    (j : Journal) (x : Journal × Option Row) (rows : List Row)
    → Sends j x
    → ((r : Row) → Known r x.0 → AllDiffer r rows)
    → AllOnce rows
    → AllOnce (elim x.1 [ none ↦ rows | some t ↦ t ∷ rows ])
join_once j (j', none) rows sends d o = o
join_once j (j', some t) rows (_, (stored, _)) d o = (d t stored, o)

-- Whatever submissions, markings and recoveries come in whatever order, with or without an answer
-- of the transport: no two rows that are sent share a client order id or an economic key.
pub run_steps-AllOnce :
    (codec : Codec) (xs : List Step) (j : Journal) → AllOnce (run_steps codec xs j).1
unfolding run_steps
run_steps-AllOnce codec [] j = tt
run_steps-AllOnce codec (x ∷ xs) j =
    let rest = run_steps-AllOnce codec xs (step codec x j).0 in
    join_once j (step codec x j) _ (step-Sends codec x j)
      (λ r stored. run_steps-AllDiffer codec xs r (step codec x j).0 stored) rest
