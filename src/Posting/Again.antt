-- ===== src/Posting/Again.antt =====
-- A delta is posted once: the call that repeats a posting returns it and writes nothing.
use toss_trading_core.Prelude.{
  ==_refl, Datetime, List, Option, Option-cases, Result, [], ap, aware, bind_ok, err, inl, inr,
  none, ok, ok_inj, refl, some, subst, sym, true, ℕ, ◌∙◌, ◌∷◌, ◌≡◌,
}
use toss_trading_core.Executions.{ExecutionDelta}
use toss_trading_core.Posting.{Books, PostError, PostingRow, SettlementEvidence}
use toss_trading_core.Posting.Context.{Outside, PostingContext}
use toss_trading_core.Posting.Post.{
  ExecutionPosting, check_evidence, check_posting, find_posting, post, post_checked, post_known,
  post_unless_known, post_written, posting_of,
}
use toss_trading_core.Posting.Repeats.{
  IsWritten, check_evidence-inputs, check_evidence-resolve_settlement, inputs,
  resolve_settlement-inputs, write_all-IsWritten,
}
use toss_trading_core.Posting.Settled.{resolve_settlement-IsSettled}
use toss_trading_core.Posting.Settlement.{
  find_evidence, require_evidence, resolve_settlement, same_evidence, same_path, same_paths,
}
use toss_trading_core.Posting.Write.{cash_id, position_id, posting_row, write_all}

same_path_refl : (xs : List ℕ) → same_path xs xs ≡ true
same_path_refl [] = refl
same_path_refl (x ∷ xs) = rw (==_refl x, same_path_refl xs) refl

same_paths_refl : (xs : List (List ℕ)) → same_paths xs xs ≡ true
same_paths_refl [] = refl
same_paths_refl (x ∷ xs) = rw (same_path_refl x, same_paths_refl xs) refl

same_evidence_refl :
    (hash : SettlementEvidence → ℕ) (e : SettlementEvidence)
    → same_evidence hash e (record { evidence = e; evidence_hash = hash e }) ≡ true
same_evidence_refl hash e =
    rw
      (
        ==_refl e.execution_snapshot_id,
        ==_refl e.source_response_id,
        ==_refl e.settlement_date,
        same_paths_refl e.extraction_paths,
        ==_refl e.response_hash,
        ==_refl (hash e),
      )
      refl

-- The evidence that was written is required with success.
require_evidence-written :
    (out : Outside) (delta day : ℕ) (b : Books) (e : SettlementEvidence)
    → resolve_settlement out.hash_json out.sort_paths b delta day ≡ ok e
    → find_evidence delta b.evidence
      ≡ some (record { evidence = e; evidence_hash = out.hash_evidence e })
    → require_evidence out.hash_json out.sort_paths out.hash_evidence b delta day ≡ ok e
unfolding require_evidence
require_evidence-written out delta day b e r f =
    rw (r, f, same_evidence_refl out.hash_evidence e) refl

post_known-written :
    (out : Outside) (hash : PostingContext → ℕ) (ctx : PostingContext) (d : ExecutionDelta)
    (e : SettlementEvidence) (at : ℕ) (b b' : Books)
    → check_evidence out ctx d b ≡ ok e
    → IsWritten out hash e ctx d at b b'
    → post_known out hash ctx d (posting_row out d at) b'
      ≡ ok (posting_of d ctx (cash_id out d) (position_id out d))
unfolding post_known
post_known-written out hash ctx d e at b b' c w =
    let r = check_evidence-resolve_settlement out ctx d b e c in
    let i =
      (resolve_settlement-IsSettled out.hash_json out.sort_paths b d.execution_delta_id
        ctx.settlement_date e r).of_delta in
    let f =
      subst
        (λ x.
          find_evidence x b'.evidence
          ≡ some (record { evidence = e; evidence_hash = out.hash_evidence e }))
        i w.evidence_found in
    let q =
      require_evidence-written out d.execution_delta_id ctx.settlement_date b' e
        (resolve_settlement-inputs out d.execution_delta_id ctx.settlement_date b b' w.same_inputs
          ∙ r)
        f in
    rw (q, w.context_found, ==_refl (hash ctx)) refl

check_posting-ok :
    (out : Outside) (ctx : PostingContext) (d : ExecutionDelta) (t : ℕ) (b : Books)
    (c : ℕ × SettlementEvidence)
    → check_posting out ctx d (aware t) b ≡ ok c
    → check_evidence out ctx d b ≡ ok (c.1)
unfolding check_posting
check_posting-ok out ctx d t b c h =
    let (e, k, r) = bind_ok (check_evidence out ctx d b) _ c h in
    k ∙ ap ok (ap (λ p. p.1) (ok_inj r))

check_posting-later :
    (out : Outside) (ctx : PostingContext) (d : ExecutionDelta) (t : ℕ) (b : Books)
    (e : SettlementEvidence)
    → check_evidence out ctx d b ≡ ok e
    → check_posting out ctx d (aware t) b ≡ ok (t, e)
unfolding check_posting
check_posting-later out ctx d t b e h = rw h refl

-- After a call that returns, whether it posted the delta or found it posted, the same call at any
-- other time returns the same posting and leaves the books as they are.
pub post_again :
    (out : Outside) (hash : PostingContext → ℕ) (d : ExecutionDelta) (ctx : PostingContext)
    (t t' : ℕ) (b : Books) (p : ExecutionPosting)
    → (post out hash d ctx (aware t) b).0 ≡ ok p
    → post out hash d ctx (aware t') (post out hash d ctx (aware t) b).1
      ≡ (ok p, (post out hash d ctx (aware t) b).1)
unfolding post
post_again out hash d ctx t t' b p = go (check_posting out ctx d (aware t) b) refl
  where
    Again : Result PostError ExecutionPosting × Books → Type 0
    Again r = r.0 ≡ ok p → post out hash d ctx (aware t') r.1 ≡ (ok p, r.1)

    found :
        (b' : Books) (e : SettlementEvidence) (r : PostingRow)
        → check_evidence out ctx d b' ≡ ok e
        → find_posting d.execution_delta_id b'.postings ≡ some r
        → post_known out hash ctx d r b' ≡ ok p
        → post out hash d ctx (aware t') b' ≡ (ok p, b')
    found b' e r c f k = rw (check_posting-later out ctx d t' b' e c, f, k) refl

    written :
        (e : SettlementEvidence) (at : ℕ) (w : Result PostError Books)
        → check_evidence out ctx d b ≡ ok e
        → write_all out hash e ctx d at b ≡ w
        → Again (post_written out ctx d w b)
    written e at (err x) c k = λ h. cc h
    written e at (ok b') c k = λ h.
        let w = write_all-IsWritten out hash e ctx d at b b' k in
        found b' e (posting_row out d at) (check_evidence-inputs out ctx d b b' w.same_inputs ∙ c)
          w.posting_found (post_known-written out hash ctx d e at b b' c w ∙ h)

    go :
        (c : Result PostError (ℕ × SettlementEvidence))
        → check_posting out ctx d (aware t) b ≡ c
        → Again (post_checked out hash ctx d c b)
    go (err x) k = λ h. cc h
    go (ok (at, e)) k =
        let c = check_posting-ok out ctx d t b (at, e) k in
        elim (Option-cases (find_posting d.execution_delta_id b.postings)) [
          | inl n ↦
              subst (λ o. Again (post_unless_known out hash ctx d (at, e) o b)) (sym n)
                (written e at (write_all out hash e ctx d at b) c refl)
          | inr (r, f) ↦
              subst (λ o. Again (post_unless_known out hash ctx d (at, e) o b)) (sym f)
                (λ h. found b e r c f h)
        ]

-- A posting leaves the reservations and all that its checks read, whether it returns or not.
pub post-inputs :
    (out : Outside) (hash : PostingContext → ℕ) (d : ExecutionDelta) (ctx : PostingContext)
    (at : Datetime) (b : Books)
    → inputs (post out hash d ctx at b).1 ≡ inputs b
unfolding post
post-inputs out hash d ctx at b = go (check_posting out ctx d at b)
  where
    Same : Result PostError ExecutionPosting × Books → Type 0
    Same r = inputs r.1 ≡ inputs b

    written :
        (e : SettlementEvidence) (t : ℕ) (w : Result PostError Books)
        → write_all out hash e ctx d t b ≡ w
        → Same (post_written out ctx d w b)
    written e t (err x) k = refl
    written e t (ok b') k = (write_all-IsWritten out hash e ctx d t b b' k).same_inputs

    known :
        (e : SettlementEvidence) (t : ℕ) (o : Option PostingRow)
        → Same (post_unless_known out hash ctx d (t, e) o b)
    known e t none = written e t (write_all out hash e ctx d t b) refl
    known e t (some r) = refl

    go : (c : Result PostError (ℕ × SettlementEvidence)) → Same (post_checked out hash ctx d c b)
    go (err x) = refl
    go (ok (t, e)) = known e t (find_posting d.execution_delta_id b.postings)
