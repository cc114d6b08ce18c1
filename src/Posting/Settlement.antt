-- ===== src/Posting/Settlement.antt =====
-- `SettlementEvidenceRepository` of asset_management/ledger/settlement.py, with `verified` of
-- asset_management/data/raw_store.py. A path is the list of its keys and indexes, last one first.
use toss_trading_core.Prelude.{
  Bool, List, Option, Result, [], err, false, if◌then◌else◌, is_some, leb, ltb, map, none, not, ok,
  require, some, suc, true, ℕ, ◌&&◌, ◌++◌, ◌==◌, ◌>>=◌, ◌>>◌, ◌||◌, ◌∷◌,
}
use toss_trading_core.Executions.{ExecutionDelta, ExecutionSnapshot}
use toss_trading_core.Posting.{
  Books, Elements, EvidenceRow, Json, Members, PostError, RawApiResponse, SettlementEvidence,
  element, json_list, json_object, json_other, json_text, member, no_elements, no_members,
  not_authoritative, raw_evidence_unverified, row_exists, settlement_absent, settlement_ambiguous,
  settlement_conflict, settlement_evidence_absent, settlement_evidence_mismatch,
  settlement_lineage_missing, settlement_malformed,
}
use toss_trading_core.Prelude.Dict.{get}

-- What `_settlement_candidates` has found: paths with their days, and whether one was malformed.
abbrev pub Found : Type 0
Found = List (List ℕ × ℕ) × Bool

abbrev pub join_found : Found → Found → Found
join_found (xs, a) (ys, b) = (xs ++ ys, a || b)

-- The value of a settlement key.
abbrev pub candidate_of : Bool → List ℕ → Json → Found
candidate_of false path v = ([], false)
candidate_of true path (json_text none) = ([], true)
candidate_of true path (json_text (some day)) = ((path, day) ∷ [], false)
candidate_of true path json_other = ([], true)
candidate_of true path (json_list xs) = ([], true)
candidate_of true path (json_object ms) = ([], true)

-- `_settlement_candidates`: each value below a node, with the path to it.
unfoldable mutual
  pub visit : List ℕ → Json → Found
  visit path (json_text day) = ([], false)
  visit path json_other = ([], false)
  visit path (json_list xs) = visit_elements path 0 xs
  visit path (json_object ms) = visit_members path ms

  pub visit_elements : List ℕ → ℕ → Elements → Found
  visit_elements path index no_elements = ([], false)
  visit_elements path index (element v xs) =
      join_found (visit (index ∷ path) v) (visit_elements path (suc index) xs)

  pub visit_members : List ℕ → Members → Found
  visit_members path no_members = ([], false)
  visit_members path (member key is_settlement v ms) =
      join_found (join_found (candidate_of is_settlement (key ∷ path) v) (visit (key ∷ path) v))
        (visit_members path ms)

unfoldable pub find_delta : ℕ → List ExecutionDelta → Option ExecutionDelta
find_delta id [] = none
find_delta id (d ∷ rows) =
    let rest = find_delta id rows in if d.execution_delta_id == id then some d else rest

unfoldable pub find_snapshot : ℕ → List ExecutionSnapshot → Option ExecutionSnapshot
find_snapshot id [] = none
find_snapshot id (s ∷ rows) =
    let rest = find_snapshot id rows in if s.execution_snapshot_id == id then some s else rest

unfoldable pub find_response : ℕ → List RawApiResponse → Option RawApiResponse
find_response id [] = none
find_response id (r ∷ rows) =
    let rest = find_response id rows in if r.raw_response_id == id then some r else rest

abbrev pub found_or : {A : Type 0} → PostError → Option A → Result PostError A
found_or e none = err e
found_or e (some a) = ok a

-- `verified`: the row, whose body has the stored hash.
unfoldable pub verified : (Json → ℕ) → ℕ → List RawApiResponse → Result PostError RawApiResponse
unfolding find_response
verified hash id rows = do
  r ← found_or raw_evidence_unverified (find_response id rows)
  require (hash r.body == r.response_hash) raw_evidence_unverified
  ok r

abbrev pub all_equal : ℕ → List (List ℕ × ℕ) → Bool
all_equal day [] = true
all_equal day ((path, d) ∷ found) = d == day && all_equal day found

-- The one day of the candidates.
abbrev pub only_day : List (List ℕ × ℕ) → Result PostError ℕ
only_day [] = err settlement_absent
only_day ((path, d) ∷ found) = if all_equal d found then ok d else err settlement_ambiguous

-- `resolve`
unfoldable pub resolve_settlement :
    (Json → ℕ)
    → (List (List ℕ) → List (List ℕ))
    → Books
    → ℕ
    → ℕ
    → Result PostError SettlementEvidence
unfolding find_delta find_snapshot verified visit get
resolve_settlement hash sort b delta claimed = do
  d ← found_or settlement_lineage_missing (find_delta delta b.deltas)
  s ← found_or settlement_lineage_missing (find_snapshot d.to_snapshot_id b.snapshots)
  o ← found_or settlement_lineage_missing (get d.broker_order_id b.orders)
  raw ← verified hash s.source_response_id b.responses
  require
      (raw.from_toss
        && raw.account_id == o.account_id
        && leb 200 raw.status_code
        && ltb raw.status_code 300)
      not_authoritative
  require (not (visit [] raw.body).1) settlement_malformed
  day ← only_day (visit [] raw.body).0
  require (day == claimed) settlement_conflict
  ok (record {
    execution_delta_id = delta;
    execution_snapshot_id = s.execution_snapshot_id;
    source_response_id = s.source_response_id;
    settlement_date = day;
    extraction_paths = sort (map (λ p. p.0) (visit [] raw.body).0);
    response_hash = raw.response_hash;
  })

unfoldable pub find_evidence : ℕ → List EvidenceRow → Option EvidenceRow
find_evidence delta [] = none
find_evidence delta (r ∷ rows) =
    let rest = find_evidence delta rows in
    if r.evidence.execution_delta_id == delta then some r else rest

abbrev pub has_snapshot : ℕ → List EvidenceRow → Bool
has_snapshot id [] = false
has_snapshot id (r ∷ rows) = r.evidence.execution_snapshot_id == id || has_snapshot id rows

-- `persist`: a delta and a snapshot have one row.
unfoldable pub persist :
    (SettlementEvidence → ℕ)
    → SettlementEvidence
    → List EvidenceRow
    → Result PostError (List EvidenceRow)
unfolding find_evidence
persist hash e rows = do
  require
      (not (is_some (find_evidence e.execution_delta_id rows))
        && not (has_snapshot e.execution_snapshot_id rows))
      row_exists
  ok (record { evidence = e; evidence_hash = hash e } ∷ rows)

abbrev pub same_path : List ℕ → List ℕ → Bool
same_path [] [] = true
same_path [] (y ∷ ys) = false
same_path (x ∷ xs) [] = false
same_path (x ∷ xs) (y ∷ ys) = x == y && same_path xs ys

abbrev pub same_paths : List (List ℕ) → List (List ℕ) → Bool
same_paths [] [] = true
same_paths [] (y ∷ ys) = false
same_paths (x ∷ xs) [] = false
same_paths (x ∷ xs) (y ∷ ys) = same_path x y && same_paths xs ys

-- The stored row is the resolved evidence.
abbrev pub same_evidence : (SettlementEvidence → ℕ) → SettlementEvidence → EvidenceRow → Bool
same_evidence hash e r =
    r.evidence.execution_snapshot_id == e.execution_snapshot_id
    && r.evidence.source_response_id == e.source_response_id
    && r.evidence.settlement_date == e.settlement_date
    && same_paths r.evidence.extraction_paths e.extraction_paths
    && r.evidence.response_hash == e.response_hash
    && r.evidence_hash == hash e

-- `require`, as `require_evidence`
unfoldable pub require_evidence :
    (Json → ℕ)
    → (List (List ℕ) → List (List ℕ))
    → (SettlementEvidence → ℕ)
    → Books
    → ℕ
    → ℕ
    → Result PostError SettlementEvidence
unfolding resolve_settlement find_evidence
require_evidence hash sort hash_evidence b delta claimed = do
  e ← resolve_settlement hash sort b delta claimed
  r ← found_or settlement_evidence_absent (find_evidence delta b.evidence)
  require (same_evidence hash_evidence e r) settlement_evidence_mismatch
  ok e
