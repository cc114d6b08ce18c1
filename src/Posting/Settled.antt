-- ===== src/Posting/Settled.antt =====
-- What the evidence of a settlement date says about the broker's response.
use toss_trading_core.Prelude.{
  ==_eq, ==_refl, Bool, Bool-cases, List, Option, [], ap, arith, bind_ok, err, false, inl, inr, leb,
  ltb, none, not, ok, ok_inj, refl, require_ok, some, subst, suc, true, ℕ, ◌&&◌, ◌++◌, ◌<◌, ◌==◌,
  ◌∷◌, ◌≡◌, ◌≢◌, ◌≤◌,
}
use toss_trading_core.Ledger.CashState.{agree}
use toss_trading_core.Posting.{
  Books, Elements, Json, Members, PostError, RawApiResponse, SettlementEvidence, element, json_list,
  json_object, json_other, json_text, member, no_elements, no_members, not_authoritative,
  raw_evidence_unverified, settlement_ambiguous, settlement_conflict, settlement_lineage_missing,
  settlement_malformed,
}
use toss_trading_core.Posting.Settlement.{
  Found, all_equal, candidate_of, find_delta, find_response, find_snapshot, found_or, join_found,
  only_day, resolve_settlement, verified, visit, visit_elements, visit_members,
}
use toss_trading_core.Prelude.Dict.{get}

-- The value of a settlement key is the text of the day.
abbrev pub IsDay : ℕ → Bool → Json → Type 0
IsDay day false v = Unit
IsDay day true (json_text none) = ⊥
IsDay day true (json_text (some d)) = d ≡ day
IsDay day true json_other = ⊥
IsDay day true (json_list xs) = ⊥
IsDay day true (json_object ms) = ⊥

-- Every settlement key in a value, at any depth, has this day.
unfoldable mutual
  pub Settles : ℕ → Json → Type 0
  Settles day (json_text d) = Unit
  Settles day json_other = Unit
  Settles day (json_list xs) = SettlesElements day xs
  Settles day (json_object ms) = SettlesMembers day ms

  pub SettlesElements : ℕ → Elements → Type 0
  SettlesElements day no_elements = Unit
  SettlesElements day (element v xs) = Settles day v × SettlesElements day xs

  pub SettlesMembers : ℕ → Members → Type 0
  SettlesMembers day no_members = Unit
  SettlesMembers day (member key is_settlement v ms) =
      IsDay day is_settlement v × Settles day v × SettlesMembers day ms

-- Nothing malformed, and all days the same.
abbrev Agrees : ℕ → Found → Type 0
Agrees day (found, malformed) = (malformed ≡ false) × (all_equal day found ≡ true)

all_equal-append :
    (day : ℕ) (xs ys : List (List ℕ × ℕ))
    → all_equal day (xs ++ ys) ≡ true
    → (all_equal day xs ≡ true) × (all_equal day ys ≡ true)
all_equal-append day [] ys h = (refl, h)
all_equal-append day ((p, d) ∷ xs) ys h = elim (Bool-cases (d == day)) [
  | inl y ↦ let (a, b) = all_equal-append day xs ys (rw y at h) in (rw y a, b)
  | inr n ↦ let c : false ≡ true = rw n at h in cc c
]

join_found-Agrees :
    (day : ℕ) (f g : Found) → Agrees day (join_found f g) → Agrees day f × Agrees day g
join_found-Agrees day (xs, false) (ys, b) (m, a) =
    let (p, q) = all_equal-append day xs ys a in ((refl, p), (m, q))
join_found-Agrees day (xs, true) (ys, b) (m, a) = cc m

candidate_of-IsDay :
    (day : ℕ) (b : Bool) (path : List ℕ) (v : Json)
    → Agrees day (candidate_of b path v)
    → IsDay day b v
candidate_of-IsDay day false path v a = tt
candidate_of-IsDay day true path (json_text none) a = cc (a.0)
candidate_of-IsDay day true path (json_text (some d)) (m, h) = ground (arith, h)
candidate_of-IsDay day true path json_other a = cc (a.0)
candidate_of-IsDay day true path (json_list xs) a = cc (a.0)
candidate_of-IsDay day true path (json_object ms) a = cc (a.0)

mutual
  unfolding visit visit_elements visit_members Settles SettlesElements SettlesMembers

  pub visit-Settles :
      (day : ℕ) (path : List ℕ) (v : Json) → Agrees day (visit path v) → Settles day v
  visit-Settles day path (json_text d) a = tt
  visit-Settles day path json_other a = tt
  visit-Settles day path (json_list xs) a = elements-Settle day path 0 xs a
  visit-Settles day path (json_object ms) a = members-Settle day path ms a

  elements-Settle :
      (day : ℕ) (path : List ℕ) (index : ℕ) (xs : Elements)
      → Agrees day (visit_elements path index xs)
      → SettlesElements day xs
  elements-Settle day path index no_elements a = tt
  elements-Settle day path index (element v xs) a =
      let (p, q) =
        join_found-Agrees day (visit (index ∷ path) v) (visit_elements path (suc index) xs) a in
      (visit-Settles day (index ∷ path) v p, elements-Settle day path (suc index) xs q)

  members-Settle :
      (day : ℕ) (path : List ℕ) (ms : Members)
      → Agrees day (visit_members path ms)
      → SettlesMembers day ms
  members-Settle day path no_members a = tt
  members-Settle day path (member key b v ms) a =
      let (p, q) =
        join_found-Agrees day (join_found (candidate_of b (key ∷ path) v) (visit (key ∷ path) v))
          (visit_members path ms) a in
      let (r, s) = join_found-Agrees day (candidate_of b (key ∷ path) v) (visit (key ∷ path) v) p in
      (
        candidate_of-IsDay day b (key ∷ path) v r,
        visit-Settles day (key ∷ path) v s,
        members-Settle day path ms q,
      )

only_day-Agrees :
    (found : List (List ℕ × ℕ)) (day : ℕ)
    → only_day found ≡ ok day
    → (all_equal day found ≡ true) × (found ≢ [])
only_day-Agrees [] day h = cc h
only_day-Agrees ((p, d) ∷ found) day h = elim (Bool-cases (all_equal d found)) [
  | inr n ↦ let c : err settlement_ambiguous ≡ ok day = rw n at h in cc c
  | inl y ↦
      let e : d ≡ day = ok_inj (rw y at h) in
      (subst (λ z. (d == z && all_equal z found) ≡ true) e (rw (==_refl d, y) refl), λ n. cc n)
]

found_or-some :
    {A : Type 0} (e : PostError) (o : Option A) (a : A) → found_or e o ≡ ok a → o ≡ some a
found_or-some e none a h = cc h
found_or-some e (some x) a h = ap some (ok_inj h)

-- What resolved evidence rests on.
pub record IsSettled (hash : Json → ℕ) (b : Books) (delta claimed : ℕ) (e : SettlementEvidence)
    : Type 0 where
  pub of_delta : e.execution_delta_id ≡ delta
  pub as_claimed : e.settlement_date ≡ claimed
  pub response : RawApiResponse
  pub stored : find_response e.source_response_id b.responses ≡ some response
  pub intact : hash response.body ≡ response.response_hash
  pub authoritative :
      (response.from_toss ≡ true) × (200 ≤ response.status_code) × (response.status_code < 300)
  pub settles : Settles claimed response.body
  pub mentioned : (visit [] response.body).0 ≢ []

verified-ok :
    (hash : Json → ℕ) (id : ℕ) (rows : List RawApiResponse) (r : RawApiResponse)
    → verified hash id rows ≡ ok r
    → (find_response id rows ≡ some r) × (hash r.body ≡ r.response_hash)
unfolding verified
verified-ok hash id rows r h =
    let (x, f, r1) = bind_ok (found_or raw_evidence_unverified (find_response id rows)) _ r h in
    let (y, r2) = require_ok (hash x.body == x.response_hash) raw_evidence_unverified _ r r1 in
    let e : x ≡ r = ok_inj r2 in
    subst (λ z. (find_response id rows ≡ some z) × (hash z.body ≡ z.response_hash)) e
      (found_or-some raw_evidence_unverified (find_response id rows) x f, ==_eq _ _ y)

-- Evidence that is resolved is of the delta and has the claimed day, and it rests on a stored
-- response of Toss with its hash intact and a status of success, in which some settlement key occurs
-- and every one, at any depth, is the text of just that day.
pub resolve_settlement-IsSettled :
    (hash : Json → ℕ) (sort : List (List ℕ) → List (List ℕ)) (b : Books) (delta claimed : ℕ)
    (e : SettlementEvidence)
    → resolve_settlement hash sort b delta claimed ≡ ok e
    → IsSettled hash b delta claimed e
unfolding resolve_settlement
resolve_settlement-IsSettled hash sort b delta claimed e h =
    let (d, _, r1) =
      bind_ok (found_or settlement_lineage_missing (find_delta delta b.deltas)) _ e h in
    let (s, _, r2) =
      bind_ok (found_or settlement_lineage_missing (find_snapshot d.to_snapshot_id b.snapshots)) _ e
        r1 in
    let (o, _, r3) =
      bind_ok (found_or settlement_lineage_missing (get d.broker_order_id b.orders)) _ e r2 in
    let (raw, v, r4) = bind_ok (verified hash s.source_response_id b.responses) _ e r3 in
    let (auth, r5) = require_ok _ not_authoritative _ e r4 in
    let (well, r6) = require_ok _ settlement_malformed _ e r5 in
    let (day, only, r7) = bind_ok (only_day (visit [] raw.body).0) _ e r6 in
    let (same, r8) = require_ok (day == claimed) settlement_conflict _ e r7 in
    let (agree, some_found) = only_day-Agrees (visit [] raw.body).0 day only in
    let (stored, intact) = verified-ok hash s.source_response_id b.responses raw v in
    let d' : day ≡ claimed = ==_eq day claimed same in
    subst (IsSettled hash b delta claimed) (ok_inj r8) (record {
      of_delta = refl;
      as_claimed = d';
      response = raw;
      stored = stored;
      intact = intact;
      authoritative = status raw.from_toss (raw.account_id == o.account_id) raw.status_code auth;
      settles = visit-Settles claimed [] raw.body (
        not_true (visit [] raw.body).1 well,
        subst (λ z. all_equal z (visit [] raw.body).0 ≡ true) d' agree,
      );
      mentioned = some_found;
    })
  where
    not_true : (x : Bool) → not x ≡ true → x ≡ false
    not_true true h = cc h
    not_true false h = refl

    status :
        (t a : Bool) (n : ℕ)
        → (t && a && leb 200 n && ltb n 300) ≡ true
        → (t ≡ true) × (200 ≤ n) × (n < 300)
    status t a n h = (ground (arith, h), ground (arith, h), ground (arith, h))
