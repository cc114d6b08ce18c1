-- ===== src/Overrides/Resolved.antt =====
-- What the overrides of a journal do to a decision.
use toss_trading_core.Prelude.{
  ==_eq, All, Bool, Bool-cases, List, Option, [], and_both, ap, arith, aware, bind_ok, err, false,
  inl, inr, leb, leb_le, ltb_lt, none, not, ok, ok_inj, refl, require_ok, some, subst, sym, true, ℕ,
  ◌&&◌, ◌++◌, ◌<◌, ◌==◌, ◌∷◌, ◌≡◌, ◌≤◌, ◌⊎◌,
}
use toss_trading_core.Overrides.{
  Body, DecisionAction, ManualOverride, action_code, active_at, decision_invalid,
  original_action_mismatch,
}
use toss_trading_core.Overrides.Journal.{
  Json, ManualInterventionState, Text, active_events, load, original, overridden, resolve, state_of,
}

-- The event is one of the decision, and active at the time: from its creation on, before its expiry.
pub record Applies (decision instant : ℕ) (e : ManualOverride) : Type 0 where
  pub of_decision : e.body.decision_id ≡ decision
  pub created : e.body.created_at ≤ instant
  pub not_expired : instant < e.body.expires_at

abbrev pub Idle : ℕ → ℕ → ManualOverride → Type 0
Idle decision instant e = ¬ Applies decision instant e

abbrev applies : ℕ → ℕ → ManualOverride → Bool
applies decision instant e = e.body.decision_id == decision && active_at instant e

applies-Applies :
    (decision instant : ℕ) (e : ManualOverride)
    → applies decision instant e ≡ true
    → Applies decision instant e
unfolding active_at
applies-Applies decision instant e h =
    let (a, b) = and_both (e.body.decision_id == decision) _ h in
    let (c, d) = and_both (leb e.body.created_at instant) _ b in
    record { of_decision = ==_eq _ _ a; created = leb_le _ _ c; not_expired = ltb_lt _ _ d }

applies-Idle :
    (decision instant : ℕ) (e : ManualOverride)
    → applies decision instant e ≡ false
    → Idle decision instant e
unfolding active_at
applies-Idle decision instant e h a =
    let x = a.of_decision in
    let y = a.created in let z = a.not_expired in ground (arith, h, x, y, z)

-- One event applies, and none beside it.
pub record Sole (decision instant : ℕ) (events : List ManualOverride) (e : ManualOverride)
    : Type 0 where
  pub before : List ManualOverride
  pub after : List ManualOverride
  pub placed : events ≡ before ++ e ∷ after
  pub applied : Applies decision instant e
  pub idle_before : All (Idle decision instant) before
  pub idle_after : All (Idle decision instant) after

active_events-Idle :
    (decision instant : ℕ) (events : List ManualOverride)
    → active_events decision instant events ≡ []
    → All (Idle decision instant) events
unfolding active_events
active_events-Idle decision instant [] h = tt
active_events-Idle decision instant (x ∷ events) h =
    elim (Bool-cases (applies decision instant x)) [
      | inl y ↦ let c : x ∷ active_events decision instant events ≡ [] = rw y at h in cc c
      | inr n ↦ (
        applies-Idle decision instant x n,
        active_events-Idle decision instant events (rw n at h),
      )
    ]

active_events-Sole :
    (decision instant : ℕ) (events : List ManualOverride) (e : ManualOverride)
    → active_events decision instant events ≡ e ∷ []
    → Sole decision instant events e
unfolding active_events
active_events-Sole decision instant [] e h = cc h
active_events-Sole decision instant (x ∷ events) e h =
    elim (Bool-cases (applies decision instant x)) [
      | inl y ↦
          let k : x ∷ active_events decision instant events ≡ e ∷ [] = rw y at h in
          let (same, none_left) = cons_inj k in
          subst (Sole decision instant (x ∷ events)) same (record {
            before = [];
            after = events;
            placed = refl;
            applied = applies-Applies decision instant x y;
            idle_before = tt;
            idle_after = active_events-Idle decision instant events none_left;
          })
      | inr n ↦
          let s = active_events-Sole decision instant events e (rw n at h) in
          record {
            before = x ∷ s.before;
            after = s.after;
            placed = ap (λ es. x ∷ es) s.placed;
            applied = s.applied;
            idle_before = (applies-Idle decision instant x n, s.idle_before);
            idle_after = s.idle_after;
          }
    ]
  where
    cons_inj :
        {y z : ManualOverride} {ys zs : List ManualOverride} → y ∷ ys ≡ z ∷ zs → (y ≡ z) × (ys ≡ zs)
    cons_inj q = (cc q, cc q)

-- Nothing applies and the decision's own action stands; or one event does, which was made for this
-- action, and its own takes the place of it.
abbrev pub Resolved :
    ℕ → DecisionAction → ℕ → List ManualOverride → ManualInterventionState → Type 0
Resolved decision action instant events s =
    (All (Idle decision instant) events
      × (s.effective_action ≡ original action)
      × (s.override_id ≡ none))
    ⊎ ((e : ManualOverride) × Sole decision instant events e
        × (action_code e.body.original_action ≡ action_code action)
        × (s.effective_action ≡ overridden e.body.override_action)
        × (s.override_id ≡ some e.override_id)
        × (s.reason ≡ some e.body.reason))

state_of-Resolved :
    (decision : ℕ) (action : DecisionAction) (instant : ℕ) (events active : List ManualOverride)
    (s : ManualInterventionState)
    → active_events decision instant events ≡ active
    → state_of decision action instant active ≡ ok s
    → Resolved decision action instant events s
state_of-Resolved decision action instant events [] s a h =
    let e = ok_inj h in
    inl (
      active_events-Idle decision instant events a,
      sym (ap (λ x. x.effective_action) e),
      sym (ap (λ x. x.override_id) e),
    )
state_of-Resolved decision action instant events (e ∷ []) s a h =
    elim (Bool-cases (action_code e.body.original_action == action_code action)) [
      | inr n ↦ let c : err original_action_mismatch ≡ ok s = rw n at h in cc c
      | inl y ↦
          let k = ok_inj (rw y at h) in
          inr (
            e,
            active_events-Sole decision instant events e a,
            ==_eq _ _ y,
            sym (ap (λ x. x.effective_action) k),
            sym (ap (λ x. x.override_id) k),
            sym (ap (λ x. x.reason) k),
          )
    ]
state_of-Resolved decision action instant events (e ∷ e' ∷ more) s a h = cc h

-- A decision that is resolved has a journal that loads, in which at most one event is one of the
-- decision and active at the time. With none the decision's own action stands, and no override is
-- named; with one, it was made for this action, and its action and its reason are taken.
pub resolve-Resolved :
    (json : Json) (name : Body → ℕ) (decision : ℕ) (action : DecisionAction) (instant : ℕ)
    (file : Option Text) (s : ManualInterventionState)
    → resolve json name decision action (aware instant) file ≡ ok s
    → (events : List ManualOverride) × (load json name file ≡ ok events)
      × Resolved decision action instant events s
unfolding resolve
resolve-Resolved json name decision action instant file s h =
    let (_, r) = require_ok (not (decision == 0)) decision_invalid _ s h in
    let (events, loaded, rest) = bind_ok (load json name file) _ s r in
    (
      events,
      loaded,
      state_of-Resolved decision action instant events (active_events decision instant events) s
          refl rest,
    )
