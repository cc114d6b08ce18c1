-- ===== src/Overrides/Roundtrip.antt =====
-- What is appended to the journal, and what a load then reads.
use mathlib.Core.List.{append_assoc}
use toss_trading_core.Prelude.{
  ==_refl, Bool-cases, List, Option, Result, [], ap, bind_ok, err, false, inl, inr, ltb, none, not,
  not-true, ok, ok_inj, refl, require, require_ok, some, subst, sym, true, ℕ, ◌++◌, ◌==◌, ◌>>=◌,
  ◌>>◌, ◌||◌, ◌∙◌, ◌∷◌, ◌≡◌,
}
use toss_trading_core.Overrides.{
  Body, ManualOverride, OverrideError, Request, action_code, blank_field, body_of, expiring,
  expiry_invalid, expiry_of, field_invalid, id_agrees, id_invalid, make_override, named, no_effect,
  override_code, record_invalid, same_word, utc, within,
}
use toss_trading_core.Overrides.Journal.{
  Json, Text, append_event, event_of, find_event, fresh_event, is_boundary, line_of, load,
  load_lines, member, override_payload, parse_line, split_lines, text_of,
}
use toss_trading_core.Overrides.Lines.{
  ends_line, ends_line-append, is_one_line, split_lines-append, split_lines-cut, split_lines-one,
}

named-event :
    (name : Body → ℕ) (given : Option ℕ) (b : Body) (e : ManualOverride)
    → named name given b ≡ ok e
    → record { body = b; override_id = name b } ≡ e
named-event name given b e h = elim (Bool-cases (id_agrees given (name b))) [
  | inr n ↦
      let k : ◌≡◌ {A = Result OverrideError ManualOverride} (err id_invalid) (ok e) = rw n at h in
      cc k
  | inl y ↦
      let k : ◌≡◌ {A = Result OverrideError ManualOverride}
          (ok (record { body = b; override_id = name b })) (ok e) =
        rw y at h in
      ok_inj k
]

-- What the constructor has checked of an event.
pub record IsChecked (name : Body → ℕ) (e : ManualOverride) : Type 0 where
  pub filled :
      (e.body.decision_id == 0
        || e.body.reason == 0
        || e.body.requested_by == 0
        || e.body.approved_by == 0)
      ≡ false
  pub effective :
      (action_code e.body.original_action == override_code e.body.override_action) ≡ false
  pub ordered : ltb e.body.created_at e.body.expires_at ≡ true
  pub named_by : e.override_id ≡ name e.body

make_override-IsChecked :
    (name : Body → ℕ) (r : Request) (e : ManualOverride)
    → make_override name r ≡ ok e
    → IsChecked name e
unfolding make_override
make_override-IsChecked name r e h =
    let (f, h1) =
      require_ok (not (blank_field r)) field_invalid
        (require (not (same_word r)) no_effect >> (utc r.created_at >>= λ t. expiring name r t)) e
        h in
    let (n, h2) =
      require_ok (not (same_word r)) no_effect (utc r.created_at >>= λ t. expiring name r t) e h1 in
    let (created, _, h3) = bind_ok (utc r.created_at) (λ t. expiring name r t) e h2 in
    let (expires, _, h4) =
      bind_ok (expiry_of created r.expires_at) (λ t. within name r created t) e h3 in
    let (o, h5) =
      require_ok (ltb created expires) expiry_invalid
        (named name r.override_id (body_of r created expires)) e h4 in
    subst (IsChecked name) (named-event name r.override_id (body_of r created expires) e h5)
      (record {
        filled = not-true (blank_field r) f;
        effective = not-true (same_word r) n;
        ordered = o;
        named_by = refl;
      })

override_payload-IsChecked :
    (name : Body → ℕ) (e : ManualOverride)
    → IsChecked name e
    → event_of name (override_payload e) ≡ ok e
unfolding event_of override_payload make_override
override_payload-IsChecked name e c =
    rw (c.filled, c.effective, c.ordered, c.named_by, ==_refl (name e.body)) refl

parse_line-override_payload :
    (json : Json) (name : Body → ℕ) (e : ManualOverride)
    → IsChecked name e
    → json.loads (json.dumps (override_payload e)) ≡ some (override_payload e)
    → parse_line json name (json.dumps (override_payload e)) ≡ ok e
unfolding parse_line
parse_line-override_payload json name e c back =
    rw (back, parse_line) (override_payload-IsChecked name e c)

find_event-cons :
    (i : ℕ) (d : ManualOverride) (ds : List ManualOverride)
    → find_event i (d ∷ ds) ≡ none
    → ((d.override_id == i) ≡ false) × (find_event i ds ≡ none)
unfolding find_event
find_event-cons i d ds h = elim (Bool-cases (d.override_id == i)) [
  | inl y ↦ let k : some d ≡ none = rw y at h in cc k
  | inr n ↦ (n, rw n at h)
]

-- What the loop of `load` does with lines after those that it reads.
module _ (json : Json) (name : Body → ℕ) where
  abbrev step : List ℕ → List Text → ManualOverride → Result OverrideError (List ManualOverride)
  step seen lines x = fresh_event seen x >>= λ _.
      load_lines json name (x.override_id ∷ seen) lines >>= λ es. ok (x ∷ es)

  load_lines-known :
      (e : ManualOverride) (l : Text) (seen : List ℕ) (lines : List Text)
      (events : List ManualOverride)
      → parse_line json name l ≡ ok e
      → member e.override_id seen ≡ false
      → find_event e.override_id events ≡ none
      → load_lines json name seen lines ≡ ok events
      → load_lines json name seen (lines ++ l ∷ []) ≡ ok (events ++ e ∷ [])
  unfolding load_lines
  load_lines-known e l seen [] events c m f h = rw (c, m) (ap (λ es. ok (es ++ e ∷ [])) (ok_inj h))
  load_lines-known e l seen (x ∷ lines) events c m f h =
      let (d, p, h1) = bind_ok (parse_line json name x) (step seen lines) events h in
      let (_, q, h2) =
        bind_ok (fresh_event seen d)
          (λ _. load_lines json name (d.override_id ∷ seen) lines >>= λ es. ok (d ∷ es)) events
          h1 in
      let (ds, k, h3) =
        bind_ok (load_lines json name (d.override_id ∷ seen) lines) (λ es. ok (d ∷ es)) events h2 in
      let g : find_event e.override_id (d ∷ ds) ≡ none =
        subst (λ es. find_event e.override_id es ≡ none) (sym (ok_inj h3)) f in
      let (other, g') = find_event-cons e.override_id d ds g in
      rw
        (
          p,
          q,
          load_lines-known e l (d.override_id ∷ seen) lines ds c
              (ap (λ b. b || member e.override_id seen) other ∙ m) g' k,
        )
        (ap (λ es. ok (es ++ e ∷ [])) (ok_inj h3))

  load_lines-broken :
      (l : Text) (seen : List ℕ) (lines more : List Text) (events : List ManualOverride)
      → parse_line json name l ≡ err record_invalid
      → load_lines json name seen lines ≡ ok events
      → load_lines json name seen (lines ++ l ∷ more) ≡ err record_invalid
  unfolding load_lines
  load_lines-broken l seen [] more events c h = rw c refl
  load_lines-broken l seen (x ∷ lines) more events c h =
      let (d, p, h1) = bind_ok (parse_line json name x) (step seen lines) events h in
      let (_, q, h2) =
        bind_ok (fresh_event seen d)
          (λ _. load_lines json name (d.override_id ∷ seen) lines >>= λ es. ok (d ∷ es)) events
          h1 in
      let (ds, k, h3) =
        bind_ok (load_lines json name (d.override_id ∷ seen) lines) (λ es. ok (d ∷ es)) events h2 in
      rw (p, q, load_lines-broken l (d.override_id ∷ seen) lines more ds c k) refl

  load-lines :
      (file : Option Text) (events : List ManualOverride)
      → load json name file ≡ ok events
      → load_lines json name [] (split_lines (text_of file)) ≡ ok events
  unfolding load load_lines split_lines
  load-lines none events h = h
  load-lines (some text) events h = h

  load-written :
      (file : Option Text) (written : Text) (lines : List Text)
      → ends_line (text_of file) ≡ true
      → split_lines written ≡ lines
      → load json name (some (text_of file ++ written))
        ≡ load_lines json name [] (split_lines (text_of file) ++ lines)
  unfolding load
  load-written file written lines h e =
      ap (load_lines json name [])
        (split_lines-append (text_of file) written h ∙ ap (λ x. split_lines (text_of file) ++ x) e)

-- The journal ends a line, and so does a file that is not there.
abbrev pub IsComplete : Option Text → Type 0
IsComplete file = ends_line (text_of file) ≡ true

-- An event that the constructor has accepted and whose id is new, with a JSON text that is read back
-- and that has no character at which `splitlines` cuts, is appended to a journal that ends a line: the
-- journal then reads as before with this event at its end, and ends a line again.
pub append_event-load :
    (json : Json) (name : Body → ℕ) (r : Request) (e : ManualOverride) (file : Option Text)
    (events : List ManualOverride)
    → make_override name r ≡ ok e
    → json.loads (json.dumps (override_payload e)) ≡ some (override_payload e)
    → is_one_line (json.dumps (override_payload e)) ≡ true
    → IsComplete file
    → load json name file ≡ ok events
    → find_event e.override_id events ≡ none
    → ((append_event json name e file).0 ≡ ok tt)
      × (load json name (append_event json name e file).1 ≡ ok (events ++ e ∷ []))
      × IsComplete (append_event json name e file).1
unfolding append_event
append_event-load json name r e file events made back one_line complete h f =
    let parsed =
      parse_line-override_payload json name e (make_override-IsChecked name r e made) back in
    let known =
      load_lines-known json name e (json.dumps (override_payload e)) [] (split_lines (text_of file))
        events parsed refl f (load-lines json name file events h) in
    let written =
      load-written json name file (line_of json e) (json.dumps (override_payload e) ∷ []) complete
        (split_lines-one (json.dumps (override_payload e)) one_line) in
    rw (h, f, append_event)
      (refl, written ∙ known, ends_line-append (text_of file) (json.dumps (override_payload e)))

-- An event with a new id whose JSON text has a character at which `splitlines` cuts, where what
-- stands before the first of them is no JSON value, is appended without an error to a journal that
-- ends a line, and nothing in the journal can be loaded then.
pub append_event-unreadable :
    (json : Json) (name : Body → ℕ) (e : ManualOverride) (file : Option Text)
    (events : List ManualOverride) (start : Text) (c : ℕ) (rest : Text)
    → json.dumps (override_payload e) ≡ start ++ c ∷ rest
    → is_one_line start ≡ true
    → is_boundary c ≡ true
    → (c == 13) ≡ false
    → json.loads start ≡ none
    → IsComplete file
    → load json name file ≡ ok events
    → find_event e.override_id events ≡ none
    → ((append_event json name e file).0 ≡ ok tt)
      × (load json name (append_event json name e file).1 ≡ err record_invalid)
unfolding append_event parse_line
append_event-unreadable json name e file events start c rest text one_line cut other no_value
      complete h f =
    let written =
      load-written json name file (line_of json e) (start ∷ split_lines (rest ++ 10 ∷ [])) complete
        (ap (λ t. split_lines (t ++ 10 ∷ [])) text
          ∙ ap split_lines (append_assoc start (c ∷ rest) (10 ∷ []))
          ∙ split_lines-cut start c (rest ++ 10 ∷ []) one_line cut other) in
    let broken =
      load_lines-broken json name start [] (split_lines (text_of file))
        (split_lines (rest ++ 10 ∷ [])) events (rw (no_value, parse_line) refl)
        (load-lines json name file events h) in
    rw (h, f, append_event) (refl, written ∙ broken)
