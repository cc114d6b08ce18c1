-- ===== src/Events/Stored.antt =====
-- A stored event is never replaced.
use toss_trading_core.Prelude.{
  Bool-cases, List, Option, [], arith, false, inl, inr, none, refl, some, sym, true, ℕ, ◌&&◌, ◌==◌,
  ◌∙◌, ◌∷◌, ◌≡◌,
}
use toss_trading_core.Events.{
  EventEnvelope, EventRow, append_envelope, confirm, find_sequence, insert_or_ignore, is_taken,
  same_body, same_key,
}

-- A pair of source and sequence that is free has no row.
free-none :
    (id : ℕ) (e : EventEnvelope) (rows : List EventRow) (source sequence : ℕ)
    → e.source ≡ source
    → e.sequence_number ≡ sequence
    → is_taken id e.source e.sequence_number rows ≡ false
    → find_sequence source sequence rows ≡ none
unfolding is_taken find_sequence
free-none id e [] source sequence p q n = refl
free-none id e (r ∷ rows) source sequence p q n =
    ground (arith, free-none id e rows source sequence p q)

same_key-fields :
    (source sequence : ℕ) (e : EventEnvelope)
    → same_key source sequence e ≡ true
    → (e.source ≡ source) × (e.sequence_number ≡ sequence)
same_key-fields source sequence e h = ground arith

insert_or_ignore-kept :
    (id : ℕ) (e : EventEnvelope) (rows : List EventRow) (source sequence : ℕ) (r : EventRow)
    → find_sequence source sequence rows ≡ some r
    → find_sequence source sequence (insert_or_ignore id e rows) ≡ some r
unfolding insert_or_ignore find_sequence
insert_or_ignore-kept id e rows source sequence r h =
    elim (Bool-cases (is_taken id e.source e.sequence_number rows)) [
      | inl y ↦ rw y h
      | inr n ↦ elim (Bool-cases (same_key source sequence e)) [
        | inr m ↦ rw (n, m) h
        | inl y ↦
            let (p, q) = same_key-fields source sequence e y in
            let k : none ≡ some r = sym (free-none id e rows source sequence p q n) ∙ h in cc k
      ]
    ]

confirm-kept :
    (id : ℕ) (e : EventEnvelope) (x : Option EventRow) (old new : List EventRow)
    (source sequence : ℕ) (r : EventRow)
    → find_sequence source sequence old ≡ some r
    → find_sequence source sequence new ≡ some r
    → find_sequence source sequence (confirm id e x old new).1 ≡ some r
confirm-kept id e none old new source sequence r h k = h
confirm-kept id e (some q) old new source sequence r h k =
    elim (Bool-cases (q.event_id == id && same_body q.body e)) [ inl y ↦ rw y k | inr n ↦ rw n h ]

-- The event under a source and a sequence number stays as it is, whatever is appended later,
-- accepted or refused.
pub append_envelope-kept :
    (name : EventEnvelope → ℕ) (e : EventEnvelope) (rows : List EventRow) (source sequence : ℕ)
    (r : EventRow)
    → find_sequence source sequence rows ≡ some r
    → find_sequence source sequence (append_envelope name e rows).1 ≡ some r
unfolding append_envelope
append_envelope-kept name e rows source sequence r h =
    confirm-kept (name e) e
      (find_sequence e.source e.sequence_number (insert_or_ignore (name e) e rows)) rows
      (insert_or_ignore (name e) e rows) source sequence r h
      (insert_or_ignore-kept (name e) e rows source sequence r h)
