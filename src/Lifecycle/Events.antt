-- ===== src/Lifecycle/Events.antt =====
-- apps/controller/src/jobs/lifecycle.ts: the events of an attempt are numbered without a gap.
use remote_build_orchestrato.Common.{
  ℕ, zero, suc, ◌<◌, ◌≡◌, refl, ap, ◌∙◌, inl, inr, ◌⊎◌, Bool, false, List, [], ◌∷◌, ◌++◌, ok, arith,
  max, ◌==◌, up_to, if◌then◌else◌, Bool-cases, ==_iff,
}
use remote_build_orchestrato.Common.Rows.{has_row}
use mathlib.Core.List.{append-nil}
use remote_build_orchestrato.Lifecycle.{EventRow, Database, JobRow, AttemptRow}
use remote_build_orchestrato.Lifecycle.Writes.{
  greatest, of_attempt, next_event_sequence, create_job_event, record_event, any_row, same_event,
}

abbrev pub sequences : ℕ → List EventRow → List ℕ
sequences attempt [] = []
sequences attempt (e ∷ es) =
    let rest = sequences attempt es in if of_attempt attempt e then e.sequence ∷ rest else rest

-- The events of an attempt have the sequences 1, 2, …, n, in this order.
abbrev pub IsGapless : ℕ → Database → Type 0
IsGapless attempt db = (n : ℕ) × (sequences attempt db.events ≡ up_to n)

abbrev maximum : List ℕ → ℕ
maximum [] = 0
maximum (n ∷ ns) = max n (maximum ns)

greatest-maximum :
    (attempt : ℕ) (es : List EventRow)
    → greatest (of_attempt attempt) EventRow.sequence es ≡ maximum (sequences attempt es)
greatest-maximum attempt [] = refl
greatest-maximum attempt (e ∷ es) = ground (arith, greatest-maximum attempt es)

maximum-append : (ns : List ℕ) (n : ℕ) → maximum (ns ++ n ∷ []) ≡ max (maximum ns) n
maximum-append [] n = omega arith
maximum-append (m ∷ ns) n = omega (arith, maximum-append ns n)

maximum-up_to : (n : ℕ) → maximum (up_to n) ≡ n
maximum-up_to zero = refl
maximum-up_to (suc n) = omega (arith, maximum-append (up_to n) (suc n), maximum-up_to n)

sequences-append :
    (attempt : ℕ) (es : List EventRow) (e : EventRow)
    → sequences attempt (es ++ e ∷ [])
      ≡ sequences attempt es ++ (if of_attempt attempt e then e.sequence ∷ [] else [])
sequences-append attempt [] e = ground arith
sequences-append attempt (x ∷ es) e = ground (arith, sequences-append attempt es e)

-- The next sequence is no row's.
fresh_sequence :
    (e : EventRow) (es : List EventRow)
    → greatest (of_attempt e.attempt_id) EventRow.sequence es < e.sequence
    → any_row (same_event e) es ≡ false
fresh_sequence e [] h = refl
fresh_sequence e (x ∷ es) h = ground (arith, fresh_sequence e es)

-- Why an event is refused: its schema, its job or its attempt.
abbrev pub Refused : Database → Bool → EventRow → Type 0
Refused db parses e =
    (parses ≡ false)
    ⊎ ((has_row JobRow.id e.job_id db.jobs ≡ false)
        ⊎ (has_row AttemptRow.id e.attempt_id db.attempts ≡ false))

written-sequences :
    (db : Database) (type job attempt now other : ℕ)
    → IsGapless other db
    → IsGapless other
        (record db { events = db.events ++ create_job_event db type job attempt now ∷ [] })
unfolding next_event_sequence
written-sequences db type job attempt now other (n, h) =
    let e = create_job_event db type job attempt now in
    let grown = sequences-append other db.events e in
    elim (Bool-cases (attempt == other)) [
      | inl same ↦
          let at : attempt ≡ other = (==_iff attempt other).0 same in
          let number : greatest (of_attempt attempt) EventRow.sequence db.events ≡ n =
            ap (λ a. greatest (of_attempt a) EventRow.sequence db.events) at
            ∙ greatest-maximum other db.events
            ∙ ap maximum h
            ∙ maximum-up_to n in
          let next : e.sequence ≡ suc n = omega (arith, number) in
          (suc n, ground (arith, grown, next))
      | inr apart ↦ (n, ground (arith, grown, append-nil (sequences other db.events)))
    ]

-- An event that is written keeps the events of every attempt numbered 1, 2, … with no gap and no
-- repetition. It is written unless its schema refuses it or its job or attempt is missing, and then
-- nothing is.
record_event-IsGapless :
    (db : Database) (parses : Bool) (type job attempt now other : ℕ)
    → IsGapless other db
    → let e = create_job_event db type job attempt now in
      let (after, result) = record_event db parses e in
      IsGapless other after × ((result ≡ ok e) ⊎ (Refused db parses e × (after ≡ db)))
unfolding record_event next_event_sequence
record_event-IsGapless db parses type job attempt now other h =
    let e = create_job_event db type job attempt now in
    let fresh : any_row (same_event e) db.events ≡ false =
      fresh_sequence e db.events (omega arith) in
    elim (Bool-cases parses) [
      | inr bad ↦ rw bad (h, inr (inl refl, refl))
      | inl good ↦ elim (Bool-cases (has_row JobRow.id job db.jobs)) [
        | inr no_job ↦ rw (good, no_job) (h, inr (inr (inl refl), refl))
        | inl has_job ↦ elim (Bool-cases (has_row AttemptRow.id attempt db.attempts)) [
          | inr no_attempt ↦ rw (good, has_job, no_attempt) (h, inr (inr (inr refl), refl))
          | inl has_attempt ↦
              rw (good, has_job, has_attempt, fresh)
                (written-sequences db type job attempt now other h, inl refl)
        ]
      ]
    ]
