-- ===== src/RemoteAttempt/Final.antt =====
-- apps/controller/src/execution/remote-execution.ts: a completed attempt stays completed.
use remote_build_orchestrato.Common.{
  ℕ, ◌+◌, ◌≡◌, refl, ap, subst, ◌∙◌, ◌⊎◌, inl, inr, Bool, true, false, Option, none, some, List,
  arith, Option-cases, Bool-cases,
}
use remote_build_orchestrato.Common.Rows.{
  has_row, EveryRow, find_row-EveryRow, update_row-EveryRow, update_row-has_row, append-EveryRow,
  append-has_row,
}
use remote_build_orchestrato.Lifecycle.{
  AttemptState, AttemptRow, EventRow, Database, JobState, JobFields, AttemptFields, Outcome,
  FailureCategory, get_attempt, no_attempt_fields, no_job_fields,
}
use remote_build_orchestrato.Lifecycle.Writes.{
  transition_job_state, transition_attempt_state, update_attempt, set_attempt, bump_lease_epoch,
  bumped, insert_attempt, record_event,
}
use remote_build_orchestrato.RemoteLog.{AttemptLeaseRow, load_attempt_by_lease, reject_stale}
use remote_build_orchestrato.RemoteAttempt.{Lease, accepted, finish_attempt, finish_job}

abbrev pub IsCompleted : AttemptRow → Type 0
IsCompleted r = r.state ≡ AttemptState.completed

-- The table has the attempt, and it is completed.
abbrev pub Done : ℕ → List AttemptRow → Type 0
Done i rows = (has_row AttemptRow.id i rows ≡ true) × EveryRow AttemptRow.id IsCompleted i rows

pub get_attempt-Done :
    (db : Database) (i : ℕ) (r : AttemptRow)
    → Done i db.attempts
    → get_attempt db i ≡ some r
    → IsCompleted r
get_attempt-Done db i r h e = find_row-EveryRow AttemptRow.id IsCompleted i db.attempts r h.1 e

pub transition_job_state-attempts :
    (db : Database) (job : ℕ) (state : JobState) (fields : JobFields) (now : ℕ)
    → (transition_job_state db job state fields now).0.attempts ≡ db.attempts
unfolding transition_job_state
transition_job_state-attempts db job state fields now = ground arith

pub update_attempt-Done :
    (db : Database) (j i : ℕ) (fields : AttemptFields)
    → (j ≡ i → (fields.state ≡ none) ⊎ (fields.state ≡ some AttemptState.completed))
    → Done i db.attempts
    → Done i (update_attempt db j fields).0.attempts
unfolding update_attempt
update_attempt-Done db j i fields keeps (there, h) = (
  update_row-has_row AttemptRow.id (set_attempt fields) (λ r. refl) j i db.attempts ∙ there,
  update_row-EveryRow AttemptRow.id (set_attempt fields) (λ r. refl) IsCompleted j i db.attempts
      (λ at r done. elim (keeps at) [ inl e ↦ ground arith | inr e ↦ ground arith ]) h,
)

pub transition_attempt_state-Done :
    (db : Database) (j i : ℕ) (state : AttemptState) (outcome : Option (Option Outcome))
    (finished : Option (Option ℕ))
    → (j ≡ i → state ≡ AttemptState.completed)
    → Done i db.attempts
    → Done i (transition_attempt_state db j state outcome finished).0.attempts
unfolding transition_attempt_state
transition_attempt_state-Done db j i state outcome finished keeps h =
    update_attempt-Done db j i
      (record no_attempt_fields { state = some state; outcome = outcome; finished_at = finished })
      (λ at. inr (ap (λ s. some s) (keeps at))) h

pub finish_attempt-Done :
    (db : Database) (j i : ℕ) (outcome : Outcome) (now : ℕ)
    → Done i db.attempts
    → Done i (finish_attempt db j outcome now).attempts
unfolding finish_attempt
finish_attempt-Done db j i outcome now h =
    transition_attempt_state-Done db j i AttemptState.completed (some (some outcome))
      (some (some now)) (λ at. refl) h

pub finish_job-attempts :
    (db : Database) (job : ℕ) (outcome : Outcome) (category : FailureCategory) (now : ℕ)
    → (finish_job db job outcome category now).attempts ≡ db.attempts
unfolding finish_job
finish_job-attempts db job outcome category now =
    transition_job_state-attempts db job JobState.completed
      (record no_job_fields {
        outcome = some (some outcome);
        finished_at = some now;
        failure_category = some (some category);
      })
      now

pub bump-Done :
    (db : Database) (j i : ℕ) → Done i db.attempts → Done i (bump_lease_epoch db j).0.attempts
unfolding bump_lease_epoch
bump-Done db j i (there, h) = elim (Option-cases (get_attempt db j)) [
  | inl e ↦ ground arith
  | inr (r, e) ↦
      let epoch = r.lease_epoch + 1 in
      let there' =
        update_row-has_row AttemptRow.id (bumped epoch) (λ r. refl) j i db.attempts ∙ there in
      let h' =
        update_row-EveryRow AttemptRow.id (bumped epoch) (λ r. refl) IsCompleted j i db.attempts
          (λ at r done. done) h in
      ground arith
]

pub insert-Done :
    (db : Database) (r : AttemptRow) (i : ℕ)
    → Done i db.attempts
    → Done i (insert_attempt db r).0.attempts
unfolding insert_attempt
insert-Done db r i (there, h) = elim (Bool-cases (has_row AttemptRow.id r.id db.attempts)) [
  | inl taken ↦ ground arith
  | inr free ↦
      let apart : r.id ≡ i → IsCompleted r =
        λ at. absurd (ground (arith, ap (λ k. has_row AttemptRow.id k db.attempts) at)) in
      ground (
        arith,
        append-has_row AttemptRow.id i db.attempts r,
        append-EveryRow AttemptRow.id IsCompleted i db.attempts r apart,
      )
]

pub record_event-attempts :
    (db : Database) (parses : Bool) (e : EventRow)
    → (record_event db parses e).0.attempts ≡ db.attempts
unfolding record_event
record_event-attempts db parses e = ground arith

-- No frame that only other states may take is accepted for a completed attempt.
pub accepted-Done :
    (db : Database) (agent now : ℕ) (lease : Lease) (expected : AttemptState → Bool)
    (row : AttemptLeaseRow) (i : ℕ)
    → accepted db agent lease expected now ≡ some row
    → expected AttemptState.completed ≡ false
    → Done i db.attempts
    → lease.attempt_id ≡ i
    → ⊥
unfolding accepted load_attempt_by_lease reject_stale
accepted-Done db agent now lease expected row i e closed h at =
    elim (Option-cases (get_attempt db lease.attempt_id)) [
      | inl missing ↦ ground arith
      | inr (r, found) ↦
          let state = get_attempt-Done db i r h (subst (λ k. get_attempt db k ≡ some r) at found) in
          ground (arith, ap expected state)
    ]
