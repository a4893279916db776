-- ===== src/RemoteAttempt/Attempts.antt =====
-- apps/controller/src/jobs/lifecycle.ts: the attempt that a handler reads after a write.
use remote_build_orchestrato.Common.{ℕ, ◌≡◌, refl, some, ◌==◌, if◌then◌else◌}
use remote_build_orchestrato.Common.Rows.{mapped, find_row-update_row}
use remote_build_orchestrato.Lifecycle.{
  AttemptState, Outcome, AttemptRow, Database, AttemptFields, get_attempt, no_attempt_fields,
}
use remote_build_orchestrato.Lifecycle.Writes.{
  update_attempt, set_attempt, transition_attempt_state,
}
use remote_build_orchestrato.RemoteAttempt.{finish_attempt}

pub get_attempt-update_attempt :
    (db : Database) (j i : ℕ) (fields : AttemptFields)
    → get_attempt (update_attempt db j fields).0 i
      ≡ (if i == j then mapped (set_attempt fields) (get_attempt db i) else get_attempt db i)
unfolding update_attempt
get_attempt-update_attempt db j i fields =
    find_row-update_row AttemptRow.id (set_attempt fields) (λ r. refl) j i db.attempts

pub get_attempt-finish_attempt :
    (db : Database) (j i : ℕ) (outcome : Outcome) (now : ℕ)
    → get_attempt (finish_attempt db j outcome now) i ≡ (
        if i == j
        then mapped
            (set_attempt (record no_attempt_fields {
              state = some AttemptState.completed;
              outcome = some (some outcome);
              finished_at = some (some now);
            }))
            (get_attempt db i)
        else get_attempt db i)
unfolding finish_attempt transition_attempt_state
get_attempt-finish_attempt db j i outcome now =
    get_attempt-update_attempt db j i (record no_attempt_fields {
      state = some AttemptState.completed;
      outcome = some (some outcome);
      finished_at = some (some now);
    })
