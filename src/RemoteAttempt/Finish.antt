-- ===== src/RemoteAttempt/Finish.antt =====
-- apps/controller/src/execution/remote-execution.ts: from the start of the process to the end.
use remote_build_orchestrato.Common.{
  ℕ, Bool, true, false, not, ◌&&◌, ◌||◌, Option, none, some, List, [], ◌∷◌, ◌++◌, leb, ◌==◌,
  if◌then◌else◌,
}
use remote_build_orchestrato.Common.Rows.{update_row}
use remote_build_orchestrato.Common.Text.{keep}
use remote_build_orchestrato.Lifecycle.{
  JobState, AttemptState, Outcome, FailureCategory, JobRow, AttemptRow, Database, get_job,
  JobFields, no_job_fields, no_attempt_fields, failed, succeeded, timed_out, agent_disconnected,
  process_exit, timeout,
}
use remote_build_orchestrato.Lifecycle.Writes.{
  transition_job_state, transition_attempt_state, update_attempt, create_job_event, record_event,
}
use remote_build_orchestrato.RemoteAttempt.{
  Lease, accepted, in_running, in_collecting, may_exit, finish_attempt, finish_job, move_job,
}

abbrev pub identified : Database → ℕ → Option ℕ → Database
identified db id none = db
identified db id (some identity) =
    (update_attempt db id (record no_attempt_fields { process_identity = some (some identity) })).0

-- `identity` is made of the process id, where the frame has one. The schema takes the event.
unfoldable pub handle_remote_job_started : Database → ℕ → Lease → Option ℕ → ℕ → ℕ → Database
handle_remote_job_started db agent lease identity type now =
    elim (accepted db agent lease in_running now) [
      | none ↦ db
      | some row ↦
          let known = identified db lease.attempt_id identity in
          (record_event known true (create_job_event known type row.job_id lease.attempt_id now)).0
    ]

abbrev exited : Option ℕ → Option FailureCategory → ℕ → JobRow → JobRow
exited exit_code category now r = record r {
  exit_code = exit_code;
  failure_category = category;
  updated_at = now;
}

-- The attempt after its process has exited: it has its outcome, and no orphan mark.
abbrev pub collecting : Database → ℕ → Outcome → Database
collecting db id outcome =
    (update_attempt
      (transition_attempt_state db id AttemptState.collecting_artifacts (some (some outcome))
        none).0
      id (record no_attempt_fields { orphaned_at = some none })).0

abbrev pub exit_recorded : Database → ℕ → Option ℕ → Option FailureCategory → ℕ → Database
exit_recorded db job exit_code category now = record db {
  jobs = update_row JobRow.id job (exited exit_code category now) db.jobs;
  notified = db.notified ++ job ∷ [];
}

unfoldable pub handle_remote_job_exit :
    Database → ℕ → Lease → Outcome → Option ℕ → Option FailureCategory → ℕ → Database
handle_remote_job_exit db agent lease outcome exit_code category now =
    elim (accepted db agent lease may_exit now) [
      | none ↦ db
      | some row ↦
          let adopted = collecting db lease.attempt_id outcome in
          move_job (exit_recorded adopted row.job_id exit_code category now) row.job_id
            JobState.collecting_artifacts now
    ]

pub record CleanupPayload : Type 0 where
  pub timed_out : Bool
  pub exit_code : Option ℕ

abbrev is_zero : Option ℕ → Bool
is_zero none = false
is_zero (some n) = n == 0

abbrev pub cleanup_failed : CleanupPayload → Bool
cleanup_failed p = p.timed_out || elim p.exit_code [ none ↦ false | some n ↦ not (n == 0) ]

-- The outcome that job_exit left, or else the cleanup's own.
abbrev pub final_outcome : Option Outcome → CleanupPayload → Outcome
final_outcome (some outcome) p = outcome
final_outcome none p =
    if p.timed_out then timed_out else if is_zero p.exit_code then succeeded else failed

abbrev or_else {ℓ} : {A : Type ℓ} → Option A → Option A → Option A
or_else none b = b
or_else (some a) b = some a

abbrev final_exit_code : Option Outcome → Option ℕ → CleanupPayload → Option ℕ
final_exit_code (some outcome) code p = code
final_exit_code none code p = or_else code p.exit_code

abbrev default_category : Outcome → Option FailureCategory
default_category o = elim o [ failed ↦ some process_exit | timed_out ↦ some timeout | _ ↦ none ]

abbrev column {ℓ κ} : {A : Type ℓ} {B : Type κ} → (A → Option B) → Option A → Option B
column f none = none
column f (some a) = f a

-- The schema takes the event: a cleanup message that is there and empty, which it refuses (the
-- handler then throws here), is left out.
abbrev pub cleanup_reported : Database → CleanupPayload → ℕ → ℕ → ℕ → ℕ → Database
cleanup_reported db p type job attempt now =
    if cleanup_failed p
    then (record_event db true (create_job_event db type job attempt now)).0
    else db

-- What the job ends with; `result` is the JSON text of the result.
abbrev pub final_fields : Option Outcome → Option JobRow → CleanupPayload → ℕ → ℕ → JobFields
final_fields left job p result now = record no_job_fields {
  outcome = some (some (final_outcome left p));
  finished_at = some now;
  exit_code = some (final_exit_code left (column JobRow.exit_code job) p);
  failure_category =
      some (or_else (column JobRow.failure_category job) (default_category (final_outcome left p)));
  result_json = some result;
}

-- The handler after it has waited for the chunks that were queued; `type` is the type of the
-- cleanup_error event.
unfoldable pub handle_remote_cleanup_complete :
    Database → ℕ → Lease → CleanupPayload → ℕ → ℕ → ℕ → Database
handle_remote_cleanup_complete db agent lease p type result now =
    elim (accepted db agent lease in_collecting now) [
      | none ↦ db
      | some row ↦
          let reported = cleanup_reported db p type row.job_id lease.attempt_id now in
          let ended = finish_attempt reported lease.attempt_id (final_outcome row.outcome p) now in
          let cleaning = move_job ended row.job_id JobState.cleaning now in
          (transition_job_state cleaning row.job_id JobState.completed
            (final_fields row.outcome (get_job db row.job_id) p result now) now).0
    ]

abbrev pub each_row {ℓ κ} : {A : Type ℓ} {S : Type κ} → (A → S → S) → List A → S → S
each_row f [] s = s
each_row f (r ∷ rs) s = each_row f rs (f r s)

abbrev pub overdue : ℕ → AttemptRow → Bool
overdue now r =
    elim r.state [ AttemptState.completed ↦ false | AttemptState.orphaned ↦ false | _ ↦ true ]
    && elim r.lease_deadline [ none ↦ false | some deadline ↦ leb deadline now ]

abbrev pub expired : ℕ → AttemptRow → Database → Database
expired now r db =
    finish_job (finish_attempt db r.id failed now) r.job_id failed agent_disconnected now

unfoldable pub expire_stale_leases : Database → ℕ → Database
expire_stale_leases db now = each_row (expired now) (keep (overdue now) db.attempts) db
