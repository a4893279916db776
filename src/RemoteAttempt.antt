-- ===== src/RemoteAttempt.antt =====
-- apps/controller/src/execution/remote-execution.ts: the handlers that take a remote attempt from
-- the lease offer to its end. A frame names its attempt by the lease that the Agent holds. What a
-- handler sends to the Agent is left out, and so are the artifacts; what it reads elsewhere, such
-- as the snapshot, is an argument. `job_id` is a foreign key, so the row of the job is there.
pub mod Prepare
pub mod Finish
pub mod Attempts
pub mod Final
pub mod Frames
pub mod Handlers
pub mod Forever
pub mod Outcomes
mod Scenarios
use remote_build_orchestrato.Common.{
  ℕ, suc, ◌+◌, ◌*◌, Bool, true, false, not, ◌&&◌, ◌||◌, Option, none, some, List, [], ◌∷◌, ◌++◌,
  Result, ok, err, ltb, leb, ◌==◌, if◌then◌else◌,
}
use remote_build_orchestrato.Common.Rows.{update_row}
use remote_build_orchestrato.Common.Text.{keep}
use remote_build_orchestrato.Lifecycle.{
  JobState, AttemptState, Outcome, FailureCategory, JobRow, AttemptRow, Database, LifecycleError,
  not_found, get_job, get_attempt, JobFields, no_job_fields, no_attempt_fields, failed, succeeded,
  timed_out, materialization, agent_disconnected, no_capacity, process_exit, timeout,
}
use remote_build_orchestrato.Lifecycle
use remote_build_orchestrato.Lifecycle.Writes.{
  transition_job_state, transition_attempt_state, update_attempt, bump_lease_epoch, insert_attempt,
  fresh_attempt, next_lease_epoch_for_job, greatest, of_job, create_job_event, record_event,
}
use remote_build_orchestrato.RemoteLog.{AttemptLeaseRow, load_attempt_by_lease, reject_stale, owned}
use remote_build_orchestrato.Scheduler.Request.{QueuePolicy, fail_fast, local_fallback}

abbrev pub default_lease_ttl_seconds : ℕ
default_lease_ttl_seconds = 300

-- What every frame of an Agent names.
pub record Lease : Type 0 where
  pub attempt_id : ℕ
  pub lease_id : ℕ
  pub lease_epoch : ℕ

abbrev pub lease_row : AttemptRow → AttemptLeaseRow
lease_row r = record {
  job_id = r.job_id;
  agent_id = r.agent_id;
  state = r.state;
  lease_id = r.lease_id;
  lease_epoch = r.lease_epoch;
  lease_deadline = r.lease_deadline;
  outcome = r.outcome;
  log_acked_sequence = r.log_acked_sequence;
}

abbrev leases_of : Database → ℕ → Option AttemptLeaseRow
leases_of db id = elim (get_attempt db id) [ none ↦ none | some r ↦ some (lease_row r) ]

-- The attempt of a frame that is not stale: the two checks that each handler begins with.
unfoldable pub accepted : Database → ℕ → Lease → (AttemptState → Bool) → ℕ → Option AttemptLeaseRow
accepted db agent lease expected now =
    elim (load_attempt_by_lease (leases_of db) lease.attempt_id lease.lease_id lease.lease_epoch) [
      | none ↦ none
      | some row ↦ if reject_stale expected row agent now then some row else none
    ]

abbrev pub in_leasing : AttemptState → Bool
in_leasing s = elim s [ AttemptState.leasing ↦ true | _ ↦ false ]

abbrev pub in_preparing : AttemptState → Bool
in_preparing s = elim s [ AttemptState.preparing_source ↦ true | _ ↦ false ]

abbrev pub in_running : AttemptState → Bool
in_running s = elim s [ AttemptState.running ↦ true | _ ↦ false ]

abbrev pub in_collecting : AttemptState → Bool
in_collecting s = elim s [ AttemptState.collecting_artifacts ↦ true | _ ↦ false ]

-- The states in which a process may exit.
abbrev pub may_exit : AttemptState → Bool
may_exit s = elim s [
  | AttemptState.leasing ↦ true
  | AttemptState.preparing_source ↦ true
  | AttemptState.running ↦ true
  | AttemptState.orphaned ↦ true
  | AttemptState.collecting_artifacts ↦ true
  | _ ↦ false
]

-- The end of an attempt with an outcome.
unfoldable pub finish_attempt : Database → ℕ → Outcome → ℕ → Database
finish_attempt db id outcome now =
    (transition_attempt_state db id AttemptState.completed (some (some outcome))
      (some (some now))).0

unfoldable pub finish_job : Database → ℕ → Outcome → FailureCategory → ℕ → Database
finish_job db job outcome category now =
    (transition_job_state db job JobState.completed
      (record no_job_fields {
        outcome = some (some outcome);
        finished_at = some now;
        failure_category = some (some category);
      })
      now).0

unfoldable pub fail_attempt_prepare : Database → ℕ → ℕ → FailureCategory → ℕ → Database
fail_attempt_prepare db id job category now =
    finish_job (finish_attempt db id failed now) job failed category now

abbrev pub move_job : Database → ℕ → JobState → ℕ → Database
move_job db job state now = (transition_job_state db job state no_job_fields now).0

abbrev pub move_attempt : Database → ℕ → AttemptState → Database
move_attempt db id state = (transition_attempt_state db id state none none).0
