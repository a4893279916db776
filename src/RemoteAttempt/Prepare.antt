-- ===== src/RemoteAttempt/Prepare.antt =====
-- apps/controller/src/execution/remote-execution.ts: from the lease offer to the running process.
use remote_build_orchestrato.Common.{
  ℕ, ◌+◌, ◌*◌, Bool, not, Option, none, some, [], ◌∷◌, ◌++◌, Result, ok, err, if◌then◌else◌,
}
use remote_build_orchestrato.Common.Rows.{update_row}
use remote_build_orchestrato.Lifecycle.{
  JobState, AttemptState, FailureCategory, JobRow, AttemptRow, Database, LifecycleError, not_found,
  get_job, no_job_fields, failed, materialization, no_capacity,
}
use remote_build_orchestrato.Lifecycle.Writes.{
  transition_job_state, bump_lease_epoch, insert_attempt, fresh_attempt, next_lease_epoch_for_job,
  greatest, of_job,
}
use remote_build_orchestrato.Scheduler.Request.{QueuePolicy, fail_fast}
use remote_build_orchestrato.RemoteAttempt.{
  default_lease_ttl_seconds, Lease, accepted, in_leasing, in_preparing, finish_attempt, finish_job,
  fail_attempt_prepare, move_job, move_attempt,
}

-- The row of a new offer; `id` and `lease` are the generated identifiers.
abbrev pub offer : Database → ℕ → ℕ → ℕ → ℕ → ℕ → AttemptRow
offer db job agent id lease now =
    record (fresh_attempt id job (greatest (of_job job) AttemptRow.ordinal db.attempts + 1) lease
      (next_lease_epoch_for_job db job)) {
        agent_id = some agent;
        lease_deadline = some (now + default_lease_ttl_seconds * 1000);
        state = AttemptState.leasing;
      }

-- The job follows its offer, unless that was not inserted.
abbrev pub offered :
    Database × Result LifecycleError AttemptRow → ℕ → ℕ → ℕ → Database × Result LifecycleError ℕ
offered (db, err e) job id now = (db, err e)
offered (db, ok row) job id now = (move_job db job JobState.leasing now, ok id)

-- `ready` says that the Agent is connected and the
-- job's snapshot is complete, without which the call throws.
unfoldable pub initiate_remote_attempt :
    Database → ℕ → ℕ → Bool → ℕ → ℕ → ℕ → Database × Result LifecycleError ℕ
initiate_remote_attempt db job agent ready id lease now = elim (get_job db job) [
  | none ↦ (db, err not_found)
  | some j ↦
      if not ready
      then (db, err not_found)
      else offered (insert_attempt db (offer db job agent id lease now)) job id now
]

unfoldable pub handle_remote_lease_accept : Database → ℕ → Lease → Bool → ℕ → Database
handle_remote_lease_accept db agent lease snapshot_ready now =
    elim (accepted db agent lease in_leasing now) [
      | none ↦ db
      | some row ↦
          let prepared =
            move_job (move_attempt db lease.attempt_id AttemptState.preparing_source) row.job_id
              JobState.preparing_source now in
          if snapshot_ready
          then prepared
          else fail_attempt_prepare prepared lease.attempt_id row.job_id materialization now
    ]

-- The source that the Agent asks for: `failure` is what becomes of the request for it, at once or
-- after the wait for a bundle or an archive.
unfoldable pub handle_remote_source_need :
    Database → ℕ → Lease → Option FailureCategory → ℕ → Option (ℕ × ℕ × FailureCategory)
handle_remote_source_need db agent lease failure now =
    elim (accepted db agent lease in_preparing now) [
      | none ↦ none
      | some row ↦ elim failure [
        | none ↦ none
        | some category ↦ some (lease.attempt_id, row.job_id, category)
      ]
    ]

abbrev requeued : ℕ → JobRow → JobRow
requeued now r = record r {
  state = JobState.queued;
  outcome = none;
  finished_at = none;
  failure_category = none;
  queued_at = elim r.queued_at [ none ↦ some now | some t ↦ some t ];
  updated_at = now;
}

-- The job fails or goes back to the queue.
abbrev pub refused : Database → ℕ → QueuePolicy → ℕ → Database
refused db job fail_fast now = finish_job db job failed no_capacity now
refused db job _ now = record db {
  jobs = update_row JobRow.id job (requeued now) db.jobs;
  notified = db.notified ++ job ∷ [];
}

-- An offer that the Agent declines: the attempt ends under a new epoch.
unfoldable pub handle_remote_lease_reject : Database → ℕ → Lease → QueuePolicy → ℕ → Database
handle_remote_lease_reject db agent lease policy now =
    elim (accepted db agent lease in_leasing now) [
      | none ↦ db
      | some row ↦
          let bumped = (bump_lease_epoch db lease.attempt_id).0 in
          refused (finish_attempt bumped lease.attempt_id failed now) row.job_id policy now
    ]

unfoldable pub handle_remote_source_ready : Database → ℕ → Lease → ℕ → Database
handle_remote_source_ready db agent lease now = elim (accepted db agent lease in_preparing now) [
  | none ↦ db
  | some row ↦
      (transition_job_state (move_attempt db lease.attempt_id AttemptState.running) row.job_id
        JobState.running (record no_job_fields { started_at = some now }) now).0
]
