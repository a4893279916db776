-- ===== src/RemoteAttempt/Frames.antt =====
-- apps/controller/src/execution/remote-execution.ts: the frames of Agents and what else moves an
-- attempt, one after another.
use remote_build_orchestrato.Common.{ℕ, Bool, Option}
use remote_build_orchestrato.Lifecycle.{Database, Outcome, FailureCategory}
use remote_build_orchestrato.Scheduler.Request.{QueuePolicy}
use remote_build_orchestrato.RemoteAttempt.{Lease, fail_attempt_prepare}
use remote_build_orchestrato.RemoteAttempt.Prepare.{
  initiate_remote_attempt, handle_remote_lease_accept, handle_remote_lease_reject,
  handle_remote_source_ready,
}
use remote_build_orchestrato.RemoteAttempt.Finish.{
  handle_remote_job_started, handle_remote_job_exit, CleanupPayload, handle_remote_cleanup_complete,
  expire_stale_leases,
}

-- What happens to the attempts; `prepare_failed` is the failure that a source request ends in, at
-- once or after a wait, by `handle_remote_source_need`.
pub data Frame : Type 0 where
  initiate : ℕ → ℕ → Bool → ℕ → ℕ → Frame
  lease_accept : ℕ → Lease → Bool → Frame
  lease_reject : ℕ → Lease → QueuePolicy → Frame
  prepare_failed : ℕ → ℕ → FailureCategory → Frame
  source_ready : ℕ → Lease → Frame
  job_started : ℕ → Lease → Option ℕ → ℕ → Frame
  job_exit : ℕ → Lease → Outcome → Option ℕ → Option FailureCategory → Frame
  cleanup_complete : ℕ → Lease → CleanupPayload → ℕ → ℕ → Frame
  expire : Frame

abbrev pub step : Database → Frame → ℕ → Database
step db (initiate job agent ready id lease) now =
    (initiate_remote_attempt db job agent ready id lease now).0
step db (lease_accept agent lease ready) now = handle_remote_lease_accept db agent lease ready now
step db (lease_reject agent lease policy) now = handle_remote_lease_reject db agent lease policy now
step db (prepare_failed id job category) now = fail_attempt_prepare db id job category now
step db (source_ready agent lease) now = handle_remote_source_ready db agent lease now
step db (job_started agent lease identity type) now =
    handle_remote_job_started db agent lease identity type now
step db (job_exit agent lease outcome code category) now =
    handle_remote_job_exit db agent lease outcome code category now
step db (cleanup_complete agent lease p type result) now =
    handle_remote_cleanup_complete db agent lease p type result now
step db expire now = expire_stale_leases db now
