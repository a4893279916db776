-- ===== src/Lifecycle.antt =====
-- apps/controller/src/jobs/lifecycle.ts: the rows of jobs, attempts and events. The tables are lists
-- of rows with the constraints of apps/controller/src/storage/migrations.ts where an INSERT can
-- violate them. Identifiers and texts that are only stored are numbers, instants are milliseconds.
-- `notified` records the calls of `notifyJobLifecycleChanged`; `raw_transaction` says that a
-- transaction is open that no notifier manages, which `assertJobLifecycleWriteAllowed` refuses.
-- The failure message of a job, a text for people, is left out.
pub mod Writes
pub mod Epochs
pub mod Events
pub mod Notifier
pub mod Wakeups
mod Scenarios
use remote_build_orchestrato.Common.{
  ℕ, suc, ◌+◌, Bool, true, false, not, ◌&&◌, ◌||◌, Option, none, some, List, [], ◌∷◌, ◌++◌, Result,
  ok, err, ltb, leb, max, ◌==◌, if◌then◌else◌,
}
use remote_build_orchestrato.Common.Rows.{has_row, find_row, update_row}

pub data JobState : Type 0 where
  created awaiting_confirmation queued matching leasing leased preparing_source : JobState
  transferring_source materializing starting running orphaned collecting_artifacts : JobState
  cleaning completed : JobState

pub data AttemptState : Type 0 where
  leasing preparing_source transferring_source materializing starting running : AttemptState
  orphaned collecting_artifacts completed : AttemptState

pub data Outcome : Type 0 where
  succeeded failed timed_out cancelled lost : Outcome

pub data FailureCategory : Type 0 where
  agent_disconnected lease_expired agent_lost no_capacity process_exit timeout : FailureCategory
  materialization repo_fetch : FailureCategory
  other : ℕ → FailureCategory

pub record JobRow : Type 0 where
  pub id : ℕ
  pub client_id : ℕ
  pub client_request_id : ℕ
  pub name : Option ℕ
  pub state : JobState
  pub outcome : Option Outcome
  pub created_at : ℕ
  pub updated_at : ℕ
  pub queued_at : Option ℕ
  pub started_at : Option ℕ
  pub finished_at : Option ℕ
  pub agent_id : Option ℕ
  pub snapshot_id : Option ℕ
  pub exit_code : Option ℕ
  pub failure_category : Option FailureCategory
  pub request_json : ℕ
  pub result_json : Option ℕ

pub record AttemptRow : Type 0 where
  pub id : ℕ
  pub job_id : ℕ
  pub ordinal : ℕ
  pub agent_id : Option ℕ
  pub lease_id : ℕ
  pub lease_epoch : ℕ
  pub lease_deadline : Option ℕ
  pub state : AttemptState
  pub outcome : Option Outcome
  pub started_at : Option ℕ
  pub finished_at : Option ℕ
  pub log_acked_sequence : ℕ
  pub orphaned_at : Option ℕ
  pub process_identity : Option ℕ
  pub last_reconcile_at : Option ℕ

pub record EventRow : Type 0 where
  pub job_id : ℕ
  pub attempt_id : ℕ
  pub sequence : ℕ
  pub created_at : ℕ
  pub event_type : ℕ

pub record Database : Type 0 where
  pub jobs : List JobRow
  pub attempts : List AttemptRow
  pub events : List EventRow
  pub notified : List ℕ
  pub raw_transaction : Bool

pub data LifecycleError : Type 0 where
  write_refused not_found constraint_violated schema_refused : LifecycleError

abbrev pub get_job : Database → ℕ → Option JobRow
get_job db id = find_row JobRow.id id db.jobs

abbrev pub get_attempt : Database → ℕ → Option AttemptRow
get_attempt db id = find_row AttemptRow.id id db.attempts

-- The fields that a call sets; `none` leaves a column as it is.
pub record JobFields : Type 0 where
  pub outcome : Option (Option Outcome)
  pub queued_at : Option ℕ
  pub started_at : Option ℕ
  pub finished_at : Option ℕ
  pub snapshot_id : Option ℕ
  pub exit_code : Option (Option ℕ)
  pub failure_category : Option (Option FailureCategory)
  pub result_json : Option ℕ

pub record AttemptFields : Type 0 where
  pub log_acked_sequence : Option ℕ
  pub orphaned_at : Option (Option ℕ)
  pub process_identity : Option (Option ℕ)
  pub last_reconcile_at : Option (Option ℕ)
  pub state : Option AttemptState
  pub outcome : Option (Option Outcome)
  pub agent_id : Option (Option ℕ)
  pub lease_deadline : Option (Option ℕ)
  pub finished_at : Option (Option ℕ)

abbrev pub no_job_fields : JobFields
no_job_fields = record {
  outcome = none;
  queued_at = none;
  started_at = none;
  finished_at = none;
  snapshot_id = none;
  exit_code = none;
  failure_category = none;
  result_json = none;
}

abbrev pub no_attempt_fields : AttemptFields
no_attempt_fields = record {
  log_acked_sequence = none;
  orphaned_at = none;
  process_identity = none;
  last_reconcile_at = none;
  state = none;
  outcome = none;
  agent_id = none;
  lease_deadline = none;
  finished_at = none;
}

abbrev pub assigned {ℓ} : {A : Type ℓ} → Option A → A → A
assigned none old = old
assigned (some new) old = new

abbrev pub assigned_some {ℓ} : {A : Type ℓ} → Option A → Option A → Option A
assigned_some none old = old
assigned_some (some new) old = some new
