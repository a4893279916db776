-- ===== src/Lifecycle/Writes.antt =====
-- apps/controller/src/jobs/lifecycle.ts: the operations on the tables.
use remote_build_orchestrato.Common.{
  ℕ, ◌+◌, Bool, false, not, ◌&&◌, ◌||◌, Option, none, some, List, [], ◌∷◌, ◌++◌, Result, ok, err,
  ltb, max, ◌==◌, if◌then◌else◌,
}
use remote_build_orchestrato.Common.Rows.{has_row, find_row, update_row}
use remote_build_orchestrato.Lifecycle.{
  JobState, AttemptState, starting, Outcome, JobRow, AttemptRow, EventRow, Database, LifecycleError,
  write_refused, not_found, constraint_violated, schema_refused, get_attempt, JobFields,
  AttemptFields, no_attempt_fields, assigned, assigned_some,
}

abbrev set_job : JobState → JobFields → ℕ → JobRow → JobRow
set_job state fields now r = record r {
  state = state;
  updated_at = now;
  outcome = assigned fields.outcome r.outcome;
  queued_at = assigned_some fields.queued_at r.queued_at;
  started_at = assigned_some fields.started_at r.started_at;
  finished_at = assigned_some fields.finished_at r.finished_at;
  snapshot_id = assigned_some fields.snapshot_id r.snapshot_id;
  exit_code = assigned fields.exit_code r.exit_code;
  failure_category = assigned fields.failure_category r.failure_category;
  result_json = assigned_some fields.result_json r.result_json;
}

abbrev pub set_attempt : AttemptFields → AttemptRow → AttemptRow
set_attempt fields r = record r {
  log_acked_sequence = assigned fields.log_acked_sequence r.log_acked_sequence;
  orphaned_at = assigned fields.orphaned_at r.orphaned_at;
  process_identity = assigned fields.process_identity r.process_identity;
  last_reconcile_at = assigned fields.last_reconcile_at r.last_reconcile_at;
  state = assigned fields.state r.state;
  outcome = assigned fields.outcome r.outcome;
  agent_id = assigned fields.agent_id r.agent_id;
  lease_deadline = assigned fields.lease_deadline r.lease_deadline;
  finished_at = assigned fields.finished_at r.finished_at;
}

-- The row that a SELECT finds after a write, or the error thrown where there is none.
abbrev reread {ℓ} : {A : Type ℓ} → Option A → Result LifecycleError A
reread none = err not_found
reread (some r) = ok r

unfoldable pub transition_job_state :
    Database → ℕ → JobState → JobFields → ℕ → Database × Result LifecycleError JobRow
transition_job_state db id state fields now =
    let jobs = update_row JobRow.id id (set_job state fields now) db.jobs in
    if db.raw_transaction then (db, err write_refused) else elim (find_row JobRow.id id jobs) [
      | none ↦ (record db { jobs = jobs }, err not_found)
      | some row ↦ (record db { jobs = jobs; notified = db.notified ++ id ∷ [] }, ok row)
    ]

unfoldable pub update_attempt :
    Database → ℕ → AttemptFields → Database × Result LifecycleError AttemptRow
update_attempt db id fields =
    let attempts = update_row AttemptRow.id id (set_attempt fields) db.attempts in
    (record db { attempts = attempts }, reread (find_row AttemptRow.id id attempts))

-- `fields` sets an outcome and a finish, if at all.
unfoldable pub transition_attempt_state :
    Database
    → ℕ
    → AttemptState
    → Option (Option Outcome)
    → Option (Option ℕ)
    → Database × Result LifecycleError AttemptRow
unfolding update_attempt
transition_attempt_state db id state outcome finished_at =
    update_attempt db id (record no_attempt_fields {
      state = some state;
      outcome = outcome;
      finished_at = finished_at;
    })

-- The greatest number that the rows of a group have, 0 where there are none.
abbrev pub greatest {ℓ} : {A : Type ℓ} → (A → Bool) → (A → ℕ) → List A → ℕ
greatest p f [] = 0
greatest p f (r ∷ rs) = let rest = greatest p f rs in if p r then max (f r) rest else rest

abbrev pub of_job : ℕ → AttemptRow → Bool
of_job job r = r.job_id == job

unfoldable pub next_lease_epoch_for_job : Database → ℕ → ℕ
next_lease_epoch_for_job db job = greatest (of_job job) AttemptRow.lease_epoch db.attempts + 1

abbrev pub bumped : ℕ → AttemptRow → AttemptRow
bumped epoch r = record r { lease_epoch = epoch }

abbrev same_lease : AttemptRow → AttemptRow → Bool
same_lease r s = r.lease_id == s.lease_id && r.lease_epoch == s.lease_epoch

abbrev same_ordinal : AttemptRow → AttemptRow → Bool
same_ordinal r s = r.job_id == s.job_id && r.ordinal == s.ordinal

abbrev pub any_row {ℓ} : {A : Type ℓ} → (A → Bool) → List A → Bool
any_row p [] = false
any_row p (r ∷ rs) = p r || any_row p rs

-- The uniqueness of a lease holds a bump back only if another row has that epoch of the lease.
unfoldable pub bump_lease_epoch : Database → ℕ → Database × Result LifecycleError ℕ
bump_lease_epoch db id = elim (get_attempt db id) [
  | none ↦ (db, err not_found)
  | some attempt ↦
      let epoch = attempt.lease_epoch + 1 in
      if any_row (same_lease (bumped epoch attempt)) db.attempts
      then (db, err constraint_violated)
      else (
        record db { attempts = update_row AttemptRow.id id (bumped epoch) db.attempts },
        ok epoch,
      )
]

-- INSERT INTO job_attempts.
unfoldable pub insert_attempt : Database → AttemptRow → Database × Result LifecycleError AttemptRow
insert_attempt db r =
    if has_row AttemptRow.id r.id db.attempts
      || any_row (same_lease r) db.attempts
      || any_row (same_ordinal r) db.attempts
    then (db, err constraint_violated)
    else (record db { attempts = db.attempts ++ r ∷ [] }, ok r)

abbrev pub fresh_attempt : ℕ → ℕ → ℕ → ℕ → ℕ → AttemptRow
fresh_attempt id job ordinal lease epoch = record {
  id = id;
  job_id = job;
  ordinal = ordinal;
  agent_id = none;
  lease_id = lease;
  lease_epoch = epoch;
  lease_deadline = none;
  state = starting;
  outcome = none;
  started_at = none;
  finished_at = none;
  log_acked_sequence = 0;
  orphaned_at = none;
  process_identity = none;
  last_reconcile_at = none;
}

-- `id` and `lease` are the generated identifiers.
unfoldable pub create_attempt :
    Database → ℕ → ℕ → ℕ → ℕ → ℕ → Database × Result LifecycleError AttemptRow
unfolding next_lease_epoch_for_job insert_attempt
create_attempt db job ordinal id lease now =
    insert_attempt db
      (record (fresh_attempt id job ordinal lease (next_lease_epoch_for_job db job)) {
        started_at = some now;
      })

-- ORDER BY ordinal DESC LIMIT 1; the ordinals of a job are unique.
abbrev later_attempt : Option AttemptRow → AttemptRow → AttemptRow
later_attempt none r = r
later_attempt (some s) r = if ltb r.ordinal s.ordinal then s else r

unfoldable pub latest_attempt : ℕ → List AttemptRow → Option AttemptRow
latest_attempt job [] = none
latest_attempt job (r ∷ rs) =
    let rest = latest_attempt job rs in if of_job job r then some (later_attempt rest r) else rest

abbrev pub get_latest_attempt : Database → ℕ → Option AttemptRow
get_latest_attempt db job = latest_attempt job db.attempts

abbrev pub of_attempt : ℕ → EventRow → Bool
of_attempt attempt e = e.attempt_id == attempt

unfoldable pub next_event_sequence : Database → ℕ → ℕ
next_event_sequence db attempt = greatest (of_attempt attempt) EventRow.sequence db.events + 1

abbrev pub create_job_event : Database → ℕ → ℕ → ℕ → ℕ → EventRow
create_job_event db type job attempt now = record {
  job_id = job;
  attempt_id = attempt;
  sequence = next_event_sequence db attempt;
  created_at = now;
  event_type = type;
}

abbrev pub same_event : EventRow → EventRow → Bool
same_event e f = e.attempt_id == f.attempt_id && e.sequence == f.sequence

-- `parses` is whether JobEventSchema takes the event, whose payload is not modelled: where it does
-- not, createJobEvent throws already. The job and the attempt are foreign keys.
unfoldable pub record_event : Database → Bool → EventRow → Database × Result LifecycleError EventRow
record_event db parses e =
    if not parses
    then (db, err schema_refused)
    else if not
        (has_row JobRow.id e.job_id db.jobs && has_row AttemptRow.id e.attempt_id db.attempts)
    then (db, err constraint_violated)
    else if any_row (same_event e) db.events
    then (db, err constraint_violated)
    else (record db { events = db.events ++ e ∷ [] }, ok e)
