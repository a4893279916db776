-- ===== src/RemoteAttempt/Handlers.antt =====
-- apps/controller/src/execution/remote-execution.ts: each handler leaves a completed attempt so.
use remote_build_orchestrato.Common.{
  true, ℕ, ◌≡◌, refl, sym, subst, inl, inr, Bool, false, Option, none, some, List, [], ◌∷◌, Result,
  ok, err, Option-cases, Bool-cases,
}
use remote_build_orchestrato.Lifecycle.{
  AttemptState, AttemptRow, Database, JobState, Outcome, FailureCategory, get_job,
  no_attempt_fields, no_job_fields, LifecycleError, failed, materialization, no_capacity,
  agent_disconnected,
}
use remote_build_orchestrato.Lifecycle.Writes.{
  transition_attempt_state, bump_lease_epoch, insert_attempt, create_job_event,
}
use remote_build_orchestrato.Common.Text.{keep}
use remote_build_orchestrato.RemoteLog.{AttemptLeaseRow}
use remote_build_orchestrato.Scheduler.Request.{QueuePolicy, fail_fast}
use remote_build_orchestrato.RemoteAttempt.{
  Lease, accepted, in_leasing, in_preparing, in_running, in_collecting, may_exit, finish_attempt,
  fail_attempt_prepare, move_job, move_attempt,
}
use remote_build_orchestrato.RemoteAttempt.Prepare.{
  offer, offered, refused, initiate_remote_attempt, handle_remote_lease_accept,
  handle_remote_lease_reject, handle_remote_source_ready,
}
use remote_build_orchestrato.RemoteAttempt.Finish.{
  identified, handle_remote_job_started, handle_remote_job_exit, CleanupPayload,
  handle_remote_cleanup_complete, expire_stale_leases, each_row, overdue, expired, final_fields,
  final_outcome, cleanup_reported, cleanup_failed,
}
use remote_build_orchestrato.RemoteAttempt.Final.{
  Done, transition_job_state-attempts, update_attempt-Done, transition_attempt_state-Done,
  finish_attempt-Done, finish_job-attempts, bump-Done, insert-Done, record_event-attempts,
  accepted-Done,
}

-- A job's change leaves the attempts as they are.
pub same-Done : (i : ℕ) (a b : List AttemptRow) → a ≡ b → Done i b → Done i a
same-Done i a b e h = subst (Done i) (sym e) h

pub fail_attempt_prepare-Done :
    (db : Database) (j job i : ℕ) (category : FailureCategory) (now : ℕ)
    → Done i db.attempts
    → Done i (fail_attempt_prepare db j job category now).attempts
unfolding fail_attempt_prepare
fail_attempt_prepare-Done db j job i category now h =
    same-Done i _ _ (finish_job-attempts (finish_attempt db j failed now) job failed category now)
      (finish_attempt-Done db j i failed now h)

offered-Done :
    (w : Database × Result LifecycleError AttemptRow) (job id now i : ℕ)
    → Done i w.0.attempts
    → Done i (offered w job id now).0.attempts
offered-Done (db, err e) job id now i h = h
offered-Done (db, ok row) job id now i h =
    same-Done i _ _ (transition_job_state-attempts db job JobState.leasing no_job_fields now) h

pub initiate-Done :
    (db : Database) (job agent : ℕ) (ready : Bool) (id lease now i : ℕ)
    → Done i db.attempts
    → Done i (initiate_remote_attempt db job agent ready id lease now).0.attempts
unfolding initiate_remote_attempt
initiate-Done db job agent ready id lease now i h = elim (Option-cases (get_job db job)) [
  | inl e ↦ rw (e, initiate_remote_attempt) h
  | inr (j, e) ↦ elim (Bool-cases ready) [
    | inl is ↦
        let row = offer db job agent id lease now in
        rw (e, is, initiate_remote_attempt)
          (offered-Done (insert_attempt db row) job id now i (insert-Done db row i h))
    | inr isnt ↦ rw (e, isnt, initiate_remote_attempt) h
  ]
]

move-Done :
    (db : Database) (agent : ℕ) (lease : Lease) (expected : AttemptState → Bool)
    (row : AttemptLeaseRow) (state : AttemptState) (outcome : Option (Option Outcome)) (now i : ℕ)
    → accepted db agent lease expected now ≡ some row
    → expected AttemptState.completed ≡ false
    → Done i db.attempts
    → Done i (transition_attempt_state db lease.attempt_id state outcome none).0.attempts
move-Done db agent lease expected row state outcome now i e closed h =
    transition_attempt_state-Done db lease.attempt_id i state outcome none
      (λ at. absurd (accepted-Done db agent now lease expected row i e closed h at)) h

pub accept-Done :
    (db : Database) (agent : ℕ) (lease : Lease) (ready : Bool) (now i : ℕ)
    → Done i db.attempts
    → Done i (handle_remote_lease_accept db agent lease ready now).attempts
unfolding handle_remote_lease_accept
accept-Done db agent lease ready now i h =
    elim (Option-cases (accepted db agent lease in_leasing now)) [
      | inl e ↦ rw (e, handle_remote_lease_accept) h
      | inr (row, e) ↦
          let moved =
            move-Done db agent lease in_leasing row AttemptState.preparing_source none now i e refl
              h in
          let prepared =
            same-Done i _ _
              (transition_job_state-attempts
                (move_attempt db lease.attempt_id AttemptState.preparing_source) row.job_id
                JobState.preparing_source no_job_fields now)
              moved in
          (elim (Bool-cases ready) [
            | inl is ↦ rw (e, is, handle_remote_lease_accept) prepared
            | inr isnt ↦
                rw (e, isnt, handle_remote_lease_accept)
                  (fail_attempt_prepare-Done _ lease.attempt_id row.job_id i materialization now
                    prepared)
          ])
    ]

pub source_ready-Done :
    (db : Database) (agent : ℕ) (lease : Lease) (now i : ℕ)
    → Done i db.attempts
    → Done i (handle_remote_source_ready db agent lease now).attempts
unfolding handle_remote_source_ready
source_ready-Done db agent lease now i h =
    elim (Option-cases (accepted db agent lease in_preparing now)) [
      | inl e ↦ rw (e, handle_remote_source_ready) h
      | inr (row, e) ↦
          rw (e, handle_remote_source_ready)
            (same-Done i _ _
              (transition_job_state-attempts (move_attempt db lease.attempt_id AttemptState.running)
                row.job_id JobState.running (record no_job_fields { started_at = some now }) now)
              (move-Done db agent lease in_preparing row AttemptState.running none now i e refl h))
    ]

refused-attempts :
    (db : Database) (job : ℕ) (policy : QueuePolicy) (now : ℕ)
    → (refused db job policy now).attempts ≡ db.attempts
refused-attempts db job fail_fast now = finish_job-attempts db job failed no_capacity now
refused-attempts db job _ now = refl

pub reject-Done :
    (db : Database) (agent : ℕ) (lease : Lease) (policy : QueuePolicy) (now i : ℕ)
    → Done i db.attempts
    → Done i (handle_remote_lease_reject db agent lease policy now).attempts
unfolding handle_remote_lease_reject
reject-Done db agent lease policy now i h =
    elim (Option-cases (accepted db agent lease in_leasing now)) [
      | inl e ↦ rw (e, handle_remote_lease_reject) h
      | inr (row, e) ↦
          let bumped = (bump_lease_epoch db lease.attempt_id).0 in
          let ended = finish_attempt bumped lease.attempt_id failed now in
          rw (e, handle_remote_lease_reject)
            (same-Done i _ _ (refused-attempts ended row.job_id policy now) (
              finish_attempt-Done bumped lease.attempt_id i failed now
                (bump-Done db lease.attempt_id i h)))
    ]

identified-Done :
    (db : Database) (j i : ℕ) (identity : Option ℕ)
    → Done i db.attempts
    → Done i (identified db j identity).attempts
identified-Done db j i none h = h
identified-Done db j i (some p) h =
    update_attempt-Done db j i (record no_attempt_fields { process_identity = some (some p) })
      (λ at. inl refl) h

pub started-Done :
    (db : Database) (agent : ℕ) (lease : Lease) (identity : Option ℕ) (type now i : ℕ)
    → Done i db.attempts
    → Done i (handle_remote_job_started db agent lease identity type now).attempts
unfolding handle_remote_job_started
started-Done db agent lease identity type now i h =
    elim (Option-cases (accepted db agent lease in_running now)) [
      | inl e ↦ rw (e, handle_remote_job_started) h
      | inr (row, e) ↦
          let known = identified db lease.attempt_id identity in
          rw (e, handle_remote_job_started)
            (same-Done i _ _
              (record_event-attempts known true
                (create_job_event known type row.job_id lease.attempt_id now))
              (identified-Done db lease.attempt_id i identity h))
    ]

reported-Done :
    (db : Database) (p : CleanupPayload) (type job attempt now i : ℕ)
    → Done i db.attempts
    → Done i (cleanup_reported db p type job attempt now).attempts
reported-Done db p type job attempt now i h = elim (Bool-cases (cleanup_failed p)) [
  | inl e ↦
      rw (e, cleanup_reported)
        (same-Done i _ _ (record_event-attempts db true (create_job_event db type job attempt now))
          h)
  | inr e ↦ rw (e, cleanup_reported) h
]

pub exit-Done :
    (db : Database) (agent : ℕ) (lease : Lease) (outcome : Outcome) (code : Option ℕ)
    (category : Option FailureCategory) (now i : ℕ)
    → Done i db.attempts
    → Done i (handle_remote_job_exit db agent lease outcome code category now).attempts
unfolding handle_remote_job_exit
exit-Done db agent lease outcome code category now i h =
    elim (Option-cases (accepted db agent lease may_exit now)) [
      | inl e ↦ rw (e, handle_remote_job_exit) h
      | inr (row, e) ↦
          let collecting =
            (transition_attempt_state db lease.attempt_id AttemptState.collecting_artifacts
              (some (some outcome)) none).0 in
          let adopted =
            update_attempt-Done collecting lease.attempt_id i
              (record no_attempt_fields { orphaned_at = some none }) (λ at. inl refl)
              (move-Done db agent lease may_exit row AttemptState.collecting_artifacts
                (some (some outcome)) now i e refl h) in
          rw (e, handle_remote_job_exit)
            (same-Done i _ _
              (transition_job_state-attempts _ row.job_id JobState.collecting_artifacts
                no_job_fields now)
              adopted)
    ]

pub cleanup-Done :
    (db : Database) (agent : ℕ) (lease : Lease) (p : CleanupPayload) (type result now i : ℕ)
    → Done i db.attempts
    → Done i (handle_remote_cleanup_complete db agent lease p type result now).attempts
unfolding handle_remote_cleanup_complete
cleanup-Done db agent lease p type result now i h =
    elim (Option-cases (accepted db agent lease in_collecting now)) [
      | inl e ↦ rw (e, handle_remote_cleanup_complete) h
      | inr (row, e) ↦
          let reported = cleanup_reported db p type row.job_id lease.attempt_id now in
          let outcome = final_outcome row.outcome p in
          let ended = finish_attempt reported lease.attempt_id outcome now in
          rw (e, handle_remote_cleanup_complete)
            (same-Done i _ _
              (transition_job_state-attempts (move_job ended row.job_id JobState.cleaning now)
                row.job_id JobState.completed
                (final_fields row.outcome (get_job db row.job_id) p result now) now)
              (same-Done i _ _
                (transition_job_state-attempts ended row.job_id JobState.cleaning no_job_fields now)
                (finish_attempt-Done reported lease.attempt_id i outcome now
                  (reported-Done db p type row.job_id lease.attempt_id now i h))))
    ]

pub expire-Done :
    (db : Database) (now i : ℕ) → Done i db.attempts → Done i (expire_stale_leases db now).attempts
unfolding expire_stale_leases
expire-Done db now i h = go (keep (overdue now) db.attempts) db h
  where
    go :
        (rs : List AttemptRow) (d : Database)
        → Done i d.attempts
        → Done i (each_row (expired now) rs d).attempts
    go [] d h = h
    go (r ∷ rs) d h = go rs (expired now r d) (
        same-Done i _ _
          (finish_job-attempts (finish_attempt d r.id failed now) r.job_id failed agent_disconnected
            now)
          (finish_attempt-Done d r.id i failed now h))
