-- ===== src/Recovery/Reports.antt =====
-- apps/controller/src/recovery/coordinator.ts: what becomes of a recovery_report.
use remote_build_orchestrato.Common.{ℕ, Bool, false, not, Option, none, some, ◌==◌, if◌then◌else◌}
use remote_build_orchestrato.Lifecycle.{
  AttemptState, FailureCategory, AttemptRow, AttemptFields, no_attempt_fields, failed,
  lease_expired, agent_lost,
}
use remote_build_orchestrato.Lifecycle.Writes.{update_attempt}
use remote_build_orchestrato.RemoteAttempt.{finish_attempt, finish_job}
use remote_build_orchestrato.Recovery.{
  RecoveryCoordinator, live_attempt, clear_all_timers_for, arm_timer, is_orphaned, is_none,
  on_controller_startup, on_agent_disconnect, on_agent_connect, grace_fires, orphan_fires,
  reconcile_fires,
}

pub data Reason : Type 0 where
  process_identity_pending attempt_terminal_or_unknown agent_mismatch newer_epoch : Reason
  lease_mismatch process_identity_mismatch : Reason

-- An adoption says from which sequence number the log goes on.
pub data Action : Type 0 where
  adopt : ℕ → Action
  terminate_stale : Reason → Action

pub record RecoveryReport : Type 0 where
  pub attempt_id : ℕ
  pub lease_id : ℕ
  pub lease_epoch : ℕ
  pub process_identity : ℕ
  pub completed_awaiting_upload : Bool

abbrev pub is_some_of : ℕ → Option ℕ → Bool
is_some_of n none = false
is_some_of n (some m) = m == n

-- The decision on the attempt that is there and not completed.
unfoldable pub decide : ℕ → Option AttemptRow → RecoveryReport → Action
decide agent none p = terminate_stale attempt_terminal_or_unknown
decide agent (some r) p =
    if not (is_some_of agent r.agent_id)
    then terminate_stale agent_mismatch
    else if not (r.lease_epoch == p.lease_epoch)
    then terminate_stale newer_epoch
    else if not (r.lease_id == p.lease_id)
    then terminate_stale lease_mismatch
    else if not (is_some_of p.process_identity r.process_identity)
    then terminate_stale process_identity_mismatch
    else adopt r.log_acked_sequence

abbrev pub rearm_row : RecoveryCoordinator → ℕ → Option AttemptRow → RecoveryCoordinator
rearm_row c id none = c
rearm_row c id (some r) =
    if is_orphaned r.state
    then record c { orphan_timers = arm_timer c.orphan_timers id }
    else record c { grace_timers = arm_timer c.grace_timers id }

abbrev pub rearm_orphan_watchdog : RecoveryCoordinator → ℕ → RecoveryCoordinator
rearm_orphan_watchdog c id = rearm_row c id (live_attempt c.db id)

-- The write of a column or more of an attempt.
abbrev pub written : RecoveryCoordinator → ℕ → AttemptFields → RecoveryCoordinator
written c id fields = record c { db = (update_attempt c.db id fields).0 }

-- The attempt is looked at again and stays under watch.
abbrev pub deferred : RecoveryCoordinator → ℕ → ℕ → RecoveryCoordinator
deferred c id now =
    rearm_orphan_watchdog
      (written c id (record no_attempt_fields { last_reconcile_at = some (some now) })) id

abbrev pub adopted_fields : RecoveryReport → ℕ → AttemptFields
adopted_fields p now = record no_attempt_fields {
  state = some (
      if p.completed_awaiting_upload
      then AttemptState.collecting_artifacts
      else AttemptState.running);
  orphaned_at = some none;
  last_reconcile_at = some (some now);
  process_identity = some (some p.process_identity);
}

abbrev pub stale_category : Reason → FailureCategory
stale_category newer_epoch = lease_expired
stale_category _ = agent_lost

abbrev pub mark_terminate_stale_failed :
    RecoveryCoordinator → AttemptRow → Reason → ℕ → RecoveryCoordinator
mark_terminate_stale_failed c r reason now = record (clear_all_timers_for c r.id) {
  db =
      finish_job
        (update_attempt (finish_attempt c.db r.id failed now) r.id (record no_attempt_fields {
          orphaned_at = some none;
          last_reconcile_at = some (some now);
        })).0
        r.job_id failed (stale_category reason) now;
}

-- What the decision does to the attempt that is there and not completed.
abbrev pub decided :
    RecoveryCoordinator → RecoveryReport → ℕ → AttemptRow → Action → RecoveryCoordinator
decided c p now r (adopt from) = written c r.id (adopted_fields p now)
decided c p now r (terminate_stale agent_mismatch) = deferred c r.id now
decided c p now r (terminate_stale reason) = mark_terminate_stale_failed c r reason now

-- The report after the timers of its attempt are cleared.
abbrev pub reported :
    RecoveryCoordinator → ℕ → RecoveryReport → ℕ → Option AttemptRow → RecoveryCoordinator × Action
reported c agent p now none = (c, decide agent none p)
reported c agent p now (some r) =
    if is_none r.process_identity
    then (deferred c r.id now, terminate_stale process_identity_pending)
    else (decided c p now r (decide agent (some r) p), decide agent (some r) p)

unfoldable pub on_recovery_report :
    RecoveryCoordinator → ℕ → RecoveryReport → ℕ → RecoveryCoordinator × Action
on_recovery_report c agent p now =
    reported (clear_all_timers_for c p.attempt_id) agent p now (live_attempt c.db p.attempt_id)

-- The calls of the connections, the timers that fire and the calls of the frames' handlers, which
-- write the same database.
pub data Call : Type 0 where
  startup : Call
  disconnect : ℕ → Call
  connect : ℕ → Option ℕ → Option ℕ → Call
  grace_elapsed orphan_timeout reconcile_deadline : ℕ → Call
  recovery_report : ℕ → RecoveryReport → Call

abbrev pub call : RecoveryCoordinator → Call → ℕ → RecoveryCoordinator
call c startup now = on_controller_startup c
call c (disconnect agent) now = on_agent_disconnect c agent now
call c (connect agent boot_id last) now = on_agent_connect c agent boot_id last now
call c (grace_elapsed id) now = grace_fires c id now
call c (orphan_timeout id) now = orphan_fires c id now
call c (reconcile_deadline id) now = reconcile_fires c id now
call c (recovery_report agent p) now = (on_recovery_report c agent p now).0
