-- ===== src/Recovery/Fates.antt =====
-- apps/controller/src/recovery/coordinator.ts: what a report and what silence lead to.
use remote_build_orchestrato.Common.{ℕ, ◌≡◌, refl, ap, true, false, some, arith}
use remote_build_orchestrato.Lifecycle.{
  AttemptState, Outcome, FailureCategory, AttemptRow, Database, AttemptFields, get_attempt,
  no_attempt_fields, lost, agent_disconnected,
}
use remote_build_orchestrato.Lifecycle.Writes.{update_attempt, set_attempt}
use remote_build_orchestrato.RemoteAttempt.Outcomes.{ending}
use remote_build_orchestrato.Recovery.{
  RecoveryCoordinator, mark, mark_lost, is_completed, is_orphaned, live_attempt, on_grace_elapsed,
  on_orphan_timeout, grace_fires, orphan_fires, clear_all_timers_for, is_none, clear_timer,
  arm_timer,
}
use remote_build_orchestrato.Recovery.Reports.{
  is_some_of, RecoveryReport, terminate_stale, agent_mismatch, decide, deferred, on_recovery_report,
  written, rearm_orphan_watchdog,
}
use remote_build_orchestrato.Recovery.Attempts.{
  get_attempt-update_attempt, get_attempt-finish_attempt, get_attempt-mark, live-found, live-id,
}

live-is :
    (db : Database) (id : ℕ) (r : AttemptRow)
    → get_attempt db id ≡ some r
    → is_completed r.state ≡ false
    → live_attempt db id ≡ some r
live-is db id r e q = ground arith

mark-ending :
    (c : RecoveryCoordinator) (r x : AttemptRow) (outcome : Outcome) (category : FailureCategory)
    (now i : ℕ)
    → r.id ≡ i
    → get_attempt c.db i ≡ some x
    → ending (get_attempt (mark c r outcome category now).db i)
      ≡ some (AttemptState.completed, some outcome)
mark-ending c r x outcome category now i at e = ground (
  arith,
  get_attempt-mark c r outcome category now i,
  get_attempt-finish_attempt c.db r.id i outcome now,
)

abbrev orphaned_fields : ℕ → AttemptFields
orphaned_fields now = record no_attempt_fields {
  state = some AttemptState.orphaned;
  orphaned_at = some (some now);
}

-- The state after the grace of an attempt has passed.
abbrev orphaned_state : RecoveryCoordinator → ℕ → ℕ → RecoveryCoordinator
orphaned_state c i now = record c {
  db = (update_attempt c.db i (orphaned_fields now)).0;
  grace_timers = clear_timer c.grace_timers i;
  orphan_timers = arm_timer c.orphan_timers i;
}

grace_fires-live :
    (c : RecoveryCoordinator) (r : AttemptRow) (i now : ℕ)
    → live_attempt c.db i ≡ some r
    → c.grace_timers i ≡ true
    → grace_fires c i now ≡ orphaned_state c i now
unfolding on_grace_elapsed
grace_fires-live c r i now e armed = rw (armed, e, on_grace_elapsed) refl

orphan_fires-live :
    (c : RecoveryCoordinator) (r : AttemptRow) (i now : ℕ)
    → live_attempt c.db i ≡ some r
    → is_orphaned r.state ≡ true
    → c.orphan_timers i ≡ true
    → orphan_fires c i now
      ≡ mark_lost (record c { orphan_timers = clear_timer c.orphan_timers i }) r now
unfolding on_orphan_timeout
orphan_fires-live c r i now e orphaned armed = rw (armed, e, orphaned, on_orphan_timeout) refl

-- An attempt that is not completed and whose grace timer is armed, if the next calls for it are
-- those of its timers: when the grace timer and then the orphan timer have fired, the attempt is
-- completed and lost.
silent_lost :
    (c : RecoveryCoordinator) (r : AttemptRow) (i grace_end orphan_end : ℕ)
    → live_attempt c.db i ≡ some r
    → c.grace_timers i ≡ true
    → ending (get_attempt (orphan_fires (grace_fires c i grace_end) i orphan_end).db i)
      ≡ some (AttemptState.completed, some lost)
silent_lost c r i grace_end orphan_end e armed =
    let after = orphaned_state c i grace_end in
    let orphaned = set_attempt (orphaned_fields grace_end) r in
    let found : get_attempt after.db i ≡ some orphaned = ground (
      arith,
      get_attempt-update_attempt c.db i i (orphaned_fields grace_end),
      live-found c.db i r e,
    ) in
    let live = live-is after.db i orphaned found refl in
    let fired = orphan_fires-live after orphaned i orphan_end live refl (ground arith) in
    rw (grace_fires-live c r i grace_end e armed, fired)
      (mark-ending (record after { orphan_timers = clear_timer after.orphan_timers i }) orphaned
        orphaned lost agent_disconnected orphan_end i (live-id c.db i r e) found)

foreign-decide :
    (agent : ℕ) (r : AttemptRow) (p : RecoveryReport)
    → is_some_of agent r.agent_id ≡ false
    → decide agent (some r) p ≡ terminate_stale agent_mismatch
unfolding decide
foreign-decide agent r p e = rw e refl

abbrev reconciled_fields : ℕ → AttemptFields
reconciled_fields now = record no_attempt_fields { last_reconcile_at = some (some now) }

-- The state after another Agent's report on a running attempt.
abbrev foreign_state : RecoveryCoordinator → ℕ → ℕ → RecoveryCoordinator
foreign_state c i now =
    let w = written (clear_all_timers_for c i) i (reconciled_fields now) in
    record w { grace_timers = arm_timer w.grace_timers i }

foreign_state-found :
    (c : RecoveryCoordinator) (r : AttemptRow) (i now : ℕ)
    → get_attempt c.db i ≡ some r
    → get_attempt (foreign_state c i now).db i ≡ some (set_attempt (reconciled_fields now) r)
foreign_state-found c r i now e =
    ground (arith, get_attempt-update_attempt c.db i i (reconciled_fields now))

deferred-running :
    (c : RecoveryCoordinator) (r : AttemptRow) (i now : ℕ)
    → get_attempt c.db i ≡ some r
    → r.state ≡ AttemptState.running
    → deferred (clear_all_timers_for c i) i now ≡ foreign_state c i now
deferred-running c r i now e running =
    let after = set_attempt (reconciled_fields now) r in
    let live =
      live-is (foreign_state c i now).db i after (foreign_state-found c r i now e)
        (ap is_completed running) in
    rw (live, ap is_orphaned running, rearm_orphan_watchdog) refl

foreign_report-is :
    (c : RecoveryCoordinator) (r : AttemptRow) (agent : ℕ) (p : RecoveryReport) (now : ℕ)
    → live_attempt c.db p.attempt_id ≡ some r
    → r.state ≡ AttemptState.running
    → is_none r.process_identity ≡ false
    → is_some_of agent r.agent_id ≡ false
    → on_recovery_report c agent p now
      ≡ (foreign_state c p.attempt_id now, terminate_stale agent_mismatch)
unfolding on_recovery_report
foreign_report-is c r agent p now e running has foreign =
    let at = live-id c.db p.attempt_id r e in
    let same = deferred-running c r p.attempt_id now (live-found c.db p.attempt_id r e) running in
    rw (e, has, foreign-decide agent r p foreign, at, same, on_recovery_report) refl

-- A running attempt whose process is known, and a report about it from an Agent that does not own
-- it: the report is refused as a mismatch of the Agents and changes nothing of the attempt but the
-- time of the last report; and yet, if the next calls for the attempt are those of its grace timer
-- and then its orphan timer, it is completed and lost.
pub foreign_report_lost :
    (c : RecoveryCoordinator) (r : AttemptRow) (agent : ℕ) (p : RecoveryReport)
    (now grace_end orphan_end : ℕ)
    → live_attempt c.db p.attempt_id ≡ some r
    → r.state ≡ AttemptState.running
    → is_none r.process_identity ≡ false
    → is_some_of agent r.agent_id ≡ false
    → let (after, action) = on_recovery_report c agent p now in
      let id = p.attempt_id in
      (action ≡ terminate_stale agent_mismatch)
      × (get_attempt after.db id
          ≡ some (set_attempt (record no_attempt_fields { last_reconcile_at = some (some now) }) r))
      × (ending (get_attempt (orphan_fires (grace_fires after id grace_end) id orphan_end).db id)
          ≡ some (AttemptState.completed, some lost))
foreign_report_lost c r agent p now grace_end orphan_end e running has foreign =
    let id = p.attempt_id in
    let found = foreign_state-found c r id now (live-found c.db id r e) in
    let after = set_attempt (reconciled_fields now) r in
    let live = live-is (foreign_state c id now).db id after found (ap is_completed running) in
    rw (foreign_report-is c r agent p now e running has foreign) (
      refl,
      found,
      silent_lost (foreign_state c id now) after id grace_end orphan_end live (ground arith),
    )
