-- ===== src/Recovery/Scenarios.antt =====
-- A running attempt of Agent 7, one that is being prepared and one that is completed.
use remote_build_orchestrato.Common.{ℕ, ◌≡◌, refl, true, false, some, List, [], ◌∷◌, arith}
use remote_build_orchestrato.Lifecycle.{
  AttemptState, AttemptRow, Database, failed, lost, succeeded, get_attempt, no_attempt_fields,
}
use remote_build_orchestrato.Lifecycle.Writes.{fresh_attempt, set_attempt}
use remote_build_orchestrato.RemoteAttempt.Outcomes.{ending}
use remote_build_orchestrato.RemoteAttempt.Final.{Done}
use remote_build_orchestrato.RemoteAttempt.Frames.{expire, prepare_failed}
use remote_build_orchestrato.Recovery.{
  RecoveryCoordinator, live_attempt, on_controller_startup, grace_fires, orphan_fires,
}
use remote_build_orchestrato.Recovery.Reports.{
  RecoveryReport, adopt, terminate_stale, agent_mismatch, on_recovery_report, Call, disconnect,
  connect, grace_elapsed, recovery_report, decide, adopted_fields,
}
use remote_build_orchestrato.Recovery.Watched.{Watched}
use remote_build_orchestrato.Recovery.Watch.{new_coordinator, calls, calls-Watched}
use remote_build_orchestrato.Recovery.Fates.{foreign_report_lost}
use remote_build_orchestrato.Recovery.Adoption.{Fenced, adopt-Fenced}
use remote_build_orchestrato.Recovery.Reconciled.{of_frame, of_call, acts, acts-Done}

abbrev running_attempt : AttemptRow
running_attempt = record (fresh_attempt 4 1 1 50 3) {
  agent_id = some 7;
  state = AttemptState.running;
  process_identity = some 900;
  log_acked_sequence = 12;
}

abbrev finished_attempt : AttemptRow
finished_attempt = record (fresh_attempt 5 2 1 51 1) {
  agent_id = some 7;
  state = AttemptState.completed;
  outcome = some succeeded;
}

abbrev database : Database
database = record {
  jobs = [];
  attempts =
      running_attempt
      ∷ finished_attempt
      ∷ record (fresh_attempt 6 3 1 52 1) { agent_id = some 7 }
      ∷ [];
  events = [];
  notified = [];
  raw_transaction = false;
}

abbrev report : ℕ → RecoveryReport
report epoch = record {
  attempt_id = 4;
  lease_id = 50;
  lease_epoch = epoch;
  process_identity = 900;
  completed_awaiting_upload = false;
}

abbrev coordinator : RecoveryCoordinator
coordinator = new_coordinator database

abbrev in_grace : RecoveryCoordinator
in_grace = record coordinator { grace_timers = λ k. true }

abbrev silence : List (Call × ℕ)
silence =
    (disconnect 7, 100)
    ∷ (grace_elapsed 4, 200)
    ∷ (recovery_report 8 (report 3), 250)
    ∷ (grace_elapsed 4, 300)
    ∷ []

calls-Watched_example : Watched (calls (on_controller_startup coordinator) silence) 4
calls-Watched_example = calls-Watched database silence 4

acts-Done_example :
    Done 5
      (acts coordinator (
        (of_call (connect 7 (some 2) (some 1)), 10)
        ∷ (of_frame (prepare_failed 5 2 remote_build_orchestrato.Lifecycle.repo_fetch), 20)
        ∷ (of_frame expire, 30)
        ∷ (of_call (recovery_report 7 (report 3)), 40)
        ∷ [])).db.attempts
acts-Done_example =
    acts-Done coordinator
      ((of_call (connect 7 (some 2) (some 1)), 10)
        ∷ (of_frame (prepare_failed 5 2 remote_build_orchestrato.Lifecycle.repo_fetch), 20)
        ∷ (of_frame expire, 30)
        ∷ (of_call (recovery_report 7 (report 3)), 40)
        ∷ [])
      5 (refl, (ground arith, (λ e. refl, (ground arith, tt))))

foreign_report_lost_example :
    let (after, action) = on_recovery_report coordinator 8 (report 3) 100 in
    (action ≡ terminate_stale agent_mismatch)
    × (get_attempt after.db 4
        ≡ some (
            set_attempt
              (record no_attempt_fields { last_reconcile_at = some (some 100) })
              running_attempt))
    × (ending (get_attempt (orphan_fires (grace_fires after 4 200) 4 500).db 4)
        ≡ some (AttemptState.completed, some lost))
foreign_report_lost_example =
    foreign_report_lost coordinator running_attempt 8 (report 3) 100 200 500 refl refl refl refl

adopts : (on_recovery_report coordinator 7 (report 3) 100).1 ≡ adopt 12
unfolding on_recovery_report decide
adopts = refl

adopt-Fenced_example :
    (r : AttemptRow) × (live_attempt database 4 ≡ some r)
    × Fenced 7 (report 3) r
    × (12 ≡ r.log_acked_sequence)
    × (get_attempt (on_recovery_report coordinator 7 (report 3) 100).0.db 4
        ≡ some (set_attempt (adopted_fields (report 3) 100) r))
adopt-Fenced_example = adopt-Fenced coordinator 7 (report 3) 100 12 adopts
