-- ===== src/AgentRecovery/Scenarios.antt =====
-- Attempt 4 runs on Agent 7, which was disconnected, with two chunks in its spool that the Controller
-- may not have.
use remote_build_orchestrato.Common.{
  ℕ, ◌≡◌, refl, Bool, true, false, Option, none, some, List, [], ◌∷◌,
}
use remote_build_orchestrato.Common.Sort.{sort}
use remote_build_orchestrato.SpoolSender.{
  SpoolChunk, SpoolSender, stdout, set_acked, start_replay, enqueue, pump, pump_queue, iter_unacked,
}
use remote_build_orchestrato.Lifecycle.{AttemptState, AttemptRow}
use remote_build_orchestrato.Lifecycle.Writes.{fresh_attempt}
use remote_build_orchestrato.Recovery.{RecoveryCoordinator}
use remote_build_orchestrato.Recovery.Reports.{
  adopt, terminate_stale, newer_epoch, on_recovery_report,
}
use remote_build_orchestrato.Scheduler.Request.{RiskLevel}
use remote_build_orchestrato.AgentRecovery.{
  AgentRecovery, AttemptMetadata, AttemptMetadataStatus, Hooks, ReconcileDecision, running,
  report_sent, read_attempt_metadata, is_rejected,
}
use remote_build_orchestrato.AgentRecovery.Coordinator.{
  payload_of, emit_recovery_report, handle_reconcile_decision,
}
use remote_build_orchestrato.AgentRecovery.Gone.{reports_of}
use remote_build_orchestrato.AgentRecovery.Calls.{
  Call, calls, report_all_at, decision_comes, terminated_stays,
}
use remote_build_orchestrato.AgentRecovery.Reconnect.{as_report, as_decision, reconnect_resumes}

abbrev hooks : Hooks
hooks = record {
  has_on_adopted = true;
  has_resend_job_exit = true;
  has_resume_artifact_upload = true;
  has_cleanup = true;
}

abbrev chunk : ℕ → SpoolChunk
chunk n = record { sequence = n; stream = stdout; bytes = n ∷ [] }

abbrev spool_of : ℕ → List SpoolChunk
spool_of id = chunk 11 ∷ chunk 12 ∷ chunk 13 ∷ []

abbrev read_ack : ℕ → Option ℕ
read_ack id = some 11

abbrev answer : ℕ → ℕ → SpoolChunk → Bool
answer id calls c = true

abbrev meta : AttemptMetadata
meta = record {
  attempt_id = 4;
  lease_id = 50;
  lease_epoch = 3;
  process_identity = some 900;
  status = AttemptMetadataStatus.orphaned;
  risk_level = RiskLevel.safe;
  updated_at = 5;
  last_exit = none;
  workspace_path = none;
  spool_dir = none;
}

abbrev sender : SpoolSender
sender = record {
  queue = [];
  last_acked = 11;
  needs_replay = true;
  wire = record { calls = 0; taken = [] };
}

abbrev agent : AgentRecovery
agent = record {
  metadata = meta ∷ [];
  rejected_attempts = [];
  live_senders = λ id. some sender;
  socket_open = true;
  effects = [];
}

abbrev attempt : AttemptRow
attempt = record (fresh_attempt 4 1 1 50 3) {
  agent_id = some 7;
  state = AttemptState.orphaned;
  process_identity = some 900;
  log_acked_sequence = 12;
}

abbrev controller : RecoveryCoordinator
controller = record {
  db = record {
    jobs = [];
    attempts = attempt ∷ [];
    events = [];
    notified = [];
    raw_transaction = false;
  };
  grace_timers = λ id. false;
  orphan_timers = λ id. true;
  reconcile_timers = λ id. true;
}

found : read_attempt_metadata agent 4 ≡ some meta
unfolding read_attempt_metadata
found = refl

reconnect_resumes_example :
    let payload = payload_of hooks spool_of read_ack answer 2 agent meta 900 in
    let sent = emit_recovery_report hooks spool_of read_ack answer 2 agent meta 8 in
    let action = (on_recovery_report controller 7 (as_report payload) 8).1 in
    let t =
      handle_reconcile_decision hooks spool_of read_ack answer 2 sent (as_decision 4 action) 8 in
    (sent.effects ≡ report_sent payload ∷ [])
    × (action ≡ adopt 12)
    × (read_attempt_metadata t 4 ≡ some (record meta { status = running; updated_at = 8 }))
    × (t.live_senders 4 ≡ some (start_replay (answer 4) 2 (spool_of 4) (set_acked 12 sender)))
reconnect_resumes_example =
    reconnect_resumes hooks spool_of read_ack answer 2 controller 7 900 8 attempt agent meta sender
      refl (record { owner = refl; epoch = refl; lease = refl; process = refl }) found refl refl
      refl refl

-- The replay sends the chunk that the Controller does not have.
replays : (start_replay (answer 4) 2 (spool_of 4) (set_acked 12 sender)).wire.taken ≡ chunk 13 ∷ []
unfolding start_replay enqueue pump pump_queue iter_unacked set_acked sort
replays = refl

abbrev stale : ReconcileDecision
stale = as_decision 4 (terminate_stale newer_epoch)

abbrev later_calls : List (Call × ℕ)
later_calls = (report_all_at, 9) ∷ (decision_comes (as_decision 4 (adopt 12)), 10) ∷ []

terminated_stays_example :
    let after = handle_reconcile_decision hooks spool_of read_ack answer 2 agent stale 8 in
    let later = calls hooks spool_of read_ack answer 2 after later_calls in
    (is_rejected later 4 ≡ true)
    × (read_attempt_metadata later 4 ≡ none)
    × (reports_of 4 later.effects ≡ 0)
terminated_stays_example =
    terminated_stays hooks spool_of read_ack answer 2 agent stale 8 later_calls refl (tt, (tt, tt))
