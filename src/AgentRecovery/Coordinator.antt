-- ===== src/AgentRecovery/Coordinator.antt =====
-- apps/agent/src/recovery/coordinator.ts: what is reported, and what a decision does.
-- `spool_of` and `read_ack` are what the spool of an attempt holds and the acknowledgement kept
-- beside it, none where they cannot be read; `answer` is the wire of its live sender, `max_queue` its
-- bound. A replay has nothing between its calls of `enqueue`.
use remote_build_orchestrato.Common.{
  ℕ, Bool, true, Option, none, some, List, [], ◌∷◌, max, if◌then◌else◌,
}
use remote_build_orchestrato.SpoolSender.{SpoolChunk, SpoolSender, set_acked, start_replay}
use remote_build_orchestrato.AgentRecovery.{
  ReconcileDecision, remove_attempt_metadata, AgentRecovery, Hooks, new_sender,
  read_attempt_metadata, AttemptMetadata, set_sender, is_terminal, AttemptMetadataStatus,
  write_attempt_metadata, is_completed, RecoveryReportPayload, does, reported_status, running,
  completed_awaiting_upload, terminal, terminate_attempt, cleanup_attempt_resources,
  resend_job_exit, resume_artifact_upload, on_adopted, report_sent, job_exit_sent,
}

module _ (hooks : Hooks) where
  unfoldable pub invoke_cleanup_attempt_resources : AgentRecovery → ℕ → AgentRecovery
  invoke_cleanup_attempt_resources s id =
      if hooks.has_cleanup then does s (cleanup_attempt_resources id) else s

  abbrev pub rejecting : AgentRecovery → ℕ → AgentRecovery
  rejecting s id =
      invoke_cleanup_attempt_resources
        (does (record s { rejected_attempts = id ∷ s.rejected_attempts }) (terminate_attempt id)) id

  unfoldable pub discard_unfenced_leftover : AgentRecovery → AttemptMetadata → ℕ → AgentRecovery
  discard_unfenced_leftover s m now =
      remove_attempt_metadata
        (write_attempt_metadata (rejecting s m.attempt_id)
          (record m { status = terminal; updated_at = now }))
        m.attempt_id

  abbrev pub ended : AgentRecovery → Option AttemptMetadata → AgentRecovery
  ended s none = s
  ended s (some m) = write_attempt_metadata s (record m { status = terminal })

  unfoldable pub apply_terminate_stale : AgentRecovery → ℕ → AgentRecovery
  apply_terminate_stale s id =
      remove_attempt_metadata (ended (rejecting s id) (read_attempt_metadata s id)) id

  abbrev pub resume_upload : AgentRecovery → AttemptMetadata → AgentRecovery
  resume_upload s m =
      if hooks.has_resume_artifact_upload then does s (resume_artifact_upload m.attempt_id) else s

  abbrev pub send_job_exit : AgentRecovery → AttemptMetadata → Option ℕ → AgentRecovery
  send_job_exit s m none = s
  send_job_exit s m (some exit) = if s.socket_open then does s (job_exit_sent m exit) else s

  -- What an attempt that was completed sends again.
  unfoldable pub resend : AgentRecovery → AttemptMetadata → AgentRecovery
  resend s m =
      resume_upload
        (if hooks.has_resend_job_exit
          then does s (resend_job_exit m.attempt_id)
          else send_job_exit s m m.last_exit)
        m

  module _ (spool_of : ℕ → List SpoolChunk) (read_ack : ℕ → Option ℕ)
      (answer : ℕ → ℕ → SpoolChunk → Bool) (max_queue : ℕ) where
    abbrev pub last_acked : AgentRecovery → ℕ → ℕ
    last_acked s id = elim (read_ack id) [
      | none ↦ 0
      | some acked ↦ elim (s.live_senders id) [
        | none ↦ acked
        | some live ↦ max acked live.last_acked
      ]
    ]

    abbrev pub last_sent : ℕ → ℕ
    last_sent id = elim (read_ack id) [ none ↦ 0 | some acked ↦ acked ]

    abbrev pub payload_of : AgentRecovery → AttemptMetadata → ℕ → RecoveryReportPayload
    payload_of s m identity = record {
      attempt_id = m.attempt_id;
      lease_id = m.lease_id;
      lease_epoch = m.lease_epoch;
      status = reported_status m.status;
      process_identity = identity;
      last_sent_sequence = last_sent m.attempt_id;
      last_acked_sequence = last_acked s m.attempt_id;
      artifact_upload_pending = is_completed m.status;
    }

    abbrev pub emit_as : AgentRecovery → AttemptMetadata → ℕ → Option ℕ → AgentRecovery
    emit_as s m now none = discard_unfenced_leftover s m now
    emit_as s m now (some identity) =
        if s.socket_open then does s (report_sent (payload_of s m identity)) else s

    unfoldable pub emit_recovery_report : AgentRecovery → AttemptMetadata → ℕ → AgentRecovery
    emit_recovery_report s m now = emit_as s m now m.process_identity

    abbrev pub report_each : AgentRecovery → List AttemptMetadata → ℕ → AgentRecovery
    report_each s [] now = s
    report_each s (m ∷ ms) now =
        if is_terminal m.status
        then report_each s ms now
        else report_each (emit_recovery_report s m now) ms now

    unfoldable pub report_all : AgentRecovery → ℕ → AgentRecovery
    report_all s now = report_each s s.metadata now

    unfoldable pub replay_from_disk : AgentRecovery → AttemptMetadata → ℕ → AgentRecovery
    replay_from_disk s m from =
        if s.socket_open
        then set_sender m.attempt_id
            (start_replay (λ calls c. true) 64 (spool_of m.attempt_id) (set_acked from new_sender))
            s
        else s

    abbrev pub zero_or : Option ℕ → ℕ
    zero_or none = 0
    zero_or (some n) = n

    abbrev pub resumed : Option ℕ → SpoolSender → SpoolSender
    resumed none live = live
    resumed (some n) live = set_acked n live

    abbrev pub adopted_status : AttemptMetadataStatus → Option ℕ → AttemptMetadataStatus
    adopted_status completed_awaiting_upload resume = completed_awaiting_upload
    adopted_status status (some n) = running
    adopted_status status none = status

    unfoldable pub replay :
        AgentRecovery → AttemptMetadata → ReconcileDecision → Option SpoolSender → AgentRecovery
    replay s m d (some live) =
        set_sender d.attempt_id
          (start_replay (answer d.attempt_id) max_queue (spool_of d.attempt_id)
            (resumed d.resume_from_sequence live))
          s
    replay s m d none =
        if hooks.has_on_adopted
        then does s (on_adopted d m)
        else replay_from_disk s m (zero_or d.resume_from_sequence)

    abbrev pub adopted : AgentRecovery → AttemptMetadata → ReconcileDecision → ℕ → AgentRecovery
    adopted s m d now =
        let after =
          replay
            (write_attempt_metadata s (record m {
              status = adopted_status m.status d.resume_from_sequence;
              updated_at = now;
            }))
            m d (s.live_senders d.attempt_id) in
        if is_completed m.status then resend after m else after

    abbrev pub adopted_if_known :
        AgentRecovery → ReconcileDecision → ℕ → Option AttemptMetadata → AgentRecovery
    adopted_if_known s d now none = s
    adopted_if_known s d now (some m) = adopted s m d now

    unfoldable pub handle_reconcile_decision : AgentRecovery → ReconcileDecision → ℕ → AgentRecovery
    handle_reconcile_decision s d now =
        if d.terminates
        then apply_terminate_stale s d.attempt_id
        else adopted_if_known s d now (read_attempt_metadata s d.attempt_id)
