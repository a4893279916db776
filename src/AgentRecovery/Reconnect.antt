-- ===== src/AgentRecovery/Reconnect.antt =====
-- apps/agent/src/recovery/coordinator.ts with apps/controller/src/recovery/coordinator.ts: the report
-- of an Agent that is connected again, the Controller's decision on it, and what the Agent does then.
use remote_build_orchestrato.Common.{
  ℕ, ◌≡◌, refl, sym, ap, ◌∙◌, Bool, true, false, Option, none, some, List, [], ◌∷◌, ◌++◌, ◌==◌,
  if◌then◌else◌, arith, ==_iff,
}
use remote_build_orchestrato.Common.Rows.{find_row, has_row, update_row}
use remote_build_orchestrato.SpoolSender.{SpoolChunk, SpoolSender, set_acked, start_replay}
use remote_build_orchestrato.Lifecycle.{AttemptRow}
use remote_build_orchestrato.Recovery.{RecoveryCoordinator, live_attempt, is_none}
use remote_build_orchestrato.Recovery.Reports.{
  RecoveryReport, Action, adopt, on_recovery_report, decide, is_some_of,
}
use remote_build_orchestrato.AgentRecovery.{
  AgentRecovery, AttemptMetadata, AttemptMetadataStatus, Hooks, ReconcileDecision,
  RecoveryReportPayload, report_sent, attempt_of, is_completed, running, put, read_attempt_metadata,
  write_attempt_metadata, does, set_sender,
}
use remote_build_orchestrato.AgentRecovery.Coordinator.{
  payload_of, emit_recovery_report, emit_as, adopted_if_known, replay, adopted_status,
  handle_reconcile_decision,
}

-- The frame as the Controller reads it, which takes the status for whether the attempt is over.
abbrev pub as_report : RecoveryReportPayload → RecoveryReport
as_report p = record {
  attempt_id = p.attempt_id;
  lease_id = p.lease_id;
  lease_epoch = p.lease_epoch;
  process_identity = p.process_identity;
  completed_awaiting_upload = is_completed p.status;
}

-- The reconcile_decision that carries an answer of the Controller.
abbrev pub as_decision : ℕ → Action → ReconcileDecision
as_decision id (adopt from) = record {
  attempt_id = id;
  terminates = false;
  resume_from_sequence = some from;
}
as_decision id _ = record { attempt_id = id; terminates = true; resume_from_sequence = none }

-- The row is the one that the metadata of Agent `agent` is about.
pub record Owns (agent identity : ℕ) (m : AttemptMetadata) (r : AttemptRow) : Type 0 where
  pub owner : r.agent_id ≡ some agent
  pub epoch : r.lease_epoch ≡ m.lease_epoch
  pub lease : r.lease_id ≡ m.lease_id
  pub process : r.process_identity ≡ some identity

same_is : (n : ℕ) → (n == n) ≡ true
same_is n = (==_iff n n).1 refl

report-adopts :
    (c : RecoveryCoordinator) (agent identity now : ℕ) (m : AttemptMetadata) (r : AttemptRow)
    (p : RecoveryReport)
    → live_attempt c.db p.attempt_id ≡ some r
    → p.lease_epoch ≡ m.lease_epoch
    → p.lease_id ≡ m.lease_id
    → p.process_identity ≡ identity
    → Owns agent identity m r
    → (on_recovery_report c agent p now).1 ≡ adopt r.log_acked_sequence
unfolding on_recovery_report decide
report-adopts c agent identity now m r p e epoch lease process owns =
    let a : is_some_of agent r.agent_id ≡ true = rw owns.owner (same_is agent) in
    let b : (r.lease_epoch == p.lease_epoch) ≡ true = (==_iff _ _).1 (owns.epoch ∙ sym epoch) in
    let d : (r.lease_id == p.lease_id) ≡ true = (==_iff _ _).1 (owns.lease ∙ sym lease) in
    let f : is_some_of p.process_identity r.process_identity ≡ true =
      rw (owns.process, process) (same_is identity) in
    let g : is_none r.process_identity ≡ false = rw owns.process refl in
    let decision : decide agent (some r) p ≡ adopt r.log_acked_sequence = rw (a, b, d, f) refl in
    rw (e, g, decision, on_recovery_report) refl

found-has :
    (id : ℕ) (m : AttemptMetadata) (rows : List AttemptMetadata)
    → find_row attempt_of id rows ≡ some m
    → has_row attempt_of id rows ≡ true
found-has id m [] e = absurd (ground arith)
found-has id m (r ∷ rows) e = ground (arith, found-has id m rows)

found-update :
    (id : ℕ) (m new : AttemptMetadata) (rows : List AttemptMetadata)
    → new.attempt_id ≡ id
    → find_row attempt_of id rows ≡ some m
    → find_row attempt_of id (update_row attempt_of id (λ r. new) rows) ≡ some new
found-update id m new [] same e = absurd (ground arith)
found-update id m new (r ∷ rows) same e = ground (arith, found-update id m new rows same)

written-read :
    (m new : AttemptMetadata) (rows : List AttemptMetadata)
    → find_row attempt_of new.attempt_id rows ≡ some m
    → find_row attempt_of new.attempt_id (put new rows) ≡ some new
written-read m new rows e =
    rw (found-has new.attempt_id m rows e) (found-update new.attempt_id m new rows refl e)

status_runs :
    (status : AttemptMetadataStatus) (hooks : Hooks) (spool_of : ℕ → List SpoolChunk)
    (read_ack : ℕ → Option ℕ) (answer : ℕ → ℕ → SpoolChunk → Bool) (max_queue n : ℕ)
    → is_completed status ≡ false
    → adopted_status hooks spool_of read_ack answer max_queue status (some n) ≡ running
status_runs AttemptMetadataStatus.accepted hooks a b c d n e = refl
status_runs AttemptMetadataStatus.running hooks a b c d n e = refl
status_runs AttemptMetadataStatus.orphaned hooks a b c d n e = refl
status_runs AttemptMetadataStatus.terminal hooks a b c d n e = refl
status_runs AttemptMetadataStatus.completed_awaiting_upload hooks a b c d n e =
    absurd (ground arith)

module _ (hooks : Hooks) (spool_of : ℕ → List SpoolChunk) (read_ack : ℕ → Option ℕ)
    (answer : ℕ → ℕ → SpoolChunk → Bool) (max_queue : ℕ) where
  abbrev after_adoption : AgentRecovery → AttemptMetadata → SpoolSender → ℕ → ℕ → AgentRecovery
  after_adoption s m live from now =
      set_sender m.attempt_id
        (start_replay (answer m.attempt_id) max_queue (spool_of m.attempt_id) (set_acked from live))
        (write_attempt_metadata s (record m { status = running; updated_at = now }))

  adopts-is :
      (s : AgentRecovery) (m : AttemptMetadata) (live : SpoolSender) (from now : ℕ)
      → read_attempt_metadata s m.attempt_id ≡ some m
      → s.live_senders m.attempt_id ≡ some live
      → is_completed m.status ≡ false
      → handle_reconcile_decision hooks spool_of read_ack answer max_queue s
          (as_decision m.attempt_id (adopt from))
          now
        ≡ after_adoption s m live from now
  unfolding handle_reconcile_decision replay
  adopts-is s m live from now e sender goes =
      ap
        (adopted_if_known hooks spool_of read_ack answer max_queue s
          (as_decision m.attempt_id (adopt from)) now)
        e
      ∙ rw (goes, sender, status_runs m.status hooks spool_of read_ack answer max_queue from goes)
          refl

  emit-sends :
      (s : AgentRecovery) (m : AttemptMetadata) (identity now : ℕ)
      → m.process_identity ≡ some identity
      → s.socket_open ≡ true
      → emit_recovery_report hooks spool_of read_ack answer max_queue s m now
        ≡ does s (report_sent (payload_of hooks spool_of read_ack answer max_queue s m identity))
  unfolding emit_recovery_report
  emit-sends s m identity now pid up =
      let payload = payload_of hooks spool_of read_ack answer max_queue s m identity in
      ap (emit_as hooks spool_of read_ack answer max_queue s m now) pid
      ∙ ap (λ (b : Bool). if b then does s (report_sent payload) else s) up

  -- The attempt of a connected Agent is not completed, neither on the Controller, whose row names
  -- the Agent, the lease and the process that the Agent's metadata names, nor on the Agent, where
  -- its sender lives. Then the Agent sends its report, which is answered by an adoption, and with it
  -- the Agent's attempt runs again, and its sender starts a replay of the spool from the sequence
  -- number that the Controller has acknowledged.
  pub reconnect_resumes :
      (c : RecoveryCoordinator) (agent identity now : ℕ) (r : AttemptRow) (s : AgentRecovery)
      (m : AttemptMetadata) (live : SpoolSender)
      → live_attempt c.db m.attempt_id ≡ some r
      → Owns agent identity m r
      → read_attempt_metadata s m.attempt_id ≡ some m
      → s.live_senders m.attempt_id ≡ some live
      → is_completed m.status ≡ false
      → m.process_identity ≡ some identity
      → s.socket_open ≡ true
      → let payload = payload_of hooks spool_of read_ack answer max_queue s m identity in
        let sent = emit_recovery_report hooks spool_of read_ack answer max_queue s m now in
        let action = (on_recovery_report c agent (as_report payload) now).1 in
        let t =
          handle_reconcile_decision hooks spool_of read_ack answer max_queue sent
            (as_decision m.attempt_id action)
            now in
        (sent.effects ≡ s.effects ++ report_sent payload ∷ [])
        × (action ≡ adopt r.log_acked_sequence)
        × (read_attempt_metadata t m.attempt_id
            ≡ some (record m { status = running; updated_at = now }))
        × (t.live_senders m.attempt_id
            ≡ some (
                start_replay
                  (answer m.attempt_id)
                  max_queue
                  (spool_of m.attempt_id)
                  (set_acked r.log_acked_sequence live)))
  unfolding read_attempt_metadata write_attempt_metadata
  reconnect_resumes c agent identity now r s m live found owns e sender goes pid up =
      let payload = payload_of hooks spool_of read_ack answer max_queue s m identity in
      let sent = emit_recovery_report hooks spool_of read_ack answer max_queue s m now in
      let reported = does s (report_sent payload) in
      let sends : sent ≡ reported = emit-sends s m identity now pid up in
      let adopts =
        report-adopts c agent identity now m r (as_report payload) found refl refl refl owns in
      let is = adopts-is reported m live r.log_acked_sequence now e sender goes in
      let new : AttemptMetadata = record m { status = running; updated_at = now } in
      (
        ap AgentRecovery.effects sends,
        adopts,
        rw (sends, adopts, is) (written-read m new s.metadata e),
        rw (sends, adopts, is, same_is m.attempt_id) refl,
      )
