-- ===== src/AgentRecovery/Gone.antt =====
-- apps/agent/src/recovery/coordinator.ts: an attempt that was rejected is not reported again.
use remote_build_orchestrato.Common.{
  ℕ, ◌+◌, ◌≡◌, ◌≢◌, refl, sym, ◌∙◌, inl, inr, Bool, true, false, Option, none, some, List, [], ◌∷◌,
  ◌++◌, ◌==◌, if◌then◌else◌, arith, Bool-cases,
}
use remote_build_orchestrato.Common.Rows.{find_row, has_row, update_row, find_row-key}
use remote_build_orchestrato.SpoolSender.{SpoolChunk, SpoolSender}
use remote_build_orchestrato.AgentRecovery.{
  AgentRecovery, AttemptMetadata, Effect, report_sent, terminate_attempt, cleanup_attempt_resources,
  Hooks, ReconcileDecision, attempt_of, is_rejected, read_attempt_metadata, put, without,
  write_attempt_metadata, remove_attempt_metadata, does, resume_artifact_upload, resend_job_exit,
  job_exit_sent, is_terminal, is_completed,
}
use remote_build_orchestrato.AgentRecovery.Coordinator.{
  rejecting, resume_upload, send_job_exit, invoke_cleanup_attempt_resources,
  discard_unfenced_leftover, apply_terminate_stale, resend, emit_recovery_report, emit_as, ended,
  adopted_if_known, report_each, replay_from_disk, replay, adopted, handle_reconcile_decision,
}

abbrev pub reports_of : ℕ → List Effect → ℕ
reports_of id [] = 0
reports_of id (report_sent p ∷ es) = (if p.attempt_id == id then 1 else 0) + reports_of id es
reports_of id (e ∷ es) = reports_of id es

pub reports_of-append :
    (id : ℕ) (es fs : List Effect) → reports_of id (es ++ fs) ≡ reports_of id es + reports_of id fs
reports_of-append id [] fs = omega arith
reports_of-append id (report_sent p ∷ es) fs = omega (arith, reports_of-append id es fs)
reports_of-append id (e ∷ es) fs = reports_of-append id es fs

find-update_other :
    (id : ℕ) (m : AttemptMetadata) (rows : List AttemptMetadata)
    → m.attempt_id ≢ id
    → find_row attempt_of id rows ≡ none
    → find_row attempt_of id (update_row attempt_of m.attempt_id (λ r. m) rows) ≡ none
find-update_other id m [] other e = refl
find-update_other id m (r ∷ rows) other e = ground (arith, find-update_other id m rows other)

find-append_other :
    (id : ℕ) (m : AttemptMetadata) (rows : List AttemptMetadata)
    → m.attempt_id ≢ id
    → find_row attempt_of id rows ≡ none
    → find_row attempt_of id (rows ++ m ∷ []) ≡ none
find-append_other id m [] other e = ground arith
find-append_other id m (r ∷ rows) other e = ground (arith, find-append_other id m rows other)

find-put_other :
    (id : ℕ) (m : AttemptMetadata) (rows : List AttemptMetadata)
    → m.attempt_id ≢ id
    → find_row attempt_of id rows ≡ none
    → find_row attempt_of id (put m rows) ≡ none
find-put_other id m rows other e = elim (Bool-cases (has_row attempt_of m.attempt_id rows)) [
  | inl there ↦ rw there (find-update_other id m rows other e)
  | inr new ↦ rw new (find-append_other id m rows other e)
]

pub find-without :
    (id : ℕ) (rows : List AttemptMetadata) → find_row attempt_of id (without id rows) ≡ none
find-without id [] = refl
find-without id (r ∷ rows) = ground (arith, find-without id rows)

find-without_other :
    (id other : ℕ) (rows : List AttemptMetadata)
    → find_row attempt_of id rows ≡ none
    → find_row attempt_of id (without other rows) ≡ none
find-without_other id other [] e = refl
find-without_other id other (r ∷ rows) e = ground (arith, find-without_other id other rows)

-- The attempt is rejected, has no metadata, and was reported `n` times.
pub record Gone (id n : ℕ) (s : AgentRecovery) : Type 0 where
  pub rejected : is_rejected s id ≡ true
  pub absent : read_attempt_metadata s id ≡ none
  pub reports : reports_of id s.effects ≡ n

pub does-Gone :
    (id n : ℕ) (s : AgentRecovery) (e : Effect)
    → reports_of id (e ∷ []) ≡ 0
    → Gone id n s
    → Gone id n (does s e)
unfolding is_rejected read_attempt_metadata
does-Gone id n s e quiet gone = record {
  rejected = gone.rejected;
  absent = gone.absent;
  reports = omega (arith, reports_of-append id s.effects (e ∷ []), gone.reports);
}

pub write-Gone :
    (id n : ℕ) (s : AgentRecovery) (m : AttemptMetadata)
    → m.attempt_id ≢ id
    → Gone id n s
    → Gone id n (write_attempt_metadata s m)
unfolding is_rejected read_attempt_metadata write_attempt_metadata
write-Gone id n s m other gone = record {
  rejected = gone.rejected;
  absent = find-put_other id m s.metadata other gone.absent;
  reports = gone.reports;
}

remove-Gone :
    (id n other : ℕ) (s : AgentRecovery) → Gone id n s → Gone id n (remove_attempt_metadata s other)
unfolding is_rejected read_attempt_metadata remove_attempt_metadata
remove-Gone id n other s gone = record {
  rejected = gone.rejected;
  absent = find-without_other id other s.metadata gone.absent;
  reports = gone.reports;
}

-- An attempt that is found is another one.
pub found-other :
    (id n other : ℕ) (s : AgentRecovery) (m : AttemptMetadata)
    → Gone id n s
    → read_attempt_metadata s other ≡ some m
    → m.attempt_id ≢ id
unfolding read_attempt_metadata
found-other id n other s m gone e same =
    let key = find_row-key attempt_of other s.metadata m e in
    let is : other ≡ id = sym key ∙ same in
    let none_is : find_row attempt_of other s.metadata ≡ none = rw is gone.absent in
    absurd (ground arith)

pub if-Gone :
    (id n : ℕ) (b : Bool) (s t : AgentRecovery)
    → Gone id n s
    → Gone id n t
    → Gone id n (if b then s else t)
if-Gone id n true s t gone other = gone
if-Gone id n false s t gone other = other

module _ (hooks : Hooks) where
  cleanup-Gone :
      (id n other : ℕ) (s : AgentRecovery)
      → Gone id n s
      → Gone id n (invoke_cleanup_attempt_resources hooks s other)
  unfolding invoke_cleanup_attempt_resources
  cleanup-Gone id n other s gone = elim (Bool-cases hooks.has_cleanup) [
    | inl has ↦ rw has (does-Gone id n s (cleanup_attempt_resources other) refl gone)
    | inr has_not ↦ rw has_not gone
  ]

  rejecting-Gone :
      (id n other : ℕ) (s : AgentRecovery) → Gone id n s → Gone id n (rejecting hooks s other)
  unfolding is_rejected read_attempt_metadata
  rejecting-Gone id n other s gone =
      let added : Gone id n (record s { rejected_attempts = other ∷ s.rejected_attempts }) =
        record {
          rejected = ground (arith, gone.rejected);
          absent = gone.absent;
          reports = gone.reports;
        } in
      cleanup-Gone id n other _ (does-Gone id n _ (terminate_attempt other) refl added)

  discard-Gone :
      (id n : ℕ) (s : AgentRecovery) (m : AttemptMetadata) (now : ℕ)
      → m.attempt_id ≢ id
      → Gone id n s
      → Gone id n (discard_unfenced_leftover hooks s m now)
  unfolding discard_unfenced_leftover
  discard-Gone id n s m now other gone =
      remove-Gone id n m.attempt_id _
        (write-Gone id n _ _ other (rejecting-Gone id n m.attempt_id s gone))

  ended-Gone :
      (id n : ℕ) (s : AgentRecovery) (o : Option AttemptMetadata)
      → ((m : AttemptMetadata) → o ≡ some m → m.attempt_id ≢ id)
      → Gone id n s
      → Gone id n (ended hooks s o)
  ended-Gone id n s none other gone = gone
  ended-Gone id n s (some m) other gone = write-Gone id n s _ (other m refl) gone

  terminate-Gone :
      (id n other : ℕ) (s : AgentRecovery)
      → Gone id n s
      → Gone id n (apply_terminate_stale hooks s other)
  unfolding apply_terminate_stale
  terminate-Gone id n other s gone = remove-Gone id n other _ (
      ended-Gone id n _ (read_attempt_metadata s other) (λ m. found-other id n other s m gone)
        (rejecting-Gone id n other s gone))

  upload-Gone :
      (id n : ℕ) (s : AgentRecovery) (m : AttemptMetadata)
      → Gone id n s
      → Gone id n (resume_upload hooks s m)
  upload-Gone id n s m gone = elim (Bool-cases hooks.has_resume_artifact_upload) [
    | inl has ↦ rw has (does-Gone id n s (resume_artifact_upload m.attempt_id) refl gone)
    | inr has_not ↦ rw has_not gone
  ]

  exit-Gone :
      (id n : ℕ) (s : AgentRecovery) (m : AttemptMetadata) (exit : Option ℕ)
      → Gone id n s
      → Gone id n (send_job_exit hooks s m exit)
  exit-Gone id n s m none gone = gone
  exit-Gone id n s m (some exit) gone =
      if-Gone id n s.socket_open _ _ (does-Gone id n s (job_exit_sent m exit) refl gone) gone

  resend-Gone :
      (id n : ℕ) (s : AgentRecovery) (m : AttemptMetadata)
      → Gone id n s
      → Gone id n (resend hooks s m)
  unfolding resend
  resend-Gone id n s m gone = elim (Bool-cases hooks.has_resend_job_exit) [
    | inl has ↦
        rw has (upload-Gone id n _ m (does-Gone id n s (resend_job_exit m.attempt_id) refl gone))
    | inr has_not ↦ rw has_not (upload-Gone id n _ m (exit-Gone id n s m m.last_exit gone))
  ]

  module _ (spool_of : ℕ → List SpoolChunk) (read_ack : ℕ → Option ℕ)
      (answer : ℕ → ℕ → SpoolChunk → Bool) (max_queue : ℕ) where
    emit_as-Gone :
        (id n : ℕ) (s : AgentRecovery) (m : AttemptMetadata) (now : ℕ) (o : Option ℕ)
        → m.attempt_id ≢ id
        → Gone id n s
        → Gone id n (emit_as hooks spool_of read_ack answer max_queue s m now o)
    emit_as-Gone id n s m now none other gone = discard-Gone id n s m now other gone
    emit_as-Gone id n s m now (some identity) other gone =
        if-Gone id n s.socket_open _ _ (does-Gone id n s _ (ground arith) gone) gone

    pub each-Gone :
        (id n : ℕ) (ms : List AttemptMetadata) (s : AgentRecovery) (now : ℕ)
        → find_row attempt_of id ms ≡ none
        → Gone id n s
        → Gone id n (report_each hooks spool_of read_ack answer max_queue s ms now)
    unfolding emit_recovery_report
    each-Gone id n [] s now absent gone = gone
    each-Gone id n (m ∷ ms) s now absent gone =
        let later : find_row attempt_of id ms ≡ none = ground arith in
        let other : m.attempt_id ≢ id = λ same. absurd (ground arith) in
        let reported = emit_as-Gone id n s m now m.process_identity other gone in
        if-Gone id n (is_terminal m.status) _ _ (each-Gone id n ms s now later gone)
          (each-Gone id n ms _ now later reported)

    pub senders-Gone :
        (id n : ℕ) (s : AgentRecovery) (live : ℕ → Option SpoolSender)
        → Gone id n s
        → Gone id n (record s { live_senders = live })
    unfolding is_rejected read_attempt_metadata
    senders-Gone id n s live gone = record {
      rejected = gone.rejected;
      absent = gone.absent;
      reports = gone.reports;
    }

    replay-Gone :
        (id n : ℕ) (s : AgentRecovery) (m : AttemptMetadata) (d : ReconcileDecision)
        (o : Option SpoolSender)
        → Gone id n s
        → Gone id n (replay hooks spool_of read_ack answer max_queue s m d o)
    unfolding replay replay_from_disk
    replay-Gone id n s m d (some live) gone = senders-Gone id n s _ gone
    replay-Gone id n s m d none gone =
        if-Gone id n hooks.has_on_adopted _ _ (does-Gone id n s _ refl gone)
          (if-Gone id n s.socket_open _ _ (senders-Gone id n s _ gone) gone)

    adopted-Gone :
        (id n : ℕ) (s : AgentRecovery) (m : AttemptMetadata) (d : ReconcileDecision) (now : ℕ)
        → m.attempt_id ≢ id
        → Gone id n s
        → Gone id n (adopted hooks spool_of read_ack answer max_queue s m d now)
    adopted-Gone id n s m d now other gone =
        let after =
          replay-Gone id n _ m d (s.live_senders d.attempt_id) (write-Gone id n s _ other gone) in
        if-Gone id n (is_completed m.status) _ _ (resend-Gone id n _ m after) after

    known-Gone :
        (id n : ℕ) (s : AgentRecovery) (d : ReconcileDecision) (now : ℕ)
        (o : Option AttemptMetadata)
        → ((m : AttemptMetadata) → o ≡ some m → m.attempt_id ≢ id)
        → Gone id n s
        → Gone id n (adopted_if_known hooks spool_of read_ack answer max_queue s d now o)
    known-Gone id n s d now none other gone = gone
    known-Gone id n s d now (some m) other gone = adopted-Gone id n s m d now (other m refl) gone

    pub decision-Gone :
        (id n : ℕ) (s : AgentRecovery) (d : ReconcileDecision) (now : ℕ)
        → Gone id n s
        → Gone id n (handle_reconcile_decision hooks spool_of read_ack answer max_queue s d now)
    unfolding handle_reconcile_decision
    decision-Gone id n s d now gone =
        if-Gone id n d.terminates _ _ (terminate-Gone id n d.attempt_id s gone) (
          known-Gone id n s d now (read_attempt_metadata s d.attempt_id)
            (λ m. found-other id n d.attempt_id s m gone) gone)
