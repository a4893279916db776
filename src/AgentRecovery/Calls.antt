-- ===== src/AgentRecovery/Calls.antt =====
-- apps/agent/src/recovery/coordinator.ts: the calls in any order after a terminate_stale.
use remote_build_orchestrato.Common.{
  ℕ, ◌≡◌, ◌≢◌, refl, ap, ◌∙◌, Bool, true, false, Option, none, some, List, [], ◌∷◌, ◌++◌, arith,
}
use remote_build_orchestrato.SpoolSender.{SpoolChunk, SpoolSender}
use remote_build_orchestrato.AgentRecovery.{
  AgentRecovery, AttemptMetadata, Hooks, ReconcileDecision, terminate_attempt,
  cleanup_attempt_resources, listed, is_rejected, read_attempt_metadata, write_attempt_metadata,
  remove_attempt_metadata, set_sender, attach_socket, detach_socket, clear_live_sender,
  on_disconnect_park, park, parked, is_terminal,
}
use remote_build_orchestrato.AgentRecovery.Coordinator.{
  rejecting, ended, apply_terminate_stale, report_all, handle_reconcile_decision,
  invoke_cleanup_attempt_resources,
}
use remote_build_orchestrato.AgentRecovery.Gone.{
  Gone, reports_of, reports_of-append, find-without, write-Gone, if-Gone, each-Gone, decision-Gone,
  found-other, senders-Gone,
}

-- persist_metadata is the executor's writing of an attempt's metadata.
pub data Call : Type 0 where
  decision_comes : ReconcileDecision → Call
  report_all_at : Call
  disconnect : Option ℕ → Call
  attach detach : Call
  register : ℕ → SpoolSender → Call
  clear : ℕ → Call
  persist_metadata : AttemptMetadata → Call

abbrev pub Spares : ℕ → Call → Type 0
Spares id (persist_metadata m) = m.attempt_id ≢ id
Spares id c = Unit

abbrev pub EverySpares : ℕ → List (Call × ℕ) → Type 0
EverySpares id [] = Unit
EverySpares id ((c, now) ∷ cs) = Spares id c × EverySpares id cs

park-Gone :
    (id n : ℕ) (s : AgentRecovery) (now : ℕ) (o : Option AttemptMetadata)
    → ((m : AttemptMetadata) → o ≡ some m → m.attempt_id ≢ id)
    → Gone id n s
    → Gone id n (park s now o)
park-Gone id n s now none other gone = gone
park-Gone id n s now (some m) other gone =
    if-Gone id n (is_terminal m.status) _ _ gone
      (write-Gone id n s (parked m now) (other m refl) gone)

socket-Gone :
    (id n : ℕ) (s : AgentRecovery) (b : Bool)
    → Gone id n s
    → Gone id n (record s { socket_open = b })
unfolding is_rejected read_attempt_metadata
socket-Gone id n s b gone = record {
  rejected = gone.rejected;
  absent = gone.absent;
  reports = gone.reports;
}

module _ (hooks : Hooks) (spool_of : ℕ → List SpoolChunk) (read_ack : ℕ → Option ℕ)
    (answer : ℕ → ℕ → SpoolChunk → Bool) (max_queue : ℕ) where
  abbrev pub call : AgentRecovery → Call → ℕ → AgentRecovery
  call s (decision_comes d) now =
      handle_reconcile_decision hooks spool_of read_ack answer max_queue s d now
  call s report_all_at now = report_all hooks spool_of read_ack answer max_queue s now
  call s (disconnect id) now = on_disconnect_park s id now
  call s attach now = attach_socket s
  call s detach now = detach_socket s
  call s (register id sender) now = set_sender id sender s
  call s (clear id) now = clear_live_sender s id
  call s (persist_metadata m) now = write_attempt_metadata s m

  -- The calls in their order, each at its time.
  abbrev pub calls : AgentRecovery → List (Call × ℕ) → AgentRecovery
  calls s [] = s
  calls s ((c, now) ∷ cs) = calls (call s c now) cs

  call-Gone :
      (id n : ℕ) (c : Call) (s : AgentRecovery) (now : ℕ)
      → Spares id c
      → Gone id n s
      → Gone id n (call s c now)
  unfolding report_all on_disconnect_park attach_socket detach_socket clear_live_sender
      read_attempt_metadata
  call-Gone id n (decision_comes d) s now spares gone =
      decision-Gone hooks spool_of read_ack answer max_queue id n s d now gone
  call-Gone id n report_all_at s now spares gone =
      each-Gone hooks spool_of read_ack answer max_queue id n s.metadata s now gone.absent gone
  call-Gone id n (disconnect none) s now spares gone = gone
  call-Gone id n (disconnect (some other)) s now spares gone =
      park-Gone id n s now (read_attempt_metadata s other) (λ m. found-other id n other s m gone)
        gone
  call-Gone id n attach s now spares gone = socket-Gone id n s true gone
  call-Gone id n detach s now spares gone = socket-Gone id n s false gone
  call-Gone id n (register other sender) s now spares gone =
      senders-Gone hooks spool_of read_ack answer max_queue id n s _ gone
  call-Gone id n (clear other) s now spares gone =
      senders-Gone hooks spool_of read_ack answer max_queue id n s _ gone
  call-Gone id n (persist_metadata m) s now spares gone = write-Gone id n s m spares gone

  calls-Gone :
      (id n : ℕ) (cs : List (Call × ℕ)) (s : AgentRecovery)
      → EverySpares id cs
      → Gone id n s
      → Gone id n (calls s cs)
  calls-Gone id n [] s spares gone = gone
  calls-Gone id n ((c, now) ∷ cs) s (here, there) gone =
      calls-Gone id n cs _ there (call-Gone id n c s now here gone)

  rejecting-reports :
      (id : ℕ) (s : AgentRecovery)
      → reports_of id (rejecting hooks s id).effects ≡ reports_of id s.effects
  unfolding invoke_cleanup_attempt_resources
  rejecting-reports id s = ground (
    arith,
    reports_of-append id s.effects (terminate_attempt id ∷ []),
    reports_of-append id (s.effects ++ terminate_attempt id ∷ [])
        (cleanup_attempt_resources id ∷ []),
  )

  rejecting-rejected :
      (id : ℕ) (s : AgentRecovery)
      → (rejecting hooks s id).rejected_attempts ≡ id ∷ s.rejected_attempts
  unfolding invoke_cleanup_attempt_resources
  rejecting-rejected id s = ground arith

  ended-keeps :
      (s : AgentRecovery) (o : Option AttemptMetadata)
      → ((ended hooks s o).rejected_attempts ≡ s.rejected_attempts)
        × ((ended hooks s o).effects ≡ s.effects)
  unfolding write_attempt_metadata
  ended-keeps s none = (refl, refl)
  ended-keeps s (some m) = (refl, refl)

  terminated-Gone :
      (id : ℕ) (s : AgentRecovery)
      → Gone id (reports_of id s.effects) (apply_terminate_stale hooks s id)
  unfolding apply_terminate_stale is_rejected read_attempt_metadata remove_attempt_metadata
  terminated-Gone id s =
      let stopped = rejecting hooks s id in
      let (same, quiet) = ended-keeps stopped (read_attempt_metadata s id) in
      record {
        rejected = ap (listed id) (same ∙ rejecting-rejected id s) ∙ ground arith;
        absent = find-without id _;
        reports = ap (reports_of id) quiet ∙ rejecting-reports id s;
      }

  -- After a terminate_stale the attempt stays rejected and without metadata, and no further report
  -- of it is sent, whatever calls follow, as long as nothing writes metadata for it again.
  pub terminated_stays :
      (s : AgentRecovery) (d : ReconcileDecision) (now : ℕ) (cs : List (Call × ℕ))
      → d.terminates ≡ true
      → EverySpares d.attempt_id cs
      → let after = handle_reconcile_decision hooks spool_of read_ack answer max_queue s d now in
        let later = calls after cs in
        (is_rejected later d.attempt_id ≡ true)
        × (read_attempt_metadata later d.attempt_id ≡ none)
        × (reports_of d.attempt_id later.effects ≡ reports_of d.attempt_id s.effects)
  unfolding handle_reconcile_decision
  terminated_stays s d now cs stale spares =
      let id = d.attempt_id in
      let first : Gone id (reports_of id s.effects)
          (handle_reconcile_decision hooks spool_of read_ack answer max_queue s d now) =
        rw stale (terminated-Gone id s) in
      let gone = calls-Gone id (reports_of id s.effects) cs _ spares first in
      (gone.rejected, gone.absent, gone.reports)
