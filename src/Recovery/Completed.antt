-- ===== src/Recovery/Completed.antt =====
-- apps/controller/src/recovery/coordinator.ts: no call takes a completed attempt to another state.
use remote_build_orchestrato.Common.{
  ℕ, ◌≡◌, refl, sym, ap, subst, ◌∙◌, inl, inr, Option, none, some, List, [], ◌∷◌, arith,
  Option-cases, Bool-cases,
}
use remote_build_orchestrato.Common.Text.{keep}
use remote_build_orchestrato.Lifecycle.{
  AttemptState, Outcome, FailureCategory, AttemptRow, Database, AttemptFields, get_attempt,
  no_attempt_fields, failed, lost, agent_disconnected,
}
use remote_build_orchestrato.Lifecycle.Writes.{update_attempt}
use remote_build_orchestrato.RemoteAttempt.{finish_attempt}
use remote_build_orchestrato.RemoteAttempt.Final.{finish_job-attempts}
use remote_build_orchestrato.RemoteAttempt.Finish.{each_row}
use remote_build_orchestrato.Recovery.{
  RecoveryCoordinator, mark, is_completed, is_orphaned, live_attempt, disconnected, swept,
  in_flight_of, on_controller_startup, on_agent_disconnect, on_agent_connect, on_grace_elapsed,
  on_orphan_timeout, on_reconcile_deadline, same_boot, in_flight, clear_timer, clear_all_timers_for,
  is_none, is_pre_start_disconnect, extended_deadline, arm_reconcile_deadline,
}
use remote_build_orchestrato.Recovery.Reports.{
  RecoveryReport, Action, adopt, terminate_stale, Reason, agent_mismatch, decide, deferred, decided,
  on_recovery_report, written, adopted_fields, rearm_row, stale_category, Call, call,
  mark_terminate_stale_failed, startup, disconnect, connect, grace_elapsed, orphan_timeout,
  reconcile_deadline, recovery_report,
}
use remote_build_orchestrato.Recovery.Attempts.{live-found, live-id}
use remote_build_orchestrato.RemoteAttempt.Final.{
  Done, get_attempt-Done, update_attempt-Done, finish_attempt-Done,
}
use remote_build_orchestrato.RemoteAttempt.Handlers.{same-Done}

mark-Done :
    (c : RecoveryCoordinator) (r : AttemptRow) (outcome : Outcome) (category : FailureCategory)
    (now i : ℕ)
    → Done i c.db.attempts
    → Done i (mark c r outcome category now).db.attempts
mark-Done c r outcome category now i h =
    same-Done i _ _
      (finish_job-attempts (finish_attempt c.db r.id outcome now) r.job_id outcome category now)
      (finish_attempt-Done c.db r.id i outcome now h)

live-Done :
    (db : Database) (id i : ℕ) (r : AttemptRow)
    → live_attempt db id ≡ some r
    → Done i db.attempts
    → id ≡ i
    → ⊥
live-Done db id i r e h at =
    let found = live-found db id r e in
    let done = get_attempt-Done db i r h (subst (λ k. get_attempt db k ≡ some r) at found) in
    ground (arith, ap is_completed done, e)

each_row-Done :
    (f : AttemptRow → RecoveryCoordinator → RecoveryCoordinator) (i : ℕ)
    → ((r : AttemptRow) (c : RecoveryCoordinator)
        → Done i c.db.attempts
        → Done i (f r c).db.attempts)
    → (rs : List AttemptRow) (c : RecoveryCoordinator) → Done i c.db.attempts
    → Done i (each_row f rs c).db.attempts
each_row-Done f i keeps [] c h = h
each_row-Done f i keeps (r ∷ rs) c h = each_row-Done f i keeps rs (f r c) (keeps r c h)

disconnected-Done :
    (c : RecoveryCoordinator) (r : AttemptRow) (now i : ℕ)
    → Done i c.db.attempts
    → Done i (disconnected now r c).db.attempts
disconnected-Done c r now i h =
    elim (Bool-cases (is_pre_start_disconnect r.state r.process_identity)) [
      | inl e ↦ rw e (mark-Done c r failed agent_disconnected now i h)
      | inr e ↦ rw e (
          update_attempt-Done c.db r.id i
            (record no_attempt_fields { lease_deadline = some (some (extended_deadline now)) })
            (λ at. inl refl) h)
    ]

swept-Done :
    (c : RecoveryCoordinator) (r : AttemptRow) (now i : ℕ)
    → Done i c.db.attempts
    → Done i (swept now r c).db.attempts
swept-Done c r now i h = elim (Option-cases (live_attempt c.db r.id)) [
  | inl e ↦ rw (e, swept) h
  | inr (x, e) ↦ rw (e, swept) (mark-Done c x lost agent_disconnected now i h)
]

grace-Done :
    (c : RecoveryCoordinator) (id now i : ℕ)
    → Done i c.db.attempts
    → Done i (on_grace_elapsed c id now).db.attempts
unfolding on_grace_elapsed
grace-Done c id now i h = elim (Option-cases (live_attempt c.db id)) [
  | inl e ↦ rw (e, on_grace_elapsed) h
  | inr (x, e) ↦
      rw (e, on_grace_elapsed)
        (update_attempt-Done c.db id i
          (record no_attempt_fields {
            state = some AttemptState.orphaned;
            orphaned_at = some (some now);
          })
          (λ at. absurd (live-Done c.db id i x e h at)) h)
]

orphan-Done :
    (c : RecoveryCoordinator) (id now i : ℕ)
    → Done i c.db.attempts
    → Done i (on_orphan_timeout c id now).db.attempts
unfolding on_orphan_timeout
orphan-Done c id now i h = elim (Option-cases (live_attempt c.db id)) [
  | inl e ↦ rw (e, on_orphan_timeout) h
  | inr (x, e) ↦ elim (Bool-cases (is_orphaned x.state)) [
    | inl q ↦ rw (e, q, on_orphan_timeout) (mark-Done c x lost agent_disconnected now i h)
    | inr q ↦ rw (e, q, on_orphan_timeout) h
  ]
]

reconcile-Done :
    (c : RecoveryCoordinator) (id now i : ℕ)
    → Done i c.db.attempts
    → Done i (on_reconcile_deadline c id now).db.attempts
unfolding on_reconcile_deadline
reconcile-Done c id now i h = elim (Option-cases (live_attempt c.db id)) [
  | inl e ↦ rw (e, on_reconcile_deadline) h
  | inr (x, e) ↦ rw (e, on_reconcile_deadline) (mark-Done c x lost agent_disconnected now i h)
]

rearm_row-db :
    (c : RecoveryCoordinator) (id : ℕ) (r : Option AttemptRow) → (rearm_row c id r).db ≡ c.db
rearm_row-db c id none = refl
rearm_row-db c id (some r) = ground arith

deferred-Done :
    (c : RecoveryCoordinator) (id now i : ℕ)
    → Done i c.db.attempts
    → Done i (deferred c id now).db.attempts
deferred-Done c id now i h =
    let fields : AttemptFields = record no_attempt_fields { last_reconcile_at = some (some now) } in
    let w = written c id fields in
    same-Done i _ _ (ap Database.attempts (rearm_row-db w id (live_attempt w.db id)))
      (update_attempt-Done c.db id i fields (λ at. inl refl) h)

stale-Done :
    (c : RecoveryCoordinator) (r : AttemptRow) (reason : Reason) (now i : ℕ)
    → Done i c.db.attempts
    → Done i (mark_terminate_stale_failed c r reason now).db.attempts
stale-Done c r reason now i h =
    let ended = finish_attempt c.db r.id failed now in
    let fields : AttemptFields = record no_attempt_fields {
      orphaned_at = some none;
      last_reconcile_at = some (some now);
    } in
    same-Done i _ _
      (finish_job-attempts (update_attempt ended r.id fields).0 r.job_id failed
        (stale_category reason) now)
      (update_attempt-Done ended r.id i fields (λ at. inl refl)
        (finish_attempt-Done c.db r.id i failed now h))

decided-Done :
    (c : RecoveryCoordinator) (p : RecoveryReport) (now : ℕ) (r : AttemptRow) (action : Action)
    (i : ℕ)
    → (r.id ≡ i → ⊥)
    → Done i c.db.attempts
    → Done i (decided c p now r action).db.attempts
decided-Done c p now r (adopt from) i apart h =
    update_attempt-Done c.db r.id i (adopted_fields p now) (λ at. absurd (apart at)) h
decided-Done c p now r (terminate_stale agent_mismatch) i apart h = deferred-Done c r.id now i h
decided-Done c p now r (terminate_stale reason) i apart h = stale-Done c r reason now i h

report-Done :
    (c : RecoveryCoordinator) (agent : ℕ) (p : RecoveryReport) (now i : ℕ)
    → Done i c.db.attempts
    → Done i (on_recovery_report c agent p now).0.db.attempts
unfolding on_recovery_report
report-Done c agent p now i h =
    let id = p.attempt_id in
    let cleared = clear_all_timers_for c id in
    elim (Option-cases (live_attempt c.db id)) [
      | inl e ↦ rw (e, on_recovery_report) h
      | inr (x, e) ↦
          let apart : x.id ≡ i → ⊥ =
            λ at. live-Done c.db id i x e h (sym (live-id c.db id x e) ∙ at) in
          elim (Bool-cases (is_none x.process_identity)) [
            | inl lacks ↦ rw (e, lacks, on_recovery_report) (deferred-Done cleared x.id now i h)
            | inr has ↦
                rw (e, has, on_recovery_report)
                  (decided-Done cleared p now x (decide agent (some x) p) i apart h)
          ]
    ]

pub call-Done :
    (c : RecoveryCoordinator) (x : Call) (now i : ℕ)
    → Done i c.db.attempts
    → Done i (call c x now).db.attempts
unfolding on_agent_disconnect on_agent_connect on_controller_startup
call-Done c startup now i h =
    each_row-Done arm_reconcile_deadline i (λ r d k. k) (keep in_flight c.db.attempts) c h
call-Done c (disconnect agent) now i h =
    each_row-Done (disconnected now) i (λ r d. disconnected-Done d r now i)
      (keep (in_flight_of agent) c.db.attempts) c h
call-Done c (connect agent none last) now i h = h
call-Done c (connect agent (some boot) last) now i h = elim (Bool-cases (same_boot boot last)) [
  | inl e ↦ rw (e, on_agent_connect) h
  | inr e ↦
      rw (e, on_agent_connect)
        (each_row-Done (swept now) i (λ r d. swept-Done d r now i)
          (keep (in_flight_of agent) c.db.attempts) c h)
]
call-Done c (grace_elapsed id) now i h = elim (Bool-cases (c.grace_timers id)) [
  | inl e ↦ rw e (grace-Done (record c { grace_timers = clear_timer c.grace_timers id }) id now i h)
  | inr e ↦ rw e h
]
call-Done c (orphan_timeout id) now i h = elim (Bool-cases (c.orphan_timers id)) [
  | inl e ↦
      rw e (orphan-Done (record c { orphan_timers = clear_timer c.orphan_timers id }) id now i h)
  | inr e ↦ rw e h
]
call-Done c (reconcile_deadline id) now i h = elim (Bool-cases (c.reconcile_timers id)) [
  | inl e ↦ rw e (
      reconcile-Done (record c { reconcile_timers = clear_timer c.reconcile_timers id }) id now i h)
  | inr e ↦ rw e h
]
call-Done c (recovery_report agent p) now i h = report-Done c agent p now i h
