-- ===== src/Recovery/Watched.antt =====
-- apps/controller/src/recovery/coordinator.ts: what each call does to the watch over an attempt.
use remote_build_orchestrato.Common.{
  ℕ, ◌≡◌, sym, ap, subst, inl, inr, Bool, true, false, ◌||◌, none, some, List, [], ◌∷◌, ◌==◌, arith,
  Option-cases, Bool-cases, ==_iff,
}
use remote_build_orchestrato.Common.Rows.{find_row}
use remote_build_orchestrato.Lifecycle.{
  AttemptState, Outcome, FailureCategory, AttemptRow, AttemptFields, get_attempt, no_attempt_fields,
  assigned, failed, lost, agent_disconnected,
}
use remote_build_orchestrato.Lifecycle.Writes.{update_attempt}
use remote_build_orchestrato.RemoteAttempt.{finish_attempt}
use remote_build_orchestrato.RemoteAttempt.Final.{finish_job-attempts}
use remote_build_orchestrato.RemoteAttempt.Finish.{each_row}
use remote_build_orchestrato.Recovery.{
  RecoveryCoordinator, mark, is_orphaned, live_attempt, disconnected, swept, on_grace_elapsed,
  on_orphan_timeout, on_reconcile_deadline, clear_all_timers_for, is_none, is_pre_start_disconnect,
  extended_deadline, arm_timer,
}
use remote_build_orchestrato.Recovery.Reports.{
  RecoveryReport, Action, adopt, terminate_stale, Reason, agent_mismatch, decide, deferred, decided,
  on_recovery_report, written, adopted_fields, rearm_orphan_watchdog, stale_category,
  mark_terminate_stale_failed,
}
use remote_build_orchestrato.Recovery.Attempts.{
  orphaned_row, get_attempt-update_attempt, get_attempt-finish_attempt, get_attempt-mark, live-dead,
  live-found, live-id,
}

abbrev is_orphaned_attempt : RecoveryCoordinator → ℕ → Bool
is_orphaned_attempt c id = orphaned_row (get_attempt c.db id)

-- If the attempt is orphaned, its orphan timer or its reconcile timer is armed.
abbrev pub Watched : RecoveryCoordinator → ℕ → Type 0
Watched c id =
    is_orphaned_attempt c id ≡ true → (c.orphan_timers id || c.reconcile_timers id) ≡ true

-- The other attempts are watched.
abbrev Apart : RecoveryCoordinator → ℕ → ℕ → Type 0
Apart c j i = (i == j) ≡ false → Watched c i

mark-Watched :
    (c : RecoveryCoordinator) (r : AttemptRow) (outcome : Outcome) (category : FailureCategory)
    (now i : ℕ)
    → Apart c r.id i
    → Watched (mark c r outcome category now) i
mark-Watched c r outcome category now i h = elim (Option-cases (get_attempt c.db i)) [
  | inl e ↦ ground (
    arith,
    get_attempt-mark c r outcome category now i,
    get_attempt-finish_attempt c.db r.id i outcome now,
  )
  | inr (x, e) ↦ ground (
    arith,
    get_attempt-mark c r outcome category now i,
    get_attempt-finish_attempt c.db r.id i outcome now,
  )
]

-- A write that orphans no attempt.
written-Watched :
    (c : RecoveryCoordinator) (j i : ℕ) (fields : AttemptFields)
    → ((s : AttemptState) → is_orphaned (assigned fields.state s) ≡ true → is_orphaned s ≡ true)
    → Watched c i
    → Watched (written c j fields) i
written-Watched c j i fields stays h = elim (Option-cases (get_attempt c.db i)) [
  | inl e ↦ ground (arith, get_attempt-update_attempt c.db j i fields)
  | inr (x, e) ↦ ground (arith, get_attempt-update_attempt c.db j i fields, stays x.state)
]

stale-Watched :
    (c : RecoveryCoordinator) (r : AttemptRow) (reason : Reason) (now i : ℕ)
    → Apart c r.id i
    → Watched (mark_terminate_stale_failed c r reason now) i
stale-Watched c r reason now i h =
    let ended = finish_attempt c.db r.id failed now in
    let fields : AttemptFields = record no_attempt_fields {
      orphaned_at = some none;
      last_reconcile_at = some (some now);
    } in
    let rows = ap (find_row AttemptRow.id i) (
      finish_job-attempts (update_attempt ended r.id fields).0 r.job_id failed
        (stale_category reason) now) in
    elim (Option-cases (get_attempt c.db i)) [
      | inl e ↦ ground (
        arith,
        rows,
        get_attempt-update_attempt ended r.id i fields,
        get_attempt-finish_attempt c.db r.id i failed now,
      )
      | inr (x, e) ↦ ground (
        arith,
        rows,
        get_attempt-update_attempt ended r.id i fields,
        get_attempt-finish_attempt c.db r.id i failed now,
      )
    ]

pub disconnected-Watched :
    (c : RecoveryCoordinator) (r : AttemptRow) (now i : ℕ)
    → Watched c i
    → Watched (disconnected now r c) i
disconnected-Watched c r now i h =
    elim (Bool-cases (is_pre_start_disconnect r.state r.process_identity)) [
      | inl e ↦ rw e (mark-Watched c r failed agent_disconnected now i (λ q. h))
      | inr e ↦ rw e (
          written-Watched c r.id i
            (record no_attempt_fields { lease_deadline = some (some (extended_deadline now)) })
            (λ s o. o) h)
    ]

pub swept-Watched :
    (c : RecoveryCoordinator) (r : AttemptRow) (now i : ℕ) → Watched c i → Watched (swept now r c) i
swept-Watched c r now i h = elim (Option-cases (live_attempt c.db r.id)) [
  | inl e ↦ rw (e, swept) h
  | inr (x, e) ↦ rw (e, swept) (mark-Watched c x lost agent_disconnected now i (λ q. h))
]

pub each_row-Watched :
    (f : AttemptRow → RecoveryCoordinator → RecoveryCoordinator) (i : ℕ)
    → ((r : AttemptRow) (c : RecoveryCoordinator) → Watched c i → Watched (f r c) i)
    → (rs : List AttemptRow) (c : RecoveryCoordinator) → Watched c i
    → Watched (each_row f rs c) i
each_row-Watched f i keeps [] c h = h
each_row-Watched f i keeps (r ∷ rs) c h = each_row-Watched f i keeps rs (f r c) (keeps r c h)

-- Either the attempt is another one, or it is this one.
Apart-Watched :
    (c : RecoveryCoordinator) (j i : ℕ) → Apart c j i → (i ≡ j → Watched c j) → Watched c i
Apart-Watched c j i apart here = elim (Bool-cases (i == j)) [
  | inl e ↦ let at = (==_iff i j).0 e in subst (Watched c) (sym at) (here at)
  | inr e ↦ apart e
]

pub grace-Watched :
    (c : RecoveryCoordinator) (id now i : ℕ) → Watched c i → Watched (on_grace_elapsed c id now) i
unfolding on_grace_elapsed
grace-Watched c id now i h = elim (Option-cases (live_attempt c.db id)) [
  | inl e ↦ rw (e, on_grace_elapsed) h
  | inr (x, e) ↦
      rw (e, on_grace_elapsed)
        (ground (
          arith,
          get_attempt-update_attempt c.db id i (record no_attempt_fields {
            state = some AttemptState.orphaned;
            orphaned_at = some (some now);
          }),
        ))
]

pub orphan-Watched :
    (c : RecoveryCoordinator) (id now i : ℕ) → Apart c id i → Watched (on_orphan_timeout c id now) i
unfolding on_orphan_timeout
orphan-Watched c id now i h = elim (Option-cases (live_attempt c.db id)) [
  | inl e ↦
      rw (e, on_orphan_timeout)
        (Apart-Watched c id i h (λ at o. absurd (ground (arith, live-dead c.db id e))))
  | inr (x, e) ↦ elim (Bool-cases (is_orphaned x.state)) [
    | inl orphaned ↦
        rw (e, orphaned, on_orphan_timeout)
          (mark-Watched c x lost agent_disconnected now i
            (subst (λ k. Apart c k i) (sym (live-id c.db id x e)) h))
    | inr other ↦
        rw (e, other, on_orphan_timeout)
          (Apart-Watched c id i h (λ at o. absurd (ground (arith, live-found c.db id x e))))
  ]
]

pub reconcile-Watched :
    (c : RecoveryCoordinator) (id now i : ℕ)
    → Apart c id i
    → Watched (on_reconcile_deadline c id now) i
unfolding on_reconcile_deadline
reconcile-Watched c id now i h = elim (Option-cases (live_attempt c.db id)) [
  | inl e ↦
      rw (e, on_reconcile_deadline)
        (Apart-Watched c id i h (λ at o. absurd (ground (arith, live-dead c.db id e))))
  | inr (x, e) ↦
      rw (e, on_reconcile_deadline)
        (mark-Watched c x lost agent_disconnected now i
          (subst (λ k. Apart c k i) (sym (live-id c.db id x e)) h))
]

rearm-Watched :
    (c : RecoveryCoordinator) (id i : ℕ) → Apart c id i → Watched (rearm_orphan_watchdog c id) i
rearm-Watched c id i h = elim (Option-cases (live_attempt c.db id)) [
  | inl e ↦
      rw (e, rearm_orphan_watchdog)
        (Apart-Watched c id i h (λ at o. absurd (ground (arith, live-dead c.db id e))))
  | inr (x, e) ↦ elim (Bool-cases (is_orphaned x.state)) [
    | inl orphaned ↦
        rw (e, orphaned, rearm_orphan_watchdog)
          (Apart-Watched (record c { orphan_timers = arm_timer c.orphan_timers id }) id i
            (λ q o. ground (arith, h q)) (λ at o. ground arith))
    | inr other ↦
        rw (e, other, rearm_orphan_watchdog)
          (Apart-Watched c id i h (λ at o. absurd (ground (arith, live-found c.db id x e))))
  ]
]

-- The attempt is left in a state that is not orphaned.
written-Apart :
    (c : RecoveryCoordinator) (j i : ℕ) (fields : AttemptFields)
    → Apart c j i
    → Apart (written c j fields) j i
written-Apart c j i fields h q o = ground (arith, get_attempt-update_attempt c.db j i fields, h q)

deferred-Watched :
    (c : RecoveryCoordinator) (id now i : ℕ) → Apart c id i → Watched (deferred c id now) i
deferred-Watched c id now i h =
    let fields : AttemptFields = record no_attempt_fields { last_reconcile_at = some (some now) } in
    rearm-Watched (written c id fields) id i (written-Apart c id i fields h)

adopted-Watched :
    (c : RecoveryCoordinator) (id : ℕ) (p : RecoveryReport) (now i : ℕ)
    → Apart c id i
    → Watched (written c id (adopted_fields p now)) i
adopted-Watched c id p now i h = elim (Option-cases (get_attempt c.db i)) [
  | inl e ↦ ground (arith, get_attempt-update_attempt c.db id i (adopted_fields p now))
  | inr (x, e) ↦ elim (Bool-cases p.completed_awaiting_upload) [
    | inl q ↦ ground (arith, get_attempt-update_attempt c.db id i (adopted_fields p now))
    | inr q ↦ ground (arith, get_attempt-update_attempt c.db id i (adopted_fields p now))
  ]
]

decided-Watched :
    (c : RecoveryCoordinator) (p : RecoveryReport) (now : ℕ) (r : AttemptRow) (action : Action)
    (i : ℕ)
    → Apart c r.id i
    → Watched (decided c p now r action) i
decided-Watched c p now r (adopt from) i h = adopted-Watched c r.id p now i h
decided-Watched c p now r (terminate_stale agent_mismatch) i h = deferred-Watched c r.id now i h
decided-Watched c p now r (terminate_stale reason) i h = stale-Watched c r reason now i h

pub report-Watched :
    (c : RecoveryCoordinator) (agent : ℕ) (p : RecoveryReport) (now i : ℕ)
    → Watched c i
    → Watched (on_recovery_report c agent p now).0 i
unfolding on_recovery_report
report-Watched c agent p now i h =
    let id = p.attempt_id in
    let cleared = clear_all_timers_for c id in
    let apart : Apart cleared id i = λ q o. ground (arith, h o) in
    elim (Option-cases (live_attempt c.db id)) [
      | inl e ↦
          rw (e, on_recovery_report)
            (Apart-Watched cleared id i apart
              (λ at o. absurd (ground (arith, live-dead c.db id e))))
      | inr (x, e) ↦
          let apart' = subst (λ k. Apart cleared k i) (sym (live-id c.db id x e)) apart in
          elim (Bool-cases (is_none x.process_identity)) [
            | inl lacks ↦
                rw (e, lacks, on_recovery_report) (deferred-Watched cleared x.id now i apart')
            | inr has ↦
                rw (e, has, on_recovery_report)
                  (decided-Watched cleared p now x (decide agent (some x) p) i apart')
          ]
    ]
