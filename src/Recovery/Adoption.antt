-- ===== src/Recovery/Adoption.antt =====
-- apps/controller/src/recovery/coordinator.ts: which report an attempt is adopted by.
use remote_build_orchestrato.Common.{
  ℕ, ◌≡◌, refl, ap, inl, inr, true, false, none, some, ◌==◌, arith, Option-cases, Bool-cases,
  ==_iff,
}
use remote_build_orchestrato.Common.Rows.{find_row}
use remote_build_orchestrato.Lifecycle.{
  AttemptState, AttemptRow, AttemptFields, get_attempt, no_attempt_fields, failed,
}
use remote_build_orchestrato.Lifecycle.Writes.{update_attempt, set_attempt}
use remote_build_orchestrato.RemoteAttempt.Outcomes.{ending}
use remote_build_orchestrato.RemoteAttempt.{finish_attempt}
use remote_build_orchestrato.RemoteAttempt.Final.{finish_job-attempts}
use remote_build_orchestrato.Recovery.{
  RecoveryCoordinator, live_attempt, clear_all_timers_for, is_none,
}
use remote_build_orchestrato.Recovery.Reports.{
  is_some_of, RecoveryReport, Action, adopt, terminate_stale, Reason, newer_epoch, lease_mismatch,
  process_identity_mismatch, decide, decided, on_recovery_report, adopted_fields, stale_category,
  mark_terminate_stale_failed,
}
use remote_build_orchestrato.Recovery.Attempts.{
  get_attempt-update_attempt, get_attempt-finish_attempt, live-found, live-id,
}

-- The row is the one that the Agent's report speaks of: its owner, its lease and its process.
pub record Fenced (agent : ℕ) (p : RecoveryReport) (r : AttemptRow) : Type 0 where
  pub owner : is_some_of agent r.agent_id ≡ true
  pub epoch : r.lease_epoch ≡ p.lease_epoch
  pub lease : r.lease_id ≡ p.lease_id
  pub process : is_some_of p.process_identity r.process_identity ≡ true

decide-Fenced :
    (agent from : ℕ) (r : AttemptRow) (p : RecoveryReport)
    → decide agent (some r) p ≡ adopt from
    → Fenced agent p r × (from ≡ r.log_acked_sequence)
unfolding decide
decide-Fenced agent from r p e = elim (Bool-cases (is_some_of agent r.agent_id)) [
  | inr q ↦ absurd (ground (arith))
  | inl owner ↦ elim (Bool-cases (r.lease_epoch == p.lease_epoch)) [
    | inr q ↦ absurd (ground (arith))
    | inl epoch ↦ elim (Bool-cases (r.lease_id == p.lease_id)) [
      | inr q ↦ absurd (ground (arith))
      | inl lease ↦ elim (Bool-cases (is_some_of p.process_identity r.process_identity)) [
        | inr q ↦ absurd (ground (arith))
        | inl process ↦ (
          record {
            owner = owner;
            epoch = (==_iff r.lease_epoch p.lease_epoch).0 epoch;
            lease = (==_iff r.lease_id p.lease_id).0 lease;
            process = process;
          },
          ground arith,
        )
      ]
    ]
  ]
]

-- A report is answered by an adoption only if its attempt is there, not completed, and fenced for
-- the report; the log then goes on after the last acknowledged chunk, and the attempt runs again or
-- collects its artifacts, with no orphan mark.
pub adopt-Fenced :
    (c : RecoveryCoordinator) (agent : ℕ) (p : RecoveryReport) (now from : ℕ)
    → (on_recovery_report c agent p now).1 ≡ adopt from
    → (r : AttemptRow) × (live_attempt c.db p.attempt_id ≡ some r)
      × Fenced agent p r
      × (from ≡ r.log_acked_sequence)
      × (get_attempt (on_recovery_report c agent p now).0.db p.attempt_id
          ≡ some (set_attempt (adopted_fields p now) r))
unfolding on_recovery_report decide
adopt-Fenced c agent p now from h = elim (Option-cases (live_attempt c.db p.attempt_id)) [
  | inl e ↦ absurd (ground arith)
  | inr (r, e) ↦ elim (Bool-cases (is_none r.process_identity)) [
    | inl q ↦ absurd (ground arith)
    | inr q ↦
        let decided_so : decide agent (some r) p ≡ adopt from = ground arith in
        let (fenced, same) = decide-Fenced agent from r p decided_so in
        let found = live-found c.db p.attempt_id r e in
        let at = live-id c.db p.attempt_id r e in
        (
          r,
          e,
          fenced,
          same,
          rw (e, q, decided_so, at, on_recovery_report)
              (ground (
                arith,
                get_attempt-update_attempt c.db p.attempt_id p.attempt_id (adopted_fields p now),
              )),
        )
  ]
]

abbrev Refuses : AttemptRow → RecoveryReport → Action → Reason → Type 0
Refuses r p action reason =
    (action ≡ terminate_stale reason)
    × ((c : RecoveryCoordinator) (now : ℕ)
        → decided c p now r (terminate_stale reason) ≡ mark_terminate_stale_failed c r reason now)

decide-Refuses :
    (agent : ℕ) (r : AttemptRow) (p : RecoveryReport)
    → is_some_of agent r.agent_id ≡ true
    → (Fenced agent p r → ⊥)
    → (reason : Reason) × Refuses r p (decide agent (some r) p) reason
unfolding decide
decide-Refuses agent r p owner unfenced = elim (Bool-cases (r.lease_epoch == p.lease_epoch)) [
  | inr q ↦ (newer_epoch, (ground arith, λ c now. refl))
  | inl epoch ↦ elim (Bool-cases (r.lease_id == p.lease_id)) [
    | inr q ↦ (lease_mismatch, (ground arith, λ c now. refl))
    | inl lease ↦ elim (Bool-cases (is_some_of p.process_identity r.process_identity)) [
      | inr q ↦ (process_identity_mismatch, (ground arith, λ c now. refl))
      | inl process ↦ absurd (
          unfenced (record {
            owner = owner;
            epoch = (==_iff r.lease_epoch p.lease_epoch).0 epoch;
            lease = (==_iff r.lease_id p.lease_id).0 lease;
            process = process;
          }))
    ]
  ]
]

stale-ending :
    (c : RecoveryCoordinator) (r x : AttemptRow) (reason : Reason) (now i : ℕ)
    → r.id ≡ i
    → get_attempt c.db i ≡ some x
    → let after = mark_terminate_stale_failed c r reason now in
      (ending (get_attempt after.db i) ≡ some (AttemptState.completed, some failed))
      × (after.grace_timers i ≡ false)
      × (after.orphan_timers i ≡ false)
      × (after.reconcile_timers i ≡ false)
stale-ending c r x reason now i at e =
    let ended = finish_attempt c.db r.id failed now in
    let fields : AttemptFields = record no_attempt_fields {
      orphaned_at = some none;
      last_reconcile_at = some (some now);
    } in
    let rows = ap (find_row AttemptRow.id i) (
      finish_job-attempts (update_attempt ended r.id fields).0 r.job_id failed
        (stale_category reason) now) in
    (
      ground (
        arith,
        rows,
        get_attempt-update_attempt ended r.id i fields,
        get_attempt-finish_attempt c.db r.id i failed now,
      ),
      ground arith,
      ground arith,
      ground arith,
    )

-- A report from the owner about an attempt that is not completed and whose process is known, but
-- under another epoch, another lease or for another process: it is refused, and the attempt is
-- completed as failed with none of its timers armed.
unfenced_report_fails :
    (c : RecoveryCoordinator) (r : AttemptRow) (agent : ℕ) (p : RecoveryReport) (now : ℕ)
    → live_attempt c.db p.attempt_id ≡ some r
    → is_none r.process_identity ≡ false
    → is_some_of agent r.agent_id ≡ true
    → (Fenced agent p r → ⊥)
    → let (after, action) = on_recovery_report c agent p now in
      let id = p.attempt_id in
      (ending (get_attempt after.db id) ≡ some (AttemptState.completed, some failed))
      × (after.grace_timers id ≡ false)
      × (after.orphan_timers id ≡ false)
      × (after.reconcile_timers id ≡ false)
unfolding on_recovery_report
unfenced_report_fails c r agent p now e has owner unfenced =
    let id = p.attempt_id in
    let cleared = clear_all_timers_for c id in
    let (reason, refuses) = decide-Refuses agent r p owner unfenced in
    let at = live-id c.db id r e in
    let state : (on_recovery_report c agent p now).0
        ≡ mark_terminate_stale_failed cleared r reason now =
      rw (e, has, refuses.0, on_recovery_report) (refuses.1 cleared now) in
    rw state (stale-ending cleared r r reason now id at (live-found c.db id r e))
