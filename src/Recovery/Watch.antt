-- ===== src/Recovery/Watch.antt =====
-- apps/controller/src/recovery/coordinator.ts: an orphaned attempt is watched by a timer.
use remote_build_orchestrato.Common.{
  ℕ, ◌≡◌, refl, subst, inl, inr, true, false, ◌||◌, none, some, List, [], ◌∷◌, ◌==◌, arith,
  Bool-cases,
}
use remote_build_orchestrato.Common.Text.{keep}
use remote_build_orchestrato.Common.Rows.{has_row, find_row}
use remote_build_orchestrato.Lifecycle.{AttemptState, AttemptRow, Database, get_attempt}
use remote_build_orchestrato.RemoteAttempt.Finish.{each_row}
use remote_build_orchestrato.Recovery.{
  RecoveryCoordinator, is_completed, is_orphaned, disconnected, swept, in_flight, in_flight_of,
  on_controller_startup, on_agent_disconnect, on_agent_connect, same_boot, clear_timer,
  arm_reconcile_deadline,
}
use remote_build_orchestrato.Recovery.Reports.{
  Call, call, startup, disconnect, connect, grace_elapsed, orphan_timeout, reconcile_deadline,
  recovery_report,
}
use remote_build_orchestrato.Recovery.Attempts.{orphaned_row}
use remote_build_orchestrato.Recovery.Watched.{
  Watched, disconnected-Watched, swept-Watched, each_row-Watched, grace-Watched, orphan-Watched,
  reconcile-Watched, report-Watched,
}

-- The deadlines armed are those of the rows, besides those that were.
arms :
    (id : ℕ) (rs : List AttemptRow) (c : RecoveryCoordinator)
    → (each_row arm_reconcile_deadline rs c).reconcile_timers id
      ≡ (has_row AttemptRow.id id rs || c.reconcile_timers id)
arms id [] c = refl
arms id (r ∷ rs) c = ground (arith, arms id rs (arm_reconcile_deadline r c))

arms-db :
    (rs : List AttemptRow) (c : RecoveryCoordinator)
    → (each_row arm_reconcile_deadline rs c).db ≡ c.db
arms-db [] c = refl
arms-db (r ∷ rs) c = arms-db rs (arm_reconcile_deadline r c)

orphaned-live : (s : AttemptState) → is_orphaned s ≡ true → is_completed s ≡ false
orphaned-live AttemptState.completed o = absurd (ground arith)
orphaned-live _ o = refl

orphaned-kept :
    (id : ℕ) (rs : List AttemptRow)
    → orphaned_row (find_row AttemptRow.id id rs) ≡ true
    → has_row AttemptRow.id id (keep in_flight rs) ≡ true
orphaned-kept id [] o = absurd (ground arith)
orphaned-kept id (r ∷ rs) o = elim (Bool-cases (r.id == id)) [
  | inl e ↦ elim (Bool-cases (is_completed r.state)) [
    | inl q ↦ ground (arith, orphaned-live r.state)
    | inr q ↦ ground arith
  ]
  | inr e ↦ elim (Bool-cases (is_completed r.state)) [
    | inl q ↦ ground (arith, orphaned-kept id rs)
    | inr q ↦ ground (arith, orphaned-kept id rs)
  ]
]

-- A coordinator that has just been made.
abbrev pub new_coordinator : Database → RecoveryCoordinator
new_coordinator db = record {
  db = db;
  grace_timers = λ k. false;
  orphan_timers = λ k. false;
  reconcile_timers = λ k. false;
}

abbrev pub calls : RecoveryCoordinator → List (Call × ℕ) → RecoveryCoordinator
calls c [] = c
calls c ((x, now) ∷ xs) = calls (call c x now) xs

startup-Watched : (c : RecoveryCoordinator) (i : ℕ) → Watched (on_controller_startup c) i
unfolding on_controller_startup
startup-Watched c i o =
    let rs = keep in_flight c.db.attempts in
    let there =
      orphaned-kept i c.db.attempts
        (subst (λ d. orphaned_row (get_attempt d i) ≡ true) (arms-db rs c) o) in
    ground (arith, arms i rs c)

call-Watched :
    (c : RecoveryCoordinator) (x : Call) (now i : ℕ) → Watched c i → Watched (call c x now) i
unfolding on_agent_disconnect on_agent_connect
call-Watched c startup now i h = startup-Watched c i
call-Watched c (disconnect agent) now i h =
    each_row-Watched (disconnected now) i (λ r d. disconnected-Watched d r now i)
      (keep (in_flight_of agent) c.db.attempts) c h
call-Watched c (connect agent none last) now i h = h
call-Watched c (connect agent (some boot) last) now i h = elim (Bool-cases (same_boot boot last)) [
  | inl e ↦ rw (e, on_agent_connect) h
  | inr e ↦
      rw (e, on_agent_connect)
        (each_row-Watched (swept now) i (λ r d. swept-Watched d r now i)
          (keep (in_flight_of agent) c.db.attempts) c h)
]
call-Watched c (grace_elapsed id) now i h = elim (Bool-cases (c.grace_timers id)) [
  | inl e ↦
      rw e (grace-Watched (record c { grace_timers = clear_timer c.grace_timers id }) id now i h)
  | inr e ↦ rw e h
]
call-Watched c (orphan_timeout id) now i h = elim (Bool-cases (c.orphan_timers id)) [
  | inl e ↦ rw e (
      orphan-Watched (record c { orphan_timers = clear_timer c.orphan_timers id }) id now i
        (λ q o. ground (arith, h o)))
  | inr e ↦ rw e h
]
call-Watched c (reconcile_deadline id) now i h = elim (Bool-cases (c.reconcile_timers id)) [
  | inl e ↦ rw e (
      reconcile-Watched (record c { reconcile_timers = clear_timer c.reconcile_timers id }) id now i
        (λ q o. ground (arith, h o)))
  | inr e ↦ rw e h
]
call-Watched c (recovery_report agent p) now i h = report-Watched c agent p now i h

-- From the start of the Controller on, with whatever rows the database had, and whatever Agents
-- connect, leave and report and whichever armed timers fire: an attempt that is orphaned has its
-- orphan timer or its reconcile timer armed.
pub calls-Watched :
    (db : Database) (xs : List (Call × ℕ)) (i : ℕ)
    → Watched (calls (on_controller_startup (new_coordinator db)) xs) i
calls-Watched db xs i =
    go (on_controller_startup (new_coordinator db)) xs (startup-Watched (new_coordinator db) i)
  where
    go : (c : RecoveryCoordinator) (xs : List (Call × ℕ)) → Watched c i → Watched (calls c xs) i
    go c [] h = h
    go c ((x, now) ∷ xs) h = go (call c x now) xs (call-Watched c x now i h)
