-- ===== src/Recovery.antt =====
-- apps/controller/src/recovery/coordinator.ts: the RecoveryCoordinator. The state is the database and
-- the three maps of timers, each as the set of the attempts that have one armed; a timer that fires
-- is a step of its own, taken only while it is armed. The agents' own table and the logs are left
-- out, and a decision is returned, not sent.
pub mod Reports
pub mod Attempts
pub mod Watched
pub mod Watch
pub mod Fates
pub mod Adoption
pub mod Completed
pub mod Reconciled
mod Scenarios
use remote_build_orchestrato.Common.{
  ℕ, ◌+◌, ◌*◌, Bool, true, false, not, ◌&&◌, ◌||◌, Option, none, some, List, [], ◌∷◌, leb, ◌==◌,
  if◌then◌else◌,
}
use remote_build_orchestrato.Common.Text.{keep}
use remote_build_orchestrato.Lifecycle.{
  AttemptState, Outcome, FailureCategory, AttemptRow, Database, get_attempt, no_attempt_fields,
  failed, lost, agent_disconnected,
}
use remote_build_orchestrato.Lifecycle.Writes.{update_attempt}
use remote_build_orchestrato.RemoteAttempt.{finish_attempt, finish_job}
use remote_build_orchestrato.RemoteAttempt.Finish.{each_row}

abbrev disconnect_grace_seconds : ℕ
disconnect_grace_seconds = 60

abbrev orphan_timeout_seconds : ℕ
orphan_timeout_seconds = 300

abbrev pub Timers : Type 0
Timers = ℕ → Bool

abbrev pub clear_timer : Timers → ℕ → Timers
clear_timer timers id k = not (k == id) && timers k

abbrev pub arm_timer : Timers → ℕ → Timers
arm_timer timers id k = k == id || timers k

pub record RecoveryCoordinator : Type 0 where
  pub db : Database
  pub grace_timers : Timers
  pub orphan_timers : Timers
  pub reconcile_timers : Timers

abbrev pub is_completed : AttemptState → Bool
is_completed s = elim s [ AttemptState.completed ↦ true | _ ↦ false ]

abbrev pub is_orphaned : AttemptState → Bool
is_orphaned s = elim s [ AttemptState.orphaned ↦ true | _ ↦ false ]

abbrev if_live : Option AttemptRow → Option AttemptRow
if_live none = none
if_live (some r) = if is_completed r.state then none else some r

-- The attempt, unless it is missing or completed.
abbrev pub live_attempt : Database → ℕ → Option AttemptRow
live_attempt db id = if_live (get_attempt db id)

abbrev pub clear_all_timers_for : RecoveryCoordinator → ℕ → RecoveryCoordinator
clear_all_timers_for c id = record c {
  grace_timers = clear_timer c.grace_timers id;
  orphan_timers = clear_timer c.orphan_timers id;
  reconcile_timers = clear_timer c.reconcile_timers id;
}

-- The attempt and its job end with an outcome, and no timer of the attempt stays.
abbrev pub mark :
    RecoveryCoordinator → AttemptRow → Outcome → FailureCategory → ℕ → RecoveryCoordinator
mark c r outcome category now = record (clear_all_timers_for c r.id) {
  db = finish_job (finish_attempt c.db r.id outcome now) r.job_id outcome category now;
}

abbrev pub mark_lost : RecoveryCoordinator → AttemptRow → ℕ → RecoveryCoordinator
mark_lost c r now = mark c r lost agent_disconnected now

abbrev mark_pre_start_lost : RecoveryCoordinator → AttemptRow → ℕ → RecoveryCoordinator
mark_pre_start_lost c r now = mark c r failed agent_disconnected now

abbrev pub in_flight : AttemptRow → Bool
in_flight r = not (is_completed r.state)

abbrev pub in_flight_of : ℕ → AttemptRow → Bool
in_flight_of agent r = elim r.agent_id [ none ↦ false | some a ↦ a == agent ] && in_flight r

abbrev pub arm_reconcile_deadline : AttemptRow → RecoveryCoordinator → RecoveryCoordinator
arm_reconcile_deadline r c = record c { reconcile_timers = arm_timer c.reconcile_timers r.id }

unfoldable pub on_controller_startup : RecoveryCoordinator → RecoveryCoordinator
on_controller_startup c = each_row arm_reconcile_deadline (keep in_flight c.db.attempts) c

abbrev pre_start_state : AttemptState → Bool
pre_start_state s = elim s [
  | AttemptState.leasing ↦ true
  | AttemptState.preparing_source ↦ true
  | AttemptState.transferring_source ↦ true
  | AttemptState.materializing ↦ true
  | AttemptState.starting ↦ true
  | _ ↦ false
]

abbrev post_start_state : AttemptState → Bool
post_start_state s = elim s [
  | AttemptState.running ↦ true
  | AttemptState.collecting_artifacts ↦ true
  | AttemptState.orphaned ↦ true
  | _ ↦ false
]

abbrev pub is_none {ℓ} : {A : Type ℓ} → Option A → Bool
is_none none = true
is_none (some a) = false

abbrev pub is_pre_start_disconnect : AttemptState → Option ℕ → Bool
is_pre_start_disconnect s identity =
    not (post_start_state s) && (is_none identity && pre_start_state s)

-- The lease is extended past the two waits, so that its expiry does not overtake them.
abbrev pub extended_deadline : ℕ → ℕ
extended_deadline now = now + (disconnect_grace_seconds + orphan_timeout_seconds + 30) * 1000

abbrev pub disconnected : ℕ → AttemptRow → RecoveryCoordinator → RecoveryCoordinator
disconnected now r c =
    if is_pre_start_disconnect r.state r.process_identity
    then mark_pre_start_lost c r now
    else record c {
      db =
          (update_attempt c.db r.id
            (record no_attempt_fields { lease_deadline = some (some (extended_deadline now)) })).0;
      grace_timers = arm_timer c.grace_timers r.id;
    }

unfoldable pub on_agent_disconnect : RecoveryCoordinator → ℕ → ℕ → RecoveryCoordinator
on_agent_disconnect c agent now =
    each_row (disconnected now) (keep (in_flight_of agent) c.db.attempts) c

abbrev pub swept : ℕ → AttemptRow → RecoveryCoordinator → RecoveryCoordinator
swept now r c = elim (live_attempt c.db r.id) [ none ↦ c | some live ↦ mark_lost c live now ]

abbrev same_boot : ℕ → Option ℕ → Bool
same_boot boot none = false
same_boot boot (some last) = last == boot

-- `boot_id` is what the Agent reports, if it reports one, and `last_boot_id` the one it had before.
unfoldable pub on_agent_connect :
    RecoveryCoordinator → ℕ → Option ℕ → Option ℕ → ℕ → RecoveryCoordinator
on_agent_connect c agent none last_boot_id now = c
on_agent_connect c agent (some boot_id) last_boot_id now =
    if same_boot boot_id last_boot_id
    then c
    else each_row (swept now) (keep (in_flight_of agent) c.db.attempts) c

unfoldable pub on_grace_elapsed : RecoveryCoordinator → ℕ → ℕ → RecoveryCoordinator
on_grace_elapsed c id now = elim (live_attempt c.db id) [
  | none ↦ c
  | some r ↦ record c {
    db =
        (update_attempt c.db id (record no_attempt_fields {
          state = some AttemptState.orphaned;
          orphaned_at = some (some now);
        })).0;
    orphan_timers = arm_timer c.orphan_timers id;
  }
]

unfoldable pub on_orphan_timeout : RecoveryCoordinator → ℕ → ℕ → RecoveryCoordinator
on_orphan_timeout c id now = elim (live_attempt c.db id) [
  | none ↦ c
  | some r ↦ if is_orphaned r.state then mark_lost c r now else c
]

unfoldable pub on_reconcile_deadline : RecoveryCoordinator → ℕ → ℕ → RecoveryCoordinator
on_reconcile_deadline c id now = elim (live_attempt c.db id) [
  | none ↦ c
  | some r ↦ mark_lost c r now
]

-- A timer fires: it is deleted, and its call is made. One that is not armed does not fire.
abbrev pub grace_fires : RecoveryCoordinator → ℕ → ℕ → RecoveryCoordinator
grace_fires c id now =
    if c.grace_timers id
    then on_grace_elapsed (record c { grace_timers = clear_timer c.grace_timers id }) id now
    else c

abbrev pub orphan_fires : RecoveryCoordinator → ℕ → ℕ → RecoveryCoordinator
orphan_fires c id now =
    if c.orphan_timers id
    then on_orphan_timeout (record c { orphan_timers = clear_timer c.orphan_timers id }) id now
    else c

abbrev pub reconcile_fires : RecoveryCoordinator → ℕ → ℕ → RecoveryCoordinator
reconcile_fires c id now =
    if c.reconcile_timers id
    then on_reconcile_deadline (record c { reconcile_timers = clear_timer c.reconcile_timers id })
        id now
    else c

abbrev pub dispose : RecoveryCoordinator → RecoveryCoordinator
dispose c = record c {
  grace_timers = λ k. false;
  orphan_timers = λ k. false;
  reconcile_timers = λ k. false;
}
