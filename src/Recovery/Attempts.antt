-- ===== src/Recovery/Attempts.antt =====
-- apps/controller/src/recovery/coordinator.ts: the attempt that the coordinator reads after a write.
use remote_build_orchestrato.Common.{
  ℕ, ◌≡◌, ap, inl, inr, Bool, false, Option, none, some, arith, Option-cases, Bool-cases,
}
use remote_build_orchestrato.Common.Rows.{find_row, find_row-key}
use remote_build_orchestrato.Lifecycle.{Outcome, FailureCategory, AttemptRow, Database, get_attempt}
use remote_build_orchestrato.RemoteAttempt.{finish_attempt}
pub use remote_build_orchestrato.RemoteAttempt.Attempts.{
  get_attempt-update_attempt, get_attempt-finish_attempt,
}
use remote_build_orchestrato.RemoteAttempt.Final.{finish_job-attempts}
use remote_build_orchestrato.Recovery.{
  RecoveryCoordinator, mark, is_completed, is_orphaned, live_attempt,
}

abbrev pub orphaned_row : Option AttemptRow → Bool
orphaned_row none = false
orphaned_row (some r) = is_orphaned r.state

pub get_attempt-mark :
    (c : RecoveryCoordinator) (r : AttemptRow) (outcome : Outcome) (category : FailureCategory)
    (now i : ℕ)
    → get_attempt (mark c r outcome category now).db i
      ≡ get_attempt (finish_attempt c.db r.id outcome now) i
get_attempt-mark c r outcome category now i =
    ap (find_row AttemptRow.id i)
      (finish_job-attempts (finish_attempt c.db r.id outcome now) r.job_id outcome category now)

pub live-dead :
    (db : Database) (id : ℕ) → live_attempt db id ≡ none → orphaned_row (get_attempt db id) ≡ false
live-dead db id e = elim (Option-cases (get_attempt db id)) [
  | inl q ↦ ground arith
  | inr (x, q) ↦ ground arith
]

pub live-found :
    (db : Database) (id : ℕ) (r : AttemptRow)
    → live_attempt db id ≡ some r
    → get_attempt db id ≡ some r
live-found db id r e = elim (Option-cases (get_attempt db id)) [
  | inl q ↦ absurd (ground arith)
  | inr (x, q) ↦ elim (Bool-cases (is_completed x.state)) [
    | inl done ↦ absurd (ground arith)
    | inr live ↦ ground arith
  ]
]

pub live-id : (db : Database) (id : ℕ) (r : AttemptRow) → live_attempt db id ≡ some r → r.id ≡ id
live-id db id r e = find_row-key AttemptRow.id id db.attempts r (live-found db id r e)
