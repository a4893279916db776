-- ===== src/Recovery/Reconciled.antt =====
-- apps/controller/src/recovery/coordinator.ts and execution/remote-execution.ts: the coordinator and
-- the handlers of frames write the same database, in any order.
use remote_build_orchestrato.Common.{ℕ, List, [], ◌∷◌}
use remote_build_orchestrato.Recovery.{RecoveryCoordinator}
use remote_build_orchestrato.Recovery.Reports.{Call, call}
use remote_build_orchestrato.RemoteAttempt.Frames.{Frame, step}
use remote_build_orchestrato.RemoteAttempt.Forever.{step-Done}
use remote_build_orchestrato.RemoteAttempt.Final.{Done}
use remote_build_orchestrato.Recovery.Completed.{call-Done}

pub data Event : Type 0 where
  of_frame : Frame → Event
  of_call : Call → Event

abbrev pub act : RecoveryCoordinator → Event → ℕ → RecoveryCoordinator
act c (of_frame frame) now = record c { db = step c.db frame now }
act c (of_call x) now = call c x now

abbrev pub acts : RecoveryCoordinator → List (Event × ℕ) → RecoveryCoordinator
acts c [] = c
acts c ((e, now) ∷ es) = acts (act c e now) es

-- Whatever frames the Agents send, whatever preparations, offers and sweeps of overdue leases come
-- in between, and whichever calls and timers of the recovery: an attempt that is there and completed
-- is there and completed ever after.
pub acts-Done :
    (c : RecoveryCoordinator) (es : List (Event × ℕ)) (i : ℕ)
    → Done i c.db.attempts
    → Done i (acts c es).db.attempts
acts-Done c [] i h = h
acts-Done c ((of_frame frame, now) ∷ es) i h =
    acts-Done (act c (of_frame frame) now) es i (step-Done c.db frame now i h)
acts-Done c ((of_call x, now) ∷ es) i h =
    acts-Done (act c (of_call x) now) es i (call-Done c x now i h)
