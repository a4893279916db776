-- ===== src/RemoteAttempt/Outcomes.antt =====
-- apps/controller/src/execution/remote-execution.ts: the outcome that job_exit reports is the one the
-- attempt ends with.
use remote_build_orchestrato.Common.{Option, none, some}
use remote_build_orchestrato.Lifecycle.{AttemptState, Outcome, AttemptRow}

-- The state and the outcome of an attempt that is there.
abbrev pub ending : Option AttemptRow → Option (AttemptState × Option Outcome)
ending none = none
ending (some r) = some (r.state, r.outcome)

abbrev column_outcome : Option AttemptRow → Option (Option Outcome)
column_outcome none = none
column_outcome (some r) = some r.outcome
