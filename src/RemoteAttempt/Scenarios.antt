-- ===== src/RemoteAttempt/Scenarios.antt =====
-- A process that was cancelled and whose cleanup then ended with exit code 0.
use remote_build_orchestrato.Common.{false, some, [], ◌∷◌}
use remote_build_orchestrato.Lifecycle.{AttemptState, AttemptRow, Database, cancelled}
use remote_build_orchestrato.Lifecycle.Writes.{fresh_attempt}
use remote_build_orchestrato.RemoteAttempt.{Lease}
use remote_build_orchestrato.RemoteAttempt.Finish.{CleanupPayload}

abbrev running_attempt : AttemptRow
running_attempt = record (fresh_attempt 4 1 1 50 3) {
  agent_id = some 7;
  lease_deadline = some 1000;
  state = AttemptState.running;
}

abbrev database : Database
database = record {
  jobs = [];
  attempts = running_attempt ∷ [];
  events = [];
  notified = [];
  raw_transaction = false;
}

abbrev lease : Lease
lease = record { attempt_id = 4; lease_id = 50; lease_epoch = 3 }

abbrev exited_attempt : AttemptRow
exited_attempt = record running_attempt {
  state = AttemptState.collecting_artifacts;
  outcome = some cancelled;
}

abbrev cleanup : CleanupPayload
cleanup = record { timed_out = false; exit_code = some 0 }
