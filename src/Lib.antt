-- ===== src/Lib.antt =====
-- The Remote Build Orchestrator (RBO): a Controller on the user's machine captures a snapshot of a
-- checkout, chooses a paired Agent for each job, leases the job to it, and serves the job's logs.
--
-- The parts modelled here, and where they stand in the repository:
--
-- - Common: shared types and lemmas (Tests, Lists, Int, Text, Sort, Outcome, Rows). No code of its own.
-- - Submission and CaptureLease: apps/controller/src/jobs/submissions.ts and capture-lease.ts, the
--   idempotency reservation of a job and the fenced lease of its capture. A table with the primary
--   key (client_id, client_request_id) is a function from keys. One function stands for each
--   exported one; `step` and `run` sequence them.
-- - Fraction and HostLoad: packages/shared/src/host-load.ts. Floating-point fractions are exact.
-- - BuildCacheKey: packages/shared/src/build-cache-key.ts over a digest that is a parameter.
-- - Scheduler: apps/controller/src/scheduler/index.ts. Request holds what it reads of a request and
--   of an Agent's report; Version, Matching, CacheKeys, Score, Fallback and Diagnostic its helpers;
--   Select the choice itself (selectAgentForJob). Its two database queries are not modelled.
-- - LiveLogHub: apps/controller/src/logs/live-log-hub.ts, with one function for each operation of a
--   subscription; Delivery takes one subscriber through any interleaving, Invariant the whole hub.
-- - SpoolSender: apps/agent/src/logs/spool-sender.ts, over a wire whose answers are a parameter;
--   Coverage and Order sequence its calls with the replays under way, Flow says when they send.
-- - Credential and Pairing: apps/controller/src/security/credentials.ts and pairing.ts. A credential
--   is the claims that are signed; the check of their expiry is the one of
--   packages/shared/src/crypto.ts. Settled sequences the calls on the table of pairing requests.
-- - Lifecycle: apps/controller/src/jobs/lifecycle.ts, the rows of jobs, attempts and events. Writes
--   holds the operations, Epochs and Events what they keep. Notifier and Wakeups are the wake-ups of
--   apps/controller/src/jobs/lifecycle-notifier.ts.
-- - RemoteLog: the part of apps/controller/src/execution/remote-execution.ts that takes the chunks
--   which the spool sender sends, handleRemoteLogChunk behind the lease of the attempt, with the
--   index of packages/executor/src/logs.ts. A log is the chunks of its index; a write may fail before
--   or after the index line, which is appended whole. Contiguous and Stuck relate the log to the
--   cursor, Acknowledged and Replay to what the Agent sends.
-- - RemoteAttempt: the handlers of the same file that take an attempt from its offer (Prepare)
--   to its end (Finish), on the rows of Lifecycle. Frames lists what moves an attempt; Final,
--   Handlers and Forever follow a completed one, Outcomes one whose process exits. The wait for
--   a source to be prepared is left out: its failure is a step of its own, at any later time. A
--   cleanup is taken after its chunks; an empty message of a failed one is left out.
-- - Recovery: the RecoveryCoordinator of apps/controller/src/recovery/coordinator.ts, on the same
--   rows. Reports holds the decision on a recovery_report; Watch, Fates, Adoption and Reconciled
--   follow an attempt through the timers, the connections, the reports and the other frames.
-- - LogCursor: the packed cursor of apps/controller/src/mcp/log-pagination.ts.
-- - WindowsFrames: packages/executor/src/windows-frames.ts, the frames of the Windows helper.
-- - Redactor: apps/agent/src/executor/redactor.ts, the removal of secrets from a stream.
-- - GitStatus: packages/snapshot/src/git-status.ts, the readers of git's NUL-separated output and the
--   choice of a remote. Format holds the lines that git documents, RoundTrip the reading of them,
--   Misread the lines that are not read back, Remotes the order of the remotes.
-- - LogPresentation: packages/executor/src/log-presentation.ts, the pages and tails of logs without
--   control sequences. Loop is presentLogChunks, Tail presentLogTail. Clean describes byte by byte
--   what should be shown; Kept, Pages and Reads relate the budgeted pages to it, Ends says where a
--   page ends, Safe and Tail what is never shown. The decoder of UTF-8 is a parameter. Pages are
--   compared for logs whose chunks have three bytes or more, the last one aside. The removal of
--   repeated lines is not modelled.
-- - AgentRecovery: the AgentRecoveryCoordinator of apps/agent/src/recovery/coordinator.ts, with the
--   files of attempt-metadata.ts as rows; Coordinator holds its reports and decisions. Gone and
--   Calls follow an attempt that was rejected, Reconnect joins a report with the decision of
--   Recovery. DiskPressure is disk-pressure.ts beside it, and its Order what is deleted and in which
--   order.
-- - Paths: the lexical checks of packages/shared/src/paths.ts.
--
-- Loops are structural recursion on the list they walk, but for three. read_frames of WindowsFrames
-- and parse_lines of GitStatus take the length of their bytes as fuel, of which every round takes
-- one at least; rounds of LogPresentation takes two for each byte and one for each chunk, since the
-- byte after an unknown ESC is read twice. Identifiers that the code only stores and compares are
-- numbers, as are instants (in milliseconds). Files, sockets, processes, SQL and the validation of
-- messages are not modelled.
pub mod Common
pub mod Fraction
pub mod LiveLogHub
pub mod SpoolSender
pub mod Credential
pub mod Pairing
pub mod RemoteLog
pub mod Recovery
pub mod Paths
pub mod Redactor
pub mod GitStatus
pub mod LogPresentation
pub mod AgentRecovery
pub mod WindowsFrames
pub mod LogCursor
pub mod Lifecycle
pub mod RemoteAttempt
pub mod HostLoad
pub mod BuildCacheKey
pub mod Scheduler
pub mod Submission
pub mod CaptureLease
