-- ===== src/RemoteAttempt/Forever.antt =====
-- apps/controller/src/execution/remote-execution.ts: the handlers over any sequence of frames.
use remote_build_orchestrato.Common.{ℕ}
use remote_build_orchestrato.Lifecycle.{Database}
use remote_build_orchestrato.RemoteAttempt.Final.{Done}
use remote_build_orchestrato.RemoteAttempt.Handlers.{
  fail_attempt_prepare-Done, initiate-Done, accept-Done, source_ready-Done, reject-Done,
  started-Done, exit-Done, cleanup-Done, expire-Done,
}
use remote_build_orchestrato.RemoteAttempt.Frames.{
  Frame, initiate, lease_accept, lease_reject, prepare_failed, source_ready, job_started, job_exit,
  cleanup_complete, expire, step,
}

-- No handler, preparation or sweep takes a completed attempt to another state.
pub step-Done :
    (db : Database) (frame : Frame) (now i : ℕ)
    → Done i db.attempts
    → Done i (step db frame now).attempts
step-Done db (initiate job agent ready id lease) now i =
    initiate-Done db job agent ready id lease now i
step-Done db (lease_accept agent lease ready) now i = accept-Done db agent lease ready now i
step-Done db (lease_reject agent lease policy) now i = reject-Done db agent lease policy now i
step-Done db (prepare_failed id job category) now i =
    fail_attempt_prepare-Done db id job i category now
step-Done db (source_ready agent lease) now i = source_ready-Done db agent lease now i
step-Done db (job_started agent lease identity type) now i =
    started-Done db agent lease identity type now i
step-Done db (job_exit agent lease outcome code category) now i =
    exit-Done db agent lease outcome code category now i
step-Done db (cleanup_complete agent lease p type result) now i =
    cleanup-Done db agent lease p type result now i
step-Done db expire now i = expire-Done db now i
