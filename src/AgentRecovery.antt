-- ===== src/AgentRecovery.antt =====
-- apps/agent/src/recovery/coordinator.ts: the AgentRecoveryCoordinator. The metadata files are the
-- rows of a table, and what the coordinator asks of its hooks and its socket is the list of its
-- effects. A process identity that is null or blank is none.
pub mod Calls
pub mod Coordinator
pub mod DiskPressure
pub mod Gone
pub mod Reconnect
mod Scenarios
use remote_build_orchestrato.Common.{
  ℕ, Bool, true, false, not, ◌||◌, Option, none, some, List, [], ◌∷◌, ◌++◌, max, ◌==◌,
  if◌then◌else◌,
}
use remote_build_orchestrato.Common.Rows.{find_row, has_row, update_row}
use remote_build_orchestrato.Scheduler.Request.{RiskLevel}
use remote_build_orchestrato.SpoolSender.{SpoolChunk, SpoolSender, set_acked, start_replay}

pub data AttemptMetadataStatus : Type 0 where
  accepted running completed_awaiting_upload orphaned terminal : AttemptMetadataStatus

-- last_exit is the number of the record that is kept for job_exit; a spool_dir that is empty is none.
pub record AttemptMetadata : Type 0 where
  pub attempt_id : ℕ
  pub lease_id : ℕ
  pub lease_epoch : ℕ
  pub process_identity : Option ℕ
  pub status : AttemptMetadataStatus
  pub risk_level : RiskLevel
  pub updated_at : ℕ
  pub last_exit : Option ℕ
  pub workspace_path : Option ℕ
  pub spool_dir : Option ℕ

pub record RecoveryReportPayload : Type 0 where
  pub attempt_id : ℕ
  pub lease_id : ℕ
  pub lease_epoch : ℕ
  pub status : AttemptMetadataStatus
  pub process_identity : ℕ
  pub last_sent_sequence : ℕ
  pub last_acked_sequence : ℕ
  pub artifact_upload_pending : Bool

pub record ReconcileDecision : Type 0 where
  pub attempt_id : ℕ
  pub terminates : Bool
  pub resume_from_sequence : Option ℕ

pub data Effect : Type 0 where
  terminate_attempt cleanup_attempt_resources resend_job_exit resume_artifact_upload : ℕ → Effect
  on_adopted : ReconcileDecision → AttemptMetadata → Effect
  report_sent : RecoveryReportPayload → Effect
  job_exit_sent : AttemptMetadata → ℕ → Effect

-- Which of the optional hooks are there.
pub record Hooks : Type 0 where
  pub has_on_adopted : Bool
  pub has_resend_job_exit : Bool
  pub has_resume_artifact_upload : Bool
  pub has_cleanup : Bool

pub record AgentRecovery : Type 0 where
  pub metadata : List AttemptMetadata
  pub rejected_attempts : List ℕ
  pub live_senders : ℕ → Option SpoolSender
  pub socket_open : Bool
  pub effects : List Effect

abbrev pub listed : ℕ → List ℕ → Bool
listed n [] = false
listed n (m ∷ ms) = m == n || listed n ms

unfoldable pub is_rejected : AgentRecovery → ℕ → Bool
is_rejected s id = listed id s.rejected_attempts

abbrev pub attempt_of : AttemptMetadata → ℕ
attempt_of m = m.attempt_id

unfoldable pub read_attempt_metadata : AgentRecovery → ℕ → Option AttemptMetadata
read_attempt_metadata s id = find_row attempt_of id s.metadata

abbrev pub put : AttemptMetadata → List AttemptMetadata → List AttemptMetadata
put m rows =
    if has_row attempt_of m.attempt_id rows
    then update_row attempt_of m.attempt_id (λ r. m) rows
    else rows ++ m ∷ []

unfoldable pub write_attempt_metadata : AgentRecovery → AttemptMetadata → AgentRecovery
write_attempt_metadata s m = record s { metadata = put m s.metadata }

abbrev pub without : ℕ → List AttemptMetadata → List AttemptMetadata
without id [] = []
without id (m ∷ ms) = if m.attempt_id == id then without id ms else m ∷ without id ms

unfoldable pub remove_attempt_metadata : AgentRecovery → ℕ → AgentRecovery
remove_attempt_metadata s id = record s { metadata = without id s.metadata }

abbrev pub does : AgentRecovery → Effect → AgentRecovery
does s e = record s { effects = s.effects ++ e ∷ [] }

abbrev pub set_sender : ℕ → SpoolSender → AgentRecovery → AgentRecovery
set_sender id sender s = record s {
  live_senders = λ other. if other == id then some sender else s.live_senders other;
}

abbrev pub is_completed : AttemptMetadataStatus → Bool
is_completed completed_awaiting_upload = true
is_completed _ = false

abbrev pub is_terminal : AttemptMetadataStatus → Bool
is_terminal terminal = true
is_terminal _ = false

abbrev pub reported_status : AttemptMetadataStatus → AttemptMetadataStatus
reported_status completed_awaiting_upload = completed_awaiting_upload
reported_status orphaned = orphaned
reported_status _ = running

-- The sender that replays from disk starts with nothing sent.
abbrev pub new_sender : SpoolSender
new_sender = record {
  queue = [];
  last_acked = 0;
  needs_replay = false;
  wire = record { calls = 0; taken = [] };
}

unfoldable pub attach_socket : AgentRecovery → AgentRecovery
attach_socket s = record s { socket_open = true }

unfoldable pub detach_socket : AgentRecovery → AgentRecovery
detach_socket s = record s { socket_open = false }

unfoldable pub clear_live_sender : AgentRecovery → ℕ → AgentRecovery
clear_live_sender s id = record s {
  live_senders = λ other. if other == id then none else s.live_senders other;
}

abbrev pub parked : AttemptMetadata → ℕ → AttemptMetadata
parked m now = record m {
  status = if is_completed m.status then m.status else orphaned;
  updated_at = now;
}

-- The two branches on the risk level write the same.
abbrev pub park : AgentRecovery → ℕ → Option AttemptMetadata → AgentRecovery
park s now none = s
park s now (some m) = if is_terminal m.status then s else write_attempt_metadata s (parked m now)

unfoldable pub on_disconnect_park : AgentRecovery → Option ℕ → ℕ → AgentRecovery
on_disconnect_park s none now = s
on_disconnect_park s (some id) now = park s now (read_attempt_metadata s id)
