-- ===== src/RemoteLog.antt =====
-- apps/controller/src/execution/remote-execution.ts: how the Controller takes the log chunks of a
-- remote attempt. `enqueueRemoteLogChunk` runs one handler after the other for an attempt, so a
-- handler is one step. The store is the rows of the attempts and what stands in their logs; the
-- sequence that a handler acknowledges is its result. A log is the chunks that its index has, whose
-- lines are appended whole. The cursor of an attempt is a row of the database, which is written after
-- the index: a write that throws between them leaves the log ahead. Instants are milliseconds.
pub mod Contiguous
pub mod Stuck
pub mod Acknowledged
pub mod Replay
mod Scenarios
use remote_build_orchestrato.Common.{
  ℕ, suc, ◌+◌, ◌*◌, Bool, true, false, not, ◌&&◌, ◌||◌, Option, none, some, List, [], ◌∷◌, ◌++◌,
  ltb, leb, ◌==◌, if◌then◌else◌,
}
use remote_build_orchestrato.Lifecycle.{
  AttemptState, leasing, preparing_source, transferring_source, materializing, starting, running,
  orphaned, collecting_artifacts, completed, Outcome,
}
use remote_build_orchestrato.SpoolSender.{Stream}

pub record AttemptLeaseRow : Type 0 where
  pub job_id : ℕ
  pub agent_id : Option ℕ
  pub state : AttemptState
  pub lease_id : ℕ
  pub lease_epoch : ℕ
  pub lease_deadline : Option ℕ
  pub outcome : Option Outcome
  pub log_acked_sequence : ℕ

pub record LogChunkPayload : Type 0 where
  pub attempt_id : ℕ
  pub lease_id : ℕ
  pub lease_epoch : ℕ
  pub sequence : ℕ
  pub stream : Stream
  pub bytes : List ℕ

pub record Store : Type 0 where
  pub attempts : ℕ → Option AttemptLeaseRow
  pub logs : ℕ → List LogChunkPayload

unfoldable pub load_attempt_by_lease :
    (ℕ → Option AttemptLeaseRow) → ℕ → ℕ → ℕ → Option AttemptLeaseRow
load_attempt_by_lease attempts attempt lease epoch = elim (attempts attempt) [
  | none ↦ none
  | some row ↦ if row.lease_id == lease && row.lease_epoch == epoch then some row else none
]

unfoldable pub is_lease_expired : AttemptLeaseRow → ℕ → Bool
is_lease_expired row now = elim row.lease_deadline [
  | none ↦ false
  | some deadline ↦ leb deadline now
]

abbrev pub takes_logs : AttemptState → Bool
takes_logs leasing = false
takes_logs preparing_source = false
takes_logs transferring_source = false
takes_logs materializing = false
takes_logs starting = false
takes_logs running = true
takes_logs collecting_artifacts = true
takes_logs completed = true
takes_logs orphaned = false

abbrev pub owned : Option ℕ → ℕ → Bool
owned none agent = false
owned (some a) agent = a == agent

-- True when the frame is accepted, as in the source; `expected` are the states it may come in.
unfoldable pub reject_stale : (AttemptState → Bool) → AttemptLeaseRow → ℕ → ℕ → Bool
unfolding is_lease_expired
reject_stale expected row agent now =
    if not (owned row.agent_id agent)
    then false
    else if is_lease_expired row now
    then false
    else expected row.state

abbrev pub put {ℓ} : {A : Type ℓ} → (ℕ → A) → ℕ → A → ℕ → A
put f k v j = if j == k then v else f j

-- How far the writes of a chunk get: none of it is indexed, or its index line is there and a later
-- write throws (the checkpoint, the publication or the cursor), or all of it is written.
pub data WriteOutcome : Type 0 where
  fails_before_index fails_after_index succeeds : WriteOutcome

-- The sequence of the last index line, or 0.
abbrev pub read_last_chunk_sequence : List LogChunkPayload → ℕ
read_last_chunk_sequence [] = 0
read_last_chunk_sequence (p ∷ []) = p.sequence
read_last_chunk_sequence (p ∷ q ∷ ps) = read_last_chunk_sequence (q ∷ ps)

abbrev pub append_indexed_log_chunk : Store → LogChunkPayload → Store
append_indexed_log_chunk store payload = record store {
  logs = put store.logs payload.attempt_id (store.logs payload.attempt_id ++ payload ∷ []);
}

abbrev move_cursor : Store → AttemptLeaseRow → LogChunkPayload → Store
move_cursor store row payload = record store {
  attempts =
      put store.attempts payload.attempt_id
        (some (record row { log_acked_sequence = payload.sequence }));
}

-- Appends to the log and publishes, then moves the cursor.
abbrev persist : Store → AttemptLeaseRow → LogChunkPayload → Store
persist store row payload = move_cursor (append_indexed_log_chunk store payload) row payload

-- An acknowledgement goes out if the Agent is connected.
abbrev ack : Bool → LogChunkPayload → Option ℕ
ack connected payload = if connected then some payload.sequence else none

-- The writes of the next chunk. A sequence that is not above the last one of the index throws.
abbrev pub write_chunk :
    Store → AttemptLeaseRow → Bool → WriteOutcome → LogChunkPayload → Store × Option ℕ
write_chunk store row connected outcome payload =
    if leb payload.sequence (read_last_chunk_sequence (store.logs payload.attempt_id))
    then (store, none)
    else elim outcome [
      | fails_before_index ↦ (store, none)
      | fails_after_index ↦ (append_indexed_log_chunk store payload, none)
      | succeeds ↦ (persist store row payload, ack connected payload)
    ]

take_chunk :
    Store → AttemptLeaseRow → ℕ → Bool → WriteOutcome → LogChunkPayload → ℕ → Store × Option ℕ
unfolding reject_stale
take_chunk store row agent connected outcome payload now =
    if not (reject_stale takes_logs row agent now)
    then (store, none)
    else if leb payload.sequence row.log_acked_sequence
    then (store, ack connected payload)
    else if not (payload.sequence == row.log_acked_sequence + 1)
    then (store, none)
    else write_chunk store row connected outcome payload

unfoldable pub handle_remote_log_chunk :
    Store → ℕ → Bool → WriteOutcome → LogChunkPayload → ℕ → Store × Option ℕ
unfolding load_attempt_by_lease take_chunk
handle_remote_log_chunk store agent connected outcome payload now =
    elim (load_attempt_by_lease store.attempts payload.attempt_id payload.lease_id
      payload.lease_epoch) [
        | none ↦ (store, none)
        | some row ↦ take_chunk store row agent connected outcome payload now
      ]

abbrev renewed : ℕ → ℕ → Option AttemptLeaseRow → Option AttemptLeaseRow
renewed agent deadline none = none
renewed agent deadline (some row) = elim row.lease_deadline [
  | none ↦ some row
  | some old ↦ elim row.state [
    | completed ↦ some row
    | _ ↦
        if owned row.agent_id agent
        then some (record row { lease_deadline = some deadline })
        else some row
  ]
]

unfoldable pub renew_active_lease : Store → ℕ → ℕ → ℕ → Store
renew_active_lease store agent ttl_seconds now = record store {
  attempts = λ id. renewed agent (now + ttl_seconds * 1000) (store.attempts id);
}
