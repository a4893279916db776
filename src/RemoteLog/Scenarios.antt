-- ===== src/RemoteLog/Scenarios.antt =====
-- An attempt whose chunks come out of order, twice, from an Agent without the lease, and with
-- writes that fail.
use remote_build_orchestrato.Common.Sort.{In}
use remote_build_orchestrato.Common.{
  ℕ, ◌≤◌, ◌≡◌, refl, true, none, some, List, [], ◌∷◌, inl, ◌==◌, if◌then◌else◌, arith,
}
use remote_build_orchestrato.SpoolSender.{stdout}
use remote_build_orchestrato.Lifecycle.{running}
use remote_build_orchestrato.RemoteLog.{
  AttemptLeaseRow, LogChunkPayload, Store, succeeds, fails_before_index, fails_after_index,
  read_last_chunk_sequence, handle_remote_log_chunk,
}
use remote_build_orchestrato.RemoteLog.Contiguous.{Frame, chunk, renews, run, step, numbers}
use remote_build_orchestrato.RemoteLog.Stuck.{ahead_stuck}
use remote_build_orchestrato.RemoteLog.Acknowledged.{Holds, acknowledged-Holds}
use remote_build_orchestrato.RemoteLog.Replay.{Arrival, chunks_of, advanced, replay_stored}

abbrev leased : AttemptLeaseRow
leased = record {
  job_id = 1;
  agent_id = some 7;
  state = running;
  lease_id = 5;
  lease_epoch = 2;
  lease_deadline = some 1000;
  outcome = none;
  log_acked_sequence = 0;
}

abbrev store : Store
store = record { attempts = λ id. if id == 4 then some leased else none; logs = λ id. [] }

abbrev line : ℕ → LogChunkPayload
line n = record {
  attempt_id = 4;
  lease_id = 5;
  lease_epoch = 2;
  sequence = n;
  stream = stdout;
  bytes = [];
}

abbrev frames : List Frame
frames =
    chunk 7 true succeeds (line 2) 10
    ∷ chunk 7 true fails_before_index (line 1) 20
    ∷ chunk 7 true succeeds (line 1) 20
    ∷ chunk 8 true succeeds (line 2) 30
    ∷ renews 7 60 40
    ∷ chunk 7 true fails_after_index (line 2) 50
    ∷ chunk 7 true succeeds (line 2) 60
    ∷ []

stores_two : (run store frames).logs 4 ≡ line 1 ∷ line 2 ∷ []
unfolding run step handle_remote_log_chunk remote_build_orchestrato.RemoteLog.renew_active_lease
stores_two = refl

-- Chunk 1 is indexed, and the cursor is not moved.
abbrev ahead : Store
ahead = record store { logs = λ id. line 1 ∷ [] }

reaches_ahead :
    (handle_remote_log_chunk store 7 true fails_after_index (line 1) 10).0.logs 4 ≡ ahead.logs 4
unfolding handle_remote_log_chunk
reaches_ahead = refl

abbrev replays : List Frame
replays = chunk 7 true succeeds (line 1) 20 ∷ chunk 7 true succeeds (line 2) 30 ∷ []

ahead_stuck_example :
    let after = run ahead replays in
    (new : AttemptLeaseRow) × (after.attempts 4 ≡ some new)
    × (new.log_acked_sequence ≡ 0)
    × (after.logs 4 ≡ line 1 ∷ [])
ahead_stuck_example = ahead_stuck 4 ahead leased replays refl refl

acknowledged-Holds_example :
    let after = (handle_remote_log_chunk store 7 true succeeds (line 1) 10).0 in
    ((line 1).sequence ≡ 1)
    × In 1 (numbers (after.logs 4))
    × (row : AttemptLeaseRow) × (after.attempts 4 ≡ some row)
    × (1 ≤ row.log_acked_sequence)
    × Holds row 7 (line 1) 10
unfolding handle_remote_log_chunk
acknowledged-Holds_example =
    acknowledged-Holds store 7 true succeeds (line 1) 10 1 (λ row e. inl (ground arith))
      (omega arith) refl

abbrev arrival : ℕ → Arrival
arrival n = record { payload = line n; at = n; connected = true }

replay_stored_example :
    let after = run store (chunks_of 7 (arrival 1 ∷ arrival 2 ∷ [])) in
    (after.attempts 4 ≡ some (advanced leased 2)) × (after.logs 4 ≡ line 1 ∷ line 2 ∷ [])
unfolding remote_build_orchestrato.RemoteLog.is_lease_expired
replay_stored_example =
    replay_stored 4 7 store leased (arrival 1 ∷ arrival 2 ∷ []) refl refl refl (omega arith)
      ((refl, refl, refl, refl, refl), ((refl, refl, refl, refl, refl), tt))
