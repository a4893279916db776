-- ===== src/RemoteLog/Replay.antt =====
-- apps/controller/src/execution/remote-execution.ts: the replay of an attempt's chunks in order.
use remote_build_orchestrato.Common.{
  ℕ, suc, ◌+◌, ◌≡◌, ◌≤◌, ap, sym, ◌∙◌, Bool, true, false, some, List, [], ◌∷◌, ◌++◌, arith, length,
}
use mathlib.Core.List.{append-nil, append_assoc}
use remote_build_orchestrato.RemoteLog.{
  AttemptLeaseRow, LogChunkPayload, Store, succeeds, takes_logs, owned, is_lease_expired,
  reject_stale, handle_remote_log_chunk, read_last_chunk_sequence,
}
use remote_build_orchestrato.RemoteLog.Contiguous.{Frame, chunk, step, run, last-append}
use remote_build_orchestrato.RemoteLog.Acknowledged.{Holds}

-- A chunk, when it comes, and whether its Agent is connected then.
pub record Arrival : Type 0 where
  pub payload : LogChunkPayload
  pub at : ℕ
  pub connected : Bool

-- The next chunks of a log after the n-th, in frames of the lease of the row, none of them late.
abbrev pub Next : ℕ → AttemptLeaseRow → ℕ → List Arrival → Type 0
Next id row n [] = Unit
Next id row n (a ∷ later) =
    ((a.payload.attempt_id ≡ id)
      × (a.payload.lease_id ≡ row.lease_id)
      × (a.payload.lease_epoch ≡ row.lease_epoch)
      × (a.payload.sequence ≡ suc n)
      × (is_lease_expired row a.at ≡ false))
    × Next id row (suc n) later

-- The frames of an Agent's chunks, whose writes all succeed.
abbrev pub chunks_of : ℕ → List Arrival → List Frame
chunks_of agent [] = []
chunks_of agent (a ∷ later) =
    chunk agent a.connected succeeds a.payload a.at ∷ chunks_of agent later

abbrev pub payloads : List Arrival → List LogChunkPayload
payloads [] = []
payloads (a ∷ later) = a.payload ∷ payloads later

abbrev pub advanced : AttemptLeaseRow → ℕ → AttemptLeaseRow
advanced row n = record row { log_acked_sequence = n }

next_chunk :
    (id agent : ℕ) (store : Store) (row : AttemptLeaseRow) (a : Arrival)
    → store.attempts id ≡ some row
    → a.payload.attempt_id ≡ id
    → a.payload.sequence ≡ suc row.log_acked_sequence
    → read_last_chunk_sequence (store.logs id) ≤ row.log_acked_sequence
    → Holds row agent a.payload a.at
    → let after = (handle_remote_log_chunk store agent a.connected succeeds a.payload a.at).0 in
      (after.attempts id ≡ some (advanced row (suc row.log_acked_sequence)))
      × (after.logs id ≡ store.logs id ++ a.payload ∷ [])
unfolding handle_remote_log_chunk reject_stale is_lease_expired
next_chunk id agent store row a stored at next level holds =
    let there : store.attempts a.payload.attempt_id ≡ some row = rw at stored in
    let logged : store.logs a.payload.attempt_id ≡ store.logs id = ap store.logs at in
    let last : read_last_chunk_sequence (store.logs a.payload.attempt_id)
        ≡ read_last_chunk_sequence (store.logs id) =
      ap read_last_chunk_sequence logged in
    (ground arith, ground arith)

Next-advanced :
    (id n k : ℕ) (row : AttemptLeaseRow) (arrivals : List Arrival)
    → Next id row n arrivals
    → Next id (advanced row k) n arrivals
unfolding is_lease_expired
Next-advanced id n k row [] nexts = tt
Next-advanced id n k row (a ∷ later) (here, nexts) =
    (here, Next-advanced id (suc n) k row later nexts)

-- While an Agent holds the lease of an attempt that takes logs, whose log is not ahead of its
-- cursor: the chunks after the acknowledged one that come in order before the lease expires, and
-- whose writes all succeed, are all stored, and the cursor passes them.
pub replay_stored :
    (id agent : ℕ) (store : Store) (row : AttemptLeaseRow) (arrivals : List Arrival)
    → store.attempts id ≡ some row
    → owned row.agent_id agent ≡ true
    → takes_logs row.state ≡ true
    → read_last_chunk_sequence (store.logs id) ≤ row.log_acked_sequence
    → Next id row row.log_acked_sequence arrivals
    → let after = run store (chunks_of agent arrivals) in
      (after.attempts id ≡ some (advanced row (row.log_acked_sequence + length arrivals)))
      × (after.logs id ≡ store.logs id ++ payloads arrivals)
unfolding run step
replay_stored id agent store row [] stored held taking level nexts =
    (stored ∙ ap (λ n. some (advanced row n)) (omega arith), sym (append-nil (store.logs id)))
replay_stored id agent store row (a ∷ later) stored held taking level
      ((at, lease, epoch, n, live), nexts) =
    let (moved, logged) =
      next_chunk id agent store row a stored at n level
        (sym lease, sym epoch, held, live, taking) in
    let reached = suc row.log_acked_sequence in
    let store' = (handle_remote_log_chunk store agent a.connected succeeds a.payload a.at).0 in
    let last : read_last_chunk_sequence (store'.logs id) ≡ reached =
      ap read_last_chunk_sequence logged ∙ last-append (store.logs id) a.payload ∙ n in
    let (cursor, log) =
      replay_stored id agent store' (advanced row reached) later moved held taking (omega arith)
        (Next-advanced id reached reached row later nexts) in
    (
      cursor ∙ ap (λ k. some (advanced row k)) (omega arith),
      log
          ∙ ap (λ l. l ++ payloads later) logged
          ∙ append_assoc (store.logs id) (a.payload ∷ []) (payloads later),
    )
