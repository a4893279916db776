-- ===== src/RemoteLog/Stuck.antt =====
-- apps/controller/src/execution/remote-execution.ts: a log that is ahead of its cursor.
use remote_build_orchestrato.Common.{
  ℕ, suc, ◌+◌, ◌*◌, ◌≡◌, refl, sym, ap, ◌∙◌, inl, inr, Bool, some, List, [], ◌∷◌, arith, ◌==◌,
  Bool-cases, ==_iff, Option-cases,
}
use remote_build_orchestrato.RemoteLog.{
  AttemptLeaseRow, LogChunkPayload, Store, WriteOutcome, handle_remote_log_chunk,
  renew_active_lease, renewed, read_last_chunk_sequence,
}
use remote_build_orchestrato.RemoteLog.Contiguous.{
  Frame, chunk, renews, step, run, numbers, handle_cases, last_is, renewed_cursor,
}
use remote_build_orchestrato.Common.{up_to}

-- The log is as given, and the cursor of the attempt stands at n.
abbrev pub Stays : ℕ → ℕ → List LogChunkPayload → Store → Type 0
Stays id n log store =
    (row : AttemptLeaseRow) × (store.attempts id ≡ some row)
    × (row.log_acked_sequence ≡ n)
    × (store.logs id ≡ log)

chunk-Stays :
    (id n : ℕ) (log : List LogChunkPayload) (store : Store) (agent : ℕ) (connected : Bool)
    (outcome : WriteOutcome) (p : LogChunkPayload) (now : ℕ)
    → read_last_chunk_sequence log ≡ suc n
    → Stays id n log store
    → Stays id n log (handle_remote_log_chunk store agent connected outcome p now).0
chunk-Stays id n log store agent connected outcome p now last (row, stored, cursor, same) =
    elim (handle_cases store agent connected outcome p now) [
      | inl e ↦ rw e (row, stored, cursor, same)
      | inr (other, there, next, above, writes) ↦ elim (Bool-cases (id == p.attempt_id)) [
        | inl here ↦
            let at : id ≡ p.attempt_id = (==_iff id p.attempt_id).0 here in
            let is : other ≡ row = ground (arith, there, stored, ap store.attempts at) in
            let number : p.sequence ≡ suc n =
              next ∙ ap (λ (r : AttemptLeaseRow). suc r.log_acked_sequence) is ∙ ap suc cursor in
            let line : read_last_chunk_sequence (store.logs p.attempt_id) ≡ suc n =
              ap read_last_chunk_sequence (sym (ap store.logs at) ∙ same) ∙ last in
            absurd (ground (arith, number, line, above))
        | inr apart ↦ elim writes [
          | inl e ↦ rw e (row, stored, cursor, rw apart same)
          | inr e ↦ rw e (row, rw apart stored, cursor, rw apart same)
        ]
      ]
    ]

renewed-some :
    (agent deadline : ℕ) (row : AttemptLeaseRow)
    → (new : AttemptLeaseRow) × (renewed agent deadline (some row) ≡ some new)
      × (new.log_acked_sequence ≡ row.log_acked_sequence)
renewed-some agent deadline row = elim (Option-cases (renewed agent deadline (some row))) [
  | inl gone ↦ absurd (ground arith)
  | inr (new, e) ↦
      let (old, is, kept) = renewed_cursor agent deadline (some row) new e in (new, e, ground arith)
]

renews-Stays :
    (id n : ℕ) (log : List LogChunkPayload) (store : Store) (agent ttl_seconds now : ℕ)
    → Stays id n log store
    → Stays id n log (renew_active_lease store agent ttl_seconds now)
unfolding renew_active_lease
renews-Stays id n log store agent ttl_seconds now (row, stored, cursor, same) =
    let deadline = now + ttl_seconds * 1000 in
    let (new, is, kept) = renewed-some agent deadline row in
    (new, ap (renewed agent deadline) stored ∙ is, kept ∙ cursor, same)

-- Once the log of an attempt has the chunks 1, 2, …, n + 1, n the acknowledged sequence, no frames
-- move its cursor or add to its log: each replay of the last chunk is refused.
pub ahead_stuck :
    (id : ℕ) (store : Store) (row : AttemptLeaseRow) (fs : List Frame)
    → store.attempts id ≡ some row
    → numbers (store.logs id) ≡ up_to (suc row.log_acked_sequence)
    → let after = run store fs in
      (new : AttemptLeaseRow) × (after.attempts id ≡ some new)
      × (new.log_acked_sequence ≡ row.log_acked_sequence)
      × (after.logs id ≡ store.logs id)
unfolding run step
ahead_stuck id store row fs stored ahead = go fs store (row, stored, refl, refl)
  where
    log : List LogChunkPayload
    log = store.logs id

    go :
        (fs : List Frame) (s : Store)
        → Stays id row.log_acked_sequence log s
        → Stays id row.log_acked_sequence log (run s fs)
    go [] s h = h
    go (chunk agent connected outcome p now ∷ fs) s h =
        go fs (handle_remote_log_chunk s agent connected outcome p now).0 (
          chunk-Stays id row.log_acked_sequence log s agent connected outcome p now
            (last_is log (suc row.log_acked_sequence) ahead) h)
    go (renews agent ttl_seconds now ∷ fs) s h =
        go fs (renew_active_lease s agent ttl_seconds now)
          (renews-Stays id row.log_acked_sequence log s agent ttl_seconds now h)
