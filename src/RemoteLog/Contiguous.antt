-- ===== src/RemoteLog/Contiguous.antt =====
-- apps/controller/src/execution/remote-execution.ts: the log of an attempt has every chunk up to
-- the acknowledged one, once and in order.
use remote_build_orchestrato.Common.{
  ℕ, zero, suc, ◌∙◌, not, ◌+◌, ◌≡◌, refl, up_to, ap, ◌⊎◌, inl, inr, Bool, false, ◌&&◌, Option, none,
  some, List, [], ◌∷◌, ◌++◌, arith, leb, ◌==◌, Bool-cases, Option-cases,
}
use remote_build_orchestrato.RemoteLog.{
  AttemptLeaseRow, LogChunkPayload, Store, takes_logs, reject_stale, handle_remote_log_chunk,
  renew_active_lease, renewed, persist, WriteOutcome, succeeds, fails_after_index,
  fails_before_index, append_indexed_log_chunk, read_last_chunk_sequence,
}

abbrev pub numbers : List LogChunkPayload → List ℕ
numbers [] = []
numbers (p ∷ ps) = p.sequence ∷ numbers ps

-- The log has the chunks 1, 2, …, m, of which n, or all but the last one, are acknowledged.
abbrev pub InStep : List LogChunkPayload → ℕ → Type 0
InStep log n = (numbers log ≡ up_to n) ⊎ (numbers log ≡ up_to (suc n))

abbrev pub IsContiguous : ℕ → Store → Type 0
IsContiguous id store =
    (row : AttemptLeaseRow)
    → store.attempts id ≡ some row
    → InStep (store.logs id) row.log_acked_sequence

-- What comes to the Controller: a chunk from an Agent, or a sign of life that renews its leases.
pub data Frame : Type 0 where
  chunk : ℕ → Bool → WriteOutcome → LogChunkPayload → ℕ → Frame
  renews : ℕ → ℕ → ℕ → Frame

unfoldable pub step : Store → Frame → Store
step store (chunk agent connected outcome payload now) =
    (handle_remote_log_chunk store agent connected outcome payload now).0
step store (renews agent ttl_seconds now) = renew_active_lease store agent ttl_seconds now

unfoldable pub run : Store → List Frame → Store
run store [] = store
run store (f ∷ fs) = run (step store f) fs

pub numbers-append :
    (ps : List LogChunkPayload) (p : LogChunkPayload)
    → numbers (ps ++ p ∷ []) ≡ numbers ps ++ p.sequence ∷ []
numbers-append [] p = refl
numbers-append (q ∷ ps) p = ap (λ ns. q.sequence ∷ ns) (numbers-append ps p)

pub last-append :
    (ps : List LogChunkPayload) (p : LogChunkPayload)
    → read_last_chunk_sequence (ps ++ p ∷ []) ≡ p.sequence
last-append [] p = refl
last-append (q ∷ []) p = refl
last-append (q ∷ r ∷ ps) p = last-append (r ∷ ps) p

last_number : List ℕ → ℕ
last_number [] = 0
last_number (n ∷ []) = n
last_number (n ∷ m ∷ ns) = last_number (m ∷ ns)

last-numbers : (ps : List LogChunkPayload) → read_last_chunk_sequence ps ≡ last_number (numbers ps)
unfolding last_number
last-numbers [] = refl
last-numbers (p ∷ []) = refl
last-numbers (p ∷ q ∷ ps) = last-numbers (q ∷ ps)

last_number-append : (ns : List ℕ) (n : ℕ) → last_number (ns ++ n ∷ []) ≡ n
unfolding last_number
last_number-append [] n = refl
last_number-append (m ∷ []) n = refl
last_number-append (m ∷ k ∷ ns) n = last_number-append (k ∷ ns) n

last-up_to : (n : ℕ) → last_number (up_to n) ≡ n
unfolding last_number
last-up_to zero = refl
last-up_to (suc n) = last_number-append (up_to n) (suc n)

-- The last line of a log with the chunks 1, 2, …, m is that of m.
pub last_is :
    (log : List LogChunkPayload) (m : ℕ) → numbers log ≡ up_to m → read_last_chunk_sequence log ≡ m
last_is log m e = last-numbers log ∙ ap last_number e ∙ last-up_to m

outcome_cases :
    (o : WriteOutcome) → (o ≡ succeeds) ⊎ ((o ≡ fails_after_index) ⊎ (o ≡ fails_before_index))
outcome_cases succeeds = inl refl
outcome_cases fails_after_index = inr (inl refl)
outcome_cases fails_before_index = inr (inr refl)

-- What a handler leaves: the store as it was, or the next chunk, which is above the last line, in
-- the log of its attempt, with the cursor moved or not.
pub handle_cases :
    (store : Store) (agent : ℕ) (connected : Bool) (outcome : WriteOutcome) (p : LogChunkPayload)
    (now : ℕ)
    → let after = (handle_remote_log_chunk store agent connected outcome p now).0 in
      (after ≡ store)
      ⊎ ((row : AttemptLeaseRow) × (store.attempts p.attempt_id ≡ some row)
          × (p.sequence ≡ suc row.log_acked_sequence)
          × (leb p.sequence (read_last_chunk_sequence (store.logs p.attempt_id)) ≡ false)
          × ((after ≡ append_indexed_log_chunk store p) ⊎ (after ≡ persist store row p)))
unfolding handle_remote_log_chunk reject_stale
handle_cases store agent connected outcome p now =
    elim (Option-cases (store.attempts p.attempt_id)) [
      | inl e ↦ inl (ground arith)
      | inr (row, e) ↦
          elim (Bool-cases (
            row.lease_id == p.lease_id
            && row.lease_epoch == p.lease_epoch
            && reject_stale takes_logs row agent now
            && p.sequence == row.log_acked_sequence + 1
            && not (leb p.sequence (read_last_chunk_sequence (store.logs p.attempt_id))))) [
              | inl taken ↦ elim (outcome_cases outcome) [
                | inl all ↦ inr (row, e, ground arith, ground arith, inr (ground arith))
                | inr (inl part) ↦ inr (row, e, ground arith, ground arith, inl (ground arith))
                | inr (inr no_line) ↦ inl (ground arith)
              ]
              | inr passed ↦ inl (ground arith)
            ]
    ]

-- The next chunk is written where nothing is ahead of the cursor.
pub written-numbers :
    (store : Store) (row : AttemptLeaseRow) (p : LogChunkPayload)
    → p.sequence ≡ suc row.log_acked_sequence
    → leb p.sequence (read_last_chunk_sequence (store.logs p.attempt_id)) ≡ false
    → InStep (store.logs p.attempt_id) row.log_acked_sequence
    → numbers (store.logs p.attempt_id ++ p ∷ []) ≡ up_to (suc row.log_acked_sequence)
written-numbers store row p next above (inl level) =
    rw (numbers-append (store.logs p.attempt_id) p, level, next) refl
written-numbers store row p next above (inr ahead) =
    let last = last_is (store.logs p.attempt_id) (suc row.log_acked_sequence) ahead in
    absurd (ground (arith, last, next))

pub renewed_cursor :
    (agent deadline : ℕ) (o : Option AttemptLeaseRow) (row : AttemptLeaseRow)
    → renewed agent deadline o ≡ some row
    → (old : AttemptLeaseRow) × (o ≡ some old) × (old.log_acked_sequence ≡ row.log_acked_sequence)
renewed_cursor agent deadline none row h = absurd (ground arith)
renewed_cursor agent deadline (some old) row h = (old, refl, ground arith)
