-- ===== src/RemoteLog/Acknowledged.antt =====
-- apps/controller/src/execution/remote-execution.ts: what an acknowledgement says.
use remote_build_orchestrato.Common.{
  ℕ, zero, suc, ◌≤◌, ◌≡◌, refl, inl, inr, Bool, true, false, some, List, [], ◌∷◌, ◌++◌, arith, leb,
  Bool-cases, Option-cases, up_to, leb→le,
}
use remote_build_orchestrato.Common.Sort.{In}
use remote_build_orchestrato.RemoteLog.{
  AttemptLeaseRow, LogChunkPayload, Store, WriteOutcome, takes_logs, owned, is_lease_expired,
  reject_stale, handle_remote_log_chunk,
}
use remote_build_orchestrato.RemoteLog.Contiguous.{numbers, numbers-append, InStep, IsContiguous}

-- The lease that a frame names is the one of the row, the Agent holds it and it has not expired.
abbrev pub Holds : AttemptLeaseRow → ℕ → LogChunkPayload → ℕ → Type 0
Holds row agent p now =
    (row.lease_id ≡ p.lease_id)
    × (row.lease_epoch ≡ p.lease_epoch)
    × (owned row.agent_id agent ≡ true)
    × (is_lease_expired row now ≡ false)
    × (takes_logs row.state ≡ true)

In-append : (n m : ℕ) (ns : List ℕ) → In n ns → In n (ns ++ m ∷ [])
In-append n m [] there = absurd there
In-append n m (k ∷ ns) (inl same) = inl same
In-append n m (k ∷ ns) (inr later) = inr (In-append n m ns later)

In-last : (n : ℕ) (ns : List ℕ) → In n (ns ++ n ∷ [])
In-last n [] = inl refl
In-last n (k ∷ ns) = inr (In-last n ns)

In-up_to : (n m : ℕ) → 1 ≤ n → n ≤ m → In n (up_to m)
In-up_to n zero low high = absurd (omega arith)
In-up_to n (suc m) low high = elim (Bool-cases (leb n m)) [
  | inl within ↦ In-append n (suc m) (up_to m) (In-up_to n m low (leb→le n m within))
  | inr top ↦ let same : n ≡ suc m = ground arith in rw same (In-last (suc m) (up_to m))
]

in_log :
    (log : List LogChunkPayload) (sequence n : ℕ)
    → InStep log n
    → 1 ≤ sequence
    → sequence ≤ n
    → In sequence (numbers log)
in_log log sequence n (inl level) low high = rw level (In-up_to sequence n low high)
in_log log sequence n (inr ahead) low high = rw ahead (In-up_to sequence (suc n) low (omega arith))

-- Where the log of an attempt has the chunks 1, 2, …, m in this order, m the acknowledged sequence
-- or the one after it: a chunk, whose sequence is positive, is acknowledged only to the Agent that
-- holds the lease, and only when the cursor has reached it and its sequence is in the log.
pub acknowledged-Holds :
    (store : Store) (agent : ℕ) (connected : Bool) (outcome : WriteOutcome) (p : LogChunkPayload)
    (now sequence : ℕ)
    → IsContiguous p.attempt_id store
    → 1 ≤ p.sequence
    → let (after, reply) = handle_remote_log_chunk store agent connected outcome p now in
      reply ≡ some sequence
      → (sequence ≡ p.sequence)
        × In sequence (numbers (after.logs p.attempt_id))
        × (row : AttemptLeaseRow) × (after.attempts p.attempt_id ≡ some row)
        × (sequence ≤ row.log_acked_sequence)
        × Holds row agent p now
unfolding handle_remote_log_chunk reject_stale is_lease_expired
acknowledged-Holds store agent connected outcome p now sequence contiguous positive h =
    elim (Option-cases (store.attempts p.attempt_id)) [
      | inl e ↦ absurd (ground arith)
      | inr (row, e) ↦ elim (Bool-cases (leb p.sequence row.log_acked_sequence)) [
        | inl known ↦
            let same : sequence ≡ p.sequence = ground arith in
            let there =
              in_log (store.logs p.attempt_id) p.sequence row.log_acked_sequence (contiguous row e)
                positive (leb→le p.sequence row.log_acked_sequence known) in
            let log : (handle_remote_log_chunk store agent connected outcome p now).0.logs
                  p.attempt_id
                ≡ store.logs p.attempt_id =
              ground arith in
            (same, rw (log, same) there, row, ground arith, ground arith, ground arith)
        | inr fresh ↦
            let same : sequence ≡ p.sequence = ground arith in
            let log : (handle_remote_log_chunk store agent connected outcome p now).0.logs
                  p.attempt_id
                ≡ store.logs p.attempt_id ++ p ∷ [] =
              ground arith in
            (
              same,
              rw (log, same, numbers-append (store.logs p.attempt_id) p)
                  (In-last p.sequence (numbers (store.logs p.attempt_id))),
              record row { log_acked_sequence = p.sequence },
              ground arith,
              ground arith,
              ground arith,
            )
      ]
    ]
