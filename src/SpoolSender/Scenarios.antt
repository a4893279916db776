-- ===== src/SpoolSender/Scenarios.antt =====
-- A sender with room for two chunks, on a wire that is down for its first two calls.
use remote_build_orchestrato.Common.{
  ℕ, ◌≤◌, ◌≡◌, refl, ◌⊎◌, inl, inr, Bool, true, false, List, [], ◌∷◌, ◌++◌, arith, leb, length,
}
use remote_build_orchestrato.SpoolSender.{
  SpoolChunk, stdout, SpoolSender, has, enqueue, enqueue_all, start_replay, set_acked, on_ack,
  iter_unacked,
}
use remote_build_orchestrato.SpoolSender.Coverage.{
  fresh_attempt, Move, appends, acks, reconnects, replays, never_lost,
}
use remote_build_orchestrato.SpoolSender.Coverage
use remote_build_orchestrato.SpoolSender.Order.{
  IsOrdered, enqueues, acknowledges, seeds, run-IsOrdered,
}
use remote_build_orchestrato.SpoolSender.Flow.{full_queue_sends_nothing}
use remote_build_orchestrato.SpoolSender.Order

abbrev chunk : ℕ → SpoolChunk
chunk n = record { sequence = n; stream = stdout; bytes = [] }

abbrev late : ℕ → SpoolChunk → Bool
late i c = leb 2 i

abbrev always : ℕ → SpoolChunk → Bool
always i c = true

abbrev idle : SpoolSender
idle = fresh_attempt.sender

abbrev full : SpoolSender
full = record {
  queue = chunk 1 ∷ chunk 2 ∷ [];
  last_acked = 0;
  needs_replay = false;
  wire = record { calls = 2; taken = [] };
}

fills_up : enqueue_all late 2 (chunk 1 ∷ chunk 2 ∷ []) idle ≡ full
unfolding enqueue remote_build_orchestrato.SpoolSender.pump_queue
    remote_build_orchestrato.Common.Sort.sort
fills_up = refl

abbrev moves : List Move
moves = appends (chunk 1) ∷ appends (chunk 2) ∷ appends (chunk 3) ∷ acks 1 ∷ replays 0 ∷ []

never_lost_example :
    let a = Coverage.run late 2 fresh_attempt moves in
    (3 ≤ a.sender.last_acked)
    ⊎ ((has 3 a.sender.queue ≡ true)
        ⊎ ((has 3 a.sender.wire.taken ≡ true)
            ⊎ ((a.sender.needs_replay ≡ true) ⊎ (has 3 a.pending ≡ true))))
unfolding Coverage.run Coverage.step
never_lost_example = never_lost late 2 moves 3 refl

full_queue_sends_nothing_example :
    let after =
      enqueue_all always 2
        (chunk 3 ∷ [])
        (start_replay always 2 (chunk 1 ∷ chunk 2 ∷ []) (set_acked 0 full)) in
    (after.queue ≡ chunk 1 ∷ chunk 2 ∷ []) × (after.wire ≡ full.wire)
full_queue_sends_nothing_example =
    full_queue_sends_nothing always 2 0 (chunk 1 ∷ chunk 2 ∷ []) (chunk 3 ∷ []) full (omega arith)

run-IsOrdered_example : IsOrdered 2 (
    Order.run late 2 idle (enqueues (chunk 2) ∷ enqueues (chunk 1) ∷ seeds 1 ∷ acknowledges 2 ∷ []))
run-IsOrdered_example =
    run-IsOrdered late 2 idle
      (enqueues (chunk 2) ∷ enqueues (chunk 1) ∷ seeds 1 ∷ acknowledges 2 ∷ []) (tt, omega arith)
