-- ===== src/SpoolSender/Flow.antt =====
-- apps/agent/src/logs/spool-sender.ts: when the queue moves, and when nothing makes it move.
use remote_build_orchestrato.Common.{
  ℕ, suc, ◌≤◌, ◌≡◌, refl, sym, ◌∙◌, Bool, true, List, [], ◌∷◌, ◌++◌, arith, ltb, if◌then◌else◌,
  length,
}
use mathlib.Core.List.{append-nil, append_assoc}
use remote_build_orchestrato.SpoolSender.{
  SpoolChunk, Wire, SpoolSender, drop_acked, iter_unacked, pump_queue, pump, enqueue, enqueue_all,
  set_acked, start_replay, on_ack,
}

module _ (answer : ℕ → SpoolChunk → Bool) where
  enqueue_full :
      (max_queue : ℕ) (c : SpoolChunk) (s : SpoolSender)
      → max_queue ≤ length s.queue
      → let after = enqueue answer max_queue c s in (after.queue ≡ s.queue) × (after.wire ≡ s.wire)
  unfolding enqueue
  enqueue_full max_queue c s full = ground arith

  enqueue_all_full :
      (max_queue : ℕ) (cs : List SpoolChunk) (s : SpoolSender)
      → max_queue ≤ length s.queue
      → let after = enqueue_all answer max_queue cs s in
        (after.queue ≡ s.queue) × (after.wire ≡ s.wire)
  enqueue_all_full max_queue [] s full = (refl, refl)
  enqueue_all_full max_queue (c ∷ cs) s full =
      let (same, unsent) = enqueue_full max_queue c s full in
      let after = enqueue answer max_queue c s in
      let (same', unsent') = enqueue_all_full max_queue cs after (rw same full) in
      (same' ∙ same, unsent' ∙ unsent)

  -- With a full queue a reconnection, which seeds the cursor and replays the spool, does not make
  -- the sender call `send`, nor do the chunks enqueued later: the queue and the wire stay as they
  -- are, whatever the wire would answer.
  pub full_queue_sends_nothing :
      (max_queue resume : ℕ) (spool later : List SpoolChunk) (s : SpoolSender)
      → max_queue ≤ length s.queue
      → let after =
          enqueue_all answer max_queue later
            (start_replay answer max_queue spool (set_acked resume s)) in
        (after.queue ≡ s.queue) × (after.wire ≡ s.wire)
  unfolding start_replay set_acked
  full_queue_sends_nothing max_queue resume spool later s full =
      let seeded = set_acked resume s in
      let (same, unsent) =
        enqueue_all_full max_queue (iter_unacked seeded.last_acked spool) seeded full in
      let (same', unsent') =
        enqueue_all_full max_queue later (start_replay answer max_queue spool seeded)
          (rw same full) in
      (same' ∙ same, unsent' ∙ unsent)

  pump_queue_open :
      (acked : ℕ) (cs : List SpoolChunk) (w : Wire)
      → ((i : ℕ) (c : SpoolChunk) → answer i c ≡ true)
      → ((pump_queue answer acked cs w).0 ≡ [])
        × ((pump_queue answer acked cs w).1.taken ≡ w.taken ++ iter_unacked acked cs)
  unfolding pump_queue iter_unacked
  pump_queue_open acked [] w up = (refl, sym (append-nil w.taken))
  pump_queue_open acked (c ∷ cs) w up =
      let w' : Wire = record { calls = suc w.calls; taken = w.taken ++ c ∷ [] } in
      ground (
        arith,
        up w.calls c,
        pump_queue_open acked cs w up,
        pump_queue_open acked cs w' up,
        append_assoc w.taken (c ∷ []) (iter_unacked acked cs),
      )

  iter_unacked-drop_acked :
      (acked : ℕ) (cs : List SpoolChunk)
      → iter_unacked acked (drop_acked acked cs) ≡ iter_unacked acked cs
  unfolding iter_unacked drop_acked
  iter_unacked-drop_acked acked [] = refl
  iter_unacked-drop_acked acked (c ∷ cs) = ground (arith, iter_unacked-drop_acked acked cs)

  -- While the wire takes every chunk, an acknowledgement empties the queue: what it held beyond the
  -- new cursor goes to the wire, in the order of the queue.
  on_ack_drains :
      (max_queue sequence : ℕ) (s : SpoolSender)
      → ((i : ℕ) (c : SpoolChunk) → answer i c ≡ true)
      → let after = (on_ack answer max_queue sequence s).0 in
        (after.queue ≡ [])
        × (after.wire.taken ≡ s.wire.taken ++ iter_unacked after.last_acked s.queue)
  unfolding on_ack pump
  on_ack_drains max_queue sequence s up =
      let acked = if ltb s.last_acked sequence then sequence else s.last_acked in
      let (empty, taken) = pump_queue_open acked (drop_acked acked s.queue) s.wire up in
      ground (arith, empty, taken, iter_unacked-drop_acked acked s.queue)
