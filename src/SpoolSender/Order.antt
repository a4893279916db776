-- ===== src/SpoolSender/Order.antt =====
-- apps/agent/src/logs/spool-sender.ts: the order and the bound of the queue, and when it moves.
use remote_build_orchestrato.Common.{
  ℕ, suc, ◌≤◌, ◌<◌, ◌≡◌, refl, Bool, false, List, [], ◌∷◌, ◌++◌, arith, ltb, if◌then◌else◌, length,
  length-append,
}
use remote_build_orchestrato.Common.Sort.{sort, insert}
use remote_build_orchestrato.SpoolSender.Numbers.{has-append, has-sort}
use remote_build_orchestrato.SpoolSender.{
  SpoolChunk, Wire, SpoolSender, has, no_later, drop_acked, iter_unacked, pump_queue, pump, enqueue,
  enqueue_all, set_acked, start_replay, on_ack,
}

abbrev Above : ℕ → List SpoolChunk → Type 0
Above n [] = Unit
Above n (c ∷ cs) = (n < c.sequence) × Above n cs

abbrev Increasing : List SpoolChunk → Type 0
Increasing [] = Unit
Increasing (c ∷ cs) = Above c.sequence cs × Increasing cs

Above-weaken : (m n : ℕ) (cs : List SpoolChunk) → m < n → Above n cs → Above m cs
Above-weaken m n [] l h = tt
Above-weaken m n (c ∷ cs) l h = (omega (arith, h.0), Above-weaken m n cs l h.1)

Above-absent : (n : ℕ) (cs : List SpoolChunk) → Above n cs → has n cs ≡ false
Above-absent n [] h = refl
Above-absent n (c ∷ cs) h = ground (arith, Above-absent n cs h.1)

insert-Above :
    (n : ℕ) (c : SpoolChunk) (cs : List SpoolChunk)
    → n < c.sequence
    → Above n cs
    → Above n (insert no_later c cs)
unfolding insert
insert-Above n c [] l h = (l, tt)
insert-Above n c (x ∷ xs) l h = ground (arith, insert-Above n c xs l h.1)

insert-Increasing :
    (c : SpoolChunk) (cs : List SpoolChunk)
    → has c.sequence cs ≡ false
    → Increasing cs
    → Increasing (insert no_later c cs)
unfolding insert
insert-Increasing c [] absent h = (tt, tt)
insert-Increasing c (x ∷ xs) absent h = ground (
  arith,
  Above-weaken c.sequence x.sequence xs,
  insert-Above x.sequence c xs,
  insert-Increasing c xs,
)

length-insert :
    (c : SpoolChunk) (cs : List SpoolChunk) → length (insert no_later c cs) ≡ suc (length cs)
unfolding insert
length-insert c [] = refl
length-insert c (x ∷ xs) = ground (arith, length-insert c xs)

length-sort : (cs : List SpoolChunk) → length (sort no_later cs) ≡ length cs
unfolding sort
length-sort [] = refl
length-sort (c ∷ cs) = ground (arith, length-insert c (sort no_later cs), length-sort cs)

sort-Increasing :
    (cs : List SpoolChunk) (c : SpoolChunk)
    → has c.sequence cs ≡ false
    → Increasing cs
    → Increasing (sort no_later (cs ++ c ∷ []))
unfolding sort insert
sort-Increasing [] c absent h = (tt, tt)
sort-Increasing (x ∷ xs) c absent h =
    insert-Increasing x (sort no_later (xs ++ c ∷ []))
      (ground (
        arith,
        has-sort x.sequence (xs ++ c ∷ []),
        has-append x.sequence xs (c ∷ []),
        Above-absent x.sequence xs h.0,
      ))
      (sort-Increasing xs c (ground arith) h.1)

drop_acked-ordered :
    (acked : ℕ) (cs : List SpoolChunk)
    → Increasing cs
    → Increasing (drop_acked acked cs) × (length (drop_acked acked cs) ≤ length cs)
unfolding drop_acked
drop_acked-ordered acked [] h = (tt, omega arith)
drop_acked-ordered acked (c ∷ cs) h = ground (arith, drop_acked-ordered acked cs h.1)

-- The calls on a sender; a replay has nothing between its calls of `enqueue`.
pub data Call : Type 0 where
  enqueues : SpoolChunk → Call
  acknowledges seeds : ℕ → Call
  replays : List SpoolChunk → Call

abbrev pub IsOrdered : ℕ → SpoolSender → Type 0
IsOrdered max_queue s = Increasing s.queue × (length s.queue ≤ max_queue)

module _ (answer : ℕ → SpoolChunk → Bool) where
  pump_queue-ordered :
      (acked : ℕ) (cs : List SpoolChunk) (w : Wire)
      → Increasing cs
      → Increasing (pump_queue answer acked cs w).0
        × (length (pump_queue answer acked cs w).0 ≤ length cs)
  unfolding pump_queue
  pump_queue-ordered acked [] w h = (tt, omega arith)
  pump_queue-ordered acked (c ∷ cs) w h = ground (
    arith,
    pump_queue-ordered acked cs w h.1,
    pump_queue-ordered acked cs (record { calls = suc w.calls; taken = w.taken ++ c ∷ [] }) h.1,
  )

  enqueue-IsOrdered :
      (max_queue : ℕ) (c : SpoolChunk) (s : SpoolSender)
      → IsOrdered max_queue s
      → IsOrdered max_queue (enqueue answer max_queue c s)
  unfolding enqueue pump
  enqueue-IsOrdered max_queue c s h =
      let longer = s.queue ++ c ∷ [] in
      ground (
        arith,
        sort-Increasing s.queue c,
        length-sort longer,
        length-append s.queue (c ∷ []),
        pump_queue-ordered s.last_acked (sort no_later longer) s.wire,
      )

  on_ack-IsOrdered :
      (max_queue sequence : ℕ) (s : SpoolSender)
      → IsOrdered max_queue s
      → IsOrdered max_queue (on_ack answer max_queue sequence s).0
  unfolding on_ack pump
  on_ack-IsOrdered max_queue sequence s h =
      let acked = if ltb s.last_acked sequence then sequence else s.last_acked in
      ground (
        arith,
        drop_acked-ordered acked s.queue h.0,
        pump_queue-ordered acked (drop_acked acked s.queue) s.wire,
      )

  enqueue_all-IsOrdered :
      (max_queue : ℕ) (cs : List SpoolChunk) (s : SpoolSender)
      → IsOrdered max_queue s
      → IsOrdered max_queue (enqueue_all answer max_queue cs s)
  enqueue_all-IsOrdered max_queue [] s h = h
  enqueue_all-IsOrdered max_queue (c ∷ cs) s h =
      enqueue_all-IsOrdered max_queue cs (enqueue answer max_queue c s)
        (enqueue-IsOrdered max_queue c s h)

  unfoldable pub call : ℕ → SpoolSender → Call → SpoolSender
  call max_queue s (enqueues c) = enqueue answer max_queue c s
  call max_queue s (acknowledges sequence) = (on_ack answer max_queue sequence s).0
  call max_queue s (seeds sequence) = set_acked sequence s
  call max_queue s (replays spool) = start_replay answer max_queue spool s

  unfoldable pub run : ℕ → SpoolSender → List Call → SpoolSender
  run max_queue s [] = s
  run max_queue s (c ∷ cs) = run max_queue (call max_queue s c) cs

  call-IsOrdered :
      (max_queue : ℕ) (s : SpoolSender) (c : Call)
      → IsOrdered max_queue s
      → IsOrdered max_queue (call max_queue s c)
  unfolding call start_replay set_acked
  call-IsOrdered max_queue s (enqueues c) h = enqueue-IsOrdered max_queue c s h
  call-IsOrdered max_queue s (acknowledges sequence) h = on_ack-IsOrdered max_queue sequence s h
  call-IsOrdered max_queue s (seeds sequence) h = h
  call-IsOrdered max_queue s (replays spool) h =
      enqueue_all-IsOrdered max_queue (iter_unacked s.last_acked spool) s h

  -- Over any calls the queue stays strictly increasing in the sequence numbers, so without
  -- duplicates, and within its bound.
  pub run-IsOrdered :
      (max_queue : ℕ) (s : SpoolSender) (cs : List Call)
      → IsOrdered max_queue s
      → IsOrdered max_queue (run max_queue s cs)
  unfolding run
  run-IsOrdered max_queue s [] h = h
  run-IsOrdered max_queue s (c ∷ cs) h =
      run-IsOrdered max_queue (call max_queue s c) cs (call-IsOrdered max_queue s c h)
