-- ===== src/SpoolSender.antt =====
-- apps/agent/src/logs/spool-sender.ts: the bounded sender of an attempt's log chunks.
-- The wire is a counter of the calls of `send` and the chunks that it took; `answer` says what each
-- call returns. `pumping` is true only inside `pump`, which calls nothing that comes back to it.
pub mod Coverage
mod Numbers
pub mod Order
pub mod Flow
mod Scenarios
use remote_build_orchestrato.Common.{
  ℕ, suc, ◌+◌, Bool, true, false, ◌&&◌, ◌||◌, Option, none, some, List, [], ◌∷◌, ◌++◌, ltb, leb,
  ◌==◌, if◌then◌else◌, length, max,
}
use remote_build_orchestrato.Common.Sort.{sort}

pub data Stream : Type 0 where
  stdout stderr : Stream

pub record SpoolChunk : Type 0 where
  pub sequence : ℕ
  pub stream : Stream
  pub bytes : List ℕ

pub record Wire : Type 0 where
  pub calls : ℕ
  pub taken : List SpoolChunk

pub record SpoolSender : Type 0 where
  pub queue : List SpoolChunk
  pub last_acked : ℕ
  pub needs_replay : Bool
  pub wire : Wire

abbrev pub has : ℕ → List SpoolChunk → Bool
has n [] = false
has n (c ∷ cs) = c.sequence == n || has n cs

abbrev pub no_later : SpoolChunk → SpoolChunk → Bool
no_later a b = leb a.sequence b.sequence

unfoldable pub drop_acked : ℕ → List SpoolChunk → List SpoolChunk
drop_acked acked [] = []
drop_acked acked (c ∷ cs) =
    let rest = drop_acked acked cs in if ltb acked c.sequence then c ∷ cs else rest

-- What the spool holds after the cursor, which `startReplay` enqueues one by one.
unfoldable pub iter_unacked : ℕ → List SpoolChunk → List SpoolChunk
iter_unacked after [] = []
iter_unacked after (c ∷ cs) =
    let rest = iter_unacked after cs in if ltb after c.sequence then c ∷ rest else rest

unfoldable pub is_under_pressure : ℕ → SpoolSender → Bool
is_under_pressure max_queue s = s.needs_replay || leb max_queue (length s.queue)

unfoldable pub set_acked : ℕ → SpoolSender → SpoolSender
set_acked sequence s = record s { last_acked = max 0 sequence }

module _ (answer : ℕ → SpoolChunk → Bool) where
  -- The loop of `pump` on the queue, and the queue that it leaves.
  unfoldable pub pump_queue : ℕ → List SpoolChunk → Wire → List SpoolChunk × Wire
  pump_queue acked [] w = ([], w)
  pump_queue acked (c ∷ cs) w =
      let skipped = pump_queue acked cs w in
      let next = pump_queue acked cs (record { calls = suc w.calls; taken = w.taken ++ c ∷ [] }) in
      if leb c.sequence acked
      then skipped
      else if answer w.calls c
      then next
      else (c ∷ cs, record w { calls = suc w.calls })

  unfoldable pub pump : SpoolSender → SpoolSender
  pump s =
      let (queue, wire) = pump_queue s.last_acked s.queue s.wire in
      record s { queue = queue; wire = wire }

  unfoldable pub enqueue : ℕ → SpoolChunk → SpoolSender → SpoolSender
  unfolding pump
  enqueue max_queue c s =
      if leb c.sequence s.last_acked
      then s
      else if has c.sequence s.queue
      then s
      else if leb max_queue (length s.queue)
      then record s { needs_replay = true }
      else pump (record s { queue = sort no_later (s.queue ++ c ∷ []) })

  -- The sender, and the cursor of the replay that it starts.
  unfoldable pub on_ack : ℕ → ℕ → SpoolSender → SpoolSender × Option ℕ
  unfolding pump drop_acked
  on_ack max_queue sequence s =
      let acked = if ltb s.last_acked sequence then sequence else s.last_acked in
      let pumped = pump (record s { last_acked = acked; queue = drop_acked acked s.queue }) in
      if pumped.needs_replay && ltb (length pumped.queue) max_queue
      then (record pumped { needs_replay = false }, some acked)
      else (pumped, none)

  -- A replay with nothing between its calls of `enqueue`, on what the spool holds.
  abbrev pub enqueue_all : ℕ → List SpoolChunk → SpoolSender → SpoolSender
  enqueue_all max_queue [] s = s
  enqueue_all max_queue (c ∷ cs) s = enqueue_all max_queue cs (enqueue max_queue c s)

  unfoldable pub start_replay : ℕ → List SpoolChunk → SpoolSender → SpoolSender
  unfolding iter_unacked
  start_replay max_queue spool s = enqueue_all max_queue (iter_unacked s.last_acked spool) s
