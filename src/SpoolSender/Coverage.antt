-- ===== src/SpoolSender/Coverage.antt =====
-- apps/agent/src/logs/spool-sender.ts: no chunk that the spool holds is lost by the bounded queue.
use remote_build_orchestrato.Common.{
  ℕ, zero, suc, ◌≤◌, ◌≡◌, refl, ◌⊎◌, inl, inr, Bool, true, false, Option, none, some, List, [], ◌∷◌,
  ◌++◌, arith, ltb, ◌==◌, if◌then◌else◌, Bool-cases, ==_iff,
}
use remote_build_orchestrato.Common.Sort.{sort}
use remote_build_orchestrato.SpoolSender.Numbers.{has-append, has-sort}
use remote_build_orchestrato.SpoolSender.{
  SpoolChunk, Wire, SpoolSender, has, no_later, drop_acked, iter_unacked, pump_queue, pump, enqueue,
  on_ack,
}

has-drop_acked :
    (n acked : ℕ) (xs : List SpoolChunk)
    → has n xs ≡ true
    → (n ≤ acked) ⊎ (has n (drop_acked acked xs) ≡ true)
unfolding drop_acked
has-drop_acked n acked [] h = inr h
has-drop_acked n acked (x ∷ xs) h = ground (arith, has-drop_acked n acked xs)

has-iter_unacked :
    (n after : ℕ) (xs : List SpoolChunk)
    → has n xs ≡ true
    → (n ≤ after) ⊎ (has n (iter_unacked after xs) ≡ true)
unfolding iter_unacked
has-iter_unacked n after [] h = inr h
has-iter_unacked n after (x ∷ xs) h = ground (arith, has-iter_unacked n after xs)

-- A chunk of this number is acknowledged, waits in the queue, or was taken by the wire.
abbrev pub Held : ℕ → SpoolSender → Type 0
Held n s = (n ≤ s.last_acked) ⊎ ((has n s.queue ≡ true) ⊎ (has n s.wire.taken ≡ true))

-- The attempt on the Agent: the chunks on disk, the sender, and the calls of `enqueue` that the
-- replays under way have still to make, which may come in any order.
pub record Attempt : Type 0 where
  pub spool : List SpoolChunk
  pub sender : SpoolSender
  pub pending : List SpoolChunk

pub data Move : Type 0 where
  appends : SpoolChunk → Move
  acks : ℕ → Move
  reconnects : Move
  replays : ℕ → Move

abbrev take_out : ℕ → List SpoolChunk → Option SpoolChunk × List SpoolChunk
take_out i [] = (none, [])
take_out zero (c ∷ cs) = (some c, cs)
take_out (suc i) (c ∷ cs) = let (found, rest) = take_out i cs in (found, c ∷ rest)

abbrev replay_from : Option ℕ → List SpoolChunk → List SpoolChunk
replay_from none spool = []
replay_from (some after) spool = iter_unacked after spool

abbrev Covered : ℕ → Attempt → Type 0
Covered n a = Held n a.sender ⊎ ((a.sender.needs_replay ≡ true) ⊎ (has n a.pending ≡ true))

held_or_due {ℓ κ μ} : {A : Type ℓ} {B : Type κ} {C : Type μ} → A ⊎ B → A ⊎ (B ⊎ C)
held_or_due (inl held) = inl held
held_or_due (inr due) = inr (inl due)

abbrev pub fresh_attempt : Attempt
fresh_attempt = record {
  spool = [];
  sender = record {
    queue = [];
    last_acked = 0;
    needs_replay = false;
    wire = record { calls = 0; taken = [] };
  };
  pending = [];
}

module _ (answer : ℕ → SpoolChunk → Bool) (max_queue : ℕ) where
  abbrev enqueue_found : Option SpoolChunk → SpoolSender → SpoolSender
  enqueue_found none s = s
  enqueue_found (some c) s = enqueue answer max_queue c s

  unfoldable pub step : Attempt → Move → Attempt
  step a (appends c) = record a {
    spool = a.spool ++ c ∷ [];
    sender = enqueue answer max_queue c a.sender;
  }
  step a (acks sequence) =
      let (sender, replay) = on_ack answer max_queue sequence a.sender in
      record a { sender = sender; pending = a.pending ++ replay_from replay a.spool }
  step a reconnects = record a { pending = a.pending ++ iter_unacked a.sender.last_acked a.spool }
  step a (replays i) =
      let (found, rest) = take_out i a.pending in
      record a { sender = enqueue_found found a.sender; pending = rest }

  unfoldable pub run : Attempt → List Move → Attempt
  run a [] = a
  run a (m ∷ ms) = run (step a m) ms

  pump_queue-taken :
      (n acked : ℕ) (queue : List SpoolChunk) (w : Wire)
      → has n w.taken ≡ true
      → has n (pump_queue answer acked queue w).1.taken ≡ true
  unfolding pump_queue
  pump_queue-taken n acked [] w h = h
  pump_queue-taken n acked (c ∷ cs) w h =
      let w' : Wire = record { calls = suc w.calls; taken = w.taken ++ c ∷ [] } in
      ground (
        arith,
        has-append n w.taken (c ∷ []),
        pump_queue-taken n acked cs w,
        pump_queue-taken n acked cs w',
      )

  pump_queue-has :
      (n acked : ℕ) (queue : List SpoolChunk) (w : Wire)
      → has n queue ≡ true
      → (n ≤ acked)
        ⊎ ((has n (pump_queue answer acked queue w).0 ≡ true)
            ⊎ (has n (pump_queue answer acked queue w).1.taken ≡ true))
  unfolding pump_queue
  pump_queue-has n acked [] w h = inr (inl h)
  pump_queue-has n acked (c ∷ cs) w h =
      let w' : Wire = record { calls = suc w.calls; taken = w.taken ++ c ∷ [] } in
      ground (
        arith,
        has-append n w.taken (c ∷ []),
        pump_queue-taken n acked cs w',
        pump_queue-has n acked cs w,
        pump_queue-has n acked cs w',
      )

  pump-Held : (n : ℕ) (s : SpoolSender) → Held n s → Held n (pump answer s)
  unfolding pump
  pump-Held n s (inl h) = inl h
  pump-Held n s (inr (inl h)) = pump_queue-has n s.last_acked s.queue s.wire h
  pump-Held n s (inr (inr h)) = inr (inr (pump_queue-taken n s.last_acked s.queue s.wire h))

  enqueue-Held :
      (n : ℕ) (c : SpoolChunk) (s : SpoolSender) → Held n s → Held n (enqueue answer max_queue c s)
  unfolding enqueue
  enqueue-Held n c s h =
      let s' = record s { queue = sort no_later (s.queue ++ c ∷ []) } in
      ground (arith, pump-Held n s', has-append n s.queue (c ∷ []), has-sort n (s.queue ++ c ∷ []))

  -- After `enqueue` its chunk is held, or a replay is due.
  enqueue_holds :
      (n : ℕ) (c : SpoolChunk) (s : SpoolSender)
      → c.sequence ≡ n
      → Held n (enqueue answer max_queue c s) ⊎ ((enqueue answer max_queue c s).needs_replay ≡ true)
  unfolding enqueue
  enqueue_holds n c s e =
      let s' = record s { queue = sort no_later (s.queue ++ c ∷ []) } in
      ground (arith, pump-Held n s', has-append n s.queue (c ∷ []), has-sort n (s.queue ++ c ∷ []))

  enqueue-needs_replay :
      (c : SpoolChunk) (s : SpoolSender)
      → s.needs_replay ≡ true
      → (enqueue answer max_queue c s).needs_replay ≡ true
  unfolding enqueue pump
  enqueue-needs_replay c s h = ground arith

  on_ack-Held :
      (n sequence : ℕ) (s : SpoolSender) → Held n s → Held n (on_ack answer max_queue sequence s).0
  unfolding on_ack
  on_ack-Held n sequence s h =
      let acked = if ltb s.last_acked sequence then sequence else s.last_acked in
      let s' : SpoolSender = record s { last_acked = acked; queue = drop_acked acked s.queue } in
      ground (arith, pump-Held n s', has-drop_acked n acked s.queue)

  on_ack-replay :
      (n sequence : ℕ) (s : SpoolSender) (spool : List SpoolChunk)
      → s.needs_replay ≡ true
      → has n spool ≡ true
      → let (after, start) = on_ack answer max_queue sequence s in
        Held n after ⊎ ((after.needs_replay ≡ true) ⊎ (has n (replay_from start spool) ≡ true))
  unfolding on_ack pump
  on_ack-replay n sequence s spool h m =
      let acked = if ltb s.last_acked sequence then sequence else s.last_acked in
      ground (arith, has-iter_unacked n acked spool)

  take_out-has :
      (n i : ℕ) (cs : List SpoolChunk)
      → has n cs ≡ true
      → ((c : SpoolChunk) × ((take_out i cs).0 ≡ some c) × (c.sequence ≡ n))
        ⊎ (has n (take_out i cs).1 ≡ true)
  take_out-has n i [] h = inr h
  take_out-has n zero (c ∷ cs) h = elim (Bool-cases (c.sequence == n)) [
    | inl e ↦ inl (c, refl, (==_iff c.sequence n).0 e)
    | inr e ↦ inr (ground arith)
  ]
  take_out-has n (suc i) (c ∷ cs) h = elim (Bool-cases (c.sequence == n)) [
    | inl e ↦ inr (ground arith)
    | inr e ↦ elim (take_out-has n i cs (ground arith)) [
      | inl found ↦ inl found
      | inr left ↦ inr (ground arith)
    ]
  ]

  enqueue_found-Held :
      (n : ℕ) (o : Option SpoolChunk) (s : SpoolSender) → Held n s → Held n (enqueue_found o s)
  enqueue_found-Held n none s h = h
  enqueue_found-Held n (some c) s h = enqueue-Held n c s h

  enqueue_found-needs_replay :
      (o : Option SpoolChunk) (s : SpoolSender)
      → s.needs_replay ≡ true
      → (enqueue_found o s).needs_replay ≡ true
  enqueue_found-needs_replay none s h = h
  enqueue_found-needs_replay (some c) s h = enqueue-needs_replay c s h

  AllCovered : Attempt → Type 0
  AllCovered a = (n : ℕ) → has n a.spool ≡ true → Covered n a

  appends-Covered : (a : Attempt) (c : SpoolChunk) → AllCovered a → AllCovered (step a (appends c))
  unfolding step AllCovered
  appends-Covered a c h n m = elim (Bool-cases (c.sequence == n)) [
    | inl e ↦ held_or_due (enqueue_holds n c a.sender ((==_iff c.sequence n).0 e))
    | inr e ↦
        let old : has n a.spool ≡ true = ground (arith, has-append n a.spool (c ∷ [])) in
        elim (h n old) [
          | inl held ↦ inl (enqueue-Held n c a.sender held)
          | inr (inl due) ↦ inr (inl (enqueue-needs_replay c a.sender due))
          | inr (inr there) ↦ inr (inr there)
        ]
  ]

  acks-Covered : (a : Attempt) (sequence : ℕ) → AllCovered a → AllCovered (step a (acks sequence))
  unfolding step AllCovered
  acks-Covered a sequence h n m =
      let start = (on_ack answer max_queue sequence a.sender).1 in
      let joined = has-append n a.pending (replay_from start a.spool) in
      elim (h n m) [
        | inl held ↦ inl (on_ack-Held n sequence a.sender held)
        | inr (inl due) ↦ elim (on_ack-replay n sequence a.sender a.spool due m) [
          | inl held ↦ inl held
          | inr (inl still) ↦ inr (inl still)
          | inr (inr there) ↦ inr (inr (ground (arith, joined)))
        ]
        | inr (inr there) ↦ inr (inr (ground (arith, joined)))
      ]

  reconnects-Covered : (a : Attempt) → AllCovered a → AllCovered (step a reconnects)
  unfolding step AllCovered
  reconnects-Covered a h n m =
      ground (arith, h n m, has-append n a.pending (iter_unacked a.sender.last_acked a.spool))

  replays-Covered : (a : Attempt) (i : ℕ) → AllCovered a → AllCovered (step a (replays i))
  unfolding step AllCovered
  replays-Covered a i h n m =
      let found = (take_out i a.pending).0 in
      elim (h n m) [
        | inl held ↦ inl (enqueue_found-Held n found a.sender held)
        | inr (inl due) ↦ inr (inl (enqueue_found-needs_replay found a.sender due))
        | inr (inr there) ↦ elim (take_out-has n i a.pending there) [
          | inl (c, is_c, same) ↦ rw is_c (held_or_due (enqueue_holds n c a.sender same))
          | inr left ↦ inr (inr left)
        ]
      ]

  step-Covered : (a : Attempt) (m : Move) → AllCovered a → AllCovered (step a m)
  step-Covered a (appends c) h = appends-Covered a c h
  step-Covered a (acks sequence) h = acks-Covered a sequence h
  step-Covered a reconnects h = reconnects-Covered a h
  step-Covered a (replays i) h = replays-Covered a i h

  run-Covered : (a : Attempt) (ms : List Move) → AllCovered a → AllCovered (run a ms)
  unfolding run
  run-Covered a [] h = h
  run-Covered a (m ∷ ms) h = run-Covered (step a m) ms (step-Covered a m h)

  -- From an empty spool, whatever the wire answers and however appends, acknowledgements,
  -- reconnections and replays follow each other, no chunk on disk is lost: it is acknowledged,
  -- waits in the queue, was taken by the wire, is still to be enqueued by a replay under way, or
  -- the sender has noted that a replay is due.
  pub never_lost :
      (ms : List Move) (n : ℕ)
      → let a = run fresh_attempt ms in
        has n a.spool ≡ true
        → (n ≤ a.sender.last_acked)
          ⊎ ((has n a.sender.queue ≡ true)
              ⊎ ((has n a.sender.wire.taken ≡ true)
                  ⊎ ((a.sender.needs_replay ≡ true) ⊎ (has n a.pending ≡ true))))
  unfolding AllCovered
  never_lost ms n m = elim (run-Covered fresh_attempt ms (λ i e. cc) n m) [
    | inl (inl acked) ↦ inl acked
    | inl (inr (inl waits)) ↦ inr (inl waits)
    | inl (inr (inr taken)) ↦ inr (inr (inl taken))
    | inr (inl due) ↦ inr (inr (inr (inl due)))
    | inr (inr there) ↦ inr (inr (inr (inr there)))
  ]
