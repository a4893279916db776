-- ===== src/LiveLogHub/Delivery.antt =====
-- apps/controller/src/logs/live-log-hub.ts: what one subscriber receives over any interleaving of
-- published events, heartbeats, its own calls of `next`, their aborts, and its close.
use remote_build_orchestrato.Common.{
  ℕ, ◌<◌, ◌≡◌, refl, sym, ap, ◌∙◌, ◌⊎◌, inl, inr, Bool, true, false, List, [], ◌∷◌, ◌++◌, arith,
  leb, if◌then◌else◌, List-cases,
}
use mathlib.Core.List.{append-nil, append_assoc}
use remote_build_orchestrato.LiveLogHub.{
  LiveLogEvent, HubItem, event, heartbeat, SubscriberState, close, offer, beat, on_abort, Pulled,
  item, ended, already_waiting, suspended, next,
}

-- What happens to a subscriber: an event of its attempt, a heartbeat, a pass of `next`, the abort of
-- one that waits, a close.
pub data Move : Type 0 where
  published : LiveLogEvent → Move
  beats closes aborts : Move
  pulls : Bool → Move

abbrev events_of : HubItem → List LiveLogEvent
events_of (event e) = e ∷ []
events_of heartbeat = []

abbrev pub events : List HubItem → List LiveLogEvent
events [] = []
events (i ∷ is) = events_of i ++ events is

abbrev received_by : Pulled → List LiveLogEvent
received_by (item i) = events_of i
received_by ended = []
received_by already_waiting = []
received_by suspended = []

unfoldable pub move : SubscriberState → Move → SubscriberState × List LiveLogEvent
move s (published e) = (offer e s, [])
move s beats = (beat s, [])
move s closes = (close s, [])
move s aborts = (on_abort s, [])
move s (pulls aborted) = let (s', p) = next aborted s in (s', received_by p)

-- The subscriber in the end, and the events that it received.
unfoldable pub receive : SubscriberState → List Move → SubscriberState × List LiveLogEvent
receive s [] = (s, [])
receive s (m ∷ ms) = let (s', es) = move s m in let (t, rest) = receive s' ms in (t, es ++ rest)

-- The published events that a subscriber has not seen yet: each with a sequence above all before.
abbrev pub unseen : ℕ → List Move → List LiveLogEvent
unseen after [] = []
unseen after (published e ∷ ms) =
    let old = unseen after ms in
    let new = unseen e.sequence ms in if leb e.sequence after then old else e ∷ new
unseen after (beats ∷ ms) = unseen after ms
unseen after (closes ∷ ms) = unseen after ms
unseen after (aborts ∷ ms) = unseen after ms
unseen after (pulls aborted ∷ ms) = unseen after ms

abbrev pub Increasing : ℕ → List LiveLogEvent → Type 0
Increasing after [] = Unit
Increasing after (e ∷ es) = (after < e.sequence) × Increasing e.sequence es

unseen-Increasing : (after : ℕ) (ms : List Move) → Increasing after (unseen after ms)
unseen-Increasing after [] = tt
unseen-Increasing after (published e ∷ ms) =
    ground (arith, unseen-Increasing after ms, unseen-Increasing e.sequence ms)
unseen-Increasing after (beats ∷ ms) = unseen-Increasing after ms
unseen-Increasing after (closes ∷ ms) = unseen-Increasing after ms
unseen-Increasing after (aborts ∷ ms) = unseen-Increasing after ms
unseen-Increasing after (pulls aborted ∷ ms) = unseen-Increasing after ms

events-append : (is js : List HubItem) → events (is ++ js) ≡ events is ++ events js
events-append [] js = refl
events-append (i ∷ is) js = simp (events-append is js, append_assoc)

abbrev IsOpen : SubscriberState → Type 0
IsOpen s = (s.closed ≡ false) × (s.dropped ≡ false)

-- What a move leaves for later: all that was still to be received, or a closed subscriber.
abbrev Moved : SubscriberState → Move → List Move → Type 0
Moved s m ms =
    (IsOpen (move s m).0
      × (events s.queue ++ unseen s.after_sequence (m ∷ ms)
          ≡ (move s m).1 ++ (events (move s m).0.queue ++ unseen (move s m).0.after_sequence ms)))
    ⊎ (((move s m).0.closed ≡ true) × ((move s m).1 ≡ []))

published-Moved :
    (s : SubscriberState) (e : LiveLogEvent) (ms : List Move) → IsOpen s → Moved s (published e) ms
unfolding move offer
published-Moved s e ms open_now = ground (
  arith,
  events-append s.queue (event e ∷ []),
  append_assoc (events s.queue) (e ∷ []) (unseen e.sequence ms),
)

beats-Moved : (s : SubscriberState) (ms : List Move) → IsOpen s → Moved s beats ms
unfolding move beat
beats-Moved s ms open_now =
    ground (arith, events-append s.queue (heartbeat ∷ []), append-nil (events s.queue))

pulls-Moved :
    (s : SubscriberState) (aborted : Bool) (ms : List Move) → IsOpen s → Moved s (pulls aborted) ms
unfolding move next
pulls-Moved s aborted ms open_now = elim (List-cases s.queue) [
  | inl e ↦ ground arith
  | inr (i, rest, e) ↦
      ground (arith, append_assoc (events_of i) (events rest) (unseen s.after_sequence ms))
]

move-Moved : (s : SubscriberState) (m : Move) (ms : List Move) → IsOpen s → Moved s m ms
move-Moved s (published e) ms open_now = published-Moved s e ms open_now
move-Moved s beats ms open_now = beats-Moved s ms open_now
move-Moved s closes ms open_now = inr (unfold move close in ground arith, unfold move in refl)
move-Moved s aborts ms open_now = unfold move on_abort in inl (open_now, refl)
move-Moved s (pulls aborted) ms open_now = pulls-Moved s aborted ms open_now

move_closed :
    (s : SubscriberState) (m : Move)
    → s.closed ≡ true
    → ((move s m).0.closed ≡ true) × ((move s m).1 ≡ [])
unfolding move offer beat close on_abort next
move_closed s (published e) h = ground arith
move_closed s beats h = ground arith
move_closed s closes h = ground arith
move_closed s aborts h = (h, refl)
move_closed s (pulls aborted) h = ground arith

receive_closed :
    (s : SubscriberState) (ms : List Move)
    → s.closed ≡ true
    → ((receive s ms).0.closed ≡ true) × ((receive s ms).1 ≡ [])
unfolding receive
receive_closed s [] h = (h, refl)
receive_closed s (m ∷ ms) h =
    let (shut, none_received) = move_closed s m h in
    let (shut', none_later) = receive_closed (move s m).0 ms shut in
    (shut', rw (none_received, none_later) refl)

-- An open subscriber receives the published events that are new to it, in their order: all of
-- them, up to those still in its queue, while it stays open, and the first ones if it is closed or
-- dropped; each once and with a sequence above those before.
pub receive_in_order :
    (s : SubscriberState) (ms : List Move)
    → s.closed ≡ false
    → s.dropped ≡ false
    → let (t, received) = receive s ms in
      (rest : List LiveLogEvent) × (received ++ rest ≡ events s.queue ++ unseen s.after_sequence ms)
      × (t.closed ≡ false → rest ≡ events t.queue)
      × Increasing s.after_sequence (unseen s.after_sequence ms)
unfolding receive
receive_in_order s [] c d = (events s.queue, simp append-nil, λ h. refl, tt)
receive_in_order s (m ∷ ms) c d = elim (move-Moved s m ms (c, d)) [
  | inl ((c', d'), e) ↦
      let s' = (move s m).0 in
      let (rest, same, kept, up) = receive_in_order s' ms c' d' in
      (
        rest,
        append_assoc (move s m).1 (receive s' ms).1 rest
            ∙ ap (λ es. (move s m).1 ++ es) same
            ∙ sym e,
        kept,
        unseen-Increasing s.after_sequence (m ∷ ms),
      )
  | inr (shut, none_received) ↦ (
    events s.queue ++ unseen s.after_sequence (m ∷ ms),
    rw ((receive_closed (move s m).0 ms shut).1, none_received),
    λ h. absurd (ground (arith, (receive_closed (move s m).0 ms shut).0)),
    unseen-Increasing s.after_sequence (m ∷ ms),
  )
]
