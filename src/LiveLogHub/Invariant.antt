-- ===== src/LiveLogHub/Invariant.antt =====
-- apps/controller/src/logs/live-log-hub.ts: what holds of every subscription between two calls.
use remote_build_orchestrato.Common.{
  ℕ, zero, suc, ◌≤◌, ◌≡◌, refl, ap, inl, inr, Bool, true, false, not, Option, none, some, List, [],
  ◌∷◌, ◌++◌, arith, if◌then◌else◌, length, length-append, List-cases,
}
use remote_build_orchestrato.LiveLogHub.{
  LiveLogEvent, event, heartbeat, SubscriberState, LiveLogHub, subscribe, close, offer, publish,
  beat, heartbeat_all, on_group, on_attached, next, on_abort, in_group,
}

pub record IsConsistent (s : SubscriberState) : Type 0 where
  pub grouped : s.attached ≡ not s.closed
  pub drop_closes : s.dropped ≡ true → s.closed ≡ true
  pub bounded : length s.queue ≤ s.max_buffered

abbrev pub AllConsistent : List SubscriberState → Type 0
AllConsistent [] = Unit
AllConsistent (s ∷ ss) = IsConsistent s × AllConsistent ss

-- A call on the hub, or on the subscription in a place of the list.
pub data Call : Type 0 where
  subscribes : ℕ → Option ℕ → Option ℕ → Call
  publishes : LiveLogEvent → Call
  heartbeats : Option ℕ → Call
  closes : ℕ → Call
  aborts : ℕ → Call
  pulls : ℕ → Bool → Call

abbrev change_at :
    ℕ → (SubscriberState → SubscriberState) → List SubscriberState → List SubscriberState
change_at i change [] = []
change_at zero change (s ∷ ss) = change s ∷ ss
change_at (suc i) change (s ∷ ss) = s ∷ change_at i change ss

unfoldable pub step : LiveLogHub → Call → LiveLogHub
step hub (subscribes attempt after max) = subscribe hub attempt after max
step hub (publishes e) = publish hub e
step hub (heartbeats attempt) = heartbeat_all hub attempt
step hub (closes i) = record hub { subscribers = change_at i close hub.subscribers }
step hub (aborts i) = record hub { subscribers = change_at i on_abort hub.subscribers }
step hub (pulls i aborted) = record hub {
  subscribers = change_at i (λ s. (next aborted s).0) hub.subscribers;
}

unfoldable pub run : LiveLogHub → List Call → LiveLogHub
run hub [] = hub
run hub (c ∷ cs) = run (step hub c) cs

offer-IsConsistent :
    (e : LiveLogEvent) (s : SubscriberState) → IsConsistent s → IsConsistent (offer e s)
unfolding offer
offer-IsConsistent e s h = ground (arith, length-append s.queue (event e ∷ []))

beat-IsConsistent : (s : SubscriberState) → IsConsistent s → IsConsistent (beat s)
unfolding beat
beat-IsConsistent s h = ground (arith, length-append s.queue (heartbeat ∷ []))

close-IsConsistent : (s : SubscriberState) → IsConsistent s → IsConsistent (close s)
unfolding close
close-IsConsistent s h = ground arith

on_abort-IsConsistent : (s : SubscriberState) → IsConsistent s → IsConsistent (on_abort s)
unfolding on_abort
on_abort-IsConsistent s h = ground arith

next-IsConsistent :
    (aborted : Bool) (s : SubscriberState) → IsConsistent s → IsConsistent (next aborted s).0
unfolding next
next-IsConsistent aborted s h = elim (List-cases s.queue) [
  | inl e ↦ ground arith
  | inr (i, rest, e) ↦ ground (arith, ap length e)
]

module _ (change : SubscriberState → SubscriberState)
    (keeps : (s : SubscriberState) → IsConsistent s → IsConsistent (change s)) where
  maybe_changed :
      (b : Bool) (s : SubscriberState) → IsConsistent s → IsConsistent (if b then change s else s)
  maybe_changed true s h = keeps s h
  maybe_changed false s h = h

  on_group-AllConsistent :
      (attempt : ℕ) (ss : List SubscriberState)
      → AllConsistent ss
      → AllConsistent (on_group change attempt ss)
  unfolding on_group
  on_group-AllConsistent attempt [] h = tt
  on_group-AllConsistent attempt (s ∷ ss) h =
      (maybe_changed (in_group attempt s) s h.0, on_group-AllConsistent attempt ss h.1)

  on_attached-AllConsistent :
      (ss : List SubscriberState) → AllConsistent ss → AllConsistent (on_attached change ss)
  unfolding on_attached
  on_attached-AllConsistent [] h = tt
  on_attached-AllConsistent (s ∷ ss) h =
      (maybe_changed s.attached s h.0, on_attached-AllConsistent ss h.1)

  change_at-AllConsistent :
      (i : ℕ) (ss : List SubscriberState) → AllConsistent ss → AllConsistent (change_at i change ss)
  change_at-AllConsistent i [] h = tt
  change_at-AllConsistent zero (s ∷ ss) h = (keeps s h.0, h.1)
  change_at-AllConsistent (suc i) (s ∷ ss) h = (h.0, change_at-AllConsistent i ss h.1)

subscribe-AllConsistent :
    (ss : List SubscriberState) (s : SubscriberState)
    → AllConsistent ss
    → IsConsistent s
    → AllConsistent (ss ++ s ∷ [])
subscribe-AllConsistent [] s h k = (k, tt)
subscribe-AllConsistent (t ∷ ss) s h k = (h.0, subscribe-AllConsistent ss s h.1 k)

step-AllConsistent :
    (hub : LiveLogHub) (c : Call)
    → AllConsistent hub.subscribers
    → AllConsistent (step hub c).subscribers
unfolding step subscribe publish heartbeat_all
step-AllConsistent hub (subscribes attempt after max) h =
    subscribe-AllConsistent hub.subscribers _ h
      (record { grouped = refl; drop_closes = λ e. cc; bounded = omega arith })
step-AllConsistent hub (publishes e) h =
    on_group-AllConsistent (offer e) (offer-IsConsistent e) e.attempt_id hub.subscribers h
step-AllConsistent hub (heartbeats none) h =
    on_attached-AllConsistent beat beat-IsConsistent hub.subscribers h
step-AllConsistent hub (heartbeats (some attempt)) h =
    on_group-AllConsistent beat beat-IsConsistent attempt hub.subscribers h
step-AllConsistent hub (closes i) h =
    change_at-AllConsistent close close-IsConsistent i hub.subscribers h
step-AllConsistent hub (aborts i) h =
    change_at-AllConsistent on_abort on_abort-IsConsistent i hub.subscribers h
step-AllConsistent hub (pulls i aborted) h =
    change_at-AllConsistent (λ s. (next aborted s).0) (next-IsConsistent aborted) i hub.subscribers
      h

-- Over any calls, every subscription stands in the set of its attempt exactly while it is open, is
-- closed if it was dropped, and buffers no more than its limit.
pub run-AllConsistent :
    (hub : LiveLogHub) (cs : List Call)
    → AllConsistent hub.subscribers
    → AllConsistent (run hub cs).subscribers
unfolding run
run-AllConsistent hub [] h = h
run-AllConsistent hub (c ∷ cs) h = run-AllConsistent (step hub c) cs (step-AllConsistent hub c h)
