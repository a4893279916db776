-- ===== src/LiveLogHub/Scenarios.antt =====
-- A subscriber with room for two events that is dropped at the third.
use remote_build_orchestrato.Common.{ℕ, ◌≡◌, refl, false, none, some, List, [], ◌∷◌, ◌++◌}
use remote_build_orchestrato.LiveLogHub.{
  LiveLogEvent, stdout, event, SubscriberState, LiveLogHub, fresh_subscriber,
}
use remote_build_orchestrato.LiveLogHub.Delivery.{
  Move, published, beats, pulls, receive, receive_in_order, unseen, events,
}
use remote_build_orchestrato.LiveLogHub.Invariant.{
  AllConsistent, run, subscribes, publishes, heartbeats, closes, run-AllConsistent,
}
use remote_build_orchestrato.LiveLogHub.Invariant

abbrev line : ℕ → LiveLogEvent
line n = record { attempt_id = 1; sequence = n; stream = stdout; text = [] }

abbrev small : SubscriberState
small = fresh_subscriber 1 1 (some 3) (some 2)

abbrev moves : List Move
moves =
    published (line 3)
    ∷ published (line 4)
    ∷ pulls false
    ∷ published (line 6)
    ∷ published (line 7)
    ∷ published (line 8)
    ∷ pulls false
    ∷ []

receives_one : (receive small moves).1 ≡ line 4 ∷ []
unfolding receive remote_build_orchestrato.LiveLogHub.Delivery.move
    remote_build_orchestrato.LiveLogHub.next remote_build_orchestrato.LiveLogHub.offer
receives_one = refl

receive_in_order_example :
    (receive small moves).1 ++ (receive_in_order small moves refl refl).0
    ≡ line 4 ∷ line 6 ∷ line 7 ∷ line 8 ∷ []
receive_in_order_example = (receive_in_order small moves refl refl).1

run-AllConsistent_example :
    AllConsistent
      (run
        (record { subscribers = []; next_subscriber_id = 1 })
        (subscribes 1 none (some 1)
          ∷ publishes (line 5)
          ∷ publishes (line 6)
          ∷ Invariant.Call.closes 0
          ∷ [])).subscribers
run-AllConsistent_example =
    run-AllConsistent (record { subscribers = []; next_subscriber_id = 1 })
      (subscribes 1 none (some 1)
        ∷ publishes (line 5)
        ∷ publishes (line 6)
        ∷ Invariant.Call.closes 0
        ∷ [])
      tt
