-- ===== src/LiveLogHub.antt =====
-- apps/controller/src/logs/live-log-hub.ts: the fan-out of live log events to bounded subscribers.
-- The hub is the list of the subscriptions made, in order; `attached` says that a subscription
-- still stands in the set of its attempt, and `waiting` that a call of `next` is outstanding.
pub mod Delivery
pub mod Invariant
mod Scenarios
use remote_build_orchestrato.Common.{
  ℕ, suc, ◌+◌, Bool, true, false, not, ◌&&◌, ◌||◌, Option, none, some, List, [], ◌∷◌, ◌++◌, map,
  ltb, leb, ◌==◌, if◌then◌else◌, length,
}

pub data Stream : Type 0 where
  stdout stderr : Stream

pub record LiveLogEvent : Type 0 where
  pub attempt_id : ℕ
  pub sequence : ℕ
  pub stream : Stream
  pub text : List ℕ

pub data HubItem : Type 0 where
  event : LiveLogEvent → HubItem
  heartbeat : HubItem

abbrev pub default_max_buffered_events : ℕ
default_max_buffered_events = 256

pub record SubscriberState : Type 0 where
  pub id : ℕ
  pub attempt_id : ℕ
  pub after_sequence : ℕ
  pub max_buffered : ℕ
  pub queue : List HubItem
  pub dropped : Bool
  pub closed : Bool
  pub waiting : Bool
  pub attached : Bool

pub record LiveLogHub : Type 0 where
  pub subscribers : List SubscriberState
  pub next_subscriber_id : ℕ

abbrev or_else : Option ℕ → ℕ → ℕ
or_else none d = d
or_else (some a) d = a

abbrev pub fresh_subscriber : ℕ → ℕ → Option ℕ → Option ℕ → SubscriberState
fresh_subscriber id attempt after_sequence max_buffered = record {
  id = id;
  attempt_id = attempt;
  after_sequence = or_else after_sequence 0;
  max_buffered = or_else max_buffered default_max_buffered_events;
  queue = [];
  dropped = false;
  closed = false;
  waiting = false;
  attached = true;
}

unfoldable pub subscribe : LiveLogHub → ℕ → Option ℕ → Option ℕ → LiveLogHub
subscribe hub attempt after_sequence max_buffered = record {
  subscribers =
      hub.subscribers
      ++ fresh_subscriber hub.next_subscriber_id attempt after_sequence max_buffered ∷ [];
  next_subscriber_id = suc hub.next_subscriber_id;
}

-- The subscription's own `close`.
unfoldable pub close : SubscriberState → SubscriberState
close s = if s.closed then s else record s { closed = true; attached = false; waiting = false }

-- One round of the loop of `publish`, on a subscriber of the event's attempt.
unfoldable pub offer : LiveLogEvent → SubscriberState → SubscriberState
offer e s =
    if s.closed || s.dropped
    then s
    else if leb e.sequence s.after_sequence
    then s
    else if leb s.max_buffered (length s.queue)
    then record s {
      after_sequence = e.sequence;
      dropped = true;
      closed = true;
      attached = false;
      waiting = false;
    }
    else record s { after_sequence = e.sequence; queue = s.queue ++ event e ∷ []; waiting = false }

abbrev in_group : ℕ → SubscriberState → Bool
in_group attempt s = s.attached && s.attempt_id == attempt

on_group : (SubscriberState → SubscriberState) → ℕ → List SubscriberState → List SubscriberState
on_group change attempt [] = []
on_group change attempt (s ∷ ss) =
    (if in_group attempt s then change s else s) ∷ on_group change attempt ss

unfoldable pub publish : LiveLogHub → LiveLogEvent → LiveLogHub
unfolding on_group
publish hub e = record hub { subscribers = on_group (offer e) e.attempt_id hub.subscribers }

-- One round of the loop of `heartbeat`.
unfoldable pub beat : SubscriberState → SubscriberState
beat s =
    if s.closed || s.dropped
    then s
    else if leb s.max_buffered (length s.queue)
    then s
    else record s { queue = s.queue ++ heartbeat ∷ []; waiting = false }

on_attached : (SubscriberState → SubscriberState) → List SubscriberState → List SubscriberState
on_attached change [] = []
on_attached change (s ∷ ss) = (if s.attached then change s else s) ∷ on_attached change ss

-- For one attempt, or for all.
unfoldable pub heartbeat_all : LiveLogHub → Option ℕ → LiveLogHub
unfolding on_group on_attached
heartbeat_all hub (some attempt) = record hub {
  subscribers = on_group beat attempt hub.subscribers;
}
heartbeat_all hub none = record hub { subscribers = on_attached beat hub.subscribers }

-- What one pass of the loop of `next` comes to; `suspended` waits for the next wake-up or abort,
-- after which the loop goes on with another pass.
pub data Pulled : Type 0 where
  item : HubItem → Pulled
  ended already_waiting suspended : Pulled

pull : List HubItem → Bool → SubscriberState → SubscriberState × Pulled
pull (i ∷ rest) aborted s = (record s { queue = rest }, item i)
pull [] aborted s =
    if aborted
    then (s, ended)
    else if s.waiting
    then (s, already_waiting)
    else (record s { waiting = true }, suspended)

unfoldable pub next : Bool → SubscriberState → SubscriberState × Pulled
unfolding pull
next aborted s = if s.closed then (s, ended) else pull s.queue aborted s

-- A call of `next` that waits is told of an abort, or is the one that `wake` resolves.
unfoldable pub on_abort : SubscriberState → SubscriberState
on_abort s = record s { waiting = false }

unfoldable pub subscriber_count : ℕ → List SubscriberState → ℕ
subscriber_count attempt [] = 0
subscriber_count attempt (s ∷ ss) =
    let rest = subscriber_count attempt ss in if in_group attempt s then suc rest else rest
