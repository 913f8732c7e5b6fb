-- ===== src/Engine/Bus.antt =====
-- `EventBus` of crates/openshield-daemon/src/engine.rs: the queues of the subscribed observers. A
-- subscription that ends takes its queue out of the bus before its receiver goes away.
pub mod Delivery
pub mod Identifiers
use open_shield.Base.{
  ℕ, ◌+◌, Option, none, some, List, [], ◌∷◌, ◌++◌, length, leb, ltb, if◌then◌else◌,
}
use open_shield.Base.Words.{u64_max, checked_add}
use open_shield.Base.Outcome.{Result, ok, err, reject_if, ok_or}
use open_shield.Base.Exec.{Exec, pure, lift, self, modify, continue, ◌>>=◌, ◌>>◌}
use open_shield.BTree
use open_shield.State.Data.{Event, EventKind, counters_updated}

abbrev pub max_event_subscribers : ℕ
max_event_subscribers = 64

abbrev pub event_queue_capacity : ℕ
event_queue_capacity = 512

pub data SubscribeError : Type 0 where
  limit_reached unavailable : SubscribeError

-- The state behind the mutex, with the limits.
pub record EventBus : Type 0 where
  pub next_id : ℕ
  pub subscribers : List (ℕ × List Event)
  pub latest_counters : Option Event
  pub maximum_subscribers : ℕ
  pub queue_capacity : ℕ

abbrev pub with_limits : ℕ → ℕ → EventBus
with_limits maximum_subscribers queue_capacity = record {
  next_id = 0;
  subscribers = [];
  latest_counters = none;
  maximum_subscribers = maximum_subscribers;
  queue_capacity = queue_capacity;
}

abbrev pub new : EventBus
new = with_limits max_event_subscribers event_queue_capacity

-- `SyncSender::try_send` on a queue of the capacity: `none` when it is full.
abbrev pub try_send : ℕ → Event → List Event → Option (List Event)
try_send capacity event queue =
    if ltb (length queue) capacity then some (queue ++ event ∷ []) else none

-- What a new queue holds: the latest counters, where there are any.
abbrev pub first_queue : ℕ → Option Event → Option (List Event)
first_queue capacity none = some []
first_queue capacity (some event) = try_send capacity event []

unfoldable pub subscribe : Exec SubscribeError EventBus ℕ
subscribe = do
  bus ← self
  lift (reject_if (leb bus.maximum_subscribers (length bus.subscribers)) limit_reached)
  next ← lift (ok_or unavailable (checked_add u64_max bus.next_id 1))
  modify (λ b. record b { next_id = next })
  queue ← lift (ok_or unavailable (first_queue bus.queue_capacity bus.latest_counters))
  modify (λ b. record b { subscribers = BTree.insert bus.next_id queue b.subscribers })
  pure bus.next_id

abbrev pub keep_sent : ℕ → Option (List Event) → List (ℕ × List Event) → List (ℕ × List Event)
keep_sent id none rest = rest
keep_sent id (some queue) rest = (id, queue) ∷ rest

-- `retain` over the subscribers.
unfoldable pub send_all : ℕ → Event → List (ℕ × List Event) → List (ℕ × List Event)
send_all capacity event [] = []
send_all capacity event ((id, queue) ∷ rest) =
    keep_sent id (try_send capacity event queue) (send_all capacity event rest)

abbrev pub remember_counters : EventKind → Event → Option Event → Option Event
remember_counters (counters_updated _) event latest = some event
remember_counters _ event latest = latest

unfoldable pub publish : Event → EventBus → EventBus
unfolding send_all
publish event bus = record bus {
  latest_counters = remember_counters event.kind event bus.latest_counters;
  subscribers = send_all bus.queue_capacity event bus.subscribers;
}

-- `for event in events { self.events.publish(event) }`
unfoldable pub publish_all : List Event → EventBus → EventBus
unfolding publish
publish_all [] bus = bus
publish_all (event ∷ rest) bus = publish_all rest (publish event bus)

unfoldable pub remove : ℕ → EventBus → EventBus
remove id bus = record bus { subscribers = BTree.remove id bus.subscribers }

unfoldable pub clear_counter_snapshot : EventBus → EventBus
clear_counter_snapshot bus = record bus { latest_counters = none }

abbrev pub take_first : ℕ → Option (List Event) → EventBus → Option Event × EventBus
take_first id (some (event ∷ queue)) bus =
    (some event, record bus { subscribers = BTree.insert id queue bus.subscribers })
take_first id _ bus = (none, bus)

-- `recv_timeout` of a subscription: `none` when the time passes without an event.
unfoldable pub recv_timeout : ℕ → EventBus → Option Event × EventBus
recv_timeout id bus = take_first id (BTree.get id bus.subscribers) bus
