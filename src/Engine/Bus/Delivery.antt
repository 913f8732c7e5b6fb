-- ===== src/Engine/Bus/Delivery.antt =====
-- What `EventBus` of crates/openshield-daemon/src/engine.rs delivers, and its bounds.
use open_shield.Base.{
  ℕ, suc, ◌+◌, ◌≤◌, ◌<◌, ◌≡◌, refl, true, false, Option, none, some, List, [], ◌∷◌, ◌++◌, arith,
  length, length-append, ltb, leb, Bool-cases, Option-cases, inl, inr, All,
}
use open_shield.Base.Words.{u64_max}
use open_shield.BTree
use open_shield.BTree.{Ordered, IsSorted}
use open_shield.BTree.Laws.{
  get_below, Ordered-mono, Ordered-insert, Ordered-remove, All-insert, All-remove, All-get,
  length-insert, length-remove-le,
}
use open_shield.State.Data.{Event}
use open_shield.Engine.Bus.{
  EventBus, try_send, first_queue, subscribe, send_all, publish, remove, clear_counter_snapshot,
  take_first, recv_timeout,
}

-- The queue that a subscriber has after an event, from the one before.
abbrev pub delivered : ℕ → Event → Option (List Event) → Option (List Event)
delivered capacity event none = none
delivered capacity event (some queue) = try_send capacity event queue

Ordered-send_all :
    (capacity : ℕ) (event : Event) (lo : ℕ) (m : List (ℕ × List Event))
    → Ordered lo m
    → Ordered lo (send_all capacity event m)
unfolding send_all
Ordered-send_all capacity event lo [] s = tt
Ordered-send_all capacity event lo ((id, queue) ∷ m) s =
    let more = Ordered-send_all capacity event (suc id) m s.1 in
    elim (Bool-cases (ltb (length queue) capacity)) [
      | inl e ↦ rw e (s.0, more)
      | inr e ↦
          rw e (Ordered-mono lo (suc id) (send_all capacity event m) (omega (arith, s.0)) more)
    ]

get-send_all :
    (capacity : ℕ) (event : Event) (lo id : ℕ) (m : List (ℕ × List Event))
    → Ordered lo m
    → BTree.get id (send_all capacity event m) ≡ delivered capacity event (BTree.get id m)
unfolding send_all BTree.get
get-send_all capacity event lo id [] s = refl
get-send_all capacity event lo id ((j, queue) ∷ m) s =
    let more = get-send_all capacity event (suc j) id m s.1 in
    let later = Ordered-send_all capacity event (suc j) m s.1 in
    elim (Bool-cases (ltb (length queue) capacity)) [
      | inl e ↦ ground (arith, more)
      | inr e ↦ ground (arith, more, get_below (suc j) j (send_all capacity event m) later)
    ]

-- What holds of a bus: bounded queues of a bounded number of subscribers, under increasing
-- identifiers that were given out already.
pub record IsBounded (bus : EventBus) : Type 0 where
  pub sorted : IsSorted bus.subscribers
  pub few : length bus.subscribers ≤ bus.maximum_subscribers
  pub small : All (λ e. length e.1 ≤ bus.queue_capacity) bus.subscribers
  pub given : All (λ e. e.0 < bus.next_id) bus.subscribers

pub data BusStep : Type 0 where
  subscribes : BusStep
  publishes : Event → BusStep
  removes : ℕ → BusStep
  clears : BusStep
  receives : ℕ → BusStep

unfoldable pub step : BusStep → EventBus → EventBus
step subscribes bus = (subscribe bus).1
step (publishes event) bus = publish event bus
step (removes id) bus = remove id bus
step clears bus = clear_counter_snapshot bus
step (receives id) bus = (recv_timeout id bus).1

unfoldable pub run : List BusStep → EventBus → EventBus
unfolding step
run [] bus = bus
run (s ∷ rest) bus = run rest (step s bus)

All-mono :
    {V : Type 0} (a b : ℕ) (m : List (ℕ × V))
    → a ≤ b
    → All (λ (e : ℕ × V). e.0 < a) m
    → All (λ (e : ℕ × V). e.0 < b) m
All-mono a b [] h g = tt
All-mono a b (e ∷ m) h g = (omega (arith, h, g.0), All-mono a b m h g.1)

length-send_all :
    (capacity : ℕ) (event : Event) (m : List (ℕ × List Event))
    → length (send_all capacity event m) ≤ length m
unfolding send_all
length-send_all capacity event [] = omega arith
length-send_all capacity event ((id, queue) ∷ m) = ground (arith, length-send_all capacity event m)

module _ (P : ℕ × List Event → Type 0) (capacity : ℕ) (event : Event)
    (sent : (id : ℕ) (queue : List Event)
      → ltb (length queue) capacity ≡ true
      → P (id, queue)
      → P (id, queue ++ event ∷ [])) where
  All-send_all : (m : List (ℕ × List Event)) → All P m → All P (send_all capacity event m)
  unfolding send_all
  All-send_all [] h = tt
  All-send_all ((id, queue) ∷ m) h =
      let more = All-send_all m h.1 in
      elim (Bool-cases (ltb (length queue) capacity)) [
        | inl e ↦ rw e (sent id queue e h.0, more)
        | inr e ↦ rw e more
      ]

publish-IsBounded : (event : Event) (bus : EventBus) → IsBounded bus → IsBounded (publish event bus)
unfolding publish
publish-IsBounded event bus b = record {
  sorted = Ordered-send_all bus.queue_capacity event 0 bus.subscribers b.sorted;
  few = omega (arith, length-send_all bus.queue_capacity event bus.subscribers, b.few);
  small =
      All-send_all (λ e. length e.1 ≤ bus.queue_capacity) bus.queue_capacity event
        (λ id queue room h. ground (arith, length-append queue (event ∷ []))) bus.subscribers
        b.small;
  given =
      All-send_all (λ e. e.0 < bus.next_id) bus.queue_capacity event (λ id queue room h. h)
        bus.subscribers b.given;
}

first_queue-small :
    (capacity : ℕ) (latest : Option Event) (queue : List Event)
    → first_queue capacity latest ≡ some queue
    → length queue ≤ capacity
first_queue-small capacity none queue h =
    let e : ◌≡◌ {A = List Event} [] queue = cc in rw (← e) (omega arith)
first_queue-small capacity (some event) queue h = elim (Bool-cases (ltb 0 capacity)) [
  | inl e ↦
      let g : ◌≡◌ {A = List Event} (event ∷ []) queue = ground arith in rw (← g) (ground arith)
  | inr e ↦ absurd (ground arith)
]

below-get :
    {V : Type 0} (k : ℕ) (m : List (ℕ × V)) → All (λ (e : ℕ × V). e.0 < k) m → BTree.get k m ≡ none
unfolding BTree.get
below-get k [] h = refl
below-get k ((j, v) ∷ m) h = ground (arith, below-get k m h.1)

-- A bus with the next identifier given out, and with a subscriber put under the one before it.
module _ (bus : EventBus) (b : IsBounded bus) where
  counted-IsBounded : (next : ℕ) → bus.next_id ≤ next → IsBounded (record bus { next_id = next })
  counted-IsBounded next h = record {
    sorted = b.sorted;
    few = b.few;
    small = b.small;
    given = All-mono bus.next_id next bus.subscribers h b.given;
  }

  added-IsBounded :
      (queue : List Event)
      → leb bus.maximum_subscribers (length bus.subscribers) ≡ false
      → length queue ≤ bus.queue_capacity
      → IsBounded (record bus {
        next_id = bus.next_id + 1;
        subscribers = BTree.insert bus.next_id queue bus.subscribers;
      })
  added-IsBounded queue room small = record {
    sorted = Ordered-insert 0 bus.next_id queue bus.subscribers (omega arith) b.sorted;
    few = ground (
      arith,
      length-insert 0 bus.next_id queue bus.subscribers b.sorted,
      below-get bus.next_id bus.subscribers b.given,
    );
    small =
        All-insert (λ e. length e.1 ≤ bus.queue_capacity) bus.next_id queue bus.subscribers small
          b.small;
    given =
        All-insert (λ e. e.0 < bus.next_id + 1) bus.next_id queue bus.subscribers (omega arith)
          (All-mono bus.next_id (bus.next_id + 1) bus.subscribers (omega arith) b.given);
  }

  subscribe-IsBounded : IsBounded (subscribe bus).1
  unfolding subscribe
  subscribe-IsBounded = elim (Bool-cases (leb bus.maximum_subscribers (length bus.subscribers))) [
    | inl full ↦ rw full b
    | inr room ↦ elim (Bool-cases (leb (bus.next_id + 1) u64_max)) [
      | inr spent ↦ rw (room, spent) b
      | inl next ↦ elim (Option-cases (first_queue bus.queue_capacity bus.latest_counters)) [
        | inl e ↦ rw (room, next, e) (counted-IsBounded (bus.next_id + 1) (omega arith))
        | inr (queue, e) ↦
            rw (room, next, e)
              (added-IsBounded queue room
                (first_queue-small bus.queue_capacity bus.latest_counters queue e))
      ]
    ]
  ]

remove-IsBounded : (id : ℕ) (bus : EventBus) → IsBounded bus → IsBounded (remove id bus)
unfolding remove
remove-IsBounded id bus b = record {
  sorted = Ordered-remove 0 id bus.subscribers b.sorted;
  few = omega (arith, length-remove-le id bus.subscribers, b.few);
  small = All-remove (λ e. length e.1 ≤ bus.queue_capacity) id bus.subscribers b.small;
  given = All-remove (λ e. e.0 < bus.next_id) id bus.subscribers b.given;
}

take_first-IsBounded :
    (id : ℕ) (o : Option (List Event)) (bus : EventBus)
    → IsBounded bus
    → BTree.get id bus.subscribers ≡ o
    → IsBounded (take_first id o bus).1
take_first-IsBounded id none bus b h = b
take_first-IsBounded id (some []) bus b h = b
take_first-IsBounded id (some (event ∷ queue)) bus b h =
    let held =
      All-get (λ e. length e.1 ≤ bus.queue_capacity) id bus.subscribers (event ∷ queue) h b.small in
    let known = All-get (λ e. e.0 < bus.next_id) id bus.subscribers (event ∷ queue) h b.given in
    record {
      sorted = Ordered-insert 0 id queue bus.subscribers (omega arith) b.sorted;
      few = ground (arith, length-insert 0 id queue bus.subscribers b.sorted, b.few);
      small =
          All-insert (λ e. length e.1 ≤ bus.queue_capacity) id queue bus.subscribers
            (omega (arith, held)) b.small;
      given = All-insert (λ e. e.0 < bus.next_id) id queue bus.subscribers known b.given;
    }

pub step-IsBounded : (s : BusStep) (bus : EventBus) → IsBounded bus → IsBounded (step s bus)
unfolding step recv_timeout clear_counter_snapshot
step-IsBounded subscribes bus b = subscribe-IsBounded bus b
step-IsBounded (publishes event) bus b = publish-IsBounded event bus b
step-IsBounded (removes id) bus b = remove-IsBounded id bus b
step-IsBounded clears bus b = record {
  sorted = b.sorted;
  few = b.few;
  small = b.small;
  given = b.given;
}
step-IsBounded (receives id) bus b =
    take_first-IsBounded id (BTree.get id bus.subscribers) bus b refl

pub run-IsBounded :
    (steps : List BusStep) (bus : EventBus) → IsBounded bus → IsBounded (run steps bus)
unfolding run
run-IsBounded [] bus b = b
run-IsBounded (s ∷ rest) bus b = run-IsBounded rest (step s bus) (step-IsBounded s bus b)

-- After an event on a bus within its bounds each subscriber that has room holds it behind what it
-- held, each that has no room is dropped, and no subscriber depends on another.
pub publish-delivers :
    (event : Event) (bus : EventBus) (id : ℕ)
    → IsBounded bus
    → BTree.get id (publish event bus).subscribers
      ≡ delivered bus.queue_capacity event (BTree.get id bus.subscribers)
unfolding publish
publish-delivers event bus id b =
    get-send_all bus.queue_capacity event 0 id bus.subscribers b.sorted
