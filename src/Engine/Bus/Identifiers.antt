-- ===== src/Engine/Bus/Identifiers.antt =====
-- The identifiers that `EventBus` of crates/openshield-daemon/src/engine.rs gives to subscribers.
use open_shield.Base.{
  subst, ℕ, suc, ◌+◌, ◌≤◌, ◌≡◌, refl, Option, none, some, List, [], ◌∷◌, arith, length, leb,
  Bool-cases, Option-cases, inl, inr,
}
use open_shield.Base.Words.{u64_max}
use open_shield.Base.Outcome.{Result, ok, err}
use open_shield.BTree
use open_shield.State.Data.{Event}
use open_shield.Engine.Bus.{
  SubscribeError, EventBus, with_limits, first_queue, subscribe, publish, remove,
  clear_counter_snapshot, take_first, recv_timeout,
}
use open_shield.Engine.Bus.Delivery.{
  BusStep, subscribes, publishes, removes, clears, receives, step, run, IsBounded, run-IsBounded,
}

abbrev pub push_given : Result SubscribeError ℕ → List ℕ → List ℕ
push_given (ok id) rest = id ∷ rest
push_given (err _) rest = rest

-- What a step gives out, in front of what is given later.
abbrev pub gives : BusStep → EventBus → List ℕ → List ℕ
gives subscribes bus rest = push_given (subscribe bus).0 rest
gives _ bus rest = rest

-- The identifiers that the subscriptions of a run get, in their order.
unfoldable pub identifiers : List BusStep → EventBus → List ℕ
unfolding step subscribe
identifiers [] bus = []
identifiers (s ∷ rest) bus = gives s bus (identifiers rest (step s bus))

-- They increase, from the bound on.
abbrev pub Increases : ℕ → List ℕ → Type 0
Increases lo [] = Unit {0}
Increases lo (id ∷ rest) = (lo ≤ id) × Increases (suc id) rest

Increases-mono : (lo hi : ℕ) (ids : List ℕ) → lo ≤ hi → Increases hi ids → Increases lo ids
Increases-mono lo hi [] h i = tt
Increases-mono lo hi (id ∷ rest) h i = (let x = i.0 in omega (arith, h, x), i.1)

-- What a subscription gives lies below what the bus gives next.
Gives : EventBus → Result SubscribeError ℕ × EventBus → Type 0
Gives bus (ok id, after) = (bus.next_id ≤ id) × (suc id ≤ after.next_id)
Gives bus (err _, after) = bus.next_id ≤ after.next_id

subscribe-Gives : (bus : EventBus) → Gives bus (subscribe bus)
unfolding subscribe Gives
subscribe-Gives bus = elim (Bool-cases (leb bus.maximum_subscribers (length bus.subscribers))) [
  | inl full ↦ rw full (omega arith)
  | inr room ↦ elim (Bool-cases (leb (bus.next_id + 1) u64_max)) [
    | inr spent ↦ rw (room, spent) (omega arith)
    | inl next ↦ elim (Option-cases (first_queue bus.queue_capacity bus.latest_counters)) [
      | inl e ↦ rw (room, next, e) (omega arith)
      | inr (queue, e) ↦ rw (room, next, e) (omega arith, omega arith)
    ]
  ]
]

given-Increases :
    (bus : EventBus) (r : Result SubscribeError ℕ × EventBus) (later : List ℕ)
    → Gives bus r
    → Increases r.1.next_id later
    → Increases bus.next_id (push_given r.0 later)
unfolding Gives
given-Increases bus (ok id, after) later g i =
    (g.0, Increases-mono (suc id) after.next_id later g.1 i)
given-Increases bus (err _, after) later g i = Increases-mono bus.next_id after.next_id later g i

received :
    (id : ℕ) (found : Option (List Event)) (bus : EventBus)
    → (take_first id found bus).1.next_id ≡ bus.next_id
received id none bus = refl
received id (some []) bus = refl
received id (some (event ∷ queue)) bus = refl

identifiers-Increases :
    (steps : List BusStep) (bus : EventBus) → Increases bus.next_id (identifiers steps bus)
unfolding identifiers step publish remove clear_counter_snapshot recv_timeout
identifiers-Increases [] bus = tt
identifiers-Increases (subscribes ∷ rest) bus =
    given-Increases bus (subscribe bus) (identifiers rest (subscribe bus).1) (subscribe-Gives bus)
      (identifiers-Increases rest (subscribe bus).1)
identifiers-Increases (publishes event ∷ rest) bus = identifiers-Increases rest (publish event bus)
identifiers-Increases (removes id ∷ rest) bus = identifiers-Increases rest (remove id bus)
identifiers-Increases (clears ∷ rest) bus = identifiers-Increases rest (clear_counter_snapshot bus)
identifiers-Increases (receives id ∷ rest) bus =
    let after = (recv_timeout id bus).1 in
    let more = identifiers-Increases rest after in
    subst (λ n. Increases n (identifiers rest after))
      (received id (BTree.get id bus.subscribers) bus) more

-- Whatever is subscribed, published, received and removed, an event bus never has more subscribers
-- than its maximum nor a queue longer than its capacity, and the identifiers that it gives
-- strictly increase, so that none is given twice.
pub run-new-IsBounded :
    (steps : List BusStep) (maximum_subscribers queue_capacity : ℕ)
    → IsBounded (run steps (with_limits maximum_subscribers queue_capacity))
      × Increases 0 (identifiers steps (with_limits maximum_subscribers queue_capacity))
run-new-IsBounded steps maximum_subscribers queue_capacity =
    let bus = with_limits maximum_subscribers queue_capacity in
    (
      run-IsBounded steps bus (record { sorted = tt; few = omega arith; small = tt; given = tt }),
      identifiers-Increases steps bus,
    )
