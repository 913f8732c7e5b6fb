-- ===== src/Scheduler/Pushing.antt =====
-- `FairQueue::push` of crates/openshield-daemon/src/nfqueue_scheduler.rs on fair queues.
pub mod Order
use open_shield.Base.{
  keep, ◌++◌, Bool-cases, inl, inr, ℕ, ◌+◌, ◌≤◌, ◌≡◌, refl, Bool, List, [], ◌∷◌, length,
  length-append, ltb, count_if-append, All, All-append, same, same_iff, arith, if◌then◌else◌,
}
use open_shield.Base.Outcome.{ok, err}
use open_shield.Scheduler.{
  PendingPacket, UserKey, UserKey-discrete, FlowKey, FlowKey-discrete, FlowQueue, UserQueue,
  FairQueue, for_packet, max_pending_packets, push_flow, push_user, push, exceeds_bound,
}
use open_shield.Scheduler.Order.{is_in, waiting, AreDistinct}
use open_shield.Scheduler.Pushing.Order.{push_user-last, push_user-distinct}
use open_shield.Scheduler.Fair.{in_flows, in_users, anything, IsKeyed, IsFlow, IsUser, IsFair}

abbrev one : Bool → ℕ
one b = if b then 1 else 0

in_flows-push_flow :
    (p : PendingPacket → Bool) (key : FlowKey) (packet : PendingPacket) (flows : List FlowQueue)
    → in_flows p (push_flow key packet flows) ≡ in_flows p flows + one (p packet)
unfolding push_flow
in_flows-push_flow p key packet [] = omega arith
in_flows-push_flow p key packet (flow ∷ rest) =
    ground
      (arith, in_flows-push_flow p key packet rest, count_if-append p flow.packets (packet ∷ []))

in_users-push_user :
    (p : PendingPacket → Bool) (user_key : UserKey) (flow_key : FlowKey) (packet : PendingPacket)
    (users : List UserQueue)
    → in_users p (push_user user_key flow_key packet users) ≡ in_users p users + one (p packet)
unfolding push_user
in_users-push_user p user_key flow_key packet [] = omega arith
in_users-push_user p user_key flow_key packet (user ∷ rest) = ground (
  arith,
  in_users-push_user p user_key flow_key packet rest,
  in_flows-push_flow p flow_key packet user.flows,
)

module _ (packet : PendingPacket) (user_key : UserKey) where
  push_flow-IsFlow :
      (flow_key : FlowKey) (flows : List FlowQueue)
      → IsKeyed user_key flow_key packet
      → All (IsFlow user_key) flows
      → All (IsFlow user_key) (push_flow flow_key packet flows)
  unfolding push_flow
  push_flow-IsFlow flow_key [] k h = ((omega arith, (k, tt)), tt)
  push_flow-IsFlow flow_key (flow ∷ rest) k h =
      elim (Bool-cases (same FlowKey-discrete flow.key flow_key)) [
        | inl e ↦
            let own : flow.key ≡ flow_key = (same_iff FlowKey-discrete flow.key flow_key).0 e in
            let keyed : IsKeyed user_key flow.key packet = rw own k in
            rw e (
              (
                ground (arith, length-append flow.packets (packet ∷ [])),
                All-append (IsKeyed user_key flow.key) flow.packets (packet ∷ []) h.0.1 (keyed, tt),
              ),
              h.1,
            )
        | inr e ↦ rw e (h.0, push_flow-IsFlow flow_key rest k h.1)
      ]

  length-push_flow :
      (flow_key : FlowKey) (flows : List FlowQueue) → 1 ≤ length (push_flow flow_key packet flows)
  unfolding push_flow
  length-push_flow flow_key [] = omega arith
  length-push_flow flow_key (flow ∷ rest) = ground arith

push_user-IsUser :
    (packet : PendingPacket) (user_key : UserKey) (flow_key : FlowKey) (users : List UserQueue)
    → IsKeyed user_key flow_key packet
    → All IsUser users
    → All IsUser (push_user user_key flow_key packet users)
unfolding push_user
push_user-IsUser packet user_key flow_key [] k h = ((omega arith, ((omega arith, (k, tt)), tt)), tt)
push_user-IsUser packet user_key flow_key (user ∷ rest) k h =
    elim (Bool-cases (same UserKey-discrete user.key user_key)) [
      | inl e ↦
          let own : user.key ≡ user_key = (same_iff UserKey-discrete user.key user_key).0 e in
          let keyed : IsKeyed user.key flow_key packet = rw own k in
          rw e (
            (
              length-push_flow packet user.key flow_key user.flows,
              push_flow-IsFlow packet user.key flow_key user.flows keyed h.0.1,
            ),
            h.1,
          )
      | inr e ↦ rw e (h.0, push_user-IsUser packet user_key flow_key rest k h.1)
    ]

-- The two ways in which a push ends.
pub data Pushes (packet : PendingPacket) (q : FairQueue) : Type 0 where
  accepted :
      (t : FairQueue)
      → push packet q ≡ (ok tt, t)
      → IsFair t
      → t.pending ≡ q.pending + 1
      → ((p : PendingPacket → Bool) → in_users p t.users ≡ in_users p q.users + one (p packet))
      → AreDistinct t.users
      → ((user : UserKey) (flow : FlowKey)
          → waiting user flow t.users
            ≡ waiting user flow q.users ++ keep (is_in user flow) (packet ∷ []))
      → Pushes packet q
  refused :
      q.pending ≡ max_pending_packets → push packet q ≡ (err exceeds_bound, q) → Pushes packet q

-- A push onto a fair queue whose keys are distinct succeeds if there is room: it adds exactly this
-- packet, behind all that waits of its flow, and the queue is fair with distinct keys again. Onto
-- a full queue it fails and leaves the queue as it was.
pub push-Pushes :
    (packet : PendingPacket) (q : FairQueue) → IsFair q → AreDistinct q.users → Pushes packet q
unfolding push
push-Pushes packet q h d =
    let key = for_packet packet.work in
    elim (Bool-cases (ltb q.pending max_pending_packets)) [
      | inl e ↦
          accepted
            (record { users = push_user key.0 key.1 packet q.users; pending = q.pending + 1 })
            (rw e refl)
            (record {
              counted =
                  omega (arith, in_users-push_user anything key.0 key.1 packet q.users, h.counted);
              bounded = ground arith;
              users = push_user-IsUser packet key.0 key.1 q.users refl h.users;
            })
            refl (λ p. in_users-push_user p key.0 key.1 packet q.users)
            (push_user-distinct packet key.0 key.1 q.users d)
            (λ user flow. push_user-last packet key.0 key.1 refl user flow q.users h.users d)
      | inr e ↦ refused (ground (arith, h.bounded)) (rw e refl)
    ]
