-- ===== src/Scheduler/Batch.antt =====
-- `FairQueue::take_batch` of crates/openshield-daemon/src/nfqueue_scheduler.rs on fair queues.
pub mod Rounds
pub mod Turns
pub mod Order
pub mod Fifo
use open_shield.Base.{
  ℕ, zero, suc, ◌+◌, ◌-◌, ◌≤◌, ◌≡◌, refl, min, Bool, true, false, Bool-cases, inl, inr, Option,
  some, List, [], ◌∷◌, ◌++◌, length, length-append, ltb, is_empty, count_if, count_if-append, All,
  All-append, arith, if◌then◌else◌, not, ◌&&◌,
}
use open_shield.Scheduler.{
  PendingPacket, FlowQueue, UserQueue, FairQueue, max_pending_packets, max_packet_batch_size,
  Taking, take_packets, quantum, requeued_flow, requeued_user, serve, take_rounds, take_batch,
}
use open_shield.Scheduler.Fair.{
  in_flows, in_users, in_flows-append, in_users-append, anything, count_if-anything, IsKeyed,
  IsFlow, IsUser, IsFair,
}

-- What taking packets from one flow moves.
pub record Takes (n : ℕ) (t u : Taking) : Type 0 where
  pub moved : length u.batch ≡ length t.batch + min n (length t.packets)
  pub left : length u.packets + min n (length t.packets) ≡ length t.packets
  pub pending : length t.packets ≤ t.pending → u.pending + min n (length t.packets) ≡ t.pending
  pub kept :
      (p : PendingPacket → Bool)
      → count_if p u.batch + count_if p u.packets ≡ count_if p t.batch + count_if p t.packets
  pub grows : (p : PendingPacket → Bool) → count_if p t.batch ≤ count_if p u.batch

pub take_packets-Takes :
    (n : ℕ) (batch packets : List PendingPacket) (pending : ℕ)
    → Takes n
        (record { batch = batch; packets = packets; pending = pending })
        (take_packets n (record { batch = batch; packets = packets; pending = pending }))
unfolding take_packets
take_packets-Takes zero batch packets pending = record {
  moved = omega arith;
  left = omega arith;
  pending = λ h. omega arith;
  kept = λ p. refl;
  grows = λ p. omega arith;
}
take_packets-Takes (suc n) batch [] pending = record {
  moved = omega arith;
  left = omega arith;
  pending = λ h. omega arith;
  kept = λ p. refl;
  grows = λ p. omega arith;
}
take_packets-Takes (suc n) batch (packet ∷ rest) pending =
    let more = take_packets-Takes n (batch ++ packet ∷ []) rest (pending - 1) in
    record {
      moved = omega (arith, more.moved, length-append batch (packet ∷ []));
      left = omega (arith, more.left);
      pending = λ h. omega (arith, more.pending (omega arith), h);
      kept = λ p. omega (arith, more.kept p, count_if-append p batch (packet ∷ []));
      grows = λ p. omega (arith, more.grows p, count_if-append p batch (packet ∷ []));
    }

pub take_packets-All :
    (P : PendingPacket → Type 0) (n : ℕ) (batch packets : List PendingPacket) (pending : ℕ)
    → All P packets
    → All P
        (take_packets n (record { batch = batch; packets = packets; pending = pending })).packets
unfolding take_packets
take_packets-All P zero batch packets pending h = h
take_packets-All P (suc n) batch [] pending h = h
take_packets-All P (suc n) batch (packet ∷ rest) pending h =
    take_packets-All P n (batch ++ packet ∷ []) rest (pending - 1) h.1

pub in_flows-requeued :
    (p : PendingPacket → Bool) (flow : FlowQueue) (packets : List PendingPacket)
    (flows : List FlowQueue)
    → in_flows p (requeued_flow flow packets flows) ≡ in_flows p flows + count_if p packets
in_flows-requeued p flow [] flows = omega arith
in_flows-requeued p flow (packet ∷ rest) flows =
    omega (arith, in_flows-append p flows (record flow { packets = packet ∷ rest } ∷ []))

pub in_users-requeued :
    (p : PendingPacket → Bool) (user : UserQueue) (flows : List FlowQueue) (users : List UserQueue)
    → in_users p (requeued_user user flows users) ≡ in_users p users + in_flows p flows
in_users-requeued p user [] users = omega arith
in_users-requeued p user (flow ∷ rest) users =
    omega (arith, in_users-append p users (record user { flows = flow ∷ rest } ∷ []))

pub requeued-IsFlow :
    (user : UserQueue) (flow : FlowQueue) (packets : List PendingPacket) (flows : List FlowQueue)
    → All (IsKeyed user.key flow.key) packets
    → All (IsFlow user.key) flows
    → All (IsFlow user.key) (requeued_flow flow packets flows)
requeued-IsFlow user flow [] flows keyed h = h
requeued-IsFlow user flow (packet ∷ rest) flows keyed h =
    All-append (IsFlow user.key) flows _ h ((omega arith, keyed), tt)

pub requeued-IsUser :
    (user : UserQueue) (flows : List FlowQueue) (users : List UserQueue)
    → All (IsFlow user.key) flows
    → All IsUser users
    → All IsUser (requeued_user user flows users)
requeued-IsUser user [] users ok h = h
requeued-IsUser user (flow ∷ rest) users ok h = All-append IsUser users _ h ((omega arith, ok), tt)
