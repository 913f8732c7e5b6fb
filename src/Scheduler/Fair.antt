-- ===== src/Scheduler/Fair.antt =====
-- Well-formed fair queues of crates/openshield-daemon/src/nfqueue_scheduler.rs: what is counted
-- is what waits, no flow and no user is empty, and every packet waits under its own keys.
use open_shield.Base.{
  ℕ, ◌+◌, ◌≤◌, ◌≡◌, refl, Bool, true, List, [], ◌∷◌, ◌++◌, length, count_if, All, arith,
}
use open_shield.Scheduler.{
  PendingPacket, UserKey, FlowKey, FlowQueue, UserQueue, FairQueue, for_packet, max_pending_packets,
}

-- The packets of flows, and of users, that pass a test.
abbrev pub in_flows : (PendingPacket → Bool) → List FlowQueue → ℕ
in_flows p [] = 0
in_flows p (flow ∷ rest) = count_if p flow.packets + in_flows p rest

abbrev pub in_users : (PendingPacket → Bool) → List UserQueue → ℕ
in_users p [] = 0
in_users p (user ∷ rest) = in_flows p user.flows + in_users p rest

abbrev pub anything : PendingPacket → Bool
anything _ = true

abbrev pub IsKeyed : UserKey → FlowKey → PendingPacket → Type 0
IsKeyed user flow packet = for_packet packet.work ≡ (user, flow)

abbrev pub IsFlow : UserKey → FlowQueue → Type 0
IsFlow user flow = (1 ≤ length flow.packets) × All (IsKeyed user flow.key) flow.packets

abbrev pub IsUser : UserQueue → Type 0
IsUser user = (1 ≤ length user.flows) × All (IsFlow user.key) user.flows

pub record IsFair (q : FairQueue) : Type 0 where
  pub counted : q.pending ≡ in_users anything q.users
  pub bounded : q.pending ≤ max_pending_packets
  pub users : All IsUser q.users

pub in_flows-append :
    (p : PendingPacket → Bool) (xs ys : List FlowQueue)
    → in_flows p (xs ++ ys) ≡ in_flows p xs + in_flows p ys
in_flows-append p [] ys = omega arith
in_flows-append p (flow ∷ rest) ys = omega (arith, in_flows-append p rest ys)

pub in_users-append :
    (p : PendingPacket → Bool) (xs ys : List UserQueue)
    → in_users p (xs ++ ys) ≡ in_users p xs + in_users p ys
in_users-append p [] ys = omega arith
in_users-append p (user ∷ rest) ys = omega (arith, in_users-append p rest ys)

pub count_if-anything : (xs : List PendingPacket) → count_if anything xs ≡ length xs
count_if-anything [] = refl
count_if-anything (x ∷ xs) = omega (arith, count_if-anything xs)
