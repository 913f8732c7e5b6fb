-- ===== src/Scheduler/Order.antt =====
-- The order of the packets of one flow in the fair queue of
-- crates/openshield-daemon/src/nfqueue_scheduler.rs.
use open_shield.Base.{
  ◌≡◌, ◌≢◌, ◌⊎◌, inl, inr, refl, sym, Bool, false, ◌&&◌, List, [], ◌∷◌, ◌++◌, keep, All, same,
  same_iff, append-nil, arith,
}
use open_shield.Scheduler.{
  PendingPacket, UserKey, UserKey-discrete, FlowKey, FlowKey-discrete, FlowQueue, UserQueue,
  for_packet,
}
use open_shield.Scheduler.Fair.{IsKeyed, IsFlow, IsUser}

-- The packets of a flow, and the flows of a user.
abbrev pub is_in : UserKey → FlowKey → PendingPacket → Bool
is_in user flow packet =
    same UserKey-discrete (for_packet packet.work).0 user
    && same FlowKey-discrete (for_packet packet.work).1 flow

pub keep-append {ℓ} :
    {A : Type ℓ} (p : A → Bool) (xs ys : List A) → keep p (xs ++ ys) ≡ keep p xs ++ keep p ys
keep-append p [] ys = refl
keep-append p (x ∷ xs) ys = ground (arith, keep-append p xs ys)

abbrev pub flow_packets : List FlowQueue → List PendingPacket
flow_packets [] = []
flow_packets (flow ∷ rest) = flow.packets ++ flow_packets rest

abbrev pub user_packets : List UserQueue → List PendingPacket
user_packets [] = []
user_packets (user ∷ rest) = flow_packets user.flows ++ user_packets rest

-- The packets of the flow that wait, in the order of their arrival.
abbrev pub waiting : UserKey → FlowKey → List UserQueue → List PendingPacket
waiting user flow users = keep (is_in user flow) (user_packets users)

abbrev pub AreDistinctFlows : List FlowQueue → Type 0
AreDistinctFlows [] = Unit {0}
AreDistinctFlows (flow ∷ rest) = All (λ other. other.key ≢ flow.key) rest × AreDistinctFlows rest

-- No two users have one key, and no two flows of a user.
abbrev pub AreDistinct : List UserQueue → Type 0
AreDistinct [] = Unit {0}
AreDistinct (user ∷ rest) =
    All (λ other. other.key ≢ user.key) rest × AreDistinctFlows user.flows × AreDistinct rest

pub none_of_flow :
    (user u : UserKey) (flow f : FlowKey) (packets : List PendingPacket)
    → All (IsKeyed u f) packets
    → (u ≢ user) ⊎ (f ≢ flow)
    → keep (is_in user flow) packets ≡ []
none_of_flow user u flow f [] keyed differ = refl
none_of_flow user u flow f (packet ∷ rest) keyed differ =
    let other : is_in user flow packet ≡ false = rw keyed.0 (
      ground (arith, same_iff UserKey-discrete u user, same_iff FlowKey-discrete f flow, differ)) in
    rw other (none_of_flow user u flow f rest keyed.1 differ)

pub none_of_flows :
    (user u : UserKey) (flow : FlowKey) (flows : List FlowQueue)
    → All (IsFlow u) flows
    → (u ≢ user) ⊎ All (λ other. other.key ≢ flow) flows
    → keep (is_in user flow) (flow_packets flows) ≡ []
none_of_flows user u flow [] keyed differ = refl
none_of_flows user u flow (f ∷ rest) keyed (inl differ) =
    rw (keep-append (is_in user flow) f.packets (flow_packets rest)) (
      rw (none_of_flow user u flow f.key f.packets keyed.0.1 (inl differ))
        (none_of_flows user u flow rest keyed.1 (inl differ)))
none_of_flows user u flow (f ∷ rest) keyed (inr differ) =
    rw (keep-append (is_in user flow) f.packets (flow_packets rest)) (
      rw (none_of_flow user u flow f.key f.packets keyed.0.1 (inr differ.0))
        (none_of_flows user u flow rest keyed.1 (inr differ.1)))

pub none_of_users :
    (user : UserKey) (flow : FlowKey) (users : List UserQueue)
    → All IsUser users
    → All (λ other. other.key ≢ user) users
    → waiting user flow users ≡ []
none_of_users user flow [] keyed differ = refl
none_of_users user flow (u ∷ rest) keyed differ =
    rw (keep-append (is_in user flow) (flow_packets u.flows) (user_packets rest)) (
      rw (none_of_flows user u.key flow u.flows keyed.0.1 (inl differ.0))
        (none_of_users user flow rest keyed.1 differ.1))

-- Of three lists of which at most one is not empty, the order does not matter.
pub three {ℓ} :
    {A : Type ℓ} (first second third : List A)
    → (first ≡ []) ⊎ ((second ≡ []) × (third ≡ []))
    → (second ≡ []) ⊎ (third ≡ [])
    → third ++ (second ++ first) ≡ first ++ (second ++ third)
three first second third (inr (s, t)) h = rw (s, t) (sym (append-nil first))
three first second third (inl f) (inl s) = rw (f, s) (append-nil third)
three first second third (inl f) (inr t) = rw (f, t) (rw (append-nil second) refl)
