-- ===== src/Scheduler/Batch/Order.antt =====
-- First in, first out for each flow, in `FairQueue::take_batch` of
-- crates/openshield-daemon/src/nfqueue_scheduler.rs.
use open_shield.Base.{
  ℕ, zero, suc, ◌-◌, ◌≡◌, ◌≢◌, ◌⊎◌, inl, inr, refl, sym, ap, ◌∙◌, List, [], ◌∷◌, ◌++◌, keep, All,
  All-append, append_assoc, append-nil,
}
use open_shield.Scheduler.{
  PendingPacket, UserKey, UserKey-discrete, FlowKey, FlowKey-discrete, FlowQueue, UserQueue, Taking,
  take_packets, quantum, requeued_flow, requeued_user, serve,
}
use open_shield.Scheduler.Fair.{IsKeyed, IsFlow, IsUser}
use open_shield.Scheduler.Batch.{take_packets-All}
use open_shield.Scheduler.Order.{
  is_in, keep-append, flow_packets, user_packets, waiting, AreDistinctFlows, AreDistinct,
  none_of_flow, none_of_flows, none_of_users, three,
}

flow_packets-append :
    (xs ys : List FlowQueue) → flow_packets (xs ++ ys) ≡ flow_packets xs ++ flow_packets ys
flow_packets-append [] ys = refl
flow_packets-append (flow ∷ rest) ys =
    rw (flow_packets-append rest ys)
      (sym (append_assoc flow.packets (flow_packets rest) (flow_packets ys)))

user_packets-append :
    (xs ys : List UserQueue) → user_packets (xs ++ ys) ≡ user_packets xs ++ user_packets ys
user_packets-append [] ys = refl
user_packets-append (user ∷ rest) ys =
    rw (user_packets-append rest ys)
      (sym (append_assoc (flow_packets user.flows) (user_packets rest) (user_packets ys)))

flow_packets-requeued :
    (flow : FlowQueue) (packets : List PendingPacket) (flows : List FlowQueue)
    → flow_packets (requeued_flow flow packets flows) ≡ flow_packets flows ++ packets
flow_packets-requeued flow [] flows = sym (append-nil (flow_packets flows))
flow_packets-requeued flow (packet ∷ rest) flows =
    flow_packets-append flows (record flow { packets = packet ∷ rest } ∷ [])
    ∙ ap (λ t. flow_packets flows ++ t) (append-nil (packet ∷ rest))

user_packets-requeued :
    (user : UserQueue) (flows : List FlowQueue) (users : List UserQueue)
    → user_packets (requeued_user user flows users) ≡ user_packets users ++ flow_packets flows
user_packets-requeued user [] users = sym (append-nil (user_packets users))
user_packets-requeued user (flow ∷ rest) users =
    user_packets-append users (record user { flows = flow ∷ rest } ∷ [])
    ∙ ap (λ t. user_packets users ++ t) (append-nil (flow_packets (flow ∷ rest)))

-- What is taken from a flow are its first packets.
record TakesFirst (before waiting : List PendingPacket) (t : Taking) : Type 0 where
  first : List PendingPacket
  taken : t.batch ≡ before ++ first
  whole : first ++ t.packets ≡ waiting

take_packets-TakesFirst :
    (n : ℕ) (batch packets : List PendingPacket) (pending : ℕ)
    → TakesFirst batch packets
        (take_packets n (record { batch = batch; packets = packets; pending = pending }))
unfolding take_packets
take_packets-TakesFirst zero batch packets pending = record {
  first = [];
  taken = sym (append-nil batch);
  whole = refl;
}
take_packets-TakesFirst (suc n) batch [] pending = record {
  first = [];
  taken = sym (append-nil batch);
  whole = refl;
}
take_packets-TakesFirst (suc n) batch (packet ∷ rest) pending =
    let more = take_packets-TakesFirst n (batch ++ packet ∷ []) rest (pending - 1) in
    record {
      first = packet ∷ more.first;
      taken = more.taken ∙ append_assoc batch (packet ∷ []) more.first;
      whole = ap (λ list. packet ∷ list) more.whole;
    }

-- The parts of a queue that the flow of `user` and `key` may wait in: at most one is not empty.
apart :
    (user : UserKey) (key : FlowKey) (u : UserQueue) (flow : FlowQueue) (left : List PendingPacket)
    (flows : List FlowQueue) (others : List UserQueue)
    → All (IsKeyed u.key flow.key) left
    → All (IsFlow u.key) flows
    → All IsUser others
    → All (λ other. other.key ≢ flow.key) flows
    → All (λ other. other.key ≢ u.key) others
    → keep (is_in user key) (user_packets others)
        ++ (keep (is_in user key) (flow_packets flows) ++ keep (is_in user key) left)
      ≡ keep (is_in user key) left
        ++ (keep (is_in user key) (flow_packets flows)
            ++ keep (is_in user key) (user_packets others))
apart user key u flow left flows others keyed keyed_flows keyed_users differ_flows differ_users =
    three (keep (is_in user key) left) (keep (is_in user key) (flow_packets flows))
      (keep (is_in user key) (user_packets others)) of_left of_flows
  where
    of_flows :
        (keep (is_in user key) (flow_packets flows) ≡ [])
        ⊎ (keep (is_in user key) (user_packets others) ≡ [])
    of_flows = elim (UserKey-discrete u.key user) [
      | yes e ↦ inr (none_of_users user key others keyed_users (rw (← e) differ_users))
      | no differ ↦ inl (none_of_flows user u.key key flows keyed_flows (inl differ))
    ]

    of_left :
        (keep (is_in user key) left ≡ [])
        ⊎ ((keep (is_in user key) (flow_packets flows) ≡ [])
            × (keep (is_in user key) (user_packets others) ≡ []))
    of_left = elim (UserKey-discrete u.key user) [
      | no differ ↦ inl (none_of_flow user u.key key flow.key left keyed (inl differ))
      | yes e ↦ elim (FlowKey-discrete flow.key key) [
        | no differ ↦ inl (none_of_flow user u.key key flow.key left keyed (inr differ))
        | yes f ↦ inr (
          none_of_flows user u.key key flows keyed_flows (inr (rw (← f) differ_flows)),
          none_of_users user key others keyed_users (rw (← e) differ_users),
        )
      ]
    ]

five {ℓ} :
    {A : Type ℓ} (a b c d e : List A) → (a ++ b) ++ (c ++ (d ++ e)) ≡ a ++ (((b ++ c) ++ d) ++ e)
five a b c d e = simp (append_assoc)

distinct_flows-last :
    (flow : FlowQueue) (flows : List FlowQueue)
    → AreDistinctFlows flows
    → All (λ other. other.key ≢ flow.key) flows
    → AreDistinctFlows (flows ++ flow ∷ [])
distinct_flows-last flow [] h differ = (tt, tt)
distinct_flows-last flow (f ∷ rest) h differ = (
  All-append (λ other. other.key ≢ f.key) rest (flow ∷ []) h.0 (λ e. differ.0 (sym e), tt),
  distinct_flows-last flow rest h.1 differ.1,
)

distinct-last :
    (user : UserQueue) (users : List UserQueue)
    → AreDistinct users
    → All (λ other. other.key ≢ user.key) users
    → AreDistinctFlows user.flows
    → AreDistinct (users ++ user ∷ [])
distinct-last user [] h differ flows = (tt, flows, tt)
distinct-last user (u ∷ rest) h differ flows = (
  All-append (λ other. other.key ≢ u.key) rest (user ∷ []) h.0 (λ e. differ.0 (sym e), tt),
  h.1,
  distinct-last user rest h.2 differ.1 flows,
)

requeued_flow-distinct :
    (flow : FlowQueue) (packets : List PendingPacket) (flows : List FlowQueue)
    → AreDistinctFlows flows
    → All (λ other. other.key ≢ flow.key) flows
    → AreDistinctFlows (requeued_flow flow packets flows)
requeued_flow-distinct flow [] flows h differ = h
requeued_flow-distinct flow (packet ∷ rest) flows h differ =
    distinct_flows-last (record flow { packets = packet ∷ rest }) flows h differ

requeued_user-distinct :
    (user : UserQueue) (flows : List FlowQueue) (users : List UserQueue)
    → AreDistinct users
    → All (λ other. other.key ≢ user.key) users
    → AreDistinctFlows flows
    → AreDistinct (requeued_user user flows users)
requeued_user-distinct user [] users h differ distinct = h
requeued_user-distinct user (flow ∷ rest) users h differ distinct =
    distinct-last (record user { flows = flow ∷ rest }) users h differ distinct

pub serve-distinct :
    (u : UserQueue) (flows : List FlowQueue) (others : List UserQueue) (batch : List PendingPacket)
    (pending : ℕ)
    → AreDistinct (record u { flows = flows } ∷ others)
    → AreDistinct (serve u flows others batch pending).1.users
serve-distinct u [] others batch pending h = h.2
serve-distinct u (flow ∷ flows) others batch pending h =
    requeued_user-distinct u (requeued_flow flow _ flows) others h.2 h.0
      (requeued_flow-distinct flow _ flows h.1.1 h.1.0)

pub serve-in_order :
    (user : UserKey) (key : FlowKey) (u : UserQueue) (flows : List FlowQueue)
    (others : List UserQueue) (batch : List PendingPacket) (pending : ℕ)
    → All (IsFlow u.key) flows
    → All IsUser others
    → AreDistinct (record u { flows = flows } ∷ others)
    → keep (is_in user key) (serve u flows others batch pending).0
        ++ waiting user key (serve u flows others batch pending).1.users
      ≡ keep (is_in user key) batch ++ waiting user key (record u { flows = flows } ∷ others)
serve-in_order user key u [] others batch pending keyed users h = refl
serve-in_order user key u (flow ∷ flows) others batch pending keyed users h =
    let t : Taking =
      take_packets (quantum batch)
        (record { batch = batch; packets = flow.packets; pending = pending }) in
    let f = take_packets-TakesFirst (quantum batch) batch flow.packets pending in
    let left_keyed =
      take_packets-All (IsKeyed u.key flow.key) (quantum batch) batch flow.packets pending
        keyed.0.1 in
    let K : List PendingPacket → List PendingPacket = keep (is_in user key) in
    let K_append = keep-append (is_in user key) in
    let flows' = requeued_flow flow t.packets flows in
    let after : waiting user key (requeued_user u flows' others)
        ≡ K (user_packets others) ++ (K (flow_packets flows) ++ K t.packets) =
      ap K (user_packets-requeued u flows' others)
      ∙ K_append (user_packets others) (flow_packets flows')
      ∙ ap (λ list. K (user_packets others) ++ list)
          (ap K (flow_packets-requeued flow t.packets flows)
            ∙ K_append (flow_packets flows) t.packets) in
    let before : waiting user key (record u { flows = flow ∷ flows } ∷ others)
        ≡ ((K f.first ++ K t.packets) ++ K (flow_packets flows)) ++ K (user_packets others) =
      K_append (flow.packets ++ flow_packets flows) (user_packets others)
      ∙ ap (λ list. list ++ K (user_packets others))
          (K_append flow.packets (flow_packets flows)
            ∙ ap (λ list. list ++ K (flow_packets flows))
                (ap K (sym f.whole) ∙ K_append f.first t.packets)) in
    let moved : K t.batch ≡ K batch ++ K f.first = ap K f.taken ∙ K_append batch f.first in
    let swap = apart user key u flow t.packets flows others left_keyed keyed.1 users h.1.0 h.0 in
    rw (moved, after, before, swap)
      (five (K batch) (K f.first) (K t.packets) (K (flow_packets flows)) (K (user_packets others)))
