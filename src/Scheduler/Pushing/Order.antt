-- ===== src/Scheduler/Pushing/Order.antt =====
-- Where a packet queues up in `FairQueue::push` of
-- crates/openshield-daemon/src/nfqueue_scheduler.rs.
use open_shield.Base.{
  ◌≡◌, ◌≢◌, ◌⊎◌, inl, inr, refl, sym, ap, ◌∙◌, false, Bool-cases, List, [], ◌∷◌, ◌++◌, keep, All,
  same, same_iff, append_assoc, append-nil, arith,
}
use open_shield.Scheduler.{
  PendingPacket, UserKey, UserKey-discrete, FlowKey, FlowKey-discrete, FlowQueue, UserQueue,
  push_flow, push_user,
}
use open_shield.Scheduler.Fair.{IsKeyed, IsFlow, IsUser}
use open_shield.Scheduler.Order.{
  is_in, keep-append, flow_packets, user_packets, waiting, AreDistinctFlows, AreDistinct,
  none_of_flow, none_of_flows, none_of_users,
}

-- A packet goes behind all that waits, where either it or what it overtakes is of another flow.
behind {ℓ} :
    {A : Type ℓ} (before packet overtaken : List A)
    → (packet ≡ []) ⊎ (overtaken ≡ [])
    → (before ++ packet) ++ overtaken ≡ (before ++ overtaken) ++ packet
behind before packet overtaken (inl p) =
    rw p (rw (append-nil before) (sym (append-nil (before ++ overtaken))))
behind before packet overtaken (inr o) =
    rw o (rw (append-nil before) (append-nil (before ++ packet)))

module _ (packet : PendingPacket) (u : UserKey) (key : FlowKey) (keyed : IsKeyed u key packet)
    (user : UserKey) (flow : FlowKey) where
  abbrev K : List PendingPacket → List PendingPacket
  K = keep (is_in user flow)

  -- The packet, or all the packets of a list of other flows, are not of the flow.
  other_flows :
      (flows : List FlowQueue)
      → All (IsFlow u) flows
      → All (λ other. other.key ≢ key) flows
      → (K (packet ∷ []) ≡ []) ⊎ (K (flow_packets flows) ≡ [])
  other_flows flows ok differ = elim (FlowKey-discrete key flow) [
    | yes e ↦ inr (none_of_flows user u flow flows ok (inr (rw (← e) differ)))
    | no d ↦ inl (none_of_flow user u flow key (packet ∷ []) (keyed, tt) (inr d))
  ]

  other_users :
      (users : List UserQueue)
      → All IsUser users
      → All (λ other. other.key ≢ u) users
      → (K (packet ∷ []) ≡ []) ⊎ (K (user_packets users) ≡ [])
  other_users users ok differ = elim (UserKey-discrete u user) [
    | yes e ↦ inr (none_of_users user flow users ok (rw (← e) differ))
    | no d ↦ inl (none_of_flow user u flow key (packet ∷ []) (keyed, tt) (inl d))
  ]

  push_flow-last :
      (flows : List FlowQueue)
      → All (IsFlow u) flows
      → AreDistinctFlows flows
      → K (flow_packets (push_flow key packet flows)) ≡ K (flow_packets flows) ++ K (packet ∷ [])
  unfolding push_flow
  push_flow-last [] ok d = refl
  push_flow-last (f ∷ rest) ok d = elim (Bool-cases (same FlowKey-discrete f.key key)) [
    | inl e ↦
        let own : f.key ≡ key = (same_iff FlowKey-discrete f.key key).0 e in
        let differ : All (λ other. other.key ≢ key) rest = rw (← own) d.0 in
        rw e (
          keep-append (is_in user flow) (f.packets ++ packet ∷ []) (flow_packets rest)
          ∙ ap (λ list. list ++ K (flow_packets rest))
              (keep-append (is_in user flow) f.packets (packet ∷ []))
          ∙ behind (K f.packets) (K (packet ∷ [])) (K (flow_packets rest))
              (other_flows rest ok.1 differ)
          ∙ ap (λ list. list ++ K (packet ∷ []))
              (sym (keep-append (is_in user flow) f.packets (flow_packets rest))))
    | inr e ↦ rw e (
        keep-append (is_in user flow) f.packets (flow_packets (push_flow key packet rest))
        ∙ ap (λ list. K f.packets ++ list) (push_flow-last rest ok.1 d.1)
        ∙ sym (append_assoc (K f.packets) (K (flow_packets rest)) (K (packet ∷ [])))
        ∙ ap (λ list. list ++ K (packet ∷ []))
            (sym (keep-append (is_in user flow) f.packets (flow_packets rest))))
  ]

  pub push_user-last :
      (users : List UserQueue)
      → All IsUser users
      → AreDistinct users
      → waiting user flow (push_user u key packet users)
        ≡ waiting user flow users ++ K (packet ∷ [])
  unfolding push_user
  push_user-last [] ok d = refl
  push_user-last (v ∷ rest) ok d = elim (Bool-cases (same UserKey-discrete v.key u)) [
    | inl e ↦
        let own : v.key ≡ u = (same_iff UserKey-discrete v.key u).0 e in
        let differ : All (λ other. other.key ≢ u) rest = rw (← own) d.0 in
        let flows : All (IsFlow u) v.flows = rw (← own) ok.0.1 in
        rw e (
          keep-append (is_in user flow) (flow_packets (push_flow key packet v.flows))
            (user_packets rest)
          ∙ ap (λ list. list ++ K (user_packets rest)) (push_flow-last v.flows flows d.1)
          ∙ behind (K (flow_packets v.flows)) (K (packet ∷ [])) (K (user_packets rest))
              (other_users rest ok.1 differ)
          ∙ ap (λ list. list ++ K (packet ∷ []))
              (sym (keep-append (is_in user flow) (flow_packets v.flows) (user_packets rest))))
    | inr e ↦ rw e (
        keep-append (is_in user flow) (flow_packets v.flows)
          (user_packets (push_user u key packet rest))
        ∙ ap (λ list. K (flow_packets v.flows) ++ list) (push_user-last rest ok.1 d.2)
        ∙ sym (append_assoc (K (flow_packets v.flows)) (K (user_packets rest)) (K (packet ∷ [])))
        ∙ ap (λ list. list ++ K (packet ∷ []))
            (sym (keep-append (is_in user flow) (flow_packets v.flows) (user_packets rest))))
  ]

module _ (packet : PendingPacket) where
  push_flow-differ :
      (key x : FlowKey) (flows : List FlowQueue)
      → All (λ other. other.key ≢ x) flows
      → key ≢ x
      → All (λ other. other.key ≢ x) (push_flow key packet flows)
  unfolding push_flow
  push_flow-differ key x [] h d = (d, tt)
  push_flow-differ key x (f ∷ rest) h d = elim (Bool-cases (same FlowKey-discrete f.key key)) [
    | inl e ↦ rw e h
    | inr e ↦ rw e (h.0, push_flow-differ key x rest h.1 d)
  ]

  push_flow-distinct :
      (key : FlowKey) (flows : List FlowQueue)
      → AreDistinctFlows flows
      → AreDistinctFlows (push_flow key packet flows)
  unfolding push_flow
  push_flow-distinct key [] h = (tt, tt)
  push_flow-distinct key (f ∷ rest) h = elim (Bool-cases (same FlowKey-discrete f.key key)) [
    | inl e ↦ rw e h
    | inr e ↦ rw e (
      push_flow-differ key f.key rest h.0 (apart_keys f.key key e),
      push_flow-distinct key rest h.1,
    )
  ]
    where
      apart_keys : (a b : FlowKey) → same FlowKey-discrete a b ≡ false → b ≢ a
      apart_keys a b e eq = ground (arith, same_iff FlowKey-discrete a b)

  push_user-differ :
      (user x : UserKey) (key : FlowKey) (users : List UserQueue)
      → All (λ other. other.key ≢ x) users
      → user ≢ x
      → All (λ other. other.key ≢ x) (push_user user key packet users)
  unfolding push_user
  push_user-differ user x key [] h d = (d, tt)
  push_user-differ user x key (v ∷ rest) h d =
      elim (Bool-cases (same UserKey-discrete v.key user)) [
        | inl e ↦ rw e h
        | inr e ↦ rw e (h.0, push_user-differ user x key rest h.1 d)
      ]

  pub push_user-distinct :
      (user : UserKey) (key : FlowKey) (users : List UserQueue)
      → AreDistinct users
      → AreDistinct (push_user user key packet users)
  unfolding push_user
  push_user-distinct user key [] h = (tt, (tt, tt), tt)
  push_user-distinct user key (v ∷ rest) h = elim (Bool-cases (same UserKey-discrete v.key user)) [
    | inl e ↦ rw e (h.0, push_flow-distinct key v.flows h.1, h.2)
    | inr e ↦ rw e (
      push_user-differ user v.key key rest h.0 (apart_users v.key user e),
      h.1,
      push_user-distinct user key rest h.2,
    )
  ]
    where
      apart_users : (a b : UserKey) → same UserKey-discrete a b ≡ false → b ≢ a
      apart_users a b e eq = ground (arith, same_iff UserKey-discrete a b)
