-- ===== src/Scheduler/Batch/Rounds.antt =====
-- The outer loop of `FairQueue::take_batch` of crates/openshield-daemon/src/nfqueue_scheduler.rs.
use open_shield.Base.{
  ℕ, zero, suc, ◌+◌, ◌≤◌, ◌<◌, ◌≡◌, refl, min, Bool, true, false, Bool-cases, inl, inr, Option,
  some, List, [], ◌∷◌, length, ltb, count_if, All, arith,
}
use open_shield.Scheduler.{
  PendingPacket, FlowQueue, UserQueue, FairQueue, max_pending_packets, max_packet_batch_size,
  flow_quantum, Taking, take_packets, quantum, requeued_flow, serve, take_rounds, take_batch,
}
use open_shield.Scheduler.Fair.{
  in_flows, in_users, anything, count_if-anything, IsKeyed, IsFlow, IsUser, IsFair,
}
use open_shield.Scheduler.Batch.{
  take_packets-Takes, take_packets-All, in_flows-requeued, in_users-requeued, requeued-IsFlow,
  requeued-IsUser,
}

-- What one pass of the outer loop does to the batch and the queue.
pub record Serves (batch : List PendingPacket) (q : FairQueue) (batch' : List PendingPacket)
    (t : FairQueue) : Type 0 where
  pub fair : IsFair t
  pub more : length batch + 1 ≤ length batch'
  pub room : length batch' ≤ max_packet_batch_size
  pub quick : length batch' ≤ length batch + flow_quantum
  pub total : length batch' + t.pending ≡ length batch + q.pending
  pub kept :
      (p : PendingPacket → Bool)
      → count_if p batch' + in_users p t.users ≡ count_if p batch + in_users p q.users
  pub grows : (p : PendingPacket → Bool) → count_if p batch ≤ count_if p batch'

serve-Serves :
    (user : UserQueue) (flow : FlowQueue) (flows : List FlowQueue) (others : List UserQueue)
    (batch : List PendingPacket) (pending : ℕ)
    → pending ≡ in_flows anything (flow ∷ flows) + in_users anything others
    → pending ≤ max_pending_packets
    → All (IsFlow user.key) (flow ∷ flows)
    → All IsUser others
    → length batch < max_packet_batch_size
    → Serves batch
        (record {
          users = record { key = user.key; flows = flow ∷ flows } ∷ others;
          pending = pending;
        })
        (serve user (flow ∷ flows) others batch pending).0
        (serve user (flow ∷ flows) others batch pending).1
serve-Serves user flow flows others batch pending counted bounded ok h free =
    let t : Taking =
      take_packets (quantum batch)
        (record { batch = batch; packets = flow.packets; pending = pending }) in
    let takes = take_packets-Takes (quantum batch) batch flow.packets pending in
    let flows' = requeued_flow flow t.packets flows in
    let length_flow = count_if-anything flow.packets in
    let length_left = count_if-anything t.packets in
    let one_flow = in_flows-requeued anything flow t.packets flows in
    let one_user = in_users-requeued anything user flows' others in
    let gone = takes.pending (omega (arith, counted, length_flow)) in
    record {
      fair = record {
        counted =
            omega (arith, counted, length_flow, length_left, one_flow, one_user, gone, takes.left);
        bounded = omega (arith, bounded, gone);
        users =
            requeued-IsUser user flows' others
              (requeued-IsFlow user flow t.packets flows
                (take_packets-All (IsKeyed user.key flow.key) (quantum batch) batch flow.packets
                  pending ok.0.1)
                ok.1)
              h;
      };
      more = omega (arith, takes.moved, ok.0.0, free);
      room = omega (arith, takes.moved, free);
      quick = omega (arith, takes.moved);
      total = omega (arith, takes.moved, gone);
      grows = takes.grows;
      kept = λ p. omega (
        arith,
        takes.kept p,
        in_flows-requeued p flow t.packets flows,
        in_users-requeued p user flows' others,
      );
    }

-- A user of a fair queue has a flow to serve.
pub serve_first :
    (user : UserQueue) (flows : List FlowQueue) (others : List UserQueue)
    (batch : List PendingPacket) (pending : ℕ)
    → pending ≡ in_flows anything flows + in_users anything others
    → pending ≤ max_pending_packets
    → 1 ≤ length flows
    → All (IsFlow user.key) flows
    → All IsUser others
    → length batch < max_packet_batch_size
    → Serves batch
        (record { users = record { key = user.key; flows = flows } ∷ others; pending = pending })
        (serve user flows others batch pending).0
        (serve user flows others batch pending).1
serve_first user [] others batch pending counted bounded some_flow ok h free =
    absurd (omega (arith, some_flow))
serve_first user (flow ∷ flows) others batch pending counted bounded some_flow ok h free =
    serve-Serves user flow flows others batch pending counted bounded ok h free

-- A batch taken from `q` behind `batch`, and what it leaves.
pub record TakesAll (batch : List PendingPacket) (q : FairQueue)
    (o : Option (List PendingPacket × FairQueue)) : Type 0 where
  pub taken : List PendingPacket
  pub rest : FairQueue
  pub result : o ≡ some (taken, rest)
  pub fair : IsFair rest
  pub size : length taken ≡ min max_packet_batch_size (length batch + q.pending)
  pub total : length taken + rest.pending ≡ length batch + q.pending
  pub kept :
      (p : PendingPacket → Bool)
      → count_if p taken + in_users p rest.users ≡ count_if p batch + in_users p q.users
  pub grows : (p : PendingPacket → Bool) → count_if p batch ≤ count_if p taken

full :
    (batch : List PendingPacket) (q : FairQueue)
    → IsFair q
    → length batch ≡ max_packet_batch_size
    → TakesAll batch q (some (batch, q))
full batch q h e = record {
  taken = batch;
  rest = q;
  result = refl;
  fair = h;
  size = omega (arith, e);
  total = refl;
  kept = λ p. refl;
  grows = λ p. omega arith;
}

-- A served user, and what the rounds behind it take.
served :
    (batch taken : List PendingPacket) (q t : FairQueue)
    (o : Option (List PendingPacket × FairQueue))
    → Serves batch q taken t
    → TakesAll taken t o
    → TakesAll batch q o
served batch taken q t o s more = record {
  taken = more.taken;
  rest = more.rest;
  result = more.result;
  fair = more.fair;
  size = omega (arith, more.size, s.total);
  total = omega (arith, more.total, s.total);
  kept = λ p. omega (arith, more.kept p, s.kept p);
  grows = λ p. omega (arith, more.grows p, s.grows p);
}

-- One round before the others, of which `n` are enough.
one_round :
    (n : ℕ) (batch : List PendingPacket) (users : List UserQueue) (pending : ℕ)
    → IsFair (record { users = users; pending = pending })
    → length batch < max_packet_batch_size
    → max_packet_batch_size ≤ length batch + suc n
    → ((taken : List PendingPacket) (t : FairQueue)
        → IsFair t
        → length taken ≤ max_packet_batch_size
        → max_packet_batch_size ≤ length taken + n
        → TakesAll taken t (take_rounds n taken t))
    → TakesAll batch
        (record { users = users; pending = pending })
        (take_rounds (suc n) batch (record { users = users; pending = pending }))
unfolding take_rounds
one_round n batch [] pending h free enough rounds =
    let below : ltb (length batch) max_packet_batch_size ≡ true = ground (arith, free) in
    rw (below, take_rounds)
      (record {
        taken = batch;
        rest = record { users = []; pending = pending };
        result = refl;
        fair = h;
        size = omega (arith, h.counted, free);
        total = refl;
        kept = λ p. refl;
        grows = λ p. omega arith;
      })
one_round n batch (user ∷ others) pending h free enough rounds =
    let below : ltb (length batch) max_packet_batch_size ≡ true = ground (arith, free) in
    let s =
      serve_first user user.flows others batch pending h.counted h.bounded h.users.0.0 h.users.0.1
        h.users.1 free in
    let next = serve user user.flows others batch pending in
    rw (below, take_rounds)
      (served batch next.0 (record { users = user ∷ others; pending = pending }) next.1 _ s
        (rounds next.0 next.1 s.fair s.room (omega (arith, s.more, enough))))

pub take_rounds-TakesAll :
    (fuel : ℕ) (batch : List PendingPacket) (q : FairQueue)
    → IsFair q
    → length batch ≤ max_packet_batch_size
    → max_packet_batch_size ≤ length batch + fuel
    → TakesAll batch q (take_rounds fuel batch q)
unfolding take_rounds
take_rounds-TakesAll zero batch q h room enough =
    let over : ltb (length batch) max_packet_batch_size ≡ false = ground (arith, enough) in
    rw over (full batch q h (omega (arith, room, enough)))
take_rounds-TakesAll (suc n) batch q h room enough =
    elim (Bool-cases (ltb (length batch) max_packet_batch_size)) [
      | inr e ↦ rw (e, take_rounds) (full batch q h (ground (arith, room)))
      | inl e ↦
          one_round n batch q.users q.pending h (ground arith) enough
            (λ taken t. take_rounds-TakesAll n taken t)
    ]

-- From a fair queue take_batch returns, and takes as many packets as wait, up to 32: the packets
-- of the batch and those still waiting are together the packets that waited, and the queue is fair
-- again.
pub take_batch-TakesAll : (q : FairQueue) → IsFair q → TakesAll [] q (take_batch q)
unfolding take_batch
take_batch-TakesAll q h =
    take_rounds-TakesAll max_packet_batch_size [] q h (omega arith) (omega arith)
