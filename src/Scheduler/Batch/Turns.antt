-- ===== src/Scheduler/Batch/Turns.antt =====
-- Turns of users in `FairQueue::take_batch` of
-- crates/openshield-daemon/src/nfqueue_scheduler.rs.
use open_shield.Base.{
  ℕ, zero, suc, ◌+◌, ◌*◌, ◌≤◌, ◌<◌, ◌≡◌, refl, Bool, true, Option, none, some, List, [], ◌∷◌, ◌++◌,
  length, ltb, count_if, count_if-le-length, All, arith, same, same_refl,
}
use mathlib.Core.Option.{some-injective}
use open_shield.Scheduler.{
  PendingPacket, UserKey, UserKey-discrete, FlowKey, FlowQueue, UserQueue, FairQueue, for_packet,
  max_packet_batch_size, flow_quantum, Taking, take_packets, quantum, requeued_user, serve,
  take_rounds, take_batch,
}
use open_shield.Scheduler.Fair.{IsKeyed, IsFlow, IsFair}
use open_shield.Scheduler.Batch.{take_packets-Takes}
use open_shield.Scheduler.Batch.Rounds.{serve_first, take_rounds-TakesAll}

-- The user that waits behind `k` others.
abbrev pub user_at : ℕ → List UserQueue → Option UserQueue
user_at k [] = none
user_at zero (user ∷ rest) = some user
user_at (suc k) (user ∷ rest) = user_at k rest

abbrev pub is_of : UserKey → PendingPacket → Bool
is_of key packet = same UserKey-discrete (for_packet packet.work).0 key

user_at-append :
    (k : ℕ) (user : UserQueue) (xs ys : List UserQueue)
    → user_at k xs ≡ some user
    → user_at k (xs ++ ys) ≡ some user
user_at-append zero user [] ys h = cc
user_at-append (suc k) user [] ys h = cc
user_at-append zero user (x ∷ xs) ys h = h
user_at-append (suc k) user (x ∷ xs) ys h = user_at-append k user xs ys h

user_at-requeued :
    (k : ℕ) (user last : UserQueue) (flows : List FlowQueue) (others : List UserQueue)
    → user_at k others ≡ some user
    → user_at k (requeued_user last flows others) ≡ some user
user_at-requeued k user last [] others h = h
user_at-requeued k user last (flow ∷ flows) others h = user_at-append k user others _ h

user_at-serve :
    (k : ℕ) (user first : UserQueue) (flows : List FlowQueue) (others : List UserQueue)
    (batch : List PendingPacket) (pending : ℕ)
    → user_at k others ≡ some user
    → user_at k (serve first flows others batch pending).1.users ≡ some user
user_at-serve k user first [] others batch pending h = h
user_at-serve k user first (flow ∷ flows) others batch pending h =
    user_at-requeued k user first _ others h

own_packets :
    (user : UserKey) (flow : FlowKey) (packets : List PendingPacket)
    → All (IsKeyed user flow) packets
    → count_if (is_of user) packets ≡ length packets
own_packets user flow [] h = refl
own_packets user flow (packet ∷ rest) h =
    let own : is_of user packet ≡ true = rw h.0 (same_refl UserKey-discrete user) in
    rw own (omega (arith, own_packets user flow rest h.1))

-- The user that is served gets a packet into the batch.
own_turn :
    (user : UserQueue) (flows : List FlowQueue) (others : List UserQueue)
    (batch : List PendingPacket) (pending : ℕ)
    → 1 ≤ length flows
    → All (IsFlow user.key) flows
    → length batch < max_packet_batch_size
    → count_if (is_of user.key) batch + 1
      ≤ count_if (is_of user.key) (serve user flows others batch pending).0
own_turn user [] others batch pending some_flow ok free = absurd (omega (arith, some_flow))
own_turn user (flow ∷ flows) others batch pending some_flow ok free =
    let t : Taking =
      take_packets (quantum batch)
        (record { batch = batch; packets = flow.packets; pending = pending }) in
    let takes = take_packets-Takes (quantum batch) batch flow.packets pending in
    omega (
      arith,
      takes.kept (is_of user.key),
      takes.left,
      own_packets user.key flow.key flow.packets ok.0.1,
      count_if-le-length (is_of user.key) t.packets,
      ok.0.0,
      free,
    )

-- A batch that has a packet which passes the test.
pub record Contains (p : PendingPacket → Bool) (o : Option (List PendingPacket × FairQueue))
    : Type 0 where
  pub taken : List PendingPacket
  pub rest : FairQueue
  pub result : o ≡ some (taken, rest)
  pub found : 1 ≤ count_if p taken

take_rounds-Contains :
    (n : ℕ) (batch : List PendingPacket) (users : List UserQueue) (pending : ℕ) (k : ℕ)
    (user : UserQueue)
    → IsFair (record { users = users; pending = pending })
    → user_at k users ≡ some user
    → length batch + flow_quantum * k < max_packet_batch_size
    → max_packet_batch_size ≤ length batch + n
    → Contains (is_of user.key) (take_rounds n batch (record { users = users; pending = pending }))
unfolding take_rounds
take_rounds-Contains zero batch users pending k user h e early enough =
    absurd (omega (arith, early, enough))
take_rounds-Contains (suc n) batch [] pending zero user h e early enough = cc
take_rounds-Contains (suc n) batch [] pending (suc k) user h e early enough = cc
take_rounds-Contains (suc n) batch (first ∷ others) pending zero user h e early enough =
    let free : length batch < max_packet_batch_size = omega (arith, early) in
    let below : ltb (length batch) max_packet_batch_size ≡ true = ground (arith, free) in
    let next = serve first first.flows others batch pending in
    let s =
      serve_first first first.flows others batch pending h.counted h.bounded h.users.0.0 h.users.0.1
        h.users.1 free in
    let turn = own_turn first first.flows others batch pending h.users.0.0 h.users.0.1 free in
    let more = take_rounds-TakesAll n next.0 next.1 s.fair s.room (omega (arith, s.more, enough)) in
    rw (below, take_rounds)
      (record {
        taken = more.taken;
        rest = more.rest;
        result = more.result;
        found =
            rw (← some-injective first user e) (omega (arith, more.grows (is_of first.key), turn));
      })
take_rounds-Contains (suc n) batch (first ∷ others) pending (suc k) user h e early enough =
    let free : length batch < max_packet_batch_size = omega (arith, early) in
    let below : ltb (length batch) max_packet_batch_size ≡ true = ground (arith, free) in
    let next = serve first first.flows others batch pending in
    let s =
      serve_first first first.flows others batch pending h.counted h.bounded h.users.0.0 h.users.0.1
        h.users.1 free in
    rw (below, take_rounds)
      (take_rounds-Contains n next.0 next.1.users next.1.pending k user s.fair
        (user_at-serve k user first first.flows others batch pending e)
        (omega (arith, s.quick, early)) (omega (arith, s.more, enough)))

-- In a fair queue each of the first eight users gets a packet into the next batch, however many
-- packets and flows the users before it have.
pub take_batch-Contains :
    (q : FairQueue) (k : ℕ) (user : UserQueue)
    → IsFair q
    → user_at k q.users ≡ some user
    → k < 8
    → Contains (is_of user.key) (take_batch q)
unfolding take_batch
take_batch-Contains q k user h e early =
    take_rounds-Contains max_packet_batch_size [] q.users q.pending k user h e
      (omega (arith, early)) (omega arith)
