-- ===== src/Scheduler/Batch/Fifo.antt =====
-- The batches of crates/openshield-daemon/src/nfqueue_scheduler.rs, flow by flow.
use open_shield.Base.{
  ℕ, zero, suc, ◌+◌, ◌<◌, ◌≤◌, ◌≡◌, ◌∙◌, refl, inl, inr, false, Bool-cases, Option, some, List, [],
  ◌∷◌, ◌++◌, length, ltb, keep, arith,
}
use open_shield.Scheduler.{
  PendingPacket, UserKey, FlowKey, UserQueue, FairQueue, max_packet_batch_size, serve, take_rounds,
  take_batch,
}
use open_shield.Scheduler.Fair.{IsFair}
use open_shield.Scheduler.Batch.Rounds.{serve_first}
use open_shield.Scheduler.Order.{is_in, waiting, AreDistinct}
use open_shield.Scheduler.Batch.Order.{serve-distinct, serve-in_order}

-- A batch that takes the packets of every flow in the order in which they wait.
pub record IsInOrder (batch : List PendingPacket) (q : FairQueue)
    (o : Option (List PendingPacket × FairQueue)) : Type 0 where
  pub taken : List PendingPacket
  pub rest : FairQueue
  pub result : o ≡ some (taken, rest)
  pub distinct : AreDistinct rest.users
  pub order :
      (user : UserKey) (key : FlowKey)
      → keep (is_in user key) taken ++ waiting user key rest.users
        ≡ keep (is_in user key) batch ++ waiting user key q.users

idle :
    (batch : List PendingPacket) (q : FairQueue)
    → AreDistinct q.users
    → IsInOrder batch q (some (batch, q))
idle batch q d = record {
  taken = batch;
  rest = q;
  result = refl;
  distinct = d;
  order = λ user key. refl;
}

take_rounds-IsInOrder :
    (n : ℕ) (batch : List PendingPacket) (users : List UserQueue) (pending : ℕ)
    → IsFair (record { users = users; pending = pending })
    → AreDistinct users
    → max_packet_batch_size ≤ length batch + n
    → IsInOrder batch
        (record { users = users; pending = pending })
        (take_rounds n batch (record { users = users; pending = pending }))
unfolding take_rounds
take_rounds-IsInOrder zero batch users pending h d enough =
    let over : ltb (length batch) max_packet_batch_size ≡ false = ground (arith, enough) in
    rw over (idle batch (record { users = users; pending = pending }) d)
take_rounds-IsInOrder (suc n) batch [] pending h d enough =
    elim (Bool-cases (ltb (length batch) max_packet_batch_size)) [
      | inr e ↦ rw (e, take_rounds) (idle batch (record { users = []; pending = pending }) d)
      | inl e ↦ rw (e, take_rounds) (idle batch (record { users = []; pending = pending }) d)
    ]
take_rounds-IsInOrder (suc n) batch (u ∷ others) pending h d enough =
    elim (Bool-cases (ltb (length batch) max_packet_batch_size)) [
      | inr e ↦
          rw (e, take_rounds) (idle batch (record { users = u ∷ others; pending = pending }) d)
      | inl e ↦
          let free : length batch < max_packet_batch_size = ground (arith, e) in
          let next = serve u u.flows others batch pending in
          let s =
            serve_first u u.flows others batch pending h.counted h.bounded h.users.0.0 h.users.0.1
              h.users.1 free in
          let more =
            take_rounds-IsInOrder n next.0 next.1.users next.1.pending s.fair
              (serve-distinct u u.flows others batch pending d) (omega (arith, s.more, enough)) in
          rw (e, take_rounds)
            (record {
              taken = more.taken;
              rest = more.rest;
              result = more.result;
              distinct = more.distinct;
              order = λ user key.
                  more.order user key
                  ∙ serve-in_order user key u u.flows others batch pending h.users.0.1 h.users.1 d;
            })
    ]

-- From a fair queue whose users and flows have distinct keys, take_batch returns a batch that has
-- the packets of every flow in the order in which they waited, those that still wait behind them,
-- and leaves keys distinct.
pub take_batch-IsInOrder :
    (q : FairQueue) → IsFair q → AreDistinct q.users → IsInOrder [] q (take_batch q)
unfolding take_batch
take_batch-IsInOrder q h d =
    take_rounds-IsInOrder max_packet_batch_size [] q.users q.pending h d (omega arith)
