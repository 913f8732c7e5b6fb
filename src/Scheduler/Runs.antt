-- ===== src/Scheduler/Runs.antt =====
-- Runs of the fair queue of crates/openshield-daemon/src/nfqueue_scheduler.rs: packets that arrive
-- and batches that are taken, in any order.
use open_shield.Base.{
  sym, ap, ◌∙◌, keep, append_assoc, ◌+◌, ◌≡◌, refl, Bool, Option, none, some, List, [], ◌∷◌, ◌++◌,
  count_if, count_if-append, arith,
}
use open_shield.Base.Outcome.{Result, ok, err}
use open_shield.Scheduler.Order.{is_in, waiting, keep-append, AreDistinct}
use open_shield.Scheduler.Batch.Fifo.{take_batch-IsInOrder}
use open_shield.Scheduler.{
  UserKey, FlowKey, PendingPacket, FairQueue, PushError, empty_queue, push, take_batch,
}
use open_shield.Scheduler.Fair.{in_users, IsFair}
use open_shield.Scheduler.Pushing.{accepted, refused, push-Pushes}
use open_shield.Scheduler.Batch.Rounds.{take_batch-TakesAll}

pub data Step : Type 0 where
  arrives : PendingPacket → Step
  takes : Step

-- The queue, with all packets that were pushed, that `push` accepted, that it refused, and that
-- batches held, each in order.
pub record History : Type 0 where
  pub queue : FairQueue
  pub arrived : List PendingPacket
  pub accepted : List PendingPacket
  pub refused : List PendingPacket
  pub taken : List PendingPacket

abbrev pub nothing_yet : History
nothing_yet = record { queue = empty_queue; arrived = []; accepted = []; refused = []; taken = [] }

abbrev pub after_push : PendingPacket → History → Result PushError Unit × FairQueue → History
after_push packet h (ok _, queue) = record h {
  queue = queue;
  arrived = h.arrived ++ packet ∷ [];
  accepted = h.accepted ++ packet ∷ [];
}
after_push packet h (err _, queue) = record h {
  queue = queue;
  arrived = h.arrived ++ packet ∷ [];
  refused = h.refused ++ packet ∷ [];
}

abbrev pub after_batch : History → Option (List PendingPacket × FairQueue) → Option History
after_batch h none = none
after_batch h (some (batch, queue)) = some (record h { queue = queue; taken = h.taken ++ batch })

unfoldable pub step : Step → History → Option History
step (arrives packet) h = some (after_push packet h (push packet h.queue))
step takes h = after_batch h (take_batch h.queue)

unfoldable pub steps : List Step → History → Option History
unfolding step
steps [] h = some h
steps (s ∷ rest) h = elim (step s h) [ none ↦ none | some next ↦ steps rest next ]

-- Every packet that arrived was refused, was taken, or waits, as often as it arrived; and the packets
-- of a flow are taken in the order in which they were accepted.
pub record IsAccounted (h : History) : Type 0 where
  pub fair : IsFair h.queue
  pub distinct : AreDistinct h.queue.users
  pub balance :
      (p : PendingPacket → Bool)
      → count_if p h.arrived
        ≡ count_if p h.refused + (count_if p h.taken + in_users p h.queue.users)
  pub order :
      (user : UserKey) (flow : FlowKey)
      → keep (is_in user flow) h.taken ++ waiting user flow h.queue.users
        ≡ keep (is_in user flow) h.accepted

pub record Reaches (o : Option History) : Type 0 where
  pub history : History
  pub result : o ≡ some history
  pub accounted : IsAccounted history

step-Reaches : (s : Step) (h : History) → IsAccounted h → Reaches (step s h)
unfolding step
step-Reaches (arrives packet) h a = elim (push-Pushes packet h.queue a.fair a.distinct) [
  | accepted t e fair pending added distinct last ↦ rw e (record {
    history = record h {
      queue = t;
      arrived = h.arrived ++ packet ∷ [];
      accepted = h.accepted ++ packet ∷ [];
    };
    result = refl;
    accounted = record {
      fair = fair;
      distinct = distinct;
      balance = λ p. omega (arith, a.balance p, added p, count_if-append p h.arrived (packet ∷ []));
      order = λ user flow.
          ap (λ list. keep (is_in user flow) h.taken ++ list) (last user flow)
          ∙ sym (
              append_assoc (keep (is_in user flow) h.taken) (waiting user flow h.queue.users)
                (keep (is_in user flow) (packet ∷ [])))
          ∙ ap (λ list. list ++ keep (is_in user flow) (packet ∷ [])) (a.order user flow)
          ∙ sym (keep-append (is_in user flow) h.accepted (packet ∷ []));
    };
  })
  | refused _ e ↦ rw e (record {
    history = record h { arrived = h.arrived ++ packet ∷ []; refused = h.refused ++ packet ∷ [] };
    result = refl;
    accounted = record {
      fair = a.fair;
      distinct = a.distinct;
      balance = λ p. omega (
        arith,
        a.balance p,
        count_if-append p h.arrived (packet ∷ []),
        count_if-append p h.refused (packet ∷ []),
      );
      order = a.order;
    };
  })
]
step-Reaches takes h a =
    let t = take_batch-TakesAll h.queue a.fair in
    let f = take_batch-IsInOrder h.queue a.fair a.distinct in
    let one_batch : t.taken ≡ f.taken = cc in
    let one_rest : t.rest ≡ f.rest = cc in
    rw t.result (record {
      history = record h { queue = t.rest; taken = h.taken ++ t.taken };
      result = refl;
      accounted = record {
        fair = t.fair;
        distinct = rw one_rest f.distinct;
        balance = λ p. omega (arith, a.balance p, t.kept p, count_if-append p h.taken t.taken);
        order = λ user flow.
            rw (one_batch, one_rest)
              (ap (λ list. list ++ waiting user flow f.rest.users)
                  (keep-append (is_in user flow) h.taken f.taken)
                ∙ append_assoc (keep (is_in user flow) h.taken) (keep (is_in user flow) f.taken)
                    (waiting user flow f.rest.users)
                ∙ ap (λ list. keep (is_in user flow) h.taken ++ list) (f.order user flow)
                ∙ a.order user flow);
      };
    })

steps-Reaches : (list : List Step) (h : History) → IsAccounted h → Reaches (steps list h)
unfolding steps
steps-Reaches [] h a = record { history = h; result = refl; accounted = a }
steps-Reaches (s ∷ rest) h a =
    let first = step-Reaches s h a in
    rw (first.result, steps) (steps-Reaches rest first.history first.accounted)

-- Whatever packets arrive and whenever batches are taken, from the empty queue on every batch is
-- returned, the queue stays fair with distinct keys, every packet that arrived was refused, was
-- taken in a batch, or still waits, as often as it arrived, and the packets of each flow are taken
-- in the order in which they were accepted.
pub steps-IsAccounted : (list : List Step) → Reaches (steps list nothing_yet)
steps-IsAccounted list = steps-Reaches list nothing_yet (record {
  fair = record { counted = refl; bounded = omega arith; users = tt };
  distinct = tt;
  balance = λ p. refl;
  order = λ user flow. refl;
})
