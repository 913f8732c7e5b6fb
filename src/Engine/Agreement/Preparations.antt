-- ===== src/Engine/Agreement/Preparations.antt =====
-- The preparation of learning transactions in crates/openshield-daemon/src/engine.rs keeps memory,
-- kernel and file in agreement.
use open_shield.Base.{
  ◌≡◌, refl, ap, ◌∙◌, ℕ, zero, suc, ◌≤◌, true, false, not, ◌||◌, none, some, List, [], ◌∷◌, arith,
  Option-cases, inl, inr, if_cases, same, ◌==◌,
}
use open_shield.Base.Words.{u64_max, checked_add}
use open_shield.Base.Outcome.{ok, map_err}
use open_shield.Base.Exec.{lift_cases}
use open_shield.Model.Kinds.{learning, Mode-discrete}
use open_shield.Model.LearnedEndpoint.{LearnedApplicationEndpoint}
use open_shield.State.External.{Draws}
use open_shield.State.Data.{State, Event}
use open_shield.State.Snapshots.{validate}
use open_shield.Engine.Data.{Engine, persistence_paused, ApplicationLearningTransaction, increment}
use open_shield.Engine.Outside.{Outside, Promises, Daemon}
use open_shield.Engine.Persistence.{reserve_beside, reserve_learning}
use open_shield.Engine.Emergency.{on_engine}
use open_shield.Engine.Control.{core_protocol_error}
use open_shield.Engine.Transition.{validate_application_learning_transition}
use open_shield.Engine.QueueAdmission.{record_learning_quota_skipped}
use open_shield.Engine.Learning.{
  reserve_transaction, check_candidate, learn_candidate, learn_from, propose, valid_endpoints,
  count_saturated, prepare_application_learning, is_active, is_superseded, is_size_limit, events_of,
}
use open_shield.Engine.Agreement.{IsLive, Agrees, settled, writing, is_flying, Keeps}
use open_shield.Engine.Agreement.Writing.{Result-cases}
use open_shield.Engine.Agreement.Requests.{settled_of}
use open_shield.Engine.Agreement.Bookkeeping.{ledger, IsLive-kept}

module _ (o : Outside) (p : Promises o) where
  -- Counting skipped observations changes nothing else.
  ledger-skipped :
      (count : ℕ) (e : Engine) → ledger (record_learning_quota_skipped count e) ≡ ledger e
  unfolding record_learning_quota_skipped
  ledger-skipped zero e = refl
  ledger-skipped (suc count) e =
      ledger-skipped count
        (record e { quota_skipped_observations = increment e.quota_skipped_observations })

  module _ (d : Daemon o) (live : IsLive o p d) (free : d.reservation ≡ none)
      (idle : d.persisted ≡ none) (learns : d.engine.state.mode ≡ learning)
      (grounded : is_flying d.engine.learning_persistence ≡ false) where
    fresh_token :
        (token : ℕ)
        → checked_add u64_max d.engine.next_learning_transaction 1 ≡ some token
        → is_superseded o token d.engine.superseded_learning_transaction ≡ false
    fresh_token token h = elim (Option-cases d.engine.superseded_learning_transaction) [
      | inl e ↦ rw e refl
      | inr (old, e) ↦ let below = live.superseded old e in rw e (ground (arith, below))
    ]

    reserve_free :
        (t : ApplicationLearningTransaction)
        → reserve_learning o t d ≡ ok (record d { reservation = some t })
    unfolding reserve_learning
    reserve_free t = ap (λ owner. reserve_beside o owner t d) free

    reserve-Agrees :
        (candidate : State) (events : List Event)
        → candidate.mode ≡ learning
        → candidate.flow_generation ≡ d.engine.state.flow_generation
        → Agrees o p (reserve_transaction o candidate events d).1
    unfolding reserve_transaction
    reserve-Agrees candidate events mode generation =
        elim (Option-cases (checked_add u64_max d.engine.next_learning_transaction 1)) [
          | inl e ↦ rw (e, reserve_transaction) (inl live)
          | inr (token, e) ↦
              let t : ApplicationLearningTransaction = record {
                token = token;
                previous = d.engine.state;
                candidate = candidate;
                events = events;
              } in
              let next : d.engine.next_learning_transaction ≤ token = ground arith in
              rw (e, reserve_free t, reserve_transaction)
                (inl (record {
                  clean = live.clean;
                  superseded =
                      λ old h. let below = live.superseded old h in omega (arith, below, next);
                  served = live.served;
                  storage =
                      writing t refl idle
                        (record {
                          flying = refl;
                          pending = refl;
                          base = refl;
                          fresh = fresh_token token e;
                          latest = refl;
                          mode = learns;
                          candidate_mode = mode;
                          generation = generation;
                        })
                        (settled_of o p d live.storage grounded).2;
                }))
        ]

    -- Learning stops for good where the policy has reached its size limit.
    paused-Agrees :
        Agrees o p (on_engine o (λ g. record g { learning_persistence = persistence_paused }) d)
    paused-Agrees =
        let (_, nothing, file) = settled_of o p d live.storage grounded in
        inl (record {
          clean = live.clean;
          superseded = live.superseded;
          served = live.served;
          storage = settled free refl nothing file;
        })

    valid_candidate :
        (candidate : State) (events : List Event)
        → validate_application_learning_transition d.engine.state candidate events ≡ true
        → (candidate.mode ≡ learning) × (candidate.flow_generation ≡ d.engine.state.flow_generation)
    unfolding validate_application_learning_transition
    valid_candidate candidate events h = (ground arith, ground arith)

    check-Keeps :
        (candidate : State) (events : List Event) → Keeps o p (check_candidate o candidate events d)
    unfolding check_candidate
    check-Keeps candidate events = elim (Result-cases (validate o.external candidate)) [
      | inr (e, h) ↦
          rw (h, check_candidate)
            (if_cases (Keeps o p) (is_size_limit e) _ _ (λ _. record { agrees = paused-Agrees })
              (λ _. record { agrees = inl live }))
      | inl (_, h) ↦
          rw (h, check_candidate)
            (if_cases (Keeps o p)
              (validate_application_learning_transition d.engine.state candidate events) _ _
              (λ valid.
                let (mode, generation) = valid_candidate candidate events valid in
                record { agrees = reserve-Agrees candidate events mode generation })
              (λ _. record { agrees = inl live }))
    ]

  propose-Keeps :
      (candidate : State) (events : List Event) (d : Daemon o)
      → IsLive o p d
      → d.reservation ≡ none
      → d.persisted ≡ none
      → d.engine.state.mode ≡ learning
      → is_flying d.engine.learning_persistence ≡ false
      → Keeps o p (propose o candidate events d)
  propose-Keeps candidate [] d live free idle learns grounded = record { agrees = inl live }
  propose-Keeps candidate (event ∷ rest) d live free idle learns grounded =
      check-Keeps d live free idle learns grounded candidate (event ∷ rest)

  learn-Keeps :
      (draws : Draws) (endpoints : List LearnedApplicationEndpoint) (d : Daemon o)
      → IsLive o p d
      → d.reservation ≡ none
      → d.persisted ≡ none
      → d.engine.state.mode ≡ learning
      → is_flying d.engine.learning_persistence ≡ false
      → Keeps o p (learn_candidate o draws endpoints d)
  unfolding learn_candidate
  learn-Keeps draws endpoints d live free idle learns grounded =
      let learnt = learn_from o draws (valid_endpoints o endpoints) d.engine in
      let skipped = count_saturated o learnt.1 (valid_endpoints o endpoints) d.engine in
      let counted = record_learning_quota_skipped skipped d.engine in
      let same_ledger = ledger-skipped skipped d.engine in
      lift_cases (Keeps o p) (map_err (core_protocol_error o) learnt.0) _ d
        (λ _. record { agrees = inl live })
        λ outcomes _.
          propose-Keeps learnt.1 (events_of outcomes) (record d { engine = counted })
            (IsLive-kept o p d counted same_ledger live) free idle
            (ap (λ l. l.progress.state.mode) same_ledger ∙ learns)
            (ap (λ l. is_flying l.progress.learning_persistence) same_ledger ∙ grounded)

  -- A preparation by the learner, which has no other transaction.
  pub prepare-Agrees :
      (draws : Draws) (generation : ℕ) (endpoints : List LearnedApplicationEndpoint) (d : Daemon o)
      → d.reservation ≡ none
      → d.persisted ≡ none
      → Agrees o p d
      → Agrees o p (prepare_application_learning o draws generation endpoints d).1
  unfolding prepare_application_learning
  prepare-Agrees draws generation endpoints d free idle a =
      (if_cases (Keeps o p)
        (d.engine.poisoned
          || not (is_active d.engine.learning_persistence)
          || not (same Mode-discrete d.engine.state.mode learning)
          || not (d.engine.state.flow_generation == generation))
        _ _ (λ _. record { agrees = a }) (λ ready. begins a ready)).agrees
    where
      begins :
          Agrees o p d
          → d.engine.poisoned
              || not (is_active d.engine.learning_persistence)
              || not (same Mode-discrete d.engine.state.mode learning)
              || not (d.engine.state.flow_generation == generation)
            ≡ false
          → Keeps o p (learn_candidate o draws endpoints d)
      begins (inr q) ready = absurd (ground (arith, ready, q.poisoned))
      begins (inl live) ready =
          learn-Keeps draws endpoints d live free idle (ground (arith, ready))
            (ground (arith, ready))
