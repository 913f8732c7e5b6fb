-- ===== src/Engine/Agreement/Learnings.antt =====
-- The success of a learning transaction of crates/openshield-daemon/src/engine.rs.
use open_shield.Base.{
  ℕ, ◌≡◌, refl, sym, ap, ◌∙◌, subst, true, false, none, some, length, same_iff, arith, same,
}
use open_shield.Base.Outcome.{Result, ok}
use open_shield.State.Data.{State}
use open_shield.Protocol.Errors.{ProtocolError}
use open_shield.State.Equality.{State-discrete}
use open_shield.Model.Kinds.{Mode, FirewallCounters}
use open_shield.Model.Rule.{Instant}
use open_shield.Model.LearnedEndpoint.{LearnedApplicationEndpoint}
use open_shield.Engine.Bus.Delivery
use open_shield.Engine.Bus.Delivery.{BusStep}
use open_shield.Engine.Emergency.{on_engine}
use open_shield.Engine.QueueAdmission.{application_learning_queue_admission}
use open_shield.Engine.Reports.{publish_counters_if_current}
use open_shield.Engine.Agreement.Bookkeeping.{Ledger, ledger, Flight-moved}
use open_shield.Engine.Agreement.Admissions.{ledger-admission, ledger-counters}
use open_shield.Engine.Data.{Engine, saved, ApplicationLearningTransaction}
use open_shield.Engine.Outside.{Outside, Promises, Daemon}
use open_shield.Engine.Decision.{replace_state}
use open_shield.Engine.Persistence.{
  store_learning, cancel_learning_reservation, persist_learning, persist, owner_proceeds,
}
use open_shield.Engine.Learning.{conclude, is_in_flight, finalize_application_learning}
use open_shield.Engine.Agreement.{IsLive, Storage, settled, writing, written, abandoned, Flight}
use open_shield.Engine.Agreement.Transactions.{finalize_cases, some-injective, Flight-engine}
use open_shield.Engine.Agreement.Writing.{persist_cases}

module _ (o : Outside) where
  -- The result is this one, and the policy in memory.
  pub record Completes {A : Type 0} (a : A) (candidate : State)
      (r : Result ProtocolError A × Daemon o) : Type 0 where
    pub answer : r.0 ≡ ok a
    pub now : r.1.engine.state ≡ candidate

  -- What may come between a write and its end: admissions of packets, counters, and the event bus.
  pub data Traffic (d : Daemon o) : Daemon o → Type 0 where
    silent : Traffic d d
    admitted :
        {e : Daemon o}
        → Traffic d e
        → (mode : Mode) (generation : ℕ) (endpoint : LearnedApplicationEndpoint)
        → Traffic d (record e {
          engine = (application_learning_queue_admission o mode generation endpoint e.engine).1;
        })
    counted :
        {e : Daemon o}
        → Traffic d e
        → (revision : ℕ) (counters : FirewallCounters) (now : Instant)
        → Traffic d
            (record e { engine = (publish_counters_if_current revision counters now e.engine).1 })
    observed :
        {e : Daemon o}
        → Traffic d e
        → (s : BusStep)
        → Traffic d (on_engine o (λ g. record g { events = Delivery.step s g.events }) e)

module _ (o : Outside) (p : Promises o) where
  -- What traffic leaves alone.
  record Unmoved (d e : Daemon o) : Type 0 where
    pub kept : ledger e.engine ≡ ledger d.engine
    pub persisted : e.persisted ≡ d.persisted
    pub world : e.world ≡ d.world

  unmoved :
      (d e : Daemon o) (g : Engine)
      → Unmoved d e
      → ledger g ≡ ledger e.engine
      → Unmoved d (record e { engine = g })
  unmoved d e g u h = record { kept = h ∙ u.kept; persisted = u.persisted; world = u.world }

  Traffic-Unmoved : {d e : Daemon o} → Traffic o d e → Unmoved d e
  Traffic-Unmoved silent = record { kept = refl; persisted = refl; world = refl }
  Traffic-Unmoved {d} (admitted {e} before mode generation endpoint) =
      unmoved d e _ (Traffic-Unmoved before) (ledger-admission o e.engine mode generation endpoint)
  Traffic-Unmoved {d} (counted {e} before revision counters now) =
      unmoved d e _ (Traffic-Unmoved before) (ledger-counters revision counters now e.engine)
  Traffic-Unmoved {d} (observed {e} before s) = unmoved d e _ (Traffic-Unmoved before) refl

  finalize-Completes :
      (t : ApplicationLearningTransaction) (d : Daemon o)
      → (d.engine.poisoned ≡ false) × (d.engine.fatal ≡ false)
      → Flight o p d t
      → Completes o
          (length t.events)
          t.candidate
          (finalize_application_learning o (record { transaction = t; outcome = saved }) d)
  unfolding conclude replace_state
  finalize-Completes t d clean f =
      let flies : is_in_flight t.token d.engine.learning_persistence ≡ true =
        rw f.flying (ground arith) in
      let based : same State-discrete d.engine.state t.previous ≡ true =
        (same_iff State-discrete d.engine.state t.previous).1 (sym f.base) in
      finalize_cases o p (Completes o (length t.events) t.candidate)
        (record { transaction = t; outcome = saved }) d
        (λ old. absurd (let young = f.fresh in let no : ⊥ = cc in no))
        (λ shut. absurd (ground (arith, shut, clean)))
        (λ _ odd. absurd (ground (arith, odd, flies, based)))
        (λ _ _. record { answer = refl; now = refl })

  -- The owner of a reservation, with a save that succeeds.
  saved_of : ApplicationLearningTransaction → Daemon o → Daemon o
  saved_of t d = record {
    engine = d.engine;
    reservation = none;
    persisted = some (record { transaction = t; outcome = saved });
    world = (o.save t.candidate d.world).1;
  }

  owner_saves :
      (t : ApplicationLearningTransaction) (d : Daemon o)
      → d.reservation ≡ some t
      → o.abandons d.world ≡ false
      → (o.save t.candidate d.world).0 ≡ ok tt
      → owner_proceeds o t d ≡ saved_of t d
  unfolding owner_proceeds persist persist_learning store_learning cancel_learning_reservation
      saved_of
  owner_saves t d held stays done =
      rw (stays, owner_proceeds)
        (persist_cases o p (λ x. x ≡ saved_of t d) t d held (rw (done, store_learning) refl))

  Flight-in :
      (t : ApplicationLearningTransaction) (d : Daemon o)
      → d.reservation ≡ some t
      → Storage o p d
      → Flight o p d t
  Flight-in t d held (settled free _ _ _) = absurd (let no : ⊥ = cc in no)
  Flight-in t d held (written _ free _ _ _) = absurd (let no : ⊥ = cc in no)
  Flight-in t d held (abandoned _ free _ _ _) = absurd (let no : ⊥ = cc in no)
  Flight-in t d held (writing u also _ f _) =
      subst (Flight o p d) (some-injective (sym also ∙ held)) f

  -- What the learner finds after a write, and what comes of it: the transaction is handed over and in
  -- the file, and to finalize it puts it into force.
  pub record Learns (t : ApplicationLearningTransaction) (e : Daemon o) : Type 0 where
    pub handed_over : e.persisted ≡ some (record { transaction = t; outcome = saved })
    pub stored : p.disk e.world ≡ some t.candidate
    pub finalized : Completes o (length t.events) t.candidate (
        finalize_application_learning o
          (record { transaction = t; outcome = saved })
          (record e { persisted = none }))

  moved-Learns :
      (t : ApplicationLearningTransaction) (d e : Daemon o)
      → IsLive o p d
      → Flight o p d t
      → (o.save t.candidate d.world).0 ≡ ok tt
      → Unmoved (saved_of t d) e
      → Learns t e
  unfolding saved_of
  moved-Learns t d e live f done same = record {
    handed_over = same.persisted;
    stored = ap p.disk same.world ∙ p.save_ok t.candidate d.world done;
    finalized =
        finalize-Completes t (record e { persisted = none })
          (
            ap (λ (l : Ledger). l.poisoned) same.kept ∙ live.clean.0,
            ap (λ (l : Ledger). l.fatal) same.kept ∙ live.clean.1,
          )
          (Flight-engine o p t (record d { engine = e.engine }) (record e { persisted = none }) refl
            (Flight-moved o p d e.engine d.world (ap (λ (l : Ledger). l.progress) same.kept) refl t
              f));
  }

  -- In a live daemon in agreement, where the backend and the store keep their promises, a learning
  -- transaction whose reservation is held, whose owner does not give up and whose save succeeds is
  -- handed over as saved and is in the file. Finalized after any admissions, counters and event
  -- traffic, and nothing else, it counts its events and puts the candidate into memory.
  pub learning-Completes :
      (t : ApplicationLearningTransaction) (d e : Daemon o)
      → IsLive o p d
      → d.reservation ≡ some t
      → o.abandons d.world ≡ false
      → (o.save t.candidate d.world).0 ≡ ok tt
      → Traffic o (owner_proceeds o t d) e
      → Learns t e
  learning-Completes t d e live held stays done traffic =
      moved-Learns t d e live (Flight-in t d held live.storage) done
        (subst (λ x. Unmoved x e) (owner_saves t d held stays done) (Traffic-Unmoved traffic))
