-- ===== src/Engine/Agreement/Runs.antt =====
-- Runs of the daemon around crates/openshield-daemon/src/engine.rs: what its threads do one after
-- another under the engine's lock, with the writes of learning in between.
use open_shield.Base.{
  ◌⊎◌, true, ◌≡◌, refl, ap, ℕ, false, ◌||◌, none, some, List, inl, inr, ◌==◌, if_cases,
}
use open_shield.Base.Outcome.{Result, ok}
use open_shield.Base.Text.{Text}
use open_shield.Model.Kinds.{Mode, FirewallCounters}
use open_shield.Model.Rule.{Instant}
use open_shield.Model.LearnedEndpoint.{LearnedApplicationEndpoint}
use open_shield.State.Data.{snapshot}
use open_shield.State.External.{Draws}
use open_shield.Protocol.Requests.{ControlRequest}
use open_shield.Engine.Bus.Delivery
use open_shield.Engine.Bus.Delivery.{BusStep}
use open_shield.Engine.Data.{
  Engine, startup_pending, startup_active, ApplicationLearningTransaction,
  PersistedApplicationLearning,
}
use open_shield.Engine.Outside.{Outside, Promises, Daemon}
use open_shield.Engine.Persistence.{owner_proceeds}
use open_shield.Engine.Emergency.{
  on_engine, forget_counters, quarantine_after_runtime_failure, quarantine_after_engine_poison,
}
use open_shield.Engine.Commit.{emergency, reinstall, repair_policy, handle_control}
use open_shield.Engine.Learning.{prepare_application_learning, finalize_application_learning}
use open_shield.Engine.QueueAdmission.{application_learning_queue_admission}
use open_shield.Engine.Startup.{activated, activate_pending, activate_startup_policy}
use open_shield.Engine.Reports.{publish_counters_if_current}
use open_shield.Engine.Agreement.{IsLive, Agrees, IsReleased, exactly, Keeps}
use open_shield.Engine.Agreement.Releases.{
  activated-IsReleased, IsReleased-kept, handle_control-IsReleased, repair-IsReleased,
  prepare-IsReleased, owner-IsReleased, finalize-IsReleased, failure-IsReleased,
}
use open_shield.Engine.Agreement.Writing.{Result-cases}
use open_shield.Engine.Agreement.Emergencies.{
  emergency-IsQuarantined, runtime_failure-IsQuarantined, panic-IsQuarantined, startup_cases,
}
use open_shield.Engine.Agreement.Bookkeeping.{ledger, Storage-moved, Agrees-kept, IsLive-kept}
use open_shield.Engine.Agreement.Admissions.{ledger-admission, ledger-counters}
use open_shield.Engine.Agreement.Requests.{handle_control-IsAnswered}
use open_shield.Engine.Agreement.Transactions.{owner-Agrees, finalize-Agrees}
use open_shield.Engine.Agreement.Preparations.{prepare-Agrees}

module _ (o : Outside) where
  -- One step of the daemon. Clients, the monitor and the learner begin when the policy is active; the
  -- one learner prepares a transaction only when it holds none. A failed activation ends the daemon.
  pub data Step (d : Daemon o) : Daemon o → Type 0 where
    activates : (activate_startup_policy o d).0 ≡ ok tt → Step d (activate_startup_policy o d).1
    controls :
        (draws : Draws) (request : ControlRequest)
        → d.engine.startup_policy ≡ startup_active
        → Step d (handle_control o draws request d).1
    repairs :
        (revision : ℕ)
        → d.engine.startup_policy ≡ startup_active
        → Step d (repair_policy o revision d).1
    prepares :
        (draws : Draws) (generation : ℕ) (endpoints : List LearnedApplicationEndpoint)
        → d.reservation ≡ none
        → d.persisted ≡ none
        → Step d (prepare_application_learning o draws generation endpoints d).1
    writes :
        (t : ApplicationLearningTransaction)
        → d.reservation ≡ some t
        → Step d (owner_proceeds o t d)
    finalizes :
        (w : PersistedApplicationLearning)
        → d.persisted ≡ some w
        → Step d (finalize_application_learning o w (record d { persisted = none })).1
    admits :
        (mode : Mode) (generation : ℕ) (endpoint : LearnedApplicationEndpoint)
        → Step d (record d {
          engine = (application_learning_queue_admission o mode generation endpoint d.engine).1;
        })
    counts :
        (revision : ℕ) (counters : FirewallCounters) (now : Instant)
        → Step d
            (record d { engine = (publish_counters_if_current revision counters now d.engine).1 })
    observes :
        (s : BusStep) → Step d (on_engine o (λ e. record e { events = Delivery.step s e.events }) d)
    fails : Step d (quarantine_after_runtime_failure o d)
    panics : Step d (quarantine_after_engine_poison o d)

  pub data Run (d : Daemon o) : Daemon o → Type 0 where
    begins : Run d d
    goes_on : {e f : Daemon o} → Run d e → Step e f → Run d f

module _ (o : Outside) (p : Promises o) where
  -- A kernel that took the policy of an engine in service.
  applied-IsLive :
      (d : Daemon o) (e : Engine)
      → IsLive o p d
      → ledger e ≡ ledger (record d.engine { startup_policy = startup_active })
      → (o.apply (snapshot d.engine.state) d.world).0 ≡ ok tt
      → IsLive o p (record d { engine = e; world = (o.apply (snapshot d.engine.state) d.world).1 })
  applied-IsLive d e live h done =
      let active : Engine = record d.engine { startup_policy = startup_active } in
      let w = (o.apply (snapshot d.engine.state) d.world).1 in
      IsLive-kept o p (record d { engine = active; world = w }) e h
        (record {
          clean = live.clean;
          superseded = live.superseded;
          served = inr (refl, exactly (p.apply_ok (snapshot d.engine.state) d.world done));
          storage =
              Storage-moved o p d active w refl (p.disk-apply (snapshot d.engine.state) d.world)
                live.storage;
        })

  reinstall-Keeps :
      (d : Daemon o)
      → d.engine.startup_policy ≡ startup_active
      → IsLive o p d
      → Keeps o p (reinstall o d)
  unfolding reinstall emergency
  reinstall-Keeps d active live =
      let applied = o.apply (snapshot d.engine.state) d.world in
      elim (Result-cases applied.0) [
        | inl (_, e) ↦
            rw (e, reinstall)
              (record {
                agrees = inl (
                    applied-IsLive d (forget_counters d.engine) live
                      (ap (λ s. ledger (record d.engine { startup_policy = s })) active) e);
              })
        | inr (_, e) ↦
            rw (e, reinstall)
              (record {
                agrees = inr (
                    emergency-IsQuarantined o p d.engine.state.revision
                      (record d { world = applied.1 }));
              })
      ]

  repair-Keeps :
      (revision : ℕ) (d : Daemon o)
      → d.engine.startup_policy ≡ startup_active
      → Agrees o p d
      → Keeps o p (repair_policy o revision d)
  unfolding repair_policy
  repair-Keeps revision d active a =
      let same_revision = d.engine.state.revision == revision in
      let asks = d.engine.restart_required || d.engine.fatal in
      if_cases (Keeps o p) d.engine.poisoned _ _ (λ _. record { agrees = a })
        λ sound.
          if_cases (Keeps o p) asks _ _ (λ _. record { agrees = a })
            λ _.
              if_cases (Keeps o p) same_revision _ _ (λ _. reinstalled a sound)
                (λ _. record { agrees = a })
    where
      reinstalled : Agrees o p d → d.engine.poisoned ≡ false → Keeps o p (reinstall o d)
      reinstalled (inl live) sound = reinstall-Keeps d active live
      reinstalled (inr q) sound = absurd (let h = q.poisoned in let no : ⊥ = cc in no)

  activated-Agrees :
      (d : Daemon o)
      → IsLive o p d
      → (activate_pending o d).0 ≡ ok tt
      → Agrees o p (activate_pending o d).1
  unfolding activate_pending
  activated-Agrees d live =
      let applied = o.apply (snapshot d.engine.state) d.world in
      elim (Result-cases applied.0) [
        | inl (_, e) ↦
            rw (e, activate_pending)
              (λ _. inl (applied-IsLive d (activated o d.engine) live refl e))
        | inr (_, e) ↦ rw (e, activate_pending) (λ no. cc)
      ]

  -- A run that went on to activate a pending engine that was poisoned.
  pub data Releases (d : Daemon o) : (e : Daemon o) → Run o d e → Type 0 where
    releases :
        {e : Daemon o} (r : Run o d e)
        → e.engine.poisoned ≡ true
        → e.engine.startup_policy ≡ startup_pending
        → (done : (activate_startup_policy o e).0 ≡ ok tt)
        → Releases d (activate_startup_policy o e).1 (goes_on r (activates done))
    released_before :
        {e f : Daemon o} (r : Run o d e) (s : Step o e f)
        → Releases d e r
        → Releases d f (goes_on r s)

  -- Agreement, or the release of a poisoned engine.
  Activates : Daemon o → Result Text Unit × Daemon o → Type 0
  Activates d r =
      r.0 ≡ ok tt
      → Agrees o p r.1
        ⊎ (IsReleased o p r.1
            × (d.engine.poisoned ≡ true)
            × (d.engine.startup_policy ≡ startup_pending))

  activate-Activates : (d : Daemon o) → Agrees o p d → Activates d (activate_startup_policy o d)
  unfolding activate_startup_policy Activates
  activate-Activates d (inl live) =
      startup_cases (Activates d) d.engine.startup_policy (activate_pending o d) (ok tt, d)
        (λ _ done. inl (activated-Agrees d live done)) (λ _ _. inl (inl live))
  activate-Activates d (inr q) =
      startup_cases (Activates d) d.engine.startup_policy (activate_pending o d) (ok tt, d)
        (λ pending done. inr (activated-IsReleased o p d q.poisoned done, q.poisoned, pending))
        (λ _ _. inl (inr q))

  -- Whether a step from agreement releases: only an activation does.
  data Moves {d e : Daemon o} (s : Step o d e) : Type 0 where
    agrees : Agrees o p e → Moves s
    frees :
        IsReleased o p e → ((b : Daemon o) (r : Run o b d) → Releases b e (goes_on r s)) → Moves s

  step-Moves : {d e : Daemon o} (s : Step o d e) → Agrees o p d → Moves s
  unfolding Activates
  step-Moves {d} (activates done) a = elim (activate-Activates d a done) [
    | inl b ↦ agrees b
    | inr (free, poisoned, pending) ↦ frees free (λ b r. releases r poisoned pending done)
  ]
  step-Moves {d} (controls draws request active) a =
      agrees (handle_control-IsAnswered o p draws request d a active).agrees
  step-Moves {d} (repairs revision active) a = agrees (repair-Keeps revision d active a).agrees
  step-Moves {d} (prepares draws generation endpoints free idle) a =
      agrees (prepare-Agrees o p draws generation endpoints d free idle a)
  step-Moves {d} (writes t held) a = agrees (owner-Agrees o p t d held a)
  step-Moves {d} (finalizes w handed) a = agrees (finalize-Agrees o p w d handed a)
  step-Moves {d} (admits mode generation endpoint) a =
      agrees (Agrees-kept o p d _ (ledger-admission o d.engine mode generation endpoint) a)
  step-Moves {d} (counts revision counters now) a =
      agrees (Agrees-kept o p d _ (ledger-counters revision counters now d.engine) a)
  step-Moves {d} (observes s) a = agrees (Agrees-kept o p d _ refl a)
  step-Moves {d} fails a = agrees (inr (runtime_failure-IsQuarantined o p d a))
  step-Moves {d} panics a = agrees (inr (panic-IsQuarantined o p d))

  step-IsReleased :
      {d e : Daemon o} → Step o d e → IsReleased o p d → Agrees o p e ⊎ IsReleased o p e
  unfolding activate_startup_policy
  step-IsReleased {d} (activates done) r =
      startup_cases (λ (x : Result Text Unit × Daemon o). Agrees o p x.1 ⊎ IsReleased o p x.1)
        d.engine.startup_policy (activate_pending o d) (ok tt, d)
        (λ pending. absurd (let h = r.active in let no : ⊥ = cc in no)) (λ _. inr r)
  step-IsReleased {d} (controls draws request _) r =
      inr (handle_control-IsReleased o p draws request d r)
  step-IsReleased {d} (repairs revision _) r = inr (repair-IsReleased o p revision d r)
  step-IsReleased {d} (prepares draws generation endpoints _ _) r =
      inr (prepare-IsReleased o p draws generation endpoints d r)
  step-IsReleased {d} (writes t held) r = inr (owner-IsReleased o p t d held r)
  step-IsReleased {d} (finalizes w _) r = inr (finalize-IsReleased o p w d r)
  step-IsReleased {d} (admits mode generation endpoint) r =
      inr (IsReleased-kept o p d _ (ledger-admission o d.engine mode generation endpoint) r)
  step-IsReleased {d} (counts revision counters now) r =
      inr (IsReleased-kept o p d _ (ledger-counters revision counters now d.engine) r)
  step-IsReleased {d} (observes s) r = inr (IsReleased-kept o p d _ refl r)
  step-IsReleased {d} fails r = inr (failure-IsReleased o p d r)
  step-IsReleased {d} panics r = inl (inr (panic-IsQuarantined o p d))

  advance :
      {d e f : Daemon o} (r : Run o d e) (s : Step o e f)
      → Agrees o p e ⊎ (IsReleased o p e × Releases d e r)
      → Agrees o p f ⊎ (IsReleased o p f × Releases d f (goes_on r s))
  advance r s (inl a) = elim (step-Moves s a) [
    | agrees b ↦ inl b
    | frees free was ↦ inr (free, was _ r)
  ]
  advance r s (inr (free, was)) = elim (step-IsReleased s free) [
    | inl a ↦ inl a
    | inr still ↦ inr (still, released_before r s was)
  ]

  -- Where the backend and the store keep their promises, and whatever calls of them fail, a run
  -- that starts from a daemon in agreement ends in one, unless it activated a pending engine that
  -- was poisoned before. A run is any sequence of: an activation that succeeds; control requests
  -- and repairs once the policy is active; learning prepared where no transaction is held, written
  -- or given up by its owner, and finalized; admissions, counters, event traffic, worker failures
  -- and panics. Agreement is: memory, kernel and file fit together and the kernel enforces the
  -- policy in memory, or while learning a policy of the same flow generation, or blocks
  -- everything; or the engine is poisoned and, unless it calls for its own end, the kernel is
  -- closed, the policy in service says so, and where a restart is asked for the file holds that
  -- policy and no writer is left. A run that activated a poisoned pending engine ends in agreement
  -- too, or with that engine poisoned, active, and the kernel enforcing the policy in memory.
  pub Run-Agrees :
      {d e : Daemon o} (r : Run o d e)
      → Agrees o p d
      → Agrees o p e ⊎ (IsReleased o p e × Releases d e r)
  Run-Agrees begins a = inl a
  Run-Agrees (goes_on before last) a = advance before last (Run-Agrees before a)
