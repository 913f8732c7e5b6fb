-- ===== src/Engine/Agreement/Releases.antt =====
-- What becomes of a poisoned engine that `activate_startup_policy` of
-- crates/openshield-daemon/src/engine.rs releases: it changes no more.
use open_shield.Base.{
  ◌≡◌, refl, sym, ap, ◌∙◌, ℕ, Bool, true, not, ◌||◌, ◌&&◌, ◌==◌, Option, none, some, List, inl, inr,
  arith, same, if_true, if_false,
}
use open_shield.Base.Outcome.{Result, ok, err, reject_if}
use open_shield.Base.Exec.{lift_cases}
use open_shield.Base.Text.{Text}
use open_shield.Model.LearnedEndpoint.{LearnedApplicationEndpoint}
use open_shield.Model.Kinds.{Mode-discrete, learning}
use open_shield.State.Data.{snapshot}
use open_shield.State.External.{Draws}
use open_shield.Protocol.Errors.{ProtocolError}
use open_shield.Protocol.Requests.{ControlRequest}
use open_shield.Engine.Data.{
  Engine, persistence_paused, startup_pending, ApplicationLearningTransaction,
  PersistedApplicationLearning,
}
use open_shield.Engine.Outside.{enforces, Outside, Promises, Daemon}
use open_shield.Engine.Persistence.{owner_proceeds}
use open_shield.Engine.Emergency.{fatal_unless, quarantine_after_runtime_failure}
use open_shield.Engine.Commit.{repair_policy, handle_control}
use open_shield.Engine.Learning.{
  is_active, prepare_application_learning, finalize_application_learning,
}
use open_shield.Engine.Startup.{activate_pending, activate_startup_policy}
use open_shield.Engine.Agreement.{IsReleased}
use open_shield.Engine.Agreement.Writing.{Result-cases, owner_cases, kernel-store_learning}
use open_shield.Engine.Agreement.Emergencies.{startup_cases}
use open_shield.Engine.Agreement.Bookkeeping.{Ledger, ledger}
use open_shield.Engine.Agreement.Transactions.{finalize_cases}

module _ (o : Outside) (p : Promises o) where
  -- A pending engine whose kernel takes its policy.
  pub activated-IsReleased :
      (d : Daemon o)
      → d.engine.poisoned ≡ true
      → (activate_pending o d).0 ≡ ok tt
      → IsReleased o p (activate_pending o d).1
  unfolding activate_pending
  activated-IsReleased d poisoned =
      let applied = o.apply (snapshot d.engine.state) d.world in
      elim (Result-cases applied.0) [
        | inl (_, e) ↦
            rw (e, activate_pending)
              (λ _. record {
                poisoned = poisoned;
                active = refl;
                enforced = p.apply_ok (snapshot d.engine.state) d.world e;
              })
        | inr (_, e) ↦ rw (e, activate_pending) (λ no. cc)
      ]

  pub IsReleased-kept :
      (d : Daemon o) (e : Engine)
      → ledger e ≡ ledger d.engine
      → IsReleased o p d
      → IsReleased o p (record d { engine = e })
  IsReleased-kept d e kept r = record {
    poisoned = ap (λ (l : Ledger). l.poisoned) kept ∙ r.poisoned;
    active = ap (λ (l : Ledger). l.startup_policy) kept ∙ r.active;
    enforced = r.enforced ∙ ap (λ (l : Ledger). enforces (snapshot l.progress.state)) (sym kept);
  }

  pub handle_control-IsReleased :
      (draws : Draws) (request : ControlRequest) (d : Daemon o)
      → IsReleased o p d
      → IsReleased o p (handle_control o draws request d).1
  unfolding handle_control
  handle_control-IsReleased draws request d r =
      lift_cases (λ x. IsReleased o p x.1) (reject_if d.engine.poisoned _) _ d (λ _. r)
        λ _ passed. absurd (ground (arith, passed, r.poisoned))

  pub repair-IsReleased :
      (revision : ℕ) (d : Daemon o)
      → IsReleased o p d
      → IsReleased o p (repair_policy o revision d).1
  unfolding repair_policy
  repair-IsReleased revision d r =
      if_true (λ (x : Result ProtocolError Bool × Daemon o). IsReleased o p x.1) d.engine.poisoned _
        _ r.poisoned r

  pub prepare-IsReleased :
      (draws : Draws) (generation : ℕ) (endpoints : List LearnedApplicationEndpoint) (d : Daemon o)
      → IsReleased o p d
      → IsReleased o p (prepare_application_learning o draws generation endpoints d).1
  unfolding prepare_application_learning
  prepare-IsReleased draws generation endpoints d r =
      if_true
        (λ (x : Result ProtocolError (Option ApplicationLearningTransaction) × Daemon o).
          IsReleased o p x.1)
        (d.engine.poisoned
          || not (is_active d.engine.learning_persistence)
          || not (same Mode-discrete d.engine.state.mode learning)
          || not (d.engine.state.flow_generation == generation))
        _ _ (ground (arith, r.poisoned)) r

  pub owner-IsReleased :
      (t : ApplicationLearningTransaction) (d : Daemon o)
      → d.reservation ≡ some t
      → IsReleased o p d
      → IsReleased o p (owner_proceeds o t d)
  owner-IsReleased t d held r =
      owner_cases o p (IsReleased o p) t d held
        (record { poisoned = r.poisoned; active = r.active; enforced = r.enforced })
        (record {
          poisoned = r.poisoned;
          active = r.active;
          enforced = kernel-store_learning o p t.previous t.candidate d.world ∙ r.enforced;
        })

  pub finalize-IsReleased :
      (w : PersistedApplicationLearning) (d : Daemon o)
      → IsReleased o p d
      → IsReleased o p (finalize_application_learning o w (record d { persisted = none })).1
  finalize-IsReleased w d r =
      let again : IsReleased o p (record d { persisted = none }) = record {
        poisoned = r.poisoned;
        active = r.active;
        enforced = r.enforced;
      } in
      finalize_cases o p (λ x. IsReleased o p x.1) w (record d { persisted = none })
        (λ _. record { poisoned = r.poisoned; active = r.active; enforced = r.enforced })
        (λ _. again) (λ sound. absurd (ground (arith, sound, r.poisoned)))
        (λ _ sound. absurd (ground (arith, sound, r.poisoned)))

  pub failure-IsReleased :
      (d : Daemon o) → IsReleased o p d → IsReleased o p (quarantine_after_runtime_failure o d)
  unfolding quarantine_after_runtime_failure
  failure-IsReleased d r =
      startup_cases (IsReleased o p) d.engine.startup_policy _ _
        (λ pending. absurd (let h = r.active in let no : ⊥ = cc in no))
        (λ _.
          if_false (IsReleased o p) (not d.engine.poisoned && not d.engine.fatal) _ _
            (ground (arith, r.poisoned)) r)

  activate-IsReleased :
      (d : Daemon o)
      → d.engine.poisoned ≡ true
      → d.engine.startup_policy ≡ startup_pending
      → (o.apply (snapshot d.engine.state) d.world).0 ≡ ok tt
      → IsReleased o p (activate_startup_policy o d).1
  unfolding activate_startup_policy activate_pending
  activate-IsReleased d poisoned pending applies =
      startup_cases (λ (x : Result Text Unit × Daemon o). IsReleased o p x.1)
        d.engine.startup_policy (activate_pending o d) (ok tt, d)
        (λ _. activated-IsReleased d poisoned (rw (applies, activate_pending) refl))
        (λ active. absurd (let no : ⊥ = cc in no))

  failed-IsReleased :
      (r : Result Text Unit) (e : Engine) (d : Daemon o)
      → e.poisoned ≡ true
      → e.startup_policy ≡ startup_pending
      → (o.apply (snapshot e.state) d.world).0 ≡ ok tt
      → IsReleased o p (activate_startup_policy o (record d { engine = fatal_unless o r e })).1
  failed-IsReleased (ok _) e d = activate-IsReleased (record d { engine = e })
  failed-IsReleased (err _) e d =
      activate-IsReleased (record d { engine = record e { fatal = true } })

  -- Where the backend keeps its promises, a worker failure on an engine that waits for its
  -- activation does not stop the activation: if the apply behind the quarantine succeeds, the
  -- engine is poisoned and active, and the kernel enforces the policy in memory, not the closed
  -- firewall of the quarantine.
  pub activate-quarantine-IsReleased :
      (d : Daemon o)
      → d.engine.startup_policy ≡ startup_pending
      → (o.apply (snapshot d.engine.state) (o.fail_closed d.world).1).0 ≡ ok tt
      → IsReleased o p (activate_startup_policy o (quarantine_after_runtime_failure o d)).1
  unfolding quarantine_after_runtime_failure
  activate-quarantine-IsReleased d pending applies =
      startup_cases (λ (q : Daemon o). IsReleased o p (activate_startup_policy o q).1)
        d.engine.startup_policy _ _
        (λ _.
          failed-IsReleased (o.fail_closed d.world).0
            (record d.engine { poisoned = true; learning_persistence = persistence_paused })
            (record d { world = (o.fail_closed d.world).1 }) refl pending applies)
        (λ active. absurd (let no : ⊥ = cc in no))
