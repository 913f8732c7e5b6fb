-- ===== src/Engine/Agreement/Emergencies.antt =====
-- The emergency paths of crates/openshield-daemon/src/engine.rs end with a closed kernel, or say that
-- the kernel is out of control.
use open_shield.Base.{
  ◌≡◌, refl, ◌∙◌, ℕ, true, false, none, some, arith, inl, inr, if◌then◌else◌, max, not, ◌&&◌,
  if_true, if_false,
}
use open_shield.Base.Outcome.{Result, ok, err}
use open_shield.Base.Text.{Text}
use open_shield.Model.Kinds.{block_all}
use open_shield.State.Data.{State}
use open_shield.State.Snapshots.{from_snapshot}
use open_shield.Engine.Data.{
  persistence_paused, startup_active, startup_pending, StartupPolicy, by_startup,
}
use open_shield.Engine.Outside.{Outside, Promises, closed, Daemon}
use open_shield.Engine.Decision.{replace_state}
use open_shield.Engine.Persistence.{save_exclusive}
use open_shield.Engine.Emergency.{
  retained_state, forget_counters, lost, on_engine, require_restart, keep_closed, closed_state,
  enter_emergency_fail_closed, fatal_unless, quarantine_after_runtime_failure,
  quarantine_after_engine_poison,
}
use open_shield.Engine.Agreement.{IsQuarantined, Agrees}
use open_shield.Engine.Agreement.Writing.{Result-cases, IsSaved, save_exclusive-IsSaved}

module _ {A : Type 0} (P : A → Type 0) where
  pub startup_cases :
      (s : StartupPolicy) (x y : A)
      → (s ≡ startup_pending → P x)
      → (s ≡ startup_active → P y)
      → P (by_startup s x y)
  startup_cases startup_pending x y pending active = pending refl
  startup_cases startup_active x y pending active = active refl

closed_state-blocks :
    (o : Outside) (floor : ℕ) (retained s : State)
    → closed_state o floor retained ≡ ok s
    → s.mode ≡ block_all
unfolding from_snapshot
closed_state-blocks o floor retained s h = ground arith

module _ (o : Outside) (p : Promises o) where
  -- An engine that has given up.
  pub lost-IsQuarantined :
      (d : Daemon o) → d.engine.poisoned ≡ true → IsQuarantined o p (on_engine o lost d)
  lost-IsQuarantined d h = record {
    poisoned = h;
    kernel_closed = λ no. cc;
    blocks_all = λ no. cc;
    durable = λ no. cc;
  }

  require_restart-IsQuarantined :
      (d : Daemon o) (s : State) (r : Result Text Unit × Daemon o)
      → d.engine.poisoned ≡ true
      → d.engine.restart_required ≡ false
      → p.kernel d.world ≡ closed
      → d.engine.state ≡ s
      → s.mode ≡ block_all
      → IsSaved o p d s r
      → IsQuarantined o p (require_restart o r.0 r.1)
  require_restart-IsQuarantined d s (ok _, e) poisoned calm shut now blocks x = record {
    poisoned = rw x.exclusive.engine poisoned;
    kernel_closed = λ _. x.exclusive.kernel ∙ shut;
    blocks_all = λ _ _. rw (x.exclusive.engine, now) blocks;
    durable = λ _ _. (rw (x.exclusive.engine, now) (x.stored refl), x.exclusive.free);
  }
  require_restart-IsQuarantined d s (err _, e) poisoned calm shut now blocks x = record {
    poisoned = rw x.exclusive.engine poisoned;
    kernel_closed = λ _. x.exclusive.kernel ∙ shut;
    blocks_all = λ _ _. rw (x.exclusive.engine, now) blocks;
    durable = λ _ asks.
        let quiet : e.engine.restart_required ≡ false = rw x.exclusive.engine calm in
        absurd (let no : ⊥ = cc in no);
  }

  keep_closed-IsQuarantined :
      (floor : ℕ) (retained : State) (d : Daemon o)
      → d.engine.poisoned ≡ true
      → d.engine.restart_required ≡ false
      → p.kernel d.world ≡ closed
      → IsQuarantined o p (keep_closed o (closed_state o floor retained) d)
  unfolding keep_closed replace_state
  keep_closed-IsQuarantined floor retained d poisoned calm shut =
      elim (Result-cases (closed_state o floor retained)) [
        | inr (_, e) ↦ rw (e, keep_closed) (lost-IsQuarantined d poisoned)
        | inl (s, e) ↦
            let before : Daemon o = on_engine o (λ g. forget_counters (replace_state s g)) d in
            rw (e, keep_closed)
              (require_restart-IsQuarantined before s (save_exclusive o s before) poisoned calm shut
                refl (closed_state-blocks o floor retained s e)
                (save_exclusive-IsSaved o p s before))
      ]

  -- Whatever the daemon was in, an emergency leaves it in quarantine.
  pub emergency-IsQuarantined :
      (floor : ℕ) (d : Daemon o) → IsQuarantined o p (enter_emergency_fail_closed o floor d)
  unfolding enter_emergency_fail_closed
  emergency-IsQuarantined floor d =
      let locked : Daemon o = record d {
        engine = record d.engine {
          poisoned = true;
          learning_persistence = persistence_paused;
          restart_required = false;
        };
        world = (o.fail_closed d.world).1;
      } in
      let retained = retained_state d.engine in
      elim (Result-cases (o.fail_closed d.world).0) [
        | inl (_, e) ↦
            rw (e, enter_emergency_fail_closed)
              (keep_closed-IsQuarantined (max floor retained.revision) retained locked refl refl
                (p.fail_closed_ok d.world e))
        | inr (_, e) ↦ rw (e, enter_emergency_fail_closed) (lost-IsQuarantined locked refl)
      ]

  fatal_unless-IsQuarantined :
      (d : Daemon o) (r : Result Text Unit)
      → d.engine.startup_policy ≡ startup_pending
      → (d.engine.fatal ≡ false
          → d.engine.restart_required ≡ true
          → (p.disk d.world ≡ some d.engine.state) × (d.reservation ≡ none))
      → d.engine.poisoned ≡ true
      → (r ≡ ok tt → p.kernel d.world ≡ closed)
      → IsQuarantined o p (on_engine o (fatal_unless o r) d)
  fatal_unless-IsQuarantined d (ok _) pending kept h shut = record {
    poisoned = h;
    kernel_closed = λ _. shut refl;
    blocks_all = λ _ active. cc;
    durable = kept;
  }
  fatal_unless-IsQuarantined d (err _) pending kept h shut = record {
    poisoned = h;
    kernel_closed = λ no. cc;
    blocks_all = λ no. cc;
    durable = λ no. cc;
  }

  pub panic-IsQuarantined : (d : Daemon o) → IsQuarantined o p (quarantine_after_engine_poison o d)
  unfolding quarantine_after_engine_poison
  panic-IsQuarantined d = record {
    poisoned = refl;
    kernel_closed = λ no. cc;
    blocks_all = λ no. cc;
    durable = λ no. cc;
  }

  kept_durable :
      (d : Daemon o)
      → Agrees o p d
      → d.engine.fatal ≡ false
      → d.engine.restart_required ≡ true
      → (p.disk d.world ≡ some d.engine.state) × (d.reservation ≡ none)
  kept_durable d (inl live) sound asks = absurd (let calm = live.clean.2 in let no : ⊥ = cc in no)
  kept_durable d (inr q) sound asks = q.durable sound asks

  pub runtime_failure-IsQuarantined :
      (d : Daemon o) → Agrees o p d → IsQuarantined o p (quarantine_after_runtime_failure o d)
  unfolding quarantine_after_runtime_failure
  runtime_failure-IsQuarantined d a =
      startup_cases (IsQuarantined o p) d.engine.startup_policy _ _ pending (active a)
    where
      shut : Daemon o
      shut = record d {
        engine = record d.engine { poisoned = true; learning_persistence = persistence_paused };
        world = (o.fail_closed d.world).1;
      }

      pending :
          d.engine.startup_policy ≡ startup_pending
          → IsQuarantined o p (on_engine o (fatal_unless o (o.fail_closed d.world).0) shut)
      pending e =
          fatal_unless-IsQuarantined shut (o.fail_closed d.world).0 e
            (λ sound asks.
              let (file, free) = kept_durable d a sound asks in
              (p.disk-fail_closed d.world ∙ file, free))
            refl (p.fail_closed_ok d.world)

      active :
          Agrees o p d
          → d.engine.startup_policy ≡ startup_active
          → IsQuarantined o p (
              if not d.engine.poisoned && not d.engine.fatal
              then enter_emergency_fail_closed o d.engine.state.revision d
              else d)
      active (inl live) e =
          if_true (IsQuarantined o p) (not d.engine.poisoned && not d.engine.fatal) _ _
            (ground (arith, live.clean)) (emergency-IsQuarantined d.engine.state.revision d)
      active (inr q) e =
          if_false (IsQuarantined o p) (not d.engine.poisoned && not d.engine.fatal) _ _
            (ground (arith, q.poisoned)) q
