-- ===== src/Engine/Agreement/Interruptions.antt =====
-- The operator's block-all during the write of a learning transaction, in
-- crates/openshield-daemon/src/engine.rs.
use open_shield.Base.{◌≡◌, refl, ◌∙◌, ℕ, ◌≤◌, false, Option, some, List, arith, inl, inr}
use open_shield.Base.Outcome.{Result, ok, err, map_err}
use open_shield.Base.Exec.{lift_cases}
use open_shield.Model.Kinds.{block_all, Mode-discrete}
use open_shield.Model.Rule.{Instant}
use open_shield.State.Data.{State, Event}
use open_shield.State.External.{Draws}
use open_shield.State.Snapshots.{validate}
use open_shield.State.Mutation.{set_mode_at}
use open_shield.State.Mutation.Cases.{set_mode_cases}
use open_shield.Protocol.Errors.{ProtocolError}
use open_shield.Engine.Data.{Engine, startup_active}
use open_shield.Engine.Outside.{Outside, Promises, closed, Daemon}
use open_shield.Engine.Decision.{replace_state}
use open_shield.Engine.Persistence.{save_exclusive}
use open_shield.Engine.Commit.{save_twice, persist_blocked, close_kernel, block_pending}
use open_shield.Engine.Control.{core_protocol_error}
use open_shield.Engine.Agreement.{IsLive, IsQuarantined, entirely_closed, settled}
use open_shield.Engine.Agreement.Writing.{
  Result-cases, IsSaved, IsExclusive-trans, save_exclusive-IsSaved,
}

pub mode-set_mode_at :
    (now : Instant) (s : State) (event : Event)
    → (set_mode_at block_all now s).0 ≡ ok event
    → (set_mode_at block_all now s).1.mode ≡ block_all
unfolding set_mode_at Mode-discrete
mode-set_mode_at now s event =
    set_mode_cases (λ r. r.0 ≡ ok event → r.1.mode ≡ block_all) block_all s.enforcement_strategy now
      s (λ e h. cc) (λ r g _ _ h. refl)

named_bound :
    (token n next : ℕ) → token ≡ next → ◌≡◌ {A = Option ℕ} (some token) (some n) → n ≤ next
named_bound token n next latest h = let e : token ≡ n = cc in omega (arith, e, latest)

module _ (o : Outside) (p : Promises o) where
  save_twice-IsSaved : (s : State) (d : Daemon o) → IsSaved o p d s (save_twice o s d)
  unfolding save_twice
  save_twice-IsSaved s d =
      let first = save_exclusive o s d in
      let once = save_exclusive-IsSaved o p s d in
      let again = save_exclusive-IsSaved o p s first.1 in
      elim (Result-cases first.0) [
        | inl (_, e) ↦ rw (e, save_twice) once
        | inr (_, e) ↦
            rw (e, save_twice)
              (record {
                exclusive = IsExclusive-trans o p once.exclusive again.exclusive;
                stored = again.stored;
              })
      ]

  -- How the interruption ends: the blocked policy is in force and last in the file, or the daemon is
  -- in quarantine.
  pub data Blocks (blocked : State) : Result ProtocolError ℕ × Daemon o → Type 0 where
    blocked_all :
        (d : Daemon o)
        → d.engine.state ≡ blocked
        → p.kernel d.world ≡ closed
        → p.disk d.world ≡ some blocked
        → IsLive o p d
        → Blocks blocked (ok blocked.revision, d)
    gave_up : (e : ProtocolError) (d : Daemon o) → IsQuarantined o p d → Blocks blocked (err e, d)

  -- The engine of a transaction in flight that is interrupted.
  pub record IsInterruptible (token : ℕ) (e : Engine) : Type 0 where
    pub clean : (e.poisoned ≡ false) × (e.fatal ≡ false) × (e.restart_required ≡ false)
    pub active : e.startup_policy ≡ startup_active
    pub latest : token ≡ e.next_learning_transaction

  module _ (token : ℕ) (blocked : State) (event : Event) (blocks : blocked.mode ≡ block_all) where
    persist_blocked-Blocks :
        (pending : List Event) (d : Daemon o)
        → IsInterruptible token d.engine
        → p.kernel d.world ≡ closed
        → Blocks blocked (persist_blocked o token blocked event pending d)
    unfolding persist_blocked replace_state
    persist_blocked-Blocks pending d i shut =
        let stored = save_twice o blocked d in
        let x = save_twice-IsSaved blocked d in
        let still : IsInterruptible token stored.1.engine = rw x.exclusive.engine i in
        let kernel = x.exclusive.kernel ∙ shut in
        elim (Result-cases stored.0) [
          | inl (_, e) ↦
              rw (e, persist_blocked)
                (blocked_all _ refl kernel (x.stored e) (record {
                  clean = still.clean;
                  superseded = λ n h.
                      named_bound token n stored.1.engine.next_learning_transaction still.latest h;
                  served = inr (still.active, entirely_closed kernel blocks);
                  storage = settled x.exclusive.free refl refl (x.stored e);
                }))
          | inr (_, e) ↦
              rw (e, persist_blocked)
                (gave_up _ _ (record {
                  poisoned = refl;
                  kernel_closed = λ _. kernel;
                  blocks_all = λ _ _. blocks;
                  durable = λ _ asks. cc;
                }))
        ]

    close_kernel-Blocks :
        (d : Daemon o)
        → IsInterruptible token d.engine
        → Blocks blocked (close_kernel o token blocked event d)
    unfolding close_kernel
    close_kernel-Blocks d i =
        let closing = o.fail_closed d.world in
        elim (Result-cases closing.0) [
          | inl (_, e) ↦
              rw (e, close_kernel)
                (persist_blocked-Blocks d.engine.pending_application_learning_events
                  (record d { world = closing.1 }) i (p.fail_closed_ok d.world e))
          | inr (_, e) ↦
              rw (e, close_kernel)
                (gave_up _ _ (record {
                  poisoned = refl;
                  kernel_closed = λ no. cc;
                  blocks_all = λ no. cc;
                  durable = λ no. cc;
                }))
        ]

  -- The whole interruption, from the pending candidate on.
  module _ (draws : Draws) (token : ℕ) (pending : State) (d : Daemon o)
      (i : IsInterruptible token d.engine) where
    -- Refused with nothing changed, or blocked with what `set_mode_at` makes of the candidate.
    pub data Interrupts : Result ProtocolError ℕ × Daemon o → Type 0 where
      stays : (e : ProtocolError) → Interrupts (err e, d)
      interrupts :
          (event : Event) (blocked : State) (r : Result ProtocolError ℕ × Daemon o)
          → set_mode_at block_all (draws 0).1 pending ≡ (ok event, blocked)
          → validate o.external blocked ≡ ok tt
          → Blocks blocked r
          → Interrupts r

    pub block_pending-Interrupts : Interrupts (block_pending o draws token pending d)
    unfolding block_pending
    block_pending-Interrupts =
        let made = set_mode_at block_all (draws 0).1 pending in
        lift_cases Interrupts (map_err (core_protocol_error o) made.0) _ d stays λ event e.
          lift_cases Interrupts (map_err (core_protocol_error o) (validate o.external made.1)) _ d
            stays
            λ _ valid.
              let done : made.0 ≡ ok event = ground arith in
              interrupts event made.1 (close_kernel o token made.1 event d) (λ j. (done j, made.1))
                (ground arith)
                (close_kernel-Blocks token made.1 event
                  (mode-set_mode_at (draws 0).1 pending event done) d i)
