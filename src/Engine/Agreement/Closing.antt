-- ===== src/Engine/Agreement/Closing.antt =====
-- The operator's block-all in `handle_control` of crates/openshield-daemon/src/engine.rs, with a
-- backend and a store that work.
use open_shield.Base.{
  ℕ, ◌≡◌, ◌⊎◌, ◌<◌, ◌+◌, min, refl, sym, ap, ◌∙◌, subst, false, not, ◌==◌, Option, none, some, List,
  [], ◌∷◌, arith, inl, inr,
}
use open_shield.Base.Words.{u64_max}
use open_shield.Base.Outcome.{Result, ok, reject_if}
use open_shield.Base.Exec.{Exec, continue, continue_ok, pure}
use open_shield.Model.Kinds.{block_all}
use open_shield.Model.Rule.{Instant}
use open_shield.State.Data.{State, Event, mode_changed, snapshot, max_flow_generation}
use open_shield.State.External.{Draws}
use open_shield.State.Size.{bounded_serialized_state_size}
use open_shield.State.Snapshots.{validate}
use open_shield.State.Snapshots.Loading.{validate-WellFormed}
use open_shield.State.Mutation.{set_mode_at}
use open_shield.State.Operation.Modes.{set_mode_at-block_all}
use open_shield.State.Operation.WellFormed.{WellFormed}
use open_shield.Protocol.Errors.{ProtocolError}
use open_shield.Protocol.Requests.{set_mode}
use open_shield.Protocol.Responses.{Ack}
use open_shield.Engine.Data.{
  LearningPersistence, in_flight, persistence_active, persistence_paused, startup_active,
}
use open_shield.Engine.Outside.{Outside, Promises, closed, enforces, Daemon}
use open_shield.Engine.Control.{about_policy, apply_control_to_candidate}
use open_shield.Engine.Persistence.{save_exclusive}
use open_shield.Engine.Commit.{
  store_candidate, commit, change_policy, save_twice, persist_blocked, close_kernel, block_pending,
  with_pending, commit_block_all_during_learning, interrupt_learning, dispatch, handle_control,
}
use open_shield.Engine.Agreement.{IsLive, is_flying}
use open_shield.Engine.Agreement.Commits.{
  IsServing-IsLive, Ends, committed, restored, quarantined, commit-Ends,
}
use open_shield.Engine.Agreement.Interruptions.{
  IsInterruptible, blocked_all, gave_up, Interrupts, stays, interrupts, block_pending-Interrupts,
}
use open_shield.Engine.Agreement.Requests.{settled_of, IsQuiet-of, in_flight-injective, Flight-of}

-- The policy that is closed: the candidate that is being learned, or else the one in memory.
abbrev pub newest : Option State → State → State
newest (some candidate) s = candidate
newest none s = s

abbrev pub closed_policy : State → State
closed_policy s = record s {
  revision = s.revision + 1;
  flow_generation = min (s.flow_generation + 1) max_flow_generation;
  mode = block_all;
}

abbrev closing_event : Instant → State → Event
closing_event now s = record {
  revision = s.revision + 1;
  occurred_at = now;
  kind = mode_changed s.mode block_all;
}

-- A policy that can be closed: another revision is left, and what comes of it fits into the file.
pub record IsClosable (o : Outside) (s : State) : Type 0 where
  pub well_formed : WellFormed s
  pub left : s.revision < u64_max
  pub size : ℕ
  pub fits : bounded_serialized_state_size o.external (closed_policy s) ≡ ok size

closed_policy-WellFormed :
    (s : State) → WellFormed s → s.revision < u64_max → WellFormed (closed_policy s)
closed_policy-WellFormed s w left = record {
  revision = ground (arith, left);
  generation = (ground (arith, w.generation), ground (arith, w.generation));
  size = w.size;
  sorted = w.sorted;
  entries = w.entries;
}

-- No call fails.
pub record IsReliable (o : Outside) : Type 0 where
  pub applies : (s : State) (w : o.World) → (o.apply (snapshot s) w).0 ≡ ok tt
  pub closes : (w : o.World) → (o.fail_closed w).0 ≡ ok tt
  pub saves : (s : State) (w : o.World) → (o.save s w).0 ≡ ok tt

module _ (o : Outside) (p : Promises o) where
  -- The request is answered with the revision of this policy, which is in memory and in the file, and
  -- which the kernel enforces or has closed for.
  pub record Closes (s : State) (r : Result ProtocolError Ack × Daemon o) : Type 0 where
    pub answer : r.0 ≡ ok (record { revision = s.revision; affected_rule = none })
    pub now : r.1.engine.state ≡ s
    pub kernel : (p.kernel r.1.world ≡ closed) ⊎ (p.kernel r.1.world ≡ enforces (snapshot s))
    pub disk : p.disk r.1.world ≡ some s
    pub live : IsLive o p r.1

  module _ (works : IsReliable o) (draws : Draws) where
    closing_validates : (s : State) → IsClosable o s → validate o.external (closed_policy s) ≡ ok tt
    closing_validates s c =
        validate-WellFormed o.external (closed_policy s) c.size
          (closed_policy-WellFormed s c.well_formed c.left) c.fits

    makes_closed :
        (s : State)
        → IsClosable o s
        → set_mode_at block_all (draws 0).1 s ≡ (ok (closing_event (draws 0).1 s), closed_policy s)
    makes_closed s c = set_mode_at-block_all s (draws 0).1 c.left c.well_formed.generation.1

    applies_closed :
        (n : ℕ) (s : State)
        → IsClosable o s
        → apply_control_to_candidate o draws (set_mode n block_all) s
          ≡ (ok (about_policy (closing_event (draws 0).1 s)), closed_policy s)
    unfolding apply_control_to_candidate
    applies_closed n s c = rw (makes_closed s c) refl

    store_succeeds :
        (s : State) (events : List Event) (d : Daemon o) → (store_candidate o s events d).0 ≡ ok tt
    unfolding store_candidate save_exclusive
    store_succeeds s events d = rw (works.saves s _, store_candidate) refl

    commit_succeeds :
        (s : State) (events : List Event) (d : Daemon o) → (commit o s events d).0 ≡ ok tt
    unfolding commit
    commit_succeeds s events d =
        rw (works.applies s d.world, commit)
          (store_succeeds s events (record d { world = (o.apply (snapshot s) d.world).1 }))

    committed-Closes :
        (s candidate : State) (r : Result ProtocolError Unit × Daemon o)
        → Ends o p s candidate r
        → r.0 ≡ ok tt
        → Closes candidate (
            continue r.0
              (λ _. pure (record { revision = candidate.revision; affected_rule = none }))
              r.1)
    committed-Closes s candidate r (committed _ e now serving) done = record {
      answer = refl;
      now = now;
      kernel = inr (serving.kernel ∙ ap (λ x. enforces (snapshot x)) now);
      disk = serving.disk ∙ ap (λ (x : State). some x) now;
      live = IsServing-IsLive o p e serving;
    }
    committed-Closes s candidate r (restored error e now serving) done =
        absurd (let no : ⊥ = cc in no)
    committed-Closes s candidate r (quarantined error e q) done = absurd (let no : ⊥ = cc in no)

    change-Closes :
        (n : ℕ) (d : Daemon o)
        → IsClosable o d.engine.state
        → IsLive o p d
        → d.engine.startup_policy ≡ startup_active
        → is_flying d.engine.learning_persistence ≡ false
        → Closes (closed_policy d.engine.state) (change_policy o draws (set_mode n block_all) d)
    unfolding change_policy
    change-Closes n d c live active grounded =
        let s : State = d.engine.state in
        let events : List Event = closing_event (draws 0).1 s ∷ [] in
        let (free, nothing, file) = settled_of o p d live.storage grounded in
        rw (applies_closed n s c, closing_validates s c, change_policy)
          (committed-Closes s (closed_policy s) (commit o (closed_policy s) events d)
            (commit-Ends o p (closed_policy s) events d (IsQuiet-of o p d live active grounded) free
              file)
            (commit_succeeds (closed_policy s) events d))

    save_twice_succeeds : (s : State) (d : Daemon o) → (save_twice o s d).0 ≡ ok tt
    unfolding save_twice save_exclusive
    save_twice_succeeds s d = rw (works.saves s _, save_twice) (works.saves s _)

    persist_succeeds :
        (token : ℕ) (s : State) (event : Event) (pending : List Event) (d : Daemon o)
        → (persist_blocked o token s event pending d).0 ≡ ok s.revision
    unfolding persist_blocked
    persist_succeeds token s event pending d = rw (save_twice_succeeds s d, persist_blocked) refl

    close_succeeds :
        (token : ℕ) (s : State) (event : Event) (d : Daemon o)
        → (close_kernel o token s event d).0 ≡ ok s.revision
    unfolding close_kernel
    close_succeeds token s event d =
        rw (works.closes d.world, close_kernel)
          (persist_succeeds token s event d.engine.pending_application_learning_events
            (record d { world = (o.fail_closed d.world).1 }))

    block_succeeds :
        (token : ℕ) (s : State) (d : Daemon o)
        → IsClosable o s
        → (block_pending o draws token s d).0 ≡ ok (s.revision + 1)
    unfolding block_pending
    block_succeeds token s d c =
        rw (makes_closed s c, closing_validates s c, block_pending)
          (close_succeeds token (closed_policy s) (closing_event (draws 0).1 s) d)

    same_closed :
        (s blocked : State) (a b : Event)
        → ◌≡◌ {A = Result ProtocolError Event × State} (ok a, closed_policy s) (ok b, blocked)
        → blocked ≡ closed_policy s
    same_closed s blocked a b h = cc

    interrupted-Closes :
        (token : ℕ) (s : State) (d : Daemon o) (i : IsInterruptible o p token d.engine)
        → IsClosable o s
        → (r : Result ProtocolError ℕ × Daemon o) → Interrupts o p draws token s d i r
        → r.0 ≡ ok (s.revision + 1)
        → Closes (closed_policy s) (
            continue r.0
              (λ revision. pure (record { revision = revision; affected_rule = none }))
              r.1)
    interrupted-Closes token s d i c r (stays e) done = absurd (let no : ⊥ = cc in no)
    interrupted-Closes token s d i c r (interrupts event blocked _ made valid (gave_up e f q))
          done =
        absurd (let no : ⊥ = cc in no)
    interrupted-Closes token s d i c r
          (interrupts event blocked _ made valid (blocked_all e now shut file calm)) done =
        let same : blocked ≡ closed_policy s = ap (λ x. x.1) (sym made ∙ makes_closed s c) in
        record {
          answer =
              ap (λ (x : State). ok (record { revision = x.revision; affected_rule = none })) same;
          now = now ∙ same;
          kernel = inl shut;
          disk = file ∙ ap (λ (x : State). some x) same;
          live = calm;
        }

    module _ (n : ℕ) (d : Daemon o) (live : IsLive o p d)
        (active : d.engine.startup_policy ≡ startup_active)
        (c : IsClosable o
          (newest d.engine.pending_application_learning_candidate d.engine.state)) where
      Ended : Result ProtocolError Ack × Daemon o → Type 0
      Ended =
          Closes
            (closed_policy (newest d.engine.pending_application_learning_candidate d.engine.state))

      changed :
          is_flying d.engine.learning_persistence ≡ false
          → Ended (change_policy o draws (set_mode n block_all) d)
      unfolding Ended
      changed grounded =
          let (free, nothing, file) = settled_of o p d live.storage grounded in
          let same : newest d.engine.pending_application_learning_candidate d.engine.state
              ≡ d.engine.state =
            ap (λ x. newest x d.engine.state) nothing in
          subst (λ s. Closes (closed_policy s) (change_policy o draws (set_mode n block_all) d))
            (sym same) (change-Closes n d (subst (IsClosable o) same c) live active grounded)

      blocked :
          (token : ℕ)
          → d.engine.learning_persistence ≡ in_flight token
          → Ended (interrupt_learning o draws token (set_mode n block_all) d)
      unfolding interrupt_learning commit_block_all_during_learning Ended
      blocked token h =
          let (t, f) =
            Flight-of o p draws (set_mode n block_all) d live active token h live.storage in
          let i : IsInterruptible o p token d.engine = record {
            clean = live.clean;
            active = active;
            latest = sym (in_flight-injective (sym f.flying ∙ h)) ∙ f.latest;
          } in
          let closable : IsClosable o t.candidate =
            subst (λ x. IsClosable o (newest x d.engine.state)) f.pending c in
          subst (λ x. Closes (closed_policy (newest x d.engine.state)) (interruption x))
            (sym f.pending)
            (interrupted-Closes token t.candidate d i closable
              (block_pending o draws token t.candidate d)
              (block_pending-Interrupts o p draws token t.candidate d i)
              (block_succeeds token t.candidate d closable))
        where
          interruption : Option State → Result ProtocolError Ack × Daemon o
          interruption held =
              let r = with_pending o held (block_pending o draws token) d in
              continue r.0 (λ revision. pure (record { revision = revision; affected_rule = none }))
                r.1

      dispatched :
          (l : LearningPersistence)
          → d.engine.learning_persistence ≡ l
          → Ended (dispatch o draws (set_mode n block_all) l d)
      dispatched persistence_active h = changed (ground (arith, h))
      dispatched persistence_paused h = changed (ground (arith, h))
      dispatched (in_flight token) h = blocked token h

      -- In a live daemon in agreement whose policy is active, where the backend and the store keep
      -- their promises and their updates and saves succeed, block-all on the current revision is
      -- always carried out, and closes the candidate that is being learned where there is one,
      -- else the policy in memory, if that is well-formed, has a revision left and fits when
      -- closed. The answer has the next revision; memory and file hold that policy with its rules,
      -- the next flow generation if there is one, and the mode block-all; the kernel enforces it
      -- or is closed; and the daemon is live and in agreement.
      pub handle_control-Closes :
          n ≡ d.engine.state.revision
          → Closes
              (closed_policy
                (newest d.engine.pending_application_learning_candidate d.engine.state))
              (handle_control o draws (set_mode n block_all) d)
      unfolding handle_control Ended
      handle_control-Closes known =
          passed (reject_if d.engine.poisoned _) _ (ground (arith, live.clean.0)) (
            passed (reject_if (not (n == d.engine.state.revision)) _) _ (ground (arith, known))
              (dispatched d.engine.learning_persistence refl))
        where
          passed :
              (r : Result ProtocolError Unit) (f : Unit → Exec ProtocolError (Daemon o) Ack)
              → r ≡ ok tt
              → Ended (f tt d)
              → Ended (continue r f d)
          passed r f h x = subst Ended (sym (continue_ok r f d tt h)) x
