-- ===== src/Engine/Agreement/Requests.antt =====
-- `handle_control` of crates/openshield-daemon/src/engine.rs against what a client may rely on.
use open_shield.Base.{
  ◌≡◌, refl, sym, ◌∙◌, subst, ℕ, true, false, not, Option, none, some, arith, inl, inr, ◌==◌,
}
use open_shield.Base.Outcome.{Result, ok, err, reject_if, map_err}
use open_shield.Base.Exec.{continue, pure, lift_cases}
use open_shield.Model.Kinds.{block_all, learning, enforcing}
use open_shield.State.Data.{State, Event}
use open_shield.State.External.{Draws}
use open_shield.State.Snapshots.{validate}
use open_shield.State.Mutation.{set_mode_at}
use open_shield.Protocol.Errors.{ProtocolError}
use open_shield.Protocol.Requests.{
  ControlRequest, set_mode, set_enforcement, create_rule, update_rule, delete_rule,
  set_rule_enabled, manage_outbound_group, expected_revision,
}
use open_shield.Protocol.Responses.{Ack}
use open_shield.Engine.Data.{
  LearningPersistence, in_flight, persistence_active, persistence_paused, startup_active,
  ApplicationLearningTransaction,
}
use open_shield.Engine.Outside.{Outside, Promises, Daemon}
use open_shield.Engine.Control.{Changes, apply_control_to_candidate, core_protocol_error}
use open_shield.Engine.Commit.{
  commit, with_pending, block_pending, commit_block_all_during_learning, change_policy,
  interrupt_learning, dispatch, handle_control,
}
use open_shield.Engine.Agreement.{
  IsLive, IsQuarantined, Agrees, Storage, settled, writing, written, abandoned, Flight, is_flying,
}
use open_shield.Engine.Agreement.Interruptions.{
  IsInterruptible, blocked_all, gave_up, Interrupts, stays, interrupts, block_pending-Interrupts,
}
use open_shield.Engine.Agreement.Commits.{
  IsQuiet, IsServing-IsLive, Ends, committed, restored, quarantined, commit-Ends,
}

pub in_flight-injective : {a b : ℕ} → in_flight a ≡ in_flight b → a ≡ b
in_flight-injective h = cc

-- What a client sees of the daemon: the policy in force, or none.
pub data View : Type 0 where
  in_force : State → View
  in_quarantine : View

module _ (o : Outside) where
  abbrev pub Shows : Daemon o → View → Type 0
  Shows d (in_force s) = (d.engine.poisoned ≡ false) × (d.engine.state ≡ s)
  Shows d in_quarantine = d.engine.poisoned ≡ true

  -- The answers that a policy and its pending candidate allow to a request, and the view behind
  -- each. A change happens as a whole, and only on the revision that the client knows.
  pub data Answers (draws : Draws) (request : ControlRequest) (s : State) (pending : Option State)
      : Result ProtocolError Ack → View → Type 0 where
    refuses : (e : ProtocolError) → Answers draws request s pending (err e) (in_force s)
    changes :
        (done : Changes) (candidate : State)
        → expected_revision request ≡ s.revision
        → apply_control_to_candidate o draws request s ≡ (ok done, candidate)
        → validate o.external candidate ≡ ok tt
        → Answers draws request s pending
            (ok (record { revision = candidate.revision; affected_rule = done.1 }))
            (in_force candidate)
    blocks :
        (n : ℕ) (base blocked : State) (event : Event)
        → n ≡ s.revision
        → request ≡ set_mode n block_all
        → pending ≡ some base
        → set_mode_at block_all (draws 0).1 base ≡ (ok event, blocked)
        → validate o.external blocked ≡ ok tt
        → Answers draws request s pending
            (ok (record { revision = blocked.revision; affected_rule = none }))
            (in_force blocked)
    gives_up : (e : ProtocolError) → Answers draws request s pending (err e) in_quarantine

  module _ (p : Promises o) where
    pub record IsAnswered (draws : Draws) (request : ControlRequest) (d : Daemon o)
        (r : Result ProtocolError Ack × Daemon o) : Type 0 where
      pub view : View
      pub shows : Shows r.1 view
      pub answers :
          Answers draws request d.engine.state d.engine.pending_application_learning_candidate r.0
            view
      pub agrees : Agrees o p r.1

    -- Where no transaction is in flight, the file holds the policy in memory.
    pub settled_of :
        (d : Daemon o)
        → Storage o p d
        → is_flying d.engine.learning_persistence ≡ false
        → (d.reservation ≡ none)
          × (d.engine.pending_application_learning_candidate ≡ none)
          × (p.disk d.world ≡ some d.engine.state)
    settled_of d (settled free _ nothing file) grounded = (free, nothing, file)
    settled_of d (writing t _ _ f _) grounded = absurd (let g = f.flying in ground (arith, g))
    settled_of d (written w _ _ f _) grounded = absurd (let g = f.flying in ground (arith, g))
    settled_of d (abandoned t _ _ f _) grounded = absurd (let g = f.flying in ground (arith, g))

    pub IsQuiet-of :
        (d : Daemon o)
        → IsLive o p d
        → d.engine.startup_policy ≡ startup_active
        → is_flying d.engine.learning_persistence ≡ false
        → IsQuiet d.engine
    IsQuiet-of d live active grounded = record {
      clean = live.clean;
      superseded = live.superseded;
      active = active;
      grounded = grounded;
      nothing_pending = (settled_of d live.storage grounded).1;
    }

    module _ (draws : Draws) (request : ControlRequest) (d : Daemon o) (live : IsLive o p d)
        (active : d.engine.startup_policy ≡ startup_active) where
      refused : (e : ProtocolError) → IsAnswered draws request d (err e, d)
      refused e = record {
        view = in_force d.engine.state;
        shows = (live.clean.0, refl);
        answers = refuses e;
        agrees = inl live;
      }

      ended :
          (done : Changes) (candidate : State) (r : Result ProtocolError Unit × Daemon o)
          → expected_revision request ≡ d.engine.state.revision
          → apply_control_to_candidate o draws request d.engine.state ≡ (ok done, candidate)
          → validate o.external candidate ≡ ok tt
          → Ends o p d.engine.state candidate r
          → IsAnswered draws request d (
              continue r.0
                (λ _. pure (record { revision = candidate.revision; affected_rule = done.1 }))
                r.1)
      ended done candidate r known made valid (committed _ e now serving) = record {
        view = in_force candidate;
        shows = (serving.quiet.clean.0, now);
        answers = changes done candidate known made valid;
        agrees = inl (IsServing-IsLive o p e serving);
      }
      ended done candidate r known made valid (restored error e now serving) = record {
        view = in_force d.engine.state;
        shows = (serving.quiet.clean.0, now);
        answers = refuses error;
        agrees = inl (IsServing-IsLive o p e serving);
      }
      ended done candidate r known made valid (quarantined error e q) = record {
        view = in_quarantine;
        shows = q.poisoned;
        answers = gives_up error;
        agrees = inr q;
      }

      changed :
          expected_revision request ≡ d.engine.state.revision
          → is_flying d.engine.learning_persistence ≡ false
          → IsAnswered draws request d (change_policy o draws request d)
      unfolding change_policy
      changed known grounded =
          let made = apply_control_to_candidate o draws request d.engine.state in
          let (free, nothing, file) = settled_of d live.storage grounded in
          lift_cases (IsAnswered draws request d) made.0 _ d refused λ done e.
            lift_cases (IsAnswered draws request d)
              (map_err (core_protocol_error o) (validate o.external made.1)) _ d refused
              λ _ valid.
                ended done made.1 (commit o made.1 done.0 d) known (λ i. (e i, made.1))
                  (ground arith)
                  (commit-Ends o p made.1 done.0 d (IsQuiet-of d live active grounded) free file)

      interrupted :
          (n token : ℕ) (base : State)
          → n ≡ d.engine.state.revision
          → request ≡ set_mode n block_all
          → d.engine.pending_application_learning_candidate ≡ some base
          → (i : IsInterruptible o p token d.engine) (r : Result ProtocolError ℕ × Daemon o)
          → Interrupts o p draws token base d i r
          → IsAnswered draws request d (
              continue r.0
                (λ revision. pure (record { revision = revision; affected_rule = none }))
                r.1)
      interrupted n token base known asked held i r (stays e) = refused e
      interrupted n token base known asked held i r
            (interrupts event blocked _ made valid (blocked_all e now shut file calm)) =
          record {
            view = in_force blocked;
            shows = (calm.clean.0, now);
            answers = blocks n base blocked event known asked held made valid;
            agrees = inl calm;
          }
      interrupted n token base known asked held i r
            (interrupts event blocked _ made valid (gave_up error e q)) =
          record {
            view = in_quarantine;
            shows = q.poisoned;
            answers = gives_up error;
            agrees = inr q;
          }

      pub Flight-of :
          (token : ℕ)
          → d.engine.learning_persistence ≡ in_flight token
          → Storage o p d
          → (t : ApplicationLearningTransaction) × Flight o p d t
      Flight-of token h (settled _ grounded _ _) = absurd (ground (arith, grounded, h))
      Flight-of token h (writing t _ _ f _) = (t, f)
      Flight-of token h (written w _ _ f _) = (w.transaction, f)
      Flight-of token h (abandoned t _ _ f _) = (t, f)

      blocked_during :
          (n token : ℕ)
          → n ≡ d.engine.state.revision
          → request ≡ set_mode n block_all
          → d.engine.learning_persistence ≡ in_flight token
          → IsAnswered draws request d (interrupt_learning o draws token (set_mode n block_all) d)
      unfolding interrupt_learning commit_block_all_during_learning
      blocked_during n token known asked h =
          let (t, f) = Flight-of token h live.storage in
          let i : IsInterruptible o p token d.engine = record {
            clean = live.clean;
            active = active;
            latest = sym (in_flight-injective (sym f.flying ∙ h)) ∙ f.latest;
          } in
          subst (λ held. IsAnswered draws request d (interruption held)) (sym f.pending)
            (interrupted n token t.candidate known asked f.pending i
              (block_pending o draws token t.candidate d)
              (block_pending-Interrupts o p draws token t.candidate d i))
        where
          interruption : Option State → Result ProtocolError Ack × Daemon o
          interruption held =
              let r = with_pending o held (block_pending o draws token) d in
              continue r.0 (λ revision. pure (record { revision = revision; affected_rule = none }))
                r.1

      interrupting :
          (asked : ControlRequest) (token : ℕ)
          → request ≡ asked
          → expected_revision asked ≡ d.engine.state.revision
          → d.engine.learning_persistence ≡ in_flight token
          → IsAnswered draws request d (interrupt_learning o draws token asked d)
      unfolding interrupt_learning
      interrupting (set_mode n block_all) token e known h = blocked_during n token known e h
      interrupting (set_mode n learning) token e known h = refused _
      interrupting (set_mode n enforcing) token e known h = refused _
      interrupting (set_enforcement _ _) token e known h = refused _
      interrupting (create_rule _ _) token e known h = refused _
      interrupting (update_rule _ _ _) token e known h = refused _
      interrupting (delete_rule _ _) token e known h = refused _
      interrupting (set_rule_enabled _ _ _) token e known h = refused _
      interrupting (manage_outbound_group _ _ _) token e known h = refused _

      dispatched :
          (l : LearningPersistence)
          → d.engine.learning_persistence ≡ l
          → expected_revision request ≡ d.engine.state.revision
          → IsAnswered draws request d (dispatch o draws request l d)
      dispatched persistence_active h known = changed known (ground (arith, h))
      dispatched persistence_paused h known = changed known (ground (arith, h))
      dispatched (in_flight token) h known = interrupting request token refl known h

    -- The answer of a daemon that has given up.
    locked :
        (draws : Draws) (request : ControlRequest) (d : Daemon o)
        → IsQuarantined o p d
        → (e : ProtocolError) → IsAnswered draws request d (err e, d)
    locked draws request d q e = record {
      view = in_quarantine;
      shows = q.poisoned;
      answers = gives_up e;
      agrees = inr q;
    }

    -- In service and in agreement, whatever calls of the backend and of the store fail,
    -- handle_control refines its specification: it refuses and leaves the policy; or it answers
    -- with the revision of the whole candidate, made on the revision that the client knows and
    -- valid, and that is the policy in force; or it closes the firewall on top of what is being
    -- learned; or it gives up in quarantine. The daemon is in agreement afterwards.
    pub handle_control-IsAnswered :
        (draws : Draws) (request : ControlRequest) (d : Daemon o)
        → Agrees o p d
        → d.engine.startup_policy ≡ startup_active
        → IsAnswered draws request d (handle_control o draws request d)
    unfolding handle_control
    handle_control-IsAnswered draws request d (inl live) active =
        lift_cases (IsAnswered draws request d) (reject_if d.engine.poisoned _) _ d
          (refused draws request d live active)
          λ _ _.
            lift_cases (IsAnswered draws request d)
              (reject_if (not (expected_revision request == d.engine.state.revision)) _) _ d
              (refused draws request d live active)
              λ _ known.
                dispatched draws request d live active d.engine.learning_persistence refl
                  (ground (arith, known))
    handle_control-IsAnswered draws request d (inr q) active =
        lift_cases (IsAnswered draws request d) (reject_if d.engine.poisoned _) _ d
          (locked draws request d q) λ _ passed. absurd (ground (arith, passed, q.poisoned))
