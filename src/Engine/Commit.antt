-- ===== src/Engine/Commit.antt =====
-- Changes of the policy in `Engine` of crates/openshield-daemon/src/engine.rs: `handle_control`,
-- `commit`, `commit_block_all_during_learning` and `repair_policy`.
use open_shield.Base.{
  ℕ, Bool, true, false, ◌||◌, not, Option, none, some, List, ◌++◌, max, ◌==◌, if◌then◌else◌,
}
use open_shield.Base.Outcome.{Result, ok, err, is_ok, reject_if, map_err}
use open_shield.Base.Exec.{Exec, pure, lift, self, ◌>>=◌, ◌>>◌}
use open_shield.Base.Text.{Text, codes}
use open_shield.Base.Decimal.{to_string}
use open_shield.Model.Kinds.{block_all}
use open_shield.State.Data.{State, Event, snapshot}
use open_shield.State.External.{Draws}
use open_shield.State.Snapshots.{validate}
use open_shield.State.Mutation.{set_mode_at}
use open_shield.Protocol.Errors.{
  ProtocolError, protocol_error, backend_unavailable, conflict, internal,
}
use open_shield.Protocol.Requests.{ControlRequest, set_mode, expected_revision}
use open_shield.Protocol.Responses.{Ack}
use open_shield.Engine.Bus.{publish, publish_all, clear_counter_snapshot}
use open_shield.Engine.Data.{
  Engine, LearningPersistence, persistence_active, in_flight, persistence_paused, is_previous,
  is_candidate_or_unknown,
}
use open_shield.Engine.Outside.{Outside, Daemon}
use open_shield.Engine.Decision.{replace_state}
use open_shield.Engine.Control.{core_protocol_error, on_state, apply_control_to_candidate}
use open_shield.Engine.Persistence.{save_exclusive, persisted_state_after_failed_save}
use open_shield.Engine.Emergency.{
  on_engine, forget_counters, fatal_protocol_error, restart_protocol_error,
  emergency_protocol_error, enter_emergency_fail_closed,
}

module _ (o : Outside) where
  -- `self.enter_emergency_fail_closed(floor); return Err(self.emergency_protocol_error())`
  unfoldable pub emergency : {A : Type 0} → ℕ → Exec ProtocolError (Daemon o) A
  unfolding enter_emergency_fail_closed emergency_protocol_error
  emergency revision_floor d =
      let closed = enter_emergency_fail_closed o revision_floor d in
      (err (emergency_protocol_error closed.engine), closed)

  -- The branch of `commit` in which the kernel did not take the candidate.
  unfoldable pub restore_previous : State → State → Exec ProtocolError (Daemon o) Unit
  unfolding emergency clear_counter_snapshot snapshot
  restore_previous previous candidate d =
      let restored = o.apply (snapshot previous) d.world in
      let after = record d { world = restored.1 } in
      elim restored.0 [
        | ok _ ↦ (
          err (
              protocol_error backend_unavailable
                (codes "firewall transaction failed; previous policy was reinstalled")),
          on_engine o forget_counters after,
        )
        | err _ ↦ emergency (max previous.revision candidate.revision) after
      ]

  -- `storage_rollback`
  unfoldable pub roll_storage_back : State → State → Daemon o → Result Text Unit × Daemon o
  unfolding persisted_state_after_failed_save save_exclusive
  roll_storage_back previous candidate d =
      let found = persisted_state_after_failed_save o previous candidate d in
      let stored = save_exclusive o previous found.1 in
      elim found.0 [ is_previous ↦ (ok tt, found.1) | is_candidate_or_unknown ↦ stored ]

  -- The branch of `commit` in which the candidate was not stored.
  unfoldable pub roll_back : State → State → Exec ProtocolError (Daemon o) Unit
  unfolding emergency roll_storage_back snapshot
  roll_back previous candidate d =
      let restored = o.apply (snapshot previous) d.world in
      let stored = roll_storage_back previous candidate (record d { world = restored.1 }) in
      if not (is_ok restored.0) || not (is_ok stored.0)
      then emergency (max previous.revision candidate.revision) stored.1
      else (
        err (protocol_error internal (codes "state persistence failed; previous policy restored")),
        stored.1,
      )

  abbrev pub accept_candidate : State → List Event → Engine → Engine
  accept_candidate candidate events e =
      let replaced =
        forget_counters
          (record (replace_state candidate e) { learning_persistence = persistence_active }) in
      record replaced { events = publish_all events replaced.events }

  unfoldable pub store_candidate : State → List Event → Exec ProtocolError (Daemon o) Unit
  unfolding roll_back save_exclusive replace_state publish_all clear_counter_snapshot
  store_candidate candidate events d =
      let stored = save_exclusive o candidate d in
      elim stored.0 [
        | ok _ ↦ (ok tt, on_engine o (accept_candidate candidate events) stored.1)
        | err _ ↦ roll_back d.engine.state candidate stored.1
      ]

  unfoldable pub commit : State → List Event → Exec ProtocolError (Daemon o) Unit
  unfolding restore_previous store_candidate snapshot
  commit candidate events d =
      let applied = o.apply (snapshot candidate) d.world in
      let after = record d { world = applied.1 } in
      elim applied.0 [
        | ok _ ↦ store_candidate candidate events after
        | err _ ↦ restore_previous d.engine.state candidate after
      ]

  abbrev pub stale_revision : ℕ → ℕ → ProtocolError
  stale_revision expected current = protocol_error conflict (
      codes "policy revision changed: expected "
      ++ (to_string expected
          ++ (codes ", current " ++ (to_string current ++ codes "; reload before retrying"))))

  -- `apply_control_to_candidate` and `validate` on the private copy, and `commit`.
  unfoldable pub change_policy : Draws → ControlRequest → Exec ProtocolError (Daemon o) Ack
  unfolding apply_control_to_candidate core_protocol_error validate commit
  change_policy draws request = do
    d ← self
    let changed = apply_control_to_candidate o draws request d.engine.state
    changes ← lift changed.0
    lift (map_err (core_protocol_error o) (validate o.external changed.1))
    commit changed.1 changes.0
    pure (record { revision = changed.1.revision; affected_rule = changes.1 })

  abbrev pub operator_lost : Engine → Engine
  operator_lost e = record e {
    poisoned = true;
    fatal = true;
    restart_required = true;
    learning_persistence = persistence_paused;
  }

  -- A save, and a second one where the first reports an error.
  unfoldable pub save_twice : State → Daemon o → Result Text Unit × Daemon o
  unfolding save_exclusive
  save_twice s d =
      let first = save_exclusive o s d in
      let second = save_exclusive o s first.1 in elim first.0 [ ok _ ↦ first | err _ ↦ second ]

  abbrev pub superseding : ℕ → State → Engine → Engine
  superseding token blocked e = record (replace_state blocked e) {
    superseded_learning_transaction = some token;
  }

  abbrev pub quarantined : Engine → Engine
  quarantined e = record e {
    poisoned = true;
    learning_persistence = persistence_paused;
    restart_required = false;
  }

  abbrev pub announce : List Event → Event → Engine → Engine
  announce pending event e =
      let active = forget_counters (record e { learning_persistence = persistence_active }) in
      record active { events = publish event (publish_all pending active.events) }

  -- Behind `fail_closed`, which succeeded.
  unfoldable pub persist_blocked : ℕ → State → Event → List Event → Exec ProtocolError (Daemon o) ℕ
  unfolding save_twice replace_state emergency_protocol_error publish publish_all
      clear_counter_snapshot
  persist_blocked token blocked event pending d =
      let stored = save_twice blocked d in
      let replaced = on_engine o (superseding token blocked) stored.1 in
      elim stored.0 [
        | ok _ ↦ (ok blocked.revision, on_engine o (announce pending event) replaced)
        | err _ ↦
            let kept = on_engine o quarantined replaced in
            (err (emergency_protocol_error kept.engine), kept)
      ]

  unfoldable pub close_kernel : ℕ → State → Event → Exec ProtocolError (Daemon o) ℕ
  unfolding persist_blocked fatal_protocol_error
  close_kernel token blocked event d =
      let closing = o.fail_closed d.world in
      let after = record d { world = closing.1 } in
      elim closing.0 [
        | ok _ ↦
            persist_blocked token blocked event d.engine.pending_application_learning_events after
        | err _ ↦ (err fatal_protocol_error, on_engine o operator_lost after)
      ]

  -- Behind the look at the pending candidate.
  unfoldable pub block_pending : Draws → ℕ → State → Exec ProtocolError (Daemon o) ℕ
  unfolding set_mode_at core_protocol_error validate close_kernel
  block_pending draws token pending = do
    let blocked = on_state o (set_mode_at block_all (draws 0).1) pending
    event ← lift blocked.0
    lift (map_err (core_protocol_error o) (validate o.external blocked.1))
    close_kernel token blocked.1 event

  abbrev pub with_pending :
      Option State → (State → Exec ProtocolError (Daemon o) ℕ) → Exec ProtocolError (Daemon o) ℕ
  with_pending none continues d = (
    err (
        protocol_error internal
          (codes "application learning transaction has no pending candidate")),
    d,
  )
  with_pending (some pending) continues d = continues pending d

  unfoldable pub commit_block_all_during_learning : Draws → ℕ → Exec ProtocolError (Daemon o) ℕ
  unfolding block_pending
  commit_block_all_during_learning draws token d =
      with_pending d.engine.pending_application_learning_candidate (block_pending draws token) d

  -- A request while a learning transaction is being written.
  unfoldable pub interrupt_learning : Draws → ℕ → ControlRequest → Exec ProtocolError (Daemon o) Ack
  unfolding commit_block_all_during_learning
  interrupt_learning draws token (set_mode _ block_all) = do
    revision ← commit_block_all_during_learning draws token
    pure (record { revision = revision; affected_rule = none })
  interrupt_learning draws token _ = lift (
      err (
        protocol_error conflict
          (codes "automatic learning is being persisted; retry the privileged change")))

  abbrev pub dispatch :
      Draws → ControlRequest → LearningPersistence → Exec ProtocolError (Daemon o) Ack
  dispatch draws request (in_flight token) = interrupt_learning draws token request
  dispatch draws request _ = change_policy draws request

  unfoldable pub handle_control : Draws → ControlRequest → Exec ProtocolError (Daemon o) Ack
  unfolding interrupt_learning change_policy
  handle_control draws request = do
    d ← self
    lift (
        reject_if d.engine.poisoned (
          protocol_error backend_unavailable
            (codes "policy engine is locked after a failed rollback")))
    lift (
        reject_if (not (expected_revision request == d.engine.state.revision))
          (stale_revision (expected_revision request) d.engine.state.revision))
    dispatch draws request d.engine.learning_persistence

  -- Behind the checks of `repair_policy`.
  unfoldable pub reinstall : Exec ProtocolError (Daemon o) Bool
  unfolding emergency clear_counter_snapshot snapshot
  reinstall d =
      let applied = o.apply (snapshot d.engine.state) d.world in
      let after = record d { world = applied.1 } in
      elim applied.0 [
        | ok _ ↦ (ok true, on_engine o forget_counters after)
        | err _ ↦ emergency d.engine.state.revision after
      ]

  unfoldable pub repair_policy : ℕ → Exec ProtocolError (Daemon o) Bool
  unfolding reinstall emergency_protocol_error fatal_protocol_error restart_protocol_error
  repair_policy expected d =
      let repaired = reinstall d in
      if d.engine.poisoned
      then (err (emergency_protocol_error d.engine), d)
      else if d.engine.restart_required || d.engine.fatal
      then (err (if d.engine.fatal then fatal_protocol_error else restart_protocol_error), d)
      else if d.engine.state.revision == expected
      then repaired
      else (ok false, d)
