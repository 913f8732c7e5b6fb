-- ===== src/Engine/Emergency.antt =====
-- The emergency paths of `Engine` in crates/openshield-daemon/src/engine.rs.
use open_shield.Base.{ℕ, true, false, ◌&&◌, not, none, some, max, if◌then◌else◌}
use open_shield.Base.Words.{u64_max, saturating_add}
use open_shield.Base.Outcome.{Result, ok, err}
use open_shield.Base.Text.{Text, codes}
use open_shield.Model.Kinds.{block_all}
use open_shield.State.Data.{State, CoreError, snapshot}
use open_shield.State.Snapshots.{from_snapshot}
use open_shield.Protocol.Errors.{ProtocolError, protocol_error, backend_unavailable}
use open_shield.Engine.Bus.{clear_counter_snapshot}
use open_shield.Engine.Data.{Engine, by_startup, persistence_paused}
use open_shield.Engine.Outside.{Outside, Daemon}
use open_shield.Engine.Decision.{replace_state}
use open_shield.Engine.Persistence.{save_exclusive}

unfoldable pub fatal_protocol_error : ProtocolError
fatal_protocol_error =
    protocol_error backend_unavailable
      (codes "kernel policy state is unknown; daemon is terminating for service-manager recovery")

unfoldable pub restart_protocol_error : ProtocolError
restart_protocol_error = protocol_error backend_unavailable (
    codes
      "firewall integrity repair failed; emergency BlockAll is active and the daemon is restarting")

unfoldable pub emergency_protocol_error : Engine → ProtocolError
unfolding fatal_protocol_error restart_protocol_error
emergency_protocol_error e =
    if e.fatal
    then fatal_protocol_error
    else if e.restart_required
    then restart_protocol_error
    else protocol_error backend_unavailable (
        codes
          "emergency BlockAll is active but could not be persisted; daemon is quarantined and requires storage repair")

-- The state whose rules an emergency keeps: what is being learned, or what is active.
abbrev pub retained_state : Engine → State
retained_state e = elim e.pending_application_learning_candidate [
  | some candidate ↦ candidate
  | none ↦ e.state
]

abbrev pub forget_counters : Engine → Engine
forget_counters e = record e { events = clear_counter_snapshot e.events }

abbrev pub lost : Engine → Engine
lost e = record e { fatal = true; restart_required = true }

module _ (o : Outside) where
  abbrev pub on_engine : (Engine → Engine) → Daemon o → Daemon o
  on_engine f d = record d { engine = f d.engine }

  -- `Ok(()) => self.restart_required = true`
  abbrev pub require_restart : Result Text Unit → Daemon o → Daemon o
  require_restart (ok _) d = on_engine (λ e. record e { restart_required = true }) d
  require_restart (err _) d = d

  -- The kernel blocks everything: memory and the file follow.
  unfoldable pub keep_closed : Result CoreError State → Daemon o → Daemon o
  unfolding replace_state save_exclusive clear_counter_snapshot
  keep_closed (err _) d = on_engine lost d
  keep_closed (ok fail_closed) d =
      let stored =
        save_exclusive o fail_closed
          (on_engine (λ e. forget_counters (replace_state fail_closed e)) d) in
      require_restart stored.0 stored.1

  abbrev pub closed_state : ℕ → State → Result CoreError State
  closed_state revision_floor retained = from_snapshot o.external (record {
    revision = saturating_add u64_max revision_floor 1;
    flow_generation = retained.flow_generation;
    mode = block_all;
    rules = (snapshot retained).rules;
  })

  unfoldable pub enter_emergency_fail_closed : ℕ → Daemon o → Daemon o
  unfolding keep_closed from_snapshot snapshot
  enter_emergency_fail_closed revision_floor d =
      let retained = retained_state d.engine in
      let floor = max revision_floor retained.revision in
      let closing = o.fail_closed d.world in
      let locked : Daemon o = record d {
        engine = record d.engine {
          poisoned = true;
          learning_persistence = persistence_paused;
          restart_required = false;
        };
        world = closing.1;
      } in
      elim closing.0 [
        | ok _ ↦ keep_closed (closed_state floor retained) locked
        | err _ ↦ on_engine lost locked
      ]

  abbrev pub fatal_unless : Result Text Unit → Engine → Engine
  fatal_unless (ok _) e = e
  fatal_unless (err _) e = record e { fatal = true }

  unfoldable pub quarantine_after_runtime_failure : Daemon o → Daemon o
  unfolding enter_emergency_fail_closed
  quarantine_after_runtime_failure d =
      let closing = o.fail_closed d.world in
      let entered = enter_emergency_fail_closed d.engine.state.revision d in
      by_startup d.engine.startup_policy
        (record d {
          engine =
              fatal_unless closing.0
                (record d.engine { poisoned = true; learning_persistence = persistence_paused });
          world = closing.1;
        })
        (if not d.engine.poisoned && not d.engine.fatal then entered else d)

  unfoldable pub quarantine_after_engine_poison : Daemon o → Daemon o
  unfolding clear_counter_snapshot
  quarantine_after_engine_poison d = record d {
    engine = forget_counters (record d.engine {
      poisoned = true;
      fatal = true;
      restart_required = true;
      learning_persistence = persistence_paused;
    });
    world = (o.fail_closed d.world).1;
  }

  abbrev pub after_shutdown : Result Text Unit → Engine → Engine
  after_shutdown (ok _) e = forget_counters e
  after_shutdown (err _) e = record e { poisoned = true; fatal = true }

  unfoldable pub install_shutdown_quarantine : Daemon o → Result Text Unit × Daemon o
  unfolding clear_counter_snapshot
  install_shutdown_quarantine d =
      let closing = o.fail_closed d.world in
      (closing.0, record d { engine = after_shutdown closing.0 d.engine; world = closing.1 })
