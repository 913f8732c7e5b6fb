-- ===== src/Engine/Startup.antt =====
-- The start of `Engine` in crates/openshield-daemon/src/engine.rs: the policy is loaded, or made,
-- behind a closed kernel, and later activated. Nothing is reserved yet, so that the exclusive
-- accesses of the file are those of the store.
use open_shield.Base.{◌+◌, false, Option, none, some, [], ◌++◌, leb, if◌then◌else◌}
use open_shield.Base.Outcome.{Result, ok, err, map_err}
use open_shield.Base.Exec.{Exec, pure, lift, ◌>>=◌, ◌>>◌}
use open_shield.Base.Text.{Text, codes}
use open_shield.Model.Kinds.{learning}
use open_shield.State.Data.{State, new, CoreError, snapshot, max_rules, max_flow_generation}
use open_shield.State.External.{Draws}
use open_shield.State.Mutation.{rotate_flow_generation, set_mode_at}
use open_shield.State.Keys.{LearningLimits}
use open_shield.State.Learning.Templates.{ensure_application_group_templates}
use open_shield.State.Admission.{from_state}
use open_shield.Protocol.Responses.{NfqueueCounters}
use open_shield.Engine.Bus.{EventBus}
use open_shield.Engine.Data.{
  Engine, startup_pending, startup_active, by_startup, persistence_active,
}
use open_shield.Engine.Outside.{Outside, Daemon}
use open_shield.Engine.Decision.{build_application_decision_policy}
use open_shield.Engine.Emergency.{on_engine}

abbrev pub no_counters : NfqueueCounters
no_counters = record {
  queue_overflow = 0;
  attribution_timeout = 0;
  terminal_queue_error = 0;
  denied = 0;
}

-- A result of the core, with the text that `context` puts in front of its error.
abbrev pub in_context : {A : Type 0} → Text → Exec CoreError State A → Exec Text State A
in_context message m s = (map_err (λ _. message) (m s).0, (m s).1)

unfoldable pub rotate_startup_flow_generation : Exec Text State Unit
unfolding rotate_flow_generation
rotate_startup_flow_generation s =
    let rotated =
      in_context (codes "cannot rotate the startup flow-authorization epoch")
        (rotate_flow_generation (s.flow_generation + 1)) s in
    if leb (s.flow_generation + 1) max_flow_generation
    then rotated
    else (err (codes "startup flow-authorization epochs are exhausted"), s)

unfoldable pub new_engine : EventBus → LearningLimits → State → Engine
unfolding build_application_decision_policy from_state
new_engine events limits s = record {
  state = s;
  learning_limits = limits;
  quota_skipped_observations = 0;
  application_policy = build_application_decision_policy s;
  application_learning_admission = from_state s limits;
  pending_application_learning_admission = none;
  pending_application_learning_candidate = none;
  pending_application_learning_events = [];
  events = events;
  nfqueue_counters = no_counters;
  poisoned = false;
  fatal = false;
  restart_required = false;
  startup_policy = startup_pending;
  learning_persistence = persistence_active;
  next_learning_transaction = 0;
  superseded_learning_transaction = none;
}

module _ (o : Outside) where
  -- What is stored of a policy that was found in the file.
  unfoldable pub prepare_loaded : Draws → Exec Text State Unit
  unfolding rotate_startup_flow_generation ensure_application_group_templates
  prepare_loaded draws = do
    rotate_startup_flow_generation
    outcomes ←
        in_context (codes "cannot migrate application group templates")
          (ensure_application_group_templates o.external draws max_rules)
    pure tt

  -- What is stored where there is no file.
  unfoldable pub prepare_initial : Draws → Exec Text State Unit
  unfolding rotate_startup_flow_generation set_mode_at
  prepare_initial draws = do
    event ←
        in_context (codes "cannot construct the initial Learning policy")
          (set_mode_at learning (draws 0).1)
    rotate_startup_flow_generation

  -- An error behind which the kernel is closed once more.
  unfoldable pub fail_again : {A : Type 0} → Text → Exec Text o.World A
  fail_again message w =
      let closing = o.fail_closed w in
      (
        err (elim closing.0 [
          | ok _ ↦ message
          | err _ ↦ message ++ codes "; fail-closed policy also failed"
        ]),
        closing.1,
      )

  unfoldable pub store_loaded : State → Exec Text o.World State
  unfolding fail_again
  store_loaded s w =
      let stored = o.save s w in
      let failed : Result Text State × o.World =
        fail_again
          (codes "new startup flow epoch could not be persisted; fail-closed policy retained")
          stored.1 in
      elim stored.0 [ ok _ ↦ (ok s, stored.1) | err _ ↦ failed ]

  unfoldable pub store_initial : State → Exec Text o.World State
  store_initial s w =
      let stored = o.save s w in
      (
        elim stored.0 [
          | ok _ ↦ ok s
          | err _ ↦
              err (codes "cannot persist the initial Learning policy; BlockAll remains active")
        ],
        stored.1,
      )

  -- The arms of `match persistence.load_exclusive()` that have a policy.
  unfoldable pub start_from : Draws → Option State → Exec Text o.World State
  unfolding prepare_loaded prepare_initial store_loaded store_initial
  start_from draws (some s) = do
    let prepared = prepare_loaded draws s
    lift prepared.0
    store_loaded prepared.1
  start_from draws none = do
    let prepared = prepare_initial draws new
    lift prepared.0
    store_initial prepared.1

  unfoldable pub load_policy : Draws → Exec Text o.World State
  unfolding start_from fail_again
  load_policy draws w =
      let found = o.load w in
      elim found.0 [
        | ok persisted ↦ start_from draws persisted found.1
        | err _ ↦
            fail_again (codes "persisted state is unsafe or invalid; fail-closed policy installed")
              found.1
      ]

  -- `backend.fail_closed().context(..)?`
  unfoldable pub close_for_startup : Exec Text o.World Unit
  close_for_startup w =
      let closing = o.fail_closed w in
      (map_err (λ _. codes "cannot establish the startup BlockAll quarantine") closing.0, closing.1)

  unfoldable pub load_with_learning_limits :
      Draws → EventBus → LearningLimits → Exec Text o.World Engine
  unfolding close_for_startup load_policy new_engine
  load_with_learning_limits draws events limits = do
    close_for_startup
    s ← load_policy draws
    pure (new_engine events limits s)

  -- The daemon of an engine that was just loaded.
  abbrev pub started : Engine → o.World → Daemon o
  started e w = record { engine = e; reservation = none; persisted = none; world = w }

  abbrev pub activated : Engine → Engine
  activated e = record e { startup_policy = startup_active }

  -- The rest of `activate_startup_policy`, where the policy is pending.
  unfoldable pub activate_pending : Exec Text (Daemon o) Unit
  unfolding snapshot
  activate_pending d =
      let applied = o.apply (snapshot d.engine.state) d.world in
      let closing = o.fail_closed applied.1 in
      elim applied.0 [
        | ok _ ↦ (ok tt, on_engine o activated (record d { world = applied.1 }))
        | err _ ↦ (
          err (elim closing.0 [
            | ok _ ↦ codes "startup policy could not be applied; BlockAll was retained"
            | err _ ↦ codes "startup policy failed; retaining BlockAll also failed"
          ]),
          record d { world = closing.1 },
        )
      ]

  unfoldable pub activate_startup_policy : Exec Text (Daemon o) Unit
  unfolding activate_pending
  activate_startup_policy d = by_startup d.engine.startup_policy (activate_pending d) (ok tt, d)
