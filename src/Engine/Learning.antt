-- ===== src/Engine/Learning.antt =====
-- Application learning in `Engine` of crates/openshield-daemon/src/engine.rs: a transaction is
-- prepared under the engine's lock, written without it, and finalized.
use open_shield.Engine.Transition.{validate_application_learning_transition}
use open_shield.Engine.QueueAdmission.{record_learning_quota_skipped}
use open_shield.Base.{
  ℕ, Bool, true, false, ◌||◌, not, Option, none, some, List, [], ◌∷◌, max, length, take, keep,
  is_some_and, same, ◌==◌, if◌then◌else◌,
}
use open_shield.Base.Words.{u64_max, checked_add}
use open_shield.Base.Outcome.{Result, ok, err, is_ok, map_err}
use open_shield.Base.Exec.{Exec, lift, self, modify, ◌>>=◌, ◌>>◌}
use open_shield.Base.Text.{codes}
use open_shield.Model.Kinds.{learning, Mode-discrete}
use open_shield.Model.LearnedEndpoint.{LearnedApplicationEndpoint, validate_application_endpoint}
use open_shield.State.Data.{State, Event, CoreError, state_size_limit_reached, max_rules}
use open_shield.State.External.{Draws}
use open_shield.State.Snapshots.{validate}
use open_shield.State.Equality.{State-discrete}
use open_shield.State.Learning.{LearnOutcome}
use open_shield.State.Learning.Applications.{learn_new_application_endpoints_with_limits}
use open_shield.State.Admission.{
  ApplicationLearningAdmission, ApplicationLearningAdmissionIndex, from_state, classify,
}
use open_shield.Protocol.Errors.{ProtocolError, protocol_error, conflict, internal}
use open_shield.Engine.Bus.{publish_all, clear_counter_snapshot}
use open_shield.Engine.Data.{
  Engine, LearningPersistence, persistence_active, in_flight, persistence_paused,
  LearningStoreOutcome, saved, previous_retained, unsafe, ApplicationLearningTransaction,
  PersistedApplicationLearning,
}
use open_shield.Engine.Outside.{Outside, Daemon}
use open_shield.Engine.Decision.{replace_state, clear_pending_application_learning}
use open_shield.Engine.Control.{core_protocol_error}
use open_shield.Engine.Persistence.{reserve_learning}
use open_shield.Engine.Emergency.{on_engine, forget_counters, emergency_protocol_error}
use open_shield.Engine.Commit.{emergency}

abbrev pub max_learned_rules_per_poll : ℕ
max_learned_rules_per_poll = 256

abbrev pub is_active : LearningPersistence → Bool
is_active persistence_active = true
is_active _ = false

abbrev pub is_in_flight : ℕ → LearningPersistence → Bool
is_in_flight token (in_flight other) = other == token
is_in_flight token _ = false

abbrev pub is_size_limit : CoreError → Bool
is_size_limit (state_size_limit_reached _) = true
is_size_limit _ = false

-- `outcomes.into_iter().filter_map(|outcome| outcome.event)`
abbrev pub events_of : List LearnOutcome → List Event
events_of [] = []
events_of (o ∷ rest) = elim o.event [ some event ↦ event ∷ events_of rest | none ↦ events_of rest ]

module _ (o : Outside) where
  abbrev pub is_saturated_in : ApplicationLearningAdmissionIndex → LearnedApplicationEndpoint → Bool
  is_saturated_in index endpoint = elim (classify o.external index endpoint) [
    | ok verdict ↦ elim verdict [ ApplicationLearningAdmission.saturated ↦ true | _ ↦ false ]
    | err _ ↦ false
  ]

  -- The token, the reservation and the pending fields, for a candidate that passed every check.
  unfoldable pub reserve_transaction :
      State → List Event → Exec ProtocolError (Daemon o) (Option ApplicationLearningTransaction)
  unfolding reserve_learning from_state
  reserve_transaction candidate events d =
      elim (checked_add u64_max d.engine.next_learning_transaction 1) [
        | none ↦ (
          err (
              protocol_error conflict
                (codes "automatic-learning transaction counter is exhausted")),
          d,
        )
        | some token ↦
            let t : ApplicationLearningTransaction = record {
              token = token;
              previous = d.engine.state;
              candidate = candidate;
              events = events;
            } in
            elim (reserve_learning o t d) [
              | err e ↦ (err e, d)
              | ok reserved ↦ (
                ok (some t),
                on_engine o
                    (λ e. record e {
                      next_learning_transaction = token;
                      pending_application_learning_admission =
                          some (from_state candidate e.learning_limits);
                      pending_application_learning_candidate = some candidate;
                      pending_application_learning_events = events;
                      learning_persistence = in_flight token;
                    })
                    reserved,
              )
            ]
      ]

  -- `candidate.validate()`, where reaching the size limit only stops learning.
  unfoldable pub check_candidate :
      State → List Event → Exec ProtocolError (Daemon o) (Option ApplicationLearningTransaction)
  unfolding reserve_transaction validate core_protocol_error
      validate_application_learning_transition
  check_candidate candidate events d = elim (validate o.external candidate) [
    | err e ↦
        if is_size_limit e
        then (ok none, on_engine o (λ g. record g { learning_persistence = persistence_paused }) d)
        else (err (core_protocol_error o e), d)
    | ok _ ↦
        if validate_application_learning_transition d.engine.state candidate events
        then reserve_transaction candidate events d
        else (
          err (
              protocol_error internal
                (codes "automatic learning produced an invalid policy transition")),
          d,
        )
  ]

  -- `if events.is_empty() { return Ok(None) }` and the rest.
  abbrev pub propose :
      State → List Event → Exec ProtocolError (Daemon o) (Option ApplicationLearningTransaction)
  propose candidate [] d = (ok none, d)
  propose candidate (event ∷ rest) d = check_candidate candidate (event ∷ rest) d

  -- `valid_endpoints`
  abbrev pub valid_endpoints : List LearnedApplicationEndpoint → List LearnedApplicationEndpoint
  valid_endpoints endpoints =
      keep (λ e. is_ok (validate_application_endpoint e)) (take max_rules endpoints)

  unfoldable pub learn_from :
      Draws
      → List LearnedApplicationEndpoint
      → Engine
      → Result CoreError (List LearnOutcome) × State
  unfolding learn_new_application_endpoints_with_limits
  learn_from draws endpoints e =
      learn_new_application_endpoints_with_limits o.external draws endpoints
        max_learned_rules_per_poll e.learning_limits e.state

  -- The observations that the resulting policy has no room for.
  abbrev pub count_saturated : State → List LearnedApplicationEndpoint → Engine → ℕ
  count_saturated candidate endpoints e =
      length (keep (is_saturated_in (from_state candidate e.learning_limits)) endpoints)

  unfoldable pub learn_candidate :
      Draws
      → List LearnedApplicationEndpoint
      → Exec ProtocolError (Daemon o) (Option ApplicationLearningTransaction)
  unfolding check_candidate learn_from from_state classify record_learning_quota_skipped
      core_protocol_error
  learn_candidate draws endpoints = do
    d ← self
    let learnt = learn_from draws (valid_endpoints endpoints) d.engine
    outcomes ← lift (map_err (core_protocol_error o) learnt.0)
    modify (
        on_engine o (
          record_learning_quota_skipped
            (count_saturated learnt.1 (valid_endpoints endpoints) d.engine)))
    propose learnt.1 (events_of outcomes)

  unfoldable pub prepare_application_learning :
      Draws
      → ℕ
      → List LearnedApplicationEndpoint
      → Exec ProtocolError (Daemon o) (Option ApplicationLearningTransaction)
  unfolding learn_candidate
  prepare_application_learning draws expected_flow_generation endpoints d =
      let prepared = learn_candidate draws endpoints d in
      if d.engine.poisoned
        || not (is_active d.engine.learning_persistence)
        || not (same Mode-discrete d.engine.state.mode learning)
        || not (d.engine.state.flow_generation == expected_flow_generation)
      then (ok none, d)
      else prepared

  abbrev pub accept_learned : ApplicationLearningTransaction → Engine → Engine
  accept_learned t e =
      let replaced =
        forget_counters
          (record (replace_state t.candidate e) { learning_persistence = persistence_active }) in
      record replaced { events = publish_all t.events replaced.events }

  abbrev pub pause_learning : Engine → Engine
  pause_learning e = record (clear_pending_application_learning e) {
    learning_persistence = persistence_paused;
  }

  -- `match outcome`
  unfoldable pub conclude :
      ApplicationLearningTransaction → LearningStoreOutcome → Exec ProtocolError (Daemon o) ℕ
  unfolding emergency replace_state publish_all clear_counter_snapshot
  conclude t saved d = (ok (length t.events), on_engine o (accept_learned t) d)
  conclude t previous_retained d = (ok 0, on_engine o pause_learning d)
  conclude t unsafe d = emergency o (max d.engine.state.revision t.candidate.revision) d

  abbrev pub is_superseded : ℕ → Option ℕ → Bool
  is_superseded token superseded = is_some_and superseded (λ other. other == token)

  unfoldable pub finalize_application_learning :
      PersistedApplicationLearning → Exec ProtocolError (Daemon o) ℕ
  unfolding emergency conclude emergency_protocol_error
  finalize_application_learning p d =
      let t = p.transaction in
      let superseded : Result ProtocolError ℕ × Daemon o =
        (ok 0, on_engine o (λ e. record e { superseded_learning_transaction = none }) d) in
      let confused : Result ProtocolError ℕ × Daemon o =
        emergency o (max d.engine.state.revision t.candidate.revision) d in
      let concluded = conclude t p.outcome d in
      if is_superseded t.token d.engine.superseded_learning_transaction
      then superseded
      else if d.engine.fatal || d.engine.poisoned
      then (err (emergency_protocol_error d.engine), d)
      else if not (is_in_flight t.token d.engine.learning_persistence)
          || not (same State-discrete d.engine.state t.previous)
      then confused
      else concluded
