-- ===== src/Engine/QueueAdmission.antt =====
-- Which observations the packet path hands to the learner: `Engine` of
-- crates/openshield-daemon/src/engine.rs.
use open_shield.Base.{ℕ, zero, suc, Bool, ◌&&◌, ◌||◌, not, same, ◌==◌}
use open_shield.Base.Outcome.{Result, ok, reject_if, map_err, ok_or}
use open_shield.Base.Exec.{Exec, pure, lift, self, modify, ◌>>=◌, ◌>>◌}
use open_shield.Base.Text.{codes}
use open_shield.Model.Kinds.{Mode, learning, Mode-discrete}
use open_shield.Model.LearnedEndpoint.{LearnedApplicationEndpoint}
use open_shield.State.Data.{State}
use open_shield.State.Admission.{
  ApplicationLearningAdmission, ApplicationLearningAdmissionIndex, classify,
}
use open_shield.Protocol.Errors.{ProtocolError, protocol_error, conflict, internal, invalid_request}
use open_shield.Engine.Data.{
  Engine, LearningPersistence, in_flight, persistence_paused, LearningQueueAdmission, enqueues,
  knows_already, is_saturated, is_paused, increment,
}
use open_shield.Engine.Outside.{Outside}
use open_shield.Engine.Emergency.{emergency_protocol_error}

-- `record_learning_quota_skipped`, without the warning.
unfoldable pub record_learning_quota_skipped : ℕ → Engine → Engine
record_learning_quota_skipped zero e = e
record_learning_quota_skipped (suc count) e =
    record_learning_quota_skipped count
      (record e { quota_skipped_observations = increment e.quota_skipped_observations })

module _ (o : Outside) where
  abbrev pub queue_verdict : ApplicationLearningAdmission → LearningQueueAdmission
  queue_verdict ApplicationLearningAdmission.already_known = knows_already
  queue_verdict ApplicationLearningAdmission.saturated = is_saturated
  queue_verdict ApplicationLearningAdmission.candidate = enqueues

  abbrev pub count_skipped : ApplicationLearningAdmission → Engine → Engine
  count_skipped ApplicationLearningAdmission.saturated e = record_learning_quota_skipped 1 e
  count_skipped _ e = e

  -- The index that decides: the pending one while a transaction is written.
  abbrev pub admission_in_use :
      LearningPersistence → Engine → Result ProtocolError ApplicationLearningAdmissionIndex
  admission_in_use (in_flight _) e =
      ok_or
        (protocol_error internal
          (codes "application learning transaction has no pending admission index"))
        e.pending_application_learning_admission
  admission_in_use _ e = ok e.application_learning_admission

  unfoldable pub classify_observation :
      LearnedApplicationEndpoint → Exec ProtocolError Engine LearningQueueAdmission
  unfolding classify record_learning_quota_skipped
  classify_observation endpoint = do
    e ← self
    admission ← lift (admission_in_use e.learning_persistence e)
    verdict ← lift (
        map_err (λ f. protocol_error invalid_request (o.describe_application f))
          (classify o.external admission endpoint))
    modify (count_skipped verdict)
    pure (queue_verdict verdict)

  abbrev pub is_current : ApplicationLearningAdmissionIndex → State → Bool
  is_current index s =
      index.revision == s.revision
      && same Mode-discrete index.mode s.mode
      && index.flow_generation == s.flow_generation

  abbrev pub admit_unless_paused :
      LearnedApplicationEndpoint
      → LearningPersistence
      → Exec ProtocolError Engine LearningQueueAdmission
  admit_unless_paused endpoint persistence_paused = pure is_paused
  admit_unless_paused endpoint _ = classify_observation endpoint

  unfoldable pub application_learning_queue_admission :
      Mode → ℕ → LearnedApplicationEndpoint → Exec ProtocolError Engine LearningQueueAdmission
  unfolding classify_observation emergency_protocol_error
  application_learning_queue_admission expected_mode expected_flow_generation endpoint = do
    e ← self
    lift (reject_if (e.fatal || e.poisoned) (emergency_protocol_error e))
    lift (
        reject_if
          (not (same Mode-discrete expected_mode learning)
            || not (same Mode-discrete e.state.mode expected_mode)
            || not (e.state.flow_generation == expected_flow_generation))
          (protocol_error conflict
            (codes "policy changed while the application learning endpoint was attributed")))
    lift (
        reject_if (not (is_current e.application_learning_admission e.state))
          (protocol_error internal (codes "application learning admission cache is not current")))
    admit_unless_paused endpoint e.learning_persistence
