-- ===== src/Engine/Agreement/Admissions.antt =====
-- `application_learning_queue_admission` and `publish_counters_if_current` of
-- crates/openshield-daemon/src/engine.rs only count and tell.
use open_shield.Base.{Bool, if_cases, ◌≡◌, refl, ℕ, not, ◌||◌, same, ◌==◌}
use open_shield.Base.Outcome.{Result, reject_if, map_err}
use open_shield.Base.Exec.{lift_cases}
use open_shield.Model.Kinds.{Mode, FirewallCounters, learning, Mode-discrete}
use open_shield.Model.LearnedEndpoint.{LearnedApplicationEndpoint}
use open_shield.State.Admission.{ApplicationLearningAdmission, classify}
use open_shield.Protocol.Errors.{ProtocolError, protocol_error, invalid_request}
use open_shield.Engine.Data.{
  Engine, LearningPersistence, persistence_active, in_flight, persistence_paused,
  LearningQueueAdmission,
}
use open_shield.Engine.Outside.{Outside}
use open_shield.Engine.QueueAdmission.{
  record_learning_quota_skipped, count_skipped, admission_in_use, classify_observation, is_current,
  admit_unless_paused, application_learning_queue_admission,
}
use open_shield.Engine.Reports.{publish_counters_if_current}
use open_shield.Model.Rule.{Instant}
use open_shield.Engine.Agreement.Bookkeeping.{ledger}

module _ (o : Outside) (e : Engine) where
  record KeepsLedger (r : Result ProtocolError LearningQueueAdmission × Engine) : Type 0 where
    kept : ledger r.1 ≡ ledger e

  ledger-count_skipped :
      (verdict : ApplicationLearningAdmission) → ledger (count_skipped o verdict e) ≡ ledger e
  unfolding record_learning_quota_skipped
  ledger-count_skipped ApplicationLearningAdmission.already_known = refl
  ledger-count_skipped ApplicationLearningAdmission.saturated = refl
  ledger-count_skipped ApplicationLearningAdmission.candidate = refl

  classify-KeepsLedger :
      (endpoint : LearnedApplicationEndpoint) → KeepsLedger (classify_observation o endpoint e)
  unfolding classify_observation
  classify-KeepsLedger endpoint =
      lift_cases KeepsLedger (admission_in_use o e.learning_persistence e) _ e
        (λ _. record { kept = refl })
        λ index _.
          lift_cases KeepsLedger
            (map_err (λ f. protocol_error invalid_request (o.describe_application f))
              (classify o.external index endpoint))
            _ e (λ _. record { kept = refl })
            λ verdict _. record { kept = ledger-count_skipped verdict }

  admit-KeepsLedger :
      (endpoint : LearnedApplicationEndpoint) (l : LearningPersistence)
      → KeepsLedger (admit_unless_paused o endpoint l e)
  admit-KeepsLedger endpoint persistence_active = classify-KeepsLedger endpoint
  admit-KeepsLedger endpoint (in_flight _) = classify-KeepsLedger endpoint
  admit-KeepsLedger endpoint persistence_paused = record { kept = refl }

  pub ledger-admission :
      (mode : Mode) (generation : ℕ) (endpoint : LearnedApplicationEndpoint)
      → ledger (application_learning_queue_admission o mode generation endpoint e).1 ≡ ledger e
  unfolding application_learning_queue_admission
  ledger-admission mode generation endpoint =
      (lift_cases KeepsLedger (reject_if (e.fatal || e.poisoned) _) _ e
        (λ _. record { kept = refl })
        λ _ _.
          lift_cases KeepsLedger
            (reject_if
              (not (same Mode-discrete mode learning)
                || not (same Mode-discrete e.state.mode mode)
                || not (e.state.flow_generation == generation))
              _)
            _ e (λ _. record { kept = refl })
            λ _ _.
              lift_cases KeepsLedger
                (reject_if (not (is_current o e.application_learning_admission e.state)) _) _ e
                (λ _. record { kept = refl })
                λ _ _. admit-KeepsLedger endpoint e.learning_persistence).kept

pub ledger-counters :
    (revision : ℕ) (counters : FirewallCounters) (now : Instant) (e : Engine)
    → ledger (publish_counters_if_current revision counters now e).1 ≡ ledger e
unfolding publish_counters_if_current
ledger-counters revision counters now e =
    if_cases (λ (r : Bool × Engine). ledger r.1 ≡ ledger e)
      (e.poisoned || not (e.state.revision == revision)) _ _ (λ _. refl) (λ _. refl)
