-- ===== src/Engine/Data.antt =====
-- The state of `Engine` in crates/openshield-daemon/src/engine.rs.
use open_shield.Base.{ℕ, Bool, Option, List}
use open_shield.Base.Words.{u64_max, saturating_add}
use open_shield.State.Data.{State, Event}
use open_shield.State.Keys.{LearningLimits}
use open_shield.State.Admission.{ApplicationLearningAdmissionIndex}
use open_shield.Attribution.DecisionPolicy.{ApplicationDecisionPolicy}
use open_shield.Protocol.Responses.{NfqueueCounters}
use open_shield.Engine.Bus.{EventBus}

pub data StartupPolicy : Type 0 where
  startup_pending startup_active : StartupPolicy

-- A `match` or a test on the startup policy, with its two branches.
abbrev pub by_startup : {A : Type 0} → StartupPolicy → A → A → A
by_startup startup_pending pending active = pending
by_startup startup_active pending active = active

pub data LearningPersistence : Type 0 where
  persistence_active : LearningPersistence
  in_flight : ℕ → LearningPersistence
  persistence_paused : LearningPersistence

pub data LearningQueueAdmission : Type 0 where
  enqueues knows_already is_saturated is_paused : LearningQueueAdmission

pub data PersistedStateAfterFailure : Type 0 where
  is_previous is_candidate_or_unknown : PersistedStateAfterFailure

pub data LearningStoreOutcome : Type 0 where
  saved previous_retained unsafe : LearningStoreOutcome

pub record ApplicationLearningTransaction : Type 0 where
  pub token : ℕ
  pub previous : State
  pub candidate : State
  pub events : List Event

pub record PersistedApplicationLearning : Type 0 where
  pub transaction : ApplicationLearningTransaction
  pub outcome : LearningStoreOutcome

-- `SaturatingCounter` is its value; `increment` is `fetch_update` with `saturating_add`.
abbrev pub increment : ℕ → ℕ
increment value = saturating_add u64_max value 1

-- The fields of `Engine` beside its backend and its store; the time of the last warning is left out.
pub record Engine : Type 0 where
  pub state : State
  pub learning_limits : LearningLimits
  pub quota_skipped_observations : ℕ
  pub application_policy : ApplicationDecisionPolicy
  pub application_learning_admission : ApplicationLearningAdmissionIndex
  pub pending_application_learning_admission : Option ApplicationLearningAdmissionIndex
  pub pending_application_learning_candidate : Option State
  pub pending_application_learning_events : List Event
  pub events : EventBus
  pub nfqueue_counters : NfqueueCounters
  pub poisoned : Bool
  pub fatal : Bool
  pub restart_required : Bool
  pub startup_policy : StartupPolicy
  pub learning_persistence : LearningPersistence
  pub next_learning_transaction : ℕ
  pub superseded_learning_transaction : Option ℕ
