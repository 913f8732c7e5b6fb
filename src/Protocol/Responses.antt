-- ===== src/Protocol/Responses.antt =====
-- `Response` and its parts, of crates/openshield-protocol/src/lib.rs.
use open_shield.Base.{ℕ, Bool, ◌||◌, not, Option, List, leb, ◌==◌, min, max}
use open_shield.Model.Kinds.{Mode, EnforcementStrategy}
use open_shield.Model.Rule.{Rule, Uuid}
use open_shield.State.Data.{Event}
use open_shield.Protocol.Errors.{ProtocolError}
use open_shield.Protocol.Compatibility.{FirewallBackendKind, RuntimeCompatibility}

pub record NfqueueCounters : Type 0 where
  pub queue_overflow : ℕ
  pub attribution_timeout : ℕ
  pub terminal_queue_error : ℕ
  pub denied : ℕ

pub record LearningStatus : Type 0 where
  pub per_uid_limit : ℕ
  pub per_application_limit : ℕ
  pub automatic_rule_limit : ℕ
  pub total_rule_limit : ℕ
  pub automatic_rules : ℕ
  pub saturated_uids : ℕ
  pub saturated_applications : ℕ
  pub quota_skipped_observations : ℕ

unfoldable pub needs_attention : LearningStatus → ℕ → Bool
needs_attention s total_rules =
    not (s.saturated_uids == 0)
    || not (s.saturated_applications == 0)
    || leb s.automatic_rule_limit s.automatic_rules
    || leb s.total_rule_limit total_rules
    || not (s.quota_skipped_observations == 0)

pub record Ack : Type 0 where
  pub revision : ℕ
  pub affected_rule : Option Rule

-- The fields of `Response::Status`.
pub record Status : Type 0 where
  pub revision : ℕ
  pub mode : Mode
  pub rule_count : ℕ
  pub backend : FirewallBackendKind
  pub nfqueue : NfqueueCounters

-- What the later versions of the status add, one after another.
pub data Response : Type 0 where
  status : Status → Response
  status_v2 : Status → RuntimeCompatibility → Response
  status_v3 : Status → RuntimeCompatibility → LearningStatus → Response
  status_v4 : Status → RuntimeCompatibility → LearningStatus → EnforcementStrategy → Response
  rules_page : ℕ → List Rule → Option Uuid → Response
  acknowledged : Ack → Response
  announces : Event → Response
  fails : ProtocolError → Response

abbrev pub max_rules_per_page : ℕ
max_rules_per_page = 128

unfoldable pub clamp_page_limit : ℕ → ℕ
clamp_page_limit limit = min (max limit 1) max_rules_per_page
