-- ===== src/State/Admission.antt =====
-- `ApplicationLearningAdmissionIndex` of crates/openshield-core/src/state.rs: what the daemon asks
-- before it queues an observation.
pub mod Index
pub mod Verdict
pub mod Slots
pub mod Agreement
use open_shield.Base.{
  ℕ, ◌+◌, Bool, true, false, ◌||◌, not, Option, none, some, List, [], ◌∷◌, length, leb, ltb,
  count_if, if◌then◌else◌,
}
use open_shield.Base.Words.{usize_max, saturating_add}
use open_shield.Base.Outcome.{Result, ok, err, ◌>>=◌, ◌>>◌, ok_or}
use open_shield.BTree.{values}
use open_shield.Application.Failure.{
  ApplicationValidationError, incomplete_learned_application_identity,
}
use open_shield.Model.Kinds.{Mode}
use open_shield.Model.Rule.{Rule}
use open_shield.Model.LearnedEndpoint.{LearnedApplicationEndpoint, validate_application_endpoint}
use open_shield.State.Data.{State, max_rules, max_automatic_learned_rules}
use open_shield.State.External.{External}
use open_shield.State.Keys.{
  LearningLimits, LearnedRuleKey, LearnedRuleKey-discrete, ApplicationTemplateKey,
  ApplicationTemplateKey-discrete, key_of_application_endpoint, key_of_rule, template_of_rule,
  is_automatic_rule, is_learned_outbound, knows,
}
use open_shield.State.Learning.Applications.{
  Tally, no_rules, tally_one, tally_application, is_saturated, required_slots,
}

pub data ApplicationLearningAdmission : Type 0 where
  already_known : ApplicationLearningAdmission
  saturated : ApplicationLearningAdmission
  candidate : ApplicationLearningAdmission

pub record LearningQuotaSummary : Type 0 where
  pub automatic_rules : ℕ
  pub saturated_uids : ℕ
  pub saturated_applications : ℕ

pub record ApplicationLearningAdmissionIndex : Type 0 where
  pub limits : LearningLimits
  pub revision : ℕ
  pub flow_generation : ℕ
  pub mode : Mode
  pub total_rule_count : ℕ
  pub learned_rule_count : ℕ
  pub known : List LearnedRuleKey
  pub known_templates : List ApplicationTemplateKey
  pub tally : Tally

-- The variables of the loop of `from_state`.
pub record Scan : Type 0 where
  pub known : List LearnedRuleKey
  pub known_templates : List ApplicationTemplateKey
  pub learned_rule_count : ℕ
  pub tally : Tally

abbrev pub scan_template : Scan → Option ApplicationTemplateKey → Scan
scan_template p none = p
scan_template p (some key) = record p { known_templates = key ∷ p.known_templates }

abbrev pub scan_learned : Scan → Rule → Scan
scan_learned p rule = record p {
  known = key_of_rule rule ∷ p.known;
  tally = tally_application p.tally rule.spec.application;
}

unfoldable pub scan_rule : Scan → Rule → Scan
scan_rule p rule =
    let q =
      scan_template (record p { learned_rule_count = p.learned_rule_count + 1 })
        (template_of_rule rule) in
    if not (is_automatic_rule rule)
    then p
    else if is_learned_outbound rule
    then scan_learned q rule
    else q

unfoldable pub scan_rules : Scan → List Rule → Scan
unfolding scan_rule
scan_rules p [] = p
scan_rules p (rule ∷ rest) = scan_rules (scan_rule p rule) rest

abbrev pub scan_start : Scan
scan_start = record { known = []; known_templates = []; learned_rule_count = 0; tally = no_rules }

unfoldable pub from_state : State → LearningLimits → ApplicationLearningAdmissionIndex
unfolding scan_rules
from_state s limits =
    let p = scan_rules scan_start (values s.rules) in
    record {
      limits = limits;
      revision = s.revision;
      flow_generation = s.flow_generation;
      mode = s.mode;
      total_rule_count = length s.rules;
      learned_rule_count = p.learned_rule_count;
      known = p.known;
      known_templates = p.known_templates;
      tally = p.tally;
    }

unfoldable pub summary : ApplicationLearningAdmissionIndex → LearningQuotaSummary
summary index = record {
  automatic_rules = index.learned_rule_count;
  saturated_uids = count_if (λ e. leb index.limits.per_uid e.1) index.tally.per_uid;
  saturated_applications =
      count_if (λ e. leb index.limits.per_application e.1) index.tally.per_application;
}

-- `required_slots` do not fit below either limit.
abbrev pub is_full : ApplicationLearningAdmissionIndex → ℕ → Bool
is_full index slots =
    ltb max_rules (saturating_add usize_max index.total_rule_count slots)
    || ltb max_automatic_learned_rules (saturating_add usize_max index.learned_rule_count slots)

-- `classify` for an endpoint that is not known.
unfoldable pub classify_unknown :
    ApplicationLearningAdmissionIndex
    → LearnedApplicationEndpoint
    → Result ApplicationValidationError ApplicationLearningAdmission
classify_unknown index endpoint = do
  executable ← ok_or incomplete_learned_application_identity endpoint.application.executable
  let template_key : ApplicationTemplateKey = record {
    executable = executable;
    cgroup = endpoint.application.cgroup;
  }
  let slots =
      required_slots
        (not (knows ApplicationTemplateKey-discrete template_key index.known_templates))
  let budgets : Result ApplicationValidationError ApplicationLearningAdmission = do
    uid ← ok_or incomplete_learned_application_identity endpoint.application.uid
    file ← ok_or incomplete_learned_application_identity endpoint.application.executable_file
    ok (if is_saturated index.limits index.tally uid file then saturated else candidate)
  if is_full index slots then ok saturated else budgets

unfoldable pub classify :
    External
    → ApplicationLearningAdmissionIndex
    → LearnedApplicationEndpoint
    → Result ApplicationValidationError ApplicationLearningAdmission
unfolding classify_unknown
classify x index endpoint = do
  validate_application_endpoint endpoint
  (if knows LearnedRuleKey-discrete (key_of_application_endpoint x endpoint) index.known
      then ok already_known
      else classify_unknown index endpoint)
