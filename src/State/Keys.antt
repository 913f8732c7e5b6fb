-- ===== src/State/Keys.antt =====
-- What automatic learning compares: `LearnedRuleKey` and `ApplicationTemplateKey` of
-- crates/openshield-core/src/state.rs, with `LearningLimits` of
-- crates/openshield-core/src/learning_limits.rs.
use open_shield.Base.{
  ℕ, Bool, true, false, ◌&&◌, ◌||◌, not, Option, none, some, List, [], ◌∷◌, ltb, ◌==◌, same, any,
  if◌then◌else◌,
}
use open_shield.Base.Outcome.{Result, ok, ◌>>=◌, ◌>>◌, reject_if, ok_or, to_option}
use open_shield.Application.Failure.{application_selector_needs_executable}
use open_shield.Application.ApplicationPath.{ApplicationPath, ApplicationPath-discrete}
use open_shield.Application.CgroupPath.{CgroupPath, CgroupPath-discrete}
use open_shield.Application.Selector.{ApplicationSelector, ApplicationSelector-discrete}
use open_shield.Model.Kinds.{
  TransportProtocol, TransportProtocol-discrete, outbound, Direction-discrete, RuleOrigin, learned,
  template, manual, RuleOrigin-discrete,
}
use open_shield.Model.Failure.{ValidationError, invalid_application_selector}
use open_shield.Model.InterfaceName.{InterfaceName, InterfaceName-discrete}
use open_shield.Model.PortRange.{PortRange, PortRange-discrete}
use open_shield.Model.Address.{IpNet, IpNet-discrete}
use open_shield.Model.RuleSpec.{RuleSpec}
use open_shield.Model.Rule.{Rule}
use open_shield.Model.LearnedEndpoint.{LearnedEndpoint, LearnedApplicationEndpoint}
use open_shield.State.Data.{max_automatic_learned_rules}
use open_shield.State.External.{External}

pub record LearningLimits : Type 0 where
  pub per_uid : ℕ
  pub per_application : ℕ

pub data LearningLimitsError : Type 0 where
  learning_limits_error : LearningLimitsError

unfoldable pub new_limits : ℕ → ℕ → Result LearningLimitsError LearningLimits
new_limits per_uid per_application = do
  reject_if
      (per_application == 0
        || ltb per_uid per_application
        || ltb max_automatic_learned_rules per_uid)
      learning_limits_error
  ok (record { per_uid = per_uid; per_application = per_application })

abbrev pub default_limits : LearningLimits
default_limits = record { per_uid = 4_096; per_application = 1_024 }

pub record LearnedRuleKey : Type 0 where
  pub protocol : TransportProtocol
  pub peer_network : Option IpNet
  pub port : Option PortRange
  pub interface : Option InterfaceName
  pub application : Option ApplicationSelector

unfoldable pub LearnedRuleKey-discrete : Discrete LearnedRuleKey
LearnedRuleKey-discrete = hlevel (
  TransportProtocol-discrete, IpNet-discrete, PortRange-discrete, InterfaceName-discrete,
  ApplicationSelector-discrete,
)

pub record ApplicationTemplateKey : Type 0 where
  pub executable : ApplicationPath
  pub cgroup : Option CgroupPath

unfoldable pub ApplicationTemplateKey-discrete : Discrete ApplicationTemplateKey
ApplicationTemplateKey-discrete = hlevel (ApplicationPath-discrete, CgroupPath-discrete)

unfoldable pub key_of_endpoint : External → LearnedEndpoint → LearnedRuleKey
key_of_endpoint x endpoint = record {
  protocol = endpoint.protocol;
  peer_network = some (x.ip_net_from endpoint.address);
  port = endpoint.port;
  interface = endpoint.interface;
  application = none;
}

unfoldable pub key_of_application_endpoint : External → LearnedApplicationEndpoint → LearnedRuleKey
key_of_application_endpoint x item = record {
  protocol = item.endpoint.protocol;
  peer_network = some (x.ip_net_from item.endpoint.address);
  port = item.endpoint.port;
  interface = item.endpoint.interface;
  application = some item.application;
}

unfoldable pub key_of_spec : RuleSpec → LearnedRuleKey
key_of_spec spec = record {
  protocol = spec.protocol;
  peer_network = spec.peer_network;
  port = spec.port;
  interface = spec.interface;
  application = spec.application;
}

-- `LearnedRuleKey::from_rule`
unfoldable pub key_of_rule : Rule → LearnedRuleKey
unfolding key_of_spec
key_of_rule rule = key_of_spec rule.spec

-- `ApplicationTemplateKey::from_selector`
unfoldable pub template_of_selector :
    ApplicationSelector → Result ValidationError ApplicationTemplateKey
template_of_selector selector = do
  executable ←
      ok_or (invalid_application_selector application_selector_needs_executable) selector.executable
  ok (record { executable = executable; cgroup = selector.cgroup })

-- `ApplicationTemplateKey::from_template`, from the application of the rule on.
abbrev pub template_of : RuleSpec → Option ApplicationSelector → Option ApplicationTemplateKey
template_of spec none = none
template_of spec (some selector) =
    if not (same RuleOrigin-discrete spec.origin template)
      || not (same Direction-discrete spec.direction outbound)
      || selector.metadata_redacted
    then none
    else to_option (template_of_selector selector)

unfoldable pub template_of_rule : Rule → Option ApplicationTemplateKey
unfolding template_of_selector
template_of_rule rule = template_of rule.spec rule.spec.application

-- `matches!(rule.spec.origin, RuleOrigin::Learned | RuleOrigin::Template)`
abbrev pub is_automatic_origin : RuleOrigin → Bool
is_automatic_origin manual = false
is_automatic_origin learned = true
is_automatic_origin template = true

abbrev pub is_automatic_rule : Rule → Bool
is_automatic_rule rule = is_automatic_origin rule.spec.origin

-- The filter that every learning function applies first.
abbrev pub is_learned_outbound : Rule → Bool
is_learned_outbound rule =
    same RuleOrigin-discrete rule.spec.origin learned
    && same Direction-discrete rule.spec.direction outbound

-- A `HashSet` is the list of what was inserted; only membership is asked of it.
abbrev pub knows {ℓ} : {K : Type ℓ} → Discrete K → K → List K → Bool
knows d key keys = any (λ k. same d k key) keys

-- `filter_map(template_of_rule).collect()`
unfoldable pub templates_of : List Rule → List ApplicationTemplateKey
unfolding template_of_rule
templates_of [] = []
templates_of (rule ∷ rest) = elim (template_of_rule rule) [
  | none ↦ templates_of rest
  | some key ↦ key ∷ templates_of rest
]
