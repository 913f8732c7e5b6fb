-- ===== src/Attribution/DecisionPolicy/Capture.antt =====
-- `IdentityCaptureRequirements` of crates/openshield-daemon/src/application.rs: which fields of a
-- process the rules that may match a connection look at.
pub mod Coverage
pub mod Fields
pub mod Denying
pub mod Enforcing
use open_shield.Base.{
  ◌≡◌, refl, sym, ap, ◌∙◌, ℕ, Bool, true, false, ◌&&◌, ◌||◌, not, Option, none, some, List, [], ◌∷◌,
  keep, All, arith, is_some, is_none_or, is_some_and, same, if◌then◌else◌, if_cases,
}
use open_shield.Application.CommandLine
use open_shield.Application.Selector
use open_shield.Application.Selector.{ApplicationSelector, ApplicationIdentity}
use open_shield.Model.Kinds.{
  EnforcementStrategy, strict, fast, learned, accept, RuleOrigin-discrete, RuleAction-discrete,
}
use open_shield.Model.Address.{IpAddr, IpNet}
use open_shield.Model.Rule.{Rule}
use open_shield.Attribution.DecisionPolicy.{
  OutboundConnection, ApplicationDecisionPolicy, application_rule_network_and_uid_matches,
  application_rule_matches, is_deny, rules_at, push_some, get_elem?, positions, candidates, min_by,
  decides_before, matching_deny_rule,
}

pub record IdentityCaptureRequirements : Type 0 where
  pub command_line : Bool
  pub cgroups : Bool

abbrev pub minimal : IdentityCaptureRequirements
minimal = record { command_line = false; cgroups = false }

-- The two `|=`.
abbrev pub require : ApplicationSelector → IdentityCaptureRequirements → IdentityCaptureRequirements
require selector r = record {
  command_line = r.command_line || is_some selector.command_line;
  cgroups = r.cgroups || is_some selector.cgroup;
}

-- The rest of a pass of the loop, for a rule that may match: whether a candidate was found, and the
-- requirements so far.
abbrev pub visit :
    Bool
    → Option ApplicationSelector
    → Bool × IdentityCaptureRequirements
    → Bool × IdentityCaptureRequirements
visit stable none found = found
visit stable (some selector) found = (true, if stable then found.1 else require selector found.1)

unfoldable pub capture :
    (Rule → Bool)
    → (Rule → Bool)
    → List Rule
    → Bool × IdentityCaptureRequirements
    → Bool × IdentityCaptureRequirements
capture relevant stable [] found = found
capture relevant stable (rule ∷ rest) found =
    capture relevant stable rest
      (if relevant rule then visit (stable rule) rule.spec.application found else found)

-- `candidate_found.then_some(requirements)`
abbrev pub then_some : Bool × IdentityCaptureRequirements → Option IdentityCaptureRequirements
then_some found = if found.0 then some found.1 else none

-- `stable_fast_learning_accept`
abbrev pub is_stable_accept : EnforcementStrategy → Rule → Bool
is_stable_accept strict rule = false
is_stable_accept fast rule =
    same RuleOrigin-discrete rule.spec.origin learned
    && same RuleAction-discrete rule.spec.action accept

unfoldable pub enforcement_capture_requirements :
    (IpNet → IpAddr → Bool)
    → ApplicationDecisionPolicy
    → OutboundConnection
    → Option IdentityCaptureRequirements
unfolding capture application_rule_network_and_uid_matches
enforcement_capture_requirements contains policy connection = then_some (
    capture (λ rule. application_rule_network_and_uid_matches contains rule connection)
      (is_stable_accept policy.enforcement_strategy) policy.snapshot.rules (false, minimal))

unfoldable pub deny_capture_requirements :
    (IpNet → IpAddr → Bool)
    → ApplicationDecisionPolicy
    → OutboundConnection
    → Option IdentityCaptureRequirements
unfolding capture application_rule_network_and_uid_matches
deny_capture_requirements contains policy connection = then_some (
    capture
      (λ rule. is_deny rule && application_rule_network_and_uid_matches contains rule connection)
      (λ _. false) policy.snapshot.rules (false, minimal))

-- What is captured of a process: a field that is not required stays empty.
abbrev pub captured : IdentityCaptureRequirements → ApplicationIdentity → ApplicationIdentity
captured r identity = record identity {
  command_line = if r.command_line then identity.command_line else [];
  cgroups = if r.cgroups then identity.cgroups else [];
}
