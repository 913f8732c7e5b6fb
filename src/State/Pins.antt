-- ===== src/State/Pins.antt =====
-- Which application rules may be persisted: crates/openshield-core/src/state.rs,
-- `reject_redacted_spec`, `reject_unpinned_application_spec` and what they rest on.
use open_shield.Base.{
  Bool, ◌&&◌, ◌||◌, not, Option, none, some, is_some, is_none, is_some_and, same, if◌then◌else◌,
}
use open_shield.Base.Outcome.{Result, reject_if}
use open_shield.Application.Selector.{ApplicationSelector}
use open_shield.Model.Kinds.{
  outbound, any, template, accept, Direction-discrete, TransportProtocol-discrete,
  RuleOrigin-discrete, RuleAction-discrete,
}
use open_shield.Model.RuleSpec.{RuleSpec}
use open_shield.Model.Rule.{Rule}
use open_shield.State.Data.{CoreError, redacted_application_metadata, unpinned_application_identity}

unfoldable pub reject_redacted_spec : RuleSpec → Result CoreError Unit
reject_redacted_spec spec =
    reject_if (is_some_and spec.application (λ selector. selector.metadata_redacted))
      redacted_application_metadata

unfoldable pub reject_redacted_rule : Rule → Result CoreError Unit
unfolding reject_redacted_spec
reject_redacted_rule rule = reject_redacted_spec rule.spec

unfoldable pub is_unpinned_application_template : RuleSpec → Bool
is_unpinned_application_template spec = is_some_and spec.application λ selector.
    same RuleOrigin-discrete spec.origin template
    && not spec.enabled
    && same RuleAction-discrete spec.action accept
    && same Direction-discrete spec.direction outbound
    && same TransportProtocol-discrete spec.protocol any
    && is_none spec.peer_network
    && is_none spec.port
    && is_none spec.interface
    && is_some selector.executable
    && is_none selector.executable_file
    && is_none selector.command_line
    && is_none selector.uid
    && not selector.metadata_redacted

unfoldable pub reject_unpinned_application_spec : RuleSpec → Result CoreError Unit
unfolding is_unpinned_application_template
reject_unpinned_application_spec spec =
    reject_if
      (is_some_and spec.application (λ selector. is_none selector.executable_file)
        && not (is_unpinned_application_template spec))
      unpinned_application_identity

abbrev pub clear_pin : ApplicationSelector → ApplicationSelector
clear_pin selector =
    if is_some selector.executable
      && is_none selector.command_line
      && is_none selector.uid
      && not selector.metadata_redacted
    then record selector { executable_file = none }
    else selector

abbrev pub clear_selector_pin : Option ApplicationSelector → Option ApplicationSelector
clear_selector_pin none = none
clear_selector_pin (some selector) = some (clear_pin selector)

unfoldable pub clear_disabled_template_pin_if_skeleton : RuleSpec → RuleSpec
clear_disabled_template_pin_if_skeleton spec =
    if not (same RuleOrigin-discrete spec.origin template)
      || spec.enabled
      || not (same RuleAction-discrete spec.action accept)
      || not (same Direction-discrete spec.direction outbound)
      || not (same TransportProtocol-discrete spec.protocol any)
      || is_some spec.peer_network
      || is_some spec.port
      || is_some spec.interface
    then spec
    else record spec { application = clear_selector_pin spec.application }
