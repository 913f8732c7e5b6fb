-- ===== src/State/Equality.antt =====
-- The derived equality of rules and of the policy, of crates/openshield-core/src/model.rs and
-- crates/openshield-core/src/state.rs.
use open_shield.Base.{ℕ_discrete}
use open_shield.Application.Selector.{ApplicationSelector-discrete}
use open_shield.Model.Kinds.{
  EnforcementStrategy, Mode-discrete, Direction-discrete, TransportProtocol-discrete,
  RuleOrigin-discrete, RuleAction-discrete,
}
use open_shield.Model.RuleName.{RuleName-discrete}
use open_shield.Model.InterfaceName.{InterfaceName-discrete}
use open_shield.Model.PortRange.{PortRange-discrete}
use open_shield.Model.Address.{IpNet-discrete}
use open_shield.Model.RuleSpec.{RuleSpec}
use open_shield.Model.Rule.{Rule}
use open_shield.State.Data.{State}

unfoldable pub EnforcementStrategy-discrete : Discrete EnforcementStrategy
EnforcementStrategy-discrete = hlevel

unfoldable pub RuleSpec-discrete : Discrete RuleSpec
RuleSpec-discrete = hlevel (
  RuleName-discrete, Direction-discrete, RuleAction-discrete, TransportProtocol-discrete,
  IpNet-discrete, PortRange-discrete, InterfaceName-discrete, ApplicationSelector-discrete,
  RuleOrigin-discrete,
)

unfoldable pub Rule-discrete : Discrete Rule
Rule-discrete = hlevel (ℕ_discrete, RuleSpec-discrete)

unfoldable pub State-discrete : Discrete State
State-discrete = hlevel (ℕ_discrete, Mode-discrete, EnforcementStrategy-discrete, Rule-discrete)
