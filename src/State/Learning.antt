-- ===== src/State/Learning.antt =====
-- The automatic learning of rules, of crates/openshield-core/src/state.rs.
pub mod Growth
pub mod Insertion
pub mod Endpoints
pub mod Applications
pub mod Templates
use open_shield.Base.{
  ℕ, suc, ◌+◌, ◌-◌, min, Bool, true, false, ◌||◌, not, Option, none, some, List, [], ◌∷◌, ◌++◌, map,
  length, take, keep, find, count_if, leb, ltb, ◌==◌, same, if◌then◌else◌, ℕ_discrete, all,
}
use open_shield.Base.Words.{usize_max, saturating_add}
use open_shield.Base.Outcome.{Result, ok, err, reject_if, map_err, ok_or}
use open_shield.Base.Exec.{Exec, pure, lift, self, modify, continue, ◌>>=◌, ◌>>◌}
use open_shield.Base.Text.{Text, codes}
use open_shield.Base.Decimal.{to_string}
use open_shield.BTree
use open_shield.BTree.{values}
use open_shield.Application.Failure.{incomplete_learned_application_identity}
use open_shield.Application.FileId.{ExecutableFileId, ExecutableFileId-discrete}
use open_shield.Application.Selector
use open_shield.Application.Selector.{ApplicationSelector}
use open_shield.Model.Kinds.{outbound, any, accept, learned, template, protocol_name}
use open_shield.Model.Failure.{ValidationError, invalid_application_selector}
use open_shield.Model.RuleName
use open_shield.Model.PortRange.{PortRange}
use open_shield.Model.RuleSpec
use open_shield.Model.RuleSpec.{RuleSpec}
use open_shield.Model.Rule.{Rule, Uuid, Instant}
use open_shield.Model.LearnedEndpoint
use open_shield.Model.LearnedEndpoint.{
  LearnedEndpoint, LearnedApplicationEndpoint, validate_application_endpoint,
}
use open_shield.State.Data.{
  State, Event, CoreError, validation, rules_limit_reached, max_rules, max_automatic_learned_rules,
  max_state_bytes,
}
use open_shield.State.External.{External, Draws, later}
use open_shield.State.Size.{bounded_serialized_state_size, serialized_rule_map_entry_delta}
use open_shield.State.Mutation.{create_rule_at, check_spec}
use open_shield.State.Keys.{
  LearningLimits, default_limits, LearnedRuleKey, LearnedRuleKey-discrete, ApplicationTemplateKey,
  ApplicationTemplateKey-discrete, key_of_endpoint, key_of_application_endpoint, key_of_rule,
  template_of_selector, templates_of, is_automatic_rule, is_learned_outbound, knows,
}
use open_shield.State.Counts.{count_of, bump}

pub record LearnOutcome : Type 0 where
  pub rule : Rule
  pub event : Option Event

-- `:port`, `:start-end`, or nothing.
abbrev pub port_suffix : Option PortRange → Text
port_suffix none = []
port_suffix (some port) =
    if port.start == port.end
    then codes ":" ++ to_string port.start
    else codes ":" ++ (to_string port.start ++ (codes "-" ++ to_string port.end))

unfoldable pub learned_name : External → LearnedEndpoint → Text
unfolding to_string
learned_name x endpoint =
    codes "learned "
    ++ (protocol_name endpoint.protocol
        ++ (codes " " ++ (x.display_address endpoint.address ++ port_suffix endpoint.port)))

-- The outcome of a created rule, with its event.
abbrev pub outcome_of :
    Result CoreError (Rule × Event) × State → Result CoreError LearnOutcome × State
outcome_of (ok (rule, event), s) = (ok (record { rule = rule; event = some event }), s)
outcome_of (err e, s) = (err e, s)

-- `create_rule`, with the identifier and the time that it draws.
unfoldable pub create_learned : Draws → RuleSpec → Exec CoreError State LearnOutcome
create_learned draws spec s = outcome_of (create_rule_at (draws 0).0 spec (draws 0).1 s)

-- The specification that `insert_learned_endpoint` builds.
unfoldable pub learned_spec :
    External → LearnedEndpoint → Option ApplicationSelector → Result CoreError RuleSpec
unfolding learned_name
learned_spec x endpoint application =
    elim (map_err validation (RuleName.new (learned_name x endpoint))) [
      | err e ↦ err e
      | ok name ↦
          elim (map_err validation (
            RuleSpec.new name outbound endpoint.protocol (some (x.ip_net_from endpoint.address))
              endpoint.port endpoint.interface learned true)) [
                | err e ↦ err e
                | ok spec ↦ ok (record spec { action = accept; application = application })
              ]
    ]

unfoldable pub insert_learned_endpoint :
    External
    → Draws
    → LearnedEndpoint
    → Option ApplicationSelector
    → Exec CoreError State LearnOutcome
insert_learned_endpoint x draws endpoint application = do
  spec ← lift (learned_spec x endpoint application)
  lift (check_spec spec)
  create_learned draws spec

-- The disabled application-wide skeleton.
abbrev pub template_spec : RuleName.RuleName → ApplicationSelector → RuleSpec
template_spec name application = record {
  name = name;
  direction = outbound;
  action = accept;
  protocol = any;
  peer_network = none;
  port = none;
  interface = none;
  application = some application;
  origin = template;
  enabled = false;
}

-- `ApplicationSelector::new` of a group, with the conversions of its error.
unfoldable pub template_selector : ApplicationTemplateKey → Result CoreError ApplicationSelector
template_selector key =
    map_err (λ e. validation (invalid_application_selector e))
      (Selector.new (some key.executable) none none none key.cgroup)

unfoldable pub template_name : Result CoreError RuleName.RuleName
template_name = map_err validation (RuleName.new (codes "application-wide template"))

unfoldable pub insert_application_group_template :
    Draws → ApplicationTemplateKey → Exec CoreError State LearnOutcome
unfolding template_selector template_name
insert_application_group_template draws key = do
  application ← lift (template_selector key)
  name ← lift template_name
  create_learned draws (template_spec name application)

-- `self.rules.values().filter(..).count()`
abbrev pub automatic_count : State → ℕ
automatic_count s = count_if is_automatic_rule (values s.rules)

abbrev pub known_keys : State → List LearnedRuleKey
known_keys s = map key_of_rule (keep is_learned_outbound (values s.rules))

abbrev pub room_for : ℕ → State → ℕ
room_for maximum_new s =
    min (min maximum_new (max_rules - length s.rules))
      (max_automatic_learned_rules - automatic_count s)

-- `for endpoint in &endpoints { endpoint.validate()?; }`
unfoldable pub validate_all :
    {A : Type 0} → (A → Result CoreError Unit) → List A → Result CoreError Unit
validate_all check [] = ok tt
validate_all check (a ∷ rest) = elim (check a) [ ok _ ↦ validate_all check rest | err e ↦ err e ]
