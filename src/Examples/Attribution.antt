-- ===== src/Examples/Attribution.antt =====
-- Decisions about connections of `curl`, on a policy with a rule for it and a rule for the network.
use mathlib.Core.Option.{or_else}
use open_shield.Base.{◌≡◌, ◌↔◌, refl, Bool, true, false, ◌==◌, keep, ℕ_discrete, some, [], ◌∷◌}
use open_shield.Base.Outcome.{ok}
use open_shield.Base.Text.{Text-discrete, codes}
use open_shield.Model.Kinds.{fast, drop, tcp, Direction-discrete, TransportProtocol-discrete}
use open_shield.Model.Address.{IpAddr, IpNet}
use open_shield.Model.Rule.{Rule}
use open_shield.State.Data.{Snapshot, snapshot}
use open_shield.State.Pins.{reject_unpinned_application_spec}
use open_shield.Attribution.DecisionPolicy.{
  OutboundConnection, is_deny, min_by, is_older, fast_match, outbound_network_rule_matches, new,
  with_enforcement_strategy, matching_rule, matching_deny_rule,
}
use open_shield.Attribution.DecisionPolicy.Decisions.{matching_application_rule, matching_rule-scan}
use open_shield.Attribution.DecisionPolicy.Denials.{matching_deny_rule-decides}
use open_shield.Base.Words.{ℤ-discrete}
use open_shield.Application.ApplicationPath
use open_shield.Application.Characters.{is_unsafe_text_character}
use open_shield.Application.FileId
use open_shield.Application.FileId.{ExecutableFileId-discrete}
use open_shield.Application.Selector
use open_shield.Model.RuleSpec
use open_shield.Attribution.Pinning.{OsPath-discrete, Files, pin_rule_application}
use open_shield.Attribution.Pinning.Pinned.{PinsRule, pin_rule_application-PinsRule}
use open_shield.Attribution.DecisionPolicy.Capture.{
  deny_capture_requirements, enforcement_capture_requirements,
}
use open_shield.Attribution.DecisionPolicy.Capture.Enforcing.{
  decided_with, decided_with-enforcement_capture_requirements,
}
use open_shield.Attribution.DecisionPolicy.Capture.Denying.{
  denied_with, denied_with-deny_capture_requirements,
}
use open_shield.Fixtures.{
  curl_file, curl_selector, one_rule, curl_rule, curl_spec, drop_spec, curl_identity, eth0,
}

abbrev no_curl : Rule
no_curl = record curl_rule { id = 6; spec = record curl_spec { action = drop } }

abbrev any_host : Rule
any_host = record curl_rule { id = 7; spec = drop_spec }

abbrev rules : Snapshot
rules = record (snapshot one_rule) { rules = curl_rule ∷ no_curl ∷ any_host ∷ [] }

abbrev connection : OutboundConnection
connection = record {
  source_address = IpAddr.v4 1;
  source_port = some 5000;
  destination_address = IpAddr.v4 9;
  destination_port = some 443;
  protocol = tcp;
  output_interface = eth0;
  socket_uid = 1000;
}

abbrev contains : IpNet → IpAddr → Bool
contains (IpNet.v4 a) (IpAddr.v4 b) = a == b
contains _ _ = false

matching_rule-scan_example :
    matching_rule contains (with_enforcement_strategy fast (new rules)) connection curl_identity
    ≡ or_else
        (or_else
          (matching_application_rule contains rules connection curl_identity)
          (fast_match contains fast rules.rules connection curl_identity))
        (min_by is_older (keep (outbound_network_rule_matches contains connection) rules.rules))
unfolding reject_unpinned_application_spec
matching_rule-scan_example =
    matching_rule-scan contains connection curl_identity fast rules (refl, (refl, (refl, tt)))

matching_deny_rule-decides_example :
    (matching_deny_rule contains (new rules) connection curl_identity ≡ some no_curl) ↔ (
      (matching_rule contains (new rules) connection curl_identity ≡ some no_curl)
      × (is_deny no_curl ≡ true))
matching_deny_rule-decides_example =
    matching_deny_rule-decides contains connection curl_identity (new rules) no_curl

-- One executable at one path.
abbrev one_file : Files
one_file = record {
  canonicalize = λ _ path. ok path;
  open_file = λ _ _. ok (record { is_file = true; identity = curl_file });
  to_str = λ path. some path;
  describe_application = λ _. codes "application";
  describe_validation = λ _. codes "rule";
}

curl_pinned : pin_rule_application one_file curl_spec ≡ ok curl_spec
unfolding pin_rule_application FileId.validate OsPath-discrete ℕ_discrete ExecutableFileId-discrete
    ℤ-discrete ApplicationPath.new is_unsafe_text_character Text-discrete RuleSpec.validate
    Direction-discrete TransportProtocol-discrete Selector.validate
curl_pinned = refl

pin_rule_application-PinsRule_example : PinsRule one_file curl_spec curl_selector curl_spec
pin_rule_application-PinsRule_example =
    pin_rule_application-PinsRule one_file curl_spec curl_spec curl_selector refl curl_pinned

denied_with-deny_capture_requirements_example :
    denied_with contains
      (new rules)
      connection
      curl_identity
      (deny_capture_requirements contains (new rules) connection)
    ≡ matching_deny_rule contains (new rules) connection curl_identity
denied_with-deny_capture_requirements_example =
    denied_with-deny_capture_requirements contains (new rules) connection curl_identity

decided_with-enforcement_capture_requirements_example :
    decided_with contains
      (new rules)
      connection
      curl_identity
      (enforcement_capture_requirements contains (new rules) connection)
    ≡ matching_rule contains (new rules) connection curl_identity
unfolding new
decided_with-enforcement_capture_requirements_example =
    decided_with-enforcement_capture_requirements contains (new rules) connection curl_identity refl
