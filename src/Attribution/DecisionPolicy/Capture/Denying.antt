-- ===== src/Attribution/DecisionPolicy/Capture/Denying.antt =====
-- The denials that are found for what is captured while learning: crates/openshield-daemon/src/application.rs.
use open_shield.Base.{
  ◌≡◌, refl, sym, ap, ◌∙◌, Bool, true, false, ◌&&◌, Option, none, some, keep, All, arith, if_cases,
  Bool-cases, inl, inr,
}
use open_shield.Application.Selector.{ApplicationIdentity}
use open_shield.Model.Address.{IpAddr, IpNet}
use open_shield.Model.Rule.{Rule}
use open_shield.Attribution.DecisionPolicy.{
  OutboundConnection, ApplicationDecisionPolicy, application_rule_network_and_uid_matches,
  application_rule_matches, is_deny, candidates, min_by, decides_before, matching_deny_rule,
}
use open_shield.Attribution.DecisionPolicy.Capture.{
  IdentityCaptureRequirements, minimal, capture, deny_capture_requirements, captured,
}
use open_shield.Attribution.DecisionPolicy.Capture.Coverage.{Covers, capture-AreCovered}
use open_shield.Attribution.DecisionPolicy.Capture.Fields.{
  application-captured, unseen, keep-false, keep_same, All-keep, All-rules_at, All-into,
}

module _ (contains : IpNet → IpAddr → Bool) (policy : ApplicationDecisionPolicy)
    (connection : OutboundConnection) (identity : ApplicationIdentity) where
  deny_relevant : Rule → Bool
  deny_relevant rule =
      is_deny rule && application_rule_network_and_uid_matches contains rule connection

  -- The denial that the packet path finds: without requirements it looks at no process.
  pub denied_with : Option IdentityCaptureRequirements → Option Rule
  denied_with none = none
  denied_with (some r) = matching_deny_rule contains policy connection (captured r identity)

  deny_same :
      (found : Bool × IdentityCaptureRequirements) (rule : Rule)
      → (deny_relevant rule ≡ true → false ≡ false → Covers found rule.spec.application)
        × (is_deny rule ≡ true)
      → application_rule_matches contains connection (captured found.1 identity) rule
        ≡ application_rule_matches contains connection identity rule
  unfolding application_rule_matches deny_relevant
  deny_same found rule (covers, denies) =
      elim (Bool-cases (application_rule_network_and_uid_matches contains rule connection)) [
        | inr apart ↦ rw apart refl
        | inl fits ↦
            rw
              (application-captured found rule.spec.application identity
                (covers (ground (arith, denies, fits)) refl))
              refl
      ]

  -- What the loop finds of the denials.
  deny_found : Bool × IdentityCaptureRequirements
  deny_found = capture deny_relevant (λ _. false) policy.snapshot.rules (false, minimal)

  abbrev Covered : Rule → Type 0
  Covered rule = deny_relevant rule ≡ true → false ≡ false → Covers deny_found rule.spec.application

  denials-Covered :
      All (λ rule. Covered rule × (is_deny rule ≡ true)) (keep is_deny (candidates policy identity))
  unfolding candidates deny_found
  denials-Covered = All-keep Covered is_deny _ (
      All-rules_at Covered policy.snapshot.rules _
        (capture-AreCovered deny_relevant (λ _. false) policy.snapshot.rules (false, minimal)))

  -- The captured fields decide as the whole process does.
  deny-captured :
      matching_deny_rule contains policy connection (captured deny_found.1 identity)
      ≡ matching_deny_rule contains policy connection identity
  unfolding matching_deny_rule candidates
  deny-captured = ap (min_by decides_before) (
      keep_same (application_rule_matches contains connection (captured deny_found.1 identity))
        (application_rule_matches contains connection identity)
        (keep is_deny (candidates policy identity))
        (All-into (λ rule. Covered rule × (is_deny rule ≡ true)) _ _ (deny_same deny_found)
          denials-Covered))

  -- Without a candidate, no denial matches.
  deny_apart :
      (found : Bool × IdentityCaptureRequirements) (rule : Rule)
      → found.0 ≡ false
      → (deny_relevant rule ≡ true → false ≡ false → Covers found rule.spec.application)
        × (is_deny rule ≡ true)
      → application_rule_matches contains connection identity rule ≡ false
  unfolding application_rule_matches deny_relevant
  deny_apart found rule nothing (covers, denies) =
      elim (Bool-cases (application_rule_network_and_uid_matches contains rule connection)) [
        | inr apart ↦ rw apart refl
        | inl fits ↦
            rw
              (
                unseen found rule.spec.application identity nothing
                    (covers (ground (arith, denies, fits)) refl),
                fits,
              )
              refl
      ]

  deny_none : deny_found.0 ≡ false → matching_deny_rule contains policy connection identity ≡ none
  unfolding matching_deny_rule candidates min_by
  deny_none nothing = ap (min_by decides_before) (
      keep_same (application_rule_matches contains connection identity) (λ _. false)
        (keep is_deny (candidates policy identity))
        (All-into (λ rule. Covered rule × (is_deny rule ≡ true)) _ _
          (λ rule. deny_apart deny_found rule nothing) denials-Covered)
      ∙ keep-false (keep is_deny (candidates policy identity)))

  -- In either strategy the fields that the capture requirements of denials ask for suffice: the
  -- denial found for a process whose other fields were left empty is the one found for the whole
  -- process, and where nothing is required no denial matches any process.
  pub denied_with-deny_capture_requirements :
      denied_with (deny_capture_requirements contains policy connection)
      ≡ matching_deny_rule contains policy connection identity
  unfolding deny_capture_requirements denied_with deny_found deny_relevant
  denied_with-deny_capture_requirements =
      if_cases (λ o. denied_with o ≡ matching_deny_rule contains policy connection identity)
        deny_found.0 _ _ (λ _. deny-captured) (λ nothing. sym (deny_none nothing))
