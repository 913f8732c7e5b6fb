-- ===== src/Attribution/DecisionPolicy/Capture/Enforcing.antt =====
-- The decisions that are made for what is captured while enforcing: crates/openshield-daemon/src/application.rs.
use mathlib.Core.Option.{or_else}
use open_shield.Base.{
  ◌≡◌, refl, ◌∙◌, Bool, true, false, Option, none, some, List, All, if_cases, Bool-cases, inl, inr,
}
use open_shield.Application.Selector.{ApplicationIdentity}
use open_shield.Model.Kinds.{EnforcementStrategy, strict, fast}
use open_shield.Model.Address.{IpAddr, IpNet}
use open_shield.Model.Rule.{Rule}
use open_shield.Attribution.DecisionPolicy.{
  OutboundConnection, ApplicationDecisionPolicy, application_rule_network_and_uid_matches,
  application_rule_matches, candidates, min_by, matching_rule, matching_network_accept, fast_match,
}
use open_shield.Attribution.DecisionPolicy.Capture.{
  IdentityCaptureRequirements, minimal, capture, is_stable_accept, enforcement_capture_requirements,
  captured,
}
use open_shield.Attribution.DecisionPolicy.Capture.Coverage.{Covers, capture-AreCovered}
use open_shield.Attribution.DecisionPolicy.Capture.Fields.{
  application-captured, unseen, keep-false, keep_same, All-rules_at, All-into,
}

module _ (contains : IpNet → IpAddr → Bool) (policy : ApplicationDecisionPolicy)
    (connection : OutboundConnection) (identity : ApplicationIdentity) where
  enforce_relevant : Rule → Bool
  enforce_relevant rule = application_rule_network_and_uid_matches contains rule connection

  enforce_found : Bool × IdentityCaptureRequirements
  enforce_found =
      capture enforce_relevant (is_stable_accept policy.enforcement_strategy) policy.snapshot.rules
        (false, minimal)

  abbrev IsEnforced : Rule → Type 0
  IsEnforced rule =
      enforce_relevant rule ≡ true
      → is_stable_accept policy.enforcement_strategy rule ≡ false
      → Covers enforce_found rule.spec.application

  never_stable :
      (strategy : EnforcementStrategy) (rule : Rule)
      → strategy ≡ strict
      → is_stable_accept strategy rule ≡ false
  never_stable strict rule h = refl
  never_stable fast rule h = absurd (let no : ⊥ = cc in no)

  no_fast_match :
      (strategy : EnforcementStrategy) (rules : List Rule) (who : ApplicationIdentity)
      → strategy ≡ strict
      → fast_match contains strategy rules connection who ≡ none
  no_fast_match strict rules who h = refl
  no_fast_match fast rules who h = absurd (let no : ⊥ = cc in no)

  IsEnforced-covered : All IsEnforced (candidates policy identity)
  unfolding candidates enforce_found
  IsEnforced-covered = All-rules_at IsEnforced policy.snapshot.rules _ (
      capture-AreCovered enforce_relevant (is_stable_accept policy.enforcement_strategy)
        policy.snapshot.rules (false, minimal))

  -- The rule that the packet path finds: without requirements, it looks at no process.
  pub decided_with : Option IdentityCaptureRequirements → Option Rule
  decided_with none = matching_network_accept contains policy connection
  decided_with (some r) = matching_rule contains policy connection (captured r identity)

  module _ (strictly : policy.enforcement_strategy ≡ strict) where
    enforce_same :
        (rule : Rule)
        → IsEnforced rule
        → application_rule_matches contains connection (captured enforce_found.1 identity) rule
          ≡ application_rule_matches contains connection identity rule
    unfolding application_rule_matches enforce_relevant
    enforce_same rule covers =
        elim (Bool-cases (application_rule_network_and_uid_matches contains rule connection)) [
          | inr apart ↦ rw apart refl
          | inl fits ↦
              rw
                (application-captured enforce_found rule.spec.application identity
                  (covers fits (never_stable policy.enforcement_strategy rule strictly)))
                refl
        ]

    enforce_apart :
        (rule : Rule)
        → enforce_found.0 ≡ false
        → IsEnforced rule
        → application_rule_matches contains connection identity rule ≡ false
    unfolding application_rule_matches enforce_relevant
    enforce_apart rule nothing covers =
        elim (Bool-cases (application_rule_network_and_uid_matches contains rule connection)) [
          | inr apart ↦ rw apart refl
          | inl fits ↦
              rw
                (
                  unseen enforce_found rule.spec.application identity nothing
                      (covers fits (never_stable policy.enforcement_strategy rule strictly)),
                  fits,
                )
                refl
        ]

    enforce-captured :
        matching_rule contains policy connection (captured enforce_found.1 identity)
        ≡ matching_rule contains policy connection identity
    unfolding matching_rule candidates
    enforce-captured =
        let who = captured enforce_found.1 identity in
        let rules = candidates policy identity in
        rw
          (
            keep_same (application_rule_matches contains connection who)
                (application_rule_matches contains connection identity) rules
                (All-into IsEnforced _ _ enforce_same IsEnforced-covered),
            no_fast_match policy.enforcement_strategy rules who strictly,
            no_fast_match policy.enforcement_strategy rules identity strictly,
          )
          refl

    enforce_none :
        enforce_found.0 ≡ false
        → matching_network_accept contains policy connection
          ≡ matching_rule contains policy connection identity
    unfolding matching_rule min_by or_else
    enforce_none nothing =
        let kept =
          keep_same (application_rule_matches contains connection identity) (λ _. false)
            (candidates policy identity)
            (All-into IsEnforced _ _ (λ rule. enforce_apart rule nothing) IsEnforced-covered)
          ∙ keep-false (candidates policy identity) in
        rw
          (
            kept,
            no_fast_match policy.enforcement_strategy (candidates policy identity) identity
                strictly,
          )
          refl

    -- In the strict strategy the fields that the capture requirements of enforcement ask for
    -- suffice: the rule found for a process whose other fields were left empty is the one found
    -- for the whole process, and where nothing is required the network accept decides for every
    -- process.
    pub decided_with-enforcement_capture_requirements :
        decided_with (enforcement_capture_requirements contains policy connection)
        ≡ matching_rule contains policy connection identity
    unfolding enforcement_capture_requirements decided_with enforce_found enforce_relevant
    decided_with-enforcement_capture_requirements =
        if_cases (λ o. decided_with o ≡ matching_rule contains policy connection identity)
          enforce_found.0 _ _ (λ _. enforce-captured) enforce_none
