-- ===== src/State/Observer/Views.antt =====
-- Redacted snapshots under `Snapshot::validate_for_observer` of
-- crates/openshield-core/src/state.rs.
use open_shield.Base.{
  ℕ, suc, ◌<◌, ◌≡◌, inl, inr, refl, Bool, true, false, xor, Option, none, some, List, [], ◌∷◌, map,
  All, length, ltb, is_some_and, same_refl, Option-cases, arith, ℕ_discrete,
}
use open_shield.Base.Outcome.{ok}
use open_shield.Base.Text.{Text-discrete}
use open_shield.BTree.{values, Ordered}
use open_shield.Application.Selector
use open_shield.Application.Selector.{ApplicationSelector}
use open_shield.Model.RuleName.{redacted_application_rule_name}
use open_shield.Model.RuleSpec
use open_shield.Model.RuleSpec.{RuleSpec}
use open_shield.Model.Rule
use open_shield.Model.Rule.{Rule, Uuid, redacted_spec}
use open_shield.State.Data.{State, snapshot, max_rules}
use open_shield.State.Snapshots.Loading.{not_seen, All-below, generation-in_domain}
use open_shield.State.Observer.{
  check_redaction, validate_observed, validate_for_observer, redacted_for_observer,
}
use open_shield.State.Operation.WellFormed.{WellFormed, IsEntry}

redacted-valid : Selector.validate Selector.redacted ≡ ok tt
unfolding Selector.validate Text-discrete ℕ_discrete
redacted-valid = refl

redacted_spec-valid :
    (spec : RuleSpec) (selector : ApplicationSelector)
    → spec.application ≡ some selector
    → RuleSpec.validate spec ≡ ok tt
    → RuleSpec.validate (redacted_spec spec) ≡ ok tt
unfolding RuleSpec.validate
redacted_spec-valid spec selector held h = ground (arith, redacted-valid)

-- The redaction state that a loop over redacted rules has.
abbrev AllRedacted : Option Bool → Type 0
AllRedacted o = is_some_and o (λ previous. xor previous true) ≡ false

some_redacted : AllRedacted (some true)
unfolding mathlib.Core.Bool.xor
some_redacted = refl

check-redacted :
    (spec : RuleSpec) (o : Option Bool)
    → AllRedacted o
    → check_redaction (redacted_spec spec) (some Selector.redacted) o ≡ ok (some true)
check-redacted spec o h = rw (same_refl Text-discrete redacted_application_rule_name) (rw h refl)

redacted-plain :
    (rule : Rule) → rule.spec.application ≡ none → Rule.redacted_for_observer rule ≡ rule
unfolding Rule.redacted_for_observer
redacted-plain rule h = rw h refl

pub redacted-application :
    (rule : Rule) (selector : ApplicationSelector)
    → rule.spec.application ≡ some selector
    → Rule.redacted_for_observer rule ≡ record rule { spec = redacted_spec rule.spec }
unfolding Rule.redacted_for_observer
redacted-application rule selector h = rw h refl

redacted_rule-valid :
    (rule : Rule) (selector : ApplicationSelector)
    → rule.spec.application ≡ some selector
    → Rule.validate rule ≡ ok tt
    → Rule.validate (record rule { spec = redacted_spec rule.spec }) ≡ ok tt
unfolding Rule.validate
redacted_rule-valid rule selector held h =
    let spec : RuleSpec.validate rule.spec ≡ ok tt = ground arith in
    ground (arith, redacted_spec-valid rule.spec selector held spec)

validate_observed-redacted :
    (ids : List Uuid) (o : Option Bool) (lo : ℕ) (m : List (Uuid × Rule))
    → Ordered lo m
    → All IsEntry m
    → All (λ i. i < lo) ids
    → AllRedacted o
    → validate_observed ids o (map Rule.redacted_for_observer (values m)) ≡ ok tt
unfolding validate_observed
validate_observed-redacted ids o lo [] sorted entries below redacted = refl
validate_observed-redacted ids o lo ((id, rule) ∷ m) sorted entries below redacted =
    let keyed : id ≡ rule.id = entries.0.keyed in
    let older : All (λ i. i < rule.id) ids = rw (← keyed) (All-below ids lo id sorted.0 below) in
    let newer : All (λ i. i < suc id) (rule.id ∷ ids) =
      (omega (arith, keyed), All-below ids lo (suc id) (omega (arith, sorted.0)) below) in
    elim (Option-cases rule.spec.application) [
      | inl plain ↦ rw (redacted-plain rule plain) (
          rw entries.0.valid (
            rw plain (
              rw (not_seen ids rule.id older) (
                validate_observed-redacted (rule.id ∷ ids) o (suc id) m sorted.1 entries.1 newer
                  redacted))))
      | inr (selector, held) ↦ rw (redacted-application rule selector held) (
          rw (redacted_rule-valid rule selector held entries.0.valid) (
            rw (check-redacted rule.spec o redacted) (
              rw (not_seen ids rule.id older) (
                validate_observed-redacted (rule.id ∷ ids) (some true) (suc id) m sorted.1 entries.1
                  newer some_redacted))))
    ]

length-observed :
    (m : List (Uuid × Rule)) → length (map Rule.redacted_for_observer (values m)) ≡ length m
length-observed [] = refl
length-observed (e ∷ m) = omega (arith, length-observed m)

-- The redacted snapshot of a well-formed policy passes the validation of observers.
pub validate_for_observer-redacted :
    (s : State) → WellFormed s → validate_for_observer (redacted_for_observer (snapshot s)) ≡ ok tt
unfolding validate_for_observer redacted_for_observer snapshot
validate_for_observer-redacted s w =
    let few : ltb max_rules (length (map Rule.redacted_for_observer (values s.rules))) ≡ false =
      ground (arith, w.size, length-observed s.rules) in
    rw few (
      rw (generation-in_domain s w)
        (validate_observed-redacted [] none 0 s.rules w.sorted w.entries tt refl))
