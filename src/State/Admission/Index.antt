-- ===== src/State/Admission/Index.antt =====
-- The admission index of crates/openshield-core/src/state.rs holds what the learning loop computes
-- from the same policy.
use open_shield.Base.{
  ◌+◌, ◌≡◌, refl, ap, ◌∙◌, Bool, true, false, ◌||◌, Option, none, some, List, [], ◌∷◌, arith, map,
  keep, count_if, same, if◌then◌else◌, inl, inr, Bool-cases, Option-cases,
}
use open_shield.BTree.{values}
use open_shield.Model.Kinds.{RuleOrigin-discrete, Direction-discrete}
use open_shield.Model.Rule.{Rule}
use open_shield.State.Data.{State}
use open_shield.State.External.{Draws}
use open_shield.State.Keys.{
  LearningLimits, LearnedRuleKey, LearnedRuleKey-discrete, ApplicationTemplateKey,
  ApplicationTemplateKey-discrete, key_of_rule, template_of_rule, templates_of, is_automatic_rule,
  is_learned_outbound, knows,
}
use open_shield.State.Learning.{automatic_count, known_keys}
use open_shield.State.Learning.Applications.{tally_application, tally_rules, start}
use open_shield.State.Admission.{Scan, scan_template, scan_rule, scan_rules, scan_start, from_state}

learned-automatic : (rule : Rule) → is_learned_outbound rule ≡ true → is_automatic_rule rule ≡ true
unfolding RuleOrigin-discrete Direction-discrete
learned-automatic rule h = ground arith

template-automatic :
    (rule : Rule) (key : ApplicationTemplateKey)
    → template_of_rule rule ≡ some key
    → is_automatic_rule rule ≡ true
unfolding template_of_rule
template-automatic rule key h = ground arith

-- One rule, seen by what the loop of learning collects from it.
abbrev template_knows : ApplicationTemplateKey → Option ApplicationTemplateKey → Bool
template_knows key none = false
template_knows key (some k) = same ApplicationTemplateKey-discrete k key

known-scan_template :
    (p : Scan) (o : Option ApplicationTemplateKey)
    → ((scan_template p o).known ≡ p.known)
      × ((scan_template p o).tally ≡ p.tally)
      × ((scan_template p o).learned_rule_count ≡ p.learned_rule_count)
known-scan_template p none = (refl, refl, refl)
known-scan_template p (some k) = (refl, refl, refl)

templates-scan_template :
    (key : ApplicationTemplateKey) (p : Scan) (o : Option ApplicationTemplateKey)
    → knows ApplicationTemplateKey-discrete key (scan_template p o).known_templates
      ≡ (template_knows key o || knows ApplicationTemplateKey-discrete key p.known_templates)
templates-scan_template key p none = refl
templates-scan_template key p (some k) = refl

count-scan_rule :
    (p : Scan) (rule : Rule)
    → (scan_rule p rule).learned_rule_count
      ≡ p.learned_rule_count + (if is_automatic_rule rule then 1 else 0)
unfolding scan_rule
count-scan_rule p rule = ground (
  arith,
  known-scan_template (record p { learned_rule_count = p.learned_rule_count + 1 })
      (template_of_rule rule),
)

known-scan_rule :
    (key : LearnedRuleKey) (p : Scan) (rule : Rule)
    → knows LearnedRuleKey-discrete key (scan_rule p rule).known ≡ (
        (if is_learned_outbound rule
          then same LearnedRuleKey-discrete (key_of_rule rule) key
          else false)
        || knows LearnedRuleKey-discrete key p.known)
unfolding scan_rule
known-scan_rule key p rule = ground (
  arith,
  learned-automatic rule,
  known-scan_template (record p { learned_rule_count = p.learned_rule_count + 1 })
      (template_of_rule rule),
)

tally-scan_rule :
    (p : Scan) (rule : Rule)
    → (scan_rule p rule).tally ≡ (
        if is_learned_outbound rule
        then tally_application p.tally rule.spec.application
        else p.tally)
unfolding scan_rule
tally-scan_rule p rule = ground (
  arith,
  learned-automatic rule,
  known-scan_template (record p { learned_rule_count = p.learned_rule_count + 1 })
      (template_of_rule rule),
)

templates-scan_rule :
    (key : ApplicationTemplateKey) (p : Scan) (rule : Rule)
    → knows ApplicationTemplateKey-discrete key (scan_rule p rule).known_templates ≡ (
        template_knows key (template_of_rule rule)
        || knows ApplicationTemplateKey-discrete key p.known_templates)
unfolding scan_rule
templates-scan_rule key p rule = elim (Option-cases (template_of_rule rule)) [
  | inl h ↦ rw h (ground arith)
  | inr (k, h) ↦ let auto = template-automatic rule k h in ground (arith, h, auto)
]

count-scan_rules :
    (p : Scan) (rules : List Rule)
    → (scan_rules p rules).learned_rule_count
      ≡ p.learned_rule_count + count_if is_automatic_rule rules
unfolding scan_rules
count-scan_rules p [] = omega arith
count-scan_rules p (rule ∷ rest) =
    omega (arith, count-scan_rules (scan_rule p rule) rest, count-scan_rule p rule)

known-scan_rules :
    (key : LearnedRuleKey) (p : Scan) (rules : List Rule)
    → knows LearnedRuleKey-discrete key (scan_rules p rules).known ≡ (
        knows LearnedRuleKey-discrete key (map key_of_rule (keep is_learned_outbound rules))
        || knows LearnedRuleKey-discrete key p.known)
unfolding scan_rules
known-scan_rules key p [] = refl
known-scan_rules key p (rule ∷ rest) = elim (Bool-cases (is_learned_outbound rule)) [
  | inl h ↦
      rw h (
        known-scan_rules key (scan_rule p rule) rest
        ∙ ground (arith, known-scan_rule key p rule, h))
  | inr h ↦
      rw h (
        known-scan_rules key (scan_rule p rule) rest
        ∙ ground (arith, known-scan_rule key p rule, h))
]

tally-scan_rules :
    (p : Scan) (rules : List Rule)
    → (scan_rules p rules).tally ≡ tally_rules p.tally (keep is_learned_outbound rules)
unfolding scan_rules tally_rules
tally-scan_rules p [] = refl
tally-scan_rules p (rule ∷ rest) = elim (Bool-cases (is_learned_outbound rule)) [
  | inl h ↦ rw h (
      tally-scan_rules (scan_rule p rule) rest
      ∙ ap (λ t. tally_rules t (keep is_learned_outbound rest))
          (tally-scan_rule p rule ∙ rw h refl))
  | inr h ↦ rw h (
      tally-scan_rules (scan_rule p rule) rest
      ∙ ap (λ t. tally_rules t (keep is_learned_outbound rest))
          (tally-scan_rule p rule ∙ rw h refl))
]

templates-step :
    (key : ApplicationTemplateKey) (rule : Rule) (rest : List Rule)
    → knows ApplicationTemplateKey-discrete key (templates_of (rule ∷ rest)) ≡ (
        template_knows key (template_of_rule rule)
        || knows ApplicationTemplateKey-discrete key (templates_of rest))
unfolding templates_of
templates-step key rule rest = ground arith

templates-scan_rules :
    (key : ApplicationTemplateKey) (p : Scan) (rules : List Rule)
    → knows ApplicationTemplateKey-discrete key (scan_rules p rules).known_templates ≡ (
        knows ApplicationTemplateKey-discrete key (templates_of rules)
        || knows ApplicationTemplateKey-discrete key p.known_templates)
unfolding scan_rules templates_of
templates-scan_rules key p [] = refl
templates-scan_rules key p (rule ∷ rest) = ground (
  arith,
  templates-scan_rules key (scan_rule p rule) rest,
  templates-scan_rule key p rule,
  templates-step key rule rest,
)

or_false : (b : Bool) → (b || false) ≡ b
or_false true = refl
or_false false = refl

-- The index agrees with what the loop of learning starts from: the same known endpoints and
-- groups, the same tally, and the number of automatic rules.
pub record AgreesWith (s : State) (limits : LearningLimits) (draws : Draws) : Type 0 where
  pub known :
      (key : LearnedRuleKey)
      → knows LearnedRuleKey-discrete key (from_state s limits).known
        ≡ knows LearnedRuleKey-discrete key (start draws s).known
  pub templates :
      (key : ApplicationTemplateKey)
      → knows ApplicationTemplateKey-discrete key (from_state s limits).known_templates
        ≡ knows ApplicationTemplateKey-discrete key (start draws s).known_templates
  pub tally : (from_state s limits).tally ≡ (start draws s).tally
  pub count : (from_state s limits).learned_rule_count ≡ automatic_count s

-- The index that the packet path consults, built in one pass over the rules, knows the same
-- learned keys and the same templates as the variables with which learning starts, and counts the
-- same learned rules of each user and executable and the same automatic rules.
pub from_state-AgreesWith :
    (s : State) (limits : LearningLimits) (draws : Draws) → AgreesWith s limits draws
unfolding from_state start
from_state-AgreesWith s limits draws = record {
  known = λ key.
      known-scan_rules key scan_start (values s.rules)
      ∙ or_false (knows LearnedRuleKey-discrete key (known_keys s));
  templates = λ key.
      templates-scan_rules key scan_start (values s.rules)
      ∙ or_false (knows ApplicationTemplateKey-discrete key (templates_of (values s.rules)));
  tally = tally-scan_rules scan_start (values s.rules);
  count = omega (arith, count-scan_rules scan_start (values s.rules));
}
