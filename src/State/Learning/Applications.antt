-- ===== src/State/Learning/Applications.antt =====
-- `learn_new_application_endpoints_with_limits` of crates/openshield-core/src/state.rs.
pub mod Cases
pub mod Growth
pub mod Budgets
pub mod Quota
use open_shield.Base.{
  ℕ, ◌+◌, Bool, true, false, ◌||◌, Option, none, some, List, [], ◌∷◌, ◌++◌, length, take, leb, ltb,
  keep, if◌then◌else◌, ℕ_discrete, not,
}
use open_shield.Base.Words.{usize_max, saturating_add}
use open_shield.Base.Outcome.{Result, ok, err, map_err, ok_or}
use open_shield.Base.Exec.{
  Exec, pure, lift, self, continue, ◌>>=◌, ◌>>◌, Flow, continues, breaks, for_each,
}
use open_shield.BTree.{values}
use open_shield.Application.Failure.{incomplete_learned_application_identity}
use open_shield.Application.FileId.{ExecutableFileId, ExecutableFileId-discrete}
use open_shield.Application.Selector.{ApplicationSelector}
use open_shield.Model.Failure.{ValidationError, invalid_application_selector}
use open_shield.Model.Rule.{Rule}
use open_shield.Model.LearnedEndpoint.{LearnedApplicationEndpoint, validate_application_endpoint}
use open_shield.State.Data.{State, CoreError, validation, max_rules}
use open_shield.State.External.{External, Draws, later}
use open_shield.State.Keys.{
  default_limits, LearningLimits, LearnedRuleKey, LearnedRuleKey-discrete, ApplicationTemplateKey,
  ApplicationTemplateKey-discrete, key_of_application_endpoint, template_of_selector, templates_of,
  is_learned_outbound, knows,
}
use open_shield.State.Counts.{count_of, bump}
use open_shield.State.Learning.{
  LearnOutcome, insert_learned_endpoint, insert_application_group_template, known_keys, room_for,
  validate_all,
}

abbrev pub ApplicationId : Type 0
ApplicationId = ℕ × ExecutableFileId

unfoldable pub ApplicationId-discrete : Discrete ApplicationId
ApplicationId-discrete = hlevel (ℕ_discrete, ExecutableFileId-discrete)

-- The learned rules of each user, and of each user's executable file.
pub record Tally : Type 0 where
  pub per_uid : List (ℕ × ℕ)
  pub per_application : List (ApplicationId × ℕ)

abbrev pub no_rules : Tally
no_rules = record { per_uid = []; per_application = [] }

unfoldable pub tally_one : Tally → ℕ → ExecutableFileId → Tally
tally_one t uid file = record {
  per_uid = bump ℕ_discrete uid t.per_uid;
  per_application = bump ApplicationId-discrete (uid, file) t.per_application;
}

-- `let (Some(uid), Some(file)) = .. else { continue }`
abbrev pub tally_identity : Tally → Option ℕ → Option ExecutableFileId → Tally
tally_identity t (some uid) (some file) = tally_one t uid file
tally_identity t none file = t
tally_identity t (some uid) none = t

abbrev pub tally_application : Tally → Option ApplicationSelector → Tally
tally_application t none = t
tally_application t (some application) =
    tally_identity t application.uid application.executable_file

-- The loop over the learned outbound rules.
unfoldable pub tally_rules : Tally → List Rule → Tally
unfolding tally_one
tally_rules t [] = t
tally_rules t (rule ∷ rest) = tally_rules (tally_application t rule.spec.application) rest

-- Either budget is used up.
abbrev pub is_saturated : LearningLimits → Tally → ℕ → ExecutableFileId → Bool
is_saturated limits t uid file =
    leb limits.per_uid (count_of ℕ_discrete uid t.per_uid)
    || leb limits.per_application (count_of ApplicationId-discrete (uid, file) t.per_application)

-- The variables of the loop.
pub record Progress : Type 0 where
  pub known : List LearnedRuleKey
  pub known_templates : List ApplicationTemplateKey
  pub tally : Tally
  pub outcomes : List LearnOutcome
  pub draws : Draws

-- `outcomes.push(outcome)`, behind an insertion that has used one draw.
abbrev pub recorded : LearnOutcome → Progress → Progress
recorded outcome p = record p { outcomes = p.outcomes ++ outcome ∷ []; draws = later p.draws }

abbrev pub templated : ApplicationTemplateKey → LearnOutcome → Progress → Progress
templated key outcome p = record (recorded outcome p) { known_templates = key ∷ p.known_templates }

abbrev pub learned_one :
    External
    → LearnedApplicationEndpoint
    → ℕ
    → ExecutableFileId
    → LearnOutcome
    → Progress
    → Progress
learned_one x item uid file outcome p = record (recorded outcome p) {
  known = key_of_application_endpoint x item ∷ p.known;
  tally = tally_one p.tally uid file;
}

-- `if needs_template { .. }`
abbrev pub learn_template : Bool → ApplicationTemplateKey → Progress → Exec CoreError State Progress
learn_template false key p = pure p
learn_template true key p = do
  outcome ← insert_application_group_template p.draws key
  pure (templated key outcome p)

-- The rest of the body, for an observation that is within every budget.
unfoldable pub learn_application :
    External
    → Bool
    → ApplicationTemplateKey
    → ℕ
    → ExecutableFileId
    → Progress
    → LearnedApplicationEndpoint
    → Exec CoreError State (Flow Progress)
learn_application x needs_template template_key uid file p item = do
  q ← learn_template needs_template template_key p
  outcome ← insert_learned_endpoint x q.draws item.endpoint (some item.application)
  pure (continues (learned_one x item uid file outcome q))

abbrev pub incomplete : CoreError
incomplete = validation (invalid_application_selector incomplete_learned_application_identity)

-- `usize::from(needs_template) + 1`
abbrev pub required_slots : Bool → ℕ
required_slots needs_template = (if needs_template then 1 else 0) + 1

-- The body of the loop, for an observation that no rule knows yet.
unfoldable pub learn_unknown :
    External
    → LearningLimits
    → ℕ
    → Progress
    → LearnedApplicationEndpoint
    → Exec CoreError State (Flow Progress)
unfolding learn_application
learn_unknown x limits maximum_new p item = do
  template_key ← lift (map_err validation (template_of_selector item.application))
  let needs_template = not (knows ApplicationTemplateKey-discrete template_key p.known_templates)
  let body : Exec CoreError State (Flow Progress) = do
    uid ← lift (ok_or incomplete item.application.uid)
    file ← lift (ok_or incomplete item.application.executable_file)
    (if is_saturated limits p.tally uid file
        then pure (continues p)
        else learn_application x needs_template template_key uid file p item)
  (if ltb maximum_new (saturating_add usize_max (length p.outcomes) (required_slots needs_template))
      then pure (breaks p)
      else body)

unfoldable pub learn_application_pass :
    External
    → LearningLimits
    → ℕ
    → Progress
    → LearnedApplicationEndpoint
    → Exec CoreError State (Flow Progress)
unfolding learn_unknown
learn_application_pass x limits maximum_new p item =
    if knows LearnedRuleKey-discrete (key_of_application_endpoint x item) p.known
    then pure (continues p)
    else learn_unknown x limits maximum_new p item

-- The variables as the loop finds them.
unfoldable pub start : Draws → State → Progress
unfolding tally_rules
start draws s = record {
  known = known_keys s;
  known_templates = templates_of (values s.rules);
  tally = tally_rules no_rules (keep is_learned_outbound (values s.rules));
  outcomes = [];
  draws = draws;
}

-- `endpoint.validate().map_err(ValidationError::from)?`
unfoldable pub check_item : LearnedApplicationEndpoint → Result CoreError Unit
check_item item =
    map_err (λ e. validation (invalid_application_selector e)) (validate_application_endpoint item)

unfoldable pub learn_new_application_endpoints_with_limits :
    External
    → Draws
    → List LearnedApplicationEndpoint
    → ℕ
    → LearningLimits
    → Exec CoreError State (List LearnOutcome)
unfolding learn_application_pass start check_item
learn_new_application_endpoints_with_limits x draws all maximum_new limits = do
  let endpoints = take max_rules all
  lift (validate_all check_item endpoints)
  s ← self
  p ← for_each (learn_application_pass x limits (room_for maximum_new s)) (start draws s) endpoints
  pure p.outcomes

unfoldable pub learn_new_application_endpoints :
    External
    → Draws
    → List LearnedApplicationEndpoint
    → ℕ
    → Exec CoreError State (List LearnOutcome)
unfolding learn_new_application_endpoints_with_limits
learn_new_application_endpoints x draws all maximum_new =
    learn_new_application_endpoints_with_limits x draws all maximum_new default_limits
