-- ===== src/Examples/Admission.antt =====
-- Admission of observations at a policy with one rule.
use open_shield.Base.{◌≡◌, ◌≢◌, ◌↔◌, refl, [], ◌∷◌, arith}
use open_shield.Base.Outcome.{ok}
use open_shield.Application.FileId
use open_shield.Application.Selector
use open_shield.Model.LearnedEndpoint
use open_shield.Model.LearnedEndpoint.{validate_application_endpoint}
use open_shield.State.Keys.{LearningLimits, default_limits}
use open_shield.State.Counts.{count_of}
use open_shield.State.Admission.{classify, from_state, saturated, candidate}
use open_shield.State.Admission.Index.{AgreesWith, from_state-AgreesWith}
use open_shield.State.Admission.Agreement.Decision.{admission_decides}
use open_shield.State.Learning.Applications.{learn_new_application_endpoints_with_limits}
use open_shield.Fixtures.{one_rule, observed, small_files, from_hundred}

abbrev no_budget : LearningLimits
no_budget = record { per_uid = 0; per_application = 0 }

observed_saturated : classify small_files (from_state one_rule no_budget) observed ≡ ok saturated
unfolding classify validate_application_endpoint LearnedEndpoint.validate Selector.validate
    FileId.validate from_state count_of
observed_saturated = refl

admission_decides_example : (saturated ≢ candidate) ↔ (
    learn_new_application_endpoints_with_limits small_files from_hundred
      (observed ∷ [])
      10
      no_budget
      one_rule
    ≡ (ok [], one_rule))
admission_decides_example =
    admission_decides small_files from_hundred no_budget 10 one_rule observed saturated
      observed_saturated (omega arith)

from_state-AgreesWith_example : AgreesWith one_rule default_limits from_hundred
from_state-AgreesWith_example = from_state-AgreesWith one_rule default_limits from_hundred
