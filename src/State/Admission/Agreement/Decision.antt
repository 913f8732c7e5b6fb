-- ===== src/State/Admission/Agreement/Decision.antt =====
-- The classification of the admission index of crates/openshield-core/src/state.rs, against
-- learning.
use open_shield.Base.{◌↔◌, ℕ, ◌≤◌, ◌≡◌, ◌≢◌, ap, ◌∙◌, [], ◌∷◌, arith}
use open_shield.Base.Outcome.{ok}
use open_shield.Model.LearnedEndpoint.{LearnedApplicationEndpoint}
use open_shield.State.Data.{State}
use open_shield.State.External.{External, Draws}
use open_shield.State.Keys.{LearningLimits}
use open_shield.State.Learning.Applications.{learn_new_application_endpoints_with_limits}
use open_shield.State.Admission.{ApplicationLearningAdmission, candidate, from_state, classify}
use open_shield.State.Admission.Agreement.{turned_away-learns_nothing, candidate-learns}

not_suc_le_zero : ¬ (1 ≤ 0)
not_suc_le_zero h = omega arith

-- For an observation on its own that the admission index classifies, with room for two rules in
-- the batch, the classification decides learning: exactly what is not a candidate leaves the
-- policy unchanged and reports nothing.
pub admission_decides :
    (x : External) (draws : Draws) (limits : LearningLimits) (maximum_new : ℕ) (s : State)
    (item : LearnedApplicationEndpoint) (v : ApplicationLearningAdmission)
    → classify x (from_state s limits) item ≡ ok v
    → 2 ≤ maximum_new
    → (v ≢ candidate) ↔ (
        learn_new_application_endpoints_with_limits x draws (item ∷ []) maximum_new limits s
        ≡ (ok [], s))
admission_decides x draws limits maximum_new s item v h two = (
  turned_away-learns_nothing x draws limits maximum_new s item v h,
  λ e hv.
      not_suc_le_zero (
        candidate-learns x draws limits maximum_new s item [] (h ∙ ap ok hv) two (ap (λ r. r.0) e)),
)
