-- ===== src/State/Admission/Verdict.antt =====
-- The ways to a verdict of `classify`, of crates/openshield-core/src/state.rs.
use open_shield.Base.{
  ℕ, ◌≡◌, refl, sym, subst, Bool, true, false, not, some, arith, if◌then◌else◌, inl, inr,
  Bool-cases, Option-cases,
}
use open_shield.Base.Outcome.{ok}
use open_shield.Application.ApplicationPath.{ApplicationPath}
use open_shield.Application.FileId.{ExecutableFileId}
use open_shield.Model.LearnedEndpoint.{LearnedApplicationEndpoint, validate_application_endpoint}
use open_shield.State.External.{External}
use open_shield.State.Keys.{
  LearnedRuleKey-discrete, ApplicationTemplateKey, ApplicationTemplateKey-discrete,
  key_of_application_endpoint, template_of_selector, knows,
}
use open_shield.State.Learning.Applications.{is_saturated, required_slots}
use open_shield.State.Admission.{
  ApplicationLearningAdmission, already_known, saturated, candidate,
  ApplicationLearningAdmissionIndex, is_full, classify, classify_unknown,
}

-- Why an endpoint got its verdict.
pub data Verdict (x : External) (index : ApplicationLearningAdmissionIndex)
    (item : LearnedApplicationEndpoint) : ApplicationLearningAdmission → Type 0 where
  is_known :
      knows LearnedRuleKey-discrete (key_of_application_endpoint x item) index.known ≡ true
      → Verdict x index item already_known
  no_slots :
      (key : ApplicationTemplateKey)
      → knows LearnedRuleKey-discrete (key_of_application_endpoint x item) index.known ≡ false
      → template_of_selector item.application ≡ ok key
      → is_full index
          (required_slots (not (knows ApplicationTemplateKey-discrete key index.known_templates)))
        ≡ true
      → Verdict x index item saturated
  in_budget :
      (key : ApplicationTemplateKey) (uid : ℕ) (file : ExecutableFileId) (spent : Bool)
      → knows LearnedRuleKey-discrete (key_of_application_endpoint x item) index.known ≡ false
      → template_of_selector item.application ≡ ok key
      → is_full index
          (required_slots (not (knows ApplicationTemplateKey-discrete key index.known_templates)))
        ≡ false
      → item.application.uid ≡ some uid
      → item.application.executable_file ≡ some file
      → is_saturated index.limits index.tally uid file ≡ spent
      → Verdict x index item (if spent then saturated else candidate)

module _ (x : External) (index : ApplicationLearningAdmissionIndex)
    (item : LearnedApplicationEndpoint)
    (fresh : knows LearnedRuleKey-discrete (key_of_application_endpoint x item) index.known
      ≡ false) where
  abbrev key_with : ApplicationPath → ApplicationTemplateKey
  key_with path = record { executable = path; cgroup = item.application.cgroup }

  within_budget :
      (path : ApplicationPath) (v : ApplicationLearningAdmission)
      → classify_unknown index item ≡ ok v
      → item.application.executable ≡ some path
      → template_of_selector item.application ≡ ok (key_with path)
      → is_full index (
          required_slots
            (not (knows ApplicationTemplateKey-discrete (key_with path) index.known_templates)))
        ≡ false
      → Verdict x index item v
  unfolding classify_unknown
  within_budget path v h e group free = elim (Option-cases item.application.uid) [
    | inl missing ↦ let no_uid : ⊥ = ground arith in absurd no_uid
    | inr (uid, owner) ↦ elim (Option-cases item.application.executable_file) [
      | inl missing ↦ let no_file : ⊥ = ground arith in absurd no_file
      | inr (file, executable) ↦
          let same_verdict : v
              ≡ (if is_saturated index.limits index.tally uid file then saturated else candidate) =
            ground arith in
          subst (Verdict x index item) (sym same_verdict)
            (in_budget (key_with path) uid file _ fresh group free owner executable refl)
    ]
  ]

  unknown-Verdict :
      (v : ApplicationLearningAdmission)
      → classify_unknown index item ≡ ok v
      → Verdict x index item v
  unfolding classify_unknown template_of_selector
  unknown-Verdict v h = elim (Option-cases item.application.executable) [
    | inl e ↦ let no_path : ⊥ = ground arith in absurd no_path
    | inr (path, e) ↦
        let group : template_of_selector item.application ≡ ok (key_with path) = rw e refl in
        elim (Bool-cases (
          is_full index (
            required_slots (
              not
                (knows ApplicationTemplateKey-discrete (key_with path) index.known_templates))))) [
                  | inl full ↦
                      let turned_away : v ≡ saturated = ground arith in
                      subst (Verdict x index item) (sym turned_away)
                        (no_slots (key_with path) fresh group full)
                  | inr free ↦ within_budget path v h e group free
                ]
  ]

pub verdict :
    (x : External) (index : ApplicationLearningAdmissionIndex) (item : LearnedApplicationEndpoint)
    (v : ApplicationLearningAdmission)
    → classify x index item ≡ ok v
    → (validate_application_endpoint item ≡ ok tt) × Verdict x index item v
unfolding classify
verdict x index item v h =
    elim (Bool-cases
      (knows LearnedRuleKey-discrete (key_of_application_endpoint x item) index.known)) [
        | inl k ↦
            let known : v ≡ already_known = ground arith in
            (ground arith, subst (Verdict x index item) (sym known) (is_known k))
        | inr k ↦ (ground arith, unknown-Verdict x index item k v (ground arith))
      ]
