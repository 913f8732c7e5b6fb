-- ===== src/State/Learning/Applications/Cases.antt =====
-- The ways in which one pass of the application-learning loop of
-- crates/openshield-core/src/state.rs can end.
use open_shield.Base.{
  ℕ, ◌+◌, ◌≤◌, ◌≡◌, refl, Bool, true, false, not, Option, some, arith, length, ltb, inl, inr,
  Bool-cases,
}
use open_shield.Base.Words.{usize_max, saturating_add}
use open_shield.Base.Outcome.{Result, ok, err, map_err, ok_or}
use open_shield.Base.Exec.{Flow, continues, breaks, lift_cases, pure, continue, ◌>>=◌}
use open_shield.Application.FileId.{ExecutableFileId}
use open_shield.Model.Rule.{Rule}
use open_shield.Model.LearnedEndpoint.{LearnedApplicationEndpoint}
use open_shield.State.Data.{State, Event, CoreError, validation, max_rules}
use open_shield.State.External.{External}
use open_shield.State.Keys.{
  LearningLimits, LearnedRuleKey-discrete, ApplicationTemplateKey, ApplicationTemplateKey-discrete,
  key_of_application_endpoint, template_of_selector, knows,
}
use open_shield.State.Learning.{LearnOutcome, insert_learned_endpoint}
use open_shield.State.Learning.Growth.{Adds}
use open_shield.State.Learning.Insertion.{
  IsLearnedSpec, IsTemplateSpec, insert_learned_cases, insert_template_cases,
}
use open_shield.State.Learning.Applications.{
  Progress, templated, learned_one, is_saturated, required_slots, incomplete, learn_application,
  learn_unknown, learn_application_pass,
}

-- What a pass has found out before it inserts anything.
pub record IsAdmitted (x : External) (limits : LearningLimits) (room : ℕ) (p : Progress)
    (item : LearnedApplicationEndpoint) : Type 0 where
  pub key : ApplicationTemplateKey
  pub uid : ℕ
  pub file : ExecutableFileId
  pub unknown : knows LearnedRuleKey-discrete (key_of_application_endpoint x item) p.known ≡ false
  pub group : template_of_selector item.application ≡ ok key
  pub fits :
      length p.outcomes
        + required_slots (not (knows ApplicationTemplateKey-discrete key p.known_templates))
      ≤ room
  pub owner : item.application.uid ≡ some uid
  pub executable : item.application.executable_file ≡ some file
  pub budget : is_saturated limits p.tally uid file ≡ false

abbrev pub made : Rule → Event → LearnOutcome
made rule event = record { rule = rule; event = some event }

fits_of :
    (room n slots : ℕ)
    → room ≤ max_rules
    → ltb room (saturating_add usize_max n slots) ≡ false
    → n + slots ≤ room
fits_of room n slots h e = ground arith

owner_of : (o : Option ℕ) (uid : ℕ) → ok_or incomplete o ≡ ok uid → o ≡ some uid
owner_of o uid h = ground arith

file_of :
    (o : Option ExecutableFileId) (file : ExecutableFileId)
    → ok_or incomplete o ≡ ok file
    → o ≡ some file
file_of o file h = ground arith

group_of :
    (item : LearnedApplicationEndpoint) (key : ApplicationTemplateKey)
    → map_err validation (template_of_selector item.application) ≡ ok key
    → template_of_selector item.application ≡ ok key
group_of item key h = ground arith

module _ (P : Result CoreError (Flow Progress) × State → Type 0) (x : External)
    (limits : LearningLimits) (room : ℕ) (small : room ≤ max_rules) (p : Progress)
    (item : LearnedApplicationEndpoint) (s : State) (idle : P (ok (continues p), s))
    (stop : P (ok (breaks p), s)) (fail : (e : CoreError) → P (err e, s))
    (half : (a : IsAdmitted x limits room p item)
      → knows ApplicationTemplateKey-discrete a.key p.known_templates ≡ false
      → (rule : Rule) (t : State) → Adds s rule t
      → IsTemplateSpec a.key rule.spec
      → (e : CoreError) → P (err e, t))
    (plain : (a : IsAdmitted x limits room p item)
      → knows ApplicationTemplateKey-discrete a.key p.known_templates ≡ true
      → (rule : Rule) (event : Event) (t : State) → Adds s rule t
      → IsLearnedSpec x item.endpoint (some item.application) rule.spec
      → P (ok (continues (learned_one x item a.uid a.file (made rule event) p)), t))
    (both : (a : IsAdmitted x limits room p item)
      → knows ApplicationTemplateKey-discrete a.key p.known_templates ≡ false
      → (group : Rule) (announced : Event) (t : State) → Adds s group t
      → IsTemplateSpec a.key group.spec
      → (rule : Rule) (event : Event) (u : State) → Adds t rule u
      → IsLearnedSpec x item.endpoint (some item.application) rule.spec
      → P (
        ok (
            continues (
              learned_one x item a.uid a.file
                (made rule event)
                (templated a.key (made group announced) p))),
        u,
      )) where
  -- The last insertion of a pass, behind what the pass did before.
  last_cases :
      (uid : ℕ) (file : ExecutableFileId) (q : Progress) (t : State)
      → ((e : CoreError) → P (err e, t))
      → ((rule : Rule) (event : Event) (u : State)
          → Adds t rule u
          → IsLearnedSpec x item.endpoint (some item.application) rule.spec
          → P (ok (continues (learned_one x item uid file (made rule event) q)), u))
      → P (
          (insert_learned_endpoint x q.draws item.endpoint (some item.application) >>= λ o.
          pure (continues (learned_one x item uid file o q)))
            t)
  last_cases uid file q t failed done =
      insert_learned_cases
        (λ r. P (continue r.0 (λ o. pure (continues (learned_one x item uid file o q))) r.1)) x
        q.draws item.endpoint (some item.application) t failed done

  admitted_cases :
      (a : IsAdmitted x limits room p item) (needs : Bool)
      → not (knows ApplicationTemplateKey-discrete a.key p.known_templates) ≡ needs
      → P (learn_application x needs a.key a.uid a.file p item s)
  unfolding learn_application
  admitted_cases a false h = last_cases a.uid a.file p s fail (plain a (ground arith))
  admitted_cases a true h =
      insert_template_cases
        (λ r. P (
          continue (continue r.0 (λ o. pure (templated a.key o p)) r.1).0
            (λ q. insert_learned_endpoint x q.draws item.endpoint (some item.application) >>= λ o.
              pure (continues (learned_one x item a.uid a.file o q)))
            (continue r.0 (λ o. pure (templated a.key o p)) r.1).1))
        p.draws a.key s fail
        λ group announced t added is_group.
          last_cases a.uid a.file (templated a.key (made group announced) p) t
            (half a (ground arith) group t added is_group)
            (both a (ground arith) group announced t added is_group)

  unknown_cases :
      knows LearnedRuleKey-discrete (key_of_application_endpoint x item) p.known ≡ false
      → P (learn_unknown x limits room p item s)
  unfolding learn_unknown
  unknown_cases h =
      lift_cases P (map_err validation (template_of_selector item.application)) _ s fail
        λ key group.
          let needs = not (knows ApplicationTemplateKey-discrete key p.known_templates) in
          elim (Bool-cases
            (ltb room (saturating_add usize_max (length p.outcomes) (required_slots needs)))) [
              | inl full ↦ rw full stop
              | inr free ↦ rw free (
                  lift_cases P (ok_or incomplete item.application.uid) _ s fail λ uid owner.
                    lift_cases P (ok_or incomplete item.application.executable_file) _ s fail
                      λ file executable. elim (Bool-cases (is_saturated limits p.tally uid file)) [
                        | inl spent ↦ rw spent idle
                        | inr budget ↦ rw budget (
                            admitted_cases
                              (record {
                                key = key;
                                uid = uid;
                                file = file;
                                unknown = h;
                                group = group_of item key group;
                                fits =
                                    fits_of room (length p.outcomes) (required_slots needs) small
                                      free;
                                owner = owner_of item.application.uid uid owner;
                                executable =
                                    file_of item.application.executable_file file executable;
                                budget = budget;
                              })
                              needs refl)
                      ])
            ]

  pub pass_cases : P (learn_application_pass x limits room p item s)
  unfolding learn_application_pass
  pass_cases =
      elim (Bool-cases
        (knows LearnedRuleKey-discrete (key_of_application_endpoint x item) p.known)) [
          | inl h ↦ rw h idle
          | inr h ↦ rw h (unknown_cases h)
        ]
