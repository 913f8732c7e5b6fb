-- ===== src/State/Learning/Applications/Quota.antt =====
-- Every pass of the application-learning loop of crates/openshield-core/src/state.rs stays within
-- the budgets.
use open_shield.Base.{
  ℕ, ◌≤◌, ◌<◌, ◌≡◌, refl, ap, ◌∙◌, Bool, false, none, some, List, arith, same, take, ℕ_discrete,
}
use open_shield.Base.Outcome.{Result, ok, err}
use open_shield.Base.Exec.{AfterPass, AfterLoop, for_each, for_each_inv, lift_cases, continue, pure}
use open_shield.BTree.{values}
use open_shield.Application.FileId.{ExecutableFileId}
use open_shield.Model.Rule.{Rule}
use open_shield.Model.LearnedEndpoint.{LearnedApplicationEndpoint}
use open_shield.State.Data.{State, CoreError, max_rules}
use open_shield.State.External.{External, Draws}
use open_shield.State.Operation.WellFormed.{WellFormed}
use open_shield.State.Keys.{LearningLimits, ApplicationTemplateKey}
use open_shield.State.Counts.{count_of, count_of-bump}
use open_shield.State.Learning.{room_for, validate_all}
use open_shield.State.Learning.Growth.{Adds, count-Adds}
use open_shield.State.Learning.Insertion.{IsLearnedSpec, IsTemplateSpec}
use open_shield.State.Learning.Applications.{
  ApplicationId-discrete, Tally, tally_one, is_saturated, Progress, start, check_item,
  learn_application_pass, learn_new_application_endpoints_with_limits,
}
use open_shield.State.Learning.Applications.Cases.{IsAdmitted, pass_cases}
use open_shield.State.Learning.Applications.Growth.{All-trivial}
use open_shield.State.Learning.Applications.Budgets.{
  identity, selector_owner, owner, owner-learned, is_of_user, is_of_application, Tallies,
  start-Tallies, IsWithin, unowned,
}

-- The group template of an application has no owner.
owner-template :
    (key : ApplicationTemplateKey) (rule : Rule) → IsTemplateSpec key rule.spec → owner rule ≡ none
owner-template key rule i = rw i.whole (ground arith)

-- The rule of an admitted observation is its user's and its executable's.
owner-admitted :
    (x : External) (limits : LearningLimits) (room : ℕ) (p : Progress)
    (item : LearnedApplicationEndpoint) (a : IsAdmitted x limits room p item) (rule : Rule)
    → IsLearnedSpec x item.endpoint (some item.application) rule.spec
    → owner rule ≡ some (a.uid, a.file)
owner-admitted x limits room p item a rule i =
    let at : selector_owner rule.spec.application ≡ some (a.uid, a.file) =
      ap selector_owner i.application
      ∙ ap (λ o. identity o item.application.executable_file) a.owner
      ∙ ap (λ o. identity (some a.uid) o) a.executable in
    owner-learned rule (rw (i.origin, i.direction) (ground arith)) ∙ at

below :
    (limits : LearningLimits) (t : Tally) (uid : ℕ) (file : ExecutableFileId)
    → is_saturated limits t uid file ≡ false
    → (count_of ℕ_discrete uid t.per_uid < limits.per_uid)
      × (count_of ApplicationId-discrete (uid, file) t.per_application < limits.per_application)
below limits t uid file h = ground arith

-- The tally after the rule of `owner` is added.
tallied :
    (t : Tally) (s u : State) (rule : Rule) (uid : ℕ) (file : ExecutableFileId)
    → WellFormed s
    → Tallies t (values s.rules)
    → Adds s rule u
    → owner rule ≡ some (uid, file)
    → Tallies (tally_one t uid file) (values u.rules)
unfolding tally_one
tallied t s u rule uid file w h a e = record {
  users = λ v.
      let p : Rule → Bool = λ r. is_of_user v (owner r) in
      let f : p rule ≡ same ℕ_discrete uid v = rw e refl in
      count_of-bump ℕ_discrete uid v t.per_uid ∙ ground (arith, count-Adds w p a, h.users v);
  applications = λ j.
      let p : Rule → Bool = λ r. is_of_application j (owner r) in
      let f : p rule ≡ same ApplicationId-discrete (uid, file) j = rw e refl in
      count_of-bump ApplicationId-discrete (uid, file) j t.per_application
      ∙ ground (arith, count-Adds w p a, h.applications j);
}

-- One more rule of an owner whose tally is below both limits.
owned :
    (limits : LearningLimits) (s t u : State) (tally : Tally) (rule : Rule) (uid : ℕ)
    (file : ExecutableFileId)
    → IsWithin limits s t
    → Tallies tally (values t.rules)
    → Adds t rule u
    → owner rule ≡ some (uid, file)
    → is_saturated limits tally uid file ≡ false
    → IsWithin limits s u
owned limits s t u tally rule uid file i h a e free =
    let (few, fewer) = below limits tally uid file free in
    record {
      valid = a.keeps i.valid;
      users = λ v.
          let p : Rule → Bool = λ r. is_of_user v (owner r) in
          let f : p rule ≡ same ℕ_discrete uid v = rw e refl in
          elim (ℕ_discrete uid v) [
            | yes k ↦
                let m : count_of ℕ_discrete v tally.per_uid < limits.per_uid = rw k at few in
                ground (arith, count-Adds i.valid p a, h.users v)
            | no k ↦ ground (arith, count-Adds i.valid p a, i.users v)
          ];
      applications = λ j.
          let p : Rule → Bool = λ r. is_of_application j (owner r) in
          let f : p rule ≡ same ApplicationId-discrete (uid, file) j = rw e refl in
          elim (ApplicationId-discrete (uid, file) j) [
            | yes k ↦
                let m : count_of ApplicationId-discrete j tally.per_application
                    < limits.per_application =
                  rw k at fewer in
                ground (arith, count-Adds i.valid p a, h.applications j)
            | no k ↦ ground (arith, count-Adds i.valid p a, i.applications j)
          ];
    }

-- A rule without an owner leaves the tally right.
unowned_tally :
    (t : Tally) (s u : State) (rule : Rule)
    → WellFormed s
    → Tallies t (values s.rules)
    → Adds s rule u
    → owner rule ≡ none
    → Tallies t (values u.rules)
unowned_tally t s u rule w h a e = record {
  users = λ v.
      let p : Rule → Bool = λ r. is_of_user v (owner r) in
      let f : p rule ≡ false = rw e in ground (arith, count-Adds w p a, h.users v);
  applications = λ j.
      let p : Rule → Bool = λ r. is_of_application j (owner r) in
      let f : p rule ≡ false = rw e in ground (arith, count-Adds w p a, h.applications j);
}

-- The invariant of the loop.
record Both (limits : LearningLimits) (s t : State) (tally : Tally) : Type 0 where
  within : IsWithin limits s t
  tallies : Tallies tally (values t.rules)

abbrev Inv : LearningLimits → State → Progress → State → Type 0
Inv limits s p t = Both limits s t p.tally

module _ (x : External) (limits : LearningLimits) (room : ℕ) (small : room ≤ max_rules)
    (s : State) where
  pass-Inv :
      (p : Progress) (item : LearnedApplicationEndpoint) (t : State)
      → Inv limits s p t
      → Unit {0}
      → AfterPass (Inv limits s) (IsWithin limits s) (learn_application_pass x limits room p item t)
  pass-Inv p item t i _ =
      pass_cases (AfterPass (Inv limits s) (IsWithin limits s)) x limits room small p item t i i
        (λ _. i.within) (λ a _ group u added is_group _. grouped a.key group u added is_group)
        (λ a _ rule event u added fields.
          after_rule a rule fields p.tally t u i.within i.tallies added a.budget)
        (λ a _ group _ u first is_group rule event v second fields.
          after_rule a rule fields p.tally u v (grouped a.key group u first is_group)
            (same_tally group u first (owner-template a.key group is_group)) second a.budget)
    where
      grouped :
          (key : ApplicationTemplateKey) (group : Rule) (u : State)
          → Adds t group u
          → IsTemplateSpec key group.spec
          → IsWithin limits s u
      grouped key group u added is_group =
          unowned limits s t u group i.within added (owner-template key group is_group)

      same_tally :
          (group : Rule) (u : State)
          → Adds t group u
          → owner group ≡ none
          → Tallies p.tally (values u.rules)
      same_tally group u added e = unowned_tally p.tally t u group i.within.valid i.tallies added e

      after_rule :
          (a : IsAdmitted x limits room p item) (rule : Rule)
          → IsLearnedSpec x item.endpoint (some item.application) rule.spec
          → (tally : Tally) (u v : State) → IsWithin limits s u
          → Tallies tally (values u.rules)
          → Adds u rule v
          → is_saturated limits tally a.uid a.file ≡ false
          → Both limits s v (tally_one tally a.uid a.file)
      after_rule a rule fields tally u v within tallies added free =
          let e = owner-admitted x limits room p item a rule fields in
          record {
            within = owned limits s u v tally rule a.uid a.file within tallies added e free;
            tallies = tallied tally u v rule a.uid a.file within.valid tallies added e;
          }

loop_result :
    (limits : LearningLimits) (s : State) (r : Result CoreError Progress × State)
    → AfterLoop (Inv limits s) (IsWithin limits s) r
    → IsWithin limits s (continue r.0 (λ p. pure p.outcomes) r.1).1
loop_result limits s (ok p, t) h = h.within
loop_result limits s (err e, t) h = h

-- After learning from applications at a well-formed policy, also after an error, no user has more
-- learned rules than the larger of what the user had before and the limit, and the same holds of
-- each executable of a user.
pub learn_applications-IsWithin :
    (x : External) (draws : Draws) (all : List LearnedApplicationEndpoint) (maximum_new : ℕ)
    (limits : LearningLimits) (s : State)
    → WellFormed s
    → IsWithin limits s
        (learn_new_application_endpoints_with_limits x draws all maximum_new limits s).1
unfolding learn_new_application_endpoints_with_limits
learn_applications-IsWithin x draws all maximum_new limits s w =
    let room = room_for maximum_new s in
    let begin : IsWithin limits s s = record {
      valid = w;
      users = λ v. omega arith;
      applications = λ j. omega arith;
    } in
    lift_cases (λ r. IsWithin limits s r.1) (validate_all check_item (take max_rules all)) _ s
      (λ _. begin)
      λ _ _.
        loop_result limits s
          (for_each (learn_application_pass x limits room) (start draws s) (take max_rules all) s)
          (for_each_inv (Inv limits s) (IsWithin limits s) (λ _. Unit {0})
            (learn_application_pass x limits room) (pass-Inv x limits room (omega arith) s)
            (start draws s) (take max_rules all) s
            (record { within = begin; tallies = start-Tallies draws s })
            (All-trivial (take max_rules all)))
