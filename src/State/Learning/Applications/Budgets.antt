-- ===== src/State/Learning/Applications/Budgets.antt =====
-- The budgets of application learning in crates/openshield-core/src/state.rs: no user, and no
-- executable of a user, gets more learned rules than the limits allow.
use open_shield.Base.{
  ℕ, ◌+◌, ◌≤◌, max, ◌≡◌, refl, ap, ◌∙◌, Bool, true, false, Option, none, some, List, [], ◌∷◌, keep,
  count_if, arith, same, ℕ_discrete, inl, inr, Bool-cases, if◌then◌else◌,
}
use open_shield.BTree.{values}
use open_shield.Application.FileId.{ExecutableFileId}
use open_shield.Application.Selector.{ApplicationSelector}
use open_shield.Model.Rule.{Rule}
use open_shield.State.Data.{State}
use open_shield.State.External.{Draws}
use open_shield.State.Operation.WellFormed.{WellFormed}
use open_shield.State.Keys.{LearningLimits, is_learned_outbound}
use open_shield.State.Counts.{count_of, count_of-bump}
use open_shield.State.Learning.Growth.{Adds, count-Adds}
use open_shield.State.Learning.Applications.{
  ApplicationId, ApplicationId-discrete, Tally, no_rules, tally_one, tally_identity,
  tally_application, tally_rules, start,
}

-- Whose learned rule this is: the user and the executable file that a budget counts.
abbrev pub identity : Option ℕ → Option ExecutableFileId → Option ApplicationId
identity (some uid) (some file) = some (uid, file)
identity none file = none
identity (some uid) none = none

abbrev pub selector_owner : Option ApplicationSelector → Option ApplicationId
selector_owner none = none
selector_owner (some application) = identity application.uid application.executable_file

abbrev pub owner : Rule → Option ApplicationId
owner rule = if is_learned_outbound rule then selector_owner rule.spec.application else none

abbrev pub is_of_user : ℕ → Option ApplicationId → Bool
is_of_user uid none = false
is_of_user uid (some i) = same ℕ_discrete i.0 uid

abbrev pub is_of_application : ApplicationId → Option ApplicationId → Bool
is_of_application i none = false
is_of_application i (some j) = same ApplicationId-discrete j i

-- The learned rules of a user, and of a user's executable.
abbrev pub user_rules : ℕ → List Rule → ℕ
user_rules uid rules = count_if (λ rule. is_of_user uid (owner rule)) rules

abbrev pub application_rules : ApplicationId → List Rule → ℕ
application_rules i rules = count_if (λ rule. is_of_application i (owner rule)) rules

-- The tally counts both.
pub record Tallies (t : Tally) (rules : List Rule) : Type 0 where
  pub users : (uid : ℕ) → count_of ℕ_discrete uid t.per_uid ≡ user_rules uid rules
  pub applications :
      (i : ApplicationId)
      → count_of ApplicationId-discrete i t.per_application ≡ application_rules i rules

-- One rule's worth, by its owner.
abbrev tally_owner : Tally → Option ApplicationId → Tally
tally_owner t none = t
tally_owner t (some i) = tally_one t i.0 i.1

tally_application-owner :
    (t : Tally) (o : Option ApplicationSelector)
    → tally_application t o ≡ tally_owner t (selector_owner o)
tally_application-owner t none = refl
tally_application-owner t (some application) = go application.uid application.executable_file
  where
    go :
        (u : Option ℕ) (f : Option ExecutableFileId)
        → tally_identity t u f ≡ tally_owner t (identity u f)
    go (some u) (some f) = refl
    go none f = refl
    go (some u) none = refl

users-tally_owner :
    (uid : ℕ) (t : Tally) (o : Option ApplicationId)
    → count_of ℕ_discrete uid (tally_owner t o).per_uid
      ≡ count_of ℕ_discrete uid t.per_uid + (if is_of_user uid o then 1 else 0)
unfolding tally_one
users-tally_owner uid t none = omega arith
users-tally_owner uid t (some i) = count_of-bump ℕ_discrete i.0 uid t.per_uid

applications-tally_owner :
    (j : ApplicationId) (t : Tally) (o : Option ApplicationId)
    → count_of ApplicationId-discrete j (tally_owner t o).per_application
      ≡ count_of ApplicationId-discrete j t.per_application
        + (if is_of_application j o then 1 else 0)
unfolding tally_one
applications-tally_owner j t none = omega arith
applications-tally_owner j t (some i) = count_of-bump ApplicationId-discrete i j t.per_application

users-tally_application :
    (uid : ℕ) (t : Tally) (o : Option ApplicationSelector)
    → count_of ℕ_discrete uid (tally_application t o).per_uid
      ≡ count_of ℕ_discrete uid t.per_uid + (if is_of_user uid (selector_owner o) then 1 else 0)
users-tally_application uid t o =
    ap (λ (v : Tally). count_of ℕ_discrete uid v.per_uid) (tally_application-owner t o)
    ∙ users-tally_owner uid t (selector_owner o)

applications-tally_application :
    (i : ApplicationId) (t : Tally) (o : Option ApplicationSelector)
    → count_of ApplicationId-discrete i (tally_application t o).per_application
      ≡ count_of ApplicationId-discrete i t.per_application
        + (if is_of_application i (selector_owner o) then 1 else 0)
applications-tally_application i t o =
    ap (λ (v : Tally). count_of ApplicationId-discrete i v.per_application)
      (tally_application-owner t o)
    ∙ applications-tally_owner i t (selector_owner o)

pub owner-learned :
    (rule : Rule)
    → is_learned_outbound rule ≡ true
    → owner rule ≡ selector_owner rule.spec.application
owner-learned rule h = rw h

owner-other : (rule : Rule) → is_learned_outbound rule ≡ false → owner rule ≡ none
owner-other rule h = rw h

users-tally_rules :
    (uid : ℕ) (t : Tally) (rules : List Rule)
    → count_of ℕ_discrete uid (tally_rules t (keep is_learned_outbound rules)).per_uid
      ≡ count_of ℕ_discrete uid t.per_uid + user_rules uid rules
unfolding tally_rules
users-tally_rules uid t [] = omega arith
users-tally_rules uid t (rule ∷ rest) = elim (Bool-cases (is_learned_outbound rule)) [
  | inl h ↦
      let more = tally_application t rule.spec.application in
      rw h (
        omega (
          arith,
          users-tally_rules uid more rest,
          users-tally_application uid t rule.spec.application,
        ))
  | inr h ↦ rw h (omega (arith, users-tally_rules uid t rest))
]

applications-tally_rules :
    (i : ApplicationId) (t : Tally) (rules : List Rule)
    → count_of ApplicationId-discrete i
        (tally_rules t (keep is_learned_outbound rules)).per_application
      ≡ count_of ApplicationId-discrete i t.per_application + application_rules i rules
unfolding tally_rules
applications-tally_rules i t [] = omega arith
applications-tally_rules i t (rule ∷ rest) = elim (Bool-cases (is_learned_outbound rule)) [
  | inl h ↦
      let more = tally_application t rule.spec.application in
      rw h (
        omega (
          arith,
          applications-tally_rules i more rest,
          applications-tally_application i t rule.spec.application,
        ))
  | inr h ↦ rw h (omega (arith, applications-tally_rules i t rest))
]

pub start-Tallies : (draws : Draws) (s : State) → Tallies (start draws s).tally (values s.rules)
unfolding start tally_rules count_of
start-Tallies draws s = record {
  users = λ uid. omega (arith, users-tally_rules uid no_rules (values s.rules));
  applications = λ i. omega (arith, applications-tally_rules i no_rules (values s.rules));
}

abbrev pub WithinUsers : LearningLimits → State → State → Type 0
WithinUsers limits s t =
    (uid : ℕ)
    → user_rules uid (values t.rules) ≤ max (user_rules uid (values s.rules)) limits.per_uid

abbrev pub WithinApplications : LearningLimits → State → State → Type 0
WithinApplications limits s t =
    (i : ApplicationId)
    → application_rules i (values t.rules)
      ≤ max (application_rules i (values s.rules)) limits.per_application

-- What the loop keeps: the tally is that of the policy, and no budget is overdrawn.
pub record IsWithin (limits : LearningLimits) (s : State) (t : State) : Type 0 where
  pub valid : WellFormed t
  pub users : WithinUsers limits s t
  pub applications : WithinApplications limits s t

-- A rule without an owner changes no count.
pub unowned :
    (limits : LearningLimits) (s t u : State) (rule : Rule)
    → IsWithin limits s t
    → Adds t rule u
    → owner rule ≡ none
    → IsWithin limits s u
unowned limits s t u rule i a e = record {
  valid = a.keeps i.valid;
  users = λ uid.
      let p : Rule → Bool = λ r. is_of_user uid (owner r) in
      let f : p rule ≡ false = rw e in ground (arith, count-Adds i.valid p a, i.users uid);
  applications = λ j.
      let p : Rule → Bool = λ r. is_of_application j (owner r) in
      let f : p rule ≡ false = rw e in ground (arith, count-Adds i.valid p a, i.applications j);
}
