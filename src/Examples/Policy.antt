-- ===== src/Examples/Policy.antt =====
-- The policy of crates/openshield-core/src/state.rs.
use open_shield.Base.{◌+◌, ◌≡◌, refl, false, List, [], ◌∷◌, arith, inl}
use open_shield.BTree
use open_shield.Application.FileId
use open_shield.Application.Selector
use open_shield.Model.Kinds.{
  enforcing, Direction-discrete, RuleAction-discrete, TransportProtocol-discrete,
  RuleOrigin-discrete,
}
use open_shield.Model.RuleSpec
use open_shield.Model.Rule
use open_shield.State.Data.{rule_not_found, next_revision, next_flow_generation}
use open_shield.State.Pins.{reject_redacted_rule, reject_unpinned_application_spec}
use open_shield.State.Keys.{default_limits}
use open_shield.State.Mutation.{delete_rule_at}
use open_shield.State.Operation.{Operation, creates, deletes, enables, sets_mode, perform, run}
use open_shield.State.Operation.WellFormed.{WellFormed, IsEntry}
use open_shield.State.Operation.WellFormed.Runs.{run-WellFormed}
use open_shield.State.Operation.Atomic.{perform_atomic, revision-run, counted_successes}
use open_shield.State.Operation.Revocation.{Revokes, perform_renews}
use open_shield.State.Learning.Applications.{learn_new_application_endpoints_with_limits}
use open_shield.State.Learning.Applications.Growth.{IsSafeGrowth, learn_applications-IsSafeGrowth}
use open_shield.State.Learning.Applications.Budgets.{IsWithin}
use open_shield.State.Learning.Applications.Quota.{learn_applications-IsWithin}
use open_shield.Fixtures.{one_rule, curl_rule, drop_spec, observed, small_files, from_hundred}

curl_rule-IsEntry : IsEntry (5, curl_rule)
unfolding Rule.validate RuleSpec.validate Selector.validate FileId.validate reject_redacted_rule
    reject_unpinned_application_spec Direction-discrete RuleAction-discrete
    TransportProtocol-discrete RuleOrigin-discrete
curl_rule-IsEntry = record { keyed = refl; valid = refl; visible = refl; pinned = refl }

pub one_rule-WellFormed : WellFormed one_rule
one_rule-WellFormed = record {
  revision = omega arith;
  generation = (omega arith, omega arith);
  size = omega arith;
  sorted = (omega arith, tt);
  entries = (curl_rule-IsEntry, tt);
}

abbrev history : List Operation
history = creates 9 drop_spec 11 ∷ enables 5 false 12 ∷ deletes 7 13 ∷ sets_mode enforcing 14 ∷ []

run-WellFormed_example : WellFormed (run one_rule history)
run-WellFormed_example = run-WellFormed one_rule history one_rule-WellFormed

-- Rule 7 is not there to be deleted.
perform_atomic_example : (perform (deletes 7 13) one_rule).1 ≡ one_rule
unfolding perform delete_rule_at next_revision BTree.get
perform_atomic_example = perform_atomic (deletes 7 13) one_rule (rule_not_found 7) refl

revision-run_example : (run one_rule history).revision ≡ 3 + counted_successes one_rule history
revision-run_example = revision-run one_rule history

curl_withdrawn : Revokes one_rule (perform (deletes 5 13) one_rule).1
unfolding perform delete_rule_at next_revision next_flow_generation BTree.get BTree.remove
curl_withdrawn =
    inl (record { id = 5; rule = curl_rule; held = refl; active = refl; gone = λ kept h. cc })

perform_renews_example : (perform (deletes 5 13) one_rule).1.flow_generation ≡ 9
perform_renews_example = perform_renews (deletes 5 13) one_rule curl_withdrawn

learn_applications-IsSafeGrowth_example :
    IsSafeGrowth one_rule
      (learn_new_application_endpoints_with_limits small_files from_hundred
        (observed ∷ [])
        10
        default_limits
        one_rule).1
learn_applications-IsSafeGrowth_example =
    learn_applications-IsSafeGrowth small_files from_hundred (observed ∷ []) 10 default_limits
      one_rule one_rule-WellFormed (omega arith)

learn_applications-IsWithin_example :
    IsWithin default_limits one_rule
      (learn_new_application_endpoints_with_limits small_files from_hundred
        (observed ∷ [])
        10
        default_limits
        one_rule).1
learn_applications-IsWithin_example =
    learn_applications-IsWithin small_files from_hundred (observed ∷ []) 10 default_limits one_rule
      one_rule-WellFormed
