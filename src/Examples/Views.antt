-- ===== src/Examples/Views.antt =====
-- Snapshots and observers of a policy with one rule.
use open_shield.Base.{◌+◌, ◌≡◌, refl, List, [], ◌∷◌, some, min, arith}
use open_shield.Base.Outcome.{ok}
use open_shield.Base.Text.{codes}
use open_shield.Application.Selector
use open_shield.Application.Selector.{ApplicationSelector, ApplicationIdentity}
use open_shield.Model.Kinds.{block_all, enforcing}
use open_shield.Model.Rule.{Rule}
use open_shield.State.Data.{snapshot, mode_changed, max_flow_generation}
use open_shield.State.Mutation.{set_mode_at}
use open_shield.State.Size.Exact.{bounded_serialized_state_size-total}
use open_shield.State.Size.{bounded_serialized_state_size}
use open_shield.State.Interception.{classify_application_interception, no_interception}
use open_shield.State.Interception.Rules.{decided, classify_application_interception-decided}
use open_shield.State.Operation.Modes.{set_mode_at-block_all}
use open_shield.State.Snapshots.{from_snapshot}
use open_shield.State.Snapshots.Loading.{restarted, from_snapshot-snapshot}
use open_shield.State.Observer.{validate_for_observer, redacted_for_observer}
use open_shield.State.Observer.Views.{validate_for_observer-redacted}
use open_shield.State.Observer.Secrecy.{
  AllSameOutside, next, no_rules, applications, redacted_for_observer-AllSameOutside,
}
use open_shield.Fixtures.{one_rule, exhausted, curl_rule, curl_spec, curl_selector, small_files}
use open_shield.Examples.Policy.{one_rule-WellFormed}

one_rule-fits : bounded_serialized_state_size small_files (restarted one_rule) ≡ ok 100
unfolding bounded_serialized_state_size
one_rule-fits = refl

from_snapshot-snapshot_example :
    from_snapshot small_files (snapshot one_rule) ≡ ok (restarted one_rule)
from_snapshot-snapshot_example =
    from_snapshot-snapshot small_files one_rule 100 one_rule-WellFormed one_rule-fits

validate_for_observer-redacted_example :
    validate_for_observer (redacted_for_observer (snapshot one_rule)) ≡ ok tt
validate_for_observer-redacted_example = validate_for_observer-redacted one_rule one_rule-WellFormed

abbrev other_rules : List Rule
other_rules =
    record curl_rule {
      spec = record curl_spec {
        name = record { text = codes "wget" };
        application = some Selector.redacted;
      };
    }
    ∷ []

one_rule-AllSameOutside : AllSameOutside (snapshot one_rule).rules other_rules
unfolding snapshot
one_rule-AllSameOutside =
    next (applications curl_selector Selector.redacted (record { text = codes "wget" }) refl)
      no_rules

redacted_for_observer-AllSameOutside_example :
    redacted_for_observer (snapshot one_rule)
    ≡ redacted_for_observer (record (snapshot one_rule) { rules = other_rules })
redacted_for_observer-AllSameOutside_example =
    redacted_for_observer-AllSameOutside (snapshot one_rule) other_rules one_rule-AllSameOutside

set_mode_at-block_all_example : set_mode_at block_all 20 exhausted ≡ (
  ok (record { revision = 4; occurred_at = 20; kind = mode_changed exhausted.mode block_all }),
  record exhausted {
    revision = 4;
    flow_generation = min (max_flow_generation + 1) max_flow_generation;
    mode = block_all;
  },
)
set_mode_at-block_all_example = set_mode_at-block_all exhausted 20 (omega arith) (omega arith)

classify_application_interception-decided_example :
    classify_application_interception enforcing (curl_rule ∷ [])
    ≡ decided no_interception (curl_rule ∷ [])
classify_application_interception-decided_example =
    classify_application_interception-decided (curl_rule ∷ [])

bounded_serialized_state_size-total_example :
    bounded_serialized_state_size small_files one_rule ≡ ok 100
bounded_serialized_state_size-total_example =
    bounded_serialized_state_size-total small_files one_rule refl
