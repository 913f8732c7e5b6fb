-- ===== src/State/Learning/Templates.antt =====
-- `ensure_application_group_templates` of crates/openshield-core/src/state.rs.
pub mod Growth
use open_shield.Base.{
  ℕ, true, false, not, Option, none, some, List, [], ◌∷◌, ◌++◌, take, ltb, keep, is_empty,
  if◌then◌else◌,
}
use open_shield.Base.Words.{usize_max, saturating_add}
use open_shield.Base.Outcome.{Result, ok, err, to_option}
use open_shield.Base.Exec.{
  Exec, pure, lift, self, modify, ◌>>=◌, ◌>>◌, Flow, continues, breaks, for_each,
}
use open_shield.BTree
use open_shield.BTree.{values}
use open_shield.Application.Selector.{ApplicationSelector}
use open_shield.Model.Rule.{Rule, Uuid}
use open_shield.State.Data.{State, CoreError, max_state_bytes}
use open_shield.State.External.{External, Draws, later}
use open_shield.State.Size.{bounded_serialized_state_size, serialized_rule_map_entry_delta}
use open_shield.State.Keys.{
  ApplicationTemplateKey, ApplicationTemplateKey-discrete, template_of_selector, templates_of,
  is_learned_outbound, knows,
}
use open_shield.State.Learning.{LearnOutcome, insert_application_group_template, room_for}

abbrev pub group_of : Option ApplicationSelector → Option ApplicationTemplateKey
group_of none = none
group_of (some selector) = to_option (template_of_selector selector)

-- `.filter(|key| known.insert(key.clone()))` over the groups of the learned rules, in their order.
unfoldable pub missing_groups :
    List ApplicationTemplateKey → List Rule → List ApplicationTemplateKey
missing_groups known [] = []
missing_groups known (rule ∷ rest) = elim (group_of rule.spec.application) [
  | none ↦ missing_groups known rest
  | some key ↦ elim (knows ApplicationTemplateKey-discrete key known) [
    | true ↦ missing_groups known rest
    | false ↦ key ∷ missing_groups (key ∷ known) rest
  ]
]

pub record Progress : Type 0 where
  pub serialized_size : ℕ
  pub outcomes : List LearnOutcome
  pub draws : Draws

-- `self.rules.remove(..); self.revision = ..; self.flow_generation = ..;`
abbrev pub rolled_back : State → Uuid → State → State
rolled_back previous id s = record s {
  rules = BTree.remove id s.rules;
  revision = previous.revision;
  flow_generation = previous.flow_generation;
}

-- What follows the computed delta, where the policy was `previous` before the insertion.
abbrev pub settle :
    ℕ → Progress → State → LearnOutcome → Result CoreError ℕ → Exec CoreError State (Flow Progress)
settle maximum_state_bytes p previous outcome (err error) = do
  modify (rolled_back previous outcome.rule.id)
  lift (err error)
settle maximum_state_bytes p previous outcome (ok size_delta) =
    let candidate_size = saturating_add usize_max p.serialized_size size_delta in
    let stop : Exec CoreError State (Flow Progress) = do
      modify (rolled_back previous outcome.rule.id)
      pure (breaks p)
    in if ltb maximum_state_bytes candidate_size
      then stop
      else pure (
          continues (record {
            serialized_size = candidate_size;
            outcomes = p.outcomes ++ outcome ∷ [];
            draws = later p.draws;
          }))

unfoldable pub ensure_pass :
    External → ℕ → Progress → ApplicationTemplateKey → Exec CoreError State (Flow Progress)
ensure_pass x maximum_state_bytes p group = do
  previous ← self
  outcome ← insert_application_group_template p.draws group
  current ← self
  settle maximum_state_bytes p previous outcome (
      serialized_rule_map_entry_delta x outcome.rule previous.revision current.revision
        (not (is_empty previous.rules)))

unfoldable pub ensure_application_group_templates_with_size_limit :
    External → Draws → ℕ → ℕ → Exec CoreError State (List LearnOutcome)
unfolding ensure_pass missing_groups
ensure_application_group_templates_with_size_limit x draws maximum_new maximum_state_bytes = do
  s ← self
  serialized_size ← lift (bounded_serialized_state_size x s)
  p ←
      for_each (ensure_pass x maximum_state_bytes)
        (record { serialized_size = serialized_size; outcomes = []; draws = draws })
        (take (room_for maximum_new s) (
          missing_groups (templates_of (values s.rules))
            (keep is_learned_outbound (values s.rules))))
  pure p.outcomes

unfoldable pub ensure_application_group_templates :
    External → Draws → ℕ → Exec CoreError State (List LearnOutcome)
unfolding ensure_application_group_templates_with_size_limit
ensure_application_group_templates x draws maximum_new =
    ensure_application_group_templates_with_size_limit x draws maximum_new max_state_bytes
