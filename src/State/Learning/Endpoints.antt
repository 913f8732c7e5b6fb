-- ===== src/State/Learning/Endpoints.antt =====
-- `learn_endpoint` and `learn_new_endpoints` of crates/openshield-core/src/state.rs.
pub mod Growth
use open_shield.Base.{
  ℕ, ◌&&◌, Option, none, some, List, [], ◌∷◌, ◌++◌, length, take, find, leb, same, if◌then◌else◌,
}
use open_shield.Base.Outcome.{reject_if, map_err}
use open_shield.Base.Exec.{Exec, pure, lift, self, ◌>>=◌, ◌>>◌, Flow, continues, breaks, for_each}
use open_shield.BTree.{values}
use open_shield.Model.Rule.{Rule}
use open_shield.Model.LearnedEndpoint
use open_shield.Model.LearnedEndpoint.{LearnedEndpoint}
use open_shield.State.Data.{
  State, CoreError, validation, rules_limit_reached, max_rules, max_automatic_learned_rules,
}
use open_shield.State.External.{External, Draws, later}
use open_shield.State.Keys.{
  LearnedRuleKey, LearnedRuleKey-discrete, key_of_endpoint, key_of_rule, is_learned_outbound, knows,
}
use open_shield.State.Learning.{
  LearnOutcome, insert_learned_endpoint, automatic_count, known_keys, room_for, validate_all,
}

-- Where `find` sees the endpoint among the learned outbound rules, or not.
abbrev pub learn_found :
    External → Draws → LearnedEndpoint → Option Rule → Exec CoreError State LearnOutcome
learn_found x draws endpoint (some rule) = pure (record { rule = rule; event = none })
learn_found x draws endpoint none = do
  s ← self
  lift (
      reject_if (leb max_automatic_learned_rules (automatic_count s))
        (rules_limit_reached max_automatic_learned_rules))
  insert_learned_endpoint x draws endpoint none

unfoldable pub learn_endpoint :
    External → Draws → LearnedEndpoint → Exec CoreError State LearnOutcome
learn_endpoint x draws endpoint = do
  lift (map_err validation (LearnedEndpoint.validate endpoint))
  s ← self
  learn_found x draws endpoint (
      find
        (λ rule.
          is_learned_outbound rule
          && same LearnedRuleKey-discrete (key_of_rule rule) (key_of_endpoint x endpoint))
        (values s.rules))

-- The variables of the loop of `learn_new_endpoints`.
pub record Progress : Type 0 where
  pub known : List LearnedRuleKey
  pub outcomes : List LearnOutcome
  pub draws : Draws

unfoldable pub learn_pass :
    External → ℕ → Progress → LearnedEndpoint → Exec CoreError State (Flow Progress)
learn_pass x maximum_new p endpoint =
    let key = key_of_endpoint x endpoint in
    let insert : Exec CoreError State (Flow Progress) = do
      outcome ← insert_learned_endpoint x p.draws endpoint none
      pure (
          continues (record {
            known = key ∷ p.known;
            outcomes = p.outcomes ++ outcome ∷ [];
            draws = later p.draws;
          }))
    in if knows LearnedRuleKey-discrete key p.known
      then pure (continues p)
      else if leb maximum_new (length p.outcomes)
      then pure (breaks p)
      else insert

unfoldable pub learn_new_endpoints :
    External → Draws → List LearnedEndpoint → ℕ → Exec CoreError State (List LearnOutcome)
unfolding learn_pass
learn_new_endpoints x draws all maximum_new = do
  let endpoints = take max_rules all
  lift (validate_all (λ endpoint. map_err validation (LearnedEndpoint.validate endpoint)) endpoints)
  s ← self
  p ←
      for_each (learn_pass x (room_for maximum_new s))
        (record { known = known_keys s; outcomes = []; draws = draws }) endpoints
  pure p.outcomes
