-- ===== src/State/Learning/Endpoints/Growth.antt =====
-- What learning endpoints without applications keeps: `learn_endpoint` and `learn_new_endpoints`
-- of crates/openshield-core/src/state.rs.
use open_shield.Base.{
  ℕ, ◌≤◌, Bool-cases, inl, inr, List, [], ◌∷◌, length, leb, take, none, some, ◌++◌, arith,
}
use open_shield.Base.Outcome.{Result, ok, err, map_err}
use open_shield.Base.Exec.{
  lift_cases, continues, for_each, AfterPass, AfterLoop, for_each_inv, pure, continue,
}
use open_shield.Model.LearnedEndpoint
use open_shield.Model.LearnedEndpoint.{LearnedEndpoint}
use open_shield.State.Data.{State, CoreError, validation, max_rules, max_automatic_learned_rules}
use open_shield.State.External.{External, Draws, later}
use open_shield.State.Keys.{LearnedRuleKey-discrete, key_of_endpoint, knows}
use open_shield.State.Learning.{automatic_count, known_keys, room_for, validate_all}
use open_shield.State.Learning.Endpoints.{Progress, learn_pass, learn_new_endpoints}
use open_shield.State.Learning.Growth.{start as nothing}
use open_shield.State.Learning.Insertion.{insert_learned_cases}
use open_shield.State.Learning.Applications.Growth.{
  Grown, GrownUnreported, GrownResult, Grown-more, unreported, All-trivial, IsSafeGrowth,
  safe_result,
}
use open_shield.State.Operation.WellFormed.{WellFormed}

module _ (x : External) (room : ℕ) (s : State) where
  abbrev Inv : Progress → State → Type 0
  Inv p t = Grown s room p.outcomes t

  pass_grows :
      (p : Progress) (endpoint : LearnedEndpoint) (t : State)
      → Inv p t
      → Unit {0}
      → AfterPass Inv (GrownUnreported s room) (learn_pass x room p endpoint t)
  unfolding learn_pass
  pass_grows p endpoint t g _ =
      elim (Bool-cases (knows LearnedRuleKey-discrete (key_of_endpoint x endpoint) p.known)) [
        | inl k ↦ rw k g
        | inr k ↦ elim (Bool-cases (leb room (length p.outcomes))) [
          | inl full ↦ rw (k, full) g
          | inr free ↦
              rw (k, free)
                (insert_learned_cases
                  (λ r. AfterPass Inv (GrownUnreported s room) (
                    continue r.0
                      (λ outcome. pure (
                        continues (record {
                          known = key_of_endpoint x endpoint ∷ p.known;
                          outcomes = p.outcomes ++ outcome ∷ [];
                          draws = later p.draws;
                        })))
                      r.1))
                  x p.draws endpoint none t (λ _. unreported g)
                  (λ rule event u added _.
                    Grown-more (record { rule = rule; event = some event }) g (ground arith) added))
        ]
      ]

loop_end :
    (s : State) (room : ℕ) (r : Result CoreError Progress × State)
    → AfterLoop (λ p t. Grown s room p.outcomes t) (GrownUnreported s room) r
    → GrownResult s room (continue r.0 (λ p. pure p.outcomes) r.1)
loop_end s room (ok p, t) h = h
loop_end s room (err e, t) h = h

learn_new_endpoints-Grown :
    (x : External) (draws : Draws) (all : List LearnedEndpoint) (maximum_new : ℕ) (s : State)
    → GrownResult s (room_for maximum_new s) (learn_new_endpoints x draws all maximum_new s)
unfolding learn_new_endpoints
learn_new_endpoints-Grown x draws all maximum_new s =
    let room = room_for maximum_new s in
    let empty : Grown s room [] s = record { growth = nothing; bound = omega arith } in
    lift_cases (GrownResult s room)
      (validate_all (λ endpoint. map_err validation (LearnedEndpoint.validate endpoint))
        (take max_rules all))
      _ s (λ _. unreported empty)
      λ _ _.
        let first : Progress = record { known = known_keys s; outcomes = []; draws = draws } in
        loop_end s room (for_each (learn_pass x room) first (take max_rules all) s) (
          for_each_inv (λ p t. Grown s room p.outcomes t) (GrownUnreported s room) (λ _. Unit {0})
            (learn_pass x room) (pass_grows x room s) first (take max_rules all) s empty
            (All-trivial (take max_rules all)))

-- Where the policy is well-formed and within the reserve of automatic rules, learning endpoints
-- keeps it so, also after an error: its mode, strategy and flow generation stay, and no rule is
-- replaced or removed.
pub learn_new_endpoints-IsSafeGrowth :
    (x : External) (draws : Draws) (all : List LearnedEndpoint) (maximum_new : ℕ) (s : State)
    → WellFormed s
    → automatic_count s ≤ max_automatic_learned_rules
    → IsSafeGrowth s (learn_new_endpoints x draws all maximum_new s).1
learn_new_endpoints-IsSafeGrowth x draws all maximum_new s w h =
    safe_result maximum_new (learn_new_endpoints x draws all maximum_new s) w h
      (learn_new_endpoints-Grown x draws all maximum_new s)
