-- ===== src/State/Learning/Applications/Growth.antt =====
-- Application learning of crates/openshield-core/src/state.rs only adds: its bounds, and what it
-- leaves alone.
use open_shield.Base.{
  ℕ, ◌+◌, ◌≤◌, ◌≡◌, refl, sym, subst, false, none, some, List, [], ◌∷◌, ◌++◌, map, arith, length,
  length-append, take, All,
}
use mathlib.Core.List.{map-append}
use open_shield.Base.Outcome.{Result, ok, err}
use open_shield.Base.Exec.{AfterPass, AfterLoop, for_each, for_each_inv, lift_cases, continue, pure}
use open_shield.BTree
use open_shield.Model.Rule.{Rule, Uuid}
use open_shield.Model.LearnedEndpoint.{LearnedApplicationEndpoint}
use open_shield.State.Data.{State, CoreError, max_rules, max_automatic_learned_rules}
use open_shield.State.External.{External, Draws}
use open_shield.State.Operation.WellFormed.{WellFormed}
use open_shield.State.Keys.{LearningLimits, ApplicationTemplateKey-discrete, knows}
use open_shield.State.Learning.{LearnOutcome, automatic_count, room_for, validate_all}
use open_shield.State.Learning.Growth.{
  Adds, Grows, start as nothing, step, SameSettings, Grows-WellFormed, Grows-SameSettings,
  Grows-kept, automatic_count-Grows,
}
use open_shield.State.Learning.Applications.{
  Progress, start, learn_application_pass, check_item, learn_new_application_endpoints_with_limits,
}
use open_shield.State.Learning.Applications.Cases.{made, IsAdmitted, pass_cases}

abbrev pub rules_of : List LearnOutcome → List Rule
rules_of outcomes = map (λ o. o.rule) outcomes

-- So far `s` has grown into `t` by the outcomes, at most `room` of them.
pub record Grown (s : State) (room : ℕ) (outcomes : List LearnOutcome) (t : State) : Type 0 where
  pub growth : Grows s (rules_of outcomes) t
  pub bound : length outcomes ≤ room

-- After an error too, what was added counts against the room.
pub record GrownUnreported (s : State) (room : ℕ) (t : State) : Type 0 where
  pub rules : List Rule
  pub growth : Grows s rules t
  pub bound : length rules ≤ room

pub Grown-more :
    {s : State} {room : ℕ} {outcomes : List LearnOutcome} {t u : State} (o : LearnOutcome)
    → Grown s room outcomes t
    → length outcomes + 1 ≤ room
    → Adds t o.rule u
    → Grown s room (outcomes ++ o ∷ []) u
Grown-more {s} {outcomes = outcomes} {u = u} o g h a = record {
  growth =
      subst (λ rules. Grows s rules u)
        (sym (map-append (λ (z : LearnOutcome). z.rule) outcomes (o ∷ [])))
        (step o.rule g.growth a);
  bound = omega (arith, length-append outcomes (o ∷ []));
}

pub length-rules_of : (outcomes : List LearnOutcome) → length (rules_of outcomes) ≡ length outcomes
length-rules_of [] = refl
length-rules_of (o ∷ rest) = omega (arith, length-rules_of rest)

pub unreported :
    {s : State} {room : ℕ} {outcomes : List LearnOutcome} {t : State}
    → Grown s room outcomes t
    → GrownUnreported s room t
unreported {outcomes = outcomes} g = record {
  rules = rules_of outcomes;
  growth = g.growth;
  bound = omega (arith, length-rules_of outcomes, g.bound);
}

module _ (x : External) (limits : LearningLimits) (room : ℕ) (small : room ≤ max_rules)
    (s : State) where
  pass_grows :
      (p : Progress) (item : LearnedApplicationEndpoint) (t : State)
      → Grown s room p.outcomes t
      → Unit {0}
      → AfterPass
          (λ q u. Grown s room q.outcomes u)
          (GrownUnreported s room)
          (learn_application_pass x limits room p item t)
  pass_grows p item t g _ =
      pass_cases (AfterPass (λ q u. Grown s room q.outcomes u) (GrownUnreported s room)) x limits
        room small p item t g g (λ _. unreported g)
        (λ a fresh rule u added _ _.
          unreported (Grown-more (record { rule = rule; event = none }) g (slot a) added))
        (λ a known rule event u added _. Grown-more (made rule event) g (slot a) added)
        (λ a fresh group announced u first _ rule event v second _.
          let one = Grown-more (made group announced) g (slot a) first in
          Grown-more (made rule event) one
            (omega (arith, length-append p.outcomes (made group announced ∷ []), two a fresh))
            second)
    where
      slot : IsAdmitted x limits room p item → length p.outcomes + 1 ≤ room
      slot a = ground (arith, a.fits)

      two :
          (a : IsAdmitted x limits room p item)
          → knows ApplicationTemplateKey-discrete a.key p.known_templates ≡ false
          → length p.outcomes + 2 ≤ room
      two a fresh = ground (arith, a.fits)

-- The outcome of the whole function.
abbrev pub GrownResult : State → ℕ → Result CoreError (List LearnOutcome) × State → Type 0
GrownResult s room (ok outcomes, t) = Grown s room outcomes t
GrownResult s room (err e, t) = GrownUnreported s room t

pub loop_result :
    (s : State) (room : ℕ) (r : Result CoreError Progress × State)
    → AfterLoop (λ q u. Grown s room q.outcomes u) (GrownUnreported s room) r
    → GrownResult s room (continue r.0 (λ p. pure p.outcomes) r.1)
loop_result s room (ok p, t) h = h
loop_result s room (err e, t) h = h

pub All-trivial : {A : Type 0} (list : List A) → All (λ _. Unit {0}) list
All-trivial [] = tt
All-trivial (a ∷ rest) = (tt, All-trivial rest)

pub learn_applications-Grown :
    (x : External) (draws : Draws) (all : List LearnedApplicationEndpoint) (maximum_new : ℕ)
    (limits : LearningLimits) (s : State)
    → GrownResult s
        (room_for maximum_new s)
        (learn_new_application_endpoints_with_limits x draws all maximum_new limits s)
unfolding learn_new_application_endpoints_with_limits
learn_applications-Grown x draws all maximum_new limits s =
    let room = room_for maximum_new s in
    let empty : Grown s room [] s = record { growth = nothing; bound = omega arith } in
    lift_cases (GrownResult s room) (validate_all check_item (take max_rules all)) _ s
      (λ _. unreported empty)
      λ _ _.
        loop_result s room
          (for_each (learn_application_pass x limits room) (start draws s) (take max_rules all) s)
          (for_each_inv (λ q u. Grown s room q.outcomes u) (GrownUnreported s room) (λ _. Unit {0})
            (learn_application_pass x limits room) (pass_grows x limits room (omega arith) s)
            (start draws s) (take max_rules all) s empty (All-trivial (take max_rules all)))

-- What learning guarantees of the policy that it leaves, also after an error.
pub record IsSafeGrowth (s t : State) : Type 0 where
  pub valid : WellFormed t
  pub settings : SameSettings s t
  pub kept :
      (id : Uuid) (rule : Rule)
      → BTree.get id s.rules ≡ some rule
      → BTree.get id t.rules ≡ some rule
  pub reserve : automatic_count t ≤ max_automatic_learned_rules

pub safe_growth :
    {s : State} {rules : List Rule} {t : State} (maximum_new : ℕ)
    → WellFormed s
    → automatic_count s ≤ max_automatic_learned_rules
    → Grows s rules t
    → length rules ≤ room_for maximum_new s
    → IsSafeGrowth s t
safe_growth maximum_new w reserve g h = record {
  valid = Grows-WellFormed g w;
  settings = Grows-SameSettings g;
  kept = Grows-kept g;
  reserve = omega (arith, automatic_count-Grows w g);
}

pub safe_result :
    {s : State} (maximum_new : ℕ) (r : Result CoreError (List LearnOutcome) × State)
    → WellFormed s
    → automatic_count s ≤ max_automatic_learned_rules
    → GrownResult s (room_for maximum_new s) r
    → IsSafeGrowth s r.1
safe_result maximum_new (ok outcomes, t) w h g =
    safe_growth maximum_new w h g.growth (omega (arith, length-rules_of outcomes, g.bound))
safe_result maximum_new (err e, t) w h g = safe_growth maximum_new w h g.growth g.bound

-- Where the policy is well-formed and within the reserve of automatic rules, learning from
-- applications, also after an error, keeps it well-formed and within the reserve, keeps its mode,
-- strategy and flow generation, and replaces and removes no rule.
pub learn_applications-IsSafeGrowth :
    (x : External) (draws : Draws) (all : List LearnedApplicationEndpoint) (maximum_new : ℕ)
    (limits : LearningLimits) (s : State)
    → WellFormed s
    → automatic_count s ≤ max_automatic_learned_rules
    → IsSafeGrowth s
        (learn_new_application_endpoints_with_limits x draws all maximum_new limits s).1
learn_applications-IsSafeGrowth x draws all maximum_new limits s w h =
    safe_result maximum_new
      (learn_new_application_endpoints_with_limits x draws all maximum_new limits s) w h
      (learn_applications-Grown x draws all maximum_new limits s)
