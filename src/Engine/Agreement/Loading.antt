-- ===== src/Engine/Agreement/Loading.antt =====
-- The start of crates/openshield-daemon/src/engine.rs: a loaded engine is in agreement, and its policy
-- has a flow generation that the stored one never had.
use open_shield.Base.{
  ◌≡◌, refl, sym, ap, subst, ◌∙◌, ◌+◌, ◌≤◌, Option, none, some, List, [], arith, inl, inr, leb,
  if_cases,
}
use open_shield.Base.Outcome.{Result, ok, err, map_err}
use open_shield.Base.Exec.{lift_cases, bind_cases, continue, pure}
use open_shield.Base.Text.{Text, codes}
use open_shield.State.Data.{
  State, Event, CoreError, new, max_rules, max_flow_generation, max_automatic_learned_rules,
  max_state_bytes,
}
use open_shield.State.External.{Draws}
use open_shield.BTree
use open_shield.Model.Kinds.{learning, Mode-discrete}
use open_shield.Model.Rule.{Rule, Uuid, Instant}
use open_shield.State.Operation.WellFormed.{WellFormed}
use open_shield.State.Learning.{automatic_count, LearnOutcome}
use open_shield.State.Learning.Applications.Growth.{IsSafeGrowth}
use open_shield.State.Learning.Templates.Growth.{ensure_templates-IsSafeGrowth}
use open_shield.State.Keys.{LearningLimits}
use open_shield.State.Mutation.{set_mode_at}
use open_shield.State.Mutation.Cases.{rotate_cases, set_mode_cases}
use open_shield.State.Learning.Templates.{ensure_application_group_templates}
use open_shield.Engine.Bus.{EventBus}
use open_shield.Engine.Data.{Engine, startup_pending}
use open_shield.Engine.Outside.{Outside, Promises, closed}
use open_shield.Engine.Startup.{
  in_context, rotate_startup_flow_generation, prepare_loaded, prepare_initial, fail_again,
  store_loaded, store_initial, start_from, load_policy, close_for_startup,
  load_with_learning_limits, new_engine, started,
}
use open_shield.Engine.Agreement.{IsLive, settled}
use open_shield.Engine.Agreement.Writing.{Result-cases}

-- What a start makes of a stored policy: all its rules and settings, under a new flow generation.
pub record Renews (s t : State) : Type 0 where
  pub valid : WellFormed t
  pub generation : t.flow_generation ≡ s.flow_generation + 1
  pub mode : t.mode ≡ s.mode
  pub strategy : t.enforcement_strategy ≡ s.enforcement_strategy
  pub kept :
      (id : Uuid) (rule : Rule)
      → BTree.get id s.rules ≡ some rule
      → BTree.get id t.rules ≡ some rule

-- The policy that a daemon may find, and the one that it starts with.
abbrev pub IsSound : Option State → Type 0
IsSound none = Unit {0}
IsSound (some s) = WellFormed s × (automatic_count s ≤ max_automatic_learned_rules)

abbrev pub StartsWith : Option State → State → Type 0
StartsWith none t = (t.mode ≡ learning) × (t.rules ≡ [])
StartsWith (some s) t = Renews s t

-- What a rotation of the startup generation that succeeds leaves.
abbrev Rotated : State → Result Text Unit × State → Type 0
Rotated s r =
    r.0 ≡ ok tt
    → (s.flow_generation + 1 ≤ max_flow_generation)
      × (r.1 ≡ record s { flow_generation = s.flow_generation + 1 })

rotate-Rotated : (s : State) → Rotated s (rotate_startup_flow_generation s)
unfolding rotate_startup_flow_generation
rotate-Rotated s =
    if_cases (Rotated s) (leb (s.flow_generation + 1) max_flow_generation) _ _
      (λ room.
        rotate_cases
          (λ r.
            Rotated s
              (map_err (λ _. codes "cannot rotate the startup flow-authorization epoch") r.0, r.1))
          (s.flow_generation + 1) s (λ e no. cc) (λ _ _. (ground (arith, room), refl)))
      (λ _ no. cc)

rotated-WellFormed :
    (s : State)
    → WellFormed s
    → s.flow_generation + 1 ≤ max_flow_generation
    → WellFormed (record s { flow_generation = s.flow_generation + 1 })
rotated-WellFormed s w room = record {
  revision = w.revision;
  generation = (omega arith, room);
  size = w.size;
  sorted = w.sorted;
  entries = w.entries;
}

grown-Renews :
    (s t u : State)
    → s.flow_generation + 1 ≤ max_flow_generation
    → t ≡ record s { flow_generation = s.flow_generation + 1 }
    → IsSafeGrowth t u
    → Renews s u
grown-Renews s t u room e g = record {
  valid = g.valid;
  generation = g.settings.generation ∙ ap (λ (z : State). z.flow_generation) e;
  mode = g.settings.mode ∙ ap (λ (z : State). z.mode) e;
  strategy = g.settings.strategy ∙ ap (λ (z : State). z.enforcement_strategy) e;
  kept = λ id rule h. g.kept id rule (rw e h);
}

-- The policy that a start makes of a stored one.
prepared-Renews :
    (o : Outside) (draws : Draws) (s : State)
    → WellFormed s
    → automatic_count s ≤ max_automatic_learned_rules
    → (prepare_loaded o draws s).0 ≡ ok tt
    → Renews s (prepare_loaded o draws s).1
unfolding prepare_loaded ensure_application_group_templates
prepared-Renews o draws s w reserve =
    bind_cases (λ r. r.0 ≡ ok tt → Renews s r.1) (rotate_startup_flow_generation s) _
      (λ e t _ no. cc)
      λ _ t turned.
        let (room, e) = rotate-Rotated s (ap (λ (r : Result Text Unit × State). r.0) turned) in
        let now : t ≡ record s { flow_generation = s.flow_generation + 1 } =
          ap (λ (r : Result Text Unit × State). r.1) (sym turned) ∙ e in
        let valid : WellFormed t = rw now (rotated-WellFormed s w room) in
        let few : automatic_count t ≤ max_automatic_learned_rules = rw now reserve in
        let growth =
          ensure_templates-IsSafeGrowth o.external draws max_rules max_state_bytes t valid few in
        bind_cases (λ r. r.0 ≡ ok tt → Renews s r.1)
          (in_context (codes "cannot migrate application group templates")
            (ensure_application_group_templates o.external draws max_rules) t)
          _ (λ _ _ _ no. cc)
          λ outcomes u grown _.
            grown-Renews s t u room now
              (rw (ap (λ (r : Result Text (List LearnOutcome) × State). r.1) (sym grown)) growth)

-- The policy that a start makes where there is none.
mode-set_learning :
    (now : Instant) (s : State) (event : Event)
    → (set_mode_at learning now s).0 ≡ ok event
    → ((set_mode_at learning now s).1.mode ≡ learning)
      × ((set_mode_at learning now s).1.rules ≡ s.rules)
unfolding set_mode_at Mode-discrete
mode-set_learning now s event =
    set_mode_cases (λ r. r.0 ≡ ok event → (r.1.mode ≡ learning) × (r.1.rules ≡ s.rules)) learning
      s.enforcement_strategy now s (λ e h. cc) (λ r g _ _ h. (refl, refl))

behind_context :
    (message : Text) (r : Result CoreError Event × State) (event : Event) (t : State)
    → in_context message (λ _. r) new ≡ (ok event, t)
    → (r.0 ≡ ok event) × (r.1 ≡ t)
behind_context message (ok made, s) event t h = (
  let e = ap (λ (z : Result Text Event × State). z.0) h in cc,
  ap (λ (z : Result Text Event × State). z.1) h,
)
behind_context message (err _, s) event t h =
    absurd (let e = ap (λ (z : Result Text Event × State). z.0) h in cc)

initial-learns :
    (o : Outside) (draws : Draws)
    → (prepare_initial o draws new).0 ≡ ok tt
    → StartsWith none (prepare_initial o draws new).1
unfolding prepare_initial
initial-learns o draws =
    bind_cases (λ r. r.0 ≡ ok tt → StartsWith none r.1)
      (in_context (codes "cannot construct the initial Learning policy")
        (set_mode_at learning (draws 0).1) new)
      _ (λ _ _ _ no. cc)
      λ event t learns done.
        let (_, e) = rotate-Rotated t done in
        let (fresh, same) =
          behind_context (codes "cannot construct the initial Learning policy")
            (set_mode_at learning (draws 0).1 new) event t learns in
        let (mode, rules) = mode-set_learning (draws 0).1 new event fresh in
        (
          ap (λ (z : State). z.mode) e ∙ ap (λ (z : State). z.mode) (sym same) ∙ mode,
          ap (λ (z : State). z.rules) e ∙ ap (λ (z : State). z.rules) (sym same) ∙ rules,
        )

module _ (o : Outside) (p : Promises o) (before : Option State) where
  -- A policy that was read or made, and stored, behind a closed kernel; or an error.
  pub data Loads : Result Text State × o.World → Type 0 where
    loads :
        (s : State) (w : o.World)
        → StartsWith before s
        → p.kernel w ≡ closed
        → p.disk w ≡ some s
        → Loads (ok s, w)
    fails : (e : Text) (w : o.World) → Loads (err e, w)

  fail_again-Loads : (message : Text) (w : o.World) → Loads (fail_again o message w)
  unfolding fail_again
  fail_again-Loads message w = fails _ _

  store_loaded-Loads :
      (s : State) (w : o.World)
      → StartsWith before s
      → p.kernel w ≡ closed
      → Loads (store_loaded o s w)
  unfolding store_loaded
  store_loaded-Loads s w fit shut = elim (Result-cases (o.save s w).0) [
    | inl (_, e) ↦
        rw (e, store_loaded)
          (loads s (o.save s w).1 fit (p.kernel-save s w ∙ shut) (p.save_ok s w e))
    | inr (_, e) ↦ rw (e, store_loaded) (fail_again-Loads _ _)
  ]

  store_initial-Loads :
      (s : State) (w : o.World)
      → StartsWith before s
      → p.kernel w ≡ closed
      → Loads (store_initial o s w)
  unfolding store_initial
  store_initial-Loads s w fit shut = elim (Result-cases (o.save s w).0) [
    | inl (_, e) ↦
        rw (e, store_initial)
          (loads s (o.save s w).1 fit (p.kernel-save s w ∙ shut) (p.save_ok s w e))
    | inr (_, e) ↦ rw (e, store_initial) (fails _ _)
  ]

module _ (o : Outside) (p : Promises o) where
  start_from-Loads :
      (draws : Draws) (found : Option State) (w : o.World)
      → IsSound found
      → p.kernel w ≡ closed
      → Loads o p found (start_from o draws found w)
  unfolding start_from
  start_from-Loads draws (some s) w sound shut =
      lift_cases (Loads o p (some s)) (prepare_loaded o draws s).0 _ w (λ e. fails e w)
        λ _ done.
          store_loaded-Loads o p (some s) (prepare_loaded o draws s).1 w
            (prepared-Renews o draws s sound.0 sound.1 done) shut
  start_from-Loads draws none w sound shut =
      lift_cases (Loads o p none) (prepare_initial o draws new).0 _ w (λ e. fails e w)
        λ _ done.
          store_initial-Loads o p none (prepare_initial o draws new).1 w
            (initial-learns o draws done) shut

  load_policy-Loads :
      (draws : Draws) (w : o.World)
      → IsSound (p.disk w)
      → p.kernel w ≡ closed
      → Loads o p (p.disk w) (load_policy o draws w)
  unfolding load_policy
  load_policy-Loads draws w sound shut = elim (Result-cases (o.load w).0) [
    | inl (found, e) ↦
        let same = p.load_ok w found e in
        rw (e, load_policy)
          (subst (λ b. Loads o p b (start_from o draws found (o.load w).1)) same
            (start_from-Loads draws found (o.load w).1 (subst IsSound (sym same) sound)
              (p.kernel-load w ∙ shut)))
    | inr (_, e) ↦ rw (e, load_policy) (fail_again-Loads o p (p.disk w) _ _)
  ]

  -- The kernel is closed, the policy waits for its activation, and memory and file have one policy.
  pub record IsClosedStart (e : Engine) (w : o.World) : Type 0 where
    pub kernel : p.kernel w ≡ closed
    pub pending : e.startup_policy ≡ startup_pending
    pub disk : p.disk w ≡ some e.state

  -- The engine of a policy that was loaded, or an error.
  pub data Starts (before : Option State) : Result Text Engine × o.World → Type 0 where
    starts :
        (e : Engine) (w : o.World)
        → StartsWith before e.state
        → IsClosedStart e w
        → IsLive o p (started o e w)
        → Starts before (ok e, w)
    stops : (e : Text) (w : o.World) → Starts before (err e, w)

  new_engine-Starts :
      (events : EventBus) (limits : LearningLimits) (before : Option State)
      (r : Result Text State × o.World)
      → Loads o p before r
      → Starts before (continue r.0 (λ s. pure (new_engine events limits s)) r.1)
  unfolding new_engine
  new_engine-Starts events limits before r (loads s w fit shut file) =
      starts (new_engine events limits s) w fit
        (record { kernel = shut; pending = refl; disk = file })
        (record {
          clean = (refl, refl, refl);
          superseded = λ token no. cc;
          served = inl (refl, shut);
          storage = settled refl refl refl file;
        })
  new_engine-Starts events limits before r (fails e w) = stops e w

  -- Where the backend and the store keep their promises, and the file holds no policy or a
  -- well-formed one within the reserve of automatic rules, a load that succeeds gives a daemon
  -- that waits for its activation, in agreement, with the kernel closed and the file at the policy
  -- in memory: the stored one under the next flow generation, with every rule and setting it had,
  -- or one without rules that learns.
  pub load-Starts :
      (draws : Draws) (events : EventBus) (limits : LearningLimits) (w : o.World)
      → IsSound (p.disk w)
      → Starts (p.disk w) (load_with_learning_limits o draws events limits w)
  unfolding load_with_learning_limits close_for_startup
  load-Starts draws events limits w sound = elim (Result-cases (o.fail_closed w).0) [
    | inl (_, e) ↦
        let closing = o.fail_closed w in
        let loaded = load_policy o draws closing.1 in
        rw (e, load_with_learning_limits, close_for_startup)
          (subst
            (λ b. Starts b (continue loaded.0 (λ s. pure (new_engine events limits s)) loaded.1))
            (p.disk-fail_closed w)
            (new_engine-Starts events limits (p.disk closing.1) loaded (
              load_policy-Loads draws closing.1 (subst IsSound (sym (p.disk-fail_closed w)) sound)
                (p.fail_closed_ok w e))))
    | inr (_, e) ↦ rw (e, load_with_learning_limits, close_for_startup) (stops _ _)
  ]
