-- ===== src/State/Admission/Agreement.antt =====
-- Admission and learning agree, in crates/openshield-core/src/state.rs: what the index turns away
-- would learn nothing, and a candidate is learned unless its insertion fails.
pub mod Decision
use open_shield.Base.{
  ◌↔◌, ℕ, ◌-◌, ◌≤◌, min, ◌≡◌, ◌≢◌, refl, sym, ap, ◌∙◌, Bool, true, false, ◌||◌, not, some, List, [],
  ◌∷◌, ◌++◌, arith, length, length-append, ltb, ◌⊎◌, inl, inr, Bool-cases,
}
use open_shield.Base.Words.{usize_max, saturating_add}
use open_shield.Base.Outcome.{Result, ok, err}
use open_shield.Base.Exec.{
  Flow, continues, breaks, for_each, continue, continue_ok, resume, pure, bind_cases, ◌>>=◌,
}
use open_shield.Application.FileId.{ExecutableFileId}
use open_shield.Model.LearnedEndpoint.{LearnedApplicationEndpoint, validate_application_endpoint}
use open_shield.State.Data.{State, CoreError, max_rules, max_automatic_learned_rules}
use open_shield.State.External.{External, Draws}
use open_shield.State.Keys.{
  LearningLimits, LearnedRuleKey-discrete, ApplicationTemplateKey, ApplicationTemplateKey-discrete,
  key_of_application_endpoint, knows,
}
use open_shield.State.Learning.{
  insert_learned_endpoint, insert_application_group_template, LearnOutcome, automatic_count,
  room_for, validate_all,
}
use open_shield.State.Learning.Applications.{
  Progress, learned_one, templated, check_item, is_saturated, required_slots, start,
  learn_application, learn_unknown, learn_application_pass,
  learn_new_application_endpoints_with_limits,
}
use open_shield.State.Counts.{count_of}
use open_shield.State.Admission.{
  ApplicationLearningAdmission, candidate, ApplicationLearningAdmissionIndex, from_state, is_full,
  classify,
}
use open_shield.State.Admission.Verdict.{Verdict, is_known, no_slots, in_budget, verdict}
use open_shield.State.Admission.Index.{AgreesWith, from_state-AgreesWith}
use open_shield.State.Admission.Slots.{full_room, free_room, single_valid, slots_bound}

module _ (x : External) (draws : Draws) (limits : LearningLimits) (maximum_new : ℕ) (s : State)
    (item : LearnedApplicationEndpoint) where
  abbrev room : ℕ
  room = room_for maximum_new s

  abbrev begin : Progress
  begin = start draws s

  abbrev index : ApplicationLearningAdmissionIndex
  index = from_state s limits

  agree : AgreesWith s limits draws
  agree = from_state-AgreesWith s limits draws

  abbrev pass : Result CoreError (Flow Progress) × State
  pass = learn_application_pass x limits room begin item s

  known_start :
      (b : Bool)
      → knows LearnedRuleKey-discrete (key_of_application_endpoint x item) index.known ≡ b
      → knows LearnedRuleKey-discrete (key_of_application_endpoint x item) begin.known ≡ b
  known_start b h = sym (agree.known (key_of_application_endpoint x item)) ∙ h

  abbrev slots_in : List ApplicationTemplateKey → ApplicationTemplateKey → ℕ
  slots_in templates key =
      required_slots (not (knows ApplicationTemplateKey-discrete key templates))

  same_slots :
      (key : ApplicationTemplateKey)
      → slots_in index.known_templates key ≡ slots_in begin.known_templates key
  same_slots key = ap (λ b. required_slots (not b)) (agree.templates key)

  stops :
      (key : ApplicationTemplateKey)
      → is_full index (slots_in index.known_templates key) ≡ true
      → ltb room (saturating_add usize_max 0 (slots_in begin.known_templates key)) ≡ true
  unfolding from_state
  stops key full =
      full_room maximum_new (length s.rules) (automatic_count s)
        (slots_in begin.known_templates key) (slots_bound _)
        (rw (← agree.count, ← same_slots key) full)

  goes_on :
      (key : ApplicationTemplateKey)
      → 2 ≤ maximum_new
      → is_full index (slots_in index.known_templates key) ≡ false
      → ltb room (saturating_add usize_max 0 (slots_in begin.known_templates key)) ≡ false
  unfolding from_state
  goes_on key two free =
      free_room maximum_new (length s.rules) (automatic_count s)
        (slots_in begin.known_templates key) (slots_bound _) two
        (rw (← agree.count, ← same_slots key) free)

  -- A known endpoint, too little room or a spent budget: the pass changes nothing.
  idle_pass :
      (v : ApplicationLearningAdmission)
      → Verdict x index item v
      → v ≢ candidate
      → (pass ≡ (ok (continues begin), s)) ⊎ (pass ≡ (ok (breaks begin), s))
  unfolding learn_application_pass learn_unknown start count_of from_state
  idle_pass v (is_known k) h = inl (rw (known_start true k) refl)
  idle_pass v (no_slots key k group full) h =
      inr (rw (known_start false k) (rw group (rw (stops key full) refl)))
  idle_pass v (in_budget key uid file true k group free owner executable spent) h =
      elim (Bool-cases
        (ltb room (saturating_add usize_max 0 (slots_in begin.known_templates key)))) [
          | inl e ↦ inr (rw (known_start false k) (rw group (rw e refl)))
          | inr e ↦
              let used : is_saturated limits begin.tally uid file ≡ true =
                rw (← agree.tally) spent in
              inl (
                rw (known_start false k)
                  (rw group (rw e (rw owner (rw executable (rw used refl))))))
        ]
  idle_pass v (in_budget key uid file false k group free owner executable spent) h = absurd (h refl)

  -- A candidate is inserted.
  abbrev Inserts : Type 0
  Inserts =
      (key : ApplicationTemplateKey) × (uid : ℕ) × (file : ExecutableFileId) × (needs : Bool)
      × (pass ≡ learn_application x needs key uid file begin item s)

  inserting_pass :
      (v : ApplicationLearningAdmission)
      → Verdict x index item v
      → v ≡ candidate
      → 2 ≤ maximum_new
      → Inserts
  unfolding learn_application_pass learn_unknown start count_of from_state
  inserting_pass v (is_known k) h two = cc
  inserting_pass v (no_slots key k group full) h two = cc
  inserting_pass v (in_budget key uid file true k group free owner executable spent) h two = cc
  inserting_pass v (in_budget key uid file false k group free owner executable unspent) h two =
      let left : is_saturated limits begin.tally uid file ≡ false = rw (← agree.tally) unspent in
      (
        key,
        uid,
        file,
        not (knows ApplicationTemplateKey-discrete key begin.known_templates),
        rw (known_start false k)
            (rw group (rw (goes_on key two free) (rw owner (rw executable (rw left refl))))),
      )

  -- Learning the one observation.
  abbrev whole : Result CoreError (List LearnOutcome) × State
  whole = learn_new_application_endpoints_with_limits x draws (item ∷ []) maximum_new limits s

  abbrev finish :
      Result CoreError (Flow Progress) × State → Result CoreError (List LearnOutcome) × State
  finish (ok (continues p), t) = (ok p.outcomes, t)
  finish (ok (breaks p), t) = (ok p.outcomes, t)
  finish (err e, t) = (err e, t)

  whole_finish : validate_application_endpoint item ≡ ok tt → whole ≡ finish pass
  unfolding learn_new_application_endpoints_with_limits for_each
  whole_finish valid =
      continue_ok (validate_all check_item (item ∷ [])) _ s tt (single_valid item valid) ∙ go pass
    where
      go :
          (r : Result CoreError (Flow Progress) × State)
          → continue
              (continue r.0 (λ flow. resume flow (λ q. pure q)) r.1).0
              (λ p. pure p.outcomes)
              (continue r.0 (λ flow. resume flow (λ q. pure q)) r.1).1
            ≡ finish r
      go (ok (continues p), t) = refl
      go (ok (breaks p), t) = refl
      go (err e, t) = refl

  -- Where a pass returns, the function has an outcome.
  abbrev Learned : Result CoreError (Flow Progress) × State → Type 0
  Learned r = (outcomes : List LearnOutcome) → (finish r).0 ≡ ok outcomes → 1 ≤ length outcomes

  module _ (uid : ℕ) (file : ExecutableFileId) where
    Learned-last :
        (r : Result CoreError LearnOutcome × State) (q : Progress)
        → Learned (continue r.0 (λ o. pure (continues (learned_one x item uid file o q))) r.1)
    Learned-last (ok o, t) q outcomes e =
        let whole_list : outcomes ≡ q.outcomes ++ o ∷ [] = cc in
        rw whole_list (omega (arith, length-append q.outcomes (o ∷ [])))
    Learned-last (err error, t) q outcomes e = cc

    Learned-application :
        (key : ApplicationTemplateKey) (needs : Bool)
        → Learned (learn_application x needs key uid file begin item s)
    unfolding learn_application
    Learned-application key false =
        Learned-last (insert_learned_endpoint x begin.draws item.endpoint (some item.application) s)
          begin
    Learned-application key true =
        bind_cases Learned
          (continue (insert_application_group_template begin.draws key s).0
            (λ o. pure (templated key o begin))
            (insert_application_group_template begin.draws key s).1)
          (λ q. insert_learned_endpoint x q.draws item.endpoint (some item.application) >>= λ o.
            pure (continues (learned_one x item uid file o q)))
          (λ e t _ outcomes h. cc)
          (λ q t _.
            Learned-last (insert_learned_endpoint x q.draws item.endpoint (some item.application) t)
              q)

-- What the index turns away, because it is known or because no slot or budget is left, would learn
-- nothing: the function returns no outcome and leaves the policy as it is.
pub turned_away-learns_nothing :
    (x : External) (draws : Draws) (limits : LearningLimits) (maximum_new : ℕ) (s : State)
    (item : LearnedApplicationEndpoint) (v : ApplicationLearningAdmission)
    → classify x (from_state s limits) item ≡ ok v
    → v ≢ candidate
    → learn_new_application_endpoints_with_limits x draws (item ∷ []) maximum_new limits s
      ≡ (ok [], s)
unfolding start
turned_away-learns_nothing x draws limits maximum_new s item v h refused =
    let (valid, why) = verdict x (from_state s limits) item v h in
    whole_finish x draws limits maximum_new s item valid
    ∙ elim (idle_pass x draws limits maximum_new s item v why refused) [
      | inl e ↦ ap (finish x draws limits maximum_new s item) e
      | inr e ↦ ap (finish x draws limits maximum_new s item) e
    ]

-- A candidate is learned: where the function returns, it returns at least one outcome.
pub candidate-learns :
    (x : External) (draws : Draws) (limits : LearningLimits) (maximum_new : ℕ) (s : State)
    (item : LearnedApplicationEndpoint) (outcomes : List LearnOutcome)
    → classify x (from_state s limits) item ≡ ok candidate
    → 2 ≤ maximum_new
    → (learn_new_application_endpoints_with_limits x draws (item ∷ []) maximum_new limits s).0
      ≡ ok outcomes
    → 1 ≤ length outcomes
candidate-learns x draws limits maximum_new s item outcomes h two e =
    let (valid, why) = verdict x (from_state s limits) item candidate h in
    let (key, uid, file, needs, inserts) =
      inserting_pass x draws limits maximum_new s item candidate why refl two in
    let same =
      whole_finish x draws limits maximum_new s item valid
      ∙ ap (finish x draws limits maximum_new s item) inserts in
    Learned-application x draws limits maximum_new s item uid file key needs outcomes
      (sym (ap (λ r. r.0) same) ∙ e)
