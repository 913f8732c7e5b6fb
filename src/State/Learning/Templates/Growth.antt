-- ===== src/State/Learning/Templates/Growth.antt =====
-- What adding application-wide templates keeps: `ensure_application_group_templates` of
-- crates/openshield-core/src/state.rs, with the rollback of a template that does not fit.
use open_shield.Base.{
  ℕ, suc, ◌+◌, ◌≤◌, ◌≡◌, refl, Bool-cases, inl, inr, List, [], ◌∷◌, length, length-append,
  length-take, take, keep, ltb, some, not, is_empty, arith,
}
use open_shield.Base.Words.{usize_max, saturating_add}
use open_shield.Base.Outcome.{Result, ok, err}
use open_shield.Base.Exec.{
  lift_cases, Flow, continues, breaks, for_each, AfterLoop, pure, continue, resume,
}
use open_shield.BTree.{values}
use open_shield.BTree.Laws.{remove-insert}
use open_shield.Model.Rule.{Rule}
use open_shield.State.Data.{State, CoreError, max_automatic_learned_rules}
use open_shield.State.External.{External, Draws}
use open_shield.State.Size.{bounded_serialized_state_size, serialized_rule_map_entry_delta}
use open_shield.State.Keys.{ApplicationTemplateKey, is_learned_outbound, templates_of}
use open_shield.State.Learning.{LearnOutcome, automatic_count, room_for}
use open_shield.State.Learning.Templates.{
  missing_groups, Progress, rolled_back, settle, ensure_pass,
  ensure_application_group_templates_with_size_limit,
}
use open_shield.State.Learning.Growth.{start as nothing, Adds, Grows-WellFormed}
use open_shield.State.Learning.Insertion.{insert_template_cases}
use open_shield.State.Learning.Applications.Growth.{
  Grown, GrownUnreported, GrownResult, Grown-more, unreported, IsSafeGrowth, safe_result,
}
use open_shield.State.Operation.WellFormed.{WellFormed}

-- Taking back the rule that was just added restores the policy.
rolled_back-Adds :
    (s : State) (rule : Rule) (t : State)
    → WellFormed s
    → Adds s rule t
    → rolled_back s rule.id t ≡ s
rolled_back-Adds s rule t w a =
    rw (a.result, remove-insert 0 rule.id rule s.rules w.sorted a.absent) refl

module _ (x : External) (maximum_state_bytes : ℕ) (room : ℕ) (s : State) (w : WellFormed s) where
  -- What one pass leaves, where `n` groups remain behind it.
  abbrev AfterGroup : ℕ → Result CoreError (Flow Progress) × State → Type 0
  AfterGroup n (ok (continues p), t) = Grown s room p.outcomes t × (length p.outcomes + n ≤ room)
  AfterGroup n (ok (breaks p), t) = Grown s room p.outcomes t
  AfterGroup n (err e, t) = GrownUnreported s room t

  settle_grows :
      (n : ℕ) (p : Progress) (t u : State) (outcome : LearnOutcome) (delta : Result CoreError ℕ)
      → Grown s room p.outcomes t
      → length p.outcomes + suc n ≤ room
      → Adds t outcome.rule u
      → AfterGroup n (settle maximum_state_bytes p t outcome delta u)
  settle_grows n p t u outcome (err e) g h a =
      rw (rolled_back-Adds t outcome.rule u (Grows-WellFormed g.growth w) a) (unreported g)
  settle_grows n p t u outcome (ok delta) g h a =
      elim (Bool-cases
        (ltb maximum_state_bytes (saturating_add usize_max p.serialized_size delta))) [
          | inl over ↦
              rw over (rw (rolled_back-Adds t outcome.rule u (Grows-WellFormed g.growth w) a) g)
          | inr fits ↦ rw fits (
            Grown-more outcome g (omega (arith, h)) a,
            omega (arith, h, length-append p.outcomes (outcome ∷ [])),
          )
        ]

  group_grows :
      (n : ℕ) (p : Progress) (group : ApplicationTemplateKey) (t : State)
      → Grown s room p.outcomes t
      → length p.outcomes + suc n ≤ room
      → AfterGroup n (ensure_pass x maximum_state_bytes p group t)
  unfolding ensure_pass
  group_grows n p group t g h =
      insert_template_cases
        (λ r. AfterGroup n (
          continue r.0
            (λ outcome current.
              settle maximum_state_bytes p t outcome
                (serialized_rule_map_entry_delta x outcome.rule t.revision current.revision
                  (not (is_empty t.rules)))
                current)
            r.1))
        p.draws group t (λ _. unreported g)
        (λ rule event u added _.
          settle_grows n p t u (record { rule = rule; event = some event }) _ g h added)

  groups_grow :
      (p : Progress) (groups : List ApplicationTemplateKey) (t : State)
      → Grown s room p.outcomes t
      → length p.outcomes + length groups ≤ room
      → AfterLoop
          (λ p t. Grown s room p.outcomes t)
          (GrownUnreported s room)
          (for_each (ensure_pass x maximum_state_bytes) p groups t)
  unfolding for_each
  groups_grow p [] t g h = g
  groups_grow p (group ∷ rest) t g h =
      go (ensure_pass x maximum_state_bytes p group t) (group_grows (length rest) p group t g h)
        (λ q u more bound. groups_grow q rest u more bound)
    where
      go :
          (r : Result CoreError (Flow Progress) × State)
          → AfterGroup (length rest) r
          → ((q : Progress) (u : State)
              → Grown s room q.outcomes u
              → length q.outcomes + length rest ≤ room
              → AfterLoop
                  (λ p t. Grown s room p.outcomes t)
                  (GrownUnreported s room)
                  (for_each (ensure_pass x maximum_state_bytes) q rest u))
          → AfterLoop
              (λ p t. Grown s room p.outcomes t)
              (GrownUnreported s room)
              (continue r.0
                (λ flow. resume flow (λ q. for_each (ensure_pass x maximum_state_bytes) q rest))
                r.1)
      go (ok (continues q), u) after more = more q u after.0 after.1
      go (ok (breaks q), u) after more = after
      go (err e, u) after more = after

groups_end :
    (s : State) (room : ℕ) (r : Result CoreError Progress × State)
    → AfterLoop (λ p t. Grown s room p.outcomes t) (GrownUnreported s room) r
    → GrownResult s room (continue r.0 (λ p. pure p.outcomes) r.1)
groups_end s room (ok p, t) h = h
groups_end s room (err e, t) h = h

ensure_templates-Grown :
    (x : External) (draws : Draws) (maximum_new maximum_state_bytes : ℕ) (s : State)
    → WellFormed s
    → GrownResult s (room_for maximum_new s) (
        ensure_application_group_templates_with_size_limit x draws maximum_new maximum_state_bytes
          s)
unfolding ensure_application_group_templates_with_size_limit
ensure_templates-Grown x draws maximum_new maximum_state_bytes s w =
    let room = room_for maximum_new s in
    let empty : Grown s room [] s = record { growth = nothing; bound = omega arith } in
    let groups =
      missing_groups (templates_of (values s.rules)) (keep is_learned_outbound (values s.rules)) in
    lift_cases (GrownResult s room) (bounded_serialized_state_size x s) _ s (λ _. unreported empty)
      λ size _.
        let first : Progress = record { serialized_size = size; outcomes = []; draws = draws } in
        groups_end s room (for_each (ensure_pass x maximum_state_bytes) first (take room groups) s)
          (groups_grow x maximum_state_bytes room s w first (take room groups) s empty
            (omega (arith, length-take room groups)))

-- Where the policy is well-formed and within the reserve of automatic rules, adding the missing
-- application-wide templates, whatever does not fit and is taken back, keeps it so, also after an
-- error: its mode, strategy and flow generation stay, and no rule is replaced or removed.
pub ensure_templates-IsSafeGrowth :
    (x : External) (draws : Draws) (maximum_new maximum_state_bytes : ℕ) (s : State)
    → WellFormed s
    → automatic_count s ≤ max_automatic_learned_rules
    → IsSafeGrowth s
        (ensure_application_group_templates_with_size_limit x draws maximum_new maximum_state_bytes
          s).1
ensure_templates-IsSafeGrowth x draws maximum_new maximum_state_bytes s w h =
    safe_result maximum_new
      (ensure_application_group_templates_with_size_limit x draws maximum_new maximum_state_bytes s)
      w h (ensure_templates-Grown x draws maximum_new maximum_state_bytes s w)
