-- ===== src/State/Operation/WellFormed.antt =====
-- The invariant of the policy, for every operation of crates/openshield-core/src/state.rs.
pub mod Runs
use open_shield.Base.{
  ℕ, ◌≤◌, ◌≡◌, ◌⊎◌, refl, sym, Bool, Option, none, some, List, [], ◌∷◌, arith, length, same, All,
  inl, inr,
}
use open_shield.Base.Words.{u64_max}
use open_shield.Base.Outcome.{Result, ok, err, map_err}
use open_shield.BTree
use open_shield.BTree.{IsSorted}
use open_shield.BTree.Laws.{
  Ordered-insert, Ordered-remove, length-insert, length-remove-le, All-insert, All-remove, All-get,
}
use open_shield.Model.Kinds.{Mode, block_all, enforcing, EnforcementStrategy}
use open_shield.Model.RuleSpec.{RuleSpec}
use open_shield.Model.Rule
use open_shield.Model.Rule.{Rule, Uuid, Instant}
use open_shield.State.Data.{
  State, new, CoreError, validation, max_rules, max_flow_generation, next_revision,
  next_flow_generation,
}
use open_shield.State.Pins.{
  reject_redacted_spec, reject_redacted_rule, reject_unpinned_application_spec,
  clear_disabled_template_pin_if_skeleton,
}
use open_shield.State.Mutation.{
  rotate_flow_generation, create_rule_at, delete_rule_at, set_rule_enabled_at,
  set_mode_with_strategy_at, set_mode_at, enforce, update_rule_at, generation_for_mode,
  next_generation_if, set_generation, found_rule, put_rule, replaced, with_activation,
}
use open_shield.State.Mutation.Cases.{
  rotate_cases, set_mode_cases, create_cases, update_cases, delete_cases, enable_cases,
}
use open_shield.State.Operation.{
  Operation, rotates, sets_mode, enforces, creates, updates, deletes, enables, forget, perform, run,
}

-- What the policy holds at a key: a valid rule of that identifier, not redacted, and pinned.
pub record IsEntry (entry : Uuid × Rule) : Type 0 where
  pub keyed : entry.0 ≡ entry.1.id
  pub valid : Rule.validate entry.1 ≡ ok tt
  pub visible : reject_redacted_rule entry.1 ≡ ok tt
  pub pinned : reject_unpinned_application_spec entry.1.spec ≡ ok tt

pub record WellFormed (s : State) : Type 0 where
  pub revision : s.revision ≤ u64_max
  pub generation : (1 ≤ s.flow_generation) × (s.flow_generation ≤ max_flow_generation)
  pub size : length s.rules ≤ max_rules
  pub sorted : IsSorted s.rules
  pub entries : All IsEntry s.rules

revision_bound : (s : State) (r : ℕ) → next_revision s ≡ ok r → r ≤ u64_max
unfolding next_revision
revision_bound s r h = ground arith

generation_bound :
    (s : State) (g : ℕ) → next_flow_generation s ≡ ok g → (1 ≤ g) × (g ≤ max_flow_generation)
unfolding next_flow_generation
generation_bound s g h = ground arith

pub created_rule :
    (id : Uuid) (spec : RuleSpec) (now : Instant) (rule : Rule)
    → map_err validation (Rule.with_id_and_time id spec now) ≡ ok rule
    → (rule.id ≡ id) × (rule.spec ≡ spec) × (Rule.validate rule ≡ ok tt)
unfolding Rule.with_id_and_time Rule.validate
created_rule id spec now rule h = ground arith

checked :
    (rule : Rule) → map_err validation (Rule.validate rule) ≡ ok tt → Rule.validate rule ≡ ok tt
checked rule h = ground arith

clear-redacted :
    (spec : RuleSpec)
    → reject_redacted_spec spec ≡ ok tt
    → reject_redacted_spec (clear_disabled_template_pin_if_skeleton spec) ≡ ok tt
unfolding reject_redacted_spec clear_disabled_template_pin_if_skeleton
clear-redacted spec h = ground arith

pub found : (id : Uuid) (o : Option Rule) (rule : Rule) → found_rule id o ≡ ok rule → o ≡ some rule
found id o rule h = ground arith

module _ (s : State) (w : WellFormed s) where
  -- A rule put at its key keeps the shape of the map, where the map has room.
  put_shape :
      (id : Uuid) (rule : Rule)
      → ((BTree.get id s.rules ≡ none) × (length s.rules ≤ 9_999))
        ⊎ ((current : Rule) × (BTree.get id s.rules ≡ some current))
      → IsEntry (id, rule)
      → (length (BTree.insert id rule s.rules) ≤ max_rules)
        × IsSorted (BTree.insert id rule s.rules)
        × All IsEntry (BTree.insert id rule s.rules)
  put_shape id rule room entry = (
    ground (arith, length-insert 0 id rule s.rules w.sorted, w.size),
    Ordered-insert 0 id rule s.rules (omega arith) w.sorted,
    All-insert IsEntry id rule s.rules entry w.entries,
  )

  pub rotate-WellFormed : (generation : ℕ) → WellFormed (rotate_flow_generation generation s).1
  rotate-WellFormed generation =
      rotate_cases (λ r. WellFormed r.1) generation s (λ _. w)
        λ h. record {
          revision = w.revision;
          generation = ground arith;
          size = w.size;
          sorted = w.sorted;
          entries = w.entries;
        }

  mode_generation :
      (mode : Mode) (g : ℕ)
      → generation_for_mode mode s (next_flow_generation s) ≡ ok g
      → (1 ≤ g) × (g ≤ max_flow_generation)
  unfolding next_flow_generation
  mode_generation block_all g h = ground (arith, w.generation)
  mode_generation _ g h = ground (arith, w.generation)

  pub set_mode-WellFormed :
      (mode : Mode) (strategy : EnforcementStrategy) (now : Instant)
      → WellFormed (set_mode_with_strategy_at mode strategy now s).1
  set_mode-WellFormed mode strategy now =
      set_mode_cases (λ r. WellFormed r.1) mode strategy now s (λ _. w)
        λ r g hr hg. record {
          revision = revision_bound s r hr;
          generation = mode_generation mode g hg;
          size = w.size;
          sorted = w.sorted;
          entries = w.entries;
        }

  optional_generation :
      (test : Bool) (g : Option ℕ)
      → next_generation_if test s ≡ ok g
      → (m : State) → m.flow_generation ≡ s.flow_generation
      → (1 ≤ (set_generation g m).flow_generation)
        × ((set_generation g m).flow_generation ≤ max_flow_generation)
  unfolding next_flow_generation
  optional_generation test g h m same = ground (arith, w.generation)

  -- The state after a change of the rules, behind its assignments of generation and revision.
  assigned :
      (g : Option ℕ) (m : State) (r : ℕ)
      → r ≤ u64_max
      → (1 ≤ (set_generation g m).flow_generation)
        × ((set_generation g m).flow_generation ≤ max_flow_generation)
      → (length m.rules ≤ max_rules) × IsSorted m.rules × All IsEntry m.rules
      → WellFormed (record (set_generation g m) { revision = r })
  assigned none m r hr hg shape = record {
    revision = hr;
    generation = hg;
    size = shape.0;
    sorted = shape.1;
    entries = shape.2;
  }
  assigned (some g) m r hr hg shape = record {
    revision = hr;
    generation = hg;
    size = shape.0;
    sorted = shape.1;
    entries = shape.2;
  }

  pub create-WellFormed :
      (id : Uuid) (spec : RuleSpec) (now : Instant) → WellFormed (create_rule_at id spec now s).1
  unfolding reject_redacted_rule
  create-WellFormed id spec now =
      create_cases (λ r. WellFormed r.1) id spec now s (λ _. w)
        λ rule r g h1 h2 h3 h4 h5 h6 h7.
          let (keyed, kept, valid) = created_rule id spec now rule h5 in
          assigned g (put_rule id rule s) r (revision_bound s r h6)
            (optional_generation _ g h7 (put_rule id rule s) refl)
            (put_shape id rule (inl (ground arith, ground arith)) (record {
              keyed = sym keyed;
              valid = valid;
              visible = rw kept h1;
              pinned = rw kept h2;
            }))

  -- The rule that is stored at a key has that identifier, and is not redacted.
  stored : (id : Uuid) (rule : Rule) → BTree.get id s.rules ≡ some rule → IsEntry (id, rule)
  stored id rule h = All-get IsEntry id s.rules rule h w.entries

  pub update-WellFormed :
      (id : Uuid) (spec : RuleSpec) (now : Instant) → WellFormed (update_rule_at id spec now s).1
  unfolding reject_redacted_rule update_rule_at
  update-WellFormed id original now =
      let spec = clear_disabled_template_pin_if_skeleton original in
      update_cases (λ r. WellFormed r.1) id spec now s (λ _. w)
        λ r current g h0 h1 h2 h3 h4 h5 h6.
          let at = found id (BTree.get id s.rules) current h4 in
          let shape = put_shape id (replaced current spec now) (inr (current, at)) (record {
            keyed = (stored id current at).keyed;
            valid = checked _ h6;
            visible = h1;
            pinned = h2;
          }) in
          record {
            revision = revision_bound s r h3;
            generation = generation_bound s g h5;
            size = shape.0;
            sorted = shape.1;
            entries = shape.2;
          }

  pub delete-WellFormed : (id : Uuid) (now : Instant) → WellFormed (delete_rule_at id now s).1
  delete-WellFormed id now =
      delete_cases (λ r. WellFormed r.1) id now s (λ _. w)
        λ r rule g h1 h2 h3. record {
          revision = revision_bound s r h1;
          generation = generation_bound s g h3;
          size = omega (arith, length-remove-le id s.rules, w.size);
          sorted = Ordered-remove 0 id s.rules w.sorted;
          entries = All-remove IsEntry id s.rules w.entries;
        }

  pub enable-WellFormed :
      (id : Uuid) (enabled : Bool) (now : Instant)
      → WellFormed (set_rule_enabled_at id enabled now s).1
  unfolding reject_redacted_rule
  enable-WellFormed id enabled now =
      enable_cases (λ r. WellFormed r.1) id enabled now s (λ _. w)
        λ r current g h1 h2 h3 h4 h5.
          let at = found id (BTree.get id s.rules) current h2 in
          let rule = with_activation current enabled now in
          assigned g (put_rule id rule s) r (revision_bound s r h1)
            (optional_generation _ g h3 (put_rule id rule s) refl)
            (put_shape id rule (inr (current, at)) (record {
              keyed = (stored id current at).keyed;
              valid = checked _ h4;
              visible =
                  clear-redacted (record current.spec { enabled = enabled })
                    (unfold reject_redacted_spec in (stored id current at).visible);
              pinned = h5;
            }))
