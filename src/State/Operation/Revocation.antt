-- ===== src/State/Operation/Revocation.antt =====
-- When crates/openshield-core/src/state.rs starts a new flow generation, and so takes back the
-- marks of flows that an older policy authorized.
use open_shield.Base.{
  ℕ, ◌+◌, ◌≡◌, ◌≢◌, refl, sym, subst, ◌∙◌, Bool-cases, ℕ_discrete, Bool, true, false, Option, none,
  some, arith, ◌⊎◌, inl, inr, ◌==◌, if◌then◌else◌,
}
use open_shield.Base.Outcome.{Result, ok}
use open_shield.BTree
use open_shield.BTree.{IsSorted}
use open_shield.BTree.Laws.{get-insert}
use open_shield.Model.Kinds.{Mode, enforcing, EnforcementStrategy, accept}
use open_shield.Model.RuleSpec.{RuleSpec}
use open_shield.Model.Rule.{Rule, Uuid, Instant}
use open_shield.State.Data.{State, CoreError, next_flow_generation}
use open_shield.State.Pins.{clear_disabled_template_pin_if_skeleton}
use open_shield.State.Mutation.{
  set_mode_at, enforce, update_rule_at, delete_rule_at, create_rule_at, set_rule_enabled_at,
  set_mode_with_strategy_at, next_generation_if, set_generation, put_rule, revokes, with_activation,
}
use open_shield.State.Mutation.Cases.{
  rotate_cases, set_mode_cases, create_cases, update_cases, delete_cases, enable_cases,
}
use open_shield.State.Operation.{
  forget-state, Operation, rotates, sets_mode, enforces, creates, updates, deletes, enables,
  perform,
}
use open_shield.State.Operation.WellFormed.{found}

-- An enabled rule of `s` that `t` no longer has as it was.
pub record Withdraws (s t : State) : Type 0 where
  pub id : Uuid
  pub rule : Rule
  pub held : BTree.get id s.rules ≡ some rule
  pub active : rule.spec.enabled ≡ true
  pub gone : (kept : Rule) → BTree.get id t.rules ≡ some kept → kept.spec ≢ rule.spec

-- An enabled rule of `t` that denies traffic, and that `s` did not have.
pub record Denies (s t : State) : Type 0 where
  pub id : Uuid
  pub rule : Rule
  pub held : BTree.get id t.rules ≡ some rule
  pub active : rule.spec.enabled ≡ true
  pub denying : rule.spec.action ≢ accept
  pub fresh : (old : Rule) → BTree.get id s.rules ≡ some old → old.spec ≢ rule.spec

abbrev pub Revokes : State → State → Type 0
Revokes s t = Withdraws s t ⊎ Denies s t

-- Where both policies have the same rules, nothing is revoked.
unchanged : (s t : State) → t.rules ≡ s.rules → ¬ Revokes s t
unchanged s t e (inl w) = w.gone w.rule (rw e w.held) refl
unchanged s t e (inr d) = d.fresh d.rule (rw e at d.held) refl

next : (s : State) (g : ℕ) → next_flow_generation s ≡ ok g → g ≡ s.flow_generation + 1
unfolding next_flow_generation
next s g h = ground arith

next_if :
    (test : Bool) (s m : State) (g : Option ℕ)
    → next_generation_if test s ≡ ok g
    → test ≡ true
    → (set_generation g m).flow_generation ≡ s.flow_generation + 1
unfolding next_flow_generation
next_if test s m g h t = ground arith

rules-set_generation : (g : Option ℕ) (m : State) → (set_generation g m).rules ≡ m.rules
rules-set_generation none m = refl
rules-set_generation (some g) m = refl

-- After a rule is put at a key, what is revoked is at that key.
module _ (id : Uuid) (rule : Rule) (s t : State) (e : t.rules ≡ BTree.insert id rule s.rules) where
  at_put : (j : Uuid) → BTree.get j t.rules ≡ (if id == j then some rule else BTree.get j s.rules)
  at_put j = rw e (get-insert id j rule s.rules)

  put_here : (j : Uuid) → id ≡ j → BTree.get j t.rules ≡ some rule
  put_here j h = ground (arith, at_put j)

  put_there : (j : Uuid) → id ≢ j → BTree.get j t.rules ≡ BTree.get j s.rules
  put_there j h = ground (arith, at_put j)

  put_Withdraws :
      Withdraws s t
      → (old : Rule) × (BTree.get id s.rules ≡ some old)
        × (old.spec.enabled ≡ true)
        × (rule.spec ≢ old.spec)
  put_Withdraws w = elim (ℕ_discrete id w.id) [
    | yes h ↦ (w.rule, rw h w.held, w.active, w.gone rule (put_here w.id h))
    | no h ↦ absurd (w.gone w.rule (put_there w.id h ∙ w.held) refl)
  ]

  put_Denies :
      Denies s t
      → (rule.spec.enabled ≡ true)
        × (rule.spec.action ≢ accept)
        × ((old : Rule) → BTree.get id s.rules ≡ some old → old.spec ≢ rule.spec)
  put_Denies d = elim (ℕ_discrete id d.id) [
    | yes h ↦
        let k : d.rule ≡ rule = ground (arith, put_here d.id h, d.held) in
        (rw (← k) d.active, rw (← k) d.denying, rw (← k, h) d.fresh)
    | no h ↦ absurd (d.fresh d.rule (sym (put_there d.id h) ∙ d.held) refl)
  ]

-- The part of each operation: where something is revoked, the generation is the next one.
abbrev Renews : {A : Type 0} → State → Result CoreError A × State → Type 0
Renews s r = Revokes s r.1 → r.1.flow_generation ≡ s.flow_generation + 1

idle : (s : State) → Revokes s s → s.flow_generation ≡ s.flow_generation + 1
idle s h = absurd (unchanged s s refl h)

mode-Renews :
    (mode : Mode) (strategy : EnforcementStrategy) (now : Instant) (s : State)
    → Renews s (set_mode_with_strategy_at mode strategy now s)
mode-Renews mode strategy now s =
    set_mode_cases (Renews s) mode strategy now s (λ _. idle s)
      λ r g _ _ h. absurd (unchanged s _ refl h)

create-Renews :
    (id : Uuid) (spec : RuleSpec) (now : Instant) (s : State)
    → Renews s (create_rule_at id spec now s)
create-Renews id spec now s =
    create_cases (Renews s) id spec now s (λ _. idle s)
      λ rule r g _ _ _ free _ _ hg h.
        let t : State = record (set_generation g (put_rule id rule s)) { revision = r } in
        let e = rules-set_generation g (put_rule id rule s) in
        elim h [
          | inl w ↦ let (old, at, _, _) = put_Withdraws id rule s t e w in absurd (ground arith)
          | inr d ↦
              let (active, denying, _) = put_Denies id rule s t e d in
              next_if _ s (put_rule id rule s) g hg (ground arith)
        ]

enabled_spec : (spec : RuleSpec) → spec.enabled ≡ true → record spec { enabled = true } ≡ spec
enabled_spec spec h = ground arith

clear_enabled :
    (spec : RuleSpec) → spec.enabled ≡ true → clear_disabled_template_pin_if_skeleton spec ≡ spec
unfolding clear_disabled_template_pin_if_skeleton
clear_enabled spec h = ground arith

clear_fields :
    (spec : RuleSpec)
    → ((clear_disabled_template_pin_if_skeleton spec).enabled ≡ spec.enabled)
      × ((clear_disabled_template_pin_if_skeleton spec).action ≡ spec.action)
unfolding clear_disabled_template_pin_if_skeleton
clear_fields spec = ground arith

-- A rule that stays enabled stays as it is, but for its time stamp.
kept_enabled :
    (current : Rule) (enabled : Bool) (now : Instant)
    → current.spec.enabled ≡ true
    → enabled ≡ true
    → (with_activation current enabled now).spec ≡ current.spec
kept_enabled current enabled now h e =
    rw e (clear_enabled (record current.spec { enabled = true }) refl ∙ enabled_spec current.spec h)

withdrawn_revokes :
    (current : Rule) (enabled : Bool) (now : Instant)
    → current.spec.enabled ≡ true
    → (with_activation current enabled now).spec ≢ current.spec
    → revokes current enabled ≡ true
withdrawn_revokes current true now h differ = absurd (differ (kept_enabled current true now h refl))
withdrawn_revokes current false now h differ = ground arith

denying_revokes :
    (current : Rule) (enabled : Bool) (now : Instant)
    → (with_activation current enabled now).spec.enabled ≡ true
    → (with_activation current enabled now).spec.action ≢ accept
    → current.spec ≢ (with_activation current enabled now).spec
    → revokes current enabled ≡ true
denying_revokes current enabled now active denying differ =
    let (f, g) = clear_fields (record current.spec { enabled = enabled }) in
    let on : enabled ≡ true = sym f ∙ active in
    elim (Bool-cases current.spec.enabled) [
      | inl was ↦ absurd (differ (sym (kept_enabled current enabled now was on)))
      | inr was ↦ let deny : current.spec.action ≢ accept = λ e. denying (g ∙ e) in ground arith
    ]

enable-Renews :
    (id : Uuid) (enabled : Bool) (now : Instant) (s : State)
    → Renews s (set_rule_enabled_at id enabled now s)
enable-Renews id enabled now s =
    enable_cases (Renews s) id enabled now s (λ _. idle s)
      λ r current g _ hf hg _ _ h.
        let rule = with_activation current enabled now in
        let t : State = record (set_generation g (put_rule id rule s)) { revision = r } in
        let e = rules-set_generation g (put_rule id rule s) in
        let at = found id (BTree.get id s.rules) current hf in
        next_if _ s (put_rule id rule s) g hg (elim h [
          | inl w ↦
              let (old, held, active, differ) = put_Withdraws id rule s t e w in
              let k : old ≡ current = ground arith in
              withdrawn_revokes current enabled now
                (subst (λ (x : Rule). x.spec.enabled ≡ true) k active)
                (subst (λ (x : Rule). (with_activation current enabled now).spec ≢ x.spec) k differ)
          | inr d ↦
              let (active, denying, fresh) = put_Denies id rule s t e d in
              denying_revokes current enabled now active denying (fresh current at)
        ])

-- When an operation takes away an enabled rule, changes its specification, or puts a new enabled
-- rule that denies traffic into force, the policy it leaves has the next flow generation.
pub perform_renews :
    (op : Operation) (s : State)
    → Revokes s (perform op s).1
    → (perform op s).1.flow_generation ≡ s.flow_generation + 1
unfolding perform
perform_renews (rotates generation) s =
    rotate_cases (Renews s) generation s (λ _. idle s) λ _ h. absurd (unchanged s _ refl h)
perform_renews (sets_mode mode now) s =
    rw (forget-state (set_mode_at mode now s)) (unfold set_mode_at in mode-Renews mode _ now s)
perform_renews (enforces strategy now) s =
    rw (forget-state (enforce strategy now s))
      (unfold enforce in mode-Renews enforcing strategy now s)
perform_renews (creates id spec now) s =
    rw (forget-state (create_rule_at id spec now s)) (create-Renews id spec now s)
perform_renews (updates id spec now) s = rw (forget-state (update_rule_at id spec now s)) (
    unfold update_rule_at in
    update_cases (Renews s) id (clear_disabled_template_pin_if_skeleton spec) now s (λ _. idle s)
      λ r current g _ _ _ _ _ hg _ _. next s g hg)
perform_renews (deletes id now) s =
    rw (forget-state (delete_rule_at id now s))
      (delete_cases (Renews s) id now s (λ _. idle s) λ r rule g _ _ hg _. next s g hg)
perform_renews (enables id enabled now) s =
    rw (forget-state (set_rule_enabled_at id enabled now s)) (enable-Renews id enabled now s)
