-- ===== src/State/Learning/Insertion.antt =====
-- What one insertion of learning does, of crates/openshield-core/src/state.rs:
-- `insert_learned_endpoint` and `insert_application_group_template`.
use open_shield.Base.{
  ℕ, ◌+◌, ◌≡◌, refl, sym, ap, subst, true, false, ◌&&◌, not, Option, none, some, arith, same,
}
use open_shield.Base.Outcome.{Result, ok, err}
use open_shield.Base.Exec.{lift_cases}
use open_shield.Application.Selector
use open_shield.Application.Selector.{ApplicationSelector}
use open_shield.Model.Kinds.{outbound, accept, learned, RuleAction-discrete}
use open_shield.Model.RuleName
use open_shield.Model.RuleSpec
use open_shield.Model.RuleSpec.{RuleSpec}
use open_shield.Model.Rule.{Rule, Uuid}
use open_shield.Model.LearnedEndpoint.{LearnedEndpoint}
use open_shield.State.Data.{State, Event, CoreError, next_revision}
use open_shield.State.External.{External, Draws}
use open_shield.State.Mutation.{
  create_rule_at, check_spec, set_generation, put_rule, next_generation_if,
}
use open_shield.State.Mutation.Cases.{create_cases}
use open_shield.State.Operation.WellFormed.{WellFormed, created_rule, create-WellFormed}
use open_shield.State.Keys.{ApplicationTemplateKey, is_automatic_origin}
use open_shield.State.Learning.{
  LearnOutcome, outcome_of, create_learned, learned_spec, insert_learned_endpoint, template_spec,
  template_selector, template_name, insert_application_group_template,
}
use open_shield.State.Learning.Growth.{Adds, with_rule}

no_generation :
    (spec : RuleSpec) (s m : State) (g : Option ℕ)
    → spec.action ≡ accept
    → next_generation_if (spec.enabled && not (same RuleAction-discrete spec.action accept)) s
      ≡ ok g
    → set_generation g m ≡ m
no_generation spec s m g a h = ground arith

next : (s : State) (r : ℕ) → next_revision s ≡ ok r → r ≡ s.revision + 1
unfolding next_revision
next s r h = ground arith

assigned :
    (s : State) (id : Uuid) (rule : Rule) (g : Option ℕ) (r : ℕ)
    → rule.id ≡ id
    → set_generation g (put_rule id rule s) ≡ put_rule id rule s
    → r ≡ s.revision + 1
    → record (set_generation g (put_rule id rule s)) { revision = r } ≡ with_rule rule s
assigned s id rule g r h k e = rw (k, e, h)

-- A created rule that is automatic and permissive is growth; a failure changes nothing.
create_learned_cases :
    (P : Result CoreError LearnOutcome × State → Type 0) (draws : Draws) (spec : RuleSpec)
    (s : State)
    → spec.action ≡ accept
    → is_automatic_origin spec.origin ≡ true
    → ((e : CoreError) → P (err e, s))
    → ((rule : Rule) (event : Event) (t : State)
        → Adds s rule t
        → rule.spec ≡ spec
        → P (ok (record { rule = rule; event = some event }), t))
    → P (create_learned draws spec s)
unfolding create_learned
create_learned_cases P draws spec s accepts automatic fail pass =
    create_cases (λ r. r ≡ create_rule_at (draws 0).0 spec (draws 0).1 s → P (outcome_of r))
      (draws 0).0 spec (draws 0).1 s (λ e _. fail e)
      (λ rule r g _ _ _ free made hr hg whole.
        let (keyed, kept, _) = created_rule (draws 0).0 spec (draws 0).1 rule made in
        pass rule _ _
          (record {
            result =
                assigned s (draws 0).0 rule g r keyed
                  (no_generation rule.spec s (put_rule (draws 0).0 rule s) g (rw kept accepts) hg)
                  (next s r hr);
            absent = rw keyed (ground arith);
            automatic = rw kept automatic;
            permissive = rw kept accepts;
            keeps = λ w.
                subst (λ u. WellFormed u) (ap (λ z. z.1) (sym whole))
                  (create-WellFormed s w (draws 0).0 spec (draws 0).1);
          })
          kept)
      refl

-- The fields of the rule for an observed endpoint.
pub record IsLearnedSpec (x : External) (endpoint : LearnedEndpoint)
    (selector : Option ApplicationSelector) (spec : RuleSpec) : Type 0 where
  pub direction : spec.direction ≡ outbound
  pub action : spec.action ≡ accept
  pub protocol : spec.protocol ≡ endpoint.protocol
  pub peer_network : spec.peer_network ≡ some (x.ip_net_from endpoint.address)
  pub port : spec.port ≡ endpoint.port
  pub interface : spec.interface ≡ endpoint.interface
  pub application : spec.application ≡ selector
  pub origin : spec.origin ≡ learned
  pub enabled : spec.enabled ≡ true

learned_spec_fields :
    (x : External) (endpoint : LearnedEndpoint) (application : Option ApplicationSelector)
    (spec : RuleSpec)
    → learned_spec x endpoint application ≡ ok spec
    → IsLearnedSpec x endpoint application spec
unfolding learned_spec RuleSpec.new
learned_spec_fields x endpoint application spec h = ground arith

pub insert_learned_cases :
    (P : Result CoreError LearnOutcome × State → Type 0) (x : External) (draws : Draws)
    (endpoint : LearnedEndpoint) (application : Option ApplicationSelector) (s : State)
    → ((e : CoreError) → P (err e, s))
    → ((rule : Rule) (event : Event) (t : State)
        → Adds s rule t
        → IsLearnedSpec x endpoint application rule.spec
        → P (ok (record { rule = rule; event = some event }), t))
    → P (insert_learned_endpoint x draws endpoint application s)
unfolding insert_learned_endpoint
insert_learned_cases P x draws endpoint application s fail pass = lift_cases P _ _ s fail λ spec hs.
    lift_cases P (check_spec spec) _ s fail λ _ _.
      let fields = learned_spec_fields x endpoint application spec hs in
      create_learned_cases P draws spec s fields.action (rw fields.origin refl) fail
        λ rule event t a e.
          pass rule event t a (subst (IsLearnedSpec x endpoint application) (sym e) fields)

-- The rule of a group is the disabled template of its executable and cgroup.
pub record IsTemplateSpec (key : ApplicationTemplateKey) (spec : RuleSpec) : Type 0 where
  pub name : RuleName.RuleName
  pub whole :
      spec
      ≡ template_spec name (record {
        executable = some key.executable;
        executable_file = none;
        command_line = none;
        uid = none;
        cgroup = key.cgroup;
        metadata_redacted = false;
      })

template_selector_lem :
    (key : ApplicationTemplateKey) (selector : ApplicationSelector)
    → template_selector key ≡ ok selector
    → selector ≡ record {
      executable = some key.executable;
      executable_file = none;
      command_line = none;
      uid = none;
      cgroup = key.cgroup;
      metadata_redacted = false;
    }
unfolding template_selector Selector.new
template_selector_lem key selector h = ground arith

pub insert_template_cases :
    (P : Result CoreError LearnOutcome × State → Type 0) (draws : Draws)
    (key : ApplicationTemplateKey) (s : State)
    → ((e : CoreError) → P (err e, s))
    → ((rule : Rule) (event : Event) (t : State)
        → Adds s rule t
        → IsTemplateSpec key rule.spec
        → P (ok (record { rule = rule; event = some event }), t))
    → P (insert_application_group_template draws key s)
unfolding insert_application_group_template
insert_template_cases P draws key s fail pass =
    lift_cases P (template_selector key) _ s fail λ selector hs.
      lift_cases P template_name _ s fail λ name _.
        create_learned_cases P draws (template_spec name selector) s refl refl fail
          λ rule event t a e.
            pass rule event t a
              (record { name = name; whole = rw (e, template_selector_lem key selector hs) refl })
