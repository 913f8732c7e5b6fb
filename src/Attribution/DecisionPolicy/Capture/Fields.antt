-- ===== src/Attribution/DecisionPolicy/Capture/Fields.antt =====
-- The fields that are captured decide as all fields do, rule by rule: crates/openshield-daemon/src/application.rs.
use open_shield.Base.{
  ◌≡◌, refl, ℕ, zero, suc, Bool, true, false, ◌&&◌, not, Option, none, some, List, [], ◌∷◌, keep,
  All, is_some, is_none_or, is_some_and, same, any, if◌then◌else◌, if_cases,
}
use open_shield.Application.CommandLine
use open_shield.Application.CgroupPath.{CgroupPath-discrete}
use open_shield.Application.Selector
use open_shield.Application.Selector.{ApplicationSelector, ApplicationIdentity}
use open_shield.Model.Rule.{Rule}
use open_shield.Attribution.DecisionPolicy.{rules_at, push_some, get_elem?}
use open_shield.Attribution.DecisionPolicy.Capture.{IdentityCaptureRequirements, captured}
use open_shield.Attribution.DecisionPolicy.Capture.Coverage.{Needs, Covers}

-- A test of a field that is captured where it is named.
pub captured_field :
    {A B : Type 0} (named : Option A) (taken : Bool) (test : A → B → Bool) (value empty : B)
    → is_some named && not taken ≡ false
    → is_none_or named (λ a. test a (if taken then value else empty))
      ≡ is_none_or named (λ a. test a value)
captured_field none taken test value empty h = refl
captured_field (some a) true test value empty h = refl
captured_field (some a) false test value empty h = absurd (let no : ⊥ = cc in no)

pub matches-captured :
    (found : Bool × IdentityCaptureRequirements) (selector : ApplicationSelector)
    (identity : ApplicationIdentity)
    → Needs found selector
    → Selector.matches selector (captured found.1 identity) ≡ Selector.matches selector identity
unfolding Selector.matches
matches-captured found selector identity n =
    rw
      (
        captured_field selector.command_line found.1.command_line CommandLine.matches
            identity.command_line [] n.command_line,
        captured_field selector.cgroup found.1.cgroups
            (λ expected cgroups. any (λ actual. same CgroupPath-discrete actual expected) cgroups)
            identity.cgroups [] n.cgroups,
      )
      refl

pub application-captured :
    (found : Bool × IdentityCaptureRequirements) (application : Option ApplicationSelector)
    (identity : ApplicationIdentity)
    → Covers found application
    → is_some_and application (λ selector. Selector.matches selector (captured found.1 identity))
      ≡ is_some_and application (λ selector. Selector.matches selector identity)
application-captured found none identity c = refl
application-captured found (some selector) identity c = matches-captured found selector identity c

pub unseen :
    (found : Bool × IdentityCaptureRequirements) (application : Option ApplicationSelector)
    (identity : ApplicationIdentity)
    → found.0 ≡ false
    → Covers found application
    → is_some_and application (λ selector. Selector.matches selector identity) ≡ false
unseen found none identity nothing c = refl
unseen found (some selector) identity nothing c = absurd (let h = c.seen in let no : ⊥ = cc in no)

pub keep-false : (rules : List Rule) → keep (λ _. false) rules ≡ []
keep-false [] = refl
keep-false (rule ∷ rest) = keep-false rest

pub keep_same :
    (p q : Rule → Bool) (rules : List Rule)
    → All (λ rule. p rule ≡ q rule) rules
    → keep p rules ≡ keep q rules
keep_same p q [] h = refl
keep_same p q (rule ∷ rest) h = rw (h.0, keep_same p q rest h.1) refl

pub All-keep :
    (P : Rule → Type 0) (d : Rule → Bool) (rules : List Rule)
    → All P rules
    → All (λ rule. P rule × (d rule ≡ true)) (keep d rules)
All-keep P d [] h = tt
All-keep P d (rule ∷ rest) h =
    let more = All-keep P d rest h.1 in
    if_cases (All (λ rule. P rule × (d rule ≡ true))) (d rule) _ _ (λ e. ((h.0, e), more))
      (λ _. more)

pub All-get :
    (P : Rule → Type 0) (rules : List Rule) (position : ℕ) (chosen : List Rule)
    → All P rules
    → All P chosen
    → All P (push_some (get_elem? rules position) chosen)
All-get P [] position chosen h c = c
All-get P (rule ∷ rest) zero chosen h c = (h.0, c)
All-get P (rule ∷ rest) (suc n) chosen h c = All-get P rest n chosen h.1 c

pub All-rules_at :
    (P : Rule → Type 0) (rules : List Rule) (positions : List ℕ)
    → All P rules
    → All P (rules_at rules positions)
unfolding rules_at
All-rules_at P rules [] h = tt
All-rules_at P rules (position ∷ rest) h =
    All-get P rules position _ h (All-rules_at P rules rest h)

pub All-into :
    (P Q : Rule → Type 0) (rules : List Rule)
    → ((rule : Rule) → P rule → Q rule)
    → All P rules
    → All Q rules
All-into P Q [] f h = tt
All-into P Q (rule ∷ rest) f h = (f rule h.0, All-into P Q rest f h.1)
