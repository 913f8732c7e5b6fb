-- ===== src/Attribution/DecisionPolicy/Capture/Coverage.antt =====
-- The loop of the capture requirements in crates/openshield-daemon/src/application.rs covers every rule
-- that may match.
use open_shield.Base.{
  ◌≡◌, refl, Bool, true, false, ◌&&◌, not, Option, none, some, List, [], ◌∷◌, All, arith, is_some,
  if◌then◌else◌, if_cases, if_true,
}
use open_shield.Application.Selector.{ApplicationSelector}
use open_shield.Model.Rule.{Rule}
use open_shield.Attribution.DecisionPolicy.Capture.{IdentityCaptureRequirements, visit, capture}

-- The requirements have the fields that this application names.
pub record Needs (found : Bool × IdentityCaptureRequirements) (selector : ApplicationSelector)
    : Type 0 where
  pub seen : found.0 ≡ true
  pub command_line : is_some selector.command_line && not found.1.command_line ≡ false
  pub cgroups : is_some selector.cgroup && not found.1.cgroups ≡ false

abbrev pub Covers : Bool × IdentityCaptureRequirements → Option ApplicationSelector → Type 0
Covers found none = Unit {0}
Covers found (some selector) = Needs found selector

pub record Extends (found out : Bool × IdentityCaptureRequirements) : Type 0 where
  pub seen : found.0 && not out.0 ≡ false
  pub command_line : found.1.command_line && not out.1.command_line ≡ false
  pub cgroups : found.1.cgroups && not out.1.cgroups ≡ false

pub Extends-refl : (found : Bool × IdentityCaptureRequirements) → Extends found found
Extends-refl found = record {
  seen = ground arith;
  command_line = ground arith;
  cgroups = ground arith;
}

pub Extends-trans :
    (a b c : Bool × IdentityCaptureRequirements) → Extends a b → Extends b c → Extends a c
Extends-trans a b c f g = record {
  seen = ground (arith, f.seen, g.seen);
  command_line = ground (arith, f.command_line, g.command_line);
  cgroups = ground (arith, f.cgroups, g.cgroups);
}

pub Covers-Extends :
    (application : Option ApplicationSelector) (a b : Bool × IdentityCaptureRequirements)
    → Covers a application
    → Extends a b
    → Covers b application
Covers-Extends none a b c e = tt
Covers-Extends (some selector) a b c e = record {
  seen = ground (arith, c.seen, e.seen);
  command_line = ground (arith, c.command_line, e.command_line);
  cgroups = ground (arith, c.cgroups, e.cgroups);
}

pub visit-Extends :
    (stable : Bool) (application : Option ApplicationSelector)
    (found : Bool × IdentityCaptureRequirements)
    → Extends found (visit stable application found)
visit-Extends stable none found = Extends-refl found
visit-Extends true (some selector) found = record {
  seen = ground arith;
  command_line = ground arith;
  cgroups = ground arith;
}
visit-Extends false (some selector) found = record {
  seen = ground arith;
  command_line = ground arith;
  cgroups = ground arith;
}

pub visit-Covers :
    (application : Option ApplicationSelector) (found : Bool × IdentityCaptureRequirements)
    → Covers (visit false application found) application
visit-Covers none found = tt
visit-Covers (some selector) found = record {
  seen = refl;
  command_line = ground arith;
  cgroups = ground arith;
}

module _ (relevant stable : Rule → Bool) where
  pass-Extends :
      (rule : Rule) (found : Bool × IdentityCaptureRequirements)
      → Extends found
          (if relevant rule then visit (stable rule) rule.spec.application found else found)
  pass-Extends rule found =
      if_cases (Extends found) (relevant rule) _ _
        (λ _. visit-Extends (stable rule) rule.spec.application found) (λ _. Extends-refl found)

  capture-Extends :
      (rules : List Rule) (found : Bool × IdentityCaptureRequirements)
      → Extends found (capture relevant stable rules found)
  unfolding capture
  capture-Extends [] found = Extends-refl found
  capture-Extends (rule ∷ rest) found =
      let next = if relevant rule then visit (stable rule) rule.spec.application found else found in
      Extends-trans found next (capture relevant stable rest next) (pass-Extends rule found)
        (capture-Extends rest next)

  -- Every rule that may match, and is not stable, is covered.
  abbrev pub AreCovered : Bool × IdentityCaptureRequirements → List Rule → Type 0
  AreCovered out =
      All (λ rule. relevant rule ≡ true → stable rule ≡ false → Covers out rule.spec.application)

  pub capture-AreCovered :
      (rules : List Rule) (found : Bool × IdentityCaptureRequirements)
      → AreCovered (capture relevant stable rules found) rules
  unfolding capture
  capture-AreCovered [] found = tt
  capture-AreCovered (rule ∷ rest) found =
      let next = if relevant rule then visit (stable rule) rule.spec.application found else found in
      (
        λ r s.
            Covers-Extends rule.spec.application next (capture relevant stable rest next)
              (if_true (λ x. Covers x rule.spec.application) (relevant rule) _ _ r
                (rw s (visit-Covers rule.spec.application found)))
              (capture-Extends rest next),
        capture-AreCovered rest next,
      )
