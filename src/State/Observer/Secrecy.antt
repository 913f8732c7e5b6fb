-- ===== src/State/Observer/Secrecy.antt =====
-- What the redaction of crates/openshield-core/src/state.rs hides from observers.
use open_shield.Base.{◌≡◌, refl, sym, ap, ◌∙◌, some, List, [], ◌∷◌, map}
use open_shield.Application.Selector.{ApplicationSelector}
use open_shield.Model.RuleName.{RuleName}
use open_shield.Model.Rule
use open_shield.Model.Rule.{Rule}
use open_shield.State.Data.{Snapshot}
use open_shield.State.Observer.{redacted_for_observer}
use open_shield.State.Observer.Views.{redacted-application}

-- The rules differ at most in which application they name, and in the name of such a rule.
pub data SameOutside (a : Rule) : Rule → Type 0 where
  equal : SameOutside a a
  applications :
      (selector other : ApplicationSelector) (name : RuleName)
      → a.spec.application ≡ some selector
      → SameOutside a (record a { spec = record a.spec { name = name; application = some other } })

pub data AllSameOutside : List Rule → List Rule → Type 0 where
  no_rules : AllSameOutside [] []
  next :
      {a b : Rule} {xs ys : List Rule}
      → SameOutside a b
      → AllSameOutside xs ys
      → AllSameOutside (a ∷ xs) (b ∷ ys)

redacted-SameOutside :
    (a b : Rule) → SameOutside a b → Rule.redacted_for_observer a ≡ Rule.redacted_for_observer b
redacted-SameOutside a _ equal = refl
redacted-SameOutside a _ (applications selector other name held) =
    redacted-application a selector held
    ∙ sym (
        redacted-application
          (record a { spec = record a.spec { name = name; application = some other } }) other refl)

redacted-AllSameOutside :
    (xs ys : List Rule)
    → AllSameOutside xs ys
    → map Rule.redacted_for_observer xs ≡ map Rule.redacted_for_observer ys
redacted-AllSameOutside _ _ no_rules = refl
redacted-AllSameOutside _ _ (next {a} {b} {xs} {ys} h rest) =
    rw (redacted-SameOutside a b h) (rw (redacted-AllSameOutside xs ys rest) refl)

-- Observers cannot tell apart two snapshots whose rules differ only in which applications they
-- name, and in the names of the rules that name one.
pub redacted_for_observer-AllSameOutside :
    (s : Snapshot) (rules : List Rule)
    → AllSameOutside s.rules rules
    → redacted_for_observer s ≡ redacted_for_observer (record s { rules = rules })
unfolding redacted_for_observer
redacted_for_observer-AllSameOutside s rules h =
    ap (λ list. record s { rules = list }) (redacted-AllSameOutside s.rules rules h)
