-- ===== src/Attribution/Pinning/Pinned.antt =====
-- What `pin_rule_application` of crates/openshield-daemon/src/application.rs returns.
use open_shield.Base.{
  ◌≡◌, ◌⊎◌, refl, sym, ap, subst, ◌∙◌, Bool, true, Option, none, some, arith, same, same_iff, inl,
  inr,
}
use open_shield.Base.Outcome.{Result, ok, err, ◌>>=◌, ◌>>◌, map_err, ok_or}
use open_shield.Base.Text.{Text, codes}
use open_shield.Application.ApplicationPath
use open_shield.Application.ApplicationPath.{ApplicationPath}
use open_shield.Application.FileId.{ExecutableFileId, ExecutableFileId-discrete}
use open_shield.Application.Selector.{ApplicationSelector}
use open_shield.Model.RuleSpec
use open_shield.Model.RuleSpec.{RuleSpec}
use open_shield.State.Pins.{reject_unpinned_application_spec}
use open_shield.Attribution.Pinning.{
  OsPath, OsPath-discrete, Files, ensure, check_expected, canonical, open_executable_version,
  pin_selector, pin_rule_application, with_application,
}

-- To prove something of a chain: an error ends it, and the rest may use what a success says.
chain_cases :
    {E A B : Type 0} (P : Result E B → Type 0) (m : Result E A) (f : A → Result E B)
    → ((e : E) → P (err e))
    → ((a : A) → m ≡ ok a → P (f a))
    → P (m >>= f)
chain_cases P (ok a) f fail pass = pass a refl
chain_cases P (err e) f fail pass = fail e

mapped : {E F A : Type 0} (f : E → F) (r : Result E A) (a : A) → map_err f r ≡ ok a → r ≡ ok a
mapped f (ok b) a h = let e : b ≡ a = cc in ap ok e
mapped f (err e) a h = absurd (let no : ⊥ = cc in no)

held : {E A : Type 0} (e : E) (x : Option A) (a : A) → ok_or e x ≡ ok a → x ≡ some a
held e (some b) a h = let s : b ≡ a = cc in ap some s
held e none a h = absurd (let no : ⊥ = cc in no)

sure : (b : Bool) (message : Text) (u : Unit) → ensure b message ≡ ok u → b ≡ true
sure b message u h = ground arith

ok-injective : {E A : Type 0} {a b : A} → ◌≡◌ {A = Result E A} (ok a) (ok b) → a ≡ b
ok-injective h = cc

expected_cases :
    (expected : Option ExecutableFileId) (actual : ExecutableFileId) (u : Unit)
    → check_expected expected actual ≡ ok u
    → (expected ≡ none) ⊎ (expected ≡ some actual)
expected_cases none actual u h = inl refl
expected_cases (some file) actual u h =
    inr (ap some ((same_iff ExecutableFileId-discrete file actual).0 (sure _ _ u h)))

-- The selector names one file by its canonical path: the path led to it at each look, and the file
-- had one identity at both openings.
pub record Pins (files : Files) (before after : ApplicationSelector) : Type 0 where
  pub given : ApplicationPath
  pub path : OsPath
  pub file : ExecutableFileId
  pub application : ApplicationPath
  pub named : before.executable ≡ some given
  pub first_look : files.canonicalize 0 given.text ≡ ok path
  pub second_look : files.canonicalize 1 given.text ≡ ok path
  pub last_look : files.canonicalize 2 given.text ≡ ok path
  pub first_opened : open_executable_version files 0 path ≡ ok file
  pub second_opened : open_executable_version files 1 path ≡ ok file
  pub text : Text
  pub spelled : files.to_str path ≡ some text
  pub valid : ApplicationPath.new text ≡ ok application
  pub expected : (before.executable_file ≡ none) ⊎ (before.executable_file ≡ some file)
  pub after_is :
      after ≡ record before { executable = some application; executable_file = some file }

-- What holds of a result that succeeds.
Pinned : Files → ApplicationSelector → Result Text ApplicationSelector → Type 0
Pinned files before r = (after : ApplicationSelector) → r ≡ ok after → Pins files before after

pin_selector-Pins :
    (files : Files) (before : ApplicationSelector) → Pinned files before (pin_selector files before)
unfolding pin_selector Pinned
pin_selector-Pins files before =
    let Q = Pinned files before in
    chain_cases Q (ok_or _ before.executable) _ (λ e after no. cc)
      λ given named.
        chain_cases Q (canonical files 0 (codes "cannot canonicalize") given.text) _
          (λ e after no. cc)
          λ path first.
            chain_cases Q (open_executable_version files 0 path) _ (λ e after no. cc)
              λ file opened.
                chain_cases Q (canonical files 1 (codes "cannot re-canonicalize") given.text) _
                  (λ e after no. cc)
                  λ second_path second.
                    chain_cases Q (ensure (same OsPath-discrete second_path path) _) _
                      (λ e after no. cc)
                      λ _ same_path.
                        chain_cases Q (open_executable_version files 1 second_path) _
                          (λ e after no. cc)
                          λ second_file reopened.
                            chain_cases Q
                              (ensure (same ExecutableFileId-discrete second_file file) _) _
                              (λ e after no. cc)
                              λ _ same_file.
                                chain_cases Q
                                  (canonical files 2 (codes "cannot finally canonicalize")
                                    given.text)
                                  _ (λ e after no. cc)
                                  λ last_path last.
                                    chain_cases Q (ensure (same OsPath-discrete last_path path) _) _
                                      (λ e after no. cc)
                                      λ _ still_path.
                                        chain_cases Q (ok_or _ (files.to_str path)) _
                                          (λ e after no. cc)
                                          λ text spelled.
                                            chain_cases Q
                                              (map_err files.describe_application
                                                (ApplicationPath.new text))
                                              _ (λ e after no. cc)
                                              λ application valid.
                                                chain_cases Q
                                                  (check_expected before.executable_file file) _
                                                  (λ e after no. cc)
                                                  λ u expected. λ after done.
                                                    let second_is =
                                                      (same_iff OsPath-discrete second_path path).0
                                                        (sure _ _ _ same_path) in
                                                    let last_is =
                                                      (same_iff OsPath-discrete last_path path).0
                                                        (sure _ _ _ still_path) in
                                                    let file_is =
                                                      (same_iff ExecutableFileId-discrete
                                                          second_file file).0
                                                        (sure _ _ _ same_file) in
                                                    record {
                                                      given = given;
                                                      path = path;
                                                      file = file;
                                                      application = application;
                                                      named = held _ _ given named;
                                                      first_look = mapped _ _ path first;
                                                      second_look =
                                                          mapped _ _ second_path second
                                                          ∙ ap ok second_is;
                                                      last_look =
                                                          mapped _ _ last_path last ∙ ap ok last_is;
                                                      first_opened = opened;
                                                      second_opened =
                                                          ap
                                                            (λ q. open_executable_version files 1 q)
                                                            (sym second_is)
                                                          ∙ reopened
                                                          ∙ ap ok file_is;
                                                      text = text;
                                                      spelled = held _ _ text spelled;
                                                      valid = mapped _ _ application valid;
                                                      expected =
                                                          expected_cases before.executable_file file
                                                            u expected;
                                                      after_is = ok-injective (sym done);
                                                    }

-- The specification with its pinned selector, which the policy accepts.
pub record PinsRule (files : Files) (before : RuleSpec) (selector : ApplicationSelector)
    (after : RuleSpec) : Type 0 where
  pub pinned : ApplicationSelector
  pub pins : Pins files selector pinned
  pub after_is : after ≡ with_application before pinned
  pub valid : RuleSpec.validate after ≡ ok tt
  pub accepted : reject_unpinned_application_spec after ≡ ok tt

accepted_pin :
    (before : RuleSpec) (selector : ApplicationSelector) (file : ExecutableFileId)
    → selector.executable_file ≡ some file
    → reject_unpinned_application_spec (with_application before selector) ≡ ok tt
unfolding reject_unpinned_application_spec
accepted_pin before selector file h = rw h refl

chosen-PinsRule :
    (files : Files) (before after : RuleSpec) (selector : ApplicationSelector)
    → (pin_selector files selector >>= λ pinned.
        map_err files.describe_validation (RuleSpec.validate (with_application before pinned))
        >> ok (with_application before pinned))
      ≡ ok after
    → PinsRule files before selector after
unfolding Pinned
chosen-PinsRule files before after selector =
    let Q : Result Text RuleSpec → Type 0 =
      λ r. r ≡ ok after → PinsRule files before selector after in
    chain_cases Q (pin_selector files selector) _ (λ e no. cc)
      λ pinned chosen.
        chain_cases Q
          (map_err files.describe_validation (RuleSpec.validate (with_application before pinned))) _
          (λ e no. cc)
          λ u valid. λ done.
            let same_spec : after ≡ with_application before pinned = ok-injective (sym done) in
            let pins = pin_selector-Pins files selector pinned chosen in
            record {
              pinned = pinned;
              pins = pins;
              after_is = same_spec;
              valid =
                  ap RuleSpec.validate same_spec
                  ∙ mapped files.describe_validation
                      (RuleSpec.validate (with_application before pinned)) u valid;
              accepted =
                  ap reject_unpinned_application_spec same_spec
                  ∙ accepted_pin before pinned pins.file
                      (ap (λ (s : ApplicationSelector). s.executable_file) pins.after_is);
            }

-- A specification for an application that pinning returns differs from the given one in the
-- executable and its file only. The path led to one canonical path at all three looks, both
-- openings found the one identity that is recorded, an identity that the client supplied is that
-- one, and the specification is valid and may be persisted.
pub pin_rule_application-PinsRule :
    (files : Files) (before after : RuleSpec) (selector : ApplicationSelector)
    → before.application ≡ some selector
    → pin_rule_application files before ≡ ok after
    → PinsRule files before selector after
unfolding pin_rule_application
pin_rule_application-PinsRule files before after selector asked =
    subst
      (λ (x : Option ApplicationSelector).
        (elim x [ none ↦ ok before | some s ↦ pinned_with s ]) ≡ ok after
        → PinsRule files before selector after)
      (sym asked) (chosen-PinsRule files before after selector)
  where
    pinned_with : ApplicationSelector → Result Text RuleSpec
    pinned_with s = do
      pinned ← pin_selector files s
      map_err files.describe_validation (RuleSpec.validate (with_application before pinned))
      ok (with_application before pinned)
