-- ===== src/Attribution/Pinning.antt =====
-- `pin_rule_application` of crates/openshield-daemon/src/application.rs. The file system is a
-- parameter; each call of it has its number, so that its answers may change in between.
pub mod Pinned
use open_shield.Base.{ℕ, Bool, not, Option, none, some, List, ◌++◌, same, if◌then◌else◌, ℕ_discrete}
use open_shield.Base.Outcome.{Result, ok, err, ◌>>=◌, ◌>>◌, reject_if, map_err, ok_or}
use open_shield.Base.Text.{Text, codes}
use open_shield.Application.Failure.{ApplicationValidationError}
use open_shield.Application.ApplicationPath
use open_shield.Application.ApplicationPath.{ApplicationPath}
use open_shield.Application.FileId
use open_shield.Application.FileId.{ExecutableFileId, ExecutableFileId-discrete}
use open_shield.Application.Selector.{ApplicationSelector}
use open_shield.Model.Failure.{ValidationError}
use open_shield.Model.RuleSpec
use open_shield.Model.RuleSpec.{RuleSpec}

-- A path of the operating system: bytes.
abbrev pub OsPath : Type 0
OsPath = List ℕ

unfoldable pub OsPath-discrete : Discrete OsPath
OsPath-discrete = hlevel ℕ_discrete

-- `Metadata` of an opened file, with its identity as `executable_file_id` reads it.
pub record Metadata : Type 0 where
  pub is_file : Bool
  pub identity : ExecutableFileId

pub record Files : Type 0 where
  pub canonicalize : ℕ → Text → Result Text OsPath
  pub open_file : ℕ → OsPath → Result Text Metadata
  pub to_str : OsPath → Option Text
  pub describe_application : ApplicationValidationError → Text
  pub describe_validation : ValidationError → Text

-- `ensure!`
abbrev pub ensure : Bool → Text → Result Text Unit
ensure test message = reject_if (not test) message

unfoldable pub executable_file_id : Files → Metadata → Result Text ExecutableFileId
executable_file_id files metadata = do
  ensure metadata.is_file (codes "application executable is not a regular file")
  map_err files.describe_application (FileId.validate metadata.identity)
  ok metadata.identity

unfoldable pub open_executable_version : Files → ℕ → OsPath → Result Text ExecutableFileId
unfolding executable_file_id
open_executable_version files call path = do
  metadata ← map_err (λ _. codes "cannot open executable") (files.open_file call path)
  executable_file_id files metadata

abbrev pub canonical : Files → ℕ → Text → Text → Result Text OsPath
canonical files call failure path =
    map_err (λ _. failure ++ codes " executable " ++ path) (files.canonicalize call path)

abbrev pub check_expected : Option ExecutableFileId → ExecutableFileId → Result Text Unit
check_expected none actual = ok tt
check_expected (some expected) actual =
    ensure (same ExecutableFileId-discrete expected actual)
      (codes "supplied executable version does not match the opened path")

-- The body behind the first `let .. else`, for the selector of the specification.
unfoldable pub pin_selector : Files → ApplicationSelector → Result Text ApplicationSelector
unfolding open_executable_version
pin_selector files selector = do
  executable ← ok_or (codes "application selector has no executable path") selector.executable
  canonical_path ← canonical files 0 (codes "cannot canonicalize") executable.text
  actual_file ← open_executable_version files 0 canonical_path
  verified_path ← canonical files 1 (codes "cannot re-canonicalize") executable.text
  ensure (same OsPath-discrete verified_path canonical_path)
      (codes "executable path changed while it was pinned")
  verified_file ← open_executable_version files 1 verified_path
  ensure (same ExecutableFileId-discrete verified_file actual_file)
      (codes "executable version changed while it was pinned")
  final_path ← canonical files 2 (codes "cannot finally canonicalize") executable.text
  ensure (same OsPath-discrete final_path canonical_path)
      (codes "executable path changed while it was pinned")
  text ← ok_or (codes "canonical executable path is not UTF-8") (files.to_str canonical_path)
  application ← map_err files.describe_application (ApplicationPath.new text)
  check_expected selector.executable_file actual_file
  ok (record selector { executable = some application; executable_file = some actual_file })

abbrev pub with_application : RuleSpec → ApplicationSelector → RuleSpec
with_application specification selector = record specification { application = some selector }

-- On an error the callers drop the specification.
unfoldable pub pin_rule_application : Files → RuleSpec → Result Text RuleSpec
unfolding pin_selector
pin_rule_application files specification = elim specification.application [
  | none ↦ ok specification
  | some selector ↦ do
    pinned ← pin_selector files selector
    map_err files.describe_validation (RuleSpec.validate (with_application specification pinned))
    ok (with_application specification pinned)
]
