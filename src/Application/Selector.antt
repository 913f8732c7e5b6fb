-- ===== src/Application/Selector.antt =====
-- `ApplicationSelector` of crates/openshield-core/src/application.rs.
use open_shield.Base.{
  ℕ, Bool, true, false, ◌&&◌, not, Option, none, some, List, any, is_some, is_none, is_none_or,
  is_some_and, same, if◌then◌else◌, ℕ_discrete, ◌==◌,
}
use open_shield.Base.Outcome.{Result, ok, err, ◌>>◌, reject_if}
use open_shield.Base.Text.{codes, text_eq}
use open_shield.Application.Failure.{
  ApplicationValidationError, application_selector_needs_executable,
  file_id_without_executable_path, invalid_redacted_selector,
}
use open_shield.Application.ApplicationPath.{ApplicationPath, ApplicationPath-discrete}
use open_shield.Application.CgroupPath.{CgroupPath, CgroupPath-discrete}
use open_shield.Application.CommandArgument.{CommandArgument}
use open_shield.Application.CommandLine
use open_shield.Application.CommandLine.{CommandLineSelector, CommandLineSelector-discrete}
use open_shield.Application.FileId
use open_shield.Application.FileId.{ExecutableFileId, ExecutableFileId-discrete}

pub record ApplicationSelector : Type 0 where
  pub executable : Option ApplicationPath
  pub executable_file : Option ExecutableFileId
  pub command_line : Option CommandLineSelector
  pub uid : Option ℕ
  pub cgroup : Option CgroupPath
  pub metadata_redacted : Bool

unfoldable pub ApplicationSelector-discrete : Discrete ApplicationSelector
ApplicationSelector-discrete = hlevel (
  ℕ_discrete, ApplicationPath-discrete, CgroupPath-discrete, ExecutableFileId-discrete,
  CommandLineSelector-discrete,
)

-- `ApplicationIdentity`: what the daemon captured of a running process.
pub record ApplicationIdentity : Type 0 where
  pub pid : ℕ
  pub process_start_time_ticks : ℕ
  pub executable : ApplicationPath
  pub executable_file : ExecutableFileId
  pub command_line : List CommandArgument
  pub uid : ℕ
  pub cgroups : List CgroupPath

abbrev pub redacted_path : ApplicationPath
redacted_path = record { text = codes "/redacted" }

-- The branch of `validate` for a selector marked as redacted.
unfoldable pub validate_redacted : ApplicationSelector → Result ApplicationValidationError Unit
validate_redacted selector =
    if is_some_and selector.executable (λ path. text_eq path.text (codes "/redacted"))
      && is_none selector.executable_file
      && is_none selector.command_line
      && is_none selector.uid
      && is_none selector.cgroup
    then ok tt
    else err invalid_redacted_selector

abbrev pub validate_file : Option ExecutableFileId → Result ApplicationValidationError Unit
validate_file none = ok tt
validate_file (some file) = FileId.validate file

abbrev pub validate_command_line :
    Option CommandLineSelector → Result ApplicationValidationError Unit
validate_command_line none = ok tt
validate_command_line (some selector) = CommandLine.validate selector

-- The rest of `validate`, for a selector that is not redacted.
unfoldable pub validate_visible : ApplicationSelector → Result ApplicationValidationError Unit
validate_visible selector = do
  reject_if (is_none selector.executable) application_selector_needs_executable
  reject_if (is_some selector.executable_file && is_none selector.executable)
      file_id_without_executable_path
  validate_file selector.executable_file
  validate_command_line selector.command_line

unfoldable pub validate : ApplicationSelector → Result ApplicationValidationError Unit
unfolding validate_redacted validate_visible
validate selector =
    if selector.metadata_redacted then validate_redacted selector else validate_visible selector

unfoldable pub new :
    Option ApplicationPath
    → Option ExecutableFileId
    → Option CommandLineSelector
    → Option ℕ
    → Option CgroupPath
    → Result ApplicationValidationError ApplicationSelector
unfolding validate
new executable executable_file command_line uid cgroup = do
  let selector : ApplicationSelector = record {
    executable = executable;
    executable_file = executable_file;
    command_line = command_line;
    uid = uid;
    cgroup = cgroup;
    metadata_redacted = false;
  }
  validate selector
  ok selector

unfoldable pub matches : ApplicationSelector → ApplicationIdentity → Bool
matches selector identity =
    not selector.metadata_redacted
    && is_none_or selector.executable
        (λ expected. same ApplicationPath-discrete expected identity.executable)
    && is_none_or selector.executable_file
        (λ expected. same ExecutableFileId-discrete expected identity.executable_file)
    && is_none_or selector.command_line
        (λ expected. CommandLine.matches expected identity.command_line)
    && is_none_or selector.uid (λ expected. expected == identity.uid)
    && is_none_or selector.cgroup
        (λ expected. any (λ actual. same CgroupPath-discrete actual expected) identity.cgroups)

-- `ApplicationSelector::redacted`.
abbrev pub redacted : ApplicationSelector
redacted = record {
  executable = some redacted_path;
  executable_file = none;
  command_line = none;
  uid = none;
  cgroup = none;
  metadata_redacted = true;
}
