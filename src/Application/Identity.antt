-- ===== src/Application/Identity.antt =====
-- `ApplicationIdentity` of crates/openshield-core/src/application.rs: validation, and the exact
-- selector that learning builds from a captured process.
use open_shield.Base.{◌||◌, Option, none, some, List, [], ◌∷◌, length, ltb, ◌==◌, is_none_or}
use open_shield.Base.Outcome.{Result, ok, err, ◌>>=◌, ◌>>◌, reject_if}
use open_shield.Application.Failure.{ApplicationValidationError, invalid_process_identity}
use open_shield.Application.CgroupPath.{CgroupPath}
use open_shield.Application.CommandArgument.{max_command_line_bytes}
use open_shield.Application.CommandLine
use open_shield.Application.CommandLine.{exact, max_command_arguments, argument_bytes}
use open_shield.Application.FileId
use open_shield.Application.Selector
use open_shield.Application.Selector.{ApplicationSelector, ApplicationIdentity}

unfoldable pub validate : ApplicationIdentity → Result ApplicationValidationError Unit
validate identity = do
  reject_if (identity.pid == 0 || identity.process_start_time_ticks == 0) invalid_process_identity
  FileId.validate identity.executable_file
  reject_if
      (ltb max_command_arguments (length identity.command_line)
        || ltb max_command_arguments (length identity.cgroups))
      invalid_process_identity
  reject_if
      (is_none_or (argument_bytes 0 identity.command_line)
        (λ total. ltb max_command_line_bytes total))
      invalid_process_identity
  ok tt

-- `match self.cgroups.as_slice()`
abbrev pub single_cgroup : List CgroupPath → Result ApplicationValidationError (Option CgroupPath)
single_cgroup [] = ok none
single_cgroup (cgroup ∷ []) = ok (some cgroup)
single_cgroup (cgroup ∷ other ∷ rest) = err invalid_process_identity

unfoldable pub learned_selector :
    ApplicationIdentity → Result ApplicationValidationError ApplicationSelector
learned_selector identity = do
  validate identity
  command_line ← CommandLine.new exact identity.command_line
  cgroup ← single_cgroup identity.cgroups
  Selector.new (some identity.executable) (some identity.executable_file) (some command_line)
      (some identity.uid) cgroup
