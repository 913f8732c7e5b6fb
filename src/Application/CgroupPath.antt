-- ===== src/Application/CgroupPath.antt =====
-- `CgroupPath` of crates/openshield-core/src/application.rs.
use open_shield.Base.{ℕ, ◌||◌, not, any, ltb, is_empty, ℕ_discrete}
use open_shield.Base.Outcome.{Result, ok, ◌>>◌, reject_if}
use open_shield.Base.Text.{Text, codes, byte_len, starts_with}
use open_shield.Application.Failure.{ApplicationValidationError, invalid_cgroup_path}
use open_shield.Application.Characters.{is_unsafe_text_character, traverses}

abbrev pub max_cgroup_path_bytes : ℕ
max_cgroup_path_bytes = 1024

pub record CgroupPath : Type 0 where
  pub text : Text

unfoldable pub CgroupPath-discrete : Discrete CgroupPath
CgroupPath-discrete = hlevel ℕ_discrete

unfoldable pub new : Text → Result ApplicationValidationError CgroupPath
unfolding starts_with traverses
new value = do
  reject_if
      (is_empty value
        || ltb max_cgroup_path_bytes (byte_len value)
        || not (starts_with (codes "/") value)
        || any is_unsafe_text_character value
        || traverses value)
      invalid_cgroup_path
  ok (record { text = value })
