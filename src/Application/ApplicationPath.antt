-- ===== src/Application/ApplicationPath.antt =====
-- `ApplicationPath` of crates/openshield-core/src/application.rs.
use open_shield.Base.{ℕ, ◌||◌, not, any, ltb, is_empty, ℕ_discrete}
use open_shield.Base.Outcome.{Result, ok, ◌>>◌, reject_if}
use open_shield.Base.Text.{Text, codes, byte_len, starts_with, ends_with}
use open_shield.Application.Failure.{ApplicationValidationError, invalid_executable_path}
use open_shield.Application.Characters.{is_unsafe_text_character, traverses}

abbrev pub max_application_path_bytes : ℕ
max_application_path_bytes = 4096

pub record ApplicationPath : Type 0 where
  pub text : Text

unfoldable pub ApplicationPath-discrete : Discrete ApplicationPath
ApplicationPath-discrete = hlevel ℕ_discrete

unfoldable pub new : Text → Result ApplicationValidationError ApplicationPath
unfolding starts_with ends_with traverses
new value = do
  reject_if (is_empty value || ltb max_application_path_bytes (byte_len value))
      invalid_executable_path
  reject_if
      (not (starts_with (codes "/") value)
        || ends_with (codes " (deleted)") value
        || any is_unsafe_text_character value
        || traverses value)
      invalid_executable_path
  ok (record { text = value })
