-- ===== src/Application/FileId.antt =====
-- `ExecutableFileId` of crates/openshield-core/src/application.rs.
use open_shield.Base.{ℕ, Bool, false, ◌||◌, not, ltb, ◌==◌, ℕ_discrete}
use open_shield.Base.Words.{ℤ, pos, negsuc, ℤ-discrete}
use open_shield.Base.Outcome.{Result, ok, ◌>>◌, reject_if}
use open_shield.Application.Failure.{ApplicationValidationError, invalid_executable_file_id}

pub record ExecutableFileId : Type 0 where
  pub device : ℕ
  pub inode : ℕ
  pub size : ℕ
  pub ctime_seconds : ℤ
  pub ctime_nanoseconds : ℤ

unfoldable pub ExecutableFileId-discrete : Discrete ExecutableFileId
ExecutableFileId-discrete = hlevel (ℕ_discrete, ℤ-discrete)

-- `(0..1_000_000_000).contains(&nanoseconds)`
abbrev pub is_nanosecond_count : ℤ → Bool
is_nanosecond_count (pos n) = ltb n 1_000_000_000
is_nanosecond_count (negsuc n) = false

unfoldable pub validate : ExecutableFileId → Result ApplicationValidationError Unit
validate file = do
  reject_if (file.inode == 0 || not (is_nanosecond_count file.ctime_nanoseconds))
      invalid_executable_file_id
  ok tt
