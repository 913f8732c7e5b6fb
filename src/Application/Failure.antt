-- ===== src/Application/Failure.antt =====
-- `ApplicationValidationError` of crates/openshield-core/src/application.rs.
pub data ApplicationValidationError : Type 0 where
  invalid_executable_path : ApplicationValidationError
  invalid_cgroup_path : ApplicationValidationError
  invalid_command_argument : ApplicationValidationError
  invalid_command_line : ApplicationValidationError
  application_selector_needs_executable : ApplicationValidationError
  file_id_without_executable_path : ApplicationValidationError
  invalid_executable_file_id : ApplicationValidationError
  invalid_process_identity : ApplicationValidationError
  invalid_learned_endpoint : ApplicationValidationError
  incomplete_learned_application_identity : ApplicationValidationError
  invalid_redacted_selector : ApplicationValidationError
