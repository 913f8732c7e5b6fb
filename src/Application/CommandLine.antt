-- ===== src/Application/CommandLine.antt =====
-- `CommandLineMatch` and `CommandLineSelector` of crates/openshield-core/src/application.rs.
use open_shield.Base.{
  ℕ, Bool, true, false, ◌||◌, ◌&&◌, Option, none, some, List, [], ◌∷◌, length, is_empty, ltb,
  is_none_or, same,
}
use open_shield.Base.Words.{checked_add, usize_max}
use open_shield.Base.Outcome.{Result, ok, ◌>>◌, reject_if}
use open_shield.Base.Text.{byte_len}
use open_shield.Application.Failure.{ApplicationValidationError, invalid_command_line}
use open_shield.Application.CommandArgument.{
  CommandArgument, CommandArgument-discrete, max_command_line_bytes,
}

abbrev pub max_command_arguments : ℕ
max_command_arguments = 64

pub data CommandLineMatch : Type 0 where
  exact : CommandLineMatch
  prefix : CommandLineMatch

pub record CommandLineSelector : Type 0 where
  pub kind : CommandLineMatch
  pub arguments : List CommandArgument

unfoldable pub CommandLineSelector-discrete : Discrete CommandLineSelector
CommandLineSelector-discrete = hlevel CommandArgument-discrete

unfoldable pub arguments-discrete : Discrete (List CommandArgument)
arguments-discrete = hlevel CommandArgument-discrete

-- `total.checked_add(len).and_then(|value| value.checked_add(1))`
abbrev pub add_argument : ℕ → CommandArgument → Option ℕ
add_argument total argument = elim (checked_add usize_max total (byte_len argument.text)) [
  | none ↦ none
  | some value ↦ checked_add usize_max value 1
]

-- `try_fold` of `add_argument`.
unfoldable pub argument_bytes : ℕ → List CommandArgument → Option ℕ
argument_bytes total [] = some total
argument_bytes total (a ∷ rest) = elim (add_argument total a) [
  | none ↦ none
  | some value ↦ argument_bytes value rest
]

unfoldable pub validate : CommandLineSelector → Result ApplicationValidationError Unit
unfolding argument_bytes
validate selector = do
  reject_if (is_empty selector.arguments || ltb max_command_arguments (length selector.arguments))
      invalid_command_line
  reject_if
      (is_none_or (argument_bytes 0 selector.arguments) (λ total. ltb max_command_line_bytes total))
      invalid_command_line
  ok tt

unfoldable pub new :
    CommandLineMatch → List CommandArgument → Result ApplicationValidationError CommandLineSelector
unfolding validate
new kind arguments = do
  let selector : CommandLineSelector = record { kind = kind; arguments = arguments }
  validate selector
  ok selector

-- `actual.starts_with(&self.arguments)`.
unfoldable pub starts_with : List CommandArgument → List CommandArgument → Bool
starts_with [] actual = true
starts_with (a ∷ rest) [] = false
starts_with (a ∷ rest) (b ∷ actual) = same CommandArgument-discrete a b && starts_with rest actual

abbrev pub matches_kind : CommandLineMatch → List CommandArgument → List CommandArgument → Bool
matches_kind exact arguments actual = same arguments-discrete arguments actual
matches_kind prefix arguments actual = starts_with arguments actual

unfoldable pub matches : CommandLineSelector → List CommandArgument → Bool
unfolding starts_with
matches selector actual = matches_kind selector.kind selector.arguments actual
