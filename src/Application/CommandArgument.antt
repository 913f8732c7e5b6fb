-- ===== src/Application/CommandArgument.antt =====
-- `CommandArgument` of crates/openshield-core/src/application.rs, with its escaped display.
pub mod Reading
use open_shield.Base.{
  ℕ, ◌+◌, ◌/◌, ◌%◌, ◌||◌, [], ◌∷◌, ◌++◌, any, ltb, ◌==◌, if◌then◌else◌, ℕ_discrete,
}
use open_shield.Base.Outcome.{Result, ok, ◌>>◌, reject_if}
use open_shield.Base.Text.{Text, byte_len}
use open_shield.Application.Failure.{ApplicationValidationError, invalid_command_argument}
use open_shield.Application.Characters.{is_unsafe_text_character}

abbrev pub max_command_line_bytes : ℕ
max_command_line_bytes = 8192

abbrev pub max_command_argument_bytes : ℕ
max_command_argument_bytes = 8191

pub record CommandArgument : Type 0 where
  pub text : Text

unfoldable pub CommandArgument-discrete : Discrete CommandArgument
CommandArgument-discrete = hlevel ℕ_discrete

unfoldable pub new : Text → Result ApplicationValidationError CommandArgument
new value = do
  reject_if (ltb max_command_argument_bytes (byte_len value) || any (λ c. c == 0) value)
      invalid_command_argument
  ok (record { text = value })

-- One digit of `{:x}`.
abbrev pub hex_digit : ℕ → ℕ
hex_digit d = if ltb d 10 then 0x30 + d else 0x57 + d

-- `\u{:04x}` for a value of at most 16 bits; the values escaped so are no larger.
abbrev pub unicode_escape : ℕ → Text
unicode_escape c =
    b'\\'
    ∷ b'u'
    ∷ hex_digit (c / 4096 % 16)
    ∷ hex_digit (c / 256 % 16)
    ∷ hex_digit (c / 16 % 16)
    ∷ hex_digit (c % 16)
    ∷ []

unfoldable pub escape : ℕ → Text
unfolding is_unsafe_text_character
escape c =
    if c == b'\\'
    then b'\\' ∷ b'\\' ∷ []
    else if c == b'"'
    then b'\\' ∷ b'"' ∷ []
    else if c == 0x0a
    then b'\\' ∷ b'n' ∷ []
    else if c == 0x0d
    then b'\\' ∷ b'r' ∷ []
    else if c == 0x09
    then b'\\' ∷ b't' ∷ []
    else if c == 0x08
    then b'\\' ∷ b'b' ∷ []
    else if c == 0x0c
    then b'\\' ∷ b'f' ∷ []
    else if is_unsafe_text_character c || c == 0x2028 || c == 0x2029
    then unicode_escape c
    else c ∷ []

unfoldable pub escape_all : Text → Text
unfolding escape
escape_all [] = []
escape_all (c ∷ s) = escape c ++ escape_all s

-- The `Display` instance.
unfoldable pub display : CommandArgument → Text
unfolding escape_all
display a = b'"' ∷ escape_all a.text ++ b'"' ∷ []
