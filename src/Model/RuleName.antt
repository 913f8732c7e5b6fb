-- ===== src/Model/RuleName.antt =====
-- `RuleName` of crates/openshield-core/src/model.rs.
use open_shield.Base.{ℕ, Bool, ◌||◌, ◌&&◌, not, any, ltb, ◌==◌, is_empty, ℕ_discrete}
use open_shield.Base.Outcome.{Result, ok, ◌>>◌, reject_if}
use open_shield.Base.Text.{Text, codes, byte_len, is_control, is_whitespace, within, trim, text_eq}
use open_shield.Model.Failure.{
  ValidationError, empty_rule_name, rule_name_too_long, invalid_rule_name,
}

abbrev pub max_rule_name_bytes : ℕ
max_rule_name_bytes = 128

pub record RuleName : Type 0 where
  pub text : Text

unfoldable pub RuleName-discrete : Discrete RuleName
RuleName-discrete = hlevel ℕ_discrete

-- `REDACTED_APPLICATION_RULE_NAME`
abbrev pub redacted_application_rule_name : Text
redacted_application_rule_name = codes "application rule (redacted)"

unfoldable pub is_unsafe_rule_name_character : ℕ → Bool
is_unsafe_rule_name_character c =
    is_control c
    || is_whitespace c && not (c == b' ')
    || c == 0x061c
    || within 0x200b 0x200f c
    || within 0x202a 0x202e c
    || within 0x2060 0x206f c
    || c == 0xfeff

unfoldable pub new : Text → Result ValidationError RuleName
unfolding trim is_unsafe_rule_name_character
new value = do
  reject_if (is_empty value) empty_rule_name
  reject_if (ltb max_rule_name_bytes (byte_len value))
      (rule_name_too_long (byte_len value) max_rule_name_bytes)
  reject_if (not (text_eq (trim value) value) || any is_unsafe_rule_name_character value)
      invalid_rule_name
  ok (record { text = value })
