-- ===== src/Model/InterfaceName.antt =====
-- `InterfaceName` of crates/openshield-core/src/model.rs.
use open_shield.Base.{ℕ, Bool, ◌||◌, not, all, ltb, ◌==◌, is_empty, ℕ_discrete}
use open_shield.Base.Outcome.{Result, ok, ◌>>◌, reject_if}
use open_shield.Base.Text.{Text, byte_len, within}
use open_shield.Model.Failure.{ValidationError, invalid_interface_name}

abbrev pub max_interface_name_bytes : ℕ
max_interface_name_bytes = 15

pub record InterfaceName : Type 0 where
  pub text : Text

unfoldable pub InterfaceName-discrete : Discrete InterfaceName
InterfaceName-discrete = hlevel ℕ_discrete

-- The test on one byte; a character beyond ASCII has bytes that fail it, and so fails it here.
unfoldable pub is_interface_byte : ℕ → Bool
is_interface_byte c =
    within b'0' b'9' c
    || within b'a' b'z' c
    || within b'A' b'Z' c
    || c == b'_'
    || c == b'-'
    || c == b'.'

unfoldable pub new : Text → Result ValidationError InterfaceName
unfolding is_interface_byte
new value = do
  reject_if (is_empty value || ltb max_interface_name_bytes (byte_len value)) invalid_interface_name
  reject_if (not (all is_interface_byte value)) invalid_interface_name
  ok (record { text = value })
