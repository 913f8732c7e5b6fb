-- ===== src/Protocol/Errors.antt =====
-- `ErrorCode` and `ProtocolError` of crates/openshield-protocol/src/lib.rs.
pub mod Sanitizing
use open_shield.Base.{ℕ, ◌+◌, Bool, ◌||◌, [], ◌∷◌, ltb, ◌==◌, is_empty, if◌then◌else◌}
use open_shield.Base.Text.{Text, codes, len_utf8, within, is_control, text_eq}

pub data ErrorCode : Type 0 where
  invalid_request unauthorized not_found conflict backend_unavailable internal : ErrorCode

pub record ProtocolError : Type 0 where
  pub code : ErrorCode
  pub message : Text

abbrev pub max_error_message_bytes : ℕ
max_error_message_bytes = 512

-- Control characters, and what changes the direction or hides in a line.
abbrev pub is_unsafe_for_terminal : ℕ → Bool
is_unsafe_for_terminal c =
    is_control c
    || c == 0x061c
    || within 0x200b 0x200f c
    || within 0x202a 0x202e c
    || within 0x2060 0x206f c
    || c == 0xfeff

-- The loop over the characters, with the bytes that `sanitized` has already.
unfoldable pub sanitize_from : ℕ → Text → Text
sanitize_from used [] = []
sanitize_from used (c ∷ rest) =
    let skipped = sanitize_from used rest in
    let pushed = sanitize_from (used + len_utf8 c) rest in
    if is_unsafe_for_terminal c
    then skipped
    else if ltb max_error_message_bytes (used + len_utf8 c)
    then []
    else c ∷ pushed

unfoldable pub sanitize_error_message : Text → Text
unfolding sanitize_from
sanitize_error_message message =
    let sanitized = sanitize_from 0 message in
    if is_empty sanitized then codes "unspecified error" else sanitized

-- `ProtocolError::new`.
unfoldable pub protocol_error : ErrorCode → Text → ProtocolError
unfolding sanitize_error_message
protocol_error code message = record { code = code; message = sanitize_error_message message }

-- The check of `ProtocolError::deserialize` on a message that came over the wire.
unfoldable pub accepts_message : Text → Bool
unfolding sanitize_error_message
accepts_message message = text_eq (sanitize_error_message message) message
