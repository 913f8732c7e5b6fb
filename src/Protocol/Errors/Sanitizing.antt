-- ===== src/Protocol/Errors/Sanitizing.antt =====
-- What `sanitize_error_message` of crates/openshield-protocol/src/lib.rs leaves of a message.
use open_shield.Base.{
  ◌≡◌, refl, ℕ, ◌+◌, ◌≤◌, true, false, [], ◌∷◌, arith, ltb, All, is_empty, if_cases,
}
use open_shield.Base.Text.{Text, len_utf8, byte_len}
use open_shield.Protocol.Errors.{
  ErrorCode, max_error_message_bytes, is_unsafe_for_terminal, sanitize_from, sanitize_error_message,
  protocol_error, accepts_message,
}

abbrev pub IsPrintable : Text → Type 0
IsPrintable = All (λ c. is_unsafe_for_terminal c ≡ false)

-- A text that fits behind what the loop has already.
record Fits (used : ℕ) (t : Text) : Type 0 where
  pub printable : IsPrintable t
  pub short : used + byte_len t ≤ max_error_message_bytes

sanitize_from-Fits :
    (used : ℕ) (t : Text) → used ≤ max_error_message_bytes → Fits used (sanitize_from used t)
unfolding sanitize_from
sanitize_from-Fits used [] h = record { printable = tt; short = omega arith }
sanitize_from-Fits used (c ∷ rest) h =
    if_cases (Fits used) (is_unsafe_for_terminal c) _ _ (λ _. sanitize_from-Fits used rest h)
      λ safe.
        if_cases (Fits used) (ltb max_error_message_bytes (used + len_utf8 c)) _ _
          (λ _. record { printable = tt; short = omega arith })
          λ room.
            let f = sanitize_from-Fits (used + len_utf8 c) rest (ground (arith, room)) in
            record { printable = (safe, f.printable); short = let s = f.short in omega (arith, s) }

sanitize_from-kept : (used : ℕ) (t : Text) → Fits used t → sanitize_from used t ≡ t
unfolding sanitize_from
sanitize_from-kept used [] f = refl
sanitize_from-kept used (c ∷ rest) f =
    let more =
      sanitize_from-kept (used + len_utf8 c) rest
        (record { printable = f.printable.1; short = let h = f.short in omega (arith, h) }) in
    let room : ltb max_error_message_bytes (used + len_utf8 c) ≡ false =
      let h = f.short in ground (arith, h) in
    rw (f.printable.0, room, more) refl

-- What a client may show of an error: printable, not empty, and small enough.
pub record IsPresentable (message : Text) : Type 0 where
  pub printable : IsPrintable message
  pub short : byte_len message ≤ max_error_message_bytes
  pub named : is_empty message ≡ false

sanitized-IsPresentable : (message : Text) → IsPresentable (sanitize_error_message message)
unfolding sanitize_error_message
sanitized-IsPresentable message =
    let f = sanitize_from-Fits 0 message (omega arith) in
    if_cases IsPresentable (is_empty (sanitize_from 0 message)) _ _
      (λ _. record { printable = ground arith; short = omega arith; named = refl })
      (λ some. record {
        printable = f.printable;
        short = let h = f.short in omega (arith, h);
        named = some;
      })

sanitized-kept : (message : Text) → IsPresentable message → sanitize_error_message message ≡ message
unfolding sanitize_error_message
sanitized-kept message p =
    let kept =
      sanitize_from-kept 0 message
        (record { printable = p.printable; short = let h = p.short in omega (arith, h) }) in
    rw (kept, p.named) refl

-- The message of a protocol error, whatever it was made from, is not empty, has at most 512 bytes
-- and no character that could control a terminal, and passes the check of the side that receives
-- it.
pub protocol_error-accepted :
    (code : ErrorCode) (message : Text)
    → IsPresentable (protocol_error code message).message
      × (accepts_message (protocol_error code message).message ≡ true)
unfolding protocol_error accepts_message
protocol_error-accepted code message =
    let p = sanitized-IsPresentable message in (p, ground (arith, sanitized-kept _ p))
