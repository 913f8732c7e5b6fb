-- ===== src/Application/Characters.antt =====
-- The character and component tests of crates/openshield-core/src/application.rs that paths share.
use open_shield.Base.{ℕ, Bool, ◌||◌, ◌==◌, any}
use open_shield.Base.Text.{Text, codes, is_control, within, split, text_eq}

unfoldable pub is_unsafe_text_character : ℕ → Bool
is_unsafe_text_character c =
    c == 0
    || is_control c
    || c == 0x061c
    || within 0x200b 0x200f c
    || within 0x202a 0x202e c
    || within 0x2060 0x206f c
    || c == 0xfeff

-- `.split('/').any(|component| component == "." || component == "..")`
unfoldable pub traverses : Text → Bool
unfolding split
traverses s =
    any (λ component. text_eq component (codes ".") || text_eq component (codes ".."))
      (split b'/' s)
