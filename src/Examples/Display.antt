-- ===== src/Examples/Display.antt =====
-- The display of command arguments.
use open_shield.Base.{◌≡◌, refl, [], ◌∷◌}
use open_shield.Application.CommandArgument.{CommandArgument}
use open_shield.Application.CommandArgument.Reading.{display-injective}

-- A backslash before an `n`, and a newline.
abbrev literal : CommandArgument
literal = record { text = b'\\' ∷ b'n' ∷ 0x0a ∷ 0x202e ∷ [] }

display-injective_example : literal ≡ literal
display-injective_example = display-injective literal literal refl
