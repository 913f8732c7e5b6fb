-- ===== src/Application/CommandArgument/Reading.antt =====
-- Reading back a displayed argument of crates/openshield-core/src/application.rs.
use open_shield.Base.{
  ℕ, ◌+◌, ◌-◌, ◌*◌, ◌/◌, ◌%◌, ◌<◌, ◌≡◌, refl, ap, sym, ◌∙◌, Bool, true, false, ◌||◌, Option, none,
  some, [], ◌∷◌, ◌++◌, ltb, ◌==◌, arith, if◌then◌else◌, Bool-cases, inl, inr, append_assoc,
}
use open_shield.Base.Text.{Text}
use open_shield.Application.Characters.{is_unsafe_text_character}
use open_shield.Application.CommandArgument.{
  CommandArgument, hex_digit, unicode_escape, escape, escape_all, display,
}

abbrev pub digit_value : ℕ → ℕ
digit_value d = if ltb d 0x57 then d - 0x30 else d - 0x57

-- Four hexadecimal digits, and what follows them.
abbrev unescape_digits : Text → Option (ℕ × Text)
unescape_digits (a ∷ b ∷ c ∷ d ∷ rest) =
    some (digit_value a * 4096 + digit_value b * 256 + digit_value c * 16 + digit_value d, rest)
unescape_digits _ = none

-- What a backslash stands for, by the letter behind it.
abbrev unescape_letter : ℕ → Text → Option (ℕ × Text)
unescape_letter d rest =
    if d == b'u'
    then unescape_digits rest
    else if d == b'n'
    then some (0x0a, rest)
    else if d == b'r'
    then some (0x0d, rest)
    else if d == b't'
    then some (0x09, rest)
    else if d == b'b'
    then some (0x08, rest)
    else if d == b'f'
    then some (0x0c, rest)
    else some (d, rest)

abbrev unescape_behind : Text → Option (ℕ × Text)
unescape_behind [] = none
unescape_behind (d ∷ rest) = unescape_letter d rest

-- The first character that a JSON string body shows; a quote ends it.
unescape_one : Text → Option (ℕ × Text)
unescape_one [] = none
unescape_one (c ∷ rest) =
    if c == b'"' then none else if c == b'\\' then unescape_behind rest else some (c, rest)

digit_value-hex_digit : (n : ℕ) → n < 16 → digit_value (hex_digit n) ≡ n
digit_value-hex_digit n h = ground (arith, h)

four_digits :
    (c : ℕ) → c < 65536 → c / 4096 % 16 * 4096 + c / 256 % 16 * 256 + c / 16 % 16 * 16 + c % 16 ≡ c
four_digits c h = omega (arith, h)

unescape-digits :
    (c : ℕ) (rest : Text) → c < 65536 → unescape_one (unicode_escape c ++ rest) ≡ some (c, rest)
unfolding unescape_one
unescape-digits c rest h =
    rw
      (
        digit_value-hex_digit (c / 4096 % 16) (omega arith),
        digit_value-hex_digit (c / 256 % 16) (omega arith),
        digit_value-hex_digit (c / 16 % 16) (omega arith),
        digit_value-hex_digit (c % 16) (omega arith),
        four_digits c h,
      )
      refl

abbrev is_escaped : ℕ → Bool
is_escaped c = is_unsafe_text_character c || c == 0x2028 || c == 0x2029

is_escaped-bound : (c : ℕ) → is_escaped c ≡ true → c < 65536
unfolding is_unsafe_text_character
is_escaped-bound c h = ground (arith, h)

-- Behind the letters with an escape of their own.
unescape-last :
    (c : ℕ) (rest : Text)
    → (c == b'\\') ≡ false
    → (c == b'"') ≡ false
    → unescape_one ((if is_escaped c then unicode_escape c else c ∷ []) ++ rest) ≡ some (c, rest)
unfolding unescape_one
unescape-last c rest slash quote = elim (Bool-cases (is_escaped c)) [
  | inl e ↦ rw e (unescape-digits c rest (is_escaped-bound c e))
  | inr e ↦ rw e (rw slash (rw quote refl))
]

unescape-escape : (c : ℕ) (rest : Text) → unescape_one (escape c ++ rest) ≡ some (c, rest)
unfolding unescape_one escape
unescape-escape c rest = ground (arith, unescape-last c rest)

abbrev quote : Text
quote = b'"' ∷ []

unescape-escape_all :
    (c : ℕ) (s : Text)
    → unescape_one (escape_all (c ∷ s) ++ quote) ≡ some (c, escape_all s ++ quote)
unfolding escape_all
unescape-escape_all c s =
    ap unescape_one (append_assoc (escape c) (escape_all s) quote)
    ∙ unescape-escape c (escape_all s ++ quote)

unescape-quote : unescape_one quote ≡ none
unfolding unescape_one
unescape-quote = refl

escape_all-injective : (s t : Text) → escape_all s ++ quote ≡ escape_all t ++ quote → s ≡ t
escape_all-injective [] [] h = refl
escape_all-injective [] (d ∷ t) h =
    let left : unescape_one (escape_all (d ∷ t) ++ quote) ≡ none =
      ap unescape_one (sym h) ∙ unfold escape_all in unescape-quote in
    let right = unescape-escape_all d t in cc
escape_all-injective (c ∷ s) [] h =
    let left : unescape_one (escape_all (c ∷ s) ++ quote) ≡ none =
      ap unescape_one h ∙ unfold escape_all in unescape-quote in
    let right = unescape-escape_all c s in cc
escape_all-injective (c ∷ s) (d ∷ t) h =
    let left = unescape-escape_all c s in
    let right = unescape-escape_all d t in
    let both : unescape_one (escape_all (c ∷ s) ++ quote)
        ≡ unescape_one (escape_all (d ∷ t) ++ quote) =
      ap unescape_one h in
    let tails : escape_all s ++ quote ≡ escape_all t ++ quote = cc in
    let first : c ≡ d = cc in let more = escape_all-injective s t tails in rw (first, more) refl

-- The display of command arguments is reversible: two arguments that are displayed alike are the
-- same argument.
pub display-injective : (a b : CommandArgument) → display a ≡ display b → a ≡ b
unfolding display
display-injective a b h =
    let body : escape_all a.text ++ quote ≡ escape_all b.text ++ quote = cc in
    ap (λ s. record { text = s }) (escape_all-injective a.text b.text body)
