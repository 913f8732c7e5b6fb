-- ===== src/Base/Decimal.antt =====
-- `to_string` of an unsigned integer: decimal digits, most significant first.
use Prim.Native.Nat.{ℕ, zero, suc, ◌+◌, ◌/◌, ◌%◌}
use mathlib.Core.List.{List, [], ◌∷◌}
use open_shield.Base.Tests.{ltb, if◌then◌else◌}

-- One digit for each unit of fuel at most; twenty are enough for a `u64`.
unfoldable pub digits : ℕ → ℕ → List ℕ → List ℕ
digits zero n rest = rest
digits (suc fuel) n rest =
    let more = digits fuel (n / 10) ((0x30 + n % 10) ∷ rest) in
    if ltb n 10 then (0x30 + n) ∷ rest else more

unfoldable pub to_string : ℕ → List ℕ
unfolding digits
to_string n = digits 20 n []
