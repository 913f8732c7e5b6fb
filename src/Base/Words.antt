-- ===== src/Base/Words.antt =====
-- Machine integers: the bounds, checked and saturating addition, and signed values.
use Prim.Native.Nat.{ℕ, ◌+◌, ◌-◌, min}
use mathlib.Core.Option.{Option, none, some}
use native.Mathlib.Decide.{ℕ_discrete}
use open_shield.Base.Tests.{leb, if◌then◌else◌}

abbrev pub u16_max : ℕ
u16_max = 0xffff

abbrev pub u32_max : ℕ
u32_max = 0xffff_ffff

abbrev pub u64_max : ℕ
u64_max = 0xffff_ffff_ffff_ffff

-- `usize` on the 64-bit targets.
abbrev pub usize_max : ℕ
usize_max = u64_max

-- `checked_add` at the type whose largest value is given first.
abbrev pub checked_add : ℕ → ℕ → ℕ → Option ℕ
checked_add limit a b = if leb (a + b) limit then some (a + b) else none

abbrev pub saturating_add : ℕ → ℕ → ℕ → ℕ
saturating_add limit a b = min (a + b) limit

abbrev pub checked_sub : ℕ → ℕ → Option ℕ
checked_sub a b = if leb b a then some (a - b) else none

-- `negsuc n` is -(n + 1).
pub data ℤ : Type 0 where
  pos : ℕ → ℤ
  negsuc : ℕ → ℤ

unfoldable pub ℤ-discrete : Discrete ℤ
ℤ-discrete = hlevel ℕ_discrete
