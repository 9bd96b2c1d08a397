-- ===== src/Prelude/Word.antt =====
-- Bounded unsigned integers: a value is a number with its range stated apart.
use openwave.Prelude.Tests.{if◌then◌else◌, leb}
use Prim.Native.Nat.{ℕ, ◌+◌, ◌-◌, min}
use mathlib.Core.Option.{Option, none, some}

abbrev pub u32_max : ℕ
u32_max = 4294967295

-- `u32::saturating_add(1)`
abbrev pub saturating_suc : ℕ → ℕ
saturating_suc n = min (n + 1) u32_max

-- `Duration::checked_sub`, with a duration as a number of nanoseconds
abbrev pub checked_sub : ℕ → ℕ → Option ℕ
checked_sub a b = if leb b a then some (a - b) else none
