-- ===== src/Prelude/Decimal.antt =====
-- `usize::to_string`, and `from_str` of unsigned integers.
use Prim.Native.Nat.{ℕ, zero, suc, ◌+◌, ◌*◌, ◌-◌, ◌≤◌}
use Prim.Native.Char.{code}
use mathlib.Core.Path.{◌≡◌}
use mathlib.Core.Logic.{inl, inr}
use mathlib.Core.Bool.{Bool, ◌&&◌}
use native.Mathlib.Omega.{arith}
use Prim.Native.String.{String, ◌++◌}
use mathlib.Core.List.{List, [], ◌∷◌}
use mathlib.Core.Option.{Option, none, some}
use openwave.Prelude.Tests.{if◌then◌else◌, nat_eq, leb, Option-cases}
use openwave.Prelude.Lists.{get_elem?}

-- The decimal digits of a number, the lowest first.
abbrev increment : List ℕ → List ℕ
increment [] = 1 ∷ []
increment (d ∷ ds) = let carried = increment ds in if nat_eq d 9 then 0 ∷ carried else suc d ∷ ds

abbrev decimal_digits : ℕ → List ℕ
decimal_digits zero = 0 ∷ []
decimal_digits (suc n) = increment (decimal_digits n)

abbrev digit : ℕ → String
digit d =
    elim (get_elem? {A = String} ("0" ∷ "1" ∷ "2" ∷ "3" ∷ "4" ∷ "5" ∷ "6" ∷ "7" ∷ "8" ∷ "9" ∷ [])
      d) [ none ↦ "" | some s ↦ s ]

abbrev written : List ℕ → String → String
written [] later = later
written (d ∷ ds) later = written ds (digit d ++ later)

-- `usize::to_string`
abbrev pub decimal : ℕ → String
decimal n = written (decimal_digits n) ""

-- The digits of an unsigned integer, up to `limit`, after one `+` at most.
abbrev is_digit : ℕ → Bool
is_digit c = leb 48 c && leb c 57

abbrev digits_from : ℕ → String → Option ℕ
digits_from n String.[] = some n
digits_from n (String.◌∷◌ c s) =
    let later = digits_from (n * 10 + (code c - 48)) s in if is_digit (code c) then later else none

abbrev unsigned_digits : String → Option ℕ
unsigned_digits String.[] = none
unsigned_digits (String.◌∷◌ c s) = digits_from 0 (String.◌∷◌ c s)

abbrev without_plus : String → String
without_plus String.[] = String.[]
without_plus (String.◌∷◌ c s) = if nat_eq (code c) 43 then s else String.◌∷◌ c s

abbrev within : ℕ → Option ℕ → Option ℕ
within limit none = none
within limit (some n) = if leb n limit then some n else none

unfoldable pub parse_uint : ℕ → String → Option ℕ
parse_uint limit s = within limit (unsigned_digits (without_plus s))

abbrev pub u32_max : ℕ
u32_max = 4294967295

abbrev pub u64_max : ℕ
u64_max = 18446744073709551615

pub parse_uint-le : (limit : ℕ) (s : String) {n : ℕ} → parse_uint limit s ≡ some n → n ≤ limit
unfolding parse_uint
parse_uint-le limit s h = elim (Option-cases (unsigned_digits (without_plus s))) [
  | inl e ↦ absurd (ground (arith, e, h))
  | inr (m, e) ↦ ground (arith, e, h)
]
