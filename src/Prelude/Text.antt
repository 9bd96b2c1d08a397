-- ===== src/Prelude/Text.antt =====
-- The order of texts (`str::cmp`) and tests on their beginnings.
use Prim.Native.Nat.{Ordering, compare as compare_ℕ}
use Prim.Native.Char.{Char, code}
use Prim.Native.String.compare as cmp
use Prim.Native.String.{String, compare, then}
use mathlib.Core.Path.{◌≡◌, refl}
use mathlib.Core.Bool.{Bool, true, false, ◌||◌}
use openwave.Prelude.Tests.{nat_eq}
use mathlib.Core.Option.{Option, none, some}
use native.Mathlib.Omega.{arith}
use text.Mathlib.Text.{is_lt, ◌==◌ as str_eq}
use text.Mathlib.TextEquality.{path_by_compare}
use text.Mathlib.TextPositions.{compare_refl}

abbrev pub str_lt : String → String → Bool
str_lt a b = is_lt (compare a b)

abbrev flip : Ordering → Ordering
flip Ordering.lt = Ordering.gt
flip Ordering.eq = Ordering.eq
flip Ordering.gt = Ordering.lt

abbrev cons : Char → String → String
cons = String.◌∷◌

compare-nil-cons : (d : Char) (t : String) → compare String.[] (cons d t) ≡ Ordering.lt
compare-nil-cons d t = cmp.nil-cons d t

compare-cons-nil : (c : Char) (s : String) → compare (cons c s) String.[] ≡ Ordering.gt
compare-cons-nil c s = cmp.cons-nil c s

compare-cons-cons :
    (c d : Char) (s t : String)
    → compare (cons c s) (cons d t) ≡ then (compare_ℕ (code c) (code d)) (compare s t)
compare-cons-cons c d s t = cmp.cons-cons c d s t

compare-flip : (s t : String) → compare t s ≡ flip (compare s t)
compare-flip String.[] String.[] = refl
compare-flip String.[] (String.◌∷◌ d t) = rw (compare-nil-cons d t, compare-cons-nil d t)
compare-flip (String.◌∷◌ c s) String.[] = rw (compare-nil-cons c s, compare-cons-nil c s)
compare-flip (String.◌∷◌ c s) (String.◌∷◌ d t) =
    rw (compare-cons-cons c d s t, compare-cons-cons d c t s) (ground (arith, compare-flip s t))

pub str_lt_trans : (s t u : String) → str_lt s t ≡ true → str_lt t u ≡ true → str_lt s u ≡ true
str_lt_trans String.[] String.[] u h k = k
str_lt_trans (String.◌∷◌ c s) String.[] u h k = ground (arith, compare-cons-nil c s)
str_lt_trans s (String.◌∷◌ d t) String.[] h k = ground (arith, compare-cons-nil d t)
str_lt_trans String.[] (String.◌∷◌ d t) (String.◌∷◌ e u) h k = rw (compare-nil-cons e u)
str_lt_trans (String.◌∷◌ c s) (String.◌∷◌ d t) (String.◌∷◌ e u) h k = ground (
  arith,
  compare-cons-cons c d s t,
  compare-cons-cons d e t u,
  compare-cons-cons c e s u,
  str_lt_trans s t u,
)

pub str_lt_irrefl : (s : String) → str_lt s s ≡ false
str_lt_irrefl s = ground (arith, compare_refl s)

pub str_lt_asymm : (s t : String) → str_lt s t ≡ true → str_lt t s ≡ false
str_lt_asymm s t h = ground (arith, compare-flip s t)

-- Neither below the other: the same text.
pub str_lt_tricho : (s t : String) → str_lt s t ≡ false → str_lt t s ≡ false → s ≡ t
str_lt_tricho s t h k = ground (arith, compare-flip s t, path_by_compare s t)

-- `text.contains('\0')`
abbrev pub has_nul : String → Bool
has_nul String.[] = false
has_nul (String.◌∷◌ c s) = nat_eq (code c) 0 || has_nul s

-- `str::ends_with`
abbrev pub ends_with : String → String → Bool
ends_with String.[] suffix = str_eq String.[] suffix
ends_with (String.◌∷◌ c s) suffix = str_eq (String.◌∷◌ c s) suffix || ends_with s suffix

-- `str::strip_prefix`, with the prefix first
abbrev pub strip_prefix : String → String → Option String
strip_prefix String.[] s = some s
strip_prefix (String.◌∷◌ p ps) String.[] = none
strip_prefix (String.◌∷◌ p ps) (String.◌∷◌ c s) =
    let rest = strip_prefix ps s in elim (nat_eq (code p) (code c)) [ true ↦ rest | false ↦ none ]
