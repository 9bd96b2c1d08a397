-- ===== src/Prelude/Float.antt =====
-- The `f64` operations that the program uses, as a parameter, with the laws of IEEE 754 that its
-- proofs rest on. NaN is neither below, above nor equal to anything, so no totality is asked.
use Prim.Native.Nat.{ℕ, ◌+◌, ◌*◌, ◌/◌, min}
use mathlib.Core.Path.{◌≡◌, refl}
use mathlib.Core.Bool.{Bool, true, false}
use native.Mathlib.Omega.{arith}
use openwave.Prelude.Tests.{if◌then◌else◌, leb, nat_eq}
use openwave.Prelude.Int.{ℤ, pos, negsuc, pos_part, neg_part, sub_ℕ, ltb_ℤ}

-- The integers of up to three digits, which a literal of the program stays within.
abbrev pub is_small : ℤ → Bool
is_small (pos n) = leb n 999
is_small (negsuc n) = leb n 998

abbrev pub int_eq : ℤ → ℤ → Bool
int_eq (pos a) (pos b) = nat_eq a b
int_eq (negsuc a) (negsuc b) = nat_eq a b
int_eq (pos a) (negsuc b) = false
int_eq (negsuc a) (pos b) = false

pub record Float : Type 1 where
  pub F : Type 0
  pub is_finite : F → Bool
  pub lt : F → F → Bool
  pub eq : F → F → Bool
  pub of_int : ℤ → F
  pub lt_irrefl : (a : F) → lt a a ≡ false
  pub of_int_finite : (n : ℤ) → is_small n ≡ true → is_finite (of_int n) ≡ true
  pub of_int_lt :
      (m n : ℤ) → is_small m ≡ true → is_small n ≡ true → lt (of_int m) (of_int n) ≡ ltb_ℤ m n
  pub of_int_eq :
      (m n : ℤ) → is_small m ≡ true → is_small n ≡ true → eq (of_int m) (of_int n) ≡ int_eq m n

module _ (fl : Float) where
  open fl use {F, is_finite, lt, lt_irrefl}

  -- `f64::clamp`
  unfoldable pub clamp : F → F → F → F
  clamp lo hi x = if lt x lo then lo else if lt hi x then hi else x

  pub clamp_bounds :
      (lo hi x : F)
      → lt hi lo ≡ false
      → (lt (clamp lo hi x) lo ≡ false) × (lt hi (clamp lo hi x) ≡ false)
  unfolding clamp
  clamp_bounds lo hi x h = ground (arith, lt_irrefl lo, lt_irrefl hi)

  pub clamp_inside : (lo hi x : F) → lt x lo ≡ false → lt hi x ≡ false → clamp lo hi x ≡ x
  unfolding clamp
  clamp_inside lo hi x a b = ground arith

  pub clamp_finite :
      (lo hi x : F)
      → is_finite lo ≡ true
      → is_finite hi ≡ true
      → is_finite x ≡ true
      → is_finite (clamp lo hi x) ≡ true
  unfolding clamp
  clamp_finite lo hi x a b c = ground arith

-- The integers, all finite, have the laws.
pub int_lt_irrefl : (a : ℤ) → ltb_ℤ a a ≡ false
int_lt_irrefl a = ground arith

abbrev pub int_float : Float
int_float = record {
  F = ℤ;
  is_finite = λ a. true;
  lt = ltb_ℤ;
  eq = int_eq;
  of_int = λ n. n;
  lt_irrefl = int_lt_irrefl;
  of_int_finite = λ n h. refl;
  of_int_lt = λ m n h k. refl;
  of_int_eq = λ m n h k. refl;
}

-- Arithmetic on the numbers, and Rust's saturating casts, with the ranges of their results.
pub record Arithmetic (fl : Float) : Type 0 where
  pub neg : fl.F → fl.F
  pub add : fl.F → fl.F → fl.F
  pub mul : fl.F → fl.F → fl.F
  pub div : fl.F → fl.F → fl.F
  pub round_ties_even : fl.F → fl.F
  pub to_u8 : fl.F → ℕ
  pub to_i16 : fl.F → ℤ
  pub to_i32 : fl.F → ℤ
  pub to_u8_range : (x : fl.F) → leb (to_u8 x) 255 ≡ true
  pub to_i16_low : (x : fl.F) → leb (neg_part (to_i16 x)) 32768 ≡ true
  pub to_i16_high : (x : fl.F) → leb (pos_part (to_i16 x)) 32767 ≡ true

abbrev negate : ℤ → ℤ
negate a = sub_ℕ (neg_part a) (pos_part a)

abbrev plus : ℤ → ℤ → ℤ
plus a b = sub_ℕ (pos_part a + pos_part b) (neg_part a + neg_part b)

abbrev times : ℤ → ℤ → ℤ
times a b =
    sub_ℕ (pos_part a * pos_part b + neg_part a * neg_part b)
      (pos_part a * neg_part b + neg_part a * pos_part b)

-- Division by a positive integer, truncated.
abbrev over : ℤ → ℤ → ℤ
over a b = sub_ℕ (pos_part a / pos_part b) (neg_part a / pos_part b)

abbrev to_byte : ℤ → ℕ
to_byte a = min (pos_part a) 255

abbrev to_short : ℤ → ℤ
to_short (pos n) = pos (min n 32767)
to_short (negsuc n) = negsuc (min n 32767)

pub to_byte_range : (a : ℤ) → leb (to_byte a) 255 ≡ true
to_byte_range a = ground arith

pub to_short_low : (a : ℤ) → leb (neg_part (to_short a)) 32768 ≡ true
to_short_low (pos n) = refl
to_short_low (negsuc n) = ground arith

pub to_short_high : (a : ℤ) → leb (pos_part (to_short a)) 32767 ≡ true
to_short_high (pos n) = ground arith
to_short_high (negsuc n) = refl

abbrev pub int_arithmetic : Arithmetic int_float
int_arithmetic = record {
  neg = negate;
  add = plus;
  mul = times;
  div = over;
  round_ties_even = λ a. a;
  to_u8 = to_byte;
  to_i16 = to_short;
  to_i32 = λ a. a;
  to_u8_range = to_byte_range;
  to_i16_low = to_short_low;
  to_i16_high = to_short_high;
}
