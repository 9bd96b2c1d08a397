-- ===== src/Effects/Validated.antt =====
-- Validated effect settings lie in their ranges, and stay as they are.
use openwave.Prelude.{
  String, Bool, true, false, ◌&&◌, ◌≡◌, refl, arith, nat_instance, string_instance,
}
use openwave.Prelude.Int.{ℤ, pos, minus, ltb_ℤ}
use openwave.Prelude.Float.{Float, clamp, clamp_bounds, clamp_inside, clamp_finite, is_small}
use openwave.Model.{Result, ok, err}
use openwave.Effects.{FxSettings, is_lowcut, bounded, validated}

module _ (fl : Float) where
  open fl use {F, is_finite, lt, eq, of_int}

  -- A finite number between two integers.
  abbrev pub Between : ℤ → ℤ → F → Type 0
  Between lo hi x = (is_finite x ≡ true) × (lt x (of_int lo) ≡ false) × (lt (of_int hi) x ≡ false)

  pub record IsValid (s : FxSettings F) : Type 0 where
    pub lowcut : is_lowcut s.lowcut ≡ true
    pub gate_thresh : Between (minus 70) (minus 20) s.gate_thresh
    pub comp_thresh : Between (minus 30) (pos 0) s.comp_thresh
    pub comp_ratio : Between (pos 1) (pos 10) s.comp_ratio
    pub eq_low : Between (minus 12) (pos 12) s.eq_low
    pub eq_mid : Between (minus 12) (pos 12) s.eq_mid
    pub eq_high : Between (minus 12) (pos 12) s.eq_high
    pub delay_ms : Between (pos 0) (pos 500) s.delay_ms

  clamped-Between :
      (lo hi : ℤ) (x : F)
      → is_small lo ≡ true
      → is_small hi ≡ true
      → ltb_ℤ hi lo ≡ false
      → is_finite x ≡ true
      → Between lo hi (clamp fl (of_int lo) (of_int hi) x)
  clamped-Between lo hi x a b c h = ground (
    arith,
    fl.of_int_lt hi lo b a,
    clamp_bounds fl (of_int lo) (of_int hi) x,
    clamp_finite fl (of_int lo) (of_int hi) x (fl.of_int_finite lo a) (fl.of_int_finite hi b),
  )

  bounded_inside :
      (message : String) (lo hi : ℤ) (x : F) → Between lo hi x → bounded fl message lo hi x ≡ ok x
  unfolding bounded
  bounded_inside message lo hi x h = ground (arith, clamp_inside fl (of_int lo) (of_int hi) x)

  -- Settings that pass validation lie in the ranges of every effect.
  pub validated-IsValid : (s : FxSettings F) {r : FxSettings F} → validated fl s ≡ ok r → IsValid r
  unfolding validated
  validated-IsValid s {r} h = ground (
    arith,
    clamped-Between (minus 70) (minus 20) s.gate_thresh refl refl refl,
    clamped-Between (minus 30) (pos 0) s.comp_thresh refl refl refl,
    clamped-Between (pos 1) (pos 10) s.comp_ratio refl refl refl,
    clamped-Between (minus 12) (pos 12) s.eq_low refl refl refl,
    clamped-Between (minus 12) (pos 12) s.eq_mid refl refl refl,
    clamped-Between (minus 12) (pos 12) s.eq_high refl refl refl,
    clamped-Between (pos 0) (pos 500) s.delay_ms refl refl refl,
  )

  -- Valid settings pass validation as they are.
  pub validated_fixed : (s : FxSettings F) → IsValid s → validated fl s ≡ ok s
  unfolding validated
  validated_fixed s v = rw (
    v.lowcut,
    bounded_inside "gate_thresh must be a finite number" (minus 70) (minus 20) s.gate_thresh
        v.gate_thresh,
    bounded_inside "comp_thresh must be a finite number" (minus 30) (pos 0) s.comp_thresh
        v.comp_thresh,
    bounded_inside "comp_ratio must be a finite number" (pos 1) (pos 10) s.comp_ratio v.comp_ratio,
    bounded_inside "eq_low must be a finite number" (minus 12) (pos 12) s.eq_low v.eq_low,
    bounded_inside "eq_mid must be a finite number" (minus 12) (pos 12) s.eq_mid v.eq_mid,
    bounded_inside "eq_high must be a finite number" (minus 12) (pos 12) s.eq_high v.eq_high,
    bounded_inside "delay_ms must be a finite number" (pos 0) (pos 500) s.delay_ms v.delay_ms,
  )

  abbrev pub all_finite : FxSettings F → Bool
  all_finite s =
      is_finite s.gate_thresh
      && is_finite s.comp_thresh
      && is_finite s.comp_ratio
      && is_finite s.eq_low
      && is_finite s.eq_mid
      && is_finite s.eq_high
      && is_finite s.delay_ms

  abbrev is_ok : Result (FxSettings F) → Bool
  is_ok (ok s) = true
  is_ok (err e) = false

  validated_accepts :
      (s : FxSettings F) → is_ok (validated fl s) ≡ (is_lowcut s.lowcut && all_finite s)
  unfolding validated
  validated_accepts s = ground arith
