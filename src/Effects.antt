-- ===== src/Effects.antt =====
-- crates/openwave-core/src/effects.rs: the effect settings of a source.
pub mod Validated
pub mod Toggle
pub mod Examples
use openwave.Prelude.{
  ℕ, String, Bool, true, false, not, ◌&&◌, ◌||◌, Option, none, some, List, [], ◌∷◌, ◌==◌,
  nat_instance, string_instance, if◌then◌else◌, length,
}
use text.Mathlib.Text.{starts_with}
use openwave.Prelude.Text.{has_nul}
use openwave.Prelude.Int.{ℤ, pos, minus}
use openwave.Prelude.Float.{Float, clamp}
use openwave.Model.{Result, ok, err, fail, invalid, ◌>>=◌}

pub record FxSettings (F : Type 0) : Type 0 where
  pub lowcut : ℕ  -- u16
  pub gate : Bool
  pub gate_thresh : F
  pub comp : Bool
  pub comp_thresh : F
  pub comp_ratio : F
  pub eq_low : F
  pub eq_mid : F
  pub eq_high : F
  pub delay_ms : F
  pub mono : Bool

abbrev pub is_lowcut : ℕ → Bool
is_lowcut n = n == 0 || n == 80 || n == 120

module _ (fl : Float) where
  open fl use {F, is_finite, lt, eq, of_int}

  -- `FxSettings::default`
  unfoldable pub default : FxSettings F
  default = record {
    lowcut = 0;
    gate = false;
    gate_thresh = of_int (minus 50);
    comp = false;
    comp_thresh = of_int (minus 18);
    comp_ratio = of_int (pos 3);
    eq_low = of_int (pos 0);
    eq_mid = of_int (pos 0);
    eq_high = of_int (pos 0);
    delay_ms = of_int (pos 0);
    mono = false;
  }

  -- One round of the loop in `validated`.
  unfoldable pub bounded : String → ℤ → ℤ → F → Result F
  bounded message lo hi x =
      if is_finite x then ok (clamp fl (of_int lo) (of_int hi) x) else fail invalid message

  unfoldable pub validated : FxSettings F → Result (FxSettings F)
  unfolding bounded
  validated s =
      if is_lowcut s.lowcut
      then (do
        gate_thresh ←
            bounded "gate_thresh must be a finite number" (minus 70) (minus 20) s.gate_thresh
        comp_thresh ← bounded "comp_thresh must be a finite number" (minus 30) (pos 0) s.comp_thresh
        comp_ratio ← bounded "comp_ratio must be a finite number" (pos 1) (pos 10) s.comp_ratio
        eq_low ← bounded "eq_low must be a finite number" (minus 12) (pos 12) s.eq_low
        eq_mid ← bounded "eq_mid must be a finite number" (minus 12) (pos 12) s.eq_mid
        eq_high ← bounded "eq_high must be a finite number" (minus 12) (pos 12) s.eq_high
        delay_ms ← bounded "delay_ms must be a finite number" (pos 0) (pos 500) s.delay_ms
        ok (record s {
          gate_thresh = gate_thresh;
          comp_thresh = comp_thresh;
          comp_ratio = comp_ratio;
          eq_low = eq_low;
          eq_mid = eq_mid;
          eq_high = eq_high;
          delay_ms = delay_ms;
        }))
      else fail invalid "lowcut must be 0, 80, or 120 Hz"

  unfoldable pub active : FxSettings F → Bool
  active s =
      not (s.lowcut == 0)
      || s.gate
      || (s.comp && lt (of_int (pos 1)) s.comp_ratio)
      || not (eq s.eq_low (of_int (pos 0)))
      || not (eq s.eq_mid (of_int (pos 0)))
      || not (eq s.eq_high (of_int (pos 0)))
      || not (eq s.delay_ms (of_int (pos 0)))
      || s.mono

  unfoldable pub toggled : FxSettings F → String → Result (FxSettings F)
  toggled s key =
      if key == "lowcut"
      then ok (record s { lowcut = if s.lowcut == 0 then 80 else 0 })
      else if key == "gate"
      then ok (record s { gate = not s.gate })
      else if key == "comp"
      then ok (record s { comp = not s.comp })
      else if key == "mono"
      then ok (record s { mono = not s.mono })
      else fail invalid "effect cannot be toggled"

  -- `toggle` writes the new settings only when it succeeds.
  unfoldable pub toggle : FxSettings F → String → Result (FxSettings F)
  unfolding validated toggled
  toggle s key = do next ← validated s; toggled next key

-- `None` in discovery means stereo.
unfoldable pub capture_channels : Option ℕ → Result ℕ
capture_channels none = ok 2
capture_channels (some n) =
    if n == 1 || n == 2 then ok n else fail invalid "capture must have one or two channels"

unfoldable pub validate_raw_node : String → Result (Unit {0})
validate_raw_node node =
    if node == "" || has_nul node || node == "0" || node == "-1" || starts_with node "openwave_fx_"
    then fail invalid "select a raw microphone node"
    else ok tt
