-- ===== src/Effects/Examples.antt =====
-- Concrete settings for crates/openwave-core/src/effects.rs, with integers for the numbers.
use openwave.Prelude.{true, false, refl, nat_instance, string_instance}
use openwave.Prelude.Int.{ℤ, pos, minus}
use openwave.Prelude.Float.{int_float, clamp}
use openwave.Effects.{FxSettings, bounded, validated}
use openwave.Effects.Validated.{IsValid, validated-IsValid}
use openwave.Effects.Toggle.{Toggles, toggle_twice}

abbrev wild : FxSettings ℤ
wild = record {
  lowcut = 80;
  gate = true;
  gate_thresh = minus 90;
  comp = false;
  comp_thresh = pos 3;
  comp_ratio = pos 12;
  eq_low = pos 0;
  eq_mid = minus 20;
  eq_high = pos 5;
  delay_ms = pos 900;
  mono = false;
}

abbrev tamed : FxSettings ℤ
tamed = record wild {
  gate_thresh = minus 70;
  comp_thresh = pos 0;
  comp_ratio = pos 10;
  eq_mid = minus 12;
  delay_ms = pos 500;
}

abbrev ungated : FxSettings ℤ
ungated = record tamed { gate = false }

validated-IsValid_example : IsValid int_float tamed
unfolding validated bounded clamp
validated-IsValid_example = validated-IsValid int_float wild refl

tamed-IsValid : IsValid int_float tamed
tamed-IsValid = record {
  lowcut = refl;
  gate_thresh = (refl, refl, refl);
  comp_thresh = (refl, refl, refl);
  comp_ratio = (refl, refl, refl);
  eq_low = (refl, refl, refl);
  eq_mid = (refl, refl, refl);
  eq_high = (refl, refl, refl);
  delay_ms = (refl, refl, refl);
}

toggle_twice_example : Toggles int_float tamed "lowcut"
toggle_twice_example = toggle_twice int_float tamed "lowcut" tamed-IsValid refl
