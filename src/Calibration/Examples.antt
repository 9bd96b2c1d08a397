-- ===== src/Calibration/Examples.antt =====
-- A concrete calibration for crates/openwave-core/src/calibration.rs, with integers for the numbers.
use openwave.Prelude.{true, false, none, some, [], refl}
use openwave.Prelude.Int.{ℤ, pos, minus}
use openwave.Prelude.Float.{int_float}
use openwave.Effects.{FxSettings}
use openwave.Effects.Validated.{IsValid}
use openwave.Calibration.{Metrics, Analysis, ToneProposal}

abbrev analysis : Analysis ℤ
analysis = record {
  measured = record { floor_db = minus 60; quiet_voice_db = minus 30; loud_voice_db = minus 8 };
  fx = record {
    gate = true;
    gate_thresh = minus 52;
    comp = true;
    comp_thresh = minus 18;
    comp_ratio = pos 3;
  };
}

abbrev tone : ToneProposal ℤ
tone = record { lowcut = 80; eq_high = pos 14; mono = some true }

abbrev existing : FxSettings ℤ
existing = record {
  lowcut = 120;
  gate = false;
  gate_thresh = minus 50;
  comp = false;
  comp_thresh = minus 20;
  comp_ratio = pos 2;
  eq_low = pos 4;
  eq_mid = minus 3;
  eq_high = pos 1;
  delay_ms = pos 40;
  mono = false;
}

abbrev accepted : FxSettings ℤ
accepted = record {
  lowcut = 80;
  gate = true;
  gate_thresh = minus 52;
  comp = true;
  comp_thresh = minus 18;
  comp_ratio = pos 3;
  eq_low = pos 4;
  eq_mid = minus 3;
  eq_high = pos 12;
  delay_ms = pos 40;
  mono = true;
}

existing-IsValid : IsValid int_float existing
existing-IsValid = record {
  lowcut = refl;
  gate_thresh = (refl, refl, refl);
  comp_thresh = (refl, refl, refl);
  comp_ratio = (refl, refl, refl);
  eq_low = (refl, refl, refl);
  eq_mid = (refl, refl, refl);
  eq_high = (refl, refl, refl);
  delay_ms = (refl, refl, refl);
}

abbrev room : Metrics ℤ
room = record {
  peaks_db = [];
  balance = pos 1;
  sub_db = minus 2;
  voice_low_db = minus 20;
  tilt_db = minus 10;
}

abbrev voice : Metrics ℤ
voice = record room { voice_low_db = minus 15; sub_db = minus 9 }

abbrev measured : ToneProposal ℤ
measured = record { lowcut = 120; eq_high = pos 0; mono = none }

abbrev toned : FxSettings ℤ
toned = record accepted { lowcut = 120; eq_high = pos 0; mono = false }
