-- ===== src/Calibration.antt =====
-- crates/openwave-core/src/calibration.rs: what a measurement proposes, and the settings that
-- accepting it makes.
pub mod Accepted
pub mod Examples
use openwave.Prelude.{ℕ, Bool, true, not, ◌&&◌, ◌||◌, Option, none, some, List, if◌then◌else◌}
use openwave.Prelude.Int.{pos, minus}
use openwave.Prelude.Float.{Float, Arithmetic, clamp}
use openwave.Model.{Result, ok, fail, invalid, ◌>>◌}
use openwave.Effects.{FxSettings, validated}

pub record Metrics (F : Type 0) : Type 0 where
  pub peaks_db : List F
  pub balance : F
  pub sub_db : F
  pub voice_low_db : F
  pub tilt_db : F

pub record MeasuredLevels (F : Type 0) : Type 0 where
  pub floor_db : F
  pub quiet_voice_db : F
  pub loud_voice_db : F

pub record DynamicsProposal (F : Type 0) : Type 0 where
  pub gate : Bool
  pub gate_thresh : F
  pub comp : Bool
  pub comp_thresh : F
  pub comp_ratio : F

pub record Analysis (F : Type 0) : Type 0 where
  pub measured : MeasuredLevels F
  pub fx : DynamicsProposal F

pub record ToneProposal (F : Type 0) : Type 0 where
  pub lowcut : ℕ  -- u16
  pub eq_high : F
  pub mono : Option Bool

abbrev pub with_dynamics : {F : Type 0} → DynamicsProposal F → FxSettings F → FxSettings F
with_dynamics fx s = record s {
  gate = fx.gate;
  gate_thresh = fx.gate_thresh;
  comp = fx.comp;
  comp_thresh = fx.comp_thresh;
  comp_ratio = fx.comp_ratio;
}

abbrev pub or_mono : Option Bool → Bool → Bool
or_mono none mono = mono
or_mono (some m) mono = m

abbrev pub with_tone : {F : Type 0} → Option (ToneProposal F) → FxSettings F → FxSettings F
with_tone none s = s
with_tone (some tone) s = record s {
  lowcut = tone.lowcut;
  eq_high = tone.eq_high;
  mono = or_mono tone.mono s.mono;
}

module _ (fl : Float) where
  open fl use {F}

  unfoldable pub proposed_settings :
      Analysis F → FxSettings F → Option (ToneProposal F) → Result (FxSettings F)
  proposed_settings analysis existing tone =
      validated fl (with_tone tone (with_dynamics analysis.fx existing))

module _ (fl : Float) (ar : Arithmetic fl) where
  open fl use {F, is_finite, lt, of_int}
  open ar use {neg, add, mul, div, round_ties_even}

  -- The literals 0.05 and 0.5, which are the quotients as `f64` rounds them.
  abbrev pub twentieth : F
  twentieth = div (of_int (pos 5)) (of_int (pos 100))

  abbrev half : F
  half = div (of_int (pos 1)) (of_int (pos 2))

  -- One round of the loop in `analyze_tone`. `contains` is read of a finite number, for which what
  -- `lt` denies is the reverse order.
  unfoldable pub check_metrics : Metrics F → Result (Unit {0})
  check_metrics m =
      if not (is_finite m.balance)
        || not (is_finite m.sub_db)
        || not (is_finite m.voice_low_db)
        || not (is_finite m.tilt_db)
      then fail invalid "malformed tone measurements"
      else if lt m.balance (of_int (pos 0)) || lt (of_int (pos 1)) m.balance
      then fail invalid "malformed channel balance"
      else ok tt

  -- The tone that the measurements propose, when they are well formed.
  unfoldable pub measured_tone : Metrics F → Metrics F → ToneProposal F
  measured_tone floor speech = record {
    lowcut =
        if lt (of_int (minus 12)) speech.voice_low_db || not (lt (of_int (minus 6)) floor.sub_db)
        then 80
        else 120;
    eq_high =
        clamp fl (of_int (minus 4)) (of_int (pos 4))
          (round_ties_even (mul (add (of_int (minus 15)) (neg speech.tilt_db)) half));
    mono = if lt speech.balance twentieth then some true else none;
  }

  unfoldable pub analyze_tone : Metrics F → Metrics F → Result (ToneProposal F)
  unfolding check_metrics measured_tone
  analyze_tone floor speech =
      check_metrics floor >> check_metrics speech >> ok (measured_tone floor speech)
