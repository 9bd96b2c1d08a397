-- ===== src/Calibration/Accepted.antt =====
-- Accepted calibrations (crates/openwave-core/src/calibration.rs): `proposed_settings` keeps the
-- other effects.
use openwave.Prelude.{not, ◌&&◌, ◌||◌, if◌then◌else◌, Option, none, some, ◌≡◌, arith}
use openwave.Prelude.Int.{pos, minus}
use openwave.Prelude.Float.{Float, Arithmetic, clamp_inside}
use openwave.Model.{ok}
use openwave.Effects.{FxSettings, bounded, validated}
use openwave.Effects.Validated.{IsValid, validated-IsValid}
use openwave.Calibration.{
  Analysis, ToneProposal, with_dynamics, with_tone, or_mono, proposed_settings, check_metrics,
  measured_tone, analyze_tone, twentieth, Metrics,
}

module _ (fl : Float) where
  open fl use {F, of_int}

  abbrev pub Accepts : Analysis F → Option (ToneProposal F) → FxSettings F → FxSettings F → Type 0
  Accepts analysis none s r =
      (r.gate ≡ analysis.fx.gate)
      × (r.comp ≡ analysis.fx.comp)
      × (r.eq_low ≡ s.eq_low)
      × (r.eq_mid ≡ s.eq_mid)
      × (r.delay_ms ≡ s.delay_ms)
      × (r.lowcut ≡ s.lowcut)
      × (r.eq_high ≡ s.eq_high)
      × (r.mono ≡ s.mono)
  Accepts analysis (some tone) s r =
      (r.gate ≡ analysis.fx.gate)
      × (r.comp ≡ analysis.fx.comp)
      × (r.eq_low ≡ s.eq_low)
      × (r.eq_mid ≡ s.eq_mid)
      × (r.delay_ms ≡ s.delay_ms)
      × (r.lowcut ≡ tone.lowcut)
      × (r.mono ≡ or_mono tone.mono s.mono)

  -- From valid settings, an accepted calibration is valid, switches the gate and the compressor as
  -- it proposes, and keeps what it does not propose: the low and the middle band and the delay, and
  -- without a tone also the low cut, the high band and mono. A tone's low cut is taken, and its mono
  -- where it has one.
  pub proposed_settings_keeps :
      (analysis : Analysis F) (s : FxSettings F) (tone : Option (ToneProposal F)) {r : FxSettings F}
      → IsValid fl s
      → proposed_settings fl analysis s tone ≡ ok r
      → IsValid fl r × Accepts analysis tone s r
  unfolding proposed_settings validated bounded
  proposed_settings_keeps analysis s none {r} v h = (
    validated-IsValid fl (with_tone none (with_dynamics analysis.fx s)) h,
    ground (
      arith,
      clamp_inside fl (of_int (minus 12)) (of_int (pos 12)) s.eq_low,
      clamp_inside fl (of_int (minus 12)) (of_int (pos 12)) s.eq_mid,
      clamp_inside fl (of_int (minus 12)) (of_int (pos 12)) s.eq_high,
      clamp_inside fl (of_int (pos 0)) (of_int (pos 500)) s.delay_ms,
    ),
  )
  proposed_settings_keeps analysis s (some tone) {r} v h = (
    validated-IsValid fl (with_tone (some tone) (with_dynamics analysis.fx s)) h,
    ground (
      arith,
      clamp_inside fl (of_int (minus 12)) (of_int (pos 12)) s.eq_low,
      clamp_inside fl (of_int (minus 12)) (of_int (pos 12)) s.eq_mid,
      clamp_inside fl (of_int (minus 12)) (of_int (pos 12)) s.eq_high,
      clamp_inside fl (of_int (pos 0)) (of_int (pos 500)) s.delay_ms,
    ),
  )

module _ (fl : Float) (ar : Arithmetic fl) where
  open fl use {F, lt, of_int}

  -- Once a measured tone is accepted, the low cut is on, at 120 Hz exactly where the voice is not
  -- deep and the floor rumbles, and mono is on exactly where it was on before or the speech lies
  -- on one channel.
  pub accepted_tone :
      (floor speech : Metrics F) (analysis : Analysis F) (s : FxSettings F) {t : ToneProposal F}
      {r : FxSettings F}
      → analyze_tone fl ar floor speech ≡ ok t
      → proposed_settings fl analysis s (some t) ≡ ok r
      → (r.lowcut ≡ (
          if not (lt (of_int (minus 12)) speech.voice_low_db) && lt (of_int (minus 6)) floor.sub_db
          then 120
          else 80))
        × (r.mono ≡ (s.mono || lt speech.balance (twentieth fl ar)))
  unfolding analyze_tone check_metrics measured_tone proposed_settings validated
  accepted_tone floor speech analysis s h k = ground arith
