-- ===== src/Protocol.antt =====
-- crates/openwave-core/src/protocol.rs: settings, states and the checks of a setting.
pub mod Config
pub mod Units
pub mod Alsa
pub mod Examples
use Prim.Native.String.{◌++◌ as append}
use openwave.Prelude.{
  ℕ, String, Bool, true, false, not, Option, none, some, List, min, ◌==◌, length, nat_instance,
  if◌then◌else◌,
}
use openwave.Prelude.Int.{ℤ, pos}
use openwave.Prelude.Decimal.{decimal}
use openwave.Prelude.Float.{Float, clamp}
use openwave.Model.{Result, ok, err, fail, invalid, unsupported}
use openwave.Profiles.{
  ProfileId, DeviceProfile, profile, has_phantom, has_low_z, has_monitor_mix, hp_min_db,
}

abbrev pub max_config_len : ℕ
max_config_len = 38

pub data KnobMode : Type 0 where
  gain headphones monitor_mix no_mode : KnobMode

pub record DeviceInfo : Type 0 where
  pub api : String
  pub firmware : String
  pub serial : String

-- `F` stands for f64.
pub record DeviceState (F : Type 0) : Type 0 where
  pub gain_raw : ℕ
  pub muted : Bool
  pub hp_volume_db : F
  pub phantom : Option Bool
  pub low_impedance : Option Bool
  pub monitor_mix : Option ℕ
  pub knob_mode : KnobMode

pub data DeviceSetting (F : Type 0) : Type 0 where
  set_gain_raw : ℕ → DeviceSetting F
  set_mute : Bool → DeviceSetting F
  set_headphone_db : F → DeviceSetting F
  set_phantom : Bool → DeviceSetting F
  set_low_impedance : Bool → DeviceSetting F
  set_monitor_mix : ℕ → DeviceSetting F

-- The message of a block of the wrong length.
abbrev length_message : String → ℕ → ℕ → String
length_message block found expected = append "Invalid " (
    append block (
      append " block length: "
        (append (decimal found) (append " bytes, expected " (decimal expected)))))

unfoldable pub exact_length : List ℕ → ℕ → String → Result (Unit {0})
exact_length block_bytes expected block =
    if length block_bytes == expected
    then ok tt
    else fail invalid (length_message block (length block_bytes) expected)

abbrev no_support {ℓ} : {A : Type ℓ} → DeviceProfile → String → Result A
no_support p feature =
    fail unsupported (append p.display_name (append " does not support " feature))

module _ (fl : Float) where
  open fl use {F, is_finite, of_int}

  unfoldable pub validate_setting : ProfileId → DeviceSetting F → Result (DeviceSetting F)
  validate_setting id (set_gain_raw value) = ok (set_gain_raw (min value (profile id).gain_max))
  validate_setting id (set_headphone_db db) =
      if not (is_finite db)
      then fail invalid "Headphone volume must be finite"
      else ok (set_headphone_db (clamp fl (of_int (hp_min_db (profile id))) (of_int (pos 0)) db))
  validate_setting id (set_phantom on) =
      if not (has_phantom (profile id))
      then no_support (profile id) "phantom power"
      else ok (set_phantom on)
  validate_setting id (set_low_impedance on) =
      if not (has_low_z (profile id))
      then no_support (profile id) "low impedance mode"
      else ok (set_low_impedance on)
  validate_setting id (set_monitor_mix value) =
      if not (has_monitor_mix (profile id))
      then no_support (profile id) "monitor mix"
      else ok (set_monitor_mix (min value (profile id).mix_max))
  validate_setting id (set_mute on) = ok (set_mute on)
