-- ===== src/Profiles.antt =====
-- crates/openwave-core/src/profiles.rs: the devices, and the layout of their blocks.
pub mod Table
pub mod Examples
use openwave.Prelude.{
  ℕ, String, Bool, true, false, ◌&&◌, Option, none, some, List, [], ◌∷◌, ◌==◌, find?, nat_instance,
  string_instance, if◌then◌else◌,
}
use Prim.Native.String.{◌++◌ as append}
use openwave.Prelude.Int.{ℤ, minus}
use openwave.Model.{Result, ok, err, fail, invalid}

pub data ProfileId : Type 0 where
  wave_xlr wave_xlr_mk2 wave3 xlr_dock_mk2 : ProfileId

-- Offsets and lengths in bytes.
pub record LegacyProfile : Type 0 where
  pub wvalue_config : ℕ
  pub wvalue_meter : ℕ
  pub wvalue_devinfo : ℕ
  pub windex : ℕ
  pub config_len : ℕ
  pub meter_len : ℕ
  pub devinfo_len : ℕ
  pub devinfo_api : ℕ × ℕ
  pub devinfo_fw : ℕ × ℕ × ℕ
  pub devinfo_serial : ℕ × ℕ
  pub off_gain : ℕ
  pub off_mute : ℕ
  pub off_hp_vol : ℕ
  pub off_vol_select : ℕ
  pub off_low_z : Option ℕ
  pub off_phantom : Option ℕ
  pub off_monitor_mix : Option ℕ

pub record DeviceProfile : Type 0 where
  pub id : ProfileId
  pub display_name : String
  pub vid : ℕ  -- u16
  pub pid : ℕ  -- u16
  pub legacy : Option LegacyProfile
  pub gain_max : ℕ  -- u16
  pub gain_scale : ℕ
  pub hp_scale : ℕ
  pub mix_max : ℕ
  pub capture_serial_prefix : String
  pub sync_alsa_mute : Bool
  pub sync_alsa_hp : Bool
  pub sync_alsa_gain : Bool

abbrev pub xlr_legacy : LegacyProfile
xlr_legacy = record {
  wvalue_config = 0;
  wvalue_meter = 1;
  wvalue_devinfo = 10;
  windex = 13059;
  config_len = 34;
  meter_len = 10;
  devinfo_len = 51;
  devinfo_api = (0, 1);
  devinfo_fw = (6, 7, 8);
  devinfo_serial = (27, 47);
  off_gain = 0;
  off_mute = 4;
  off_hp_vol = 9;
  off_vol_select = 14;
  off_low_z = some 33;
  off_phantom = some 6;
  off_monitor_mix = none;
}

abbrev pub xlr : DeviceProfile
xlr = record {
  id = wave_xlr;
  display_name = "Wave XLR";
  vid = 4057;
  pid = 125;
  legacy = some xlr_legacy;
  gain_max = 20480;
  gain_scale = 256;
  hp_scale = 256;
  mix_max = 0;
  capture_serial_prefix = "Elgato_Systems_Elgato_Wave_XLR_";
  sync_alsa_mute = true;
  sync_alsa_hp = true;
  sync_alsa_gain = false;
}

abbrev pub xlr_mk2 : DeviceProfile
xlr_mk2 = record xlr {
  id = wave_xlr_mk2;
  display_name = "Wave XLR MK.2 (0fd9:00a6)";
  pid = 166;
  capture_serial_prefix = "Elgato_Systems_Elgato_XLR_Dock_";
}

abbrev pub wave3_legacy : LegacyProfile
wave3_legacy = record xlr_legacy {
  config_len = 16;
  meter_len = 8;
  devinfo_len = 64;
  devinfo_fw = (21, 22, 23);
  devinfo_serial = (36, 48);
  off_hp_vol = 7;
  off_vol_select = 12;
  off_low_z = none;
  off_phantom = none;
  off_monitor_mix = some 10;
}

abbrev pub wave3_profile : DeviceProfile
wave3_profile = record xlr {
  id = wave3;
  display_name = "Wave:3";
  pid = 112;
  legacy = some wave3_legacy;
  gain_max = 10240;
  mix_max = 25600;
  capture_serial_prefix = "Elgato_Systems_Elgato_Wave_3_";
  sync_alsa_gain = true;
}

abbrev pub dock : DeviceProfile
dock = record {
  id = xlr_dock_mk2;
  display_name = "XLR Dock MK.2";
  vid = 4057;
  pid = 199;
  legacy = none;
  gain_max = 80;
  gain_scale = 1;
  hp_scale = 4;
  mix_max = 200;
  capture_serial_prefix = "Elgato_Elgato_Wave_XLR_Dock_MK.2_";
  sync_alsa_mute = false;
  sync_alsa_hp = false;
  sync_alsa_gain = false;
}

abbrev pub profiles : List DeviceProfile
profiles = xlr ∷ xlr_mk2 ∷ wave3_profile ∷ dock ∷ []

unfoldable pub profile : ProfileId → DeviceProfile
profile wave_xlr = xlr
profile wave_xlr_mk2 = xlr_mk2
profile wave3 = wave3_profile
profile xlr_dock_mk2 = dock

unfoldable pub as_str : ProfileId → String
as_str wave_xlr = "wave_xlr"
as_str wave_xlr_mk2 = "wave_xlr_mk2"
as_str wave3 = "wave3"
as_str xlr_dock_mk2 = "xlr_dock_mk2"

unfoldable pub from_str : String → Result ProfileId
from_str value =
    if value == "wave_xlr"
    then ok wave_xlr
    else if value == "wave_xlr_mk2"
    then ok wave_xlr_mk2
    else if value == "wave3"
    then ok wave3
    else if value == "xlr_dock_mk2"
    then ok xlr_dock_mk2
    else fail invalid (append "Unknown device profile: " value)

-- A capability: an offset in the legacy block, and always on the Dock.
abbrev pub has_offset : (LegacyProfile → Option ℕ) → Option LegacyProfile → Bool
has_offset f none = true
has_offset f (some p) = elim (f p) [ none ↦ false | some offset ↦ true ]

unfoldable pub has_phantom : DeviceProfile → Bool
has_phantom d = has_offset (λ p. p.off_phantom) d.legacy

unfoldable pub has_low_z : DeviceProfile → Bool
has_low_z d = has_offset (λ p. p.off_low_z) d.legacy

unfoldable pub has_monitor_mix : DeviceProfile → Bool
has_monitor_mix d = has_offset (λ p. p.off_monitor_mix) d.legacy

unfoldable pub hp_min_db : DeviceProfile → ℤ
hp_min_db d = elim d.legacy [ some p ↦ minus 128 | none ↦ minus 60 ]

unfoldable pub profile_for_usb : ℕ → ℕ → Option DeviceProfile
profile_for_usb vid pid = find? (λ d. d.vid == vid && d.pid == pid) profiles
