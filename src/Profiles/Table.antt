-- ===== src/Profiles/Table.antt =====
-- crates/openwave-core/src/profiles.rs: the table is consistent.
use openwave.Prelude.{
  ℕ, ◌+◌, String, Bool, true, ◌&&◌, Option, none, some, ◌≡◌, refl, ◌↔◌, leb, nat_instance,
  string_instance, arith, str_eq_iff, beq_apart,
}
use openwave.Model.{ok}
use openwave.Profiles.{
  ProfileId, wave_xlr, wave_xlr_mk2, wave3, xlr_dock_mk2, LegacyProfile, profile, as_str, from_str,
  profile_for_usb,
}

-- A text is parsed as a profile exactly when it is that profile's name.
pub from_str_iff : (s : String) (p : ProfileId) → (from_str s ≡ ok p) ↔ (s ≡ as_str p)
unfolding from_str as_str
from_str_iff s wave_xlr = ground (
  arith,
  str_eq_iff s "wave_xlr",
  str_eq_iff s "wave_xlr_mk2",
  str_eq_iff s "wave3",
  str_eq_iff s "xlr_dock_mk2",
)
from_str_iff s wave_xlr_mk2 = ground (
  arith,
  str_eq_iff s "wave_xlr_mk2",
  beq_apart s "wave_xlr_mk2" "wave_xlr" refl,
  str_eq_iff s "wave3",
  str_eq_iff s "xlr_dock_mk2",
)
from_str_iff s wave3 = ground (
  arith,
  str_eq_iff s "wave3",
  beq_apart s "wave3" "wave_xlr" refl,
  beq_apart s "wave3" "wave_xlr_mk2" refl,
  str_eq_iff s "xlr_dock_mk2",
)
from_str_iff s xlr_dock_mk2 = ground (
  arith,
  str_eq_iff s "xlr_dock_mk2",
  beq_apart s "xlr_dock_mk2" "wave_xlr" refl,
  beq_apart s "xlr_dock_mk2" "wave_xlr_mk2" refl,
  beq_apart s "xlr_dock_mk2" "wave3" refl,
)

-- An identity of the USB bus selects a profile exactly when it is that profile's.
pub profile_for_usb_iff :
    (vid pid : ℕ) (p : ProfileId)
    → (profile_for_usb vid pid ≡ some (profile p))
      ↔ ((vid ≡ (profile p).vid) × (pid ≡ (profile p).pid))
unfolding profile_for_usb profile
profile_for_usb_iff vid pid wave_xlr = ground arith
profile_for_usb_iff vid pid wave_xlr_mk2 = ground arith
profile_for_usb_iff vid pid wave3 = ground arith
profile_for_usb_iff vid pid xlr_dock_mk2 = ground arith

-- An offset of `n` bytes in a block.
abbrev pub fits : ℕ → Option ℕ → ℕ → Bool
fits n none len = true
fits n (some offset) len = leb (offset + n) len

-- Every field of the layout lies in its block, and the blocks fit the buffers.
abbrev pub is_laid_out : Option LegacyProfile → Bool
is_laid_out none = true
is_laid_out (some p) =
    leb p.config_len 38
    && leb 8 p.meter_len
    && leb p.meter_len 10
    && leb p.devinfo_len 64
    && leb p.devinfo_serial.1 p.devinfo_len
    && leb p.devinfo_serial.0 p.devinfo_serial.1
    && fits 2 (some p.off_gain) p.config_len
    && fits 1 (some p.off_mute) p.config_len
    && fits 2 (some p.off_hp_vol) p.config_len
    && fits 1 (some p.off_vol_select) p.config_len
    && fits 1 p.off_low_z p.config_len
    && fits 1 p.off_phantom p.config_len
    && fits 2 p.off_monitor_mix p.config_len

-- Every profile carries its own id, and its layout lies in its blocks.
pub profile_layout :
    (p : ProfileId) → ((profile p).id ≡ p) × (is_laid_out (profile p).legacy ≡ true)
unfolding profile
profile_layout wave_xlr = (refl, refl)
profile_layout wave_xlr_mk2 = (refl, refl)
profile_layout wave3 = (refl, refl)
profile_layout xlr_dock_mk2 = (refl, refl)
