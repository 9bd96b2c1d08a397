-- ===== src/Protocol/Config.antt =====
-- crates/openwave-core/src/protocol.rs: `ConfigBuffer`, the blocks of a device's configuration.
pub mod Readback
pub mod Blocks
use openwave.Prelude.{
  ℕ, zero, suc, ◌+◌, ◌-◌, ◌*◌, ◌/◌, ◌%◌, String, Bool, true, false, not, ◌&&◌, Option, none, some,
  List, [], ◌∷◌, ◌++◌, ◌==◌, length, set, nat_instance, if◌then◌else◌,
}
use mathlib.Core.Option
use openwave.Prelude.Bytes.{byte, zeros, read_u16, read_i16, unsigned, put_u16}
use openwave.Prelude.Int.{ℤ, pos}
use openwave.Prelude.Float.{Float, Arithmetic}
use openwave.Model.{Result, ok, err, fail, unsupported, ◌>>=◌, ◌>>◌}
use openwave.Profiles.{ProfileId, wave3, xlr_dock_mk2, LegacyProfile, DeviceProfile, profile}
use openwave.Protocol.{
  max_config_len, KnobMode, gain, headphones, monitor_mix, no_mode, DeviceState, DeviceSetting,
  set_gain_raw, set_mute, set_headphone_db, set_phantom, set_low_impedance, set_monitor_mix,
  exact_length, validate_setting,
}

pub record ConfigBuffer : Type 0 where
  pub profile : ProfileId
  pub bytes : List ℕ  -- [u8; 38]
  pub headphones : List ℕ  -- [u8; 2]
  pub monitor : List ℕ  -- [u8; 6]

abbrev decode_legacy : ProfileId → Option LegacyProfile → List ℕ → Result ConfigBuffer
decode_legacy id none block = fail unsupported "Dock config requires all three blocks"
decode_legacy id (some p) block =
    exact_length block p.config_len "config"
    >> ok (record {
      profile = id;
      bytes = block ++ zeros (max_config_len - length block);
      headphones = zeros 2;
      monitor = zeros 6;
    })

unfoldable pub decode : ProfileId → List ℕ → Result ConfigBuffer
decode id block = decode_legacy id (profile id).legacy block

unfoldable pub decode_dock : List ℕ → List ℕ → List ℕ → Result ConfigBuffer
decode_dock settings hp mon =
    exact_length settings 38 "settings"
    >> (exact_length hp 2 "headphones"
        >> (exact_length mon 6 "monitor"
            >> ok (record {
              profile = xlr_dock_mk2;
              bytes = settings;
              headphones = hp;
              monitor = mon;
            })))

abbrev pub config_len_of : Option LegacyProfile → ℕ
config_len_of none = 38
config_len_of (some p) = p.config_len

-- The first bytes of a block.
unfoldable pub take : ℕ → List ℕ → List ℕ
take zero bs = []
take (suc n) [] = []
take (suc n) (b ∷ bs) = b ∷ take n bs

unfoldable pub as_bytes : ConfigBuffer → List ℕ
as_bytes c = take (config_len_of (profile c.profile).legacy) c.bytes

abbrev blocks_of : ConfigBuffer → Option LegacyProfile → List (ℕ × List ℕ)
blocks_of c (some p) = (p.wvalue_config, as_bytes c) ∷ []
blocks_of c none = (4, as_bytes c) ∷ (5, c.headphones) ∷ (1, c.monitor) ∷ []

-- The transfers that write the configuration: each block's request value and its bytes.
unfoldable pub blocks : ConfigBuffer → List (ℕ × List ℕ)
blocks c = blocks_of c (profile c.profile).legacy

-- A bit of a byte: `b & 1 != 0` and `b & 2 != 0`.
abbrev pub bit0 : ℕ → Bool
bit0 b = b % 2 == 1

abbrev pub bit1 : ℕ → Bool
bit1 b = b / 2 % 2 == 1

abbrev pub of_bool : Bool → ℕ
of_bool true = 1
of_bool false = 0

-- `(b & !1) | v` and `(b & !2) | (v << 1)`, for a bit `v`
abbrev pub put_bit0 : ℕ → Bool → ℕ
put_bit0 b on = b - b % 2 + of_bool on

abbrev pub put_bit1 : ℕ → Bool → ℕ
put_bit1 b on = b - 2 * (b / 2 % 2) + 2 * of_bool on

abbrev pub is_set : List ℕ → ℕ → Bool
is_set bs offset = not (byte bs offset == 0)

abbrev is_wave3 : ProfileId → Bool
is_wave3 wave3 = true
is_wave3 _ = false

abbrev pub knob_of : ProfileId → ℕ → KnobMode
knob_of id b = if b == 2 then headphones else if (b == 3) && is_wave3 id then monitor_mix else gain

module _ (fl : Float) (ar : Arithmetic fl) where
  open fl use {F, of_int}
  open ar use {neg, mul, div, round_ties_even, to_u8, to_i16}

  abbrev state_of : ConfigBuffer → Option LegacyProfile → DeviceState F
  state_of c none = record {
    gain_raw = byte c.bytes 0;
    muted = bit0 (byte c.bytes 1);
    hp_volume_db = div (neg (of_int (pos (byte c.headphones 0)))) (of_int (pos 4));
    phantom = some (bit1 (byte c.bytes 1));
    low_impedance = some (bit1 (byte c.headphones 1));
    monitor_mix = some (byte c.monitor 0);
    knob_mode = no_mode;
  }
  state_of c (some p) = record {
    gain_raw = read_u16 c.bytes p.off_gain;
    muted = is_set c.bytes p.off_mute;
    hp_volume_db =
        div (of_int (read_i16 c.bytes p.off_hp_vol)) (of_int (pos (profile c.profile).hp_scale));
    phantom = Option.map (is_set c.bytes) p.off_phantom;
    low_impedance = Option.map (is_set c.bytes) p.off_low_z;
    monitor_mix = Option.map (read_u16 c.bytes) p.off_monitor_mix;
    knob_mode = knob_of c.profile (byte c.bytes p.off_vol_select);
  }

  unfoldable pub state : ConfigBuffer → DeviceState F
  state c = state_of c (profile c.profile).legacy

  abbrev patch_dock : ConfigBuffer → DeviceSetting F → ConfigBuffer
  patch_dock c (set_gain_raw value) = record c { bytes = set c.bytes 0 (value % 256) }
  patch_dock c (set_mute on) = record c { bytes = set c.bytes 1 (put_bit0 (byte c.bytes 1) on) }
  patch_dock c (set_phantom on) = record c { bytes = set c.bytes 1 (put_bit1 (byte c.bytes 1) on) }
  patch_dock c (set_headphone_db db) = record c {
    headphones = set c.headphones 0 (to_u8 (round_ties_even (mul (neg db) (of_int (pos 4)))));
  }
  patch_dock c (set_low_impedance on) = record c {
    headphones = set c.headphones 1 (put_bit1 (byte c.headphones 1) on);
  }
  patch_dock c (set_monitor_mix value) = record c { monitor = set c.monitor 0 (value % 256) }

  -- The offset of a capability that the validation has checked; in the source its absence is a
  -- panic.
  abbrev at_offset : ConfigBuffer → Option ℕ → (ℕ → ConfigBuffer) → ConfigBuffer
  at_offset c none f = c
  at_offset c (some offset) f = f offset

  abbrev patch_legacy : ConfigBuffer → LegacyProfile → DeviceSetting F → ConfigBuffer
  patch_legacy c p (set_gain_raw value) = record c { bytes = put_u16 c.bytes p.off_gain value }
  patch_legacy c p (set_mute on) = record c { bytes = set c.bytes p.off_mute (of_bool on) }
  patch_legacy c p (set_headphone_db db) =
      let raw = to_i16 (mul db (of_int (pos (profile c.profile).hp_scale))) in
      record c { bytes = put_u16 c.bytes p.off_hp_vol (unsigned raw) }
  patch_legacy c p (set_phantom on) =
      at_offset c p.off_phantom (λ i. record c { bytes = set c.bytes i (of_bool on) })
  patch_legacy c p (set_low_impedance on) =
      at_offset c p.off_low_z (λ i. record c { bytes = set c.bytes i (of_bool on) })
  patch_legacy c p (set_monitor_mix value) =
      at_offset c p.off_monitor_mix (λ i. record c { bytes = put_u16 c.bytes i value })

  abbrev pub patch : ConfigBuffer → Option LegacyProfile → DeviceSetting F → ConfigBuffer
  patch c none s = patch_dock c s
  patch c (some p) s = patch_legacy c p s

  unfoldable pub apply : ConfigBuffer → DeviceSetting F → Result ConfigBuffer
  apply c setting = do
    valid ← validate_setting fl c.profile setting
    ok (patch c (profile c.profile).legacy valid)
