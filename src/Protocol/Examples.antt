-- ===== src/Protocol/Examples.antt =====
-- Concrete blocks and devices for crates/openwave-core/src/protocol.rs, with integers for f64.
use openwave.Prelude.{
  ℕ, true, none, List, [], ◌∷◌, ◌≡◌, refl, filter, string_instance, nat_instance,
}
use openwave.Prelude.Bytes.{zeros, put_u16}
use openwave.Prelude.Int.{ℤ}
use openwave.Prelude.Float.{int_float, int_arithmetic}
use openwave.Model.{ok}
use openwave.Profiles.{wave_xlr, wave3, xlr_dock_mk2, wave3_legacy, profile}
use openwave.Protocol.{DeviceSetting, set_gain_raw, validate_setting, exact_length}
use openwave.Protocol.Config.{ConfigBuffer, decode, decode_dock, blocks, state, apply}
use openwave.Protocol.Config.Readback.{IsSized, InRange, stored, apply-state}
use openwave.Protocol.Config.Blocks.{decode-blocks, decode_dock-blocks}
use openwave.Protocol.Units
use openwave.Protocol.Units.Matching
use openwave.Protocol.Units.Order

abbrev wave3_block : List ℕ
wave3_block = zeros 16

abbrev wave3_config : ConfigBuffer
wave3_config = record { profile = wave3; bytes = zeros 38; headphones = zeros 2; monitor = zeros 6 }

abbrev xlr_config : ConfigBuffer
xlr_config = record {
  profile = wave_xlr;
  bytes = zeros 38;
  headphones = zeros 2;
  monitor = zeros 6;
}

xlr_config-IsSized : IsSized xlr_config
xlr_config-IsSized = record { bytes = refl; headphones = refl; monitor = refl }

-- Bytes 0 and 1 hold 0x5000, the highest gain.
abbrev loud_config : ConfigBuffer
loud_config = record xlr_config { bytes = 0 ∷ 80 ∷ zeros 36 }

apply-state_example :
    (v : DeviceSetting ℤ) × (validate_setting int_float wave_xlr (set_gain_raw 60000) ≡ ok v)
    × InRange int_float int_arithmetic wave_xlr v
    × (state int_float int_arithmetic loud_config
        ≡ stored int_float int_arithmetic wave_xlr v (state int_float int_arithmetic xlr_config))
unfolding apply validate_setting profile put_u16
apply-state_example =
    apply-state int_float int_arithmetic xlr_config loud_config (set_gain_raw 60000)
      xlr_config-IsSized refl

decode-blocks_example :
    (wave3_config.profile ≡ wave3)
    × IsSized wave3_config
    × (blocks wave3_config ≡ (0, wave3_block) ∷ [])
unfolding decode exact_length profile
decode-blocks_example = decode-blocks wave3 wave3_block wave3_config wave3_legacy refl refl

abbrev dock_config : ConfigBuffer
dock_config = record {
  profile = xlr_dock_mk2;
  bytes = zeros 38;
  headphones = zeros 2;
  monitor = zeros 6;
}

decode_dock-blocks_example :
    IsSized dock_config × (blocks dock_config ≡ (4, zeros 38) ∷ (5, zeros 2) ∷ (1, zeros 6) ∷ [])
unfolding decode_dock exact_length
decode_dock-blocks_example = decode_dock-blocks (zeros 38) (zeros 2) (zeros 6) dock_config refl

-- Two devices of one model, and a mouse.
abbrev bus : List Units.UsbIdentity
bus =
    record { vid = 4057; pid = 112; bus = 3; address = 9 }
    ∷ record { vid = 1133; pid = 49271; bus = 1; address = 2 }
    ∷ record { vid = 4057; pid = 112; bus = 1; address = 4 }
    ∷ []

supported_devices_order_example :
    Order.IsAscending (Units.supported_devices bus)
    × (filter (Order.is_at 1 4) (Units.supported_devices bus)
        ≡ filter (Order.is_at 1 4) (Units.recognised bus))
supported_devices_order_example = Order.supported_devices_order bus 1 4

abbrev unit : Units.UnitId
unit = record { profile = wave3; bus = 1; address = 4; incarnation = 1 }

abbrev twins : List Units.ConnectedIdentity
twins =
    record { unit = unit; serial = "A1"; connected = true }
    ∷ record { unit = unit; serial = "A1"; connected = true }
    ∷ []

device_for_capture-single_example : Units.device_for_capture "A1" twins ≡ none
unfolding Units.is_match profile
device_for_capture-single_example = Matching.device_for_capture-single "A1" twins
