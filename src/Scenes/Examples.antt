-- ===== src/Scenes/Examples.antt =====
-- Concrete scenes for crates/openwave-core/src/scenes.rs.
use openwave.Prelude.{String, true, none, some, List, [], ◌∷◌, ◌≡◌, refl, filter, string_instance}
use openwave.Prelude.Dict.{Dict, get}
use openwave.Prelude.Int.{ℤ}
use openwave.Profiles.{wave3, as_str}
use openwave.Protocol.Units.{UnitId}
use openwave.Scenes.{HardwarePatch, HardwareCandidate, hardware_key, same_unit, pick_hardware_entry}
use openwave.Scenes.Target.{IsTarget, pick_hardware_entry-IsTarget}

abbrev desk : UnitId
desk = record { profile = wave3; bus = 1; address = 4; incarnation = 1 }

abbrev stage : UnitId
stage = record { profile = wave3; bus = 1; address = 9; incarnation = 1 }

abbrev connected : List HardwareCandidate
connected = record { unit = desk; serial = "A1" } ∷ record { unit = stage; serial = "B2" } ∷ []

abbrev quiet : HardwarePatch ℤ
quiet = record {
  gain_raw = some 0;
  mute = some true;
  hp_volume_db = none;
  low_impedance = none;
  monitor_mix = none;
}

abbrev saved : Dict String (HardwarePatch ℤ)
saved = ("wave3:A1", quiet) ∷ ("wave3", quiet) ∷ []

pick_hardware_entry-IsTarget_example :
    (c : HardwareCandidate) × (filter (λ d. same_unit d.unit desk) connected ≡ c ∷ [])
    × IsTarget saved wave3 c.serial connected "wave3:A1" quiet
unfolding pick_hardware_entry hardware_key as_str get
pick_hardware_entry-IsTarget_example =
    pick_hardware_entry-IsTarget saved desk connected "wave3:A1" quiet refl
