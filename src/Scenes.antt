-- ===== src/Scenes.antt =====
-- crates/openwave-core/src/scenes.rs: the ids of scenes, and which unit a saved entry is for.
pub mod Target
pub mod Examples
use Prim.Native.String.{◌++◌ as append}
use openwave.Prelude.{
  ℕ, String, Bool, true, false, not, ◌&&◌, ◌||◌, Option, none, some, List, [], ◌∷◌, ◌==◌, any,
  filter, length, nat_instance, string_instance, if◌then◌else◌,
}
use openwave.Prelude.Dict.{Dict, get, keys}
use openwave.Model.{Result, ok, err, fail, invalid, identity}
use openwave.Profiles.{ProfileId, wave_xlr, wave_xlr_mk2, wave3, xlr_dock_mk2, as_str}
use openwave.Protocol.Units.{UnitId}
use openwave.Routing.Output.{or_else}
use openwave.Snapshots.{OperationIssue}

-- `SceneId::new`
unfoldable pub scene_id : String → Result String
scene_id value = if value == "" then fail invalid "scene ID must not be empty" else ok value

pub record SourcePatch (F : Type 0) : Type 0 where
  pub level : Option F
  pub muted : Option Bool

pub record LevelPatch (F : Type 0) : Type 0 where
  pub volume : Option F
  pub muted : Option Bool

pub record HardwarePatch (F : Type 0) : Type 0 where
  pub gain_raw : Option ℕ
  pub mute : Option Bool
  pub hp_volume_db : Option F
  pub low_impedance : Option Bool
  pub monitor_mix : Option ℕ

pub record Scene (F : Type 0) : Type 0 where
  pub name : String
  pub sources : Option (Dict String (SourcePatch F))
  pub cells : Option (Dict String (LevelPatch F))
  pub outputs : Option (Dict String (Option String))
  pub volumes : Option (Dict String (LevelPatch F))
  pub hardware : Option (Dict String (HardwarePatch F))

unfoldable pub hardware_key : ProfileId → String → String
hardware_key profile serial =
    if serial == "" then as_str profile else append (as_str profile) (append ":" serial)

pub record HardwareCandidate : Type 0 where
  pub unit : UnitId
  pub serial : String

abbrev pub same_profile : ProfileId → ProfileId → Bool
same_profile wave_xlr wave_xlr = true
same_profile wave_xlr_mk2 wave_xlr_mk2 = true
same_profile wave3 wave3 = true
same_profile xlr_dock_mk2 xlr_dock_mk2 = true
same_profile _ _ = false

abbrev pub same_unit : UnitId → UnitId → Bool
same_unit a b =
    same_profile a.profile b.profile
    && a.bus == b.bus
    && a.address == b.address
    && a.incarnation == b.incarnation

abbrev pub of_profile : ProfileId → HardwareCandidate → Bool
of_profile p other = same_profile other.unit.profile p

abbrev pub of_identity : ProfileId → String → HardwareCandidate → Bool
of_identity p serial other = of_profile p other && other.serial == serial

module _ {F : Type 0} where
  -- `get_key_value`
  abbrev pub keyed : String → Option (HardwarePatch F) → Option (String × HardwarePatch F)
  keyed key none = none
  keyed key (some patch) = some (key, patch)

  -- `get_key_value`
  abbrev pub entry : String → Dict String (HardwarePatch F) → Option (String × HardwarePatch F)
  entry key hardware = keyed key (get key hardware)

  -- The entry of a model, where one unit of it is connected.
  abbrev pub legacy_entry :
      Dict String (HardwarePatch F)
      → ProfileId
      → List HardwareCandidate
      → Option (String × HardwarePatch F)
  legacy_entry hardware p candidates =
      if length (filter (of_profile p) candidates) == 1 then entry (as_str p) hardware else none

  abbrev pub exact_entry :
      Dict String (HardwarePatch F) → ProfileId → String → Option (String × HardwarePatch F)
  exact_entry hardware p serial =
      if serial == "" then none else entry (hardware_key p serial) hardware

  -- The candidates that are the unit: one, none, or several.
  abbrev pub pick_target :
      Dict String (HardwarePatch F)
      → ProfileId
      → List HardwareCandidate
      → List HardwareCandidate
      → Result (Option (String × HardwarePatch F))
  pick_target hardware p candidates [] = fail identity "scene unit is no longer connected"
  pick_target hardware p candidates (c ∷ second ∷ rest) =
      fail identity "scene hardware identity is ambiguous"
  pick_target hardware p candidates (c ∷ []) =
      if not (length (filter (of_identity p c.serial) candidates) == 1)
      then fail identity "scene hardware identity is ambiguous"
      else ok (or_else (exact_entry hardware p c.serial) (legacy_entry hardware p candidates))

  unfoldable pub pick_hardware_entry :
      Dict String (HardwarePatch F)
      → UnitId
      → List HardwareCandidate
      → Result (Option (String × HardwarePatch F))
  pick_hardware_entry hardware unit candidates =
      pick_target hardware unit.profile candidates (filter (λ c. same_unit c.unit unit) candidates)

pub record HardwareSelection (F : Type 0) : Type 0 where
  pub unit : UnitId
  pub key : String
  pub patch : HardwarePatch F

pub record HardwareResolution (F : Type 0) : Type 0 where
  pub selected : List (HardwareSelection F)
  pub skipped : List OperationIssue

abbrev pub issue : String → OperationIssue
issue key = record {
  target = append "hardware " key;
  message =
      "No unique connected target selected; entry is missing, ambiguous or superseded by an exact serial entry";
}

module _ {F : Type 0} where
  abbrev select :
      UnitId
      → Result (Option (String × HardwarePatch F))
      → List (HardwareSelection F)
      → List (HardwareSelection F)
  select unit (ok (some (key, patch))) later =
      record { unit = unit; key = key; patch = patch } ∷ later
  select unit (ok none) later = later
  select unit (err e) later = later

  -- `filter_map` over the candidates that are left.
  unfoldable pub selections :
      Dict String (HardwarePatch F)
      → List HardwareCandidate
      → List HardwareCandidate
      → List (HardwareSelection F)
  selections hardware candidates [] = []
  selections hardware candidates (c ∷ rest) =
      select c.unit (pick_hardware_entry hardware c.unit candidates)
        (selections hardware candidates rest)

  abbrev pub is_selected : List (HardwareSelection F) → String → Bool
  is_selected selected key = any (λ s. s.key == key) selected

  unfoldable pub skips : List (HardwareSelection F) → List String → List OperationIssue
  skips selected [] = []
  skips selected (key ∷ rest) =
      let later = skips selected rest in
      if is_selected selected key then later else issue key ∷ later

  unfoldable pub resolve_hardware :
      Dict String (HardwarePatch F) → List HardwareCandidate → HardwareResolution F
  resolve_hardware hardware candidates =
      let selected = selections hardware candidates candidates in
      record { selected = selected; skipped = skips selected (keys hardware) }
