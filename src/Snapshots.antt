-- ===== src/Snapshots.antt =====
-- crates/openwave-core/src/model.rs: preferences, and the snapshots that a client is shown.
use openwave.Prelude.{ℕ, String, Bool, false, Option, none, some, List, []}
use openwave.Prelude.Dict.{Dict}
use openwave.Prelude.Int.{ℤ, pos}
use openwave.Model.{NodeIdentity, Observation, known?}
use openwave.Protocol.{DeviceInfo, DeviceState}
use openwave.Protocol.Units.{UnitId}
use openwave.Routing.Output.{or_else}

pub record OperationIssue : Type 0 where
  pub target : String
  pub message : String

pub record Preferences (V : Type 0) : Type 0 where
  pub width : ℤ  -- i32
  pub height : ℤ  -- i32
  pub maximized : Bool
  pub offered_capture_nodes : List String
  pub gain_locked : Bool
  pub tray_icon_color : String
  pub extra : Dict String V

-- `Preferences::default`
unfoldable pub default_preferences : {V : Type 0} → Preferences V
default_preferences = record {
  width = pos 1280;
  height = pos 720;
  maximized = false;
  offered_capture_nodes = [];
  gain_locked = false;
  tray_icon_color = "white";
  extra = [];
}

pub record PreferencesEdit : Type 0 where
  pub width : Option ℤ
  pub height : Option ℤ
  pub maximized : Option Bool
  pub offered_capture_nodes : Option (List String)
  pub tray_icon_color : Option String

pub record UnitSnapshot (F : Type 0) : Type 0 where
  pub id : UnitId
  pub info : DeviceInfo
  pub state : Observation (DeviceState F)
  pub desired_mute : Option Bool
  pub input_peak : F
  pub output_peak : F
  pub errors : List OperationIssue

abbrev observed_mute : {F : Type 0} → Option (DeviceState F) → Option Bool
observed_mute none = none
observed_mute (some s) = some s.muted

unfoldable pub effective_mute : {F : Type 0} → UnitSnapshot F → Option Bool
effective_mute u = or_else u.desired_mute (observed_mute (known? u.state))

pub record CaptureSnapshot (V : Type 0) : Type 0 where
  pub identity : NodeIdentity
  pub node_id : ℕ
  pub node_name : String
  pub name : String
  pub muted : Observation Bool
  pub channels : Option ℕ
  pub properties : Dict String V
