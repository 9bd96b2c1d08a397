-- ===== src/Sources.antt =====
-- crates/openwave-core/src/model.rs: the saved sources, and what discovery observes.
use openwave.Prelude.{ℕ, String, Bool, true, false, not, Option, none, some, List, if◌then◌else◌}
use openwave.Prelude.Int.{ℤ}
use openwave.Prelude.Dict.{Dict}
use openwave.Model.{NodeIdentity, Result, fail, invalid}
use openwave.Effects
use openwave.Effects.{FxSettings}
use openwave.Prelude.Float.{Float}

pub data SourceKind : Type 0 where
  app device : SourceKind

-- `F` stands for f64, and `V` for the JSON values of a store.
pub record Source (F V : Type 0) : Type 0 where
  pub id : String
  pub kind : SourceKind
  pub name : String
  pub icon_name : String
  pub match_app_names : List String
  pub node_name : String
  pub level : F
  pub muted : Bool
  pub protected : Bool
  pub group : String
  pub fx : Option (FxSettings F)
  pub extra : Dict String V

abbrev pub Sources : Type 0 → Type 0 → Type 0
Sources F V = Dict String (Source F V)

pub record StreamSnapshot : Type 0 where
  pub identity : NodeIdentity
  pub node_id : ℕ
  pub node_name : String
  pub app_name : String
  pub binary : String
  pub sink : Option String
  pub pulse_index : Option ℕ

pub record OutputSnapshot (V : Type 0) : Type 0 where
  pub identity : NodeIdentity
  pub node_id : ℕ
  pub node_name : String
  pub name : String
  pub priority : ℤ  -- i64
  pub is_wave : Bool
  pub properties : Dict String V

abbrev is_device : SourceKind → Bool
is_device device = true
is_device app = false

-- `source.fx.clone().unwrap_or_default()`
abbrev fx_of : (fl : Float) → Option (FxSettings fl.F) → FxSettings fl.F
fx_of fl none = Effects.default fl
fx_of fl (some s) = s

module _ {V : Type 0} (fl : Float) where
  -- crates/openwave-core/src/effects.rs
  unfoldable pub toggle_fx : Source fl.F V → String → Result (FxSettings fl.F)
  toggle_fx source key =
      if not (is_device source.kind)
      then fail invalid "effects require a device source"
      else Effects.toggle fl (fx_of fl source.fx) key
