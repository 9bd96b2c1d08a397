-- ===== src/Matrix.antt =====
-- crates/openwave-core/src/model.rs: stable ids, mixes, levels and the matrix of sends.
pub mod CellKey
pub mod Levels
pub mod Examples
use Prim.Native.Char.{code}
use Prim.Native.String.String.{[] as empty, ◌∷◌ as cons}
use Prim.Native.String.{◌++◌ as append}
use openwave.Prelude.{
  ℕ, String, Bool, true, false, not, ◌&&◌, ◌||◌, Option, none, some, List, [], ◌∷◌, ◌==◌, leb,
  nat_eq, nat_instance, string_instance, if◌then◌else◌,
}
use openwave.Prelude.Dict.{Dict, get}
use openwave.Prelude.Int.{ℤ, pos}
use openwave.Prelude.Float.{Float, clamp}
use openwave.Model.{Result, ok, err, fail, ok_or, invalid, ◌>>=◌}

-- `is_ascii_lowercase() || is_ascii_digit() || b == b'_'`
abbrev pub is_id_code : ℕ → Bool
is_id_code c = (leb 97 c && leb c 122) || (leb 48 c && leb c 57) || (c == 95)

abbrev pub all_id_codes : String → Bool
all_id_codes empty = true
all_id_codes (cons c s) = is_id_code (code c) && all_id_codes s

-- `SourceId::new` and `MixId::new`; `debug` stands for the text of `{value:?}`.
unfoldable pub stable_id : (String → String) → String → Result String
stable_id debug value =
    if value == "" || not (all_id_codes value)
    then fail invalid (append "Invalid stable id: " (debug value))
    else ok value

-- The pieces before and after the first `.`
unfoldable pub split_once : String → Option (String × String)
split_once empty = none
split_once (cons c s) =
    let later = split_once s in
    if nat_eq (code c) 46
    then some ("", s)
    else elim later [ none ↦ none | some (before, after) ↦ some (cons c before, after) ]

abbrev pub cell_key : String → String → String
cell_key source mix = append source (append "." mix)

unfoldable pub parse_cell_key : (String → String) → String → Result (String × String)
unfolding split_once stable_id
parse_cell_key debug key = do
  (source, mix) ← ok_or (split_once key) invalid "Cell requires source.mix identity"
  s ← stable_id debug source
  m ← stable_id debug mix
  ok (s, m)

pub record SourceEdit : Type 0 where
  pub name : Option String
  pub icon_name : Option String
  pub match_app_names : Option (List String)
  pub node_name : Option String
  pub catch_all : Option Bool
  pub group : Option String

pub record Mix (V : Type 0) : Type 0 where
  pub id : String
  pub name : String
  pub description : String
  pub subtitle : String
  pub icon_name : String
  pub sink : String
  pub extra : Dict String V

abbrev pub Mixes : Type 0 → Type 0
Mixes V = Dict String (Mix V)

-- `id` stands for the id that `MixId::generate` draws.
unfoldable pub new_mix : {V : Type 0} → String → String → Mix V
new_mix id name = record {
  id = id;
  name = name;
  description = append "OpenWave " name;
  subtitle = "";
  icon_name = "audio-speakers-symbolic";
  sink = append "openwave_mix_" id;
  extra = [];
}

abbrev static_mix : {V : Type 0} → String → String → String → String → String × Mix V
static_mix key name subtitle icon = (
  key,
  record {
    id = key;
    name = name;
    subtitle = subtitle;
    description = append "OpenWave " name;
    sink = append "openwave_" (append key "_mix");
    icon_name = icon;
    extra = [];
  },
)

unfoldable pub default_mixes : {V : Type 0} → Mixes V
default_mixes =
    static_mix "personal" "Personal Mix" "What you hear" "audio-headphones-symbolic"
    ∷ static_mix "chat" "Chat Mix" "Send to voice apps" "system-users-symbolic"
    ∷ static_mix "record" "Record Mix" "Send to OBS or a recorder" "media-record-symbolic"
    ∷ []

pub record MixEdit : Type 0 where
  pub name : Option String
  pub description : Option String
  pub subtitle : Option String
  pub icon_name : Option String

pub record LevelState (F V : Type 0) : Type 0 where
  pub volume : F
  pub muted : Bool
  pub extra : Dict String V

pub record MatrixState (F V : Type 0) : Type 0 where
  pub cells : Dict String (LevelState F V)
  pub outputs : Dict String String
  pub volumes : Dict String (LevelState F V)
  pub extra : Dict String V

abbrev or_text : Option String → String → String
or_text none d = d
or_text (some s) d = s

unfoldable pub output : {F V : Type 0} → MatrixState F V → String → String
output m mix = or_text (get mix m.outputs) (if mix == "personal" then "auto" else "none")

module _ (fl : Float) where
  open fl use {F, is_finite, lt, of_int}

  -- `LevelState::default`
  abbrev pub default_level : {V : Type 0} → LevelState F V
  default_level = record { volume = of_int (pos 0); muted = false; extra = [] }

  abbrev or_level : {V : Type 0} → Option (LevelState F V) → LevelState F V
  or_level none = default_level
  or_level (some l) = l

  unfoldable pub cell : {V : Type 0} → MatrixState F V → String → String → LevelState F V
  cell m source mix = or_level (get (cell_key source mix) m.cells)

  unfoldable pub level : F → Result F
  level value =
      if not (is_finite value)
      then fail invalid "Level must be finite"
      else ok (clamp fl (of_int (pos 0)) (of_int (pos 1)) value)

  -- `(0.0..=1.0).contains(&value)`, for a finite value, with no order that `lt` denies.
  abbrev in_unit : F → Bool
  in_unit value = not (lt value (of_int (pos 0))) && not (lt (of_int (pos 1)) value)

  unfoldable pub command_level : F → Result F
  command_level value =
      if not (is_finite value) || not (in_unit value)
      then fail invalid "Level must be finite and in 0..1"
      else ok value

  -- `hundredth` is the literal 0.01.
  unfoldable pub send_level : F → F → Result F
  unfolding command_level
  send_level hundredth value = do
    v ← command_level value
    ok (if lt v hundredth then of_int (pos 0) else v)
