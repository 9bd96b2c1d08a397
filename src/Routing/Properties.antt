-- ===== src/Routing/Properties.antt =====
-- crates/openwave-core/src/routing.rs: the names of nodes, and the quoting of module arguments.
pub mod Quoting
pub mod Reading
pub mod Examples
use Prim.Native.Char.{code}
use Prim.Native.String.String.{[] as empty, ◌∷◌ as cons}
use Prim.Native.String.{◌++◌ as append}
use openwave.Prelude.{
  ℕ, suc, String, Bool, true, false, not, ◌&&◌, ◌||◌, Option, none, some, List, [], ◌∷◌, ◌==◌, leb,
  string_instance, nat_instance, if◌then◌else◌,
}
use openwave.Prelude.Text.{has_nul}
use openwave.Prelude.Decimal.{decimal}
use openwave.Prelude.Dict.{Dict}
use openwave.Model.{Result, ok, err, fail, invalid, ◌>>=◌, ◌>>◌}

abbrev pub source_sink_name : String → String
source_sink_name source = append "openwave_src_" source

abbrev pub mix_capture_name : String → String
mix_capture_name mix = append "openwave_capture_" mix

-- `str::len`, of an id, whose characters are a byte each.
abbrev pub id_length : String → ℕ
id_length empty = 0
id_length (cons c s) = suc (id_length s)

abbrev pub cell_route_name : String → String → String
cell_route_name source mix =
    append "openwave_loop_"
      (append (decimal (id_length source)) (append "_" (append source (append "_" mix))))

abbrev pub is_key_code : ℕ → Bool
is_key_code c =
    (leb 97 c && leb c 122)
    || (leb 65 c && leb c 90)
    || (leb 48 c && leb c 57)
    || (c == 46)
    || (c == 95)
    || (c == 45)

abbrev pub all_key_codes : String → Bool
all_key_codes empty = true
all_key_codes (cons c s) = is_key_code (code c) && all_key_codes s

-- A text is read as its characters: one that is not ASCII has only bytes that no key has.
unfoldable pub property_key : String → Result (Unit {0})
property_key key =
    if key == "" || not (all_key_codes key)
    then fail invalid "Invalid audio property key"
    else ok tt

-- The loop of `pulse_quote`.
unfoldable pub escape : String → String
escape empty = empty
escape (cons c s) =
    if (code c == 92) || (code c == 34) then cons "\\" (cons c (escape s)) else cons c (escape s)

unfoldable pub pulse_quote : String → Result String
pulse_quote text =
    if has_nul text
    then fail invalid "Audio properties cannot contain NUL"
    else ok (cons "\"" (append (escape text) "\""))

-- `Value` is a value of serde_json, `as_string` its text if it is a string, and `print` is
-- `serde_json::to_string`.
module _ {V : Type 0} (as_string : V → Option String) (print : V → Result String) where
  unfoldable pub value_text : V → Result String
  value_text v = elim (as_string v) [ none ↦ print v | some text ↦ ok text ]

  -- The loop of `pulse_properties`.
  unfoldable pub join_pairs : Bool → Dict String V → Result String
  join_pairs first [] = ok ""
  join_pairs first ((key, value) ∷ values) = property_key key >> (do
    text ← value_text value
    quoted ← pulse_quote text
    later ← join_pairs false values
    ok (append (if first then "" else " ") (append key (append "=" (append quoted later)))))

  unfoldable pub pulse_properties : Dict String V → Result String
  pulse_properties values = do pairs ← join_pairs true values; pulse_quote pairs

module _ {V : Type 0} (print : V → Result String) where
  -- The loop of `properties`.
  unfoldable pub join_values : Bool → Dict String V → Result String
  join_values first [] = ok ""
  join_values first ((key, value) ∷ values) = property_key key >> (do
    text ← print value
    later ← join_values false values
    ok (append (if first then "" else " ") (append key (append " = " (append text later)))))

  unfoldable pub properties : Dict String V → Result String
  properties values = do pairs ← join_values true values; ok (append "{ " (append pairs " }"))
