-- ===== src/Routing/Properties/Examples.antt =====
-- Concrete module arguments for crates/openwave-core/src/routing.rs, whose values are all strings.
use openwave.Prelude.{String, some, List, [], ◌∷◌, ◌≡◌, refl}
use openwave.Prelude.Dict.{Dict}
use openwave.Model.{Result, ok}
use openwave.Routing.Properties.{
  cell_route_name, property_key, escape, pulse_quote, value_text, join_pairs, pulse_properties,
  join_values, properties,
}
use openwave.Routing.Properties.Reading.{texts, read_properties, read_properties-pulse_properties}

abbrev values : Dict String String
values = ("media.role", "a\"b") ∷ ("x", "c\\") ∷ []

abbrev written : String
written = "\"media.role=\\\"a\\\\\\\"b\\\" x=\\\"c\\\\\\\\\\\"\""

route : cell_route_name "mic" "stream" ≡ "openwave_loop_3_mic_stream"
route = refl

abbrev as_literal : String → Result String
as_literal s = ok "1"

literals : properties as_literal values ≡ ok "{ media.role = 1 x = 1 }"
unfolding properties join_values property_key
literals = refl

read_properties-pulse_properties_example :
    (ts : List (String × String)) × (texts {V = String} some ok values ≡ ok ts)
    × (read_properties 2 written ≡ some ts)
unfolding pulse_properties join_pairs property_key value_text pulse_quote escape
read_properties-pulse_properties_example =
    read_properties-pulse_properties {V = String} some ok values {out = written} refl
