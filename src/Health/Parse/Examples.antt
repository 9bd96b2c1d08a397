-- ===== src/Health/Parse/Examples.antt =====
-- Concrete readings for crates/openwave-core/src/health.rs: a small dump and two rows of pw-top.
use openwave.Prelude.{
  ℕ, String, true, none, some, List, [], ◌∷◌, ◌≡◌, refl, All, nat_instance, string_instance, map,
}
use openwave.Prelude.Dict.{get, insert, contains, add}
use openwave.Prelude.Json.Tree.{Tree, plant, tree_json}
use openwave.Prelude.Json.{number, string, array, object, as_array}
use openwave.Model.{ok}
use openwave.Health.Graph.{
  HealthGraph, parse_health_graph, find_cookie, note_cookie, read_node, add_node, note_node,
  read_nodes, watch_captures, read_links, note_link, uint, is_capture_name,
}
use openwave.Health.Graph.Cores.{HasCookie}
use openwave.Health.Graph.Unique.{AreDistinct}
use openwave.Health.Graph.Sound.{IsWatched, IsOutput, parse_health_graph-one_generation}
use openwave.Routing.Claims.{split_whitespace}
use openwave.Prelude.Decimal.{parse_uint}
use openwave.Health.Parse.{row, lines, parse_pw_top, read_rows}
use openwave.Health.Parse.Latest.{latest, columns, parse_pw_top-latest}

abbrev text : String → Tree
text s = plant (string s)

abbrev number_of : ℕ → Tree
number_of n = plant (number n)

abbrev obj : List (String × Tree) → Tree
obj m = plant (object m)

abbrev node_of : ℕ → String → String → Tree
node_of id name class = obj (
    ("id", number_of id)
    ∷ ("type", text "PipeWire:Interface:Node")
    ∷ (
      "info",
      obj (
          ("state", text "running")
          ∷ ("props", obj (("node.name", text name) ∷ ("media.class", text class) ∷ []))
          ∷ []),
    )
    ∷ [])

abbrev dump : Tree
dump = plant (
    array (
      obj (
        ("type", text "PipeWire:Interface:Core")
        ∷ ("info", obj (("cookie", number_of 7) ∷ []))
        ∷ [])
      ∷ node_of 40 "alsa_input.usb-Elgato_Systems_Elgato_Wave_XLR_1-00.mono" "Audio/Source"
      ∷ node_of 41 "browser" "Stream/Output/Audio"
      ∷ []))

abbrev seen : HealthGraph
seen = record {
  captures =
      (
        "alsa_input.usb-Elgato_Systems_Elgato_Wave_XLR_1-00.mono",
        record {
          identity = record { server_cookie = 7; object_serial = "40" };
          node_id = 40;
          running = true;
        },
      )
      ∷ [];
  sinks = [];
}

parsed : parse_health_graph tree_json dump ≡ ok seen
unfolding parse_health_graph find_cookie note_cookie read_node add_node note_node read_nodes
    watch_captures read_links note_link uint is_capture_name get insert contains add
parsed = refl

parse_health_graph-one_generation_example :
    (objects : List Tree) × (cookie : ℕ) × (as_array tree_json dump ≡ some objects)
    × HasCookie tree_json objects cookie
    × AreDistinct tree_json 40 "41" "browser" objects
    × All (IsWatched tree_json cookie) seen.captures
    × All (IsOutput tree_json cookie) seen.sinks
parse_health_graph-one_generation_example =
    parse_health_graph-one_generation tree_json dump 40 "41" "browser" parsed

abbrev rows : String
rows = "R 40 0 0 0 0 0 0 3 wave\nR 41 0 0 0 0 0 0 1 app\nR 40 0 0 0 0 0 0 5 wave\n"

parse_pw_top-latest_example :
    get 40 (parse_pw_top rows)
    ≡ latest 40 none (map (λ line. columns (split_whitespace line)) (lines rows))
parse_pw_top-latest_example = parse_pw_top-latest 40 rows

latest_count :
    get 40 (parse_pw_top rows) ≡ some (record { node_id = 40; node_name = "wave"; count = 5 })
unfolding parse_pw_top read_rows row parse_uint get insert
latest_count = refl
