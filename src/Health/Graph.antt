-- ===== src/Health/Graph.antt =====
-- crates/openwave-core/src/health.rs: `parse_health_graph`, which reads a PipeWire dump.
pub mod Cores
pub mod Rounds
pub mod Unique
pub mod Sound
use openwave.Prelude.{
  ℕ, String, Bool, true, false, not, ◌&&◌, ◌||◌, Option, none, some, List, [], ◌∷◌, ◌==◌, any, leb,
  string_instance, nat_instance, if◌then◌else◌,
}
use text.Mathlib.Text.{starts_with}
use openwave.Prelude.Text.{ends_with, strip_prefix}
use openwave.Prelude.Dict.{Dict, get as find_key, insert}
use openwave.Prelude.Decimal.{decimal, parse_uint, u32_max}
use openwave.Prelude.Json.{
  View, null, bool, number, string, array, object, Json, ◌>>?◌, or_else, as_array, as_object,
  as_str, as_u64, member,
}
use openwave.Model.{
  Result, ok, err, fail, unavailable, ok_or, NodeIdentity, identity_instance, ◌>>=◌,
}
use openwave.Profiles.{profile, xlr_dock_mk2}

pub record AlsaPlayback : Type 0 where
  pub card : ℕ  -- u32
  pub device : ℕ  -- u32
  pub subdevice : ℕ  -- u32

pub record WatchedNode : Type 0 where
  pub identity : NodeIdentity
  pub node_id : ℕ  -- u32
  pub running : Bool

pub record WatchedSink : Type 0 where
  pub node : WatchedNode
  pub playback : AlsaPlayback

pub record HealthGraph : Type 0 where
  pub captures : Dict String WatchedNode
  pub sinks : Dict String WatchedSink

abbrev pub graph_error : String
graph_error = "Malformed or identity-incomplete health graph"

-- `ok_or_else(graph_error)`
abbrev pub complete : {A : Type 0} → Option A → Result A
complete o = ok_or o unavailable graph_error

abbrev pub says : String → Option String → Bool
says word none = false
says word (some text) = text == word

-- `cookie.replace(observed).is_some()` is an error.
abbrev pub once : Option ℕ → ℕ → Result (Option ℕ)
once none observed = ok (some observed)
once (some before) observed = fail unavailable graph_error

abbrev pub or_empty : Option String → String
or_empty none = ""
or_empty (some text) = text

abbrev try_into : Option ℕ → Option ℕ
try_into n = n >>? λ i. if leb i u32_max then some i else none

-- The names of the captures that are watched.
unfoldable pub is_capture_name : String → Bool
unfolding profile
is_capture_name name =
    starts_with name "alsa_input.usb-Elgato_Systems_Elgato_Wave_"
    || starts_with name "alsa_input.usb-Elgato_Systems_Elgato_XLR_Dock_"
    || (elim (strip_prefix "alsa_input.usb-" name) [
      | none ↦ false
      | some rest ↦ starts_with rest (profile xlr_dock_mk2).capture_serial_prefix
    ])

module _ (js : Json) where
  open js use {V, N, view, number_as_u64, number_to_string}

  unfoldable pub uint : V → Option ℕ
  uint v = or_else (try_into (as_u64 js v)) (as_str js v >>? parse_uint u32_max)

  abbrev pub is_kind : String → V → Bool
  is_kind kind o = says kind (member js "type" o >>? as_str js)

  -- One round of the search for the Core's cookie.
  unfoldable pub note_cookie : Option ℕ → V → Result (Option ℕ)
  unfolding uint
  note_cookie found o = do
    m ← complete (as_object js o)
    if says "PipeWire:Interface:Core" (find_key "type" m >>? as_str js)
        then (do
          observed ← complete (find_key "info" m >>? member js "cookie" >>? uint)
          once found observed)
        else ok found

  unfoldable pub find_cookie : Option ℕ → List V → Result (Option ℕ)
  unfolding note_cookie
  find_cookie found [] = ok found
  find_cookie found (o ∷ os) = do found' ← note_cookie found o; find_cookie found' os

  pub record Entry : Type 0 where
    pub name : String
    pub class : String
    pub node : WatchedNode
    pub props : Dict String V

  abbrev pub scalar_serial : View N V → Option String
  scalar_serial (string s) = if s == "" then none else some s
  scalar_serial (number n) = number_as_u64 n >>? λ i. some (number_to_string n)
  scalar_serial null = none
  scalar_serial (bool b) = none
  scalar_serial (array l) = none
  scalar_serial (object m) = none

  abbrev pub serial_of : Option V → ℕ → Option String
  serial_of none id = some (decimal id)
  serial_of (some v) id = scalar_serial (view v)

  -- What the second loop reads of a node.
  unfoldable pub read_node : ℕ → V → Result (ℕ × Entry)
  unfolding uint
  read_node cookie o = do
    id ← complete (member js "id" o >>? uint)
    info ← complete (member js "info" o >>? as_object js)
    props ← complete (find_key "props" info >>? as_object js)
    name ← complete (find_key "node.name" props >>? as_str js)
    let class = or_empty (find_key "media.class" props >>? as_str js)
    state ← complete (find_key "state" info >>? as_str js)
    serial ← complete (serial_of (find_key "object.serial" props) id)
    ok (
      id,
      record {
        name = name;
        class = class;
        node = record {
          identity = record { server_cookie = cookie; object_serial = serial };
          node_id = id;
          running = state == "running";
        };
        props = props;
      },
    )

  -- The three collections that the second loop fills.
  pub record Nodes : Type 0 where
    pub by_id : Dict ℕ Entry
    pub names : List String
    pub identities : List NodeIdentity

  abbrev pub is_some : {A : Type 0} → Option A → Bool
  is_some none = false
  is_some (some a) = true

  abbrev pub is_hardware : String → Bool
  is_hardware class = class == "Audio/Sink" || class == "Audio/Source"

  unfoldable pub add_node : Nodes → ℕ → Entry → Result Nodes
  add_node ns id e =
      if any (λ i. i == e.node.identity) ns.identities || is_some (find_key id ns.by_id)
      then fail unavailable graph_error
      else if is_hardware e.class && any (λ n. n == e.name) ns.names
      then fail unavailable graph_error
      else ok (record {
        by_id = insert id e ns.by_id;
        names = if is_hardware e.class then e.name ∷ ns.names else ns.names;
        identities = e.node.identity ∷ ns.identities;
      })

  unfoldable pub note_node : ℕ → Nodes → V → Result Nodes
  unfolding read_node add_node
  note_node cookie ns o =
      if is_kind "PipeWire:Interface:Node" o
      then (do (id, e) ← read_node cookie o; add_node ns id e)
      else ok ns

  unfoldable pub read_nodes : ℕ → Nodes → List V → Result Nodes
  unfolding note_node
  read_nodes cookie ns [] = ok ns
  read_nodes cookie ns (o ∷ os) = do ns' ← note_node cookie ns o; read_nodes cookie ns' os

  unfoldable pub watch_captures : Dict String WatchedNode → Dict ℕ Entry → Dict String WatchedNode
  watch_captures found [] = found
  watch_captures found ((id, e) ∷ nodes) =
      watch_captures
        (if e.class == "Audio/Source" && is_capture_name e.name
          then insert e.name e.node found
          else found)
        nodes

  -- The closure `number`.
  abbrev pub number_of : Dict String V → String → String → Option ℕ
  number_of props primary fallback =
      or_else (find_key primary props) (find_key fallback props) >>? uint

  abbrev pub subdevice_of : Option V → Option ℕ
  subdevice_of none = some 0
  subdevice_of (some v) = uint v

  unfoldable pub playback_of : Dict String V → Result AlsaPlayback
  playback_of props = do
    card ← complete (number_of props "api.alsa.pcm.card" "alsa.card")
    dev ← complete (number_of props "api.alsa.pcm.device" "alsa.device")
    sub ← complete (
        subdevice_of
          (or_else (find_key "api.alsa.pcm.subdevice" props) (find_key "alsa.subdevice" props)))
    ok (record { card = card; device = dev; subdevice = sub })

  unfoldable pub is_output_link : Entry → Entry → Bool
  is_output_link source target =
      starts_with source.name "openwave_loop_output_"
      && not (ends_with source.name "_cap")
      && starts_with target.name "alsa_output."
      && target.class == "Audio/Sink"

  unfoldable pub note_link :
      Dict ℕ Entry → Dict String WatchedSink → V → Result (Dict String WatchedSink)
  unfolding playback_of uint
  note_link nodes sinks o =
      if is_kind "PipeWire:Interface:Link" o
      then (do
        info ← complete (member js "info" o >>? as_object js)
        source ← complete (find_key "output-node-id" info >>? uint)
        target ← complete (find_key "input-node-id" info >>? uint)
        from ← complete (find_key source nodes)
        to ← complete (find_key target nodes)
        if is_output_link from to
            then (do
              playback ← playback_of to.props
              ok (insert to.name (record { node = to.node; playback = playback }) sinks))
            else ok sinks)
      else ok sinks

  unfoldable pub read_links :
      Dict ℕ Entry → Dict String WatchedSink → List V → Result (Dict String WatchedSink)
  unfolding note_link
  read_links nodes sinks [] = ok sinks
  read_links nodes sinks (o ∷ os) = do sinks' ← note_link nodes sinks o; read_links nodes sinks' os

  abbrev pub no_nodes : Nodes
  no_nodes = record { by_id = []; names = []; identities = [] }

  unfoldable pub parse_health_graph : V → Result HealthGraph
  unfolding find_cookie read_nodes watch_captures read_links
  parse_health_graph value = do
    objects ← complete (as_array js value)
    found ← find_cookie none objects
    cookie ← complete found
    ns ← read_nodes cookie no_nodes objects
    let captures = watch_captures [] ns.by_id
    sinks ← read_links ns.by_id [] objects
    ok (record { captures = captures; sinks = sinks })
