-- ===== src/Mixer/Examples.antt =====
-- Tests of the sinks and links of crates/openwave-runtime/src/mixer.rs, and runs that the theorems
-- apply to.
use openwave.Prelude.{
  ℕ, String, Bool, true, false, none, some, List, [], ◌∷◌, ◌≡◌, refl, All, nat_instance,
}
use Prim.Native.String.{◌++◌ as append}
use openwave.Prelude.Dict.{get, insert, remove, modify, contains, add}
use openwave.Prelude.Action.{◌>>=◌, lift, outcome}
use openwave.Prelude.Decimal.{parse_uint}
use openwave.Prelude.Json.Tree.{Tree, text, tree_json}
use openwave.Model.{NodeIdentity, Result, ok}
use openwave.Mixer.Graph.{
  GraphNode, GraphPort, GraphSink, GraphSnapshot, node, is_named, owned, number, bool_prop,
  definition_matches, by_identity,
}
use openwave.Mixer.Sinks.{
  observed, created, adopted, unloaded, destroyed, withdraw, destroy, forget_persistent, Backend,
  Reconciler, observe_cookie, forget_sink, fetch, require_server, fresh_cleanup_graph, unload,
}
use openwave.Matrix.{Mix}
use openwave.Mixer.Ensure.{create, ensure_sink}
use openwave.Mixer.Cleanup.{clean_owned, clean_persistent, cleanup_sinks}
use openwave.Prelude.Int.{pos}
use openwave.Sources.{StreamSnapshot, OutputSnapshot}
use openwave.Mixer.Sinks.{moved_to}
use openwave.Routing.Output
use openwave.Prelude.Search
use openwave.Mixer.Restore.{restore_streams, restore_all, restore_one, move, fallback_target}
use openwave.Mixer.Owned.{IsProven}
use openwave.Mixer.Owned.Run.{
  Run, start, restored, withdrew, renewed, ensured, cleaned, Run-IsProven,
}
use openwave.Mixer.Links.{Wires, outputs_of, inputs_of, origin, connect, wire, link_nodes}
use openwave.Mixer.Links.Wired.{IsWired, link_nodes-IsWired}

abbrev node_of : ℕ → String → List (String × Tree) → GraphNode Tree
node_of id name properties = record {
  id = id;
  identity = record { server_cookie = 5; object_serial = name };
  name = name;
  properties = properties;
  muted = none;
}

abbrev port : ℕ → ℕ → Bool → String → GraphPort
port id n output channel = record { id = id; node = n; output = output; channel = channel }

abbrev graph_of : List (GraphNode Tree) → List (String × GraphSink ℕ) → GraphSnapshot ℕ Tree
graph_of nodes sinks = record {
  cookie = 5;
  nodes = nodes;
  ports =
      port 10 1 true "FL"
      ∷ port 11 1 true "FR"
      ∷ port 20 2 false "FR"
      ∷ port 21 2 false "FL"
      ∷ port 22 2 false "LFE"
      ∷ [];
  links = (11, 20) ∷ [];
  sinks = sinks;
  captures = [];
  streams = [];
  outputs = [];
  default_sink = none;
}

abbrev intake : GraphNode Tree
intake =
    node_of 40 "openwave_src_a" (("openwave.owner", text "me") ∷ ("pulse.module.id", text "7") ∷ [])

abbrev at_first : GraphSnapshot ℕ Tree
at_first = graph_of [] []

abbrev digest : String → String → String → String
digest id sink description = append id (append sink description)

abbrev chat : Mix Tree
chat = record {
  id = "m1";
  name = "Chat";
  description = "Chat";
  subtitle = "";
  icon_name = "";
  sink = "openwave_mix_m1";
  extra = [];
}

abbrev chat_node : GraphNode Tree
chat_node = node_of 50 "openwave_mix_m1" (
    ("openwave.mix-id", text "m1")
    ∷ ("openwave.definition", text (digest "m1" "openwave_mix_m1" "Chat"))
    ∷ [])

abbrev sink_at : ℕ → GraphSink ℕ
sink_at n = record { node = n; pulse_index = 3; level = 1; muted = false }

abbrev then_present : GraphSnapshot ℕ Tree
then_present =
    graph_of (intake ∷ chat_node ∷ [])
      (("openwave_src_a", sink_at 40) ∷ ("openwave_mix_m1", sink_at 50) ∷ [])

abbrev browser : StreamSnapshot
browser = record {
  identity = record { server_cookie = 5; object_serial = "77" };
  node_id = 77;
  node_name = "browser";
  app_name = "Browser";
  binary = "browser";
  sink = some "openwave_src_a";
  pulse_index = none;
}

abbrev speakers : OutputSnapshot Tree
speakers = record {
  identity = record { server_cookie = 5; object_serial = "90" };
  node_id = 90;
  node_name = "speakers";
  name = "Speakers";
  priority = pos 9;
  is_wave = false;
  properties = [];
}

abbrev placed_graph : GraphSnapshot ℕ Tree
placed_graph = record then_present { streams = browser ∷ []; outputs = speakers ∷ [] }

-- A server that shows its world and answers every call.
abbrev server : Backend tree_json
server = record {
  World = GraphSnapshot ℕ Tree;
  F = ℕ;
  snapshot = λ shown. (ok shown, shown);
  new_owner = λ shown. ("me", shown);
  create_sink = λ name description owner shown. (ok 7, shown);
  unload_module = λ made shown. (ok tt, shown);
  destroy_node = λ id shown. (ok tt, shown);
  move_stream = λ stream target shown. (ok tt, shown);
}

abbrev fresh_state : Reconciler (GraphSnapshot ℕ Tree) ℕ Tree
fresh_state = record {
  world = then_present;
  cookie = none;
  sinks = [];
  persistent = [];
  removed = [];
  moved = [];
  errors = [];
  log = [];
}

-- An intake is created, a stream moved out of it, a mix adopted and withdrawn, and both cleaned up.
abbrev used_state : Reconciler (GraphSnapshot ℕ Tree) ℕ Tree
used_state =
    let a = (observe_cookie (ok tt) (ok tt) 5 fresh_state).1 in
    let b = (ensure_sink tree_json server digest at_first "openwave_src_a" "A" none a).1 in
    let c = (restore_streams tree_json server placed_graph [] [] b).1 in
    let d =
      (ensure_sink tree_json server digest then_present "openwave_mix_m1" "Chat" (some chat) c).1 in
    let e = (withdraw [] d).1 in (cleanup_sinks tree_json server digest [] 2 e).1

used_run : Run tree_json server digest used_state
used_run = cleaned [] 2 (
    withdrew [] (
      ensured then_present "openwave_mix_m1" "Chat" (some chat) (
        restored placed_graph [] [] (
          ensured at_first "openwave_src_a" "A" none
            (renewed (ok tt) (ok tt) 5 (start then_present))))))

Run-IsProven_example : IsProven tree_json ℕ digest used_state.log
Run-IsProven_example = Run-IsProven tree_json server digest used_run

used_log :
    used_state.log
    ≡ unloaded 7
      ∷ observed then_present
      ∷ destroyed 50
      ∷ observed then_present
      ∷ adopted "openwave_mix_m1" chat_node.identity chat
      ∷ moved_to placed_graph browser "speakers"
      ∷ created 5 "openwave_src_a" "me" 7
      ∷ []
unfolding observe_cookie ensure_sink create cleanup_sinks clean_owned clean_persistent
    fresh_cleanup_graph fetch require_server unload destroy forget_sink forget_persistent withdraw
    outcome lift ◌>>=◌ node is_named owned number bool_prop definition_matches get insert remove
    modify contains parse_uint restore_streams restore_all restore_one move fallback_target
    Output.resolve_output_with_wave Output.validate_output_choice Output.decide
    Output.decide_automatic Output.automatic Output.eligible_output Search.min_by Search.least
    Output.exact Output.named
used_log = refl

abbrev linked_graph : GraphSnapshot ℕ Tree
linked_graph = graph_of (node_of 1 "source" [] ∷ node_of 2 "target" [] ∷ []) []

abbrev identity_of : String → NodeIdentity
identity_of name = record { server_cookie = 5; object_serial = name }

abbrev always_linked : ℕ → ℕ → Unit {0} → Result (Unit {0}) × Unit {0}
always_linked from to w = (ok tt, w)

abbrev wires : Wires (Unit {0})
wires = record { world = tt; links = linked_graph.links; calls = [] }

-- The link that is there is not asked for again, and the port of a channel that the source lacks
-- takes the output of its place.
linked_calls :
    (link_nodes always_linked linked_graph
      (identity_of "source")
      (identity_of "target")
      wires).1.calls
    ≡ (10, 22) ∷ (10, 21) ∷ []
unfolding link_nodes wire connect origin by_identity ◌>>=◌ lift contains add
linked_calls = refl

found_source : by_identity linked_graph (identity_of "source") ≡ some (node_of 1 "source" [])
unfolding by_identity
found_source = refl

found_target : by_identity linked_graph (identity_of "target") ≡ some (node_of 2 "target" [])
unfolding by_identity
found_target = refl

linked_answer :
    (link_nodes always_linked linked_graph (identity_of "source") (identity_of "target") wires).0
    ≡ ok true
unfolding link_nodes wire connect origin by_identity ◌>>=◌ lift contains add
linked_answer = refl

link_nodes-IsWired_example :
    All
      (IsWired
        (outputs_of 1 linked_graph.ports)
        (link_nodes always_linked linked_graph
          (identity_of "source")
          (identity_of "target")
          wires).1.links)
      (inputs_of 2 linked_graph.ports)
link_nodes-IsWired_example =
    link_nodes-IsWired always_linked linked_graph (identity_of "source") (identity_of "target")
      (node_of 1 "source" []) (node_of 2 "target" []) wires found_source found_target linked_answer
