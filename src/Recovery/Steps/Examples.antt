-- ===== src/Recovery/Steps/Examples.antt =====
-- Concrete commands for crates/openwave-runtime/src/recovery.rs: each takes the next answer.
use openwave.Prelude.{
  ℕ, String, true, false, none, List, [], ◌∷◌, ◌≡◌, refl, string_instance, nat_instance,
}
use openwave.Prelude.Decimal.{parse_uint}
use openwave.Prelude.Dict.{get}
use openwave.Prelude.Json.Tree.{Tree, plant, tree_json}
use openwave.Prelude.Json.{number, string, array, object}
use openwave.Model.{Result, ok, fail, io, NodeIdentity}
use openwave.Recovery.Discovery.{scalar, unique, graph_identity}
use openwave.Health.Graph
use openwave.Prelude.Action.{is_ok, ◌>>=◌, lift, outcome}
use openwave.Recovery.Session.{Commands, Session, call, pause, check_cancel, json_command, listing}
use openwave.Recovery.Steps.{
  cycle_card_with, recycle_sink_with, restore_with, validate_sink, command, resume, restore_pending,
  require_clear, suspend, owe, wait_if, finish, read_graph, validate_node,
}
use openwave.Recovery.Steps.Ledger.{IsOwed, owing, suspended, replay}
use openwave.Recovery.Steps.Owed.{start, recycled, Run-IsOwed}
use openwave.Recovery.Steps.Outcome.{Settled, success_settles}

abbrev text : String → Tree
text s = plant (string s)

abbrev number_of : ℕ → Tree
number_of n = plant (number n)

abbrev obj : List (String × Tree) → Tree
obj m = plant (object m)

abbrev graph : Tree
graph = plant (
    array (
      obj (
        ("type", text "PipeWire:Interface:Core")
        ∷ ("info", obj (("cookie", number_of 7) ∷ []))
        ∷ [])
      ∷ obj (
          ("id", number_of 40)
          ∷ ("type", text "PipeWire:Interface:Node")
          ∷ (
            "info",
            obj (
                ("state", text "running")
                ∷ (
                  "props",
                  obj (
                      ("node.name", text "alsa_output.usb-wave")
                      ∷ ("media.class", text "Audio/Sink")
                      ∷ ("object.serial", number_of 91)
                      ∷ []),
                )
                ∷ []),
          )
          ∷ [])
      ∷ []))

abbrev sinks : Tree
sinks = plant (
    array (
      obj (
        ("name", text "alsa_output.usb-wave")
        ∷ ("properties", obj (("object.serial", text "91") ∷ []))
        ∷ [])
      ∷ []))

abbrev next_answer : List (Result Tree) → Result Tree × List (Result Tree)
next_answer [] = (fail io "no answer", [])
next_answer (r ∷ rest) = (r, rest)

abbrev scripted : Commands tree_json
scripted = record {
  World = List (Result Tree);
  Bytes = Tree;
  run = λ program args time restoration w. next_answer w;
  cancelled = λ w. (false, w);
  wait = λ time w. w;
  from_slice = λ t. ok t;
}

abbrev sink_identity : NodeIdentity
sink_identity = record { server_cookie = 7; object_serial = "91" }

-- The resume fails at first.
abbrev answers : List (Result Tree)
answers = ok graph ∷ ok sinks ∷ ok sinks ∷ ok graph ∷ ok sinks ∷ fail io "timed out" ∷ []

abbrev fresh : Session (List (Result Tree))
fresh = record { world = answers; log = []; pending = none }

Run-IsOwed_example :
    IsOwed (recycle_sink_with tree_json scripted "alsa_output.usb-wave" sink_identity fresh).1
Run-IsOwed_example =
    Run-IsOwed tree_json scripted (recycled "alsa_output.usb-wave" sink_identity (start answers))

abbrev after_failure : Session (List (Result Tree))
after_failure = (recycle_sink_with tree_json scripted "alsa_output.usb-wave" sink_identity fresh).1

success_settles_example :
    (is_ok (cycle_card_with tree_json scripted "alsa_output.usb-wave" sink_identity fresh).0 ≡ true
      → Settled tree_json scripted
          (cycle_card_with tree_json scripted "alsa_output.usb-wave" sink_identity fresh).1)
    × (is_ok (recycle_sink_with tree_json scripted "alsa_output.usb-wave" sink_identity fresh).0
          ≡ true
        → Settled tree_json scripted
            (recycle_sink_with tree_json scripted "alsa_output.usb-wave" sink_identity fresh).1)
    × (is_ok (restore_with tree_json scripted fresh).0 ≡ true
        → Settled tree_json scripted (restore_with tree_json scripted fresh).1)
success_settles_example =
    success_settles tree_json scripted (start answers) "alsa_output.usb-wave" sink_identity

-- The output stays suspended, and the debt is kept.
recycle_owes : replay after_failure.log ≡ owing (suspended "alsa_output.usb-wave")
unfolding recycle_sink_with require_clear validate_sink suspend owe wait_if finish restore_with
    restore_pending resume command validate_node read_graph listing json_command call pause
    check_cancel ◌>>=◌ lift outcome scalar unique graph_identity parse_uint get
    Graph.parse_health_graph replay
recycle_owes = refl
