-- ===== src/Mixer/Restore.antt =====
-- crates/openwave-runtime/src/mixer.rs: `restore_streams`. It answers the sinks that must be kept.
use openwave.Prelude.{
  nat_instance, String, Bool, false, not, ◌&&◌, ◌||◌, Option, none, some, List, [], ◌∷◌, ◌++◌, ◌==◌,
  filter, find?, map, if◌then◌else◌, string_instance,
}
use Prim.Native.String.{◌++◌ as append}
use text.Mathlib.Text.{starts_with}
use openwave.Prelude.Dict.{Dict, get, remove, contains, add}
use openwave.Prelude.Json.{Json, or_else}
use openwave.Model.{
  NodeIdentity, identity_eq, identity_instance, unavailable, Result, ok, err, OperationError,
}
use openwave.Sources.{StreamSnapshot, OutputSnapshot}
use openwave.Routing.Output.{
  OutputDecision, monitor, silent, Reached, reached, unreachable, resolve_output_with_wave,
}
use openwave.Mixer.Graph.{GraphSnapshot, single, is_some, owned}
use openwave.Mixer.Sinks.{OwnedSink, moved_to, Backend, Reconciler, complain}

abbrev pub held_by : Dict String OwnedSink → List String → String → Bool
held_by sinks kept sink = is_some (get sink sinks) && not (contains sink kept)

abbrev placed : (String → Bool) → Option String → Bool
placed p none = false
placed p (some sink) = p sink

abbrev without_origin : List StreamSnapshot → Dict NodeIdentity (Option String)
without_origin [] = []
without_origin (s ∷ l) = (s.identity, none) ∷ without_origin l

-- `stream.sink.filter(…)`
abbrev pub intake_of : Dict String OwnedSink → List String → Option String → Option String
intake_of sinks kept none = none
intake_of sinks kept (some sink) =
    if starts_with sink "openwave_src_" || held_by sinks kept sink then some sink else none

abbrev pub no_wave : {V : Type 0} → OutputSnapshot V → OutputSnapshot V
no_wave o = record o { is_wave = false }

abbrev pub chosen : {V : Type 0} → Result (Reached (OutputDecision V)) → Option String
chosen (err e) = none
chosen (ok unreachable) = none
chosen (ok (reached (silent why))) = none
chosen (ok (reached (monitor o))) = some o.node_name

module _ {F V : Type 0} where
  -- Where a stream came from, if that is one output and not one of the mixer's.
  abbrev pub original_target : GraphSnapshot F V → Option String → Option String
  original_target graph none = none
  original_target graph (some name) =
      if not (starts_with name "openwave_")
        && is_some (single (filter (λ o. o.node_name == name) graph.outputs))
      then some name
      else none

  unfoldable pub fallback_target : GraphSnapshot F V → Option String
  fallback_target graph =
      chosen (resolve_output_with_wave "auto" (map no_wave graph.outputs) graph.default_sink none)

  abbrev pub target_of : GraphSnapshot F V → Option String → Option String
  target_of graph original = or_else (original_target graph original) (fallback_target graph)

abbrev pub no_target : String → OperationError
no_target app = record {
  code = unavailable;
  message =
      append "No eligible non-OpenWave output for "
        (append app "; move it to another output, then retry");
}

module _ (js : Json) (backend : Backend js) where
  open js use {V}
  open backend use {World, F}

  abbrev St : Type 0
  St = Reconciler World F V

  -- The streams to be restored: those that were moved, and those that the server placed on a sink
  -- that is not kept.
  abbrev pub candidates : GraphSnapshot F V → List String → St → Dict NodeIdentity (Option String)
  candidates graph kept s =
      s.moved
      ++ without_origin (
          filter
            (λ t. not (is_some (get t.identity s.moved)) && placed (held_by s.sinks kept) t.sink)
            graph.streams)

  abbrev pub forget_move : NodeIdentity → List String → St → List String × St
  forget_move id retained s = (retained, record s { moved = remove id s.moved })

  abbrev pub keep_intake : String → String → String → List String → St → List String × St
  keep_intake intake target message retained s =
      ((add intake retained).0, (complain target message s).1)

  abbrev pub note_move :
      StreamSnapshot → String → List String → Result (Unit {0}) → St → List String × St
  note_move stream intake retained (ok u) s = forget_move stream.identity retained s
  note_move stream intake retained (err e) s =
      keep_intake intake (append "stream:" stream.identity.object_serial)
        (append stream.app_name (append " remains on " (append intake (append ": " e.message))))
        retained s

  unfoldable pub move :
      GraphSnapshot F V
      → StreamSnapshot
      → String
      → Option String
      → List String
      → St
      → List String × St
  unfolding complain
  move graph stream intake none retained s =
      note_move stream intake retained (err (no_target stream.app_name)) s
  move graph stream intake (some target) retained s =
      let (r, w) = backend.move_stream stream target s.world in
      note_move stream intake retained r
        (record s { world = w; log = moved_to graph stream target ∷ s.log })

  -- The handle of the intake, if the graph shows the sink as its own.
  abbrev pub is_proven : GraphSnapshot F V → String → Option OwnedSink → Bool
  is_proven graph intake none = false
  is_proven graph intake (some handle) =
      graph.cookie == handle.cookie && is_some (owned js graph intake handle.owner)

  abbrev pub restore_from :
      GraphSnapshot F V
      → Option String
      → StreamSnapshot
      → Option String
      → List String
      → St
      → List String × St
  restore_from graph original stream none retained s = forget_move stream.identity retained s
  restore_from graph original stream (some intake) retained s =
      if is_proven graph intake (get intake s.sinks)
      then move graph stream intake (target_of graph original) retained s
      else keep_intake intake intake "Cannot restore from an unproven intake" retained s

  abbrev pub restore_found :
      GraphSnapshot F V
      → List String
      → NodeIdentity
      → Option String
      → Option StreamSnapshot
      → List String
      → St
      → List String × St
  restore_found graph kept id original none retained s = forget_move id retained s
  restore_found graph kept id original (some stream) retained s =
      restore_from graph original stream (intake_of s.sinks kept stream.sink) retained s

  unfoldable pub restore_one :
      GraphSnapshot F V
      → Dict NodeIdentity String
      → List String
      → NodeIdentity
      → Option String
      → List String
      → St
      → List String × St
  unfolding move
  restore_one graph wanted kept id original retained s =
      if is_some (get id wanted)
      then (retained, s)
      else restore_found graph kept id original
          (find? (λ t. identity_eq t.identity id) graph.streams) retained s

  unfoldable pub restore_all :
      GraphSnapshot F V
      → Dict NodeIdentity String
      → List String
      → Dict NodeIdentity (Option String)
      → List String
      → St
      → List String × St
  unfolding restore_one
  restore_all graph wanted kept [] retained s = (retained, s)
  restore_all graph wanted kept ((id, original) ∷ l) retained s =
      let (more, t) = restore_one graph wanted kept id original retained s in
      restore_all graph wanted kept l more t

  unfoldable pub restore_streams :
      GraphSnapshot F V → Dict NodeIdentity String → List String → St → List String × St
  unfolding restore_all
  restore_streams graph wanted kept s = restore_all graph wanted kept (candidates graph kept s) [] s
