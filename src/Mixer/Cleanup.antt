-- ===== src/Mixer/Cleanup.antt =====
-- crates/openwave-runtime/src/mixer.rs: `cleanup_sinks`.
use openwave.Prelude.{
  ℕ, String, not, ◌||◌, Option, none, some, List, ◌==◌, filter, any, if◌then◌else◌, nat_instance,
  string_instance,
}
use Prim.Native.String.{◌++◌ as append}
use openwave.Prelude.Dict.{Dict, contains}
use openwave.Prelude.Action.{Action, ◌>>=◌, ◌>>◌, outcome}
use openwave.Prelude.Json.{Json}
use openwave.Model.{identity_eq, Result, ok, err}
use openwave.Mixer.Graph.{
  GraphNode, GraphSnapshot, node, is_named, is_some, is_on, is_number, owned, definition_matches,
}
use openwave.Mixer.Sinks.{
  OwnedSink, PersistentSink, Backend, Reconciler, for_each, names_of, complain, forget_removed,
  forget_persistent, forget_sink, fresh_cleanup_graph, destroy, unload,
}

module _ (js : Json) (backend : Backend js) (token : String → String → String → String) where
  open js use {V}
  open backend use {World, F}

  abbrev St : Type 0
  St = Reconciler World F V

  -- A call that fails is complained of, and the loop goes on.
  abbrev pub then_forget : String → Action St (Unit {0}) → Result (Unit {0}) → Action St (Unit {0})
  then_forget name forget (ok u) = forget
  then_forget name forget (err e) = complain name e.message

  abbrev pub remove_persistent :
      String → PersistentSink V → GraphSnapshot F V → Option (GraphNode V) → Action St (Unit {0})
  remove_persistent name evidence graph (some n) =
      if not (identity_eq n.identity evidence.identity)
        || not (definition_matches js token n evidence.definition)
      then complain name "Persistent sink identity changed; explicit removal refused"
      else if any (is_on name) graph.streams
      then complain name "Persistent sink still has streams"
      else outcome (destroy js backend n.id) >>= then_forget name (forget_persistent name)
  remove_persistent name evidence graph none =
      if is_named graph name
      then complain name "Ambiguous sink removal refused"
      else forget_persistent name

  unfoldable pub clean_persistent :
      List String → ℕ → String × PersistentSink V → Action St (Unit {0})
  unfolding outcome
  clean_persistent wanted retries (name, evidence) =
      if contains name wanted then forget_removed name else do
        graph ← fresh_cleanup_graph js backend retries
        remove_persistent name evidence graph (node graph name)

  abbrev pub remove_owned :
      String → OwnedSink → GraphSnapshot F V → Option (GraphNode V) → Action St (Unit {0})
  remove_owned name handle graph (some n) =
      if not (graph.cookie == handle.cookie)
        || not (is_some (owned js graph name handle.owner))
        || not (is_number js n.properties "pulse.module.id" handle.module_id)
      then complain name "Sink owner/module changed; unload refused"
      else if any (is_on name) graph.streams
      then complain name (
          append "Intake retained until all streams are restored; move " (
            append (names_of (filter (is_on name) graph.streams)) " to another output, then retry"))
      else outcome (unload js backend handle.module_id) >>= then_forget name (forget_sink name)
  remove_owned name handle graph none =
      if is_named graph name
      then complain name "Ambiguous owned sink; unload refused"
      else forget_sink name

  unfoldable pub clean_owned : ℕ → String × OwnedSink → Action St (Unit {0})
  unfolding outcome
  clean_owned retries (name, handle) = do
    graph ← fresh_cleanup_graph js backend retries
    remove_owned name handle graph (node graph name)

  abbrev pub stale : List String → Dict String OwnedSink → List (String × OwnedSink)
  stale wanted sinks = filter (λ e. not (contains e.0 wanted)) sinks

  abbrev pub clean_all_owned : List String → ℕ → Action St (Unit {0})
  clean_all_owned wanted retries s = for_each (stale wanted s.sinks) (clean_owned retries) s

  unfoldable pub cleanup_sinks : List String → ℕ → Action St (Unit {0})
  unfolding clean_persistent clean_owned
  cleanup_sinks wanted retries s =
      (for_each s.removed (clean_persistent wanted retries) >> clean_all_owned wanted retries) s
