-- ===== src/Mixer/Sinks.antt =====
-- crates/openwave-runtime/src/mixer.rs: how sinks are created, proven and removed. The state is the
-- part of `Reconciler` that this code reads and writes. `log` are the answers and the calls of the
-- backend, what was adopted, and the graph that a move was decided on, the latest first; the errors that are passed along are kept in `errors`. That a failed
-- observation is shown, the waiting between two observations and the levels to be set are left out.
use openwave.Prelude.{
  ℕ, ◌+◌, zero, suc, String, Bool, false, not, Option, none, some, List, [], ◌∷◌, ◌++◌, ◌==◌, min,
  if◌then◌else◌, nat_instance, string_instance,
}
use Prim.Native.String.{◌++◌ as append}
use openwave.Prelude.Dict.{Dict, insert, remove, contains}
use openwave.Prelude.Action.{Action, ◌>>=◌, ◌>>◌, lift}
use openwave.Prelude.Json.{Json}
use openwave.Model.{NodeIdentity, identity, Result, ok, err, fail}
use openwave.Snapshots.{OperationIssue}
use openwave.Sources.{StreamSnapshot}
use openwave.Matrix.{Mix}
use openwave.Mixer.Graph.{GraphSnapshot}

pub record OwnedSink : Type 0 where
  pub cookie : ℕ
  pub module_id : ℕ
  pub owner : String
  pub missing : ℕ  -- u8

pub record PersistentSink (V : Type 0) : Type 0 where
  pub identity : NodeIdentity
  pub definition : Mix V

-- `F` are the levels, `V` the values of JSON.
pub data Act (F V : Type 0) : Type 0 where
  observed : GraphSnapshot F V → Act F V
  -- The cookie, the name, the owner and the module of a sink.
  created : ℕ → String → String → ℕ → Act F V
  adopted : String → NodeIdentity → Mix V → Act F V
  unloaded : ℕ → Act F V
  destroyed : ℕ → Act F V
  moved_to : GraphSnapshot F V → StreamSnapshot → String → Act F V

pub record Backend (js : Json) : Type 1 where
  pub World : Type 0
  pub F : Type 0  -- f64
  pub snapshot : World → Result (GraphSnapshot F js.V) × World
  -- A new owner (`Uuid::new_v4`), and the module of the sink of that name, description and owner.
  pub new_owner : World → String × World
  pub create_sink : String → String → String → World → Result ℕ × World
  pub unload_module : ℕ → World → Result (Unit {0}) × World
  pub destroy_node : ℕ → World → Result (Unit {0}) × World
  pub move_stream : StreamSnapshot → String → World → Result (Unit {0}) × World

pub record Reconciler (W F V : Type 0) : Type 0 where
  pub world : W
  pub cookie : Option ℕ
  pub sinks : Dict String OwnedSink
  pub persistent : Dict String (PersistentSink V)
  pub removed : Dict String (PersistentSink V)
  -- The streams that were moved to an own sink, each with the sink that it came from.
  pub moved : Dict NodeIdentity (Option String)
  pub errors : List OperationIssue
  pub log : List (Act F V)

abbrev pub same_cookie : Option ℕ → ℕ → Bool
same_cookie none cookie = false
same_cookie (some old) cookie = old == cookie

abbrev pub changed_cookie : Option ℕ → ℕ → Bool
changed_cookie none cookie = false
changed_cookie (some old) cookie = not (old == cookie)

-- `handle.missing.saturating_add(1)`, of a u8
abbrev pub missed : OwnedSink → OwnedSink
missed handle = record handle { missing = min 255 (handle.missing + 1) }

abbrev pub seen : OwnedSink → OwnedSink
seen handle = record handle { missing = 0 }

abbrev pub for_each : {S A : Type 0} → List A → (A → Action S (Unit {0})) → Action S (Unit {0})
for_each [] f = lift (ok tt)
for_each (a ∷ l) f = f a >> for_each l f

abbrev pub names_of : List StreamSnapshot → String
names_of [] = ""
names_of (s ∷ []) = s.app_name
names_of (s ∷ t ∷ l) = append s.app_name (append ", " (names_of (t ∷ l)))

abbrev pub withdrawn :
    {V : Type 0}
    → List String
    → Dict String (PersistentSink V)
    → Dict String (PersistentSink V)
    → Dict String (PersistentSink V)
withdrawn wanted [] removed = removed
withdrawn wanted ((name, evidence) ∷ l) removed =
    withdrawn wanted l (if contains name wanted then removed else insert name evidence removed)

module _ {W F V : Type 0} where
  unfoldable pub complain : String → String → Action (Reconciler W F V) (Unit {0})
  complain target message s =
      (ok tt, record s { errors = s.errors ++ record { target = target; message = message } ∷ [] })

  unfoldable pub forget_removed : String → Action (Reconciler W F V) (Unit {0})
  forget_removed name s = (ok tt, record s { removed = remove name s.removed })

  unfoldable pub forget_persistent : String → Action (Reconciler W F V) (Unit {0})
  forget_persistent name s =
      (ok tt, record s { removed = remove name s.removed; persistent = remove name s.persistent })

  unfoldable pub forget_sink : String → Action (Reconciler W F V) (Unit {0})
  forget_sink name s = (ok tt, record s { sinks = remove name s.sinks })

  -- `routes` and `effects` are the answers of `stop_routes` and `stop_effects`.
  abbrev pub renew :
      Result (Unit {0}) → Result (Unit {0}) → ℕ → Action (Reconciler W F V) (Unit {0})
  renew (err e) effects cookie s = (err e, s)
  renew (ok u) (err e) cookie s = (err e, s)
  renew (ok u) (ok v) cookie s = (
    ok tt,
    record s { sinks = []; persistent = []; removed = []; moved = []; cookie = some cookie },
  )

  unfoldable pub observe_cookie :
      Result (Unit {0}) → Result (Unit {0}) → ℕ → Action (Reconciler W F V) (Unit {0})
  observe_cookie routes effects cookie s =
      if changed_cookie s.cookie cookie
      then renew routes effects cookie s
      else (ok tt, record s { cookie = some cookie })

  unfoldable pub withdraw : List String → Action (Reconciler W F V) (Unit {0})
  withdraw wanted s = (ok tt, record s { removed = withdrawn wanted s.persistent s.removed })

  unfoldable pub require_server : GraphSnapshot F V → Action (Reconciler W F V) (GraphSnapshot F V)
  require_server graph s = if same_cookie s.cookie graph.cookie then (ok graph, s) else (
    fail identity "Server identity changed before cleanup; all destructive graph cleanup deferred",
    s,
  )

module _ (js : Json) (backend : Backend js) where
  open js use {V}
  open backend use {World, F}

  abbrev pub State : Type 0
  State = Reconciler World F V

  abbrev pub note_graph :
      Result (GraphSnapshot F V) × World → State → Result (GraphSnapshot F V) × State
  note_graph (ok graph, w) s = (ok graph, record s { world = w; log = observed graph ∷ s.log })
  note_graph (err e, w) s = (err e, record s { world = w })

  abbrev pub or_again :
      Result (GraphSnapshot F V) × State
      → Action State (GraphSnapshot F V)
      → Result (GraphSnapshot F V) × State
  or_again (ok graph, s) rest = (ok graph, s)
  or_again (err e, s) rest = rest s

  -- The loop of `fresh_cleanup_graph`; it is called with one attempt more than `retries`.
  unfoldable pub fetch : ℕ → Action State (GraphSnapshot F V)
  fetch zero s = note_graph (backend.snapshot s.world) s
  fetch (suc retries) s = or_again (note_graph (backend.snapshot s.world) s) (fetch retries)

  unfoldable pub fresh_cleanup_graph : ℕ → Action State (GraphSnapshot F V)
  unfolding fetch require_server
  fresh_cleanup_graph retries = do graph ← fetch retries; require_server graph

  unfoldable pub destroy : ℕ → Action State (Unit {0})
  destroy id s =
      let (r, w) = backend.destroy_node id s.world in
      (r, record s { world = w; log = destroyed id ∷ s.log })

  unfoldable pub unload : ℕ → Action State (Unit {0})
  unload made s =
      let (r, w) = backend.unload_module made s.world in
      (r, record s { world = w; log = unloaded made ∷ s.log })
