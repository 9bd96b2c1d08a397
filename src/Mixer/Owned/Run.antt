-- ===== src/Mixer/Owned/Run.antt =====
-- Any sequence of the operations of crates/openwave-runtime/src/mixer.rs on the sinks.
use openwave.Prelude.{ℕ, String, Option, none, List, [], ◌∷◌, All, nat_instance, string_instance}
use openwave.Prelude.Json.{Json}
use openwave.Model.{Result, ok, err}
use openwave.Matrix.{Mix}
use openwave.Mixer.Graph.{GraphSnapshot}
use openwave.Mixer.Sinks.{
  Backend, Reconciler, observe_cookie, renew, changed_cookie, withdraw, withdrawn, PersistentSink,
}
use openwave.Mixer.Cleanup.{cleanup_sinks}
use openwave.Mixer.Owned.{IsProven, IsHonest}
use openwave.Prelude.{either}
use openwave.Prelude.Dict.{Dict, contains}
use openwave.Prelude.Entries.{All-insert}
use openwave.Model.{NodeIdentity}
use openwave.Mixer.Restore.{restore_streams}
use openwave.Mixer.Owned.Restored.{restore_streams-Moves}
use openwave.Mixer.Ensure.{ensure_sink}
use openwave.Mixer.Owned.Ensured.{ensure_sink-Leads}
use openwave.Mixer.Owned.Cleaned.{cleanup_sinks-IsHonest}

pub data Run (js : Json) (backend : Backend js) (token : String → String → String → String)
    : Reconciler backend.World backend.F js.V → Type 0 where
  start :
      (w : backend.World)
      → Run js backend token (record {
        world = w;
        cookie = none;
        sinks = [];
        persistent = [];
        removed = [];
        moved = [];
        errors = [];
        log = [];
      })
  elapse :
      {s : Reconciler backend.World backend.F js.V} (w : backend.World)
      → Run js backend token s
      → Run js backend token (record s { world = w; errors = [] })
  renewed :
      {s : Reconciler backend.World backend.F js.V} (routes effects : Result (Unit {0}))
      (cookie : ℕ)
      → Run js backend token s
      → Run js backend token (observe_cookie routes effects cookie s).1
  withdrew :
      {s : Reconciler backend.World backend.F js.V} (wanted : List String)
      → Run js backend token s
      → Run js backend token (withdraw wanted s).1
  ensured :
      {s : Reconciler backend.World backend.F js.V} (graph : GraphSnapshot backend.F js.V)
      (name description : String) (mix : Option (Mix js.V))
      → Run js backend token s
      → Run js backend token (ensure_sink js backend token graph name description mix s).1
  -- Streams that `reconcile` has moved are entered, with where they came from.
  entered_moves :
      {s : Reconciler backend.World backend.F js.V} (moved : Dict NodeIdentity (Option String))
      → Run js backend token s
      → Run js backend token (record s { moved = moved })
  restored :
      {s : Reconciler backend.World backend.F js.V} (graph : GraphSnapshot backend.F js.V)
      (wanted : Dict NodeIdentity String) (kept : List String)
      → Run js backend token s
      → Run js backend token (restore_streams js backend graph wanted kept s).1
  cleared :
      {s : Reconciler backend.World backend.F js.V}
      → Run js backend token s
      → Run js backend token (record s { removed = [] })
  cleaned :
      {s : Reconciler backend.World backend.F js.V} (wanted : List String) (retries : ℕ)
      → Run js backend token s
      → Run js backend token (cleanup_sinks js backend token wanted retries s).1

module _ (js : Json) (backend : Backend js) (token : String → String → String → String) where
  open js use {V}
  open backend use {World, F}

  renew-IsHonest :
      (routes effects : Result (Unit {0})) (cookie : ℕ) (s : Reconciler World F V)
      → IsHonest js F token s
      → IsHonest js F token (renew routes effects cookie s).1
  renew-IsHonest (err e) effects cookie s h = h
  renew-IsHonest (ok u) (err e) cookie s h = h
  renew-IsHonest (ok u) (ok v) cookie s h = record {
    owns = tt;
    keeps = tt;
    leaves = tt;
    proven = h.proven;
  }

  observe_cookie-IsHonest :
      (routes effects : Result (Unit {0})) (cookie : ℕ) (s : Reconciler World F V)
      → IsHonest js F token s
      → IsHonest js F token (observe_cookie routes effects cookie s).1
  unfolding observe_cookie
  observe_cookie-IsHonest routes effects cookie s h =
      let Q : Result (Unit {0}) × Reconciler World F V → Type 0 = λ q. IsHonest js F token q.1 in
      either Q (changed_cookie s.cookie cookie) (λ d. renew-IsHonest routes effects cookie s h)
        (λ d. record { owns = h.owns; keeps = h.keeps; leaves = h.leaves; proven = h.proven })

  withdrawn-All :
      (P : String × PersistentSink V → Type 0) (wanted : List String)
      (l removed : Dict String (PersistentSink V))
      → All P l
      → All P removed
      → All P (withdrawn wanted l removed)
  withdrawn-All P wanted [] removed h k = k
  withdrawn-All P wanted ((name, evidence) ∷ l) removed h k = withdrawn-All P wanted l _ h.1 (
      either (All P) (contains name wanted) (λ d. k)
        (λ d. All-insert P name evidence removed h.0 k))

  Run-IsHonest : {s : Reconciler World F V} → Run js backend token s → IsHonest js F token s
  unfolding withdraw
  Run-IsHonest (start w) = record { owns = tt; keeps = tt; leaves = tt; proven = tt }
  Run-IsHonest (elapse w r) =
      let h = Run-IsHonest r in
      record { owns = h.owns; keeps = h.keeps; leaves = h.leaves; proven = h.proven }
  Run-IsHonest (renewed {s} routes effects cookie r) =
      observe_cookie-IsHonest routes effects cookie s (Run-IsHonest r)
  Run-IsHonest (withdrew wanted r) =
      let h = Run-IsHonest r in
      record {
        owns = h.owns;
        keeps = h.keeps;
        leaves = withdrawn-All _ wanted _ _ h.keeps h.leaves;
        proven = h.proven;
      }
  Run-IsHonest (ensured {s} graph name description mix r) =
      (ensure_sink-Leads js backend token graph name description mix s).honest (Run-IsHonest r)
  Run-IsHonest (entered_moves moved r) =
      let h = Run-IsHonest r in
      record { owns = h.owns; keeps = h.keeps; leaves = h.leaves; proven = h.proven }
  Run-IsHonest (restored {s} graph wanted kept r) =
      (restore_streams-Moves js backend token graph wanted kept s).honest (Run-IsHonest r)
  Run-IsHonest (cleared r) =
      let h = Run-IsHonest r in
      record { owns = h.owns; keeps = h.keeps; leaves = tt; proven = h.proven }
  Run-IsHonest (cleaned {s} wanted retries r) =
      cleanup_sinks-IsHonest js backend token wanted retries s (Run-IsHonest r)

  -- Whatever graphs the mixer is shown and whatever its calls answer, in every run each module that
  -- it unloads is one that it created itself, and the graph that it observed last is of the server on
  -- which it did, and shows the one sink of that name with the mixer's owner and this module, and no
  -- stream on it; each node that it destroys is, in the graph that it observed last, the one sink of
  -- its name, has the identity that the mixer adopted under that name, fits the definition that it was
  -- adopted with, and has no stream on it; and each stream that it restores is, in the graph that
  -- `restore_streams` was given, on a sink that the mixer created on the server of that graph and that
  -- carries its owner there, and is moved to an output of that graph whose name is not one of the
  -- mixer's.
  pub Run-IsProven : {s : Reconciler World F V} → Run js backend token s → IsProven js F token s.log
  Run-IsProven r = (Run-IsHonest r).proven
