-- ===== src/Mixer/Owned.antt =====
-- Whatever crates/openwave-runtime/src/mixer.rs creates and cleans up, it touches only sinks that are
-- proven to be its own.
pub mod Fresh
pub mod Cleaned
pub mod Ensured
pub mod Targets
pub mod Restored
pub mod Run
use openwave.Prelude.{
  ℕ, zero, suc, String, Bool, true, false, not, ◌&&◌, ◌||◌, Option, none, some, List, [], ◌∷◌, ◌==◌,
  ◌≡◌, ◌⊎◌, inl, inr, refl, sym, ap, subst, ◌∙◌, any, filter, All, arith, ltb, if◌then◌else◌,
  nat_instance, string_instance, Option-cases,
}
use text.Mathlib.Text.{starts_with}
use openwave.Sources.{StreamSnapshot}
use openwave.Prelude.Search.{In, here, later}
use openwave.Prelude.Entries.{All-weaken, All-filter, All-remove, All-insert, All-modify}
use openwave.Prelude.Dict.{Dict, get, insert, remove, modify, contains}
use openwave.Prelude.Action.{Action, continue, ◌>>=◌, ◌>>◌, lift, outcome}
use openwave.Prelude.Json.{Json}
use openwave.Model.{identity_eq, Result, ok, err, OperationError, ok_inj}
use openwave.Matrix.{Mix}
use openwave.Mixer.Graph.{
  GraphNode, GraphSnapshot, node, is_named, is_some, is_on, is_text, is_number, owned,
  definition_matches,
}
use openwave.Mixer.Sinks.{
  OwnedSink, PersistentSink, Act, observed, created, adopted, unloaded, destroyed, moved_to,
  Backend, Reconciler, seen, missed, for_each, complain, forget_removed, forget_persistent,
  forget_sink, fetch, note_graph, or_again, require_server, fresh_cleanup_graph, destroy, unload,
  observe_cookie, withdraw,
}
use openwave.Mixer.Cleanup.{
  then_forget, remove_persistent, clean_persistent, remove_owned, clean_owned, stale,
  clean_all_owned, cleanup_sinks,
}

module _ (js : Json) (F : Type 0) (token : String → String → String → String) where
  open js use {V}

  -- The graph that was observed last is of the server on which the mixer created the sink with this
  -- module, and shows it as its own, without streams.
  pub record UnloadProof (made : ℕ) (log : List (Act F V)) : Type 0 where
    pub name : String
    pub owner : String
    pub graph : GraphSnapshot F V
    pub ours : In (created graph.cookie name owner made) log
    pub rest : List (Act F V)
    pub latest : log ≡ observed graph ∷ rest
    pub sink : GraphNode V
    pub found : node graph name ≡ some sink
    pub marked : is_text js sink.properties "openwave.owner" owner ≡ true
    pub loaded : is_number js sink.properties "pulse.module.id" made ≡ true
    pub quiet : any (is_on name) graph.streams ≡ false

  -- The graph that was observed last shows the node, of the identity and as the definition describes
  -- it that the mixer adopted under its name, without streams.
  pub record DestroyProof (id : ℕ) (log : List (Act F V)) : Type 0 where
    pub name : String
    pub definition : Mix V
    pub graph : GraphSnapshot F V
    pub rest : List (Act F V)
    pub latest : log ≡ observed graph ∷ rest
    pub sink : GraphNode V
    pub numbered : sink.id ≡ id
    pub found : node graph name ≡ some sink
    pub known : In (adopted name sink.identity definition) log
    pub described : definition_matches js token sink definition ≡ true
    pub quiet : any (is_on name) graph.streams ≡ false

  -- The graph that the move was decided on shows the stream on a sink that the mixer created on the
  -- server of the graph, and that carries its owner; the target is an output of the graph that is not
  -- the mixer's.
  pub record MoveProof (graph : GraphSnapshot F V) (stream : StreamSnapshot) (target : String)
      (log : List (Act F V)) : Type 0 where
    pub listed : In stream graph.streams
    pub intake : String
    pub on : stream.sink ≡ some intake
    pub owner : String
    pub made : ℕ
    pub ours : In (created graph.cookie intake owner made) log
    pub marked : is_some (owned js graph intake owner) ≡ true
    pub foreign : starts_with target "openwave_" ≡ false
    pub reachable : any (λ o. o.node_name == target) graph.outputs ≡ true

  abbrev pub IsProven : List (Act F V) → Type 0
  IsProven [] = Unit {0}
  IsProven (observed graph ∷ log) = IsProven log
  IsProven (created cookie name owner made ∷ log) = IsProven log
  IsProven (adopted name id mix ∷ log) = IsProven log
  IsProven (unloaded made ∷ log) = UnloadProof made log × IsProven log
  IsProven (destroyed id ∷ log) = DestroyProof id log × IsProven log
  IsProven (moved_to graph stream target ∷ log) = MoveProof graph stream target log × IsProven log

  -- The mixer has created the sink itself.
  abbrev pub Made : List (Act F V) → String × OwnedSink → Type 0
  Made log e = In (created e.1.cookie e.0 e.1.owner e.1.module_id) log

  -- The mixer has adopted the sink under this definition.
  abbrev pub Adopted : List (Act F V) → String × PersistentSink V → Type 0
  Adopted log e = In (adopted e.0 e.1.identity e.1.definition) log

  pub Adopted-still :
      (log : List (Act F V)) (new : Act F V) (l : Dict String (PersistentSink V))
      → All (Adopted log) l
      → All (Adopted (new ∷ log)) l
  Adopted-still log new l h = All-weaken (Adopted log) (Adopted (new ∷ log)) l (λ e i. later i) h

  pub record IsHonest {W : Type 0} (s : Reconciler W F V) : Type 0 where
    pub owns : All (Made s.log) s.sinks
    pub keeps : All (Adopted s.log) s.persistent
    pub leaves : All (Adopted s.log) s.removed
    pub proven : IsProven s.log

  pub record Leads {W : Type 0} (s t : Reconciler W F V) : Type 0 where
    pub honest : IsHonest s → IsHonest t
    pub kept : (a : Act F V) → In a s.log → In a t.log

  pub record Latest (graph : GraphSnapshot F V) (log : List (Act F V)) : Type 0 where
    pub rest : List (Act F V)
    pub is : log ≡ observed graph ∷ rest

  module _ {W : Type 0} where
    pub Leads-refl : (s : Reconciler W F V) → Leads s s
    Leads-refl s = record { honest = λ h. h; kept = λ a i. i }

    pub Leads-trans : {s t u : Reconciler W F V} → Leads s t → Leads t u → Leads s u
    Leads-trans p q = record {
      honest = λ h. q.honest (p.honest h);
      kept = λ a i. q.kept a (p.kept a i);
    }

    pub continue-Leads :
        {A B : Type 0} (s : Reconciler W F V) (p : Result A × Reconciler W F V)
        (f : A → Action (Reconciler W F V) B)
        → Leads s p.1
        → ((x : A) → p.0 ≡ ok x → Leads p.1 (f x p.1).1)
        → Leads s (continue p f).1
    continue-Leads s (err e, t) f h k = h
    continue-Leads s (ok x, t) f h k = Leads-trans h (k x refl)

    pub complain-Leads :
        (target message : String) (s : Reconciler W F V) → Leads s (complain target message s).1
    unfolding complain
    complain-Leads target message s = record {
      honest = λ h. record { owns = h.owns; keeps = h.keeps; leaves = h.leaves; proven = h.proven };
      kept = λ a i. i;
    }

    pub forget_removed-Leads :
        (name : String) (s : Reconciler W F V) → Leads s (forget_removed name s).1
    unfolding forget_removed
    forget_removed-Leads name s = record {
      honest = λ h. record {
        owns = h.owns;
        keeps = h.keeps;
        leaves = All-remove (Adopted s.log) name s.removed h.leaves;
        proven = h.proven;
      };
      kept = λ a i. i;
    }

    pub forget_persistent-Leads :
        (name : String) (s : Reconciler W F V) → Leads s (forget_persistent name s).1
    unfolding forget_persistent
    forget_persistent-Leads name s = record {
      honest = λ h. record {
        owns = h.owns;
        keeps = All-remove (Adopted s.log) name s.persistent h.keeps;
        leaves = All-remove (Adopted s.log) name s.removed h.leaves;
        proven = h.proven;
      };
      kept = λ a i. i;
    }

    pub forget_sink-Leads : (name : String) (s : Reconciler W F V) → Leads s (forget_sink name s).1
    unfolding forget_sink
    forget_sink-Leads name s = record {
      honest = λ h. record {
        owns = All-remove (Made s.log) name s.sinks h.owns;
        keeps = h.keeps;
        leaves = h.leaves;
        proven = h.proven;
      };
      kept = λ a i. i;
    }

    -- What is entered in the log, with the proof that it wants.
    pub entered :
        (s : Reconciler W F V) (w : W) (new : Act F V)
        → (IsHonest s → IsProven (new ∷ s.log))
        → Leads s (record s { world = w; log = new ∷ s.log })
    entered s w new p = record {
      honest = λ h. record {
        owns = All-weaken (Made s.log) (Made (new ∷ s.log)) s.sinks (λ e i. later i) h.owns;
        keeps = Adopted-still s.log new s.persistent h.keeps;
        leaves = Adopted-still s.log new s.removed h.leaves;
        proven = p h;
      };
      kept = λ a i. later i;
    }
