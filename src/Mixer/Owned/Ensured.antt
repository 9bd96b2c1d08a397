-- ===== src/Mixer/Owned/Ensured.antt =====
-- `ensure_sink` of crates/openwave-runtime/src/mixer.rs remembers only sinks that it created.
use openwave.Prelude.{
  ℕ, String, Bool, not, Option, none, some, ◌∷◌, refl, All, ltb, nat_instance, string_instance,
}
use openwave.Prelude.Search.{here, later}
use openwave.Prelude.Entries.{All-weaken, All-remove, All-insert, All-modify}
use openwave.Prelude.Dict.{Dict, get, insert, remove, modify}
use openwave.Prelude.Action.{Action}
use openwave.Prelude.Json.{Json}
use openwave.Model.{NodeIdentity, Result, ok, err}
use openwave.Matrix.{Mix}
use openwave.Mixer.Graph.{GraphNode, GraphSnapshot, node, is_named, is_some, definition_matches}
use openwave.Mixer.Sinks.{OwnedSink, Act, created, adopted, Backend, Reconciler, seen, missed}
use openwave.Mixer.Owned.{Made, Adopted, Adopted-still, Leads, Leads-refl, Leads-trans}
use openwave.Prelude.{either}
use openwave.Mixer.Ensure.{
  note_created, create, is_ours, is_known, adopt, claim_found, wait_or_create, ensure_found,
  ensure_sink,
}

module _ (js : Json) (backend : Backend js) (token : String → String → String → String) where
  open js use {V}
  open backend use {World, F}

  abbrev St : Type 0
  St = Reconciler World F V

  abbrev Leading : {A : Type 0} → Action St A → St → Type 0
  Leading a s = Leads js F token s (a s).1

  abbrev Ends : St → Result Bool × St → Type 0
  Ends s q = Leads js F token s q.1

  remembered :
      (s : St) (w : World) (sinks : Dict String OwnedSink)
      → (All (Made js F token s.log) s.sinks → All (Made js F token s.log) sinks)
      → Leads js F token s (record s { world = w; sinks = sinks })
  remembered s w sinks f = record {
    honest = λ h. record { owns = f h.owns; keeps = h.keeps; leaves = h.leaves; proven = h.proven };
    kept = λ a i. i;
  }

  note_created-Leads :
      (name owner : String) (cookie : ℕ) (p : Result ℕ × World) (s : St)
      → Leads js F token s (note_created js backend token name owner cookie p s).1
  note_created-Leads name owner cookie (err e, w) s = remembered s w s.sinks (λ h. h)
  note_created-Leads name owner cookie (ok made, w) s =
      let new : Act F V = created cookie name owner made in
      record {
        honest = λ h. record {
          owns =
              All-insert (Made js F token (new ∷ s.log)) name
                (record { cookie = cookie; module_id = made; owner = owner; missing = 0 }) s.sinks
                (here refl)
                (All-weaken (Made js F token s.log) (Made js F token (new ∷ s.log)) s.sinks
                  (λ e i. later i) h.owns);
          keeps = Adopted-still js F token s.log new s.persistent h.keeps;
          leaves = Adopted-still js F token s.log new s.removed h.leaves;
          proven = h.proven;
        };
        kept = λ a i. later i;
      }

  create-Leads :
      (cookie : ℕ) (name description : String) (s : St)
      → Leading (create js backend token cookie name description) s
  unfolding create
  create-Leads cookie name description s =
      let (owner, w) = backend.new_owner s.world in
      note_created-Leads name owner cookie (backend.create_sink name description owner w) s

  adopted-Leads :
      (name : String) (id : NodeIdentity) (mix : Mix V) (s : St)
      → Leads js F token s (record s {
        persistent = insert name (record { identity = id; definition = mix }) s.persistent;
        log = adopted name id mix ∷ s.log;
      })
  adopted-Leads name id mix s =
      let new : Act F V = adopted name id mix in
      record {
        honest = λ h. record {
          owns =
              All-weaken (Made js F token s.log) (Made js F token (new ∷ s.log)) s.sinks
                (λ e i. later i) h.owns;
          keeps =
              All-insert (Adopted js F token (new ∷ s.log)) name
                (record { identity = id; definition = mix }) s.persistent (here refl)
                (Adopted-still js F token s.log new s.persistent h.keeps);
          leaves = Adopted-still js F token s.log new s.removed h.leaves;
          proven = h.proven;
        };
        kept = λ a i. later i;
      }

  adopt-Leads :
      (name : String) (mix : Option (Mix V)) (n : GraphNode V) (s : St)
      → Leading (adopt js backend token name mix n) s
  adopt-Leads name none n s = Leads-refl js F token s
  adopt-Leads name (some mix) n s =
      either (Ends s) (is_known js backend token (get name s.persistent) n)
        (λ d. Leads-refl js F token s)
        (λ d.
          either (Ends s) (definition_matches js token n mix)
            (λ f. adopted-Leads name n.identity mix s) (λ f. Leads-refl js F token s))

  modify-Leads :
      (name : String) (f : OwnedSink → OwnedSink) (s : St)
      → ((j : String) (w : OwnedSink)
          → Made js F token s.log (j, w)
          → Made js F token s.log (j, f w))
      → Leads js F token s (record s { sinks = modify name f s.sinks })
  modify-Leads name f s k =
      remembered s s.world (modify name f s.sinks)
        (All-modify (Made js F token s.log) name f s.sinks k)

  claim_found-Leads :
      (graph : GraphSnapshot F V) (name : String) (mix : Option (Mix V)) (n : GraphNode V)
      (handle : Option OwnedSink) (s : St)
      → Leading (claim_found js backend token graph name mix n handle) s
  claim_found-Leads graph name mix n none s = adopt-Leads name mix n s
  claim_found-Leads graph name mix n (some handle) s =
      either (Ends s) (is_ours js backend token graph n handle)
        (λ d. modify-Leads name seen s (λ j w m. m)) (λ d. Leads-refl js F token s)

  wait_or_create-Leads :
      (cookie : ℕ) (name description : String) (handle : Option OwnedSink) (s : St)
      → Leading (wait_or_create js backend token cookie name description handle) s
  wait_or_create-Leads cookie name description none s = create-Leads cookie name description s
  wait_or_create-Leads cookie name description (some handle) s =
      either (Ends s) (ltb (missed handle).missing 3) (λ d. modify-Leads name missed s (λ j w m. m))
        (λ d.
          Leads-trans js F token
            (remembered s s.world (remove name s.sinks)
              (All-remove (Made js F token s.log) name s.sinks))
            (create-Leads cookie name description (record s { sinks = remove name s.sinks })))

  ensure_found-Leads :
      (graph : GraphSnapshot F V) (name description : String) (mix : Option (Mix V))
      (found : Option (GraphNode V)) (s : St)
      → Leading (ensure_found js backend token graph name description mix found) s
  ensure_found-Leads graph name description mix none s =
      either (Ends s) (is_named graph name) (λ d. Leads-refl js F token s)
        (λ d. wait_or_create-Leads graph.cookie name description (get name s.sinks) s)
  ensure_found-Leads graph name description mix (some n) s =
      either (Ends s) (not (is_some (get name graph.sinks))) (λ d. Leads-refl js F token s)
        (λ d. claim_found-Leads graph name mix n (get name s.sinks) s)

  pub ensure_sink-Leads :
      (graph : GraphSnapshot F V) (name description : String) (mix : Option (Mix V)) (s : St)
      → Leading (ensure_sink js backend token graph name description mix) s
  unfolding ensure_sink
  ensure_sink-Leads graph name description mix s =
      ensure_found-Leads graph name description mix (node graph name) s
