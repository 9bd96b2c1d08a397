-- ===== src/Mixer/Ensure.antt =====
-- crates/openwave-runtime/src/mixer.rs: `ensure_sink`.
use openwave.Prelude.{
  ℕ, String, Bool, true, false, not, ◌&&◌, Option, none, some, ◌∷◌, ◌==◌, ltb, if◌then◌else◌,
  nat_instance, string_instance,
}
use Prim.Native.String.{◌++◌ as append}
use openwave.Prelude.Dict.{get, insert, remove, modify}
use openwave.Prelude.Action.{Action}
use openwave.Prelude.Json.{Json}
use openwave.Model.{identity_eq, identity, unavailable, Result, ok, err, fail}
use openwave.Matrix.{Mix}
use openwave.Mixer.Graph.{
  GraphNode, GraphSnapshot, node, is_named, is_some, is_text, is_number, definition_matches,
}
use openwave.Mixer.Sinks.{
  OwnedSink, PersistentSink, created, adopted, Backend, Reconciler, missed, seen,
}

module _ (js : Json) (backend : Backend js) (token : String → String → String → String) where
  open js use {V}
  open backend use {World, F}

  abbrev St : Type 0
  St = Reconciler World F V

  abbrev pub note_created : String → String → ℕ → Result ℕ × World → St → Result Bool × St
  note_created name owner cookie (err e, w) s = (err e, record s { world = w })
  note_created name owner cookie (ok made, w) s = (
    ok false,
    record s {
      world = w;
      sinks =
          insert name (record { cookie = cookie; module_id = made; owner = owner; missing = 0 })
            s.sinks;
      log = created cookie name owner made ∷ s.log;
    },
  )

  unfoldable pub create : ℕ → String → String → Action St Bool
  create cookie name description s =
      let (owner, w) = backend.new_owner s.world in
      note_created name owner cookie (backend.create_sink name description owner w) s

  -- The sink carries the owner and the module of the handle.
  abbrev pub is_ours : GraphSnapshot F V → GraphNode V → OwnedSink → Bool
  is_ours graph n handle =
      handle.cookie == graph.cookie
      && is_text js n.properties "openwave.owner" handle.owner
      && is_number js n.properties "pulse.module.id" handle.module_id

  abbrev pub is_known : Option (PersistentSink V) → GraphNode V → Bool
  is_known none n = false
  is_known (some evidence) n =
      identity_eq evidence.identity n.identity && definition_matches js token n evidence.definition

  abbrev unproven : {A : Type 0} → String → Result A
  unproven name = fail identity (
      append "Unproven existing sink " (
        append name
          "; generated configuration has been refreshed. Restart the audio session explicitly to load it."))

  abbrev pub adopt : String → Option (Mix V) → GraphNode V → Action St Bool
  adopt name none n s = (unproven name, s)
  adopt name (some mix) n s =
      if is_known (get name s.persistent) n
      then (ok true, s)
      else if definition_matches js token n mix
      then (
        ok true,
        record s {
          persistent =
              insert name (record { identity = n.identity; definition = mix }) s.persistent;
          log = adopted name n.identity mix ∷ s.log;
        },
      )
      else (unproven name, s)

  abbrev pub claim_found :
      GraphSnapshot F V → String → Option (Mix V) → GraphNode V → Option OwnedSink → Action St Bool
  claim_found graph name mix n none s = adopt name mix n s
  claim_found graph name mix n (some handle) s =
      if is_ours graph n handle
      then (ok true, record s { sinks = modify name seen s.sinks })
      else (fail identity (append "Foreign sink occupies " name), s)

  abbrev pub wait_or_create : ℕ → String → String → Option OwnedSink → Action St Bool
  wait_or_create cookie name description none s = create cookie name description s
  wait_or_create cookie name description (some handle) s =
      if ltb (missed handle).missing 3
      then (ok false, record s { sinks = modify name missed s.sinks })
      else create cookie name description (record s { sinks = remove name s.sinks })

  abbrev pub ensure_found :
      GraphSnapshot F V → String → String → Option (Mix V) → Option (GraphNode V) → Action St Bool
  ensure_found graph name description mix (some n) s =
      if not (is_some (get name graph.sinks))
      then (fail unavailable (append "Sink " (append name " is not available to Pulse")), s)
      else claim_found graph name mix n (get name s.sinks) s
  ensure_found graph name description mix none s =
      if is_named graph name
      then (fail identity (append "Ambiguous sink name " name), s)
      else wait_or_create graph.cookie name description (get name s.sinks) s

  unfoldable pub ensure_sink : GraphSnapshot F V → String → String → Option (Mix V) → Action St Bool
  unfolding create
  ensure_sink graph name description mix = ensure_found graph name description mix (node graph name)
