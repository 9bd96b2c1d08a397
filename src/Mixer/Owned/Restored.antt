-- ===== src/Mixer/Owned/Restored.antt =====
-- `restore_streams` of crates/openwave-runtime/src/mixer.rs moves streams only off the mixer's own
-- sinks, and only to outputs that are not the mixer's.
use openwave.Prelude.{
  String, true, Option, none, some, List, [], ◌∷◌, ◌≡◌, refl, arith, nat_eq_iff, nat_instance,
  string_instance,
}
use openwave.Prelude.Action.{Action}
use openwave.Prelude.Json.{Json}
use openwave.Model.{identity_eq, Result, ok, err}
use openwave.Mixer.Graph.{GraphSnapshot, is_some}
use openwave.Mixer.Sinks.{OwnedSink, Backend, Reconciler}
use openwave.Mixer.Owned.{Made, IsHonest, Leads, Leads-refl, Leads-trans, complain-Leads, entered}
use openwave.Prelude.{either}
use openwave.Prelude.Dict.{Dict, get}
use openwave.Prelude.{find?, sym, subst, refl}
use openwave.Model.{NodeIdentity, identity_instance}
use openwave.Sources.{StreamSnapshot}
use openwave.Prelude.Search.{In, find?-In}
use openwave.Prelude.Entries.{All-get}
use openwave.Mixer.Sinks.{created, moved_to}
use openwave.Mixer.Owned.{MoveProof}
use openwave.Mixer.Restore.{
  intake_of, target_of, candidates, forget_move, note_move, move, is_proven, restore_from,
  restore_found, restore_one, restore_all, restore_streams, no_target,
}
use openwave.Mixer.Owned.Targets.{target_of-Outside, both}

module _ (js : Json) (backend : Backend js) (token : String → String → String → String) where
  open js use {V}
  open backend use {World, F}

  abbrev St : Type 0
  St = Reconciler World F V

  abbrev Leading : {A : Type 0} → Action St A → St → Type 0
  Leading a s = Leads js F token s (a s).1

  abbrev Moves : St → List String × St → Type 0
  Moves s q = Leads js F token s q.1

  forget_move-Moves :
      (id : NodeIdentity) (retained : List String) (s : St)
      → Moves s (forget_move js backend id retained s)
  forget_move-Moves id retained s = record {
    honest = λ h. record { owns = h.owns; keeps = h.keeps; leaves = h.leaves; proven = h.proven };
    kept = λ a i. i;
  }

  note_move-Moves :
      (stream : StreamSnapshot) (intake : String) (retained : List String) (r : Result (Unit {0}))
      (s : St)
      → Moves s (note_move js backend stream intake retained r s)
  note_move-Moves stream intake retained (ok u) s = forget_move-Moves stream.identity retained s
  note_move-Moves stream intake retained (err e) s = complain-Leads js F token _ _ s

  move-Moves :
      (graph : GraphSnapshot F V) (stream : StreamSnapshot) (intake : String)
      (target : Option String) (retained : List String) (s : St)
      → ((t : String)
          → target ≡ some t
          → IsHonest js F token s
          → MoveProof js F token graph stream t s.log)
      → Moves s (move js backend graph stream intake target retained s)
  unfolding move
  move-Moves graph stream intake none retained s k =
      note_move-Moves stream intake retained (err (no_target stream.app_name)) s
  move-Moves graph stream intake (some target) retained s k =
      let r = backend.move_stream stream target s.world in
      Leads-trans js F token
        (entered js F token s r.1 (moved_to graph stream target) (λ h. (k target refl h, h.proven)))
        (note_move-Moves stream intake retained r.0
          (record s { world = r.1; log = moved_to graph stream target ∷ s.log }))

  intake_of-some :
      (sinks : Dict String OwnedSink) (kept : List String) (sink : Option String) (intake : String)
      → intake_of sinks kept sink ≡ some intake
      → sink ≡ some intake
  intake_of-some sinks kept none intake h = absurd (cc)
  intake_of-some sinks kept (some sink) intake h = ground (arith, h)

  proven_move :
      (graph : GraphSnapshot F V) (original : Option String) (stream : StreamSnapshot)
      (intake : String) (found : Option OwnedSink) (retained : List String) (s : St)
      → get intake s.sinks ≡ found
      → is_proven js backend graph intake found ≡ true
      → In stream graph.streams
      → stream.sink ≡ some intake
      → Moves s (move js backend graph stream intake (target_of graph original) retained s)
  proven_move graph original stream intake none retained s e p i on = ground (arith, p)
  proven_move graph original stream intake (some handle) retained s e p i on =
      move-Moves graph stream intake (target_of graph original) retained s (λ t h v.
        let outside = target_of-Outside graph original t h in
        record {
          listed = i;
          intake = intake;
          on = on;
          owner = handle.owner;
          made = handle.module_id;
          ours =
              subst (λ c. In (created c intake handle.owner handle.module_id) s.log)
                (sym ((nat_eq_iff graph.cookie handle.cookie).0 (both _ _ p).0))
                (All-get (Made js F token s.log) intake handle s.sinks v.owns e);
          marked = (both _ _ p).1;
          foreign = outside.foreign;
          reachable = outside.reachable;
        })

  restore_from-Moves :
      (graph : GraphSnapshot F V) (original : Option String) (stream : StreamSnapshot)
      (kept : List String) (intake : Option String) (retained : List String) (s : St)
      → intake_of s.sinks kept stream.sink ≡ intake
      → In stream graph.streams
      → Moves s (restore_from js backend graph original stream intake retained s)
  restore_from-Moves graph original stream kept none retained s e i =
      forget_move-Moves stream.identity retained s
  restore_from-Moves graph original stream kept (some intake) retained s e i =
      either (Moves s) (is_proven js backend graph intake (get intake s.sinks))
        (λ p.
          proven_move graph original stream intake (get intake s.sinks) retained s refl p i
            (intake_of-some s.sinks kept stream.sink intake e))
        (λ p. complain-Leads js F token _ _ s)

  restore_found-Moves :
      (graph : GraphSnapshot F V) (kept : List String) (id : NodeIdentity)
      (original : Option String) (found : Option StreamSnapshot) (retained : List String) (s : St)
      → find? (λ t. identity_eq t.identity id) graph.streams ≡ found
      → Moves s (restore_found js backend graph kept id original found retained s)
  restore_found-Moves graph kept id original none retained s e = forget_move-Moves id retained s
  restore_found-Moves graph kept id original (some stream) retained s e =
      restore_from-Moves graph original stream kept (intake_of s.sinks kept stream.sink) retained s
        refl (find?-In (λ t. identity_eq t.identity id) graph.streams stream e).0

  restore_one-Moves :
      (graph : GraphSnapshot F V) (wanted : Dict NodeIdentity String) (kept : List String)
      (id : NodeIdentity) (original : Option String) (retained : List String) (s : St)
      → Moves s (restore_one js backend graph wanted kept id original retained s)
  unfolding restore_one
  restore_one-Moves graph wanted kept id original retained s =
      either (Moves s) (is_some (get id wanted)) (λ e. Leads-refl js F token s)
        (λ e. restore_found-Moves graph kept id original _ retained s refl)

  restore_all-Moves :
      (graph : GraphSnapshot F V) (wanted : Dict NodeIdentity String) (kept : List String)
      (l : Dict NodeIdentity (Option String)) (retained : List String) (s : St)
      → Moves s (restore_all js backend graph wanted kept l retained s)
  unfolding restore_all
  restore_all-Moves graph wanted kept [] retained s = Leads-refl js F token s
  restore_all-Moves graph wanted kept ((id, original) ∷ l) retained s =
      let one = restore_one js backend graph wanted kept id original retained s in
      Leads-trans js F token (restore_one-Moves graph wanted kept id original retained s)
        (restore_all-Moves graph wanted kept l one.0 one.1)

  pub restore_streams-Moves :
      (graph : GraphSnapshot F V) (wanted : Dict NodeIdentity String) (kept : List String) (s : St)
      → Leads js F token s (restore_streams js backend graph wanted kept s).1
  unfolding restore_streams
  restore_streams-Moves graph wanted kept s =
      restore_all-Moves graph wanted kept (candidates js backend graph kept s) [] s
