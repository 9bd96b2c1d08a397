-- ===== src/Recovery/Steps/Quiet.antt =====
-- The steps of crates/openwave-runtime/src/recovery.rs that only look: they change neither what is
-- pending nor what the log says is owed.
use openwave.Prelude.{String, Bool, true, false, List, [], ◌∷◌, ◌≡◌, refl, ◌∙◌, string_instance}
use openwave.Prelude.Json.{Json}
use openwave.Model.{Result, ok, err, NodeIdentity}
use openwave.Prelude.Action.{Action, continue, ◌>>=◌, lift}
use openwave.Recovery.Session.{Commands, Session, call, pause, check_cancel, json_command, listing}
use openwave.Recovery.Steps.{
  read_graph, validate_node, validate_sink, resolve_card, require_clear, wait_if,
}
use openwave.Recovery.Steps.Ledger.{Ledger, enter, replay}

pub record Same {W : Type 0} (s t : Session W) : Type 0 where
  pub pending : t.pending ≡ s.pending
  pub owed : replay t.log ≡ replay s.log

pub record Quiet {W A : Type 0} (a : Action (Session W) A) : Type 0 where
  pub at : (s : Session W) → Same s (a s).1

Same-trans : {W : Type 0} {s t u : Session W} → Same s t → Same t u → Same s u
Same-trans p q = record { pending = q.pending ∙ p.pending; owed = q.owed ∙ p.owed }

continue-Same :
    {W A B : Type 0} (s : Session W) (p : Result A × Session W) (f : A → Action (Session W) B)
    → Same s p.1
    → ((x : A) → Quiet (f x))
    → Same s (continue p f).1
continue-Same s (err e, t) f h k = h
continue-Same s (ok x, t) f h k = Same-trans h ((k x).at t)

pub Quiet-bind :
    {W A B : Type 0} {a : Action (Session W) A} {f : A → Action (Session W) B}
    → Quiet a
    → ((x : A) → Quiet (f x))
    → Quiet (a >>= f)
unfolding ◌>>=◌
Quiet-bind {a} {f} h k = record { at = λ s. continue-Same s (a s) f (h.at s) k }

pub Quiet-lift : {W A : Type 0} (r : Result A) → Quiet {W = W} (lift r)
unfolding lift
Quiet-lift r = record { at = λ s. record { pending = refl; owed = refl } }

module _ (js : Json) (cs : Commands js) where
  -- A command that pactl is not asked, or that has no effect on the ledger.
  pub Quiet-call :
      (program : String) (args : List String) (restoration : Bool)
      → ((l : Ledger) (b : Bool)
          → enter
              (record { program = program; args = args; restoration = restoration; succeeded = b })
              l
            ≡ l)
      → Quiet (call js cs program args restoration)
  unfolding call replay
  Quiet-call program args restoration h = record {
    at = λ s. record { pending = refl; owed = h (replay s.log) _ };
  }

  pub Quiet-check_cancel : Quiet (check_cancel js cs)
  unfolding check_cancel
  Quiet-check_cancel = record { at = λ s. record { pending = refl; owed = refl } }

  Quiet-json_command :
      (program : String) (args : List String) (restoration : Bool)
      → ((l : Ledger) (b : Bool)
          → enter
              (record { program = program; args = args; restoration = restoration; succeeded = b })
              l
            ≡ l)
      → Quiet (json_command js cs program args restoration)
  unfolding json_command
  Quiet-json_command program args restoration h =
      Quiet-bind (Quiet-call program args restoration h) (λ output. Quiet-lift _)

  pub Quiet-listing : (kind : String) (restoration : Bool) → Quiet (listing js cs kind restoration)
  unfolding listing
  Quiet-listing kind restoration =
      Quiet-bind
        (Quiet-json_command "pactl" ("--format=json" ∷ "list" ∷ kind ∷ []) restoration
          (λ l b. refl))
        (λ value. Quiet-lift _)

  pub Quiet-read_graph : (restoration : Bool) → Quiet (read_graph js cs restoration)
  unfolding read_graph
  Quiet-read_graph restoration =
      Quiet-bind (Quiet-json_command "pw-dump" [] restoration (λ l b. refl))
        (λ graph. search (Quiet-bind, Quiet-lift))

  pub Quiet-validate_node :
      (name : String) (wanted : NodeIdentity) (restoration : Bool)
      → Quiet (validate_node js cs name wanted restoration)
  unfolding validate_node
  Quiet-validate_node name wanted restoration = search (Quiet-bind, Quiet-lift, Quiet-read_graph)

  pub Quiet-validate_sink :
      (name : String) (wanted : NodeIdentity) (restoration : Bool)
      → Quiet (validate_sink js cs name wanted restoration)
  unfolding validate_sink
  Quiet-validate_sink name wanted restoration =
      search (Quiet-bind, Quiet-lift, Quiet-listing, Quiet-validate_node)

  pub Quiet-resolve_card :
      (name : String) (wanted : NodeIdentity) → Quiet (resolve_card js cs name wanted)
  unfolding resolve_card
  Quiet-resolve_card name wanted =
      search (Quiet-bind, Quiet-lift, Quiet-listing, Quiet-validate_node) depth 20

  pub Quiet-require_clear : Quiet (require_clear js cs)
  unfolding require_clear
  Quiet-require_clear = record { at = λ s. record { pending = refl; owed = refl } }

  pub Quiet-wait_if : (b : Bool) → Quiet (wait_if js cs b)
  unfolding wait_if pause
  Quiet-wait_if true = record { at = λ s. record { pending = refl; owed = refl } }
  Quiet-wait_if false = Quiet-lift (ok tt)
