-- ===== src/Recovery/Steps/Payment.antt =====
-- The restoring steps of crates/openwave-runtime/src/recovery.rs end the debt that they are for.
use openwave.Prelude.{
  String, Bool, true, false, some, List, [], ◌∷◌, ◌==◌, ◌≡◌, refl, sym, ◌∙◌, ap, beq_refl,
  string_instance, if◌then◌else◌,
}
use openwave.Prelude.Json.{Json}
use openwave.Model.{Result, ok, err, NodeIdentity}
use openwave.Recovery.Discovery.{CardTarget}
use openwave.Prelude.Action.{Action, continue, is_ok, ◌>>=◌, lift}
use openwave.Recovery.Session.{Commands, Obligation, card, sink, Session, call}
use openwave.Recovery.Steps.{command, restore_card, resume}
use openwave.Recovery.Steps.Ledger.{Ledger, clear, effect, replay, debt_of, Restorable}
use openwave.Recovery.Steps.Quiet.{
  Same, Quiet, Quiet-lift, Quiet-listing, Quiet-read_graph, Quiet-validate_sink,
}

abbrev pub paid : {A : Type 0} → Result A → Obligation → Ledger
paid r debt = if is_ok r then clear else debt_of (some debt)

-- An action that ends the debt when it succeeds, and leaves it when it fails.
pub record Pays {W : Type 0} (debt : Obligation) (a : Action (Session W) (Unit {0})) : Type 0 where
  pub pending : (s : Session W) → (a s).1.pending ≡ s.pending
  pub ledger :
      (s : Session W) → replay s.log ≡ debt_of (some debt) → replay (a s).1.log ≡ paid (a s).0 debt

continue-pending :
    {W A : Type 0} (debt : Obligation) (s : Session W) (p : Result A × Session W)
    (f : A → Action (Session W) (Unit {0}))
    → Same s p.1
    → ((x : A) → Pays debt (f x))
    → (continue p f).1.pending ≡ s.pending
continue-pending debt s (err e, t) f h k = h.pending
continue-pending debt s (ok x, t) f h k = (k x).pending t ∙ h.pending

continue-ledger :
    {W A : Type 0} (debt : Obligation) (s : Session W) (p : Result A × Session W)
    (f : A → Action (Session W) (Unit {0}))
    → Same s p.1
    → ((x : A) → Pays debt (f x))
    → replay s.log ≡ debt_of (some debt)
    → replay (continue p f).1.log ≡ paid (continue p f).0 debt
continue-ledger debt s (err e, t) f h k r = h.owed ∙ r
continue-ledger debt s (ok x, t) f h k r = (k x).ledger t (h.owed ∙ r)

Pays-bind :
    {W A : Type 0} {debt : Obligation} {a : Action (Session W) A}
    {f : A → Action (Session W) (Unit {0})}
    → Quiet a
    → ((x : A) → Pays debt (f x))
    → Pays debt (a >>= f)
unfolding ◌>>=◌
Pays-bind {debt} {a} {f} h k = record {
  pending = λ s. continue-pending debt s (a s) f (h.at s) k;
  ledger = λ s. continue-ledger debt s (a s) f (h.at s) k;
}

drop-state :
    {W A : Type 0} (p : Result A × Session W)
    → (continue {B = Unit {0}} p (λ x. lift (ok tt))).1 ≡ p.1
unfolding lift
drop-state (ok x, s) = refl
drop-state (err e, s) = refl

drop-is_ok :
    {W A : Type 0} (p : Result A × Session W)
    → is_ok (continue {B = Unit {0}} p (λ x. lift (ok tt))).0 ≡ is_ok p.0
unfolding lift
drop-is_ok (ok x, s) = refl
drop-is_ok (err e, s) = refl

paid_eq :
    {A B : Type 0} (r : Result A) (q : Result B) (debt : Obligation)
    → is_ok r ≡ is_ok q
    → paid r debt ≡ paid q debt
paid_eq r q debt h = ap (λ b. if b then clear else debt_of (some debt)) h

module _ (js : Json) (cs : Commands js) where
  open cs use {World}

  command-state :
      (args : List String) (restoration : Bool) (s : Session World)
      → (command js cs args restoration s).1 ≡ (call js cs "pactl" args restoration s).1
  unfolding command ◌>>=◌
  command-state args restoration s = drop-state (call js cs "pactl" args restoration s)

  command-is_ok :
      (args : List String) (restoration : Bool) (s : Session World)
      → is_ok (command js cs args restoration s).0 ≡ is_ok (call js cs "pactl" args restoration s).0
  unfolding command ◌>>=◌
  command-is_ok args restoration s = drop-is_ok (call js cs "pactl" args restoration s)

  pub command-pending :
      (args : List String) (restoration : Bool) (s : Session World)
      → (command js cs args restoration s).1.pending ≡ s.pending
  unfolding call
  command-pending args restoration s = ap (λ t. t.pending) (command-state args restoration s)

  pub command-replay :
      (args : List String) (restoration : Bool) (s : Session World)
      → replay (command js cs args restoration s).1.log
        ≡ effect args (is_ok (command js cs args restoration s).0) (replay s.log)
  unfolding call replay
  command-replay args restoration s =
      ap (λ t. replay t.log) (command-state args restoration s)
      ∙ ap (λ b. effect args b (replay s.log)) (sym (command-is_ok args restoration s))

  -- The command that restores a card ends its debt.
  Pays-profile :
      (target : CardTarget)
      → (target.profile == "off") ≡ false
      → Pays
          (card target)
          (command js cs ("set-card-profile" ∷ target.name ∷ target.profile ∷ []) true)
  Pays-profile target h = record {
    pending = command-pending ("set-card-profile" ∷ target.name ∷ target.profile ∷ []) true;
    ledger = λ s r.
        command-replay ("set-card-profile" ∷ target.name ∷ target.profile ∷ []) true s
        ∙ rw (r, h, beq_refl target.name) refl;
  }

  Pays-resume :
      (name : String) (wanted : NodeIdentity)
      → Pays (sink name wanted) (command js cs ("suspend-sink" ∷ name ∷ "0" ∷ []) true)
  Pays-resume name wanted = record {
    pending = command-pending ("suspend-sink" ∷ name ∷ "0" ∷ []) true;
    ledger = λ s r.
        command-replay ("suspend-sink" ∷ name ∷ "0" ∷ []) true s ∙ rw (r, beq_refl name) refl;
  }

  pub resume-Pays : (debt : Obligation) → Restorable (some debt) → Pays debt (resume js cs debt)
  unfolding resume restore_card
  resume-Pays (card target) h =
      search (Pays-bind, Quiet-lift, Quiet-listing, Quiet-read_graph, Pays-profile target h) depth
        20
  resume-Pays (sink name wanted) h = search (Pays-bind, Quiet-validate_sink, Pays-resume) depth 20
