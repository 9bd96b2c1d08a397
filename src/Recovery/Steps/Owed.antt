-- ===== src/Recovery/Steps/Owed.antt =====
-- What is pending in crates/openwave-runtime/src/recovery.rs is what the log of commands says is
-- owed, after every operation.
use openwave.Prelude.{
  String, Bool, false, Option, none, some, List, [], ◌∷◌, ◌==◌, ◌≡◌, refl, sym, ◌∙◌, ap,
  string_instance, if◌then◌else◌, subst, Option-cases,
}
use openwave.Prelude.Json.{Json}
use openwave.Prelude.{inl, inr}
use openwave.Model.{Result, ok, err, fail, NodeIdentity, unavailable}
use openwave.Recovery.Discovery.{CardTarget}
use openwave.Prelude.Action.{Action, continue, is_ok, ◌>>=◌, lift, outcome}
use openwave.Recovery.Session.{Commands, Obligation, card, sink, Session, describe}
use openwave.Recovery.Steps.{
  resolve_card, command, resume, settle, restore_pending, restore_with, is_pending, require_clear,
  owe, switch_off, cycle_card_with, wait_if, finish, suspend, recycle_sink_with,
}
use openwave.Recovery.Steps.Ledger.{clear, effect, replay, debt_of, Restorable, IsOwed}
use openwave.Recovery.Steps.Quiet.{
  Same, Quiet, Quiet-lift, Quiet-validate_sink, Quiet-resolve_card, Quiet-check_cancel,
  Quiet-require_clear, Quiet-wait_if,
}
use openwave.Recovery.Steps.Resolved.{resolve_card-restorable}
use openwave.Recovery.Steps.Payment.{paid, command-pending, command-replay, resume-Pays}

Same-IsOwed : {W : Type 0} {s t : Session W} → Same s t → IsOwed s → IsOwed t
Same-IsOwed {s} {t} h v = record {
  owed = h.owed ∙ v.owed ∙ ap debt_of (sym h.pending);
  restorable = subst Restorable (sym h.pending) v.restorable;
}

-- An action that keeps the account right.
record Keeps {W A : Type 0} (a : Action (Session W) A) : Type 0 where
  at : (s : Session W) → IsOwed s → IsOwed (a s).1

continue-IsOwed :
    {W A B : Type 0} (p : Result A × Session W) (f : A → Action (Session W) B)
    → IsOwed p.1
    → ((x : A) → Keeps (f x))
    → IsOwed (continue p f).1
continue-IsOwed (err e, t) f h k = h
continue-IsOwed (ok x, t) f h k = (k x).at t h

Keeps-bind :
    {W A B : Type 0} {a : Action (Session W) A} {f : A → Action (Session W) B}
    → Keeps a
    → ((x : A) → Keeps (f x))
    → Keeps (a >>= f)
unfolding ◌>>=◌
Keeps-bind {a} {f} h k = record { at = λ s v. continue-IsOwed (a s) f (h.at s v) k }

Quiet-Keeps : {W A : Type 0} {a : Action (Session W) A} → Quiet a → Keeps a
Quiet-Keeps {a} h = record { at = λ s v. Same-IsOwed (h.at s) v }

Keeps-outcome : {W A : Type 0} {a : Action (Session W) A} → Keeps a → Keeps (outcome a)
unfolding outcome
Keeps-outcome h = record { at = λ s v. h.at s v }

module _ (js : Json) (cs : Commands js) where
  open cs use {World}

  settle-IsOwed :
      (debt : Obligation) (r : Result (Unit {0})) (s : Session World)
      → Restorable (some debt)
      → s.pending ≡ some debt
      → replay s.log ≡ paid r debt
      → IsOwed (settle js cs (describe "Audio restoration remains owed: " r, s)).1
  settle-IsOwed debt (ok u) s h p e = record { owed = e; restorable = tt }
  settle-IsOwed debt (err x) s h p e = record {
    owed = e ∙ ap debt_of (sym p);
    restorable = subst Restorable (sym p) h;
  }

  restore_pending-IsOwed :
      (p : Option Obligation) (s : Session World)
      → s.pending ≡ p
      → IsOwed s
      → IsOwed (restore_pending js cs p s).1
  unfolding restore_pending
  restore_pending-IsOwed none s e v = v
  restore_pending-IsOwed (some debt) s e v =
      let h : Restorable (some debt) = subst Restorable e v.restorable in
      let pays = resume-Pays js cs debt h in
      settle-IsOwed debt (resume js cs debt s).0 (resume js cs debt s).1 h (pays.pending s ∙ e)
        (pays.ledger s (v.owed ∙ ap debt_of e))

  restore_with-Keeps : Keeps (restore_with js cs)
  unfolding restore_with
  restore_with-Keeps = record { at = λ s v. restore_pending-IsOwed s.pending s refl v }

  -- The first command of a remedy makes the debt that is pending by then.
  lent-IsOwed :
      (args : List String) (debt : Obligation) (s : Session World)
      → Restorable (some debt)
      → s.pending ≡ none
      → IsOwed s
      → ((b : Bool) → effect args b clear ≡ debt_of (some debt))
      → IsOwed (command js cs args false (owe js cs debt s).1).1
  unfolding owe
  lent-IsOwed args debt s h e v lends =
      let s' : Session World = record s { pending = some debt } in
      let p : (command js cs args false s').1.pending ≡ some debt =
        command-pending js cs args false s' in
      record {
        owed =
            command-replay js cs args false s'
            ∙ ap (effect args _) (v.owed ∙ ap debt_of e)
            ∙ lends _
            ∙ ap debt_of (sym p);
        restorable = subst Restorable (sym p) h;
      }

  -- What starts with nothing pending.
  record Begins {A : Type 0} (a : Action (Session World) A) : Type 0 where
    at : (s : Session World) → s.pending ≡ none → IsOwed s → IsOwed (a s).1

  switch_off-Begins :
      (target : CardTarget) → (target.profile == "off") ≡ false → Begins (switch_off js cs target)
  unfolding switch_off ◌>>=◌ outcome lift owe
  switch_off-Begins target h = record {
    at = λ s e v. restore_with-Keeps.at _ (
        lent-IsOwed ("set-card-profile" ∷ target.name ∷ "off" ∷ []) (card target) s h e v
          (λ b. refl));
  }

  Keeps-after :
      (changed : Result (Unit {0}))
      → Keeps (
          wait_if js cs (is_ok changed) >>= λ waited.
          outcome (restore_with js cs) >>= λ restored. lift (finish changed restored))
  Keeps-after changed = Keeps-bind (Quiet-Keeps (Quiet-wait_if js cs (is_ok changed))) (λ waited.
      Keeps-bind (Keeps-outcome restore_with-Keeps) (λ restored. Quiet-Keeps (Quiet-lift _)))

  suspend-Begins : (name : String) (wanted : NodeIdentity) → Begins (suspend js cs name wanted)
  unfolding suspend ◌>>=◌ outcome lift owe
  suspend-Begins name wanted = record {
    at = λ s e v.
        (Keeps-after _).at _
          (lent-IsOwed ("suspend-sink" ∷ name ∷ "1" ∷ []) (sink name wanted) s tt e v (λ b. refl));
  }

  continue-Begins :
      {A B : Type 0} (P : A → Type 0) (s : Session World) (p : Result A × Session World)
      (f : A → Action (Session World) B)
      → Same s p.1
      → ((x : A) → p.0 ≡ ok x → P x)
      → ((x : A) → P x → Begins (f x))
      → s.pending ≡ none
      → IsOwed s
      → IsOwed (continue p f).1
  continue-Begins P s (err x, t) f h q k e v = Same-IsOwed h v
  continue-Begins P s (ok x, t) f h q k e v =
      (k x (q x refl)).at t (h.pending ∙ e) (Same-IsOwed h v)

  Begins-bind :
      {A B : Type 0} {a : Action (Session World) A} {f : A → Action (Session World) B}
      → Quiet a
      → ((x : A) → Begins (f x))
      → Begins (a >>= f)
  unfolding ◌>>=◌
  Begins-bind {a} {f} h k = record {
    at = λ s e v. continue-Begins (λ x. Unit {0}) s (a s) f (h.at s) (λ x p. tt) (λ x u. k x) e v;
  }

  resolved-Begins :
      {B : Type 0} (name : String) (wanted : NodeIdentity)
      (f : CardTarget → Action (Session World) B)
      → ((t : CardTarget) → (t.profile == "off") ≡ false → Begins (f t))
      → Begins (resolve_card js cs name wanted >>= f)
  unfolding ◌>>=◌
  resolved-Begins name wanted f k = record {
    at = λ s e v.
        continue-Begins (λ t. (t.profile == "off") ≡ false) s (resolve_card js cs name wanted s) f
          ((Quiet-resolve_card js cs name wanted).at s)
          (resolve_card-restorable js cs name wanted s) k e v;
  }

  cycle_card-Begins :
      (name : String) (wanted : NodeIdentity) → Begins (cycle_card_with js cs name wanted)
  unfolding cycle_card_with
  cycle_card-Begins name wanted = Begins-bind (Quiet-require_clear js cs) (λ u.
      Begins-bind (Quiet-check_cancel js cs) (λ v. resolved-Begins name wanted _ (λ t h.
        Begins-bind (Quiet-resolve_card js cs name wanted) (λ again.
          Begins-bind (Quiet-lift _)
            (λ same. Begins-bind (Quiet-check_cancel js cs) (λ w. switch_off-Begins t h))))))

  recycle_sink-Begins :
      (name : String) (wanted : NodeIdentity) → Begins (recycle_sink_with js cs name wanted)
  unfolding recycle_sink_with
  recycle_sink-Begins name wanted =
      search
        (
          Begins-bind, Quiet-require_clear, Quiet-lift, Quiet-check_cancel, Quiet-validate_sink,
          suspend-Begins,
        )
        depth 20

  guarded-IsOwed :
      {B : Type 0} (f : Unit {0} → Action (Session World) B) (s : Session World)
      → Begins (require_clear js cs >>= f)
      → IsOwed s
      → IsOwed ((require_clear js cs >>= f) s).1
  unfolding ◌>>=◌ require_clear is_pending
  guarded-IsOwed f s h v = elim (Option-cases s.pending) [
    | inl e ↦ h.at s e v
    | inr (debt, e) ↦
        subst
          (λ b.
            IsOwed
              (continue
                (
                  if b
                      then fail unavailable
                          "Cannot begin recovery while audio restoration remains owed"
                      else ok tt,
                  s,
                )
                f).1)
          (sym (ap is_pending e)) v
  ]

-- Every session that starts with nothing pending and calls the operations in any order, whatever
-- the commands answer and the world does in between.
pub data Run (js : Json) (cs : Commands js) : Session cs.World → Type 0 where
  start : (w : cs.World) → Run js cs (record { world = w; log = []; pending = none })
  elapse : {s : Session cs.World} (w : cs.World) → Run js cs s → Run js cs (record s { world = w })
  restored : {s : Session cs.World} → Run js cs s → Run js cs (restore_with js cs s).1
  cycled :
      {s : Session cs.World} (name : String) (wanted : NodeIdentity)
      → Run js cs s
      → Run js cs (cycle_card_with js cs name wanted s).1
  recycled :
      {s : Session cs.World} (name : String) (wanted : NodeIdentity)
      → Run js cs s
      → Run js cs (recycle_sink_with js cs name wanted s).1

-- In every run what is pending is exactly what the log of the commands says is owed: no remedy is
-- begun while another is owed, nothing is restored that is not owed, and a debt is over only after
-- a command that restores it succeeded.
pub Run-IsOwed : (js : Json) (cs : Commands js) {s : Session cs.World} → Run js cs s → IsOwed s
unfolding replay cycle_card_with recycle_sink_with
Run-IsOwed js cs (start w) = record { owed = refl; restorable = tt }
Run-IsOwed js cs (elapse w r) =
    let v = Run-IsOwed js cs r in record { owed = v.owed; restorable = v.restorable }
Run-IsOwed js cs (restored {s} r) = (restore_with-Keeps js cs).at s (Run-IsOwed js cs r)
Run-IsOwed js cs (cycled {s} name wanted r) =
    guarded-IsOwed js cs _ s (cycle_card-Begins js cs name wanted) (Run-IsOwed js cs r)
Run-IsOwed js cs (recycled {s} name wanted r) =
    guarded-IsOwed js cs _ s (recycle_sink-Begins js cs name wanted) (Run-IsOwed js cs r)
