-- ===== src/Recovery/Steps/Outcome.antt =====
-- What the results of crates/openwave-runtime/src/recovery.rs say of the debt.
use openwave.Prelude.{String, true, Option, none, some, ◌≡◌, refl, ◌∙◌, ap, string_instance}
use openwave.Prelude.Json.{Json}
use openwave.Model.{Result, ok, err, NodeIdentity}
use openwave.Recovery.Discovery.{CardTarget}
use openwave.Prelude.Action.{Action, continue, is_ok, ◌>>=◌, lift, outcome}
use openwave.Recovery.Session.{Commands, Obligation, Session, describe}
use openwave.Recovery.Steps.{
  resume, settle, restore_pending, restore_with, switch_off, cycle_card_with, finish, suspend,
  recycle_sink_with,
}
use openwave.Recovery.Steps.Ledger.{clear, replay, debt_of}
use openwave.Recovery.Steps.Owed.{Run, cycled, recycled, restored, Run-IsOwed}

-- An action that leaves nothing pending when it succeeds.
record Ends {W : Type 0} (a : Action (Session W) (Unit {0})) : Type 0 where
  at : (s : Session W) → is_ok (a s).0 ≡ true → (a s).1.pending ≡ none

continue-Ends :
    {W A : Type 0} (p : Result A × Session W) (f : A → Action (Session W) (Unit {0}))
    → ((x : A) → Ends (f x))
    → is_ok (continue p f).0 ≡ true
    → (continue p f).1.pending ≡ none
continue-Ends (err e, t) f k h = absurd (cc)
continue-Ends (ok x, t) f k h = (k x).at t h

Ends-bind :
    {W A : Type 0} (a : Action (Session W) A) {f : A → Action (Session W) (Unit {0})}
    → ((x : A) → Ends (f x))
    → Ends (a >>= f)
unfolding ◌>>=◌
Ends-bind a {f} k = record { at = λ s h. continue-Ends (a s) f k h }

finish-is_ok : (c r : Result (Unit {0})) → is_ok (finish c r) ≡ true → is_ok r ≡ true
unfolding finish
finish-is_ok (ok u) (ok v) h = refl
finish-is_ok (err e) (ok v) h = refl
finish-is_ok (ok u) (err e) h = h
finish-is_ok (err e) (err r) h = h

module _ (js : Json) (cs : Commands js) where
  open cs use {World}

  settle-pending :
      (p : Result (Unit {0}) × Session World)
      → is_ok (settle js cs (describe "Audio restoration remains owed: " p.0, p.1)).0 ≡ true
      → (settle js cs (describe "Audio restoration remains owed: " p.0, p.1)).1.pending ≡ none
  settle-pending (ok u, s) h = refl
  settle-pending (err e, s) h = absurd (cc)

  restore_pending-pending :
      (p : Option Obligation) (s : Session World)
      → s.pending ≡ p
      → is_ok (restore_pending js cs p s).0 ≡ true
      → (restore_pending js cs p s).1.pending ≡ none
  unfolding restore_pending
  restore_pending-pending none s e h = e
  restore_pending-pending (some debt) s e h = settle-pending (resume js cs debt s) h

  Ends-restore :
      (changed : Result (Unit {0}))
      → Ends (outcome (restore_with js cs) >>= λ restored. lift (finish changed restored))
  unfolding ◌>>=◌ outcome lift restore_with
  Ends-restore changed = record {
    at = λ s h. restore_pending-pending s.pending s refl (finish-is_ok changed _ h);
  }

  Ends-switch_off : (target : CardTarget) → Ends (switch_off js cs target)
  unfolding switch_off
  Ends-switch_off target = Ends-bind _ (λ owed. Ends-bind _ (λ changed. Ends-restore changed))

  Ends-suspend : (name : String) (wanted : NodeIdentity) → Ends (suspend js cs name wanted)
  unfolding suspend
  Ends-suspend name wanted =
      Ends-bind _ (λ owed. Ends-bind _ (λ changed. Ends-bind _ (λ waited. Ends-restore changed)))

  Ends-cycle : (name : String) (wanted : NodeIdentity) → Ends (cycle_card_with js cs name wanted)
  unfolding cycle_card_with
  Ends-cycle name wanted = Ends-bind _ λ u. Ends-bind _ λ v.
      Ends-bind _
        λ target. Ends-bind _ λ again. Ends-bind _ λ same. Ends-bind _ λ w. Ends-switch_off target

  Ends-recycle :
      (name : String) (wanted : NodeIdentity) → Ends (recycle_sink_with js cs name wanted)
  unfolding recycle_sink_with
  Ends-recycle name wanted = Ends-bind _ λ u.
      Ends-bind _
        λ output. Ends-bind _ λ v. Ends-bind _ λ valid. Ends-bind _ λ w. Ends-suspend name wanted

  abbrev pub Settled : Session World → Type 0
  Settled s = (s.pending ≡ none) × (replay s.log ≡ clear)

  settled : {s : Session World} → Run js cs s → s.pending ≡ none → Settled s
  settled r e = (e, (Run-IsOwed js cs r).owed ∙ ap debt_of e)

  -- After any run, a card cycle, a sink recycling or a restoration that succeeds leaves nothing
  -- pending and nothing owed by the log.
  pub success_settles :
      {s : Session World}
      → Run js cs s
      → (name : String) → (wanted : NodeIdentity)
      → (is_ok (cycle_card_with js cs name wanted s).0 ≡ true
          → Settled (cycle_card_with js cs name wanted s).1)
        × (is_ok (recycle_sink_with js cs name wanted s).0 ≡ true
            → Settled (recycle_sink_with js cs name wanted s).1)
        × (is_ok (restore_with js cs s).0 ≡ true → Settled (restore_with js cs s).1)
  unfolding restore_with
  success_settles {s} r name wanted = (
    λ h. settled (cycled name wanted r) ((Ends-cycle name wanted).at s h),
    λ h. settled (recycled name wanted r) ((Ends-recycle name wanted).at s h),
    λ h. settled (restored r) (restore_pending-pending s.pending s refl h),
  )
