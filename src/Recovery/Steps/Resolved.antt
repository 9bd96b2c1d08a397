-- ===== src/Recovery/Steps/Resolved.antt =====
-- A card that crates/openwave-runtime/src/recovery.rs resolves has a profile to return to.
use openwave.Prelude.{String, false, Option, none, some, ◌==◌, ◌≡◌, arith, string_instance}
use openwave.Prelude.Json.{Json}
use openwave.Model.{ok, NodeIdentity, ok_or, unavailable}
use openwave.Recovery.Discovery.{CardTarget, shown_profile, active_profile}
use openwave.Prelude.Action.Ensures.{Ensures, Ensures-bind, Ensures-lift_bind, Ensures-ok}
use openwave.Recovery.Session.{Commands, Session}
use openwave.Recovery.Steps.{resolve_card}

active_profile-on :
    (o : Option String) {p : String}
    → ok_or (active_profile o) unavailable "Card has no active profile to restore" ≡ ok p
    → (p == "off") ≡ false
active_profile-on none h = absurd (cc)
active_profile-on (some s) h = ground (arith)

module _ (js : Json) (cs : Commands js) where
  open cs use {World}

  abbrev HasProfile : CardTarget → Type 0
  HasProfile t = (t.profile == "off") ≡ false

  Ensures-resolve_card :
      (name : String) (wanted : NodeIdentity)
      → Ensures (λ t s. HasProfile t) (resolve_card js cs name wanted)
  unfolding resolve_card
  Ensures-resolve_card name wanted = Ensures-bind _ λ kind. Ensures-bind _ λ graph.
      Ensures-bind _ λ nodes. Ensures-bind _ λ node. Ensures-bind _ λ same. Ensures-bind _ λ index.
        Ensures-bind _ λ cards. Ensures-bind _ λ found. Ensures-bind _ λ card_name.
          Ensures-bind _ λ named. Ensures-lift_bind _ λ profile e.
            Ensures-bind _ λ id. Ensures-ok _ (λ s. active_profile-on (shown_profile js found) e)

  -- A target that was resolved has a profile to return to.
  pub resolve_card-restorable :
      (name : String) (wanted : NodeIdentity) (s : Session World) (target : CardTarget)
      → (resolve_card js cs name wanted s).0 ≡ ok target
      → (target.profile == "off") ≡ false
  resolve_card-restorable name wanted s target h = (Ensures-resolve_card name wanted).at s target h
