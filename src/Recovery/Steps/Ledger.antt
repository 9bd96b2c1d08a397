-- ===== src/Recovery/Steps/Ledger.antt =====
-- What the log of pactl commands says is owed (crates/openwave-runtime/src/recovery.rs), told from
-- the commands alone.
use openwave.Prelude.{
  String, Bool, false, Option, none, some, List, [], ◌∷◌, ◌==◌, ◌≡◌, string_instance, if◌then◌else◌,
}
use openwave.Recovery.Session.{Obligation, card, sink, Call, Session}

pub data Debt : Type 0 where
  card_off : String → Debt
  suspended : String → Debt

-- `broken`: a second debt was made while one was owed, or something was restored that was not owed.
pub data Ledger : Type 0 where
  clear : Ledger
  owing : Debt → Ledger
  broken : Ledger

-- A change is in effect from the moment it is asked for, whether or not its command succeeded.
abbrev pub lend : Debt → Ledger → Ledger
lend debt clear = owing debt
lend debt (owing other) = broken
lend debt broken = broken

-- A restoration counts only when its command succeeded.
abbrev pub repay_card : String → Bool → Ledger → Ledger
repay_card name succeeded clear = broken
repay_card name succeeded (owing (card_off other)) =
    if other == name then (if succeeded then clear else owing (card_off other)) else broken
repay_card name succeeded (owing (suspended other)) = broken
repay_card name succeeded broken = broken

abbrev pub repay_sink : String → Bool → Ledger → Ledger
repay_sink name succeeded clear = broken
repay_sink name succeeded (owing (suspended other)) =
    if other == name then (if succeeded then clear else owing (suspended other)) else broken
repay_sink name succeeded (owing (card_off other)) = broken
repay_sink name succeeded broken = broken

-- pactl set-card-profile NAME VALUE, and pactl suspend-sink NAME VALUE.
abbrev pub effect : List String → Bool → Ledger → Ledger
effect (verb ∷ name ∷ value ∷ []) succeeded l =
    if verb == "set-card-profile"
    then (if value == "off" then lend (card_off name) l else repay_card name succeeded l)
    else if verb == "suspend-sink"
    then (if value == "1" then lend (suspended name) l else repay_sink name succeeded l)
    else l
effect [] succeeded l = l
effect (a ∷ []) succeeded l = l
effect (a ∷ b ∷ []) succeeded l = l
effect (a ∷ b ∷ c ∷ d ∷ rest) succeeded l = l

abbrev pub enter : Call → Ledger → Ledger
enter c l = if c.program == "pactl" then effect c.args c.succeeded l else l

-- The latest command stands first.
unfoldable pub replay : List Call → Ledger
replay [] = clear
replay (c ∷ log) = enter c (replay log)

abbrev pub debt_of : Option Obligation → Ledger
debt_of none = clear
debt_of (some (card target)) = owing (card_off target.name)
debt_of (some (sink name wanted)) = owing (suspended name)

-- The profile that a card is restored to is not the one that switches it off.
abbrev pub Restorable : Option Obligation → Type 0
Restorable none = Unit
Restorable (some (card target)) = (target.profile == "off") ≡ false
Restorable (some (sink name wanted)) = Unit

pub record IsOwed {W : Type 0} (s : Session W) : Type 0 where
  pub owed : replay s.log ≡ debt_of s.pending
  pub restorable : Restorable s.pending
