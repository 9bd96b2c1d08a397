-- ===== src/Protocol/Units/Matching.antt =====
-- crates/openwave-core/src/protocol.rs: an ambiguous match selects nothing.
use openwave.Prelude.{
  ℕ, String, Option, none, some, List, [], ◌∷◌, ◌==◌, ◌≡◌, refl, sym, ◌∙◌, filter, nat_instance,
  string_instance, if◌then◌else◌, Bool-cases, inl, inr,
}
use openwave.Protocol.Units.{
  UnitId, AlsaCardIdentity, same_usb, wanted_usb, single_card, card_for_unit, ConnectedIdentity,
  is_match, match_devices, device_for_capture,
}

-- The unit of the one device in a list, if it has exactly one.
abbrev pub single : List ConnectedIdentity → Option UnitId
single [] = none
single (d ∷ []) = some d.unit
single (d ∷ e ∷ ds) = none

abbrev then_single : Option UnitId → List ConnectedIdentity → Option UnitId
then_single none ds = single ds
then_single (some u) [] = some u
then_single (some u) (d ∷ ds) = none

single-cons :
    (d : ConnectedIdentity) (ds : List ConnectedIdentity)
    → single (d ∷ ds) ≡ then_single (some d.unit) ds
single-cons d [] = refl
single-cons d (e ∷ ds) = refl

match_devices-filter :
    (s : String) (m : Option UnitId) (ds : List ConnectedIdentity)
    → match_devices s m ds ≡ then_single m (filter (is_match s) ds)
unfolding match_devices
match_devices-filter s none [] = refl
match_devices-filter s (some u) [] = refl
match_devices-filter s none (d ∷ ds) = elim (Bool-cases (is_match s d)) [
  | inl e ↦
      rw e (match_devices-filter s (some d.unit) ds ∙ sym (single-cons d (filter (is_match s) ds)))
  | inr e ↦ rw e (match_devices-filter s none ds)
]
match_devices-filter s (some u) (d ∷ ds) = elim (Bool-cases (is_match s d)) [
  | inl e ↦ rw e refl
  | inr e ↦ rw e (match_devices-filter s (some u) ds)
]

-- A capture belongs to a unit exactly when its serial is not empty and exactly one connected device
-- with a serial matches it; two matches select none, in whatever order the devices stand.
pub device_for_capture-single :
    (s : String) (ds : List ConnectedIdentity)
    → device_for_capture s ds ≡ (if s == "" then none else single (filter (is_match s) ds))
unfolding device_for_capture
device_for_capture-single s ds = rw (match_devices-filter s none ds) refl

single_card-some :
    (cs : List AlsaCardIdentity) (k : ℕ)
    → single_card cs ≡ some k
    → (card : AlsaCardIdentity) × (cs ≡ card ∷ []) × (card.card ≡ k)
single_card-some [] k h = absurd (cc)
single_card-some (c ∷ []) k h = (c, refl, cc)
single_card-some (c ∷ d ∷ cs) k h = absurd (cc)

-- The card of a unit is that of the one card whose USB identity is the unit's profile, bus and
-- address; no card is selected by its index or name.
pub card_for_unit-only :
    (unit : UnitId) (cards : List AlsaCardIdentity) (k : ℕ)
    → card_for_unit unit cards ≡ some k
    → (card : AlsaCardIdentity) × (filter (λ c. same_usb c.usb (wanted_usb unit)) cards ≡ card ∷ [])
      × (card.card ≡ k)
unfolding card_for_unit
card_for_unit-only unit cards k h =
    single_card-some (filter (λ c. same_usb c.usb (wanted_usb unit)) cards) k h
