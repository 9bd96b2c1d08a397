-- ===== src/Scenes/Target.antt =====
-- crates/openwave-core/src/scenes.rs: a saved entry reaches one unit, and is not lost silently.
use openwave.Prelude.{
  false, ◌+◌, String, Option, none, some, List, [], ◌∷◌, ◌==◌, ◌≡◌, refl, ap, ◌∙◌, ◌⊎◌, inl, inr,
  filter, length, nat_instance, string_instance, arith, Bool-cases, nat_eq_iff,
}
use openwave.Prelude.Dict.{Dict, get, keys}
use openwave.Model.{ok, ok_inj}
use openwave.Profiles.{ProfileId, as_str}
use openwave.Protocol.Units.{UnitId}
use openwave.Routing.Output.{or_else}
use openwave.Routing.Output.Choice.{or_else-some}
use openwave.Scenes.{
  HardwarePatch, hardware_key, HardwareCandidate, same_unit, of_profile, of_identity, entry,
  legacy_entry, keyed, exact_entry, pick_target, pick_hardware_entry, HardwareSelection, selections,
  is_selected, skips, resolve_hardware,
}

module _ {F : Type 0} where
  -- Why an entry is for a unit of a profile, with a serial.
  abbrev pub IsTarget :
      Dict String (HardwarePatch F)
      → ProfileId
      → String
      → List HardwareCandidate
      → String
      → HardwarePatch F
      → Type 0
  IsTarget hardware p serial candidates key patch =
      (get key hardware ≡ some patch)
      × (length (filter (of_identity p serial) candidates) ≡ 1)
      × (((key ≡ hardware_key p serial) × ((serial == "") ≡ false))
          ⊎ ((key ≡ as_str p) × (length (filter (of_profile p) candidates) ≡ 1)))

  keyed-some :
      (k key : String) (o : Option (HardwarePatch F)) (patch : HardwarePatch F)
      → keyed k o ≡ some (key, patch)
      → (key ≡ k) × (o ≡ some patch)
  keyed-some k key none patch e = absurd (cc)
  keyed-some k key (some v) patch e = (cc, cc)

  entry-get :
      (k key : String) (h : Dict String (HardwarePatch F)) (patch : HardwarePatch F)
      → entry k h ≡ some (key, patch)
      → (key ≡ k) × (get key h ≡ some patch)
  entry-get k key h patch e =
      let (name, found) = keyed-some k key (get k h) patch e in
      (name, ap (λ x. get x h) name ∙ found)

  pick_target-IsTarget :
      (h : Dict String (HardwarePatch F)) (p : ProfileId) (cs ts : List HardwareCandidate)
      (key : String) (patch : HardwarePatch F)
      → pick_target h p cs ts ≡ ok (some (key, patch))
      → (c : HardwareCandidate) × (ts ≡ c ∷ []) × IsTarget h p c.serial cs key patch
  pick_target-IsTarget h p cs [] key patch e = absurd (cc)
  pick_target-IsTarget h p cs (c ∷ d ∷ ts) key patch e = absurd (cc)
  pick_target-IsTarget h p cs (c ∷ []) key patch e =
      elim (Bool-cases (length (filter (of_identity p c.serial) cs) == 1)) [
        | inr several ↦ absurd (cc (rw several at e))
        | inl one ↦
            let picked = ok_inj (rw one at e) in
            (
              c,
              refl,
              of_entry ((nat_eq_iff (length (filter (of_identity p c.serial) cs)) 1).0 one) picked,
            )
      ]
    where
      of_entry :
          length (filter (of_identity p c.serial) cs) ≡ 1
          → or_else (exact_entry h p c.serial) (legacy_entry h p cs) ≡ some (key, patch)
          → IsTarget h p c.serial cs key patch
      of_entry one g =
          elim (or_else-some (exact_entry h p c.serial) (legacy_entry h p cs) (key, patch) g) [
            | inl x ↦ elim (Bool-cases (c.serial == "")) [
              | inl blank ↦ absurd (cc (rw blank at x))
              | inr named ↦
                  let (name, found) =
                    entry-get (hardware_key p c.serial) key h patch (rw named at x) in
                  (found, one, inl (name, named))
            ]
            | inr x ↦ elim (Bool-cases (length (filter (of_profile p) cs) == 1)) [
              | inl alone ↦
                  let (name, found) = entry-get (as_str p) key h patch (rw alone at x) in
                  (
                    found,
                    one,
                    inr (name, (nat_eq_iff (length (filter (of_profile p) cs)) 1).0 alone),
                  )
              | inr many ↦ absurd (cc (rw many at x))
            ]
          ]

  -- The entry that is picked for a unit is saved under the key that names it: the unit is connected
  -- once, no other unit of its model has its serial, and the key holds the unit's serial, which is
  -- not empty, or is the model's alone while one unit of the model is connected.
  pub pick_hardware_entry-IsTarget :
      (h : Dict String (HardwarePatch F)) (unit : UnitId) (cs : List HardwareCandidate)
      (key : String) (patch : HardwarePatch F)
      → pick_hardware_entry h unit cs ≡ ok (some (key, patch))
      → (c : HardwareCandidate) × (filter (λ d. same_unit d.unit unit) cs ≡ c ∷ [])
        × IsTarget h unit.profile c.serial cs key patch
  unfolding pick_hardware_entry
  pick_hardware_entry-IsTarget h unit cs key patch e =
      pick_target-IsTarget h unit.profile cs (filter (λ d. same_unit d.unit unit) cs) key patch e

  length-skips :
      (selected : List (HardwareSelection F)) (ks : List String)
      → length (skips selected ks) + length (filter (is_selected selected) ks) ≡ length ks
  unfolding skips
  length-skips selected [] = omega arith
  length-skips selected (k ∷ ks) = ground (arith, length-skips selected ks)

  -- Every saved entry is accounted for: there are as many skips as there are keys that no selection
  -- names.
  pub resolve_hardware_accounts :
      (h : Dict String (HardwarePatch F)) (cs : List HardwareCandidate)
      → let r = resolve_hardware h cs in
        length r.skipped + length (filter (is_selected r.selected) (keys h)) ≡ length (keys h)
  unfolding resolve_hardware
  resolve_hardware_accounts h cs = length-skips (selections h cs cs) (keys h)
