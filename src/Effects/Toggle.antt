-- ===== src/Effects/Toggle.antt =====
-- Toggling an effect, and the neutral settings (crates/openwave-core/src/effects.rs).
use openwave.Prelude.{
  ℕ, [], ◌∷◌, any, if◌then◌else◌, sym, ap, subst, Bool-cases, inl, inr, str_eq_iff, String, Bool,
  true, false, not, ◌&&◌, ◌≡◌, refl, ◌∙◌, arith, ◌==◌, nat_instance, string_instance,
}
use openwave.Prelude.Int.{ℤ, pos, minus, ltb_ℤ}
use openwave.Prelude.Float.{Float, is_small}
use openwave.Model.{ok, >>=-eq-ok}
use openwave.Effects.{FxSettings, is_lowcut, default, validated, active, toggled, toggle}
use openwave.Effects.Validated.{IsValid, Between, validated-IsValid, validated_fixed}

abbrev pub flipped : Bool → Bool → Bool
flipped here b = if here then not b else b

-- What a toggle makes of the low cut.
abbrev cut : ℕ → ℕ
cut n = if n == 0 then 80 else 0

not-not : (b : Bool) → not (not b) ≡ b
not-not true = refl
not-not false = refl

module _ (fl : Float) where
  open fl use {F, of_int}

  toggled-IsValid :
      (s : FxSettings F) (key : String) {r : FxSettings F}
      → IsValid fl s
      → toggled fl s key ≡ ok r
      → IsValid fl r
  unfolding toggled
  toggled-IsValid s key v h = ground arith

  -- Whatever the settings were, a toggle that succeeds leaves settings in range.
  pub toggle-IsValid :
      (s : FxSettings F) (key : String) {r : FxSettings F} → toggle fl s key ≡ ok r → IsValid fl r
  unfolding toggle
  toggle-IsValid s key h =
      let (t, p, q) = >>=-eq-ok (validated fl s) (λ next. toggled fl next key) h in
      toggled-IsValid t key (validated-IsValid fl s p) q

  toggle_valid :
      (s : FxSettings F) (key : String) → IsValid fl s → toggle fl s key ≡ toggled fl s key
  unfolding toggle
  toggle_valid s key v = rw (validated_fixed fl s v)

  -- The switch that a key names is flipped, and nothing else is changed.
  pub record Flips (key : String) (s r : FxSettings F) : Type 0 where
    pub lowcut : (r.lowcut == 0) ≡ flipped (key == "lowcut") (s.lowcut == 0)
    pub gate : r.gate ≡ flipped (key == "gate") s.gate
    pub comp : r.comp ≡ flipped (key == "comp") s.comp
    pub mono : r.mono ≡ flipped (key == "mono") s.mono
    pub rest : record r { lowcut = s.lowcut; gate = s.gate; comp = s.comp; mono = s.mono } ≡ s

  abbrev pub Toggles : FxSettings F → String → Type 0
  Toggles s key =
      (r : FxSettings F) × (toggle fl s key ≡ ok r)
      × Flips key s r
      × (toggle fl r key
          ≡ ok (if key == "lowcut" && s.lowcut == 120 then record s { lowcut = 80 } else s))

  -- A toggle of valid settings that is known to succeed, and the one after it.
  toggles :
      (s r t : FxSettings F) (key : String)
      → IsValid fl s
      → toggled fl s key ≡ ok r
      → Flips key s r
      → toggled fl r key ≡ ok t
      → (if key == "lowcut" && s.lowcut == 120 then record s { lowcut = 80 } else s) ≡ t
      → Toggles s key
  toggles s r t key v p f q e =
      let v' = toggled-IsValid s key v p in
      (r, toggle_valid s key v ∙ p, f, toggle_valid r key v' ∙ q ∙ ap ok (sym e))

  Toggles-gate : (s : FxSettings F) → IsValid fl s → Toggles s "gate"
  unfolding toggled
  Toggles-gate s v =
      toggles s (record s { gate = not s.gate }) s "gate" v refl
        (record { lowcut = refl; gate = refl; comp = refl; mono = refl; rest = refl })
        (ap (λ b. ok (record s { gate = b })) (not-not s.gate)) refl

  Toggles-comp : (s : FxSettings F) → IsValid fl s → Toggles s "comp"
  unfolding toggled
  Toggles-comp s v =
      toggles s (record s { comp = not s.comp }) s "comp" v refl
        (record { lowcut = refl; gate = refl; comp = refl; mono = refl; rest = refl })
        (ap (λ b. ok (record s { comp = b })) (not-not s.comp)) refl

  Toggles-mono : (s : FxSettings F) → IsValid fl s → Toggles s "mono"
  unfolding toggled
  Toggles-mono s v =
      toggles s (record s { mono = not s.mono }) s "mono" v refl
        (record { lowcut = refl; gate = refl; comp = refl; mono = refl; rest = refl })
        (ap (λ b. ok (record s { mono = b })) (not-not s.mono)) refl

  twice_cut : (n : ℕ) → is_lowcut n ≡ true → cut (cut n) ≡ (if n == 120 then 80 else n)
  twice_cut n v = ground (arith, v)

  Toggles-lowcut : (s : FxSettings F) → IsValid fl s → Toggles s "lowcut"
  unfolding toggled
  Toggles-lowcut s v =
      toggles s (record s { lowcut = cut s.lowcut }) (record s { lowcut = cut (cut s.lowcut) })
        "lowcut" v refl
        (record { lowcut = ground arith; gate = refl; comp = refl; mono = refl; rest = refl }) refl
        (restored ∙ ap (λ n. record s { lowcut = n }) (sym (twice_cut s.lowcut v.lowcut)))
    where
      restored :
          (if s.lowcut == 120 then record s { lowcut = 80 } else s)
          ≡ record s { lowcut = if s.lowcut == 120 then 80 else s.lowcut }
      restored = elim (Bool-cases (s.lowcut == 120)) [ inl e ↦ rw e refl | inr e ↦ rw e refl ]

  -- Any of the four switches can be toggled in valid settings: it is flipped and nothing else is
  -- changed; toggled again it is as before, except that a low cut of 120 Hz becomes one of 80 Hz.
  pub toggle_twice :
      (s : FxSettings F) (key : String)
      → IsValid fl s
      → any (λ k. k == key) ("lowcut" ∷ "gate" ∷ "comp" ∷ "mono" ∷ []) ≡ true
      → Toggles s key
  toggle_twice s key v h = elim (Bool-cases ("lowcut" == key)) [
    | inl e ↦ subst (Toggles s) ((str_eq_iff "lowcut" key).0 e) (Toggles-lowcut s v)
    | inr a ↦ elim (Bool-cases ("gate" == key)) [
      | inl e ↦ subst (Toggles s) ((str_eq_iff "gate" key).0 e) (Toggles-gate s v)
      | inr b ↦ elim (Bool-cases ("comp" == key)) [
        | inl e ↦ subst (Toggles s) ((str_eq_iff "comp" key).0 e) (Toggles-comp s v)
        | inr c ↦
            let e : ("mono" == key) ≡ true = ground (arith, h, a, b, c) in
            subst (Toggles s) ((str_eq_iff "mono" key).0 e) (Toggles-mono s v)
      ]
    ]
  ]

  integer-Between :
      (lo n hi : ℤ)
      → is_small lo ≡ true
      → is_small n ≡ true
      → is_small hi ≡ true
      → ltb_ℤ n lo ≡ false
      → ltb_ℤ hi n ≡ false
      → Between fl lo hi (of_int n)
  integer-Between lo n hi a b c p q =
      (fl.of_int_finite n b, fl.of_int_lt n lo b a ∙ p, fl.of_int_lt hi n c b ∙ q)

  default-IsValid : IsValid fl (default fl)
  unfolding default
  default-IsValid = record {
    lowcut = refl;
    gate_thresh = integer-Between (minus 70) (minus 50) (minus 20) refl refl refl refl refl;
    comp_thresh = integer-Between (minus 30) (minus 18) (pos 0) refl refl refl refl refl;
    comp_ratio = integer-Between (pos 1) (pos 3) (pos 10) refl refl refl refl refl;
    eq_low = integer-Between (minus 12) (pos 0) (pos 12) refl refl refl refl refl;
    eq_mid = integer-Between (minus 12) (pos 0) (pos 12) refl refl refl refl refl;
    eq_high = integer-Between (minus 12) (pos 0) (pos 12) refl refl refl refl refl;
    delay_ms = integer-Between (pos 0) (pos 0) (pos 500) refl refl refl refl refl;
  }

  -- The default settings are valid and bypass all processing.
  pub default_neutral :
      (validated fl (default fl) ≡ ok (default fl)) × (active fl (default fl) ≡ false)
  unfolding active default
  default_neutral = (
    validated_fixed fl (default fl) default-IsValid,
    ground (arith, fl.of_int_eq (pos 0) (pos 0) refl refl),
  )
