-- ===== src/Protocol/Config/Readback.antt =====
-- crates/openwave-core/src/protocol.rs: what a setting changes in the state that is read back.
use openwave.Prelude.{
  ℕ, ◌+◌, ◌*◌, ◌/◌, ◌%◌, ◌≤◌, ◌<◌, Bool, true, false, not, Option, none, some, List, ◌==◌, ◌≡◌,
  refl, subst, length, set, nat_instance, if◌then◌else◌, arith, leb, ltb, Bool-cases, inl, inr,
  ltb→lt, nat_eq,
}
use openwave.Prelude.Bytes.{byte, unsigned, signed, put_u16, byte-set, byte-put_u16}
use openwave.Prelude.Int.{ℤ, pos, negsuc, pos_part, neg_part}
use openwave.Prelude.Float.{Float, Arithmetic}
use openwave.Model.{ok, ok_inj, >>=-eq-ok}
use openwave.Profiles.{
  ProfileId, wave_xlr, wave_xlr_mk2, wave3, xlr_dock_mk2, LegacyProfile, profile, has_phantom,
  has_low_z, has_monitor_mix,
}
use openwave.Protocol.{
  DeviceState, DeviceSetting, set_gain_raw, set_mute, set_headphone_db, set_phantom,
  set_low_impedance, set_monitor_mix, validate_setting,
}
use openwave.Protocol.Config.{
  ConfigBuffer, bit0, bit1, of_bool, put_bit0, put_bit1, state, patch, apply,
}

-- The arrays have the lengths of their types.
pub record IsSized (c : ConfigBuffer) : Type 0 where
  pub bytes : length c.bytes ≡ 38
  pub headphones : length c.headphones ≡ 2
  pub monitor : length c.monitor ≡ 6

signed-unsigned :
    (n : ℤ)
    → leb (neg_part n) 32768 ≡ true
    → leb (pos_part n) 32767 ≡ true
    → signed (unsigned n) ≡ n
signed-unsigned (pos n) a b = ground (arith, a, b)
signed-unsigned (negsuc n) a b = ground (arith, a, b)

unsigned-lt : (n : ℤ) → unsigned n < 65536
unsigned-lt (pos n) = omega arith
unsigned-lt (negsuc n) = omega arith

not-of_bool : (on : Bool) → not (of_bool on == 0) ≡ on
not-of_bool true = refl
not-of_bool false = refl

joined : (v : ℕ) → v < 65536 → v % 256 + 256 * (v / 256 % 256) ≡ v
joined v h = omega (arith, h)

small : (v : ℕ) → v < 256 → v % 256 ≡ v
small v h = omega (arith, h)

bit0-put_bit0 : (b : ℕ) (on : Bool) → bit0 (put_bit0 b on) ≡ on
bit0-put_bit0 b true = ground arith
bit0-put_bit0 b false = ground arith

bit1-put_bit0 : (b : ℕ) (on : Bool) → bit1 (put_bit0 b on) ≡ bit1 b
bit1-put_bit0 b true = ground arith
bit1-put_bit0 b false = ground arith

bit0-put_bit1 : (b : ℕ) (on : Bool) → bit0 (put_bit1 b on) ≡ bit0 b
bit0-put_bit1 b true = ground arith
bit0-put_bit1 b false = ground arith

bit1-put_bit1 : (b : ℕ) (on : Bool) → bit1 (put_bit1 b on) ≡ on
bit1-put_bit1 b true = ground arith
bit1-put_bit1 b false = ground arith

module _ (fl : Float) (ar : Arithmetic fl) where
  open fl use {F, is_finite, of_int}
  open ar use {neg, mul, div, round_ties_even, to_u8, to_i16}

  signed_to_i16 : (x : F) → signed (unsigned (to_i16 x)) ≡ to_i16 x
  signed_to_i16 x = signed-unsigned (to_i16 x) (ar.to_i16_low x) (ar.to_i16_high x)

  -- The volume that is read back for a valid one.
  abbrev pub readback : ProfileId → Option LegacyProfile → F → F
  readback id none db =
      div (neg (of_int (pos (to_u8 (round_ties_even (mul (neg db) (of_int (pos 4))))))))
        (of_int (pos 4))
  readback id (some p) db =
      let scale = of_int (pos (profile id).hp_scale) in div (of_int (to_i16 (mul db scale))) scale

  -- The state with one field replaced, for a valid setting.
  abbrev pub stored : ProfileId → DeviceSetting F → DeviceState F → DeviceState F
  stored id (set_gain_raw value) st = record st { gain_raw = value }
  stored id (set_mute on) st = record st { muted = on }
  stored id (set_headphone_db db) st = record st {
    hp_volume_db = readback id (profile id).legacy db;
  }
  stored id (set_phantom on) st = record st { phantom = some on }
  stored id (set_low_impedance on) st = record st { low_impedance = some on }
  stored id (set_monitor_mix value) st = record st { monitor_mix = some value }

  -- What the validation leaves of a setting.
  abbrev pub InRange : ProfileId → DeviceSetting F → Type 0
  InRange id (set_gain_raw value) = value ≤ (profile id).gain_max
  InRange id (set_mute on) = Unit {0}
  InRange id (set_headphone_db db) = Unit {0}
  InRange id (set_phantom on) = has_phantom (profile id) ≡ true
  InRange id (set_low_impedance on) = has_low_z (profile id) ≡ true
  InRange id (set_monitor_mix value) =
      (has_monitor_mix (profile id) ≡ true) × (value ≤ (profile id).mix_max)

  validate_setting-InRange :
      (id : ProfileId) (s v : DeviceSetting F) → validate_setting fl id s ≡ ok v → InRange id v
  unfolding validate_setting
  validate_setting-InRange id (set_gain_raw value) v h = subst (InRange id) (ok_inj h) (omega arith)
  validate_setting-InRange id (set_mute on) v h = subst (InRange id) (ok_inj h) tt
  validate_setting-InRange id (set_headphone_db db) v h = elim (Bool-cases (is_finite db)) [
    | inl e ↦ subst (InRange id) (ok_inj (rw e at h)) tt
    | inr e ↦ absurd (cc (rw e at h))
  ]
  validate_setting-InRange id (set_phantom on) v h = elim (Bool-cases (has_phantom (profile id))) [
    | inl e ↦ subst (InRange id) (ok_inj (rw e at h)) e
    | inr e ↦ absurd (cc (rw e at h))
  ]
  validate_setting-InRange id (set_low_impedance on) v h =
      elim (Bool-cases (has_low_z (profile id))) [
        | inl e ↦ subst (InRange id) (ok_inj (rw e at h)) e
        | inr e ↦ absurd (cc (rw e at h))
      ]
  validate_setting-InRange id (set_monitor_mix value) v h =
      elim (Bool-cases (has_monitor_mix (profile id))) [
        | inl e ↦ subst (InRange id) (ok_inj (rw e at h)) (e, omega arith)
        | inr e ↦ absurd (cc (rw e at h))
      ]

  module _ (bs hp mon : List ℕ) (wide : length bs ≡ 38) (two : length hp ≡ 2)
      (six : length mon ≡ 6) where
    config : ProfileId → ConfigBuffer
    config id = record { profile = id; bytes = bs; headphones = hp; monitor = mon }

    after_set :
        (i v : ℕ)
        → ltb i 38 ≡ true
        → (j : ℕ) → byte (set bs i v) j ≡ (if nat_eq i j then v else byte bs j)
    after_set i v h j = let lo = ltb→lt i 38 h in byte-set bs i v j (omega (arith, lo, wide))

    after_put :
        (i v : ℕ)
        → ltb (i + 1) 38 ≡ true
        → (j : ℕ)
        → byte (put_u16 bs i v) j
          ≡ (if nat_eq (i + 1) j then v / 256 % 256 else if nat_eq i j then v % 256 else byte bs j)
    after_put i v h j =
        let lo = ltb→lt (i + 1) 38 h in byte-put_u16 bs i v j (omega (arith, lo, wide))

    after_hp :
        (i v : ℕ)
        → ltb i 2 ≡ true
        → (j : ℕ) → byte (set hp i v) j ≡ (if nat_eq i j then v else byte hp j)
    after_hp i v h j = let lo = ltb→lt i 2 h in byte-set hp i v j (omega (arith, lo, two))

    after_mon : (v j : ℕ) → byte (set mon 0 v) j ≡ (if nat_eq 0 j then v else byte mon j)
    after_mon v j = byte-set mon 0 v j (omega (arith, six))

    abbrev Patched : ProfileId → DeviceSetting F → Type 0
    Patched id s =
        state fl ar (patch fl ar (config id) (profile id).legacy s)
        ≡ stored id s (state fl ar (config id))

    xlr-Patched : (s : DeviceSetting F) → InRange wave_xlr s → Patched wave_xlr s
    unfolding state profile config has_monitor_mix
    xlr-Patched (set_gain_raw v) h = simp (after_put 0 v refl, joined v (omega (arith, h)))
    xlr-Patched (set_mute on) h = simp (after_set 4 (of_bool on) refl, not-of_bool on)
    xlr-Patched (set_headphone_db db) h = simp (
      after_put 9 (unsigned (to_i16 (mul db (of_int (pos 256))))) refl,
      joined (unsigned (to_i16 (mul db (of_int (pos 256)))))
          (unsigned-lt (to_i16 (mul db (of_int (pos 256))))),
      signed_to_i16 (mul db (of_int (pos 256))),
    )
    xlr-Patched (set_phantom on) h = simp (after_set 6 (of_bool on) refl, not-of_bool on)
    xlr-Patched (set_low_impedance on) h = simp (after_set 33 (of_bool on) refl, not-of_bool on)
    xlr-Patched (set_monitor_mix v) h = absurd (cc (h.0))

    -- The MK.2 has the layout of the first Wave XLR.
    mk2-Patched : (s : DeviceSetting F) → InRange wave_xlr_mk2 s → Patched wave_xlr_mk2 s
    unfolding state profile config has_phantom has_low_z has_monitor_mix
    mk2-Patched (set_gain_raw v) h = xlr-Patched (set_gain_raw v) h
    mk2-Patched (set_mute on) h = xlr-Patched (set_mute on) h
    mk2-Patched (set_headphone_db db) h = xlr-Patched (set_headphone_db db) h
    mk2-Patched (set_phantom on) h = xlr-Patched (set_phantom on) h
    mk2-Patched (set_low_impedance on) h = xlr-Patched (set_low_impedance on) h
    mk2-Patched (set_monitor_mix v) h = absurd (cc (h.0))

    wave3-Patched : (s : DeviceSetting F) → InRange wave3 s → Patched wave3 s
    unfolding state profile config has_phantom has_low_z
    wave3-Patched (set_gain_raw v) h = simp (after_put 0 v refl, joined v (omega (arith, h)))
    wave3-Patched (set_mute on) h = simp (after_set 4 (of_bool on) refl, not-of_bool on)
    wave3-Patched (set_headphone_db db) h = simp (
      after_put 7 (unsigned (to_i16 (mul db (of_int (pos 256))))) refl,
      joined (unsigned (to_i16 (mul db (of_int (pos 256)))))
          (unsigned-lt (to_i16 (mul db (of_int (pos 256))))),
      signed_to_i16 (mul db (of_int (pos 256))),
    )
    wave3-Patched (set_phantom on) h = absurd (cc h)
    wave3-Patched (set_low_impedance on) h = absurd (cc h)
    wave3-Patched (set_monitor_mix v) h = simp (after_put 10 v refl, joined v (omega (arith, h.1)))

    dock-Patched : (s : DeviceSetting F) → InRange xlr_dock_mk2 s → Patched xlr_dock_mk2 s
    unfolding state profile config
    dock-Patched (set_gain_raw v) h = simp (after_set 0 v refl, small v (omega (arith, h)))
    dock-Patched (set_mute on) h = simp (
      after_set 1 (put_bit0 (byte bs 1) on) refl,
      bit0-put_bit0 (byte bs 1) on,
      bit1-put_bit0 (byte bs 1) on,
    )
    dock-Patched (set_headphone_db db) h =
        simp (after_hp 0 (to_u8 (round_ties_even (mul (neg db) (of_int (pos 4))))) refl)
    dock-Patched (set_phantom on) h = simp (
      after_set 1 (put_bit1 (byte bs 1) on) refl,
      bit0-put_bit1 (byte bs 1) on,
      bit1-put_bit1 (byte bs 1) on,
    )
    dock-Patched (set_low_impedance on) h =
        simp (after_hp 1 (put_bit1 (byte hp 1) on) refl, bit1-put_bit1 (byte hp 1) on)
    dock-Patched (set_monitor_mix v) h = simp (after_mon v, small v (omega (arith, h.1)))

    patched : (id : ProfileId) (s : DeviceSetting F) → InRange id s → Patched id s
    patched wave_xlr s h = xlr-Patched s h
    patched wave_xlr_mk2 s h = mk2-Patched s h
    patched wave3 s h = wave3-Patched s h
    patched xlr_dock_mk2 s h = dock-Patched s h

  -- A setting that is applied is a valid one, and the state that is read back is the old state
  -- with the setting's field replaced by it: every other field is kept. The volume is rounded to
  -- the steps of the device.
  pub apply-state :
      (c d : ConfigBuffer) (s : DeviceSetting F)
      → IsSized c
      → apply fl ar c s ≡ ok d
      → (v : DeviceSetting F) × (validate_setting fl c.profile s ≡ ok v)
        × InRange c.profile v
        × (state fl ar d ≡ stored c.profile v (state fl ar c))
  unfolding apply config
  apply-state c d s sized h =
      let (v, valid, e) =
        >>=-eq-ok (validate_setting fl c.profile s)
          (λ v. ok (patch fl ar c (profile c.profile).legacy v)) h in
      let range = validate_setting-InRange c.profile s v valid in
      (
        v,
        valid,
        range,
        subst (λ x. state fl ar x ≡ stored c.profile v (state fl ar c)) (ok_inj e)
            (patched c.bytes c.headphones c.monitor sized.bytes sized.headphones sized.monitor
              c.profile v range),
      )
