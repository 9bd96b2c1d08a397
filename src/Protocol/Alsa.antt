-- ===== src/Protocol/Alsa.antt =====
-- crates/openwave-core/src/protocol.rs: meters, and the controls of an ALSA card.
use openwave.Prelude.{
  ℕ, zero, suc, subst, ◌+◌, ◌*◌, ◌<◌, Option, none, some, List, [], ◌∷◌, ◌≡◌, refl, inl, inr, All,
  nat_instance, if◌then◌else◌, arith, Bool-cases,
}
use openwave.Prelude.Bytes.{byte}
use openwave.Prelude.Int.{ℤ, ltb_ℤ, ◌≤ℤ◌}
use openwave.Model.{Result, ok, fail, invalid, unavailable, unsupported, ok_inj, >>=-eq-ok, ◌>>◌}
use openwave.Profiles.{ProfileId, LegacyProfile, profile}
use openwave.Protocol.{exact_length}

pub record MeterLevels : Type 0 where
  pub left : ℕ  -- u32
  pub right : ℕ  -- u32

-- `u32::from_le_bytes` of four bytes
abbrev pub read_u32 : List ℕ → ℕ → ℕ
read_u32 bs i =
    byte bs i + 256 * byte bs (i + 1) + 65536 * byte bs (i + 2) + 16777216 * byte bs (i + 3)

abbrev pub decode_levels : Option LegacyProfile → List ℕ → Result MeterLevels
decode_levels none block = fail unsupported "Dock has no known meter block"
decode_levels (some p) block =
    exact_length block p.meter_len "meter"
    >> ok (record { left = read_u32 block 0; right = read_u32 block 4 })

unfoldable pub decode_meters : ProfileId → List ℕ → Result MeterLevels
decode_meters id block = decode_levels (profile id).legacy block

pub record AlsaRange : Type 0 where
  pub min : ℤ  -- i32
  pub max : ℤ  -- i32

pub record AlsaControl : Type 0 where
  pub numid : ℕ
  pub range : Option AlsaRange

pub record AlsaControls : Type 0 where
  pub mute : Option AlsaControl
  pub gain : Option AlsaControl
  pub hp_volume : Option AlsaControl

-- `Ord::clamp`
abbrev pub clamp_ℤ : ℤ → ℤ → ℤ → ℤ
clamp_ℤ lo hi x = if ltb_ℤ x lo then lo else if ltb_ℤ hi x then hi else x

abbrev clamp_to : Option AlsaRange → ℤ → Result ℤ
clamp_to none value = fail unavailable "ALSA control range unavailable"
clamp_to (some range) value =
    if ltb_ℤ range.max range.min
    then fail invalid "Invalid ALSA control range"
    else ok (clamp_ℤ range.min range.max value)

unfoldable pub clamp : AlsaControl → ℤ → Result ℤ
clamp control value = clamp_to control.range value

clamp_to-range :
    (o : Option AlsaRange) (v x : ℤ)
    → clamp_to o v ≡ ok x
    → (r : AlsaRange) × (o ≡ some r) × (r.min ≤ℤ x) × (x ≤ℤ r.max)
clamp_to-range none v x h = absurd (cc)
clamp_to-range (some r) v x h = elim (Bool-cases (ltb_ℤ r.max r.min)) [
  | inl e ↦ absurd (cc (rw e at h))
  | inr e ↦ (r, refl, ground (arith, h, e), ground (arith, h, e))
]

-- A value that is sent to a control lies in a known range of it; sent again it stays as it is.
pub clamp-range :
    (control : AlsaControl) (v x : ℤ)
    → clamp control v ≡ ok x
    → (r : AlsaRange) × (control.range ≡ some r)
      × (r.min ≤ℤ x)
      × (x ≤ℤ r.max)
      × (clamp control x ≡ ok x)
unfolding clamp
clamp-range control v x h =
    let (r, known, lo, hi) = clamp_to-range control.range v x h in
    (r, known, lo, hi, rw known (ground (arith, lo, hi)))

-- Every byte of a block is below 256.
abbrev pub IsByte : ℕ → Type 0
IsByte b = b < 256

byte-lt : (bs : List ℕ) (i : ℕ) → All IsByte bs → byte bs i < 256
unfolding byte
byte-lt [] i h = omega arith
byte-lt (b ∷ bs) zero h = h.0
byte-lt (b ∷ bs) (suc i) h = byte-lt bs i h.1

read_u32-lt : (bs : List ℕ) (i : ℕ) → All IsByte bs → read_u32 bs i < 4294967296
read_u32-lt bs i h =
    omega (arith, byte-lt bs i h, byte-lt bs (i + 1) h, byte-lt bs (i + 2) h, byte-lt bs (i + 3) h)

decode_levels-u32 :
    (o : Option LegacyProfile) (bs : List ℕ) (m : MeterLevels)
    → All IsByte bs
    → decode_levels o bs ≡ ok m
    → (m.left < 4294967296) × (m.right < 4294967296)
decode_levels-u32 none bs m h e = absurd (cc)
decode_levels-u32 (some p) bs m h e =
    let (u, _, r) = >>=-eq-ok (exact_length bs p.meter_len "meter") _ e in
    subst (λ x. (x.left < 4294967296) × (x.right < 4294967296)) (ok_inj r)
      (read_u32-lt bs 0 h, read_u32-lt bs 4 h)

-- The levels that a meter block of bytes decodes to fit 32 bits.
pub decode_meters-u32 :
    (id : ProfileId) (bs : List ℕ) (m : MeterLevels)
    → All IsByte bs
    → decode_meters id bs ≡ ok m
    → (m.left < 4294967296) × (m.right < 4294967296)
unfolding decode_meters
decode_meters-u32 id bs m h e = decode_levels-u32 (profile id).legacy bs m h e
