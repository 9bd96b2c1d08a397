-- ===== src/Prelude/Bytes.antt =====
-- Blocks of bytes: reading and writing one byte, or two in little-endian order.
use Prim.Native.Nat.{ℕ, zero, suc, ◌+◌, ◌*◌, ◌-◌, ◌/◌, ◌%◌, ◌<◌}
use mathlib.Core.Path.{◌≡◌, refl, ap, ◌∙◌}
use mathlib.Core.List.{List, [], ◌∷◌}
use native.Mathlib.Omega.{arith}
use openwave.Prelude.Tests.{if◌then◌else◌, nat_eq, ltb}
use openwave.Prelude.Lists.{length, set}
use openwave.Prelude.Int.{ℤ, pos, negsuc}

-- `data[i]`, with 0 where the source would panic: each use has its index in range.
unfoldable pub byte : List ℕ → ℕ → ℕ
byte [] i = 0
byte (b ∷ bs) zero = b
byte (b ∷ bs) (suc i) = byte bs i

abbrev pub zeros : ℕ → List ℕ
zeros zero = []
zeros (suc n) = 0 ∷ zeros n

-- `u16::from_le_bytes`
abbrev pub read_u16 : List ℕ → ℕ → ℕ
read_u16 bs i = byte bs i + 256 * byte bs (i + 1)

-- The number below 2¹⁵ that 16 bits stand for, or the negative one.
abbrev pub signed : ℕ → ℤ
signed w = if ltb w 32768 then pos w else negsuc (65535 - w)

abbrev pub read_i16 : List ℕ → ℕ → ℤ
read_i16 bs i = signed (read_u16 bs i)

-- The 16 bits of a signed number.
abbrev pub unsigned : ℤ → ℕ
unsigned (pos n) = n % 65536
unsigned (negsuc n) = 65535 - n % 65536

-- `copy_from_slice(&value.to_le_bytes())`
unfoldable pub put_u16 : List ℕ → ℕ → ℕ → List ℕ
put_u16 bs i value = set (set bs i (value % 256)) (i + 1) (value / 256 % 256)

pub length-set : (bs : List ℕ) (i v : ℕ) → length (set bs i v) ≡ length bs
length-set [] i v = refl
length-set (b ∷ bs) zero v = refl
length-set (b ∷ bs) (suc i) v = ap suc (length-set bs i v)

pub byte-set :
    (bs : List ℕ) (i v j : ℕ)
    → i < length bs
    → byte (set bs i v) j ≡ (if nat_eq i j then v else byte bs j)
unfolding byte
byte-set [] i v j h = absurd (omega (arith, h))
byte-set (b ∷ bs) zero v zero h = refl
byte-set (b ∷ bs) zero v (suc j) h = ground arith
byte-set (b ∷ bs) (suc i) v zero h = ground arith
byte-set (b ∷ bs) (suc i) v (suc j) h =
    let ih = byte-set bs i v j (omega (arith, h)) in ground (arith, ih)

pub length-put_u16 : (bs : List ℕ) (i v : ℕ) → length (put_u16 bs i v) ≡ length bs
unfolding put_u16
length-put_u16 bs i v =
    length-set (set bs i (v % 256)) (i + 1) (v / 256 % 256) ∙ length-set bs i (v % 256)

pub byte-put_u16 :
    (bs : List ℕ) (i v j : ℕ)
    → i + 1 < length bs
    → byte (put_u16 bs i v) j
      ≡ (if nat_eq (i + 1) j then v / 256 % 256 else if nat_eq i j then v % 256 else byte bs j)
unfolding put_u16
byte-put_u16 bs i v j h = ground (
  arith,
  byte-set (set bs i (v % 256)) (i + 1) (v / 256 % 256) j (rw (length-set bs i (v % 256)) h),
  byte-set bs i (v % 256) j (omega (arith, h)),
)

pub read_u16-put_u16 :
    (bs : List ℕ) (i v : ℕ) → i + 1 < length bs → v < 65536 → read_u16 (put_u16 bs i v) i ≡ v
read_u16-put_u16 bs i v h k =
    rw (byte-put_u16 bs i v i h, byte-put_u16 bs i v (i + 1) h) (ground (arith, h, k))
