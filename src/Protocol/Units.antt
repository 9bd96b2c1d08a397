-- ===== src/Protocol/Units.antt =====
-- crates/openwave-core/src/protocol.rs: which USB device, card and capture belong together.
pub mod Matching
pub mod Order
use Prim.Native.Char.{code}
use Prim.Native.String.String.{[] as empty, ◌∷◌ as cons}
use openwave.Prelude.{
  ℕ, String, Bool, true, false, not, ◌&&◌, ◌||◌, Option, none, some, List, [], ◌∷◌, ◌==◌, filter,
  ltb, nat_eq, nat_instance, string_instance, if◌then◌else◌,
}
use openwave.Profiles.{ProfileId, DeviceProfile, profile, profile_for_usb}

pub record UsbIdentity : Type 0 where
  pub vid : ℕ
  pub pid : ℕ
  pub bus : ℕ
  pub address : ℕ

pub record UnitId : Type 0 where
  pub profile : ProfileId
  pub bus : ℕ
  pub address : ℕ
  pub incarnation : ℕ

abbrev pub Found : Type 0
Found = ProfileId × ℕ × ℕ

abbrev found_at : Option DeviceProfile → UsbIdentity → List Found → List Found
found_at none device later = later
found_at (some p) device later = (p.id, device.bus, device.address) ∷ later

-- `filter_map`
unfoldable pub recognised : List UsbIdentity → List Found
recognised [] = []
recognised (device ∷ devices) =
    found_at (profile_for_usb device.vid device.pid) device (recognised devices)

-- The order of the keys `(bus, address)`.
abbrev pub key_lt : Found → Found → Bool
key_lt (p, b, a) (q, c, d) = ltb b c || (nat_eq b c && ltb a d)

abbrev pub same_key : Found → Found → Bool
same_key (p, b, a) (q, c, d) = nat_eq b c && nat_eq a d

unfoldable pub insert_sorted : Found → List Found → List Found
insert_sorted x [] = x ∷ []
insert_sorted x (y ∷ ys) =
    let later = insert_sorted x ys in if key_lt y x then y ∷ later else x ∷ y ∷ ys

-- `sort_by_key`, which is stable.
unfoldable pub sort_by_key : List Found → List Found
sort_by_key [] = []
sort_by_key (x ∷ xs) = insert_sorted x (sort_by_key xs)

unfoldable pub supported_devices : List UsbIdentity → List Found
supported_devices devices = sort_by_key (recognised devices)

pub record AlsaCardIdentity : Type 0 where
  pub card : ℕ
  pub usb : UsbIdentity

abbrev pub same_usb : UsbIdentity → UsbIdentity → Bool
same_usb a b = a.vid == b.vid && a.pid == b.pid && a.bus == b.bus && a.address == b.address

abbrev pub wanted_usb : UnitId → UsbIdentity
wanted_usb unit = record {
  vid = (profile unit.profile).vid;
  pid = (profile unit.profile).pid;
  bus = unit.bus;
  address = unit.address;
}

-- The first of the matches, unless there is a second.
abbrev pub single_card : List AlsaCardIdentity → Option ℕ
single_card [] = none
single_card (card ∷ []) = some card.card
single_card (card ∷ second ∷ rest) = none

unfoldable pub card_for_unit : UnitId → List AlsaCardIdentity → Option ℕ
card_for_unit unit cards = single_card (filter (λ card. same_usb card.usb (wanted_usb unit)) cards)

pub record ConnectedIdentity : Type 0 where
  pub unit : UnitId
  pub serial : String
  pub connected : Bool

-- `str::strip_prefix`
abbrev pub strip_prefix : String → String → Option String
strip_prefix s empty = some s
strip_prefix empty (cons d p) = none
strip_prefix (cons c s) (cons d p) =
    let rest = strip_prefix s p in if nat_eq (code c) (code d) then rest else none

abbrev is_text : String → Option String → Bool
is_text t none = false
is_text t (some s) = s == t

-- The two `continue`s of the loop, turned around.
unfoldable pub is_match : String → ConnectedIdentity → Bool
is_match serial d =
    not (not d.connected || d.serial == "")
    && (serial == d.serial
        || is_text d.serial (strip_prefix serial (profile d.unit.profile).capture_serial_prefix))

abbrev is_some : Option UnitId → Bool
is_some none = false
is_some (some u) = true

-- The loop, with `matched`.
unfoldable pub match_devices : String → Option UnitId → List ConnectedIdentity → Option UnitId
match_devices serial matched [] = matched
match_devices serial matched (d ∷ ds) =
    let skipped = match_devices serial matched ds in
    let taken = match_devices serial (some d.unit) ds in
    if not (is_match serial d) then skipped else if is_some matched then none else taken

unfoldable pub device_for_capture : String → List ConnectedIdentity → Option UnitId
device_for_capture serial devices = if serial == "" then none else match_devices serial none devices
