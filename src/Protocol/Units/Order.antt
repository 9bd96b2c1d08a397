-- ===== src/Protocol/Units/Order.antt =====
-- crates/openwave-core/src/protocol.rs: the enumeration keeps duplicates, in a fixed order.
use openwave.Profiles.{ProfileId, wave3}
use openwave.Prelude.{
  ℕ, ◌<◌, ◌≤◌, ◌⊎◌, ◌==◌, false, sym, ltb, nat_instance, Bool, true, not, ◌&&◌, List, [], ◌∷◌, ◌≡◌,
  refl, ◌∙◌, filter, arith, Bool-cases, inl, inr,
}
use openwave.Protocol.Units.{
  UsbIdentity, Found, recognised, key_lt, same_key, insert_sorted, sort_by_key, supported_devices,
}

-- No entry stands above the first one.
abbrev heads : Found → List Found → Bool
heads x [] = true
heads x (y ∷ ys) = not (key_lt y x)

-- The keys do not fall.
abbrev pub is_sorted : List Found → Bool
is_sorted [] = true
is_sorted (x ∷ xs) = heads x xs && is_sorted xs

heads-insert_sorted :
    (y x : Found) (ys : List Found)
    → key_lt y x ≡ true
    → heads y ys ≡ true
    → heads y (insert_sorted x ys) ≡ true
unfolding insert_sorted
heads-insert_sorted y x [] h k = ground (arith, h)
heads-insert_sorted y x (z ∷ ys) h k = ground (arith, h, k)

is_sorted-insert_sorted :
    (x : Found) (ys : List Found) → is_sorted ys ≡ true → is_sorted (insert_sorted x ys) ≡ true
unfolding insert_sorted
is_sorted-insert_sorted x [] h = refl
is_sorted-insert_sorted x (y ∷ ys) h = elim (Bool-cases (key_lt y x)) [
  | inl e ↦
      let ih = is_sorted-insert_sorted x ys (ground (arith, h)) in
      let top = heads-insert_sorted y x ys e (ground (arith, h)) in rw e (ground (arith, ih, top))
  | inr e ↦ rw e (ground (arith, h, e))
]

is_sorted-sort_by_key : (xs : List Found) → is_sorted (sort_by_key xs) ≡ true
unfolding sort_by_key
is_sorted-sort_by_key [] = refl
is_sorted-sort_by_key (x ∷ xs) =
    is_sorted-insert_sorted x (sort_by_key xs) (is_sorted-sort_by_key xs)

filter-insert_sorted :
    (k x : Found) (ys : List Found)
    → filter (same_key k) (insert_sorted x ys) ≡ filter (same_key k) (x ∷ ys)
unfolding insert_sorted
filter-insert_sorted k x [] = refl
filter-insert_sorted k x (y ∷ ys) = elim (Bool-cases (key_lt y x)) [
  | inl e ↦ rw e (ground (arith, e, filter-insert_sorted k x ys))
  | inr e ↦ rw e refl
]

filter-sort_by_key :
    (k : Found) (xs : List Found) → filter (same_key k) (sort_by_key xs) ≡ filter (same_key k) xs
unfolding sort_by_key
filter-sort_by_key k [] = refl
filter-sort_by_key k (x ∷ xs) =
    filter-insert_sorted k x (sort_by_key xs) ∙ ground (arith, filter-sort_by_key k xs)

-- A lower bus, or the same bus and no lower address.
abbrev pub Precedes : Found → Found → Type 0
Precedes (p, bus, address) (q, later_bus, later_address) =
    (bus < later_bus) ⊎ ((bus ≡ later_bus) × (address ≤ later_address))

abbrev pub IsAscending : List Found → Type 0
IsAscending [] = Unit {0}
IsAscending (x ∷ []) = Unit {0}
IsAscending (x ∷ y ∷ ys) = Precedes x y × IsAscending (y ∷ ys)

key_lt-Precedes : (x y : Found) → key_lt y x ≡ false → Precedes x y
key_lt-Precedes (p, b, a) (q, c, d) h = elim (Bool-cases (ltb b c)) [
  | inl e ↦ inl (ground (arith, e))
  | inr e ↦ inr (ground (arith, e, h), ground (arith, e, h))
]

is_sorted-IsAscending : (xs : List Found) → is_sorted xs ≡ true → IsAscending xs
is_sorted-IsAscending [] h = tt
is_sorted-IsAscending (x ∷ []) h = tt
is_sorted-IsAscending (x ∷ y ∷ ys) h =
    (key_lt-Precedes x y (ground (arith, h)), is_sorted-IsAscending (y ∷ ys) (ground (arith, h)))

-- A position of the bus.
abbrev pub is_at : ℕ → ℕ → Found → Bool
is_at bus address (p, b, a) = b == bus && a == address

is_at-same_key :
    (bus address : ℕ) (p : ProfileId) (xs : List Found)
    → filter (is_at bus address) xs ≡ filter (same_key (p, bus, address)) xs
is_at-same_key bus address p [] = refl
is_at-same_key bus address p ((q, b, a) ∷ xs) = ground (arith, is_at-same_key bus address p xs)

-- The supported devices stand in the order of bus and then of address, and at each position of the
-- bus there are those that were recognised there, duplicates included, in their order.
pub supported_devices_order :
    (devices : List UsbIdentity) (bus address : ℕ)
    → IsAscending (supported_devices devices)
      × (filter (is_at bus address) (supported_devices devices)
          ≡ filter (is_at bus address) (recognised devices))
unfolding supported_devices
supported_devices_order devices bus address = (
  is_sorted-IsAscending (supported_devices devices) (is_sorted-sort_by_key (recognised devices)),
  is_at-same_key bus address wave3 (supported_devices devices)
      ∙ filter-sort_by_key (wave3, bus, address) (recognised devices)
      ∙ sym (is_at-same_key bus address wave3 (recognised devices)),
)
