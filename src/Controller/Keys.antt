-- ===== src/Controller/Keys.antt =====
-- crates/openwave-runtime/src/controller/state.rs: what a pending edit is about.
use openwave.Prelude.{
  ℕ, String, Bool, true, false, ◌&&◌, ◌==◌, ◌≡◌, ◌↔◌, arith, Eq, str_eq_iff, nat_instance,
  string_instance,
}
use openwave.Profiles.{ProfileId, wave_xlr, wave_xlr_mk2, wave3, xlr_dock_mk2}
use openwave.Protocol.{
  DeviceSetting, set_gain_raw, set_mute, set_headphone_db, set_phantom, set_low_impedance,
  set_monitor_mix,
}
use openwave.Protocol.Units.{UnitId}

pub data SettingField : Type 0 where
  gain mute headphones phantom low_impedance monitor : SettingField

abbrev pub setting_field : {F : Type 0} → DeviceSetting F → SettingField
setting_field (set_gain_raw n) = gain
setting_field (set_mute b) = mute
setting_field (set_headphone_db x) = headphones
setting_field (set_phantom b) = phantom
setting_field (set_low_impedance b) = low_impedance
setting_field (set_monitor_mix n) = monitor

pub data PendingKey : Type 0 where
  device : UnitId → SettingField → PendingKey
  cell : String → String → PendingKey
  fx : String → PendingKey

abbrev field_index : SettingField → ℕ
field_index gain = 0
field_index mute = 1
field_index headphones = 2
field_index phantom = 3
field_index low_impedance = 4
field_index monitor = 5

field_index_inj : (a b : SettingField) → field_index a ≡ field_index b → a ≡ b
field_index_inj a b h = ground arith

abbrev profile_index : ProfileId → ℕ
profile_index wave_xlr = 0
profile_index wave_xlr_mk2 = 1
profile_index wave3 = 2
profile_index xlr_dock_mk2 = 3

profile_index_inj : (a b : ProfileId) → profile_index a ≡ profile_index b → a ≡ b
profile_index_inj a b h = ground arith

abbrev pub unit_eq : UnitId → UnitId → Bool
unit_eq a b =
    profile_index a.profile == profile_index b.profile
    && a.bus == b.bus
    && a.address == b.address
    && a.incarnation == b.incarnation

pub unit_eq_iff : (a b : UnitId) → (unit_eq a b ≡ true) ↔ (a ≡ b)
unit_eq_iff a b = ground (arith, profile_index_inj a.profile b.profile)

abbrev pub key_eq : PendingKey → PendingKey → Bool
key_eq (device u f) (device v g) = unit_eq u v && field_index f == field_index g
key_eq (cell s m) (cell t n) = s == t && m == n
key_eq (fx s) (fx t) = s == t
key_eq (device u f) (cell t n) = false
key_eq (device u f) (fx t) = false
key_eq (cell s m) (device v g) = false
key_eq (cell s m) (fx t) = false
key_eq (fx s) (device v g) = false
key_eq (fx s) (cell t n) = false

pub key_eq_iff : (a b : PendingKey) → (key_eq a b ≡ true) ↔ (a ≡ b)
key_eq_iff (device u f) (device v g) = ground (arith, unit_eq_iff u v, field_index_inj f g)
key_eq_iff (cell s m) (cell t n) = ground (arith, str_eq_iff s t, str_eq_iff m n)
key_eq_iff (fx s) (fx t) = ground (arith, str_eq_iff s t)
key_eq_iff (device u f) (cell t n) = ground arith
key_eq_iff (device u f) (fx t) = ground arith
key_eq_iff (cell s m) (device v g) = ground arith
key_eq_iff (cell s m) (fx t) = ground arith
key_eq_iff (fx s) (device v g) = ground arith
key_eq_iff (fx s) (cell t n) = ground arith

instance abbrev pub key_instance : Eq PendingKey
key_instance = record { beq = key_eq; beq_iff = key_eq_iff }
