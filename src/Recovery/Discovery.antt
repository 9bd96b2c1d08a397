-- ===== src/Recovery/Discovery.antt =====
-- crates/openwave-runtime/src/recovery.rs: what the commands' answers say of a target.
use openwave.Prelude.{
  String, Bool, not, ◌&&◌, Option, none, some, List, [], ◌∷◌, ◌==◌, filter, find?, string_instance,
  nat_instance, if◌then◌else◌,
}
use openwave.Prelude.Dict.{get as find_key}
use openwave.Prelude.Decimal.{decimal, parse_uint, u32_max}
use openwave.Prelude.Json.{
  Json, ◌>>?◌, or_else, as_array, as_object, as_str, as_u64, member, pointer,
}
use openwave.Model.{Result, ok, fail, identity, ok_or, NodeIdentity, identity_eq, ◌>>=◌}
use openwave.Health.Graph.{says}

abbrev pub identity_error : String
identity_error = "Recovery target is absent, ambiguous or has changed identity"

-- `ok_or_else(identity_error)`
abbrev pub exactly : {A : Type 0} → Option A → Result A
exactly o = ok_or o identity identity_error

abbrev pub only : {A : Type 0} → List A → Result A
only [] = fail identity identity_error
only (a ∷ []) = ok a
only (a ∷ b ∷ rest) = fail identity identity_error

abbrev nonempty : String → Option String
nonempty s = if s == "" then none else some s

pub record CardTarget : Type 0 where
  pub name : String
  pub index : String
  pub identity : NodeIdentity
  pub profile : String

abbrev pub target_eq : CardTarget → CardTarget → Bool
target_eq a b =
    a.name == b.name
    && a.index == b.index
    && identity_eq a.identity b.identity
    && a.profile == b.profile

-- A profile to return to.
abbrev pub active_profile : Option String → Option String
active_profile o = o >>? λ s. if not (s == "") && not (s == "off") then some s else none

module _ (js : Json) where
  open js use {V}

  unfoldable pub scalar : V → Option String
  scalar v = or_else (as_str js v >>? nonempty) (as_u64 js v >>? λ n. some (decimal n))

  unfoldable pub unique : List V → String → String → Result V
  unfolding scalar
  unique entries key value =
      only (filter (λ entry. says value (member js key entry >>? scalar)) entries)

  abbrev is_named : String → String → String → V → Bool
  is_named kind name_key name entry =
      says kind (member js "type" entry >>? as_str js)
      && says name (pointer js ("info" ∷ "props" ∷ []) entry >>? member js name_key >>? as_str js)

  -- The object's serial, or the entry's own number where it has none.
  abbrev serial_or_id : V → Option V → Option String
  serial_or_id entry (some v) = scalar v
  serial_or_id entry none = member js "id" entry >>? scalar

  unfoldable pub graph_identity : V → String → String → String → Result NodeIdentity
  unfolding scalar
  graph_identity graph kind name_key name = do
    entries ← exactly (as_array js graph)
    core ← exactly (
        find? (λ entry. says "PipeWire:Interface:Core" (member js "type" entry >>? as_str js))
          entries)
    cookie ← exactly (pointer js ("info" ∷ "cookie" ∷ []) core >>? scalar >>? parse_uint u32_max)
    entry ← only (filter (is_named kind name_key name) entries)
    props ← exactly (pointer js ("info" ∷ "props" ∷ []) entry >>? as_object js)
    serial ← exactly (serial_or_id entry (find_key "object.serial" props))
    ok (record { server_cookie = cookie; object_serial = serial })

  -- The serial that Pulse shows of a node.
  abbrev pub pulse_serial : V → Option String
  pulse_serial node = pointer js ("properties" ∷ "object.serial" ∷ []) node >>? scalar

  -- A profile is a text, or an object with a name.
  abbrev pub shown_profile : V → Option String
  shown_profile found = member js "active_profile" found >>? λ v.
      or_else (as_str js v) (member js "name" v >>? as_str js)
