-- ===== src/Mixer/Graph.antt =====
-- crates/openwave-runtime/src/mixer.rs: the observed graph, and what identifies a sink in it.
use openwave.Prelude.{
  ℕ, leb, String, Bool, true, false, not, ◌&&◌, ◌||◌, Option, none, some, List, [], ◌∷◌, ◌==◌,
  filter, any, find?, if◌then◌else◌, nat_instance, string_instance,
}
use openwave.Prelude.Dict.{Dict, get}
use openwave.Prelude.Decimal.{parse_uint, u32_max}
use openwave.Prelude.Json.{Json, ◌>>?◌, or_else, as_array, as_str, as_bool, as_u64}
use openwave.Model.{NodeIdentity, identity_eq}
use openwave.Snapshots.{CaptureSnapshot}
use openwave.Sources.{StreamSnapshot, OutputSnapshot}
use openwave.Matrix.{Mix}

pub record GraphNode (V : Type 0) : Type 0 where
  pub id : ℕ  -- u32
  pub identity : NodeIdentity
  pub name : String
  pub properties : Dict String V
  pub muted : Option Bool

pub record GraphPort : Type 0 where
  pub id : ℕ
  pub node : ℕ
  pub output : Bool
  pub channel : String

pub record GraphSink (F : Type 0) : Type 0 where
  pub node : ℕ
  pub pulse_index : ℕ
  pub level : F
  pub muted : Bool

-- The indices `names` and `identities` are read off the nodes: `parse` enters every node in both.
pub record GraphSnapshot (F V : Type 0) : Type 0 where
  pub cookie : ℕ
  pub nodes : List (GraphNode V)
  pub ports : List GraphPort
  pub links : List (ℕ × ℕ)
  pub sinks : Dict String (GraphSink F)
  pub captures : List (CaptureSnapshot V)
  pub streams : List StreamSnapshot
  pub outputs : List (OutputSnapshot V)
  pub default_sink : Option String

abbrev pub single {ℓ} : {A : Type ℓ} → List A → Option A
single [] = none
single (a ∷ []) = some a
single (a ∷ b ∷ l) = none

-- `stream.sink.as_deref() == Some(name)`
abbrev pub is_on : String → StreamSnapshot → Bool
is_on name stream = elim stream.sink [ none ↦ false | some sink ↦ sink == name ]

abbrev pub is_some {ℓ} : {A : Type ℓ} → Option A → Bool
is_some none = false
is_some (some a) = true

module _ {F V : Type 0} where
  unfoldable pub node : GraphSnapshot F V → String → Option (GraphNode V)
  node graph name = single (filter (λ n. n.name == name) graph.nodes)

  -- `names.contains_key`
  unfoldable pub is_named : GraphSnapshot F V → String → Bool
  is_named graph name = any (λ n. n.name == name) graph.nodes

  -- `identity`: `parse` refuses two nodes of one identity.
  unfoldable pub by_identity : GraphSnapshot F V → NodeIdentity → Option (GraphNode V)
  by_identity graph id = find? (λ n. identity_eq n.identity id) graph.nodes

module _ (js : Json) where
  open js use {V}

  abbrev narrow : Option ℕ → Option ℕ
  narrow none = none
  narrow (some n) = if leb n u32_max then some n else none

  unfoldable pub number : Option V → Option ℕ
  number value = value >>? λ v. or_else (narrow (as_u64 js v)) (as_str js v >>? parse_uint u32_max)

  abbrev same_text : Option String → String → Bool
  same_text none wanted = false
  same_text (some s) wanted = s == wanted

  -- `properties.get(key).and_then(Value::as_str) == Some(wanted)`
  abbrev pub is_text : Dict String V → String → String → Bool
  is_text properties key wanted = same_text (get key properties >>? as_str js) wanted

  abbrev same_number : Option ℕ → ℕ → Bool
  same_number none wanted = false
  same_number (some n) wanted = n == wanted

  abbrev pub is_number : Dict String V → String → ℕ → Bool
  is_number properties key wanted = same_number (number (get key properties)) wanted

  abbrev pub owned_node : Option (GraphNode V) → String → Option (GraphNode V)
  owned_node none owner = none
  owned_node (some n) owner = if is_text n.properties "openwave.owner" owner then some n else none

  unfoldable pub owned : {F : Type 0} → GraphSnapshot F V → String → String → Option (GraphNode V)
  unfolding node number
  owned graph name owner = owned_node (node graph name) owner

  abbrev same_bool : Option Bool → Bool → Bool
  same_bool none wanted = false
  same_bool (some b) wanted = if wanted then b else not b

  abbrev is_bool : Bool → V → Bool
  is_bool value v =
      same_bool (as_bool js v) value || same_text (as_str js v) (if value then "true" else "false")

  unfoldable pub bool_prop : GraphNode V → String → Bool → Bool
  bool_prop n key value = elim (get key n.properties) [ none ↦ false | some v ↦ is_bool value v ]

  abbrev is_pair : Option (List V) → String → String → Bool
  is_pair none a b = false
  is_pair (some []) a b = false
  is_pair (some (x ∷ [])) a b = false
  is_pair (some (x ∷ y ∷ [])) a b = same_text (as_str js x) a && same_text (as_str js y) b
  is_pair (some (x ∷ y ∷ z ∷ l)) a b = false

  -- `token` is the digest of `mix_definition_token`.
  unfoldable pub definition_matches :
      (String → String → String → String) → GraphNode V → Mix V → Bool
  unfolding bool_prop number
  definition_matches token n mix =
      if not (n.name == mix.sink) || is_some (get "pulse.module.id" n.properties)
      then false
      else if is_text n.properties "openwave.mix-id" mix.id
          && is_text n.properties "openwave.definition" (token mix.id mix.sink mix.description)
      then true
      else is_text n.properties "factory.name" "support.null-audio-sink"
        && is_text n.properties "media.name" mix.sink
        && is_text n.properties "node.description" mix.description
        && is_text n.properties "media.class" "Audio/Sink"
        && is_pair (get "audio.position" n.properties >>? as_array js) "FL" "FR"
        && bool_prop n "object.linger" true
        && bool_prop n "monitor.channel-volumes" true
        && bool_prop n "state.restore-props" false
        && is_number n.properties "priority.session" 0
