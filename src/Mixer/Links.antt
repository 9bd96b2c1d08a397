-- ===== src/Mixer/Links.antt =====
-- crates/openwave-runtime/src/mixer.rs: `link_nodes`. The state are the links of the graph that is
-- passed, the world of the backend and the links that were asked for, the latest first.
pub mod Wired
use openwave.Prelude.{
  ℕ, zero, suc, ◌+◌, ◌%◌, String, Bool, true, false, not, ◌&&◌, Option, none, some, List, [], ◌∷◌,
  ◌++◌, ◌==◌, filter, find?, length, get_elem?, if◌then◌else◌, nat_instance, string_instance, Eq,
  ◌↔◌, ◌≡◌, nat_eq_iff, arith, refl,
}
use openwave.Prelude.Dict.{contains, add}
use openwave.Prelude.Action.{Action, continue, ◌>>=◌, ◌>>◌, lift, is_ok}
use openwave.Model.{NodeIdentity, Result, ok, err}
use openwave.Mixer.Graph.{GraphNode, GraphPort, GraphSnapshot, by_identity}

abbrev pub edge_eq : ℕ × ℕ → ℕ × ℕ → Bool
edge_eq (a, b) (c, d) = a == c && b == d

pub edge_eq_iff : (x y : ℕ × ℕ) → (edge_eq x y ≡ true) ↔ (x ≡ y)
edge_eq_iff (a, b) (c, d) = ground (arith, nat_eq_iff a c, nat_eq_iff b d)

instance abbrev pub edge_instance : Eq (ℕ × ℕ)
edge_instance = record { beq = edge_eq; beq_iff = edge_eq_iff }

pub record Wires (W : Type 0) : Type 0 where
  pub world : W
  pub links : List (ℕ × ℕ)
  pub calls : List (ℕ × ℕ)

abbrev pub outputs_of : ℕ → List GraphPort → List GraphPort
outputs_of id ports = filter (λ p. p.node == id && p.output) ports

abbrev pub inputs_of : ℕ → List GraphPort → List GraphPort
inputs_of id ports = filter (λ p. p.node == id && not p.output) ports

abbrev pub fits : GraphPort → GraphPort → Bool
fits dest p = not (p.channel == "") && p.channel == dest.channel

-- `unwrap_or`
abbrev pub or_default {ℓ} : {A : Type ℓ} → Option A → A → A
or_default none a = a
or_default (some a) b = a

-- The origin of the input `dest`; `first` and `others` are the outputs, of which there is one.
unfoldable pub origin : ℕ → GraphPort → GraphPort → List GraphPort → GraphPort
origin index dest first others =
    or_default (find? (fits dest) (first ∷ others))
      (or_default (get_elem? (first ∷ others) (index % length (first ∷ others))) first)

module _ {W : Type 0} (link : ℕ → ℕ → W → Result (Unit {0}) × W) where
  abbrev pub note_link : ℕ × ℕ → Result (Unit {0}) × W → Wires W → Result (Unit {0}) × Wires W
  note_link edge (err e, w) s = (err e, record s { world = w; calls = edge ∷ s.calls })
  note_link edge (ok u, w) s =
      (ok tt, record s { world = w; links = (add edge s.links).0; calls = edge ∷ s.calls })

  unfoldable pub connect : ℕ → ℕ → Action (Wires W) (Unit {0})
  connect from to s =
      if contains (from, to) s.links
      then (ok tt, s)
      else note_link (from, to) (link from to s.world) s

  unfoldable pub wire :
      GraphPort → List GraphPort → ℕ → List GraphPort → Action (Wires W) (Unit {0})
  unfolding origin connect
  wire first others index [] = lift (ok tt)
  wire first others index (dest ∷ inputs) =
      connect (origin index dest first others).id dest.id >> wire first others (index + 1) inputs

  abbrev pub wire_ports : List GraphPort → List GraphPort → Action (Wires W) Bool
  wire_ports [] inputs = lift (ok false)
  wire_ports (first ∷ others) [] = lift (ok false)
  wire_ports (first ∷ others) (dest ∷ inputs) =
      wire first others 0 (dest ∷ inputs) >>= λ u. lift (ok true)

  abbrev pub link_found :
      {V : Type 0}
      → List GraphPort
      → Option (GraphNode V)
      → Option (GraphNode V)
      → Action (Wires W) Bool
  link_found ports none target = lift (ok false)
  link_found ports (some source) none = lift (ok false)
  link_found ports (some source) (some target) =
      wire_ports (outputs_of source.id ports) (inputs_of target.id ports)

  unfoldable pub link_nodes :
      {F V : Type 0} → GraphSnapshot F V → NodeIdentity → NodeIdentity → Action (Wires W) Bool
  unfolding wire by_identity
  link_nodes graph source target =
      link_found graph.ports (by_identity graph source) (by_identity graph target)
