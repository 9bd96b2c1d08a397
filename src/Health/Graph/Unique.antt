-- ===== src/Health/Graph/Unique.antt =====
-- No node of a dump that crates/openwave-core/src/health.rs reads is there twice.
use openwave.Prelude.{
  ℕ, ◌+◌, ◌≤◌, String, Bool, true, false, ◌&&◌, List, [], ◌∷◌, ◌==◌, ◌≡◌, arith, filter, length,
  any, Bool-cases, inl, inr, string_instance, nat_instance, if◌then◌else◌, nat_eq_iff, str_eq_iff,
}
use openwave.Prelude.Dict.{get as find_key, get-insert}
use openwave.Prelude.Json.{Json}
use openwave.Model.{ok, >>=-eq-ok, NodeIdentity, identity_instance, identity_eq_iff}
use openwave.Health.Graph.{Nodes, says, is_hardware, is_some, note_node, read_nodes, no_nodes}
use openwave.Health.Graph.Rounds.{
  is_id, id_of, class_of, name_of, serial_at, is_node, Round, passes, adds, note_node-Round,
}

module _ (js : Json) where
  open js use {V}

  -- A test of the nodes, and whether the collections have met a node that passes it: a round meets
  -- one only where there was none.
  record Meets (cookie : ℕ) (p : V → Bool) (met : Nodes js → Bool) : Type 0 where
    first :
        (ns : Nodes js) (o : V) (ns' : Nodes js)
        → Round js cookie ns o ns'
        → p o ≡ true
        → (met ns ≡ false) × (met ns' ≡ true)
    stays :
        (ns : Nodes js) (o : V) (ns' : Nodes js)
        → Round js cookie ns o ns'
        → met ns ≡ true
        → met ns' ≡ true

  read_nodes-once :
      (cookie : ℕ) (p : V → Bool) (met : Nodes js → Bool)
      → Meets cookie p met
      → (os : List V) (ns ns' : Nodes js) → read_nodes js cookie ns os ≡ ok ns'
      → length (filter p os) + (if met ns then 1 else 0) ≤ 1
  unfolding read_nodes
  read_nodes-once cookie p met m [] ns ns' h = ground arith
  read_nodes-once cookie p met m (o ∷ os) ns ns' h =
      let (mid, h1, h2) = >>=-eq-ok (note_node js cookie ns o) _ h in
      let round = note_node-Round js cookie ns o mid h1 in
      let rest = read_nodes-once cookie p met m os mid ns' h2 in
      elim (Bool-cases (p o)) [
        | inl t ↦
            let (before, after) = m.first ns o mid round t in ground (arith, t, before, after, rest)
        | inr f ↦ ground (arith, f, m.stays ns o mid round, rest)
      ]

  -- The tests of a node: its id, its serial, and the name of a device.
  abbrev pub has_id : ℕ → V → Bool
  has_id id o = is_node js o && is_id js (id_of js o) id

  abbrev pub has_serial : String → V → Bool
  has_serial serial o = is_node js o && says serial (serial_at js o)

  abbrev pub is_device : String → V → Bool
  is_device name o = is_node js o && is_hardware js (class_of js o) && says name (name_of js o)

  id-Meets : (cookie id : ℕ) → Meets cookie (has_id id) (λ ns. is_some js (find_key id ns.by_id))
  id-Meets cookie id = record {
    first = λ ns o ns' r t. elim r [
      | passes f e ↦ ground (arith, f, t)
      | adds j e n reads new ↦ ground (
        arith,
        n,
        t,
        reads.numbered,
        new.new_id,
        new.by_id,
        get-insert id j e ns.by_id,
        nat_eq_iff j id,
      )
    ];
    stays = λ ns o ns' r t. elim r [
      | passes f e ↦ ground (arith, e, t)
      | adds j e n reads new ↦
          ground (arith, t, new.by_id, get-insert id j e ns.by_id, nat_eq_iff j id)
    ];
  }

  serial-Meets :
      (cookie : ℕ) (serial : String)
      → Meets cookie (has_serial serial) (λ ns.
        any (λ i. i == record { server_cookie = cookie; object_serial = serial }) ns.identities)
  serial-Meets cookie serial =
      let identity : NodeIdentity = record { server_cookie = cookie; object_serial = serial } in
      record {
        first = λ ns o ns' r t. elim r [
          | passes f e ↦ ground (arith, f, t)
          | adds j e n reads new ↦ ground (
            arith,
            n,
            t,
            reads.serial,
            reads.served,
            new.new_identity,
            new.identities,
            str_eq_iff e.node.identity.object_serial serial,
            identity_eq_iff e.node.identity identity,
          )
        ];
        stays = λ ns o ns' r t. elim r [
          | passes f e ↦ ground (arith, e, t)
          | adds j e n reads new ↦ ground (arith, t, new.identities)
        ];
      }

  device-Meets :
      (cookie : ℕ) (name : String)
      → Meets cookie (is_device name) (λ ns. any (λ n. n == name) ns.names)
  device-Meets cookie name = record {
    first = λ ns o ns' r t. elim r [
      | passes f e ↦ ground (arith, f, t)
      | adds j e n reads new ↦
          ground (
            arith,
            n,
            t,
            reads.classed,
            reads.named,
            new.new_name,
            new.names,
            str_eq_iff e.name name,
          )
    ];
    stays = λ ns o ns' r t. elim r [
      | passes f e ↦ ground (arith, e, t)
      | adds j e n reads new ↦ ground (arith, t, new.names)
    ];
  }

  -- No two nodes with this id or this serial, and no two audio devices of this name.
  abbrev pub AreDistinct : ℕ → String → String → List V → Type 0
  AreDistinct id serial name objects =
      (length (filter (has_id id) objects) ≤ 1)
      × (length (filter (has_serial serial) objects) ≤ 1)
      × (length (filter (is_device name) objects) ≤ 1)

  pub read_nodes-AreDistinct :
      (cookie id : ℕ) (serial name : String) (os : List V) (ns : Nodes js)
      → read_nodes js cookie (no_nodes js) os ≡ ok ns
      → AreDistinct id serial name os
  read_nodes-AreDistinct cookie id serial name os ns h =
      let ids = read_nodes-once cookie _ _ (id-Meets cookie id) os (no_nodes js) ns h in
      let serials = read_nodes-once cookie _ _ (serial-Meets cookie serial) os (no_nodes js) ns h in
      let devices = read_nodes-once cookie _ _ (device-Meets cookie name) os (no_nodes js) ns h in
      (omega (arith, ids), omega (arith, serials), omega (arith, devices))
