-- ===== src/Health/Graph/Rounds.antt =====
-- What a round over the nodes of a dump (crates/openwave-core/src/health.rs) reads and adds.
use openwave.Prelude.{
  ℕ, String, Bool, true, false, ◌&&◌, Option, none, some, ◌∷◌, ◌==◌, ◌≡◌, arith, sym, subst, any,
  Bool-cases, inl, inr, string_instance, nat_instance, if◌then◌else◌,
}
use openwave.Prelude.Dict.{Dict, get as find_key, insert}
use openwave.Prelude.Json.{Json, ◌>>?◌, member, as_object, as_str}
use openwave.Model.{ok, ok_inj, ◌>>=◌, >>=-eq-ok, identity_instance}
use openwave.Health.Graph.{
  Entry, Nodes, is_kind, or_empty, is_hardware, is_some, serial_of, uint, read_node, add_node,
  note_node,
}

module _ (js : Json) where
  open js use {V}

  abbrev pub is_id : Option ℕ → ℕ → Bool
  is_id none id = false
  is_id (some n) id = n == id

  abbrev pub id_of : V → Option ℕ
  id_of o = member js "id" o >>? uint js

  abbrev props_of : V → Option (Dict String V)
  props_of o =
      (member js "info" o >>? as_object js) >>? λ info. find_key "props" info >>? as_object js

  abbrev pub class_of : V → String
  class_of o = or_empty (props_of o >>? λ p. find_key "media.class" p >>? as_str js)

  abbrev pub name_of : V → Option String
  name_of o = props_of o >>? λ p. find_key "node.name" p >>? as_str js

  abbrev pub serial_at : V → Option String
  serial_at o = id_of o >>? λ id. props_of o >>? λ p. serial_of js (find_key "object.serial" p) id

  abbrev pub is_node : V → Bool
  is_node o = is_kind js "PipeWire:Interface:Node" o

  -- What read_node tells of the object.
  pub record Reads (cookie : ℕ) (o : V) (id : ℕ) (e : Entry js) : Type 0 where
    pub numbered : id_of o ≡ some id
    pub classed : class_of o ≡ e.class
    pub named : name_of o ≡ some e.name
    pub serial : serial_at o ≡ some e.node.identity.object_serial
    pub served : e.node.identity.server_cookie ≡ cookie

  read_node-Reads :
      (cookie : ℕ) (o : V) (id : ℕ) (e : Entry js)
      → read_node js cookie o ≡ ok (id, e)
      → Reads cookie o id e
  unfolding read_node
  read_node-Reads cookie o id e h = record {
    numbered = ground arith;
    classed = ground arith;
    named = ground arith;
    serial = ground arith;
    served = ground arith;
  }

  pub record Adds (ns : Nodes js) (id : ℕ) (e : Entry js) (ns' : Nodes js) : Type 0 where
    pub new_id : is_some js (find_key id ns.by_id) ≡ false
    pub new_identity : any (λ i. i == e.node.identity) ns.identities ≡ false
    pub new_name : is_hardware js e.class && any (λ n. n == e.name) ns.names ≡ false
    pub by_id : ns'.by_id ≡ insert id e ns.by_id
    pub identities : ns'.identities ≡ e.node.identity ∷ ns.identities
    pub names : ns'.names ≡ (if is_hardware js e.class then e.name ∷ ns.names else ns.names)

  add_node-Adds :
      (ns : Nodes js) (id : ℕ) (e : Entry js) (ns' : Nodes js)
      → add_node js ns id e ≡ ok ns'
      → Adds ns id e ns'
  unfolding add_node
  add_node-Adds ns id e ns' h = record {
    new_id = ground arith;
    new_identity = ground arith;
    new_name = ground arith;
    by_id = ground arith;
    identities = ground arith;
    names = ground arith;
  }

  -- What a round does to the collections.
  pub data Round (cookie : ℕ) (ns : Nodes js) (o : V) (ns' : Nodes js) : Type 0 where
    passes : is_node o ≡ false → ns' ≡ ns → Round cookie ns o ns'
    adds :
        (id : ℕ) (e : Entry js)
        → is_node o ≡ true
        → Reads cookie o id e
        → Adds ns id e ns'
        → Round cookie ns o ns'

  pub note_node-Round :
      (cookie : ℕ) (ns : Nodes js) (o : V) (ns' : Nodes js)
      → note_node js cookie ns o ≡ ok ns'
      → Round cookie ns o ns'
  unfolding note_node
  note_node-Round cookie ns o ns' h = elim (Bool-cases (is_node o)) [
    | inl t ↦
        let h' : (read_node js cookie o >>= λ p. let (id, e) = p in add_node js ns id e) ≡ ok ns' =
          subst
            (λ b.
              (if b
                then (read_node js cookie o >>= λ p. let (id, e) = p in add_node js ns id e)
                else ok ns)
              ≡ ok ns')
            t h in
        let ((id, e), h1, h2) = >>=-eq-ok (read_node js cookie o) _ h' in
        adds id e t (read_node-Reads cookie o id e h1) (add_node-Adds ns id e ns' h2)
    | inr f ↦ passes f (
        sym (
          ok_inj (
            subst
              (λ b.
                (if b
                  then (read_node js cookie o >>= λ p. let (id, e) = p in add_node js ns id e)
                  else ok ns)
                ≡ ok ns')
              f h)))
  ]
