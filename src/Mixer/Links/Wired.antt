-- ===== src/Mixer/Links/Wired.antt =====
-- What `link_nodes` of crates/openwave-runtime/src/mixer.rs links.
use openwave.Prelude.{
  ℕ, zero, suc, ◌+◌, ◌%◌, Bool, true, false, Option, none, some, List, [], ◌∷◌, find?, any, length,
  get_elem?, nat_instance, string_instance, ◌≡◌, refl, sym, ◌∙◌, subst, arith, either, beq_refl,
  All,
}
use openwave.Prelude.Search.{In, here, later, find?-In}
use openwave.Prelude.Dict.{contains, contains-add}
use openwave.Prelude.Action.{Action, continue, ◌>>=◌, lift}
use openwave.Model.{NodeIdentity, Result, ok, err, ok_inj}
use openwave.Mixer.Graph.{GraphNode, GraphPort, GraphSnapshot, by_identity}
use openwave.Mixer.Links.{
  edge_instance, Wires, outputs_of, inputs_of, fits, or_default, origin, note_link, connect, wire,
  wire_ports, link_found, link_nodes,
}

-- An output that the input is linked with; of its channel, where one of the outputs has it.
pub record IsWired (outputs : List GraphPort) (links : List (ℕ × ℕ)) (dest : GraphPort)
    : Type 0 where
  pub from : GraphPort
  pub offered : In from outputs
  pub linked : contains (from.id, dest.id) links ≡ true
  pub matched : any (fits dest) outputs ≡ true → fits dest from ≡ true

get_elem?-default-In :
    {A : Type 0} (l : List A) (i : ℕ) (a : A) (m : List A)
    → In a m
    → ((b : A) → In b l → In b m)
    → In (or_default (get_elem? l i) a) m
get_elem?-default-In [] i a m h k = h
get_elem?-default-In (b ∷ l) zero a m h k = k b (here refl)
get_elem?-default-In (b ∷ l) (suc i) a m h k = get_elem?-default-In l i a m h (λ c j. k c (later j))

find?-any : {A : Type 0} (p : A → Bool) (l : List A) → find? p l ≡ none → any p l ≡ false
find?-any p [] h = refl
find?-any p (a ∷ l) h = ground (arith, find?-any p l, h)

-- The element that is found, or else another one.
found_or :
    {A : Type 0} (p : A → Bool) (l : List A) (found : Option A) (a : A)
    → find? p l ≡ found
    → In a l
    → In (or_default found a) l × (any p l ≡ true → p (or_default found a) ≡ true)
found_or p l none a e i = (i, λ h. absurd (cc (find?-any p l e)))
found_or p l (some b) a e i = let (j, q) = find?-In p l b e in (j, λ h. q)

origin-In :
    (index : ℕ) (dest first : GraphPort) (others : List GraphPort)
    → In (origin index dest first others) (first ∷ others)
      × (any (fits dest) (first ∷ others) ≡ true
          → fits dest (origin index dest first others) ≡ true)
unfolding origin
origin-In index dest first others =
    let l = first ∷ others in
    found_or (fits dest) l (find? (fits dest) l) _ refl
      (get_elem?-default-In l (index % length l) first l (here refl) (λ b j. j))

module _ {W : Type 0} (link : ℕ → ℕ → W → Result (Unit {0}) × W) where
  -- Links are only added.
  pub record Extends (s t : Wires W) : Type 0 where
    pub kept : (e : ℕ × ℕ) → contains e s.links ≡ true → contains e t.links ≡ true

  Connects : ℕ × ℕ → Wires W → Result (Unit {0}) × Wires W → Type 0
  Connects edge s q = Extends s q.1 × (q.0 ≡ ok tt → contains edge q.1.links ≡ true)

  note_link-Connects :
      (edge : ℕ × ℕ) (r : Result (Unit {0}) × W) (s : Wires W)
      → Connects edge s (note_link link edge r s)
  unfolding Connects
  note_link-Connects edge (err e, w) s = (record { kept = λ j h. h }, λ h. absurd (cc))
  note_link-Connects edge (ok u, w) s = (
    record { kept = λ j h. contains-add j edge s.links ∙ ground (arith, h) },
    λ h. contains-add edge edge s.links ∙ rw (beq_refl edge) refl,
  )

  connect-Connects : (from to : ℕ) (s : Wires W) → Connects (from, to) s (connect link from to s)
  unfolding connect Connects
  connect-Connects from to s =
      either (Connects (from, to) s) (contains (from, to) s.links)
        (λ h. (record { kept = λ j k. k }, λ e. h))
        (λ h. note_link-Connects (from, to) (link from to s.world) s)

  -- After a wiring that succeeds.
  record Wiring (first : GraphPort) (others inputs : List GraphPort) (s : Wires W)
      (q : Result (Unit {0}) × Wires W) : Type 0 where
    extends : Extends s q.1
    wired : q.0 ≡ ok tt → All (IsWired (first ∷ others) q.1.links) inputs

  continue-Wiring :
      (index : ℕ) (dest first : GraphPort) (others inputs : List GraphPort) (s : Wires W)
      (q : Result (Unit {0}) × Wires W) (rest : Action (Wires W) (Unit {0}))
      → Connects ((origin index dest first others).id, dest.id) s q
      → ((t : Wires W) → Wiring first others inputs t (rest t))
      → Wiring first others (dest ∷ inputs) s (continue q (λ u. rest))
  unfolding Connects
  continue-Wiring index dest first others inputs s (err e, t) rest c k = record {
    extends = c.0;
    wired = λ h. absurd (cc);
  }
  continue-Wiring index dest first others inputs s (ok u, t) rest c k = record {
    extends = record { kept = λ e h. (k t).extends.kept e (c.0.kept e h) };
    wired = λ h.
        let o = origin-In index dest first others in
        (
          record {
            from = origin index dest first others;
            offered = o.0;
            linked = (k t).extends.kept _ (c.1 refl);
            matched = o.1;
          },
          (k t).wired h,
        );
  }

  wire-Wiring :
      (first : GraphPort) (others : List GraphPort) (index : ℕ) (inputs : List GraphPort)
      (s : Wires W)
      → Wiring first others inputs s (wire link first others index inputs s)
  unfolding wire ◌>>=◌ lift
  wire-Wiring first others index [] s = record {
    extends = record { kept = λ e h. h };
    wired = λ h. tt;
  }
  wire-Wiring first others index (dest ∷ inputs) s =
      continue-Wiring index dest first others inputs s _ (wire link first others (index + 1) inputs)
        (connect-Connects (origin index dest first others).id dest.id s)
        (wire-Wiring first others (index + 1) inputs)

  -- The result of `link_nodes`, of the ports of the two nodes.
  finished-Wiring :
      (first : GraphPort) (others inputs : List GraphPort) (s : Wires W)
      (q : Result (Unit {0}) × Wires W)
      → Wiring first others inputs s q
      → (continue q (λ u t. (ok true, t))).0 ≡ ok true
      → All (IsWired (first ∷ others) (continue q (λ u t. (ok true, t))).1.links) inputs
  finished-Wiring first others inputs s (err e, t) k h = absurd (cc)
  finished-Wiring first others inputs s (ok u, t) k h = k.wired refl

  wire_ports-IsWired :
      (outputs inputs : List GraphPort) (s : Wires W)
      → (wire_ports link outputs inputs s).0 ≡ ok true
      → All (IsWired outputs (wire_ports link outputs inputs s).1.links) inputs
  unfolding ◌>>=◌ lift
  wire_ports-IsWired [] inputs s h = ground (arith, ok_inj h)
  wire_ports-IsWired (first ∷ others) [] s h = tt
  wire_ports-IsWired (first ∷ others) (dest ∷ inputs) s h =
      finished-Wiring first others (dest ∷ inputs) s (wire link first others 0 (dest ∷ inputs) s)
        (wire-Wiring first others 0 (dest ∷ inputs) s) h

  -- Where `link_nodes` answers that two nodes of the graph are linked, every input port of the target
  -- is linked with an output port of the source: with one of the same channel, where the source has
  -- one.
  pub link_nodes-IsWired :
      {F V : Type 0} (graph : GraphSnapshot F V) (source target : NodeIdentity) (a b : GraphNode V)
      (s : Wires W)
      → by_identity graph source ≡ some a
      → by_identity graph target ≡ some b
      → (link_nodes link graph source target s).0 ≡ ok true
      → All
          (IsWired (outputs_of a.id graph.ports) (link_nodes link graph source target s).1.links)
          (inputs_of b.id graph.ports)
  unfolding link_nodes
  link_nodes-IsWired graph source target a b s e f =
      subst
        (λ o.
          (link_found link graph.ports o (by_identity graph target) s).0 ≡ ok true
          → All
              (IsWired (outputs_of a.id graph.ports)
                (link_found link graph.ports o (by_identity graph target) s).1.links)
              (inputs_of b.id graph.ports))
        (sym e)
        (subst
          (λ o.
            (link_found link graph.ports (some a) o s).0 ≡ ok true
            → All
                (IsWired (outputs_of a.id graph.ports)
                  (link_found link graph.ports (some a) o s).1.links)
                (inputs_of b.id graph.ports))
          (sym f) (wire_ports-IsWired (outputs_of a.id graph.ports) (inputs_of b.id graph.ports) s))
