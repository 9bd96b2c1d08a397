-- ===== src/Mixer/Owned/Targets.antt =====
-- Where `restore_streams` of crates/openwave-runtime/src/mixer.rs sends a stream.
use openwave.Prelude.{
  String, Bool, true, false, not, Option, none, some, List, [], ◌∷◌, ◌==◌, ◌≡◌, refl, any, arith,
  nat_instance, string_instance,
}
use openwave.Model.{Result, ok, err}
use openwave.Mixer.Graph.{GraphSnapshot, is_some}
use text.Mathlib.Text.{starts_with}
use openwave.Prelude.{
  if◌then◌else◌, ap, filter, ◌&&◌, map, beq_refl, Bool-cases, Option-cases, inl, inr, sym, subst,
  ◌∙◌, refl,
}
use openwave.Model.{identity_instance}
use openwave.Sources.{OutputSnapshot}
use openwave.Prelude.Search.{In, here, later}
use openwave.Prelude.Json.{or_else}
use openwave.Routing.Output.{
  monitor, reached, Reached, OutputDecision, silent, unreachable, resolve_output_with_wave,
  eligible_output,
}
use openwave.Routing.Output.Choice.{IsOnly, monitored_output-IsOnly}
use openwave.Mixer.Graph.{single}
use openwave.Mixer.Restore.{no_wave, chosen, original_target, fallback_target, target_of}

-- An observed output that is not the mixer's.
pub record Outside {V : Type 0} (outputs : List (OutputSnapshot V)) (target : String) : Type 0 where
  pub foreign : starts_with target "openwave_" ≡ false
  pub reachable : any (λ o. o.node_name == target) outputs ≡ true

In-any :
    {V : Type 0} (o : OutputSnapshot V) (l : List (OutputSnapshot V))
    → In o l
    → any (λ x. x.node_name == o.node_name) l ≡ true
In-any o [] i = elim i [ ]
In-any o (x ∷ l) (here e) = ground (arith, ap (λ y. y.node_name) e, beq_refl o.node_name)
In-any o (x ∷ l) (later i) = ground (arith, In-any o l i)

any-map :
    {V : Type 0} (name : String) (l : List (OutputSnapshot V))
    → any (λ x. x.node_name == name) (map no_wave l) ≡ any (λ x. x.node_name == name) l
any-map name [] = refl
any-map name (x ∷ l) = ground (arith, any-map name l)

single-any :
    {V : Type 0} (name : String) (l : List (OutputSnapshot V))
    → is_some (single (filter (λ o. o.node_name == name) l)) ≡ true
    → any (λ o. o.node_name == name) l ≡ true
single-any name [] h = ground (arith, h)
single-any name (x ∷ l) h = ground (arith, single-any name l, h)

pub both : (a b : Bool) → (a && b) ≡ true → (a ≡ true) × (b ≡ true)
both a b h = ground arith

module _ {F V : Type 0} where
  chosen-Outside :
      (graph : GraphSnapshot F V) (target : String) (r : Result (Reached (OutputDecision V)))
      → resolve_output_with_wave "auto" (map no_wave graph.outputs) graph.default_sink none ≡ r
      → chosen r ≡ some target
      → Outside graph.outputs target
  unfolding IsOnly eligible_output
  chosen-Outside graph target (err e) h c = absurd (cc)
  chosen-Outside graph target (ok unreachable) h c = absurd (cc)
  chosen-Outside graph target (ok (reached (silent why))) h c = absurd (cc)
  chosen-Outside graph target (ok (reached (monitor o))) h c =
      let only =
        monitored_output-IsOnly "auto" (map no_wave graph.outputs) graph.default_sink none o h in
      let named : o.node_name ≡ target = cc c in
      subst (Outside graph.outputs) named (record {
        foreign = ground (arith, only.1);
        reachable =
            sym (any-map o.node_name graph.outputs) ∙ In-any o (map no_wave graph.outputs) only.0;
      })

  original-Outside :
      (graph : GraphSnapshot F V) (original : Option String) (target : String)
      → original_target graph original ≡ some target
      → Outside graph.outputs target
  original-Outside graph none target h = absurd (cc)
  original-Outside graph (some name) target h =
      let own = starts_with name "openwave_" in
      let listed = is_some (single (filter (λ o. o.node_name == name) graph.outputs)) in
      elim (Bool-cases (not own && listed)) [
        | inl d ↦
            let named : some name ≡ some target =
              subst (λ b. (if b then some name else none) ≡ some target) d h in
            let parts = both (not own) listed d in
            subst (Outside graph.outputs) (cc named) (record {
              foreign = ground (arith, parts.0);
              reachable = single-any name graph.outputs parts.1;
            })
        | inr d ↦
            let gone : none ≡ some target =
              subst (λ b. (if b then some name else none) ≡ some target) d h in
            absurd (cc)
      ]

  pub target_of-Outside :
      (graph : GraphSnapshot F V) (original : Option String) (target : String)
      → target_of graph original ≡ some target
      → Outside graph.outputs target
  unfolding fallback_target
  target_of-Outside graph original target h = elim (Option-cases (original_target graph original)) [
    | inl e ↦
        chosen-Outside graph target _ refl
          (subst (λ o. or_else o (fallback_target graph) ≡ some target) e h)
    | inr (t, e) ↦
        original-Outside graph original target
          (e ∙ subst (λ o. or_else o (fallback_target graph) ≡ some target) e h)
  ]
