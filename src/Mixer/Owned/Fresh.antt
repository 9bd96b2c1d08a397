-- ===== src/Mixer/Owned/Fresh.antt =====
-- What `fresh_cleanup_graph` of crates/openwave-runtime/src/mixer.rs answers was just observed.
use openwave.Prelude.{
  ℕ, zero, suc, String, true, some, ◌∷◌, ◌≡◌, refl, ap, subst, arith, nat_instance, string_instance,
}
use openwave.Prelude.Action.{Action, continue, ◌>>=◌}
use openwave.Prelude.Json.{Json}
use openwave.Model.{Result, ok, err, ok_inj}
use openwave.Mixer.Graph.{GraphNode, GraphSnapshot, node, owned_node, is_some, is_text, owned}
use openwave.Mixer.Sinks.{
  observed, Backend, Reconciler, same_cookie, fetch, note_graph, or_again, require_server,
  fresh_cleanup_graph,
}
use openwave.Mixer.Cleanup.{then_forget}
use openwave.Mixer.Owned.{Leads, Latest, Leads-trans, complain-Leads, entered}
use openwave.Prelude.{either}

module _ (js : Json) (backend : Backend js) (token : String → String → String → String) where
  open js use {V}
  open backend use {World, F}

  abbrev St : Type 0
  St = Reconciler World F V

  abbrev Leading : {A : Type 0} → Action St A → St → Type 0
  Leading a s = Leads js F token s (a s).1

  note_graph-Leads :
      (p : Result (GraphSnapshot F V) × World) (s : St)
      → Leads js F token s (note_graph js backend p s).1
  note_graph-Leads (ok graph, w) s = entered js F token s w (observed graph) (λ h. h.proven)
  note_graph-Leads (err e, w) s = record {
    honest = λ h. record { owns = h.owns; keeps = h.keeps; leaves = h.leaves; proven = h.proven };
    kept = λ a i. i;
  }

  or_again-Leads :
      (s : St) (p : Result (GraphSnapshot F V) × St) (rest : Action St (GraphSnapshot F V))
      → Leads js F token s p.1
      → ((t : St) → Leading rest t)
      → Leads js F token s (or_again js backend p rest).1
  or_again-Leads s (ok graph, t) rest h k = h
  or_again-Leads s (err e, t) rest h k = Leads-trans js F token h (k t)

  fetch-Leads : (retries : ℕ) (s : St) → Leading (fetch js backend retries) s
  unfolding fetch
  fetch-Leads zero s = note_graph-Leads (backend.snapshot s.world) s
  fetch-Leads (suc retries) s =
      or_again-Leads s (note_graph js backend (backend.snapshot s.world) s)
        (fetch js backend retries) (note_graph-Leads (backend.snapshot s.world) s)
        (fetch-Leads retries)

  note_graph-Latest :
      (p : Result (GraphSnapshot F V) × World) (s : St) (graph : GraphSnapshot F V)
      → (note_graph js backend p s).0 ≡ ok graph
      → Latest js F token graph (note_graph js backend p s).1.log
  note_graph-Latest (ok found, w) s graph e = record {
    rest = s.log;
    is = ap (λ g. observed g ∷ s.log) (ok_inj e);
  }
  note_graph-Latest (err x, w) s graph e = absurd (cc)

  or_again-Latest :
      (p : Result (GraphSnapshot F V) × St) (rest : Action St (GraphSnapshot F V))
      (graph : GraphSnapshot F V)
      → (p.0 ≡ ok graph → Latest js F token graph p.1.log)
      → ((t : St) → (rest t).0 ≡ ok graph → Latest js F token graph (rest t).1.log)
      → (or_again js backend p rest).0 ≡ ok graph
      → Latest js F token graph (or_again js backend p rest).1.log
  or_again-Latest (ok found, t) rest graph h k e = h e
  or_again-Latest (err x, t) rest graph h k e = k t e

  fetch-Latest :
      (retries : ℕ) (graph : GraphSnapshot F V) (s : St)
      → (fetch js backend retries s).0 ≡ ok graph
      → Latest js F token graph (fetch js backend retries s).1.log
  unfolding fetch
  fetch-Latest zero graph s = note_graph-Latest (backend.snapshot s.world) s graph
  fetch-Latest (suc retries) graph s =
      or_again-Latest (note_graph js backend (backend.snapshot s.world) s)
        (fetch js backend retries) graph (note_graph-Latest (backend.snapshot s.world) s graph)
        (fetch-Latest retries graph)

  served :
      (p : Result (GraphSnapshot F V) × St) (f : GraphSnapshot F V → Action St (Unit {0})) (s : St)
      → Leads js F token s p.1
      → ((graph : GraphSnapshot F V) → p.0 ≡ ok graph → Latest js F token graph p.1.log)
      → ((graph : GraphSnapshot F V) (t : St)
          → Leads js F token s t
          → Latest js F token graph t.log
          → Leading (f graph) t)
      → Leads js F token s (continue (continue p require_server) f).1
  unfolding require_server
  served (err e, t) f s h l k = h
  served (ok graph, t) f s h l k =
      either (λ q. Leads js F token s (continue q f).1) (same_cookie t.cookie graph.cookie)
        (λ e. Leads-trans js F token h (k graph t h (l graph refl))) (λ e. h)

  -- What is done with a graph that was just observed.
  pub with_fresh-Leads :
      (retries : ℕ) (f : GraphSnapshot F V → Action St (Unit {0})) (s : St)
      → ((graph : GraphSnapshot F V) (t : St)
          → Leads js F token s t
          → Latest js F token graph t.log
          → Leading (f graph) t)
      → Leading (fresh_cleanup_graph js backend retries >>= f) s
  unfolding ◌>>=◌ fresh_cleanup_graph
  with_fresh-Leads retries f s k =
      served (fetch js backend retries s) f s (fetch-Leads retries s)
        (λ graph. fetch-Latest retries graph s) k

  pub outcome-Leads :
      (name : String) (forget : Action St (Unit {0})) (r : Result (Unit {0})) (s : St)
      → Leading forget s
      → Leading (then_forget js backend token name forget r) s
  outcome-Leads name forget (ok u) s h = h
  outcome-Leads name forget (err e) s h = complain-Leads js F token name e.message s

  pub owned-marked :
      (graph : GraphSnapshot F V) (name owner : String) (n : GraphNode V)
      → node graph name ≡ some n
      → is_some (owned js graph name owner) ≡ true
      → is_text js n.properties "openwave.owner" owner ≡ true
  unfolding owned
  owned-marked graph name owner n e h =
      let h' : is_some (owned_node js (some n) owner) ≡ true =
        subst (λ o. is_some (owned_node js o owner) ≡ true) e h in
      ground (arith, h')
