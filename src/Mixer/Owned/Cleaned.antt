-- ===== src/Mixer/Owned/Cleaned.antt =====
-- `cleanup_sinks` of crates/openwave-runtime/src/mixer.rs removes only what is proven.
use openwave.Prelude.{
  ℕ, String, Bool, true, false, not, ◌||◌, Option, none, some, List, [], ◌∷◌, ◌==◌, ◌≡◌, refl, sym,
  subst, nat_eq_iff, any, All, arith, nat_instance, string_instance,
}
use openwave.Prelude.Entries.{All-weaken, All-filter}
use openwave.Prelude.Dict.{contains}
use openwave.Prelude.Search.{In}
use openwave.Prelude.Action.{Action, continue, ◌>>=◌, lift, outcome}
use openwave.Prelude.Json.{Json}
use openwave.Model.{identity_eq, identity_eq_iff, Result, ok, err}
use openwave.Mixer.Graph.{
  GraphNode, GraphSnapshot, node, is_named, is_some, is_on, is_number, owned, definition_matches,
}
use openwave.Mixer.Sinks.{
  OwnedSink, PersistentSink, Act, created, adopted, unloaded, destroyed, Backend, Reconciler,
  for_each, forget_removed, forget_persistent, forget_sink, fresh_cleanup_graph, destroy, unload,
}
use openwave.Mixer.Cleanup.{
  then_forget, remove_persistent, clean_persistent, remove_owned, clean_owned, stale,
  clean_all_owned, cleanup_sinks,
}
use openwave.Mixer.Owned.{
  UnloadProof, DestroyProof, IsProven, Made, Adopted, IsHonest, Leads, Latest, Leads-refl,
  Leads-trans, continue-Leads, complain-Leads, forget_removed-Leads, forget_persistent-Leads,
  forget_sink-Leads, entered,
}
use openwave.Prelude.{either}
use openwave.Mixer.Owned.Fresh.{with_fresh-Leads, outcome-Leads, owned-marked}

module _ (js : Json) (backend : Backend js) (token : String → String → String → String) where
  open js use {V}
  open backend use {World, F}

  abbrev St : Type 0
  St = Reconciler World F V

  abbrev Leading : {A : Type 0} → Action St A → St → Type 0
  Leading a s = Leads js F token s (a s).1

  second : (a b : Bool) → not a || not b ≡ false → b ≡ true
  second a b d = ground (arith, d)

  matched : (a b : Bool) → not a || not b ≡ false → a ≡ true
  matched a b d = ground (arith, d)

  first : (a b c : Bool) → not a || not b || not c ≡ false → a ≡ true
  first a b c d = ground (arith, d)

  third : (a b c : Bool) → not a || not b || not c ≡ false → (b ≡ true) × (c ≡ true)
  third a b c d = (ground (arith, d), ground (arith, d))

  unload-Leads :
      (name : String) (made : ℕ) (s : St)
      → (IsProven js F token s.log → UnloadProof js F token made s.log)
      → Leading
          (outcome (unload js backend made)
            >>= then_forget js backend token name (forget_sink name))
          s
  unfolding ◌>>=◌ outcome unload
  unload-Leads name made s p =
      let r = backend.unload_module made s.world in
      Leads-trans js F token
        (entered js F token s r.1 (unloaded made) (λ h. (p h.proven, h.proven)))
        (outcome-Leads js backend token name (forget_sink name) r.0 _
          (forget_sink-Leads js F token name _))

  destroy-Leads :
      (name : String) (id : ℕ) (s : St)
      → (IsProven js F token s.log → DestroyProof js F token id s.log)
      → Leading
          (outcome (destroy js backend id)
            >>= then_forget js backend token name (forget_persistent name))
          s
  unfolding ◌>>=◌ outcome destroy
  destroy-Leads name id s p =
      let r = backend.destroy_node id s.world in
      Leads-trans js F token (entered js F token s r.1 (destroyed id) (λ h. (p h.proven, h.proven)))
        (outcome-Leads js backend token name (forget_persistent name) r.0 _
          (forget_persistent-Leads js F token name _))

  remove_owned-Leads :
      (name : String) (handle : OwnedSink) (graph : GraphSnapshot F V)
      (found : Option (GraphNode V)) (s : St)
      → node graph name ≡ found
      → Latest js F token graph s.log
      → Made js F token s.log (name, handle)
      → Leading (remove_owned js backend token name handle graph found) s
  remove_owned-Leads name handle graph none s e l m =
      either (λ a. Leading a s) (is_named graph name) (λ d. complain-Leads js F token name _ s)
        (λ d. forget_sink-Leads js F token name s)
  remove_owned-Leads name handle graph (some n) s e l m =
      either (λ a. Leading a s)
        (not (graph.cookie == handle.cookie)
          || not (is_some (owned js graph name handle.owner))
          || not (is_number js n.properties "pulse.module.id" handle.module_id))
        (λ d. complain-Leads js F token name _ s)
        (λ d.
          either (λ a. Leading a s) (any (is_on name) graph.streams)
            (λ q. complain-Leads js F token name _ s)
            (λ q. unload-Leads name handle.module_id s (λ h. record {
              name = name;
              owner = handle.owner;
              graph = graph;
              ours =
                  subst (λ c. In (created c name handle.owner handle.module_id) s.log)
                    (sym ((nat_eq_iff graph.cookie handle.cookie).0 (first _ _ _ d))) m;
              rest = l.rest;
              latest = l.is;
              sink = n;
              found = e;
              marked = owned-marked js backend token graph name handle.owner n e (third _ _ _ d).0;
              loaded = (third _ _ _ d).1;
              quiet = q;
            })))

  remove_persistent-Leads :
      (name : String) (evidence : PersistentSink V) (graph : GraphSnapshot F V)
      (found : Option (GraphNode V)) (s : St)
      → node graph name ≡ found
      → Latest js F token graph s.log
      → Adopted js F token s.log (name, evidence)
      → Leading (remove_persistent js backend token name evidence graph found) s
  remove_persistent-Leads name evidence graph none s e l m =
      either (λ a. Leading a s) (is_named graph name) (λ d. complain-Leads js F token name _ s)
        (λ d. forget_persistent-Leads js F token name s)
  remove_persistent-Leads name evidence graph (some n) s e l m =
      either (λ a. Leading a s)
        (not (identity_eq n.identity evidence.identity)
          || not (definition_matches js token n evidence.definition))
        (λ d. complain-Leads js F token name _ s)
        (λ d.
          either (λ a. Leading a s) (any (is_on name) graph.streams)
            (λ q. complain-Leads js F token name _ s)
            (λ q. destroy-Leads name n.id s (λ h. record {
              name = name;
              definition = evidence.definition;
              graph = graph;
              rest = l.rest;
              latest = l.is;
              sink = n;
              numbered = refl;
              found = e;
              known =
                  subst (λ id. In (adopted name id evidence.definition) s.log)
                    (sym ((identity_eq_iff n.identity evidence.identity).0 (matched _ _ d))) m;
              described = second _ _ d;
              quiet = q;
            })))

  for_each-Leads :
      {A : Type 0} (Q : A → List (Act F V) → Type 0) (l : List A) (f : A → Action St (Unit {0}))
      (s : St)
      → ((a : A) (s t : St) → Leads js F token s t → Q a s.log → Q a t.log)
      → All (λ a. Q a s.log) l
      → ((a : A) (t : St) → Q a t.log → Leading (f a) t)
      → Leading (for_each l f) s
  unfolding ◌>>=◌ lift
  for_each-Leads Q [] f s keep h k = Leads-refl js F token s
  for_each-Leads Q (a ∷ l) f s keep h k =
      continue-Leads js F token s (f a s) (λ u. for_each l f) (k a s h.0)
        (λ u e.
          for_each-Leads Q l f (f a s).1 keep
            (All-weaken (λ b. Q b s.log) (λ b. Q b (f a s).1.log) l
              (λ b. keep b s (f a s).1 (k a s h.0)) h.1)
            k)

  clean_owned-Leads :
      (retries : ℕ) (e : String × OwnedSink) (s : St)
      → Made js F token s.log e
      → Leading (clean_owned js backend token retries e) s
  unfolding clean_owned
  clean_owned-Leads retries (name, handle) s m =
      with_fresh-Leads js backend token retries _ s (λ graph t h l.
        remove_owned-Leads name handle graph (node graph name) t refl l (h.kept _ m))

  clean_persistent-Leads :
      (wanted : List String) (retries : ℕ) (e : String × PersistentSink V) (s : St)
      → Adopted js F token s.log e
      → Leading (clean_persistent js backend token wanted retries e) s
  unfolding clean_persistent
  clean_persistent-Leads wanted retries (name, evidence) s m =
      either {A = Action St (Unit {0})} (λ a. Leading a s) (contains name wanted)
        {x = forget_removed name}
        {y = fresh_cleanup_graph js backend retries >>= λ graph.
          remove_persistent js backend token name evidence graph (node graph name)}
        (λ d. forget_removed-Leads js F token name s)
        (λ d.
          with_fresh-Leads js backend token retries
            (λ graph. remove_persistent js backend token name evidence graph (node graph name)) s
            (λ graph t h l.
              remove_persistent-Leads name evidence graph (node graph name) t refl l (h.kept _ m)))

  owned_part :
      (wanted : List String) (retries : ℕ) (p : Result (Unit {0}) × St)
      → IsHonest js F token p.1
      → IsHonest js F token (continue p (λ u. clean_all_owned js backend token wanted retries)).1
  owned_part wanted retries (err e, t) h = h
  owned_part wanted retries (ok u, t) h =
      (for_each-Leads (λ e log. Made js F token log e) (stale js backend token wanted t.sinks)
          (clean_owned js backend token retries) t (λ e a b l m. l.kept _ m)
          (All-filter (Made js F token t.log) (λ e. not (contains e.0 wanted)) t.sinks h.owns)
          (clean_owned-Leads retries)).honest
        h

  -- The sinks of an honest state can be cleaned up.
  pub cleanup_sinks-IsHonest :
      (wanted : List String) (retries : ℕ) (s : St)
      → IsHonest js F token s
      → IsHonest js F token (cleanup_sinks js backend token wanted retries s).1
  unfolding cleanup_sinks ◌>>=◌
  cleanup_sinks-IsHonest wanted retries s h =
      owned_part wanted retries
        (for_each s.removed (clean_persistent js backend token wanted retries) s)
        ((for_each-Leads (λ e log. Adopted js F token log e) s.removed
            (clean_persistent js backend token wanted retries) s (λ e a b l m. l.kept _ m) h.leaves
            (clean_persistent-Leads wanted retries)).honest
          h)
