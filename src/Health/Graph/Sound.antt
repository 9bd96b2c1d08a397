-- ===== src/Health/Graph/Sound.antt =====
-- What the watched nodes of a dump have in common (crates/openwave-core/src/health.rs).
use openwave.Prelude.{
  ℕ, String, Bool, true, ◌&&◌, none, some, List, [], ◌∷◌, ◌==◌, ◌≡◌, All, Eq, arith, sym, ap, subst,
  ◌∙◌, Bool-cases, inl, inr, string_instance, nat_instance, if◌then◌else◌,
}
use text.Mathlib.Text.{starts_with}
use openwave.Prelude.Dict.{Dict, get as find_key, insert}
use openwave.Prelude.Json.{Json, ◌>>?◌, member, as_object, as_array}
use openwave.Prelude.Entries.{All-insert}
use openwave.Model.{ok, ok_inj, ◌>>=◌, >>=-eq-ok}
use openwave.Health.Graph.Cores.{taken, skipped, complete-some, HasCookie, find_cookie-HasCookie}
use openwave.Health.Graph.Unique.{AreDistinct, read_nodes-AreDistinct}
use openwave.Health.Graph.{
  WatchedNode, WatchedSink, HealthGraph, Entry, Nodes, complete, is_kind, is_capture_name,
  read_node, add_node, note_node, read_nodes, watch_captures, playback_of, is_output_link,
  note_link, read_links, uint, no_nodes, find_cookie, parse_health_graph,
}

some_inj {ℓ} : {A : Type ℓ} {x y : A} → some x ≡ some y → x ≡ y
some_inj h = cc

both : (a b : Bool) → (a && b) ≡ true → (a ≡ true) × (b ≡ true)
both a b h = ground arith

All-get {ℓ κ} :
    {K V : Type ℓ} ⦃e : Eq K⦄ (P : K × V → Type κ) (k : K) (v : V) (m : Dict K V)
    → All P m
    → find_key k m ≡ some v
    → (j : K) × P (j, v)
unfolding find_key
All-get P k v [] a h = absurd (cc)
All-get {V = V} P k v ((j, w) ∷ m) a h = elim (Bool-cases (j == k)) [
  | inl same ↦ (j, subst (λ x. P (j, x)) (some_inj (taken (some w) (find_key k m) same h)) a.0)
  | inr other ↦ All-get P k v m a.1 (skipped (some w) (find_key k m) other h)
]

module _ (js : Json) where
  open js use {V}

  -- A node that was read is of the generation of its dump.
  abbrev Read : ℕ → ℕ × Entry js → Type 0
  Read cookie (id, e) = (e.node.identity.server_cookie ≡ cookie) × (e.node.node_id ≡ id)

  read_node-Read :
      (cookie : ℕ) (o : V) (p : ℕ × Entry js) → read_node js cookie o ≡ ok p → Read cookie p
  unfolding read_node
  read_node-Read cookie o (id, e) h = ground arith

  add_node-by_id :
      (ns : Nodes js) (id : ℕ) (e : Entry js) (ns' : Nodes js)
      → add_node js ns id e ≡ ok ns'
      → ns'.by_id ≡ insert id e ns.by_id
  unfolding add_node
  add_node-by_id ns id e ns' h = ground arith

  add_node-Read :
      (cookie : ℕ) (ns : Nodes js) (id : ℕ) (e : Entry js) (ns' : Nodes js)
      → Read cookie (id, e)
      → All (Read cookie) ns.by_id
      → add_node js ns id e ≡ ok ns'
      → All (Read cookie) ns'.by_id
  add_node-Read cookie ns id e ns' p a h =
      subst (λ m. All (Read cookie) m) (sym (add_node-by_id ns id e ns' h))
        (All-insert (Read cookie) id e ns.by_id p a)

  note_node-Read :
      (cookie : ℕ) (ns : Nodes js) (o : V) (ns' : Nodes js)
      → All (Read cookie) ns.by_id
      → note_node js cookie ns o ≡ ok ns'
      → All (Read cookie) ns'.by_id
  unfolding note_node
  note_node-Read cookie ns o ns' a h = elim (Bool-cases (is_kind js "PipeWire:Interface:Node" o)) [
    | inl node ↦
        let ((id, e), h1, h2) = >>=-eq-ok (read_node js cookie o) _ (taken _ _ node h) in
        add_node-Read cookie ns id e ns' (read_node-Read cookie o (id, e) h1) a h2
    | inr other ↦ subst (λ x. All (Read cookie) x.by_id) (ok_inj (skipped _ _ other h)) a
  ]

  read_nodes-Read :
      (cookie : ℕ) (ns : Nodes js) (os : List V) (ns' : Nodes js)
      → All (Read cookie) ns.by_id
      → read_nodes js cookie ns os ≡ ok ns'
      → All (Read cookie) ns'.by_id
  unfolding read_nodes
  read_nodes-Read cookie ns [] ns' a h = subst (λ x. All (Read cookie) x.by_id) (ok_inj h) a
  read_nodes-Read cookie ns (o ∷ os) ns' a h =
      let (mid, h1, h2) = >>=-eq-ok (note_node js cookie ns o) _ h in
      read_nodes-Read cookie mid os ns' (note_node-Read cookie ns o mid a h1) h2

  abbrev pub IsWatched : ℕ → String × WatchedNode → Type 0
  IsWatched cookie (name, node) =
      (node.identity.server_cookie ≡ cookie) × (is_capture_name name ≡ true)

  abbrev pub IsOutput : ℕ → String × WatchedSink → Type 0
  IsOutput cookie (name, s) =
      (s.node.identity.server_cookie ≡ cookie) × (starts_with name "alsa_output." ≡ true)

  watch-IsWatched :
      (cookie : ℕ) (found : Dict String WatchedNode) (e : Entry js)
      → All (IsWatched cookie) found
      → e.node.identity.server_cookie ≡ cookie
      → All (IsWatched cookie) (
          if e.class == "Audio/Source" && is_capture_name e.name
          then insert e.name e.node found
          else found)
  watch-IsWatched cookie found e a r =
      elim (Bool-cases (e.class == "Audio/Source" && is_capture_name e.name)) [
        | inl t ↦
            let named = (both _ _ t).1 in
            rw t (All-insert (IsWatched cookie) e.name e.node found (r, named) a)
        | inr t ↦ rw t a
      ]

  watch_captures-IsWatched :
      (cookie : ℕ) (nodes : Dict ℕ (Entry js)) (found : Dict String WatchedNode)
      → All (IsWatched cookie) found
      → All (Read cookie) nodes
      → All (IsWatched cookie) (watch_captures js found nodes)
  unfolding watch_captures
  watch_captures-IsWatched cookie [] found a r = a
  watch_captures-IsWatched cookie ((id, e) ∷ nodes) found a r =
      watch_captures-IsWatched cookie nodes _ (watch-IsWatched cookie found e a r.0.0) r.1

  link_name :
      (source target : Entry js)
      → is_output_link js source target ≡ true
      → starts_with target.name "alsa_output." ≡ true
  unfolding is_output_link
  link_name source target h = ground arith

  add_sink-IsOutput :
      (cookie : ℕ) (sinks : Dict String WatchedSink) (from to : Entry js)
      (sinks' : Dict String WatchedSink)
      → All (IsOutput cookie) sinks
      → to.node.identity.server_cookie ≡ cookie
      → (if is_output_link js from to
          then (playback_of js to.props >>= λ playback.
              ok (insert to.name (record { node = to.node; playback = playback }) sinks))
          else ok sinks)
        ≡ ok sinks'
      → All (IsOutput cookie) sinks'
  add_sink-IsOutput cookie sinks from to sinks' a r h =
      elim (Bool-cases (is_output_link js from to)) [
        | inl t ↦
            let (playback, h1, h2) = >>=-eq-ok (playback_of js to.props) _ (taken _ _ t h) in
            let named = link_name from to t in
            subst (λ m. All (IsOutput cookie) m) (ok_inj h2)
              (All-insert (IsOutput cookie) to.name _ sinks (r, named) a)
        | inr t ↦ subst (λ m. All (IsOutput cookie) m) (ok_inj (skipped _ _ t h)) a
      ]

  note_link-IsOutput :
      (cookie : ℕ) (nodes : Dict ℕ (Entry js)) (sinks : Dict String WatchedSink) (o : V)
      (sinks' : Dict String WatchedSink)
      → All (Read cookie) nodes
      → All (IsOutput cookie) sinks
      → note_link js nodes sinks o ≡ ok sinks'
      → All (IsOutput cookie) sinks'
  unfolding note_link
  note_link-IsOutput cookie nodes sinks o sinks' r a h =
      elim (Bool-cases (is_kind js "PipeWire:Interface:Link" o)) [
        | inl link ↦
            let (info, h0, h1) =
              >>=-eq-ok (complete (member js "info" o >>? as_object js)) _ (taken _ _ link h) in
            let (source, h2, h3) =
              >>=-eq-ok (complete (find_key "output-node-id" info >>? uint js)) _ h1 in
            let (target, h4, h5) =
              >>=-eq-ok (complete (find_key "input-node-id" info >>? uint js)) _ h3 in
            let (from, h6, h7) = >>=-eq-ok (complete (find_key source nodes)) _ h5 in
            let (to, h8, h9) = >>=-eq-ok (complete (find_key target nodes)) _ h7 in
            let (j, read) = All-get (Read cookie) target to nodes r (complete-some _ h8) in
            add_sink-IsOutput cookie sinks from to sinks' a read.0 h9
        | inr other ↦ subst (λ m. All (IsOutput cookie) m) (ok_inj (skipped _ _ other h)) a
      ]

  read_links-IsOutput :
      (cookie : ℕ) (nodes : Dict ℕ (Entry js)) (os : List V)
      (sinks sinks' : Dict String WatchedSink)
      → All (Read cookie) nodes
      → All (IsOutput cookie) sinks
      → read_links js nodes sinks os ≡ ok sinks'
      → All (IsOutput cookie) sinks'
  unfolding read_links
  read_links-IsOutput cookie nodes [] sinks sinks' r a h =
      subst (λ m. All (IsOutput cookie) m) (ok_inj h) a
  read_links-IsOutput cookie nodes (o ∷ os) sinks sinks' r a h =
      let (mid, h1, h2) = >>=-eq-ok (note_link js nodes sinks o) _ h in
      read_links-IsOutput cookie nodes os mid sinks' r
        (note_link-IsOutput cookie nodes sinks o mid r a h1) h2

  -- All that is watched is of one generation, and none of it is ambiguous. A dump that is parsed is a
  -- list with exactly one Core, in which no two nodes have the same id or the same serial, and no two
  -- audio devices the same name; every capture and every sink of the graph has the cookie that the
  -- Core gives; the captures have a name that is watched, and the sinks are outputs of ALSA.
  pub parse_health_graph-one_generation :
      (value : V) {g : HealthGraph} (id : ℕ) (serial name : String)
      → parse_health_graph js value ≡ ok g
      → (objects : List V) × (cookie : ℕ) × (as_array js value ≡ some objects)
        × HasCookie js objects cookie
        × AreDistinct js id serial name objects
        × All (IsWatched cookie) g.captures
        × All (IsOutput cookie) g.sinks
  unfolding parse_health_graph
  parse_health_graph-one_generation value id serial name h =
      let (objects, h0, h1) = >>=-eq-ok (complete (as_array js value)) _ h in
      let (found, h2, h3) = >>=-eq-ok (find_cookie js none objects) _ h1 in
      let (cookie, h4, h5) = >>=-eq-ok (complete found) _ h3 in
      let (ns, h6, h7) = >>=-eq-ok (read_nodes js cookie (no_nodes js) objects) _ h5 in
      let (sinks, h8, h9) = >>=-eq-ok (read_links js ns.by_id [] objects) _ h7 in
      let r = read_nodes-Read cookie (no_nodes js) objects ns tt h6 in
      (
        objects,
        cookie,
        complete-some _ h0,
        find_cookie-HasCookie js objects cookie (h2 ∙ ap ok (complete-some found h4)),
        read_nodes-AreDistinct js cookie id serial name objects ns h6,
        subst (λ x. All (IsWatched cookie) x.captures) (ok_inj h9)
            (watch_captures-IsWatched cookie ns.by_id [] tt r),
        subst (λ x. All (IsOutput cookie) x.sinks) (ok_inj h9)
            (read_links-IsOutput cookie ns.by_id objects [] sinks r tt h8),
      )
