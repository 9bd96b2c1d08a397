-- ===== src/Routing/Mutes/Exclusive.antt =====
-- A group has at most one open row: what `set_source_muted` does to every group.
use openwave.Prelude.{
  ℕ, suc, ◌≤◌, String, Bool, true, false, not, ◌&&◌, ◌||◌, Option, none, some, ◌≡◌, refl, List, [],
  ◌∷◌, ◌++◌, arith, ◌==◌, leb, string_instance, bool_instance, if◌then◌else◌, Bool-cases,
  Option-cases, inl, inr, str_eq_iff,
}
use openwave.Prelude.Dict.{get, modify}
use openwave.Model.{ok, fail, invalid}
use openwave.Sources.{Source, Sources}
use openwave.Routing.Mutes.{MuteChange, mute_peers, set_muted, set_source_muted, own_change}

module _ {F V : Type 0} where
  abbrev pub is_open_in : String → Source F V → Bool
  is_open_in g s = s.group == g && not s.muted

  -- How many rows of a group are open.
  abbrev pub open_count : String → Sources F V → ℕ
  open_count g [] = 0
  open_count g ((id, s) ∷ sources) =
      let rest = open_count g sources in if is_open_in g s then suc rest else rest

  abbrev pub key_count : String → Sources F V → ℕ
  key_count k [] = 0
  key_count k ((id, s) ∷ sources) =
      let rest = key_count k sources in if id == k then suc rest else rest

  -- No id stands twice.
  abbrev pub IsDistinct : Sources F V → Type 0
  IsDistinct sources = (k : String) → key_count k sources ≤ 1

  -- Every named group has at most one open row.
  abbrev pub IsExclusive : Sources F V → Type 0
  IsExclusive sources = (g : String) → (g == "" || leb (open_count g sources) 1) ≡ true

  open_count-mute_peers :
      (t g h : String) (m : Sources F V) → open_count h (mute_peers t g m).0 ≤ open_count h m
  unfolding mute_peers
  open_count-mute_peers t g h [] = omega arith
  open_count-mute_peers t g h ((id, s) ∷ m) = ground (arith, open_count-mute_peers t g h m)

  -- In the target's group only rows with its id stay open.
  open_count-mute_peers_group :
      (t g : String) (m : Sources F V) → open_count g (mute_peers t g m).0 ≤ key_count t m
  unfolding mute_peers
  open_count-mute_peers_group t g [] = omega arith
  open_count-mute_peers_group t g ((id, s) ∷ m) = ground (arith, open_count-mute_peers_group t g m)

  pub open_count-modify_peers :
      (t g : String) (b : Bool) (m : Sources F V)
      → open_count g (modify t (set_muted b) (mute_peers t g m).0) ≤ key_count t m
  unfolding mute_peers modify
  open_count-modify_peers t g b [] = omega arith
  open_count-modify_peers t g b ((id, s) ∷ m) =
      ground (arith, open_count-mute_peers_group t g m, open_count-modify_peers t g b m)

  open_count-modify_mute :
      (t h : String) (m : Sources F V) → open_count h (modify t (set_muted true) m) ≤ open_count h m
  unfolding modify
  open_count-modify_mute t h [] = omega arith
  open_count-modify_mute t h ((id, s) ∷ m) = ground (arith, open_count-modify_mute t h m)

  group_of : String → Sources F V → Option String
  unfolding get
  group_of t m = elim (get t m) [ none ↦ none | some s ↦ some s.group ]

  -- A row of another group does not count.
  open_count-modify_other :
      (t h g : String) (b : Bool) (m : Sources F V)
      → group_of t m ≡ some g
      → (g == h) ≡ false
      → open_count h (modify t (set_muted b) m) ≡ open_count h m
  unfolding modify group_of
  open_count-modify_other t h g b [] p q = refl
  open_count-modify_other t h g b ((id, s) ∷ m) p q =
      ground (arith, open_count-modify_other t h g b m)

  group_of-mute_peers :
      (t g k : String) (m : Sources F V) → group_of k (mute_peers t g m).0 ≡ group_of k m
  unfolding mute_peers group_of
  group_of-mute_peers t g k [] = refl
  group_of-mute_peers t g k ((id, s) ∷ m) = ground (arith, group_of-mute_peers t g k m)

  group_of-get :
      (t : String) (m : Sources F V) (s : Source F V)
      → get t m ≡ some s
      → group_of t m ≡ some s.group
  unfolding group_of
  group_of-get t m s h = rw (h, group_of)

  -- The rows after the loop, and the changes that it made.
  abbrev pub peers : Sources F V → String → String → Bool → Sources F V × List MuteChange
  peers m t g b = if not b && not (g == "") then mute_peers t g m else (m, [])

  exclusive_after :
      (m : Sources F V) (t h : String) (b : Bool) (s : Source F V)
      → get t m ≡ some s
      → key_count t m ≤ 1
      → (h == "" || leb (open_count h m) 1) ≡ true
      → (h == "" || leb (open_count h (modify t (set_muted b) (peers m t s.group b).0)) 1) ≡ true
  exclusive_after m t h true s found once e = ground (arith, open_count-modify_mute t h m)
  exclusive_after m t h false s found once e = elim (Bool-cases (s.group == h)) [
    | inl same ↦ ground (arith, str_eq_iff s.group h, open_count-modify_peers t s.group false m)
    | inr apart ↦ ground (
      arith,
      group_of-get t m s found,
      group_of-mute_peers t s.group t m,
      open_count-modify_other t h s.group false m,
      open_count-modify_other t h s.group false (mute_peers t s.group m).0,
      open_count-mute_peers t s.group h m,
    )
  ]

  -- What a call returns for a source that is there.
  pub set_source_muted-found :
      (m : Sources F V) (t : String) (b : Bool) (s : Source F V)
      → get t m ≡ some s
      → set_source_muted m t b
        ≡ ok (
          modify t (set_muted b) (peers m t s.group b).0,
          (peers m t s.group b).1 ++ own_change b t (get t (peers m t s.group b).0),
        )
  unfolding set_source_muted
  set_source_muted-found m t b s h = rw (h, set_source_muted)

  pub set_source_muted-missing :
      (m : Sources F V) (t : String) (b : Bool)
      → get t m ≡ none
      → set_source_muted m t b ≡ fail invalid "Unknown source"
  unfolding set_source_muted
  set_source_muted-missing m t b h = rw (h, set_source_muted)

  -- Where no id stands twice and every named group has at most one open row, a mute or an opening
  -- keeps every named group at one open row at most.
  pub set_source_muted-IsExclusive :
      (m : Sources F V) (t : String) (b : Bool) {r : Sources F V × List MuteChange}
      → IsDistinct m
      → IsExclusive m
      → set_source_muted m t b ≡ ok r
      → IsExclusive r.0
  set_source_muted-IsExclusive m t b {r} distinct before h g = elim (Option-cases (get t m)) [
    | inl missing ↦ absurd (cc (set_source_muted-missing m t b missing))
    | inr (s, found) ↦
        let e : r.0 ≡ modify t (set_muted b) (peers m t s.group b).0 =
          cc (set_source_muted-found m t b s found) in
        rw e (exclusive_after m t g b s found (distinct t) (before g))
  ]
