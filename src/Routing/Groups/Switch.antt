-- ===== src/Routing/Groups/Switch.antt =====
-- After a switch exactly the next member of the group is open.
use native.Mathlib.Nat.{mod-lt, le_trans}
use openwave.Prelude.{
  ℕ, zero, suc, ◌+◌, ◌%◌, ◌≤◌, ◌<◌, String, Bool, true, false, some, ◌≡◌, refl, ap, sym, ◌∙◌, List,
  [], ◌∷◌, ◌++◌, arith, ◌==◌, ltb, length, get_elem?, string_instance, bool_instance, nat_instance,
  Bool-cases, inl, inr, str_eq_iff, beq_refl,
}
use openwave.Prelude.Dict.{get, modify}
use openwave.Model.{ok}
use openwave.Sources.{Source, Sources}
use openwave.Routing.Mutes.{MuteChange, mute_peers, set_muted, set_source_muted, own_change}
use openwave.Routing.Mutes.Exclusive.{
  key_count, IsDistinct, open_count, is_open_in, peers, set_source_muted-found,
  open_count-modify_peers,
}
use openwave.Routing.Mutes.Replay.{get-mute_peers, tail-le}
use openwave.Routing.Groups.Cyclic.{cyclic_next, get_elem?-next_index}
use openwave.Routing.Groups.{GroupSwitch, next_index, members, switch_to, switch_group}

-- An index below the length finds an element.
get_elem?_in_range {ℓ} :
    {A : Type ℓ} (xs : List A) (i : ℕ) → i < length xs → (x : A) × (get_elem? xs i ≡ some x)
get_elem?_in_range [] i h = absurd (omega arith)
get_elem?_in_range (x ∷ xs) zero h = (x, refl)
get_elem?_in_range (x ∷ xs) (suc i) h = get_elem?_in_range xs i (omega arith)

next_index-lt : (xs : List (String × Bool)) → 0 < length xs → next_index xs < length xs
unfolding next_index
next_index-lt xs h = ground (arith, at_most)
  where
    at_most : (i : ℕ) → (i + 1) % length xs < length xs
    at_most i = mod-lt (i + 1) h

module _ {F V : Type 0} where
  key_count-get :
      (k : String) (m : Sources F V) (s : Source F V) → get k m ≡ some s → 1 ≤ key_count k m
  unfolding get
  key_count-get k [] s h = cc
  key_count-get k ((j, u) ∷ m) s h = ground (arith, key_count-get k m s)

  -- What a member is.
  abbrev IsMember : String → String → Bool → Sources F V → Type 0
  IsMember g id b m =
      (s : Source F V) × (get id m ≡ some s) × ((s.group == g) ≡ true) × (s.muted ≡ b)

  skip :
      (g id : String) (b : Bool) (j : String) (u : Source F V) (m : Sources F V)
      → key_count id ((j, u) ∷ m) ≤ 1
      → IsMember g id b m
      → IsMember g id b ((j, u) ∷ m)
  unfolding get
  skip g id b j u m once (s, h, k, e) = (s, ground (arith, key_count-get id m s), k, e)

  here_or_later :
      (g id : String) (b : Bool) (j : String) (u : Source F V) (m : Sources F V) (i : ℕ)
      → (u.group == g) ≡ true
      → key_count id ((j, u) ∷ m) ≤ 1
      → ((i' : ℕ) → get_elem? (members g m) i' ≡ some (id, b) → IsMember g id b m)
      → get_elem? ((j, u.muted) ∷ members g m) i ≡ some (id, b)
      → IsMember g id b ((j, u) ∷ m)
  unfolding get
  here_or_later g id b j u m zero hit once later h =
      (u, ground (arith, beq_refl j), hit, ground arith)
  here_or_later g id b j u m (suc i) hit once later h = skip g id b j u m once (later i h)

  at_index-IsMember :
      (g : String) (m : Sources F V) (i : ℕ) (id : String) (b : Bool)
      → IsDistinct m
      → get_elem? (members g m) i ≡ some (id, b)
      → IsMember g id b m
  unfolding members
  at_index-IsMember g [] i id b d h = absurd (cc)
  at_index-IsMember g ((j, u) ∷ m) i id b d h =
      let later = λ (i' : ℕ) (k : get_elem? (members g m) i' ≡ some (id, b)).
        at_index-IsMember g m i' id b (λ n. le_trans (tail-le n j u m) (d n)) k in
      elim (Bool-cases (u.group == g)) [
        | inl hit ↦ here_or_later g id b j u m i hit (d id) later (rw hit at h)
        | inr miss ↦ skip g id b j u m (d id) (later i (rw miss at h))
      ]

  open_count-get :
      (g t : String) (m : Sources F V) (s : Source F V)
      → get t m ≡ some s
      → is_open_in g s ≡ true
      → 1 ≤ open_count g m
  unfolding get
  open_count-get g t [] s h o = cc
  open_count-get g t ((j, u) ∷ m) s h o = ground (arith, open_count-get g t m s)

  get-modify_self :
      (t : String) (m : Sources F V) (s : Source F V)
      → get t m ≡ some s
      → get t (modify t (set_muted false) m) ≡ some (set_muted false s)
  unfolding get modify
  get-modify_self t [] s h = cc
  get-modify_self t ((j, u) ∷ m) s h = ground (arith, get-modify_self t m s)

  -- The rows after opening a member of a group.
  abbrev opened : Sources F V → String → String → Sources F V
  opened m g id = modify id (set_muted false) (mute_peers id g m).0

  abbrev changes : Sources F V → String → String → List MuteChange
  changes m g id = (mute_peers id g m).1 ++ own_change false id (get id (mute_peers id g m).0)

  set_source_muted-member :
      (g id : String) (m : Sources F V) (s : Source F V)
      → (g == "") ≡ false
      → get id m ≡ some s
      → (s.group == g) ≡ true
      → set_source_muted m id false ≡ ok (opened m g id, changes m g id)
  set_source_muted-member g id m s named found hit =
      set_source_muted-found m id false s found
      ∙ ap
          (λ (p : Sources F V × List MuteChange).
            ok (modify id (set_muted false) p.0, p.1 ++ own_change false id (get id p.0)))
          (ap (λ x. peers m id x false) ((str_eq_iff s.group g).0 hit) ∙ rw named)

  open_member :
      (g id : String) (m : Sources F V) (s : Source F V)
      → IsDistinct m
      → get id m ≡ some s
      → (s.group == g) ≡ true
      → (open_count g (opened m g id) ≡ 1) × (get id (opened m g id) ≡ some (set_muted false s))
  open_member g id m s d found hit =
      let now : get id (opened m g id) ≡ some (set_muted false s) =
        get-modify_self id (mute_peers id g m).0 s (get-mute_peers id g m ∙ found) in
      let shown : is_open_in g (set_muted false s) ≡ true = ground arith in
      (
        omega (
          arith,
          d id,
          open_count-modify_peers id g false m,
          open_count-get g id (opened m g id) (set_muted false s) now shown,
        ),
        now,
      )

  switch_group-two :
      (m : Sources F V) (g : String)
      → (g == "") ≡ false
      → 2 ≤ length (members g m)
      → switch_group m g ≡ switch_to m (get_elem? (members g m) (next_index (members g m)))
  unfolding switch_group
  switch_group-two m g named two =
      let many : ltb (length (members g m)) 2 ≡ false = ground arith in rw named (rw many)

  switch_to-ok :
      (m : Sources F V) (id : String) (b : Bool) {r : Sources F V × List MuteChange}
      → set_source_muted m id false ≡ ok r
      → switch_to m (some (id, b)) ≡ ok (some (r.0, record { source = id; changes = r.1 }))
  unfolding switch_to
  switch_to-ok m id b h = rw h

  -- In a named group of two or more rows, with no id twice, a switch always succeeds; it names
  -- the member that follows the first open one in cyclic order, or the first member if none is
  -- open; afterwards that member is open and it is the only open row of the group.
  pub switch_opens_next :
      (m : Sources F V) (g : String)
      → (g == "") ≡ false
      → IsDistinct m
      → 2 ≤ length (members g m)
      → (after : Sources F V) × (sw : GroupSwitch) × (s : Source F V) × (switch_group m g
          ≡ ok (some (after, sw)))
        × (cyclic_next (members g m) ≡ some (sw.source, s.muted))
        × (get sw.source after ≡ some (set_muted false s))
        × (open_count g after ≡ 1)
  switch_opens_next m g named d two =
      let ((id, b), at) =
        get_elem?_in_range (members g m) (next_index (members g m))
          (next_index-lt (members g m) (omega arith)) in
      let (s, found, hit, same) = at_index-IsMember g m (next_index (members g m)) id b d at in
      let (one, now) = open_member g id m s d found hit in
      (
        opened m g id,
        record { source = id; changes = changes m g id },
        s,
        switch_group-two m g named two
            ∙ ap (switch_to m) at
            ∙ switch_to-ok m id b (set_source_muted-member g id m s named found hit),
        sym (get_elem?-next_index (members g m)) ∙ at ∙ ap (λ x. some (id, x)) (sym same),
        now,
        one,
      )
