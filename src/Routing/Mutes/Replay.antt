-- ===== src/Routing/Mutes/Replay.antt =====
-- What the changes of `set_source_muted` say: the edit itself, silences first.
use openwave.Prelude.{
  ◌≤◌, String, Bool, true, false, not, ◌&&◌, Option, none, some, ◌≡◌, refl, ap, sym, ◌∙◌, List, [],
  ◌∷◌, ◌++◌, arith, ◌==◌, string_instance, bool_instance, Bool-cases, Option-cases, inl, inr,
  str_eq_iff, beq_refl, All, bool_eq_iff,
}
use native.Mathlib.Nat.{le_trans}
use openwave.Prelude.Dict.{get, modify}
use openwave.Model.{ok}
use openwave.Sources.{Source, Sources}
use openwave.Routing.Mutes.{
  MuteChange, is_open_peer, mute, mute_peers, set_muted, set_source_muted, own_change,
}
use openwave.Routing.Mutes.Exclusive.{
  key_count, IsDistinct, peers, set_source_muted-found, set_source_muted-missing,
}

abbrev Avoids : String → List MuteChange → Type 0
Avoids id cs = All (λ (c : MuteChange). (id == c.source) ≡ false) cs

-- Every change but the last silences.
abbrev pub opens_last : List MuteChange → Bool
opens_last [] = true
opens_last (c ∷ []) = true
opens_last (c ∷ d ∷ cs) = c.muted && opens_last (d ∷ cs)

module _ {F V : Type 0} where
  -- A consumer that executes the changes in order.
  pub replay : List MuteChange → Sources F V → Sources F V
  replay [] m = m
  replay (c ∷ cs) m = replay cs (modify c.source (set_muted c.muted) m)

  replay-append :
      (cs ds : List MuteChange) (m : Sources F V) → replay (cs ++ ds) m ≡ replay ds (replay cs m)
  unfolding replay
  replay-append [] ds m = refl
  replay-append (c ∷ cs) ds m = replay-append cs ds (modify c.source (set_muted c.muted) m)

  replay-cons :
      (id : String) (s : Source F V) (cs : List MuteChange) (m : Sources F V)
      → Avoids id cs
      → replay cs ((id, s) ∷ m) ≡ (id, s) ∷ replay cs m
  unfolding replay modify
  replay-cons id s [] m a = refl
  replay-cons id s (c ∷ cs) m a =
      rw (a.0) (replay-cons id s cs (modify c.source (set_muted c.muted) m) a.1)

  mute_peers-Avoids :
      (id t g : String) (m : Sources F V) → key_count id m ≡ 0 → Avoids id (mute_peers t g m).1
  unfolding mute_peers
  mute_peers-Avoids id t g [] h = tt
  mute_peers-Avoids id t g ((j, s) ∷ m) h =
      ground (arith, str_eq_iff id j, str_eq_iff j id, mute_peers-Avoids id t g m)

  head_absent :
      (id : String) (s : Source F V) (m : Sources F V)
      → key_count id ((id, s) ∷ m) ≤ 1
      → key_count id m ≡ 0
  head_absent id s m h = ground (arith, beq_refl id)

  pub tail-le :
      (k id : String) (s : Source F V) (m : Sources F V) → key_count k m ≤ key_count k ((id, s) ∷ m)
  tail-le k id s m = ground arith

  modify_head :
      (id : String) (b : Bool) (s : Source F V) (m : Sources F V)
      → modify id (set_muted b) ((id, s) ∷ m) ≡ (id, set_muted b s) ∷ m
  unfolding modify
  modify_head id b s m = rw (beq_refl id)

  replay-mute_peers :
      (t g : String) (m : Sources F V)
      → IsDistinct m
      → replay (mute_peers t g m).1 m ≡ (mute_peers t g m).0
  unfolding mute_peers replay
  replay-mute_peers t g [] d = refl
  replay-mute_peers t g ((id, s) ∷ m) d =
      let absent = head_absent id s m (d id) in
      let avoids = mute_peers-Avoids id t g m absent in
      let rest = replay-mute_peers t g m (λ k. le_trans (tail-le k id s m) (d k)) in
      elim (Bool-cases (is_open_peer t g id s)) [
        | inl opened ↦ rw opened (
            ap (replay (mute_peers t g m).1) (modify_head id true s m)
            ∙ replay-cons id (mute s) (mute_peers t g m).1 m avoids
            ∙ ap (◌∷◌ (id, mute s)) rest)
        | inr closed ↦
            rw closed (replay-cons id s (mute_peers t g m).1 m avoids ∙ ap (◌∷◌ (id, s)) rest)
      ]

  -- Setting what is set changes nothing.
  modify_same :
      (t : String) (b : Bool) (m : Sources F V) (s : Source F V)
      → get t m ≡ some s
      → s.muted ≡ b
      → modify t (set_muted b) m ≡ m
  unfolding get modify
  modify_same t b [] s h e = refl
  modify_same t b ((id, u) ∷ m) s h e = ground (arith, modify_same t b m s)

  pub get-mute_peers : (t g : String) (m : Sources F V) → get t (mute_peers t g m).0 ≡ get t m
  unfolding get mute_peers
  get-mute_peers t g [] = refl
  get-mute_peers t g ((id, s) ∷ m) = ground (arith, get-mute_peers t g m)

  replay-own_change :
      (t : String) (b : Bool) (m : Sources F V) (s : Source F V)
      → get t m ≡ some s
      → replay (own_change b t (get t m)) m ≡ modify t (set_muted b) m
  unfolding replay
  replay-own_change t b m s h = elim (Bool-cases (s.muted == b)) [
    | inl same ↦ rw h (rw same (sym (modify_same t b m s h ((bool_eq_iff s.muted b).0 same))))
    | inr differs ↦ rw h (rw differs)
  ]

  replay-peers :
      (m : Sources F V) (t g : String) (b : Bool)
      → IsDistinct m
      → (replay (peers m t g b).1 m ≡ (peers m t g b).0) × (get t (peers m t g b).0 ≡ get t m)
  unfolding replay
  replay-peers m t g b d = elim (Bool-cases (not b && not (g == ""))) [
    | inl c ↦ rw c (replay-mute_peers t g m d, get-mute_peers t g m)
    | inr c ↦ rw c (refl, refl)
  ]

  -- Where no id stands twice, executing the returned changes in order on the old sources gives
  -- the returned sources.
  pub replay-set_source_muted :
      (m : Sources F V) (t : String) (b : Bool) {r : Sources F V × List MuteChange}
      → IsDistinct m
      → set_source_muted m t b ≡ ok r
      → replay r.1 m ≡ r.0
  replay-set_source_muted m t b {r} d h = elim (Option-cases (get t m)) [
    | inl missing ↦ absurd (cc (set_source_muted-missing m t b missing))
    | inr (s, found) ↦
        let e : r ≡ (
          modify t (set_muted b) (peers m t s.group b).0,
          (peers m t s.group b).1 ++ own_change b t (get t (peers m t s.group b).0),
        ) =
          cc (set_source_muted-found m t b s found) in
        let (loop, kept) = replay-peers m t s.group b d in
        rw e (
          replay-append (peers m t s.group b).1 _ m
          ∙ rw loop (replay-own_change t b (peers m t s.group b).0 s (kept ∙ found)))
  ]

  opens_last-mute_peers :
      (t g : String) (m : Sources F V) (cs : List MuteChange)
      → opens_last cs ≡ true
      → opens_last ((mute_peers t g m).1 ++ cs) ≡ true
  unfolding mute_peers
  opens_last-mute_peers t g [] cs h = h
  opens_last-mute_peers t g ((id, s) ∷ m) cs h = elim (Bool-cases (is_open_peer t g id s)) [
    | inl opened ↦
        rw opened (silence_before ((mute_peers t g m).1 ++ cs) (opens_last-mute_peers t g m cs h))
    | inr closed ↦ rw closed (opens_last-mute_peers t g m cs h)
  ]
    where
      silence_before :
          (ds : List MuteChange)
          → opens_last ds ≡ true
          → opens_last (record { source = id; muted = true } ∷ ds) ≡ true
      silence_before [] k = refl
      silence_before (d ∷ ds) k = k

  opens_last-own_change :
      (b : Bool) (t : String) (o : Option (Source F V)) → opens_last (own_change b t o) ≡ true
  opens_last-own_change b t none = refl
  opens_last-own_change b t (some s) = ground arith

  opens_last-peers :
      (m : Sources F V) (t g : String) (b : Bool) (cs : List MuteChange)
      → opens_last cs ≡ true
      → opens_last ((peers m t g b).1 ++ cs) ≡ true
  opens_last-peers m t g b cs h = elim (Bool-cases (not b && not (g == ""))) [
    | inl c ↦ rw c (opens_last-mute_peers t g m cs h)
    | inr c ↦ rw c h
  ]

  -- In the changes of a successful call every silence comes before the opening.
  pub silences_first :
      (m : Sources F V) (t : String) (b : Bool) {r : Sources F V × List MuteChange}
      → set_source_muted m t b ≡ ok r
      → opens_last r.1 ≡ true
  silences_first m t b {r} h = elim (Option-cases (get t m)) [
    | inl missing ↦ absurd (cc (set_source_muted-missing m t b missing))
    | inr (s, found) ↦
        let e : r.1 ≡ (peers m t s.group b).1 ++ own_change b t (get t (peers m t s.group b).0) =
          cc (set_source_muted-found m t b s found) in
        rw e (
          opens_last-peers m t s.group b (own_change b t (get t (peers m t s.group b).0))
            (opens_last-own_change b t (get t (peers m t s.group b).0)))
  ]
