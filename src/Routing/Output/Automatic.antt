-- ===== src/Routing/Output/Automatic.antt =====
-- crates/openwave-core/src/routing.rs: what the automatic choice prefers.
use openwave.Prelude.{
  String, true, false, Option, none, some, List, inl, inr, filter, find?, string_instance, ◌≡◌,
  refl, sym, ap, subst, ◌∙◌, ◌≢◌, str_eq_iff, Bool-cases, Option-cases, arith,
}
use openwave.Prelude.Int.{◌≤ℤ◌}
use openwave.Prelude.Text.{str_lt, str_lt_asymm, str_lt_trans, str_lt_tricho}
use openwave.Prelude.Search.{
  In, find?-In, find?-none, In-filter, Not_In_nil, min_by, min_by-none, min_by_below,
}
use openwave.Sources.{OutputSnapshot}
use openwave.Model.{ok}
use openwave.Routing.Output.Choice.{automatic-monitored, wave-In}
use openwave.Routing.Output.{
  resolve_output_with_wave, monitor, reached, or_else, eligible_output, wave_named, wave_output,
  name_lt, priority_lt, find_named, wave_choice, default_choice, priority_choice, automatic,
}

str_lt_cotrans : (s t u : String) → str_lt s t ≡ false → str_lt t u ≡ false → str_lt s u ≡ false
str_lt_cotrans s t u h k = elim (Bool-cases (str_lt t s)) [
  | inl e ↦ elim (Bool-cases (str_lt s u)) [
    | inl g ↦ let z = str_lt_trans t s u e g in ground (arith, z, k)
    | inr g ↦ g
  ]
  | inr e ↦ ap (λ x. str_lt x u) (str_lt_tricho s t h e) ∙ k
]

or_else-none : {A : Type 0} (a b : Option A) → or_else a b ≡ none → (a ≡ none) × (b ≡ none)
or_else-none none b h = (refl, h)
or_else-none (some a) b h = absurd (cc)

or_else-left : {A : Type 0} (a b : Option A) (x : A) → a ≡ some x → or_else a b ≡ some x
or_else-left none b x h = absurd (cc)
or_else-left (some a) b x h = h

or_else-right : {A : Type 0} (a b : Option A) → a ≡ none → or_else a b ≡ b
or_else-right none b h = refl
or_else-right (some a) b h = absurd (cc)

module _ {V : Type 0} where
  priority_lt_asymm : (a b : OutputSnapshot V) → priority_lt a b ≡ true → priority_lt b a ≡ false
  priority_lt_asymm a b h = ground (arith, h, str_lt_asymm a.node_name b.node_name)

  priority_lt_cotrans :
      (a b c : OutputSnapshot V)
      → priority_lt a b ≡ false
      → priority_lt b c ≡ false
      → priority_lt a c ≡ false
  priority_lt_cotrans a b c h k =
      ground (arith, h, k, str_lt_cotrans a.node_name b.node_name c.node_name)

  wave_choice-found :
      (os : List (OutputSnapshot V)) (w : Option String) (p : OutputSnapshot V)
      → In p os
      → wave_output p ≡ true
      → wave_choice os w ≢ none
  wave_choice-found os w p i h e = Not_In_nil p (
      subst (λ xs. In p xs)
        (min_by-none name_lt (filter wave_output os)
          (or_else-none (find_named wave_named w os) (min_by name_lt (filter wave_output os)) e).1)
        (In-filter wave_output os p i h))

  selects_wave :
      (os : List (OutputSnapshot V)) (d w : Option String) (p o : OutputSnapshot V)
      → In p os
      → wave_output p ≡ true
      → automatic os d w ≡ some o
      → wave_choice os w ≡ some o
  unfolding automatic
  selects_wave os d w p o i h e = elim (Option-cases (wave_choice os w)) [
    | inl z ↦ absurd (wave_choice-found os w p i h z)
    | inr (m, z) ↦
        let g : or_else (or_else (wave_choice os w) (default_choice os d)) (priority_choice os)
            ≡ some m =
          or_else-left (or_else (wave_choice os w) (default_choice os d)) (priority_choice os) m
            (or_else-left (wave_choice os w) (default_choice os d) m z) in
        z ∙ sym g ∙ e
  ]

  -- While some eligible output is a wave output, what is heard under `auto` is an eligible wave
  -- output.
  pub automatic_prefers_wave :
      (os : List (OutputSnapshot V)) (d w : Option String) (p o : OutputSnapshot V)
      → In p os
      → wave_output p ≡ true
      → resolve_output_with_wave "auto" os d w ≡ ok (reached (monitor o))
      → wave_output o ≡ true
  automatic_prefers_wave os d w p o i h e =
      (wave-In os w o (selects_wave os d w p o i h (automatic-monitored os d w o e))).1

  -- If an eligible wave output has the preferred name, what is heard under `auto` has that name.
  pub preferred_wave_wins :
      (os : List (OutputSnapshot V)) (d : Option String) (name : String) (p o : OutputSnapshot V)
      → In p os
      → wave_named name p ≡ true
      → resolve_output_with_wave "auto" os d (some name) ≡ ok (reached (monitor o))
      → o.node_name ≡ name
  preferred_wave_wins os d name p o i h e = elim (Option-cases (find? (wave_named name) os)) [
    | inl z ↦ let g = find?-none (wave_named name) os z p i in ground (arith, g, h)
    | inr (m, z) ↦
        let (j, q) = find?-In (wave_named name) os m z in
        let picked : wave_choice os (some name) ≡ some m =
          or_else-left (find_named wave_named (some name) os)
            (min_by name_lt (filter wave_output os)) m z in
        let g : some m ≡ some o =
          sym picked
          ∙ selects_wave os d (some name) m o j (ground (arith, q))
              (automatic-monitored os d (some name) o e) in
        ground (arith, g, q, str_eq_iff m.node_name name)
  ]

  -- If no eligible output is a wave output and none has the default's name, nothing eligible has a
  -- higher priority than what is heard under `auto`.
  pub automatic_prefers_priority :
      (os : List (OutputSnapshot V)) (d w : Option String) (p o : OutputSnapshot V)
      → wave_choice os w ≡ none
      → default_choice os d ≡ none
      → In p os
      → eligible_output p ≡ true
      → resolve_output_with_wave "auto" os d w ≡ ok (reached (monitor o))
      → p.priority ≤ℤ o.priority
  unfolding automatic
  automatic_prefers_priority os d w p o hw hd i h e =
      let selected : automatic os d w ≡ some o = automatic-monitored os d w o e in
      let g : priority_choice os ≡ some o =
        sym (
          or_else-right (or_else (wave_choice os w) (default_choice os d)) (priority_choice os)
            (or_else-right (wave_choice os w) (default_choice os d) hw ∙ hd))
        ∙ selected in
      let below =
        min_by_below priority_lt priority_lt_asymm priority_lt_cotrans p o
          (filter eligible_output os) g (In-filter eligible_output os p i h) in
      ground (arith, below)
