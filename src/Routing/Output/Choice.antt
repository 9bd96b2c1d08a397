-- ===== src/Routing/Output/Choice.antt =====
-- crates/openwave-core/src/routing.rs: the output that a mix is heard on.
use openwave.Prelude.{
  String, Bool, true, Option, none, some, List, [], ◌∷◌, ◌⊎◌, inl, inr, ◌==◌, filter,
  string_instance, ◌≡◌, refl, sym, ap, subst, ◌∙◌, ◌≢◌, str_eq_iff, Bool-cases, Option-cases, arith,
}
use openwave.Prelude.Search.{
  In, here, later, find?-In, filter-In, In-filter, Not_In_nil, min_by, min_by-In,
}
use openwave.Model.{ok, >>=-eq-ok}
use openwave.Sources.{OutputSnapshot}
use openwave.Routing.Output.{
  validate_output_choice, SilentOutput, not_monitored, no_eligible_output, OutputDecision, monitor,
  silent, Reached, reached, unreachable, or_else, eligible_output, named, only, exact, wave_named,
  wave_output, name_lt, priority_lt, find_named, wave_choice, default_choice, priority_choice,
  decide, automatic, decide_explicit, decide_selected, decide_automatic, resolve_output_with_wave,
}

pub or_else-some :
    {A : Type 0} (a b : Option A) (x : A) → or_else a b ≡ some x → (a ≡ some x) ⊎ (b ≡ some x)
or_else-some none b x h = inr h
or_else-some (some a) b x h = inl h

module _ {V : Type 0} where
  named-eligible :
      (name : String) (o : OutputSnapshot V)
      → named name o ≡ true
      → (eligible_output o ≡ true) × (o.node_name ≡ name)
  unfolding named
  named-eligible name o h = ground (arith, h, str_eq_iff o.node_name name)

  find_named-In :
      (p : String → OutputSnapshot V → Bool) (n : Option String) (os : List (OutputSnapshot V))
      (o : OutputSnapshot V)
      → find_named p n os ≡ some o
      → (name : String) × In o os × (p name o ≡ true)
  find_named-In p none os o h = absurd (cc)
  find_named-In p (some name) os o h = let (i, q) = find?-In (p name) os o h in (name, i, q)

  pub wave-In :
      (os : List (OutputSnapshot V)) (w : Option String) (o : OutputSnapshot V)
      → wave_choice os w ≡ some o
      → In o os × (wave_output o ≡ true)
  wave-In os w o h =
      elim (or_else-some (find_named wave_named w os) (min_by name_lt (filter wave_output os)) o
        h) [
          | inl e ↦ let (name, i, q) = find_named-In wave_named w os o e in (i, ground (arith, q))
          | inr e ↦ filter-In wave_output os o (min_by-In name_lt (filter wave_output os) o e)
        ]

  -- The automatic choice is one of the eligible outputs.
  pub automatic-In :
      (os : List (OutputSnapshot V)) (d w : Option String) (o : OutputSnapshot V)
      → automatic os d w ≡ some o
      → In o os × (eligible_output o ≡ true)
  unfolding automatic
  automatic-In os d w o h =
      elim (or_else-some (or_else (wave_choice os w) (default_choice os d)) (priority_choice os) o
        h) [
          | inl e ↦ elim (or_else-some (wave_choice os w) (default_choice os d) o e) [
            | inl k ↦ let (i, q) = wave-In os w o k in (i, ground (arith, q))
            | inr k ↦
                let (name, i, q) = find_named-In named d os o k in (i, (named-eligible name o q).0)
          ]
          | inr e ↦
              filter-In eligible_output os o (min_by-In priority_lt (filter eligible_output os) o e)
        ]

  only-some :
      (ms : List (OutputSnapshot V)) (o : OutputSnapshot V) → only ms ≡ inr (some o) → ms ≡ o ∷ []
  only-some [] o h = absurd (cc)
  only-some (m ∷ []) o h = cc
  only-some (m ∷ n ∷ rest) o h = absurd (cc)

  only-none : (ms : List (OutputSnapshot V)) → only ms ≡ inr none → ms ≡ []
  only-none [] h = refl
  only-none (m ∷ []) h = absurd (cc)
  only-none (m ∷ n ∷ rest) h = absurd (cc)

  -- A name that some eligible output carries is found once or more.
  exact_finds :
      (os : List (OutputSnapshot V)) (o : OutputSnapshot V)
      → In o os
      → eligible_output o ≡ true
      → exact os o.node_name ≢ inr none
  unfolding exact named
  exact_finds os o i e h = Not_In_nil o (
      subst (λ ms. In o ms) (only-none (filter (named o.node_name) os) h)
        (In-filter (named o.node_name) os o i
          (ground (arith, e, str_eq_iff o.node_name o.node_name))))

  decide_explicit-monitor :
      (r : SilentOutput ⊎ Option (OutputSnapshot V)) (o : OutputSnapshot V)
      → decide_explicit r ≡ reached (monitor o)
      → r ≡ inr (some o)
  decide_explicit-monitor (inr (some p)) o h = cc
  decide_explicit-monitor (inr none) o h = absurd (cc)
  decide_explicit-monitor (inl s) o h = absurd (cc)

  decide_selected-monitor :
      (r : SilentOutput ⊎ Option (OutputSnapshot V)) (o : OutputSnapshot V)
      → decide_selected r ≡ reached (monitor o)
      → r ≡ inr (some o)
  decide_selected-monitor (inr (some p)) o h = cc
  decide_selected-monitor (inr none) o h = absurd (cc)
  decide_selected-monitor (inl s) o h = absurd (cc)

  decide_explicit-reaches :
      (r : SilentOutput ⊎ Option (OutputSnapshot V)) → decide_explicit r ≢ unreachable
  decide_explicit-reaches (inr (some p)) h = absurd (cc)
  decide_explicit-reaches (inr none) h = absurd (cc)
  decide_explicit-reaches (inl s) h = absurd (cc)

  decide_selected-reaches :
      (r : SilentOutput ⊎ Option (OutputSnapshot V))
      → r ≢ inr none
      → decide_selected r ≢ unreachable
  decide_selected-reaches (inr (some p)) n h = absurd (cc)
  decide_selected-reaches (inr none) n h = absurd (n refl)
  decide_selected-reaches (inl s) n h = absurd (cc)

  decided :
      (choice : String) (os : List (OutputSnapshot V)) (d w : Option String)
      (r : Reached (OutputDecision V))
      → resolve_output_with_wave choice os d w ≡ ok r
      → decide choice os d w ≡ r
  unfolding resolve_output_with_wave
  decided choice os d w r h =
      let (_, _, e) =
        >>=-eq-ok (validate_output_choice choice) (λ _. ok (decide choice os d w)) h in
      ground (arith, e)

  decide_automatic-reaches :
      (os : List (OutputSnapshot V)) (d w : Option String)
      → decide_automatic os (automatic os d w) ≢ unreachable
  unfolding decide_automatic
  decide_automatic-reaches os d w h = elim (Option-cases (automatic os d w)) [
    | inl e ↦
        let g : reached (silent no_eligible_output) ≡ unreachable =
          ap (decide_automatic os) (sym e) ∙ h in
        absurd (cc)
    | inr (o, e) ↦
        let (i, q) = automatic-In os d w o e in
        decide_selected-reaches (exact os o.node_name) (exact_finds os o i q)
          (ap (decide_automatic os) (sym e) ∙ h)
  ]

  -- Whatever the choice, the outputs, the default and the preferred output are, the line marked
  -- `unreachable!()` is not reached.
  pub resolve_output_never_unreachable :
      (choice : String) (os : List (OutputSnapshot V)) (d w : Option String)
      → resolve_output_with_wave choice os d w ≢ ok unreachable
  unfolding decide
  resolve_output_never_unreachable choice os d w h = elim (Bool-cases (choice == "none")) [
    | inl e ↦ decide_explicit-reaches (inl not_monitored) (ground (arith, run, e))
    | inr e ↦ elim (Bool-cases (choice == "auto")) [
      | inl k ↦ decide_automatic-reaches os d w (ground (arith, run, e, k))
      | inr k ↦ decide_explicit-reaches (exact os choice) (ground (arith, run, e, k))
    ]
  ]
    where
      run : decide choice os d w ≡ unreachable
      run = decided choice os d w unreachable h

  -- What an output that is heard has.
  unfoldable pub IsOnly : String → List (OutputSnapshot V) → OutputSnapshot V → Type 0
  IsOnly choice os o =
      In o os
      × (eligible_output o ≡ true)
      × (filter (named o.node_name) os ≡ o ∷ [])
      × ((choice ≡ "auto") ⊎ (o.node_name ≡ choice))

  exact-IsOnly :
      (choice : String) (os : List (OutputSnapshot V)) (name : String) (o : OutputSnapshot V)
      → exact os name ≡ inr (some o)
      → (choice ≡ "auto") ⊎ (name ≡ choice)
      → IsOnly choice os o
  unfolding exact IsOnly
  exact-IsOnly choice os name o h why =
      let found : filter (named name) os ≡ o ∷ [] = only-some (filter (named name) os) o h in
      let (i, q) = filter-In (named name) os o (subst (λ ms. In o ms) (sym found) (here refl)) in
      let (e, n) = named-eligible name o q in
      (
        i,
        e,
        subst (λ m. filter (named m) os ≡ o ∷ []) (sym n) found,
        elim why [ inl a ↦ inl a | inr m ↦ inr (n ∙ m) ],
      )

  same_name :
      (os : List (OutputSnapshot V)) (m o : OutputSnapshot V)
      → In m os
      → eligible_output m ≡ true
      → exact os m.node_name ≡ inr (some o)
      → m ≡ o
  unfolding exact named
  same_name os m o i e h =
      elim (subst (λ ms. In m ms) (only-some (filter (named m.node_name) os) o h)
        (In-filter (named m.node_name) os m i
          (ground (arith, e, str_eq_iff m.node_name m.node_name)))) [
            | here g ↦ sym g
            | later j ↦ absurd (Not_In_nil m j)
          ]

  -- What is heard under `auto` is what `automatic` selects.
  pub automatic-monitored :
      (os : List (OutputSnapshot V)) (d w : Option String) (o : OutputSnapshot V)
      → resolve_output_with_wave "auto" os d w ≡ ok (reached (monitor o))
      → automatic os d w ≡ some o
  unfolding decide decide_automatic
  automatic-monitored os d w o h = elim (Option-cases (automatic os d w)) [
    | inl e ↦
        let z : reached (silent no_eligible_output) ≡ reached (monitor o) =
          ap (decide_automatic os) (sym e) ∙ run in
        absurd (cc)
    | inr (m, e) ↦
        let (i, q) = automatic-In os d w m e in
        let g : exact os m.node_name ≡ inr (some o) =
          decide_selected-monitor (exact os m.node_name) o
            (ap (decide_automatic os) (sym e) ∙ run) in
        e ∙ ap some (same_name os m o i q g)
  ]
    where
      run : decide_automatic os (automatic os d w) ≡ reached (monitor o)
      run = decided "auto" os d w (reached (monitor o)) h

  -- An output that a mix is heard on is one of the observed outputs, is eligible, and is the only
  -- eligible one of its name; if the choice is not `auto`, its name is the choice.
  pub monitored_output-IsOnly :
      (choice : String) (os : List (OutputSnapshot V)) (d w : Option String) (o : OutputSnapshot V)
      → resolve_output_with_wave choice os d w ≡ ok (reached (monitor o))
      → IsOnly choice os o
  unfolding decide decide_automatic
  monitored_output-IsOnly choice os d w o h = elim (Bool-cases (choice == "none")) [
    | inl e ↦
        let g : reached (silent not_monitored) ≡ reached (monitor o) = ground (arith, run, e) in
        absurd (cc)
    | inr e ↦ elim (Bool-cases (choice == "auto")) [
      | inl k ↦ by_automatic (ground (arith, run, e, k)) ((str_eq_iff choice "auto").0 k)
      | inr k ↦
          exact-IsOnly choice os choice o
            (decide_explicit-monitor (exact os choice) o (ground (arith, run, e, k))) (inr refl)
    ]
  ]
    where
      run : decide choice os d w ≡ reached (monitor o)
      run = decided choice os d w (reached (monitor o)) h

      by_automatic :
          decide_automatic os (automatic os d w) ≡ reached (monitor o)
          → choice ≡ "auto"
          → IsOnly choice os o
      by_automatic g a = elim (Option-cases (automatic os d w)) [
        | inl e ↦
            let z : reached (silent no_eligible_output) ≡ reached (monitor o) =
              ap (decide_automatic os) (sym e) ∙ g in
            absurd (cc)
        | inr (p, e) ↦
            exact-IsOnly choice os p.node_name o
              (decide_selected-monitor (exact os p.node_name) o
                (ap (decide_automatic os) (sym e) ∙ g))
              (inl a)
      ]
