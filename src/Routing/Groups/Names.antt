-- ===== src/Routing/Groups/Names.antt =====
-- The names that `source_groups` lists.
use openwave.Prelude.{
  ℕ, ◌+◌, String, true, false, not, ◌&&◌, ◌≡◌, refl, ◌∙◌, List, [], ◌∷◌, arith, ◌==◌, leb, length,
  string_instance, nat_instance, if◌then◌else◌, Bool-cases, inl, inr, str_eq_iff, All,
}
use openwave.Prelude.Dict.{contains}
use openwave.Prelude.Text.{str_lt, str_lt_trans, str_lt_irrefl, str_lt_tricho}
use openwave.Sources.{Sources}
use openwave.Routing.Groups.{count_in, shared_names, count_groups, source_groups, members}

abbrev IsAbove : String → List (String × ℕ) → Type 0
IsAbove k = All (λ (e : String × ℕ). str_lt k e.0 ≡ true)

abbrev IsSorted : List (String × ℕ) → Type 0
IsSorted [] = Unit {0}
IsSorted ((k, n) ∷ cs) = IsAbove k cs × IsSorted cs

abbrev count_of : String → List (String × ℕ) → ℕ
count_of g [] = 0
count_of g ((k, n) ∷ cs) = if k == g then n else count_of g cs

IsAbove-trans :
    (j k : String) (cs : List (String × ℕ)) → str_lt j k ≡ true → IsAbove k cs → IsAbove j cs
IsAbove-trans j k [] h a = tt
IsAbove-trans j k ((i, n) ∷ cs) h a = (str_lt_trans j k i h a.0, IsAbove-trans j k cs h a.1)

IsAbove-count_in :
    (k g : String) (cs : List (String × ℕ))
    → str_lt k g ≡ true
    → IsAbove k cs
    → IsAbove k (count_in g cs)
unfolding count_in
IsAbove-count_in k g [] h a = (h, tt)
IsAbove-count_in k g ((i, n) ∷ cs) h a = ground (arith, IsAbove-count_in k g cs h a.1)

count_in-IsSorted : (g : String) (cs : List (String × ℕ)) → IsSorted cs → IsSorted (count_in g cs)
unfolding count_in
count_in-IsSorted g [] s = (tt, tt)
count_in-IsSorted g ((k, n) ∷ cs) s = elim (Bool-cases (k == g)) [
  | inl same ↦ rw same s
  | inr apart ↦ elim (Bool-cases (str_lt g k)) [
    | inl below ↦ rw apart (rw below ((below, IsAbove-trans g k cs below s.0), s))
    | inr above ↦
        let over : str_lt k g ≡ true = ground (arith, str_lt_tricho g k, str_eq_iff k g) in
        rw apart (rw above (IsAbove-count_in k g cs over s.0, count_in-IsSorted g cs s.1))
  ]
]

count_of_above : (g : String) (cs : List (String × ℕ)) → IsAbove g cs → count_of g cs ≡ 0
count_of_above g [] a = refl
count_of_above g ((k, n) ∷ cs) a =
    ground (arith, str_eq_iff k g, str_lt_irrefl g, count_of_above g cs a.1)

count_of-count_in :
    (h g : String) (cs : List (String × ℕ))
    → IsSorted cs
    → count_of h (count_in g cs) ≡ count_of h cs + (if g == h then 1 else 0)
unfolding count_in
count_of-count_in h g [] s = ground arith
count_of-count_in h g ((k, n) ∷ cs) s = ground (
  arith,
  str_eq_iff k g,
  str_eq_iff g h,
  str_eq_iff k h,
  count_of-count_in h g cs s.1,
  count_of_above g cs,
  IsAbove-trans g k cs,
  str_lt_irrefl k,
)

module _ {F V : Type 0} where
  count_groups-IsSorted :
      (m : Sources F V) (cs : List (String × ℕ)) → IsSorted cs → IsSorted (count_groups m cs)
  unfolding count_groups
  count_groups-IsSorted [] cs s = s
  count_groups-IsSorted ((id, u) ∷ m) cs s = elim (Bool-cases (u.group == "")) [
    | inl unnamed ↦ rw unnamed (count_groups-IsSorted m cs s)
    | inr named ↦
        rw named (count_groups-IsSorted m (count_in u.group cs) (count_in-IsSorted u.group cs s))
  ]

  count_of-count_groups :
      (h : String) (m : Sources F V) (cs : List (String × ℕ))
      → IsSorted cs
      → count_of h (count_groups m cs)
        ≡ count_of h cs + (if h == "" then 0 else length (members h m))
  unfolding count_groups members
  count_of-count_groups h [] cs s = ground arith
  count_of-count_groups h ((id, u) ∷ m) cs s = ground (
    arith,
    str_eq_iff u.group "",
    str_eq_iff u.group h,
    str_eq_iff h "",
    count_of-count_groups h m cs s,
    count_of-count_groups h m (count_in u.group cs) (count_in-IsSorted u.group cs s),
    count_of-count_in h u.group cs s,
  )

abbrev pub IsAscending : List String → Type 0
IsAscending [] = Unit {0}
IsAscending (k ∷ ks) = All (λ (j : String). str_lt k j ≡ true) ks × IsAscending ks

shared_names-above :
    (k : String) (cs : List (String × ℕ))
    → IsAbove k cs
    → All (λ (j : String). str_lt k j ≡ true) (shared_names cs)
unfolding shared_names
shared_names-above k [] a = tt
shared_names-above k ((i, n) ∷ cs) a = ground (arith, shared_names-above k cs a.1)

shared_names-IsAscending : (cs : List (String × ℕ)) → IsSorted cs → IsAscending (shared_names cs)
unfolding shared_names
shared_names-IsAscending [] s = tt
shared_names-IsAscending ((k, n) ∷ cs) s =
    ground (arith, shared_names-above k cs s.0, shared_names-IsAscending cs s.1)

not_contains_above :
    (k : String) (ks : List String)
    → All (λ (j : String). str_lt k j ≡ true) ks
    → contains k ks ≡ false
unfolding contains
not_contains_above k [] a = refl
not_contains_above k (j ∷ ks) a =
    ground (arith, str_eq_iff j k, str_lt_irrefl k, not_contains_above k ks a.1)

contains-shared_names :
    (h : String) (cs : List (String × ℕ))
    → IsSorted cs
    → contains h (shared_names cs) ≡ leb 2 (count_of h cs)
unfolding shared_names contains
contains-shared_names h [] s = refl
contains-shared_names h ((k, n) ∷ cs) s = ground (
  arith,
  str_eq_iff k h,
  contains-shared_names h cs s.1,
  not_contains_above k (shared_names cs) (shared_names-above k cs s.0),
)

module _ {F V : Type 0} where
  -- The listed groups are exactly the named ones with two members or more, each once and in
  -- ascending order.
  pub source_groups_names :
      (m : Sources F V) (g : String)
      → (contains g (source_groups m) ≡ (not (g == "") && leb 2 (length (members g m))))
        × IsAscending (source_groups m)
  unfolding source_groups
  source_groups_names m g =
      let sorted = count_groups-IsSorted m [] tt in
      (
        contains-shared_names g (count_groups m []) sorted
            ∙ rw (count_of-count_groups g m [] tt) (ground arith),
        shared_names-IsAscending (count_groups m []) sorted,
      )
