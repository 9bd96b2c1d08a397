-- ===== src/Prelude/Search.antt =====
-- What `filter`, `find` and `min_by` find.
use mathlib.Core.Path.{◌≡◌, refl, sym, ap, subst, ◌∙◌}
use mathlib.Core.Logic.{inl, inr}
use mathlib.Core.Bool.{Bool, true, false}
use mathlib.Core.List.{List, [], ◌∷◌}
use mathlib.Core.Option.{Option, none, some}
use native.Mathlib.Omega.{arith}
use openwave.Prelude.Tests.{if◌then◌else◌, Bool-cases}
use openwave.Prelude.Lists.{filter, find?}

-- An element stands in a list.
pub data In {ℓ} {A : Type ℓ} (a : A) : List A → Type ℓ where
  here : {x : A} {xs : List A} → x ≡ a → In a (x ∷ xs)
  later : {x : A} {xs : List A} → In a xs → In a (x ∷ xs)

pub Not_In_nil {ℓ} : {A : Type ℓ} (a : A) → ¬ In a []
Not_In_nil a i = elim i [ ]

module _ {ℓ} {A : Type ℓ} where
  unfoldable pub least : (A → A → Bool) → A → List A → A
  least lt a [] = a
  least lt a (y ∷ ys) = least lt (if lt y a then y else a) ys

  -- `Iterator::min_by`: the first of the least elements.
  unfoldable pub min_by : (A → A → Bool) → List A → Option A
  min_by lt [] = none
  min_by lt (x ∷ xs) = some (least lt x xs)

  pub find?-In : (p : A → Bool) (xs : List A) (a : A) → find? p xs ≡ some a → In a xs × (p a ≡ true)
  find?-In p [] a h = absurd (cc)
  find?-In p (x ∷ xs) a h = elim (Bool-cases (p x)) [
    | inl hit ↦ let e : x ≡ a = ground (arith, h) in (here e, ap p (sym e) ∙ hit)
    | inr miss ↦ let (i, q) = find?-In p xs a (rw miss at h) in (later i, q)
  ]

  -- No element that passes: none of them does.
  pub find?-none :
      (p : A → Bool) (xs : List A) → find? p xs ≡ none → (a : A) → In a xs → p a ≡ false
  find?-none p [] h a i = elim i [ ]
  find?-none p (x ∷ xs) h a (here e) = ap p (sym e) ∙ ground (arith, h)
  find?-none p (x ∷ xs) h a (later i) = find?-none p xs (ground (arith, h)) a i

  pub In-filter : (p : A → Bool) (xs : List A) (a : A) → In a xs → p a ≡ true → In a (filter p xs)
  In-filter p [] a i h = elim i [ ]
  In-filter p (x ∷ xs) a (here e) h = let hit : p x ≡ true = ap p e ∙ h in rw hit (here e)
  In-filter p (x ∷ xs) a (later i) h = elim (Bool-cases (p x)) [
    | inl hit ↦ rw hit (later (In-filter p xs a i h))
    | inr miss ↦ rw miss (In-filter p xs a i h)
  ]

  head_or_tail :
      (p : A → Bool) (x : A) (xs ys : List A) (a : A)
      → p x ≡ true
      → (In a ys → In a xs × (p a ≡ true))
      → In a (x ∷ ys)
      → In a (x ∷ xs) × (p a ≡ true)
  head_or_tail p x xs ys a hit tail (here e) = (here e, ap p (sym e) ∙ hit)
  head_or_tail p x xs ys a hit tail (later i) = let (j, q) = tail i in (later j, q)

  pub filter-In : (p : A → Bool) (xs : List A) (a : A) → In a (filter p xs) → In a xs × (p a ≡ true)
  filter-In p [] a i = elim i [ ]
  filter-In p (x ∷ xs) a i = elim (Bool-cases (p x)) [
    | inl hit ↦ head_or_tail p x xs (filter p xs) a hit (filter-In p xs a) (rw hit at i)
    | inr miss ↦ let (j, q) = filter-In p xs a (rw miss at i) in (later j, q)
  ]

  least_step :
      (lt : A → A → Bool) (a y : A) (ys : List A) (b : Bool)
      → lt y a ≡ b
      → least lt a (y ∷ ys) ≡ least lt (if b then y else a) ys
  unfolding least
  least_step lt a y ys b h = rw h refl

  pub least-In : (lt : A → A → Bool) (a : A) (xs : List A) → In (least lt a xs) (a ∷ xs)
  unfolding least
  least-In lt a [] = here refl
  least-In lt a (y ∷ ys) = elim (Bool-cases (lt y a)) [
    | inl h ↦ rw h (later (least-In lt y ys))
    | inr h ↦ rw h (elim (least-In lt a ys) [ here e ↦ here e | later i ↦ later (later i) ])
  ]

  least_keeps :
      (lt : A → A → Bool) (asymm : (x y : A) → lt x y ≡ true → lt y x ≡ false)
      (cotrans : (x y z : A) → lt x y ≡ false → lt y z ≡ false → lt x z ≡ false) (a : A)
      (xs : List A) (b : A)
      → lt b a ≡ false
      → lt b (least lt a xs) ≡ false
  unfolding least
  least_keeps lt asymm cotrans a [] b h = h
  least_keeps lt asymm cotrans a (y ∷ ys) b h = elim (Bool-cases (lt y a)) [
    | inl e ↦ rw e (least_keeps lt asymm cotrans y ys b (cotrans b a y h (asymm y a e)))
    | inr e ↦ rw e (least_keeps lt asymm cotrans a ys b h)
  ]

  not_below_itself :
      (lt : A → A → Bool) (asymm : (x y : A) → lt x y ≡ true → lt y x ≡ false) (a b : A)
      → b ≡ a
      → lt b a ≡ false
  not_below_itself lt asymm a b e = elim (Bool-cases (lt b a)) [
    | inl h ↦ ap (λ x. lt b x) (sym e) ∙ asymm b b (ap (λ x. lt b x) e ∙ h)
    | inr h ↦ h
  ]

  below_tail :
      (lt : A → A → Bool) (asymm : (x y : A) → lt x y ≡ true → lt y x ≡ false)
      (cotrans : (x y z : A) → lt x y ≡ false → lt y z ≡ false → lt x z ≡ false) (b a : A)
      (xs : List A)
      → In b xs
      → lt b (least lt a xs) ≡ false
  unfolding least
  below_tail lt asymm cotrans b a [] i = elim i [ ]
  below_tail lt asymm cotrans b a (y ∷ ys) (here e) = elim (Bool-cases (lt y a)) [
    | inl h ↦ rw h (least_keeps lt asymm cotrans y ys b (not_below_itself lt asymm y b (sym e)))
    | inr h ↦ rw h (least_keeps lt asymm cotrans a ys b (ap (λ x. lt x a) (sym e) ∙ h))
  ]
  below_tail lt asymm cotrans b a (y ∷ ys) (later i) =
      below_tail lt asymm cotrans b (if lt y a then y else a) ys i

  -- Nothing in the list is below the element that `min_by` picks, for a strict order whose
  -- complement is transitive.
  pub least_below :
      (lt : A → A → Bool) (asymm : (x y : A) → lt x y ≡ true → lt y x ≡ false)
      (cotrans : (x y z : A) → lt x y ≡ false → lt y z ≡ false → lt x z ≡ false) (b a : A)
      (xs : List A)
      → In b (a ∷ xs)
      → lt b (least lt a xs) ≡ false
  least_below lt asymm cotrans b a xs (here e) =
      least_keeps lt asymm cotrans a xs b (not_below_itself lt asymm a b (sym e))
  least_below lt asymm cotrans b a xs (later i) = below_tail lt asymm cotrans b a xs i

  pub min_by-In : (lt : A → A → Bool) (xs : List A) (a : A) → min_by lt xs ≡ some a → In a xs
  unfolding min_by
  min_by-In lt [] a h = absurd (cc)
  min_by-In lt (x ∷ xs) a h = subst (λ y. In y (x ∷ xs)) (ground (arith, h)) (least-In lt x xs)

  pub min_by-none : (lt : A → A → Bool) (xs : List A) → min_by lt xs ≡ none → xs ≡ []
  unfolding min_by
  min_by-none lt [] h = refl
  min_by-none lt (x ∷ xs) h = absurd (cc)

  pub min_by_below :
      (lt : A → A → Bool) (asymm : (x y : A) → lt x y ≡ true → lt y x ≡ false)
      (cotrans : (x y z : A) → lt x y ≡ false → lt y z ≡ false → lt x z ≡ false) (b a : A)
      (xs : List A)
      → min_by lt xs ≡ some a
      → In b xs
      → lt b a ≡ false
  unfolding min_by
  min_by_below lt asymm cotrans b a [] h i = elim i [ ]
  min_by_below lt asymm cotrans b a (x ∷ xs) h i =
      subst (λ y. lt b y ≡ false) (ground (arith, h)) (least_below lt asymm cotrans b x xs i)
