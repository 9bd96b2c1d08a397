-- ===== src/Routing/Groups/Cyclic.antt =====
-- The member of a group that follows the first open one in cyclic order.
use native.Mathlib.Nat.{mod-eq_of_lt, mod_self}
use openwave.Prelude.{
  ℕ, zero, suc, ◌+◌, ◌%◌, ◌<◌, String, Bool, true, false, not, Option, none, some, List, [], ◌∷◌,
  ◌≡◌, refl, ap, sym, ◌∙◌, length, get_elem?, if◌then◌else◌, arith, ltb, ltb→lt, Bool-cases,
  Option-cases, inl, inr,
}
use openwave.Routing.Groups.{first_open, next_index}

abbrev pub first_or : String × Bool → List (String × Bool) → String × Bool
first_or first [] = first
first_or first (x ∷ xs) = x

-- What follows the first open member; `first` if that is the last one, or none is open.
abbrev pub next_of : String × Bool → List (String × Bool) → String × Bool
next_of first [] = first
next_of first ((id, muted) ∷ rest) =
    let later = next_of first rest in if not muted then first_or first rest else later

abbrev pub cyclic_next : List (String × Bool) → Option (String × Bool)
cyclic_next [] = none
cyclic_next (x ∷ xs) = some (next_of x (x ∷ xs))

abbrev or_first : String × Bool → Option (String × Bool) → String × Bool
or_first first none = first
or_first first (some x) = x

-- The position that `next_of` reads.
abbrev read_next : String × Bool → List (String × Bool) → Option ℕ → String × Bool
read_next first xs none = first
read_next first xs (some i) = or_first first (get_elem? xs (suc i))

next_of-read :
    (first : String × Bool) (xs : List (String × Bool))
    → next_of first xs ≡ read_next first xs (first_open xs)
unfolding first_open
next_of-read first [] = refl
next_of-read first ((id, true) ∷ rest) = skipped (first_open rest) (next_of-read first rest)
  where
    skipped :
        (o : Option ℕ)
        → next_of first rest ≡ read_next first rest o
        → next_of first rest
          ≡ read_next first ((id, true) ∷ rest) (elim o [ none ↦ none | some i ↦ some (suc i) ])
    skipped none h = h
    skipped (some i) h = h
next_of-read first ((id, false) ∷ []) = refl
next_of-read first ((id, false) ∷ y ∷ rest) = refl

first_open-lt : (xs : List (String × Bool)) (i : ℕ) → first_open xs ≡ some i → i < length xs
unfolding first_open
first_open-lt [] i h = absurd (cc)
first_open-lt ((id, false) ∷ rest) i h = ground (arith, h)
first_open-lt ((id, true) ∷ rest) i h = elim (Option-cases (first_open rest)) [
  | inl e ↦ absurd (cc (rw e at h))
  | inr (j, e) ↦
      let below = first_open-lt rest j e in
      let same : some (suc j) ≡ some i = rw e at h in ground (arith, below, same)
]

get_elem?-past : (xs : List (String × Bool)) → get_elem? xs (length xs) ≡ none
get_elem?-past [] = refl
get_elem?-past (x ∷ xs) = get_elem?-past xs

get_elem?-some :
    (first : String × Bool) (xs : List (String × Bool)) (i : ℕ)
    → i < length xs
    → get_elem? xs i ≡ some (or_first first (get_elem? xs i))
get_elem?-some first [] i h = absurd (omega (arith, h))
get_elem?-some first (x ∷ xs) zero h = refl
get_elem?-some first (x ∷ xs) (suc i) h = get_elem?-some first xs i (omega (arith, h))

wrap_below : (i n : ℕ) → i + 1 < n → (i + 1) % n ≡ suc i
wrap_below i n h = mod-eq_of_lt h ∙ omega arith

wrap_at : (i n : ℕ) → i + 1 ≡ n → (i + 1) % n ≡ 0
wrap_at i n h = ap (λ k. k % n) h ∙ mod_self n

abbrev wrapped : Option ℕ → ℕ → ℕ
wrapped none n = 0
wrapped (some i) n = (i + 1) % n

next_index-wrapped :
    (xs : List (String × Bool)) → next_index xs ≡ wrapped (first_open xs) (length xs)
unfolding next_index
next_index-wrapped xs = by_case (first_open xs)
  where
    by_case :
        (o : Option ℕ) → elim o [ none ↦ 0 | some i ↦ (i + 1) % length xs ] ≡ wrapped o (length xs)
    by_case none = refl
    by_case (some i) = refl

read_wrapped :
    (x : String × Bool) (ys : List (String × Bool)) (o : Option ℕ)
    → first_open (x ∷ ys) ≡ o
    → get_elem? (x ∷ ys) (wrapped o (length (x ∷ ys))) ≡ some (read_next x (x ∷ ys) o)
read_wrapped x ys none e = refl
read_wrapped x ys (some i) e = elim (Bool-cases (ltb (i + 1) (length (x ∷ ys)))) [
  | inl lo ↦
      let below = ltb→lt (i + 1) (length (x ∷ ys)) lo in
      ap (get_elem? (x ∷ ys)) (wrap_below i (length (x ∷ ys)) below)
      ∙ get_elem?-some x (x ∷ ys) (suc i) (omega (arith, below))
  | inr hi ↦
      let last : i + 1 ≡ length (x ∷ ys) = ground (arith, hi, first_open-lt (x ∷ ys) i e) in
      let at_end : suc i ≡ length (x ∷ ys) = omega (arith, last) in
      let past : get_elem? (x ∷ ys) (suc i) ≡ none =
        ap (get_elem? (x ∷ ys)) at_end ∙ get_elem?-past (x ∷ ys) in
      ap (get_elem? (x ∷ ys)) (wrap_at i (length (x ∷ ys)) last)
      ∙ ap (λ r. some (or_first x r)) (sym past)
]

-- The index of the source reads the next member.
pub get_elem?-next_index :
    (xs : List (String × Bool)) → get_elem? xs (next_index xs) ≡ cyclic_next xs
get_elem?-next_index [] = refl
get_elem?-next_index (x ∷ ys) =
    ap (get_elem? (x ∷ ys)) (next_index-wrapped (x ∷ ys))
    ∙ read_wrapped x ys (first_open (x ∷ ys)) refl
    ∙ ap some (sym (next_of-read x (x ∷ ys)))
