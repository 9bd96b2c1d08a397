-- ===== src/Prelude/Entries.antt =====
-- A property of every entry of a map, through the operations on maps.
use openwave.Prelude.Tests.{Eq, ◌==◌, Bool-cases, if◌then◌else◌}
use openwave.Prelude.Lists.{All, filter}
use mathlib.Core.Option.{some}
use openwave.Prelude.Dict.{Dict, get, insert, remove, modify}
use mathlib.Core.Path.{◌≡◌, sym, subst}
use mathlib.Core.Logic.{inl, inr}
use mathlib.Core.Bool.{Bool}
use mathlib.Core.List.{List, [], ◌∷◌}

module _ {A : Type 0} where
  pub All-weaken : (Q R : A → Type 0) (l : List A) → ((a : A) → Q a → R a) → All Q l → All R l
  All-weaken Q R [] f h = h
  All-weaken Q R (a ∷ l) f h = (f a h.0, All-weaken Q R l f h.1)

  pub All-filter : (Q : A → Type 0) (p : A → Bool) (l : List A) → All Q l → All Q (filter p l)
  All-filter Q p [] h = h
  All-filter Q p (a ∷ l) h = elim (Bool-cases (p a)) [
    | inl e ↦ rw e (h.0, All-filter Q p l h.1)
    | inr e ↦ rw e (All-filter Q p l h.1)
  ]

module _ {K V : Type 0} ⦃e : Eq K⦄ (Q : K × V → Type 0) where
  pub All-remove : (k : K) (m : Dict K V) → All Q m → All Q (remove k m)
  unfolding remove
  All-remove k [] h = h
  All-remove k ((j, w) ∷ m) h = elim (Bool-cases (j == k)) [
    | inl d ↦ rw d (All-remove k m h.1)
    | inr d ↦ rw d (h.0, All-remove k m h.1)
  ]

  pub All-insert : (k : K) (v : V) (m : Dict K V) → Q (k, v) → All Q m → All Q (insert k v m)
  unfolding insert
  All-insert k v [] p h = (p, h)
  All-insert k v ((j, w) ∷ m) p h = elim (Bool-cases (j == k)) [
    | inl d ↦ rw d (subst (λ i. Q (i, v)) (sym ((e.beq_iff j k).0 d)) p, h.1)
    | inr d ↦ rw d (h.0, All-insert k v m p h.1)
  ]

  pub All-modify :
      (k : K) (f : V → V) (m : Dict K V)
      → ((j : K) (w : V) → Q (j, w) → Q (j, f w))
      → All Q m
      → All Q (modify k f m)
  unfolding modify
  All-modify k f [] q h = h
  All-modify k f ((j, w) ∷ m) q h = elim (Bool-cases (j == k)) [
    | inl d ↦ rw d (q j w h.0, h.1)
    | inr d ↦ rw d (h.0, All-modify k f m q h.1)
  ]

  pub All-get : (k : K) (v : V) (m : Dict K V) → All Q m → get k m ≡ some v → Q (k, v)
  unfolding get
  All-get k v [] h g = absurd (cc)
  All-get k v ((j, w) ∷ m) h g = elim (Bool-cases (j == k)) [
    | inl d ↦
        let same : some w ≡ some v = subst (λ b. (if b then some w else get k m) ≡ some v) d g in
        let value : w ≡ v = cc same in
        subst (λ i. Q (i, v)) ((e.beq_iff j k).0 d) (subst (λ x. Q (j, x)) value h.0)
    | inr d ↦ All-get k v m h.1 (subst (λ b. (if b then some w else get k m) ≡ some v) d g)
  ]
