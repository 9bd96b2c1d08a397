-- ===== src/Prelude/Action/Ensures.antt =====
-- What an action that succeeds says of its result and of the state after it.
use openwave.Prelude.{◌≡◌, refl, subst}
use openwave.Prelude.Action.{Action, continue, ◌>>=◌, lift}
use openwave.Model.{Result, ok, err, ok_inj}

pub record Ensures {S A : Type 0} (Q : A → S → Type 0) (a : Action S A) : Type 0 where
  pub at : (s : S) (x : A) → (a s).0 ≡ ok x → Q x (a s).1

continue-Ensures :
    {S A B : Type 0} (Q : B → S → Type 0) (p : Result A × S) (f : A → Action S B)
    → ((x : A) → p.0 ≡ ok x → (y : B) → (f x p.1).0 ≡ ok y → Q y (f x p.1).1)
    → (y : B) → (continue p f).0 ≡ ok y
    → Q y (continue p f).1
continue-Ensures Q (err e, t) f k y h = absurd (cc)
continue-Ensures Q (ok x, t) f k y h = k x refl y h

pub Ensures-bind :
    {S A B : Type 0} {Q : B → S → Type 0} (a : Action S A) {f : A → Action S B}
    → ((x : A) → Ensures Q (f x))
    → Ensures Q (a >>= f)
unfolding ◌>>=◌
Ensures-bind {Q} a {f} k = record {
  at = λ s y h. continue-Ensures Q (a s) f (λ x e. (k x).at (a s).1) y h;
}

-- Where the first action says something that the second does not undo.
pub Ensures-then :
    {S A B : Type 0} {P : A → S → Type 0} {Q : B → S → Type 0} {a : Action S A} (f : A → Action S B)
    → Ensures P a
    → ((x : A) (s : S) (y : B) → P x s → (f x s).0 ≡ ok y → Q y (f x s).1)
    → Ensures Q (a >>= f)
unfolding ◌>>=◌
Ensures-then {Q} {a} f h k = record {
  at = λ s y e. continue-Ensures Q (a s) f (λ x d z. k x (a s).1 z (h.at s x d)) y e;
}

pub Ensures-lift_bind :
    {S A B : Type 0} {Q : B → S → Type 0} (r : Result A) {f : A → Action S B}
    → ((x : A) → r ≡ ok x → Ensures Q (f x))
    → Ensures Q (lift r >>= f)
unfolding ◌>>=◌ lift
Ensures-lift_bind {Q} r {f} k = record {
  at = λ s y h. continue-Ensures Q (r, s) f (λ x e. (k x e).at s) y h;
}

pub Ensures-ok :
    {S A : Type 0} {Q : A → S → Type 0} (x : A) → ((s : S) → Q x s) → Ensures Q (lift (ok x))
unfolding lift
Ensures-ok {Q} x p = record { at = λ s y h. subst (λ z. Q z s) (ok_inj h) (p s) }
