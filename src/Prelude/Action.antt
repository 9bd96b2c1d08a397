-- ===== src/Prelude/Action.antt =====
-- Functions that may fail and that change a state: `&mut self` and `Result` at once.
pub mod Ensures
use mathlib.Core.Bool.{Bool, true, false}
use openwave.Model.{Result, ok, err}

abbrev pub is_ok : {A : Type 0} → Result A → Bool
is_ok (ok a) = true
is_ok (err e) = false

abbrev pub Action : Type 0 → Type 0 → Type 0
Action S A = S → Result A × S

abbrev pub continue : {S A B : Type 0} → Result A × S → (A → Action S B) → Result B × S
continue (err e, s) f = (err e, s)
continue (ok a, s) f = f a s

-- The operator `?`
infixl 5 ◌>>=◌
unfoldable pub ◌>>=◌ : {S A B : Type 0} → Action S A → (A → Action S B) → Action S B
◌>>=◌ a f s = continue (a s) f

infixl 5 ◌>>◌
abbrev pub ◌>>◌ : {S B : Type 0} → Action S (Unit {0}) → Action S B → Action S B
a >> b = a >>= λ _. b

unfoldable pub lift : {S A : Type 0} → Result A → Action S A
lift r s = (r, s)

-- The outcome as a value, where the source does not return early on it.
unfoldable pub outcome : {S A : Type 0} → Action S A → Action S (Result A)
outcome a s = let (r, s') = a s in (ok r, s')
