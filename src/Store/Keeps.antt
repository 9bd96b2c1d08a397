-- ===== src/Store/Keeps.antt =====
-- What holds of every disk that the operations of crates/openwave-runtime/src/store.rs pass through.
use openwave.Prelude.{String, List, [], ◌∷◌, All, string_instance}
use openwave.Prelude.Action.{Action, continue, ◌>>=◌, lift}
use openwave.Model.{Result, ok, err}
use openwave.Store.Disk.{Disk, Fate, done, failed, Io, enact, operate, discard}
use openwave.Store.{dropped, dropping}

-- A predicate of every disk that a crash could leave.
abbrev pub Always : {B : Type 0} → (Disk B → Type 0) → Io B → Type 0
Always P s = All P s.seen × P s.disk

-- An action that keeps it.
pub record Keeps {B A : Type 0} (P : Disk B → Type 0) (a : Action (Io B) A) : Type 0 where
  pub at : (s : Io B) → Always P s → Always P (a s).1

pub enact-Always :
    {A B : Type 0} (P : Disk B → Type 0) (answer : Disk B → A) (change : Disk B → Disk B)
    (tear : B → Disk B → Disk B) (fates : List (Fate B)) (s : Io B)
    → P (change s.disk)
    → ((b : B) → P (tear b s.disk))
    → Always P s
    → Always P (enact answer change tear fates s).1
enact-Always P answer change tear [] s f g h = ((f, h.0), f)
enact-Always P answer change tear (done ∷ fates) s f g h = ((f, h.0), f)
enact-Always P answer change tear (failed e torn ∷ fates) s f g h = ((g torn, h.0), g torn)

pub Keeps-operate :
    {A B : Type 0} (P : Disk B → Type 0) (answer : Disk B → A) (change : Disk B → Disk B)
    (tear : B → Disk B → Disk B)
    → ((d : Disk B) → P d → P (change d))
    → ((b : B) (d : Disk B) → P d → P (tear b d))
    → Keeps P (operate answer change tear)
unfolding operate
Keeps-operate P answer change tear f g = record {
  at = λ s h. enact-Always P answer change tear s.fates s (f s.disk h.1) (λ b. g b s.disk h.1) h;
}

pub continue-Always :
    {B A C : Type 0} (P : Disk B → Type 0) (p : Result A × Io B) (f : A → Action (Io B) C)
    → Always P p.1
    → ((x : A) → Keeps P (f x))
    → Always P (continue p f).1
continue-Always P (err e, t) f h k = h
continue-Always P (ok x, t) f h k = (k x).at t h

pub Keeps-bind :
    {B A C : Type 0} {P : Disk B → Type 0} {a : Action (Io B) A} {f : A → Action (Io B) C}
    → Keeps P a
    → ((x : A) → Keeps P (f x))
    → Keeps P (a >>= f)
unfolding ◌>>=◌
Keeps-bind {P} {a} {f} h k = record { at = λ s v. continue-Always P (a s) f (h.at s v) k }

pub Keeps-lift : {B A : Type 0} {P : Disk B → Type 0} (r : Result A) → Keeps P (lift r)
unfolding lift
Keeps-lift r = record { at = λ s h. h }

pub dropped-Always :
    {B A : Type 0} (P : Disk B → Type 0) (name : String) (p : Result A × Io B)
    → Keeps P (discard {B = B} name)
    → Always P p.1
    → Always P (dropped name p).1
dropped-Always P name (ok x, s) k h = h
dropped-Always P name (err e, s) k h = k.at s h

pub Keeps-dropping :
    {B A : Type 0} {P : Disk B → Type 0} (name : String) {a : Action (Io B) A}
    → Keeps P (discard {B = B} name)
    → Keeps P a
    → Keeps P (dropping name a)
unfolding dropping
Keeps-dropping {P} name {a} k h = record { at = λ s v. dropped-Always P name (a s) k (h.at s v) }
