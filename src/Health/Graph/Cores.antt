-- ===== src/Health/Graph/Cores.antt =====
-- The one Core of a dump, whose cookie every node of crates/openwave-core/src/health.rs gets.
use openwave.Prelude.{
  ℕ, Bool, true, false, Option, none, some, List, [], ◌∷◌, ◌≡◌, sym, ap, subst, ◌∙◌, refl, filter,
  Bool-cases, inl, inr, string_instance, nat_instance, if◌then◌else◌,
}
use openwave.Prelude.Dict.{get as find_key}
use openwave.Prelude.Json.{Json, ◌>>?◌, member, as_object, as_str}
use openwave.Model.{ok, ok_inj, >>=-eq-ok}
use openwave.Health.Graph.{complete, is_kind, uint, find_cookie, note_cookie, says, once}

-- The branch that a test takes.
pub taken {ℓ} :
    {A : Type ℓ} {b : Bool} (x y : A) {z : A} → b ≡ true → (if b then x else y) ≡ z → x ≡ z
taken x y {z} e h = subst (λ b. (if b then x else y) ≡ z) e h

pub skipped {ℓ} :
    {A : Type ℓ} {b : Bool} (x y : A) {z : A} → b ≡ false → (if b then x else y) ≡ z → y ≡ z
skipped x y {z} e h = subst (λ b. (if b then x else y) ≡ z) e h

pub complete-some : {A : Type 0} (o : Option A) {a : A} → complete o ≡ ok a → o ≡ some a
complete-some none h = absurd (cc)
complete-some (some x) h = ap some (ok_inj h)

module _ (js : Json) where
  open js use {V}

  -- What the dump says is the cookie of a Core.
  abbrev core_cookie : V → Option ℕ
  core_cookie o = (member js "info" o >>? member js "cookie") >>? uint js

  abbrev pub cores : List V → List V
  cores objects = filter (is_kind js "PipeWire:Interface:Core") objects

  -- The dump has one Core, and that is its cookie.
  abbrev pub HasCookie : List V → ℕ → Type 0
  HasCookie objects cookie =
      (core : V) × (cores objects ≡ core ∷ []) × (core_cookie core ≡ some cookie)

  -- A round that succeeds passes over what is no Core, and reads the cookie of the first one.
  data Round (found : Option ℕ) (o : V) (next : Option ℕ) : Type 0 where
    passes : is_kind js "PipeWire:Interface:Core" o ≡ false → next ≡ found → Round found o next
    reads :
        (cookie : ℕ)
        → is_kind js "PipeWire:Interface:Core" o ≡ true
        → found ≡ none
        → core_cookie o ≡ some cookie
        → next ≡ some cookie
        → Round found o next

  once-first :
      (found : Option ℕ) (observed : ℕ) {next : Option ℕ}
      → once found observed ≡ ok next
      → (found ≡ none) × (next ≡ some observed)
  once-first none observed h = (refl, sym (ok_inj h))
  once-first (some before) observed h = absurd (cc)

  note_cookie-Round :
      (found : Option ℕ) (o : V) (next : Option ℕ)
      → note_cookie js found o ≡ ok next
      → Round found o next
  unfolding note_cookie
  note_cookie-Round found o next h =
      let (m, h0, h1) = >>=-eq-ok (complete (as_object js o)) _ h in
      let seen = complete-some (as_object js o) h0 in
      let kind = says "PipeWire:Interface:Core" (find_key "type" m >>? as_str js) in
      let same : is_kind js "PipeWire:Interface:Core" o ≡ kind =
        ap (λ f. says "PipeWire:Interface:Core" ((f >>? find_key "type") >>? as_str js)) seen in
      elim (Bool-cases kind) [
        | inl t ↦
            let (cookie, h2, h3) =
              >>=-eq-ok (complete ((find_key "info" m >>? member js "cookie") >>? uint js)) _
                (taken _ _ t h1) in
            let (empty, next_is) = once-first found cookie h3 in
            let read : core_cookie o ≡ some cookie =
              ap (λ f. ((f >>? find_key "info") >>? member js "cookie") >>? uint js) seen
              ∙ complete-some _ h2 in
            reads cookie (same ∙ t) empty read next_is
        | inr f ↦ passes (same ∙ f) (sym (ok_inj (skipped _ _ f h1)))
      ]

  -- A search that goes on from a cookie meets no other Core.
  find_cookie-rest :
      (os : List V) (cookie : ℕ) (last : Option ℕ)
      → find_cookie js (some cookie) os ≡ ok last
      → (cores os ≡ []) × (last ≡ some cookie)
  unfolding find_cookie
  find_cookie-rest [] cookie last h = (refl, sym (ok_inj h))
  find_cookie-rest (o ∷ os) cookie last h =
      let (next, h1, h2) = >>=-eq-ok (note_cookie js (some cookie) o) _ h in
      elim (note_cookie-Round (some cookie) o next h1) [
        | passes f e ↦
            let (none_left, same) =
              find_cookie-rest os cookie last
                (subst (λ found. find_cookie js found os ≡ ok last) e h2) in
            (rw f none_left, same)
        | reads c t empty read e ↦ absurd (cc)
      ]

  pub find_cookie-HasCookie :
      (os : List V) (cookie : ℕ) → find_cookie js none os ≡ ok (some cookie) → HasCookie os cookie
  unfolding find_cookie
  find_cookie-HasCookie [] cookie h = absurd (cc)
  find_cookie-HasCookie (o ∷ os) cookie h =
      let (next, h1, h2) = >>=-eq-ok (note_cookie js none o) _ h in
      elim (note_cookie-Round none o next h1) [
        | passes f e ↦
            let (core, one, read) =
              find_cookie-HasCookie os cookie
                (subst (λ found. find_cookie js found os ≡ ok (some cookie)) e h2) in
            (core, rw f one, read)
        | reads c t empty read e ↦
            let (none_left, same) =
              find_cookie-rest os c (some cookie)
                (subst (λ found. find_cookie js found os ≡ ok (some cookie)) e h2) in
            (o, rw t (ap (λ rest. o ∷ rest) none_left), read ∙ sym same)
      ]
