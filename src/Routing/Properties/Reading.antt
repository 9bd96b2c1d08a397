-- ===== src/Routing/Properties/Reading.antt =====
-- Module arguments (`pulse_properties` in crates/openwave-core/src/routing.rs) as the parsers of
-- the module and of its property list read them.

use Prim.Native.Char.{code}
use Prim.Native.String.String.{[] as empty, ◌∷◌ as cons}
use Prim.Native.String.{◌++◌ as append}
use text.Mathlib.TextLemmas.{append-nil as right_unit}
use openwave.Prelude.{
  ℕ, zero, suc, String, Bool, true, false, Option, none, some, List, [], ◌∷◌, ◌==◌, ◌≡◌, refl,
  subst, length, nat_instance, string_instance, arith, if◌then◌else◌,
}
use openwave.Prelude.Dict.{Dict}
use openwave.Model.{Result, ok, ok_inj, ◌>>=◌, >>=-eq-ok}
use openwave.Routing.Properties.{
  all_key_codes, property_key, pulse_quote, value_text, join_pairs, pulse_properties,
}
use openwave.Routing.Properties.Quoting.{
  push, unquote, append-cons, append-nil, unquote-pulse_quote,
}

-- The text up to the first `=`, and what follows it.
unfoldable pub read_key : String → Option (String × String)
read_key empty = none
read_key (cons c s) = let later = read_key s in if code c == 61 then some ("", s) else push c later

abbrev pub skip_space : String → String
skip_space empty = empty
skip_space (cons c s) = if code c == 32 then s else cons c s

abbrev pub and_then : {A B : Type 0} → Option A → (A → Option B) → Option B
and_then none f = none
and_then (some a) f = f a

-- `n` pairs of a key and a quoted text, with a space between, and nothing after them.
unfoldable pub read_pairs : ℕ → String → Option (List (String × String))
read_pairs zero empty = some []
read_pairs zero (cons c s) = none
read_pairs (suc n) s = and_then (read_key (skip_space s)) (λ (key, after).
    and_then (unquote after)
      (λ (text, rest). and_then (read_pairs n rest) (λ pairs. some ((key, text) ∷ pairs))))

-- The module's parser removes the outer quotes, and the property list's reads what they held.
unfoldable pub read_properties : ℕ → String → Option (List (String × String))
unfolding read_pairs
read_properties n s =
    and_then (unquote s) (λ (pairs, rest). if rest == "" then read_pairs n pairs else none)

read_key-append :
    (k s : String) → all_key_codes k ≡ true → read_key (append k (append "=" s)) ≡ some (k, s)
unfolding read_key
read_key-append empty s h = rw (append-nil (append "=" s), append-cons "=" "" s, append-nil s) refl
read_key-append (cons c k) s h = ground (arith, append-cons c k (append "=" s), read_key-append k s)

-- A key starts with no space.
skip_space-key :
    (k s : String)
    → (k == "") ≡ false
    → all_key_codes k ≡ true
    → skip_space (append k s) ≡ append k s
skip_space-key empty s n h = ground arith
skip_space-key (cons c k) s n h = rw (append-cons c k s) (ground arith)

skip_space-space :
    (first : Bool) (k s : String)
    → (k == "") ≡ false
    → all_key_codes k ≡ true
    → skip_space (append (if first then "" else " ") (append k s)) ≡ append k s
skip_space-space true k s n h = rw (append-nil (append k s)) (skip_space-key k s n h)
skip_space-space false k s n h = rw (append-cons " " "" (append k s), append-nil (append k s)) refl

key_codes :
    (k : String) {u : Unit {0}}
    → property_key k ≡ ok u
    → ((k == "") ≡ false) × (all_key_codes k ≡ true)
unfolding property_key
key_codes k h = ground arith

module _ {V : Type 0} (as_string : V → Option String) (print : V → Result String) where
  -- Each key with the text of its value.
  unfoldable pub texts : Dict String V → Result (List (String × String))
  texts [] = ok []
  texts ((key, value) ∷ values) = do
    text ← value_text as_string print value
    later ← texts values
    ok ((key, text) ∷ later)

  read_one :
      (first : Bool) (k t q later : String) (n : ℕ) (ts : List (String × String)) {u : Unit {0}}
      → property_key k ≡ ok u
      → pulse_quote t ≡ ok q
      → read_pairs n later ≡ some ts
      → read_pairs
          (suc n)
          (append (if first then "" else " ") (append k (append "=" (append q later))))
        ≡ some ((k, t) ∷ ts)
  unfolding read_pairs
  read_one first k t q later n ts hk hq hr =
      let (filled, codes) = key_codes k hk in
      rw
        (
          skip_space-space first k (append "=" (append q later)) filled codes,
          read_key-append k (append q later) codes,
          unquote-pulse_quote t later hq,
          hr,
        )
        refl

  read_pairs-join_pairs :
      (first : Bool) (values : Dict String V) {pairs : String}
      → join_pairs as_string print first values ≡ ok pairs
      → (ts : List (String × String)) × (texts values ≡ ok ts)
        × (read_pairs (length values) pairs ≡ some ts)
  unfolding join_pairs texts read_pairs
  read_pairs-join_pairs first [] h =
      ([], refl, subst (λ x. read_pairs 0 x ≡ some []) (ok_inj h) refl)
  read_pairs-join_pairs first ((k, v) ∷ values) h =
      let (u, hk, h1) = >>=-eq-ok (property_key k) _ h in
      let (t, ht, h2) = >>=-eq-ok (value_text as_string print v) _ h1 in
      let (q, hq, h3) = >>=-eq-ok (pulse_quote t) _ h2 in
      let (later, hl, h4) = >>=-eq-ok (join_pairs as_string print false values) _ h3 in
      let (ts, e, r) = read_pairs-join_pairs false values hl in
      (
        (k, t) ∷ ts,
        rw (ht, e) refl,
        subst (λ x. read_pairs (suc (length values)) x ≡ some ((k, t) ∷ ts)) (ok_inj h4)
            (read_one first k t q later (length values) ts hk hq r),
      )

  read_outer :
      (pairs : String) {out : String} (n : ℕ) (ts : List (String × String))
      → pulse_quote pairs ≡ ok out
      → read_pairs n pairs ≡ some ts
      → read_properties n out ≡ some ts
  unfolding read_properties
  read_outer pairs {out} n ts h r =
      let e =
        subst (λ x. unquote x ≡ some (pairs, "")) (right_unit out)
          (unquote-pulse_quote pairs "" h) in
      rw (e, r) refl

  -- What `pulse_properties` writes is read back by the two parsers, each of which removes a layer
  -- of quotes: every key in its order, with the text of its value.
  pub read_properties-pulse_properties :
      (values : Dict String V) {out : String}
      → pulse_properties as_string print values ≡ ok out
      → (ts : List (String × String)) × (texts values ≡ ok ts)
        × (read_properties (length values) out ≡ some ts)
  unfolding pulse_properties read_properties
  read_properties-pulse_properties values {out} h =
      let (pairs, hp, hq) = >>=-eq-ok (join_pairs as_string print true values) _ h in
      let (ts, e, r) = read_pairs-join_pairs true values hp in
      (ts, e, read_outer pairs (length values) ts hq r)
