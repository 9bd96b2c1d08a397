-- ===== src/Routing/Properties/Quoting.antt =====
-- Quoted texts (`pulse_quote` in crates/openwave-core/src/routing.rs) against a parser of them.
use Prim.Native.String.append as joined
use Prim.Native.Char.{code, Char}
use Prim.Native.String.String.{[] as empty, ◌∷◌ as cons}
use Prim.Native.String.{◌++◌ as append}
use text.Mathlib.TextLemmas.{append_assoc}
use openwave.Prelude.{
  String, Bool, true, false, ◌||◌, Option, none, some, ◌==◌, ◌≡◌, refl, subst, nat_instance, arith,
  if◌then◌else◌,
}
use openwave.Model.{ok}
use openwave.Routing.Properties.{escape, pulse_quote}

abbrev pub push : Char → Option (String × String) → Option (String × String)
push c none = none
push c (some (text, rest)) = some (cons c text, rest)

-- The text up to the closing quote, and what follows the quote; after a backslash the next
-- character stands for itself.
unfoldable pub unescape : Bool → String → Option (String × String)
unescape escaped empty = none
unescape true (cons c s) = push c (unescape false s)
unescape false (cons c s) =
    let closed = some (empty, s) in
    if code c == 34
    then closed
    else if code c == 92
    then unescape true s
    else push c (unescape false s)

unfoldable pub unquote : String → Option (String × String)
unfolding unescape
unquote empty = none
unquote (cons c s) = if code c == 34 then unescape false s else none

pub append-cons : (c : Char) (s t : String) → append (cons c s) t ≡ cons c (append s t)
append-cons c s t = λ i. joined.cons c s t i

pub append-nil : (t : String) → append "" t ≡ t
append-nil t = λ i. joined.nil t i

unescape-plain :
    (c : Char) (s : String)
    → (code c == 92 || code c == 34) ≡ false
    → unescape false (cons c s) ≡ push c (unescape false s)
unfolding unescape
unescape-plain c s h = ground (arith, h)

unescape-backslash :
    (c : Char) (s : String) → unescape false (cons "\\" (cons c s)) ≡ push c (unescape false s)
unfolding unescape
unescape-backslash c s = refl

unescape-escape :
    (t rest : String) → unescape false (append (escape t) (cons "\"" rest)) ≡ some (t, rest)
unfolding unescape escape
unescape-escape empty rest = rw (append-nil (cons "\"" rest)) refl
unescape-escape (cons c t) rest = ground (
  arith,
  append-cons "\\" (cons c (escape t)) (cons "\"" rest),
  append-cons c (escape t) (cons "\"" rest),
  unescape-backslash c (append (escape t) (cons "\"" rest)),
  unescape-plain c (append (escape t) (cons "\"" rest)),
  unescape-escape t rest,
)

quoted : (t : String) {q : String} → pulse_quote t ≡ ok q → cons "\"" (append (escape t) "\"") ≡ q
unfolding pulse_quote
quoted t h = ground arith

unquote-quoted :
    (t rest : String) → unquote (append (cons "\"" (append (escape t) "\"")) rest) ≡ some (t, rest)
unfolding unquote
unquote-quoted t rest =
    rw
      (
        append-cons "\"" (append (escape t) "\"") rest,
        append_assoc (escape t) "\"" rest,
        append-cons "\"" "" rest,
        append-nil rest,
      )
      (unescape-escape t rest)

-- A text that is quoted is read back, whatever follows the quotes.
pub unquote-pulse_quote :
    (t rest : String) {q : String} → pulse_quote t ≡ ok q → unquote (append q rest) ≡ some (t, rest)
unquote-pulse_quote t rest h =
    subst (λ x. unquote (append x rest) ≡ some (t, rest)) (quoted t h) (unquote-quoted t rest)
