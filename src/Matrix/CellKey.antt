-- ===== src/Matrix/CellKey.antt =====
-- crates/openwave-core/src/model.rs: the key of a cell names its source and its mix.
use Prim.Native.String.append as joined
use Prim.Native.Char.{code, Char}
use Prim.Native.String.String.{[] as empty, ◌∷◌ as cons}
use Prim.Native.String.{◌++◌ as append}
use openwave.Prelude.{
  String, Bool, true, not, ◌&&◌, some, ◌==◌, ◌≡◌, refl, ap, ◌∙◌, nat_instance, string_instance,
  arith,
}
use openwave.Model.{ok}
use openwave.Matrix.{is_id_code, all_id_codes, stable_id, split_once, cell_key, parse_cell_key}

-- An id of a source or a mix.
abbrev pub is_id : String → Bool
is_id s = not (s == "") && all_id_codes s

split_once-cons :
    (c : Char) (s before after : String)
    → is_id_code (code c) ≡ true
    → split_once s ≡ some (before, after)
    → split_once (cons c s) ≡ some (cons c before, after)
unfolding split_once
split_once-cons c s before after h e = rw e (ground (arith, h))

dot : (t : String) → append "." t ≡ cons "." t
dot t = (λ i. joined.cons "." empty t i) ∙ ap (λ x. cons "." x) (λ i. joined.nil t i)

split_once-dot : (t : String) → split_once (cons "." t) ≡ some ("", t)
unfolding split_once
split_once-dot t = refl

split_once-append :
    (s t : String) → all_id_codes s ≡ true → split_once (append s (append "." t)) ≡ some (s, t)
split_once-append empty t h =
    ap split_once (λ i. joined.nil (append "." t) i) ∙ ap split_once (dot t) ∙ split_once-dot t
split_once-append (cons c s) t h =
    ap split_once (λ i. joined.cons c s (append "." t) i)
    ∙ split_once-cons c (append s (append "." t)) s t (ground (arith, h))
        (split_once-append s t (ground (arith, h)))

stable_id-ok : (debug : String → String) (s : String) → is_id s ≡ true → stable_id debug s ≡ ok s
unfolding stable_id
stable_id-ok debug s h = ground (arith, h)

-- The key of a cell is parsed back to its source and its mix, since no id holds the separator.
pub parse_cell_key-cell_key :
    (debug : String → String) (source mix : String)
    → is_id source ≡ true
    → is_id mix ≡ true
    → parse_cell_key debug (cell_key source mix) ≡ ok (source, mix)
unfolding parse_cell_key
parse_cell_key-cell_key debug source mix h k =
    rw
      (
        split_once-append source mix (ground (arith, h)),
        stable_id-ok debug source h,
        stable_id-ok debug mix k,
      )
      refl
