-- ===== src/Routing/Claims/Winner.antt =====
-- crates/openwave-core/src/routing.rs: the source that a name is bound to.
use openwave.Prelude.{
  String, Bool, true, false, ◌&&◌, ◌||◌, Option, none, some, List, [], ◌∷◌, ◌==◌, ◌≡◌, refl, ap,
  sym, ◌∙◌, string_instance, if◌then◌else◌, arith, Bool-cases, inl, inr, beq_sym, any, str_eq_iff,
}
use openwave.Prelude.Dict.{Dict, get, get-insert}
use openwave.Prelude.Text.{str_lt, str_lt_trans, str_lt_asymm, str_lt_tricho, str_lt_irrefl}
use openwave.Sources.{Sources}
use openwave.Routing.Claims.{smaller, bind, bind_names, normalize_identity, is_app, scan, matcher}

-- The smaller of two ids, where there are two.
abbrev pub merge : Option String → Option String → Option String
merge none o = o
merge (some a) none = some a
merge (some a) (some b) = some (if str_lt b a then b else a)

smaller_assoc :
    (a b c : String) → smaller c (some (smaller b (some a))) ≡ smaller (smaller c (some b)) (some a)
smaller_assoc a b c = ground (
  arith,
  str_lt_trans c b a,
  str_lt_trans b c a,
  str_lt_asymm c b,
  str_lt_tricho c b,
  str_lt_asymm b a,
  str_lt_tricho b a,
  str_lt_asymm c a,
  str_lt_tricho c a,
  str_lt_trans a b c,
  str_lt_trans c a b,
)

merge_assoc : (a b c : Option String) → merge (merge a b) c ≡ merge a (merge b c)
merge_assoc none b c = refl
merge_assoc (some a) none c = refl
merge_assoc (some a) (some b) none = refl
merge_assoc (some a) (some b) (some c) = ap some (smaller_assoc a b c)

smaller_same : (a : String) → smaller a (some a) ≡ a
smaller_same a = rw (str_lt_irrefl a) refl

merge_same : (o : Option String) (a : String) → merge (merge o (some a)) (some a) ≡ merge o (some a)
merge_same o a = merge_assoc o (some a) (some a) ∙ ap (λ x. merge o (some x)) (smaller_same a)

merge-some : (o : Option String) (id : String) → merge o (some id) ≡ some (smaller id o)
merge-some none id = refl
merge-some (some a) id = refl

get-bind :
    (id n k : String) (b : Dict String String)
    → get k (bind id n b) ≡ (if n == k then merge (get k b) (some id) else get k b)
unfolding bind
get-bind id n k b = get-insert k n (smaller id (get n b)) b ∙ elim (Bool-cases (n == k)) [
  | inl e ↦
      rw e
        (sym (merge-some (get n b) id) ∙ ap (λ x. merge (get x b) (some id)) ((str_eq_iff n k).0 e))
  | inr e ↦ rw e refl
]

module _ (fold : String → String) where
  -- Whether one of the names is normalized to a name.
  abbrev pub names : String → List String → Bool
  names k ns = any (λ n. normalize_identity fold n == k) ns

  get-bind_names :
      (id k : String) (ns : List String) (b : Dict String String)
      → (k == "") ≡ false
      → get k (bind_names fold id ns b)
        ≡ (if names k ns then merge (get k b) (some id) else get k b)
  unfolding bind_names
  get-bind_names id k [] b h = refl
  get-bind_names id k (n ∷ ns) b h =
      let rest = get-bind_names id k ns b h in
      let bound = get-bind_names id k ns (bind id (normalize_identity fold n) b) h in
      elim (Bool-cases (normalize_identity fold n == "")) [
        | inl e ↦
            let apart : (normalize_identity fold n == k) ≡ false =
              ap (λ x. x == k) ((str_eq_iff (normalize_identity fold n) "").0 e)
              ∙ beq_sym "" k
              ∙ h in
            rw (e, apart) rest
        | inr e ↦ rw e (bound ∙ again (names k ns) (normalize_identity fold n))
      ]
    where
      again :
          (listed : Bool) (x : String)
          → (if listed then merge (get k (bind id x b)) (some id) else get k (bind id x b))
            ≡ (if x == k || listed then merge (get k b) (some id) else get k b)
      again listed x = elim (Bool-cases (x == k)) [
        | inl e ↦ rw (get-bind id x k b, e) (twice listed)
        | inr e ↦ rw (get-bind id x k b, e) refl
      ]
        where
          twice :
              (l : Bool)
              → (if l
                  then merge (merge (get k b) (some id)) (some id)
                  else merge (get k b) (some id))
                ≡ merge (get k b) (some id)
          twice true = merge_same (get k b) id
          twice false = refl

  module _ {F V : Type 0} (as_bool : V → Option Bool) where
    -- The smallest id of the application sources that list a name.
    abbrev pub least_owner : String → Sources F V → Option String
    least_owner k [] = none
    least_owner k ((id, s) ∷ sources) =
        let rest = least_owner k sources in
        if is_app s.kind && names k s.match_app_names then merge (some id) rest else rest

    get-scan :
        (k : String) (m : Sources F V) (b : Dict String String) (f : Option String)
        → (k == "") ≡ false
        → get k (scan fold as_bool m b f).0 ≡ merge (get k b) (least_owner k m)
    unfolding scan
    get-scan k [] b f h = ground (arith)
    get-scan k ((id, s) ∷ m) b f h = get-scan k m _ _ h ∙ elim (Bool-cases (is_app s.kind)) [
      | inl e ↦
          rw (e, get-bind_names id k s.match_app_names b h) (chosen (names k s.match_app_names))
      | inr e ↦ rw e refl
    ]
      where
        chosen :
            (listed : Bool)
            → merge (if listed then merge (get k b) (some id) else get k b) (least_owner k m)
              ≡ merge
                  (get k b)
                  (if listed then merge (some id) (least_owner k m) else least_owner k m)
        chosen true = merge_assoc (get k b) (some id) (least_owner k m)
        chosen false = refl

    -- A name is bound to the smallest id of the application sources that list it, in whatever order
    -- the sources stand; a name that none lists is not bound.
    pub bindings-least_owner :
        (m : Sources F V) (k : String)
        → (k == "") ≡ false
        → get k (matcher fold as_bool m).bindings ≡ least_owner k m
    unfolding matcher get
    bindings-least_owner m k h = get-scan k m [] none h
