-- ===== src/Routing/Claims/Once.antt =====
-- crates/openwave-core/src/routing.rs: no stream has two owners.
use openwave.Prelude.{
  ℕ, suc, ◌+◌, ◌≤◌, String, Bool, true, false, Option, none, some, List, [], ◌∷◌, ◌==◌, ◌≡◌, refl,
  ap, sym, ◌∙◌, map, string_instance, if◌then◌else◌, arith, Bool-cases, inl, inr,
}
use openwave.Prelude.Dict.{Dict, modify, contains, add, keys, contains-append}
use openwave.Model.{NodeIdentity, identity_instance, identity_eq_iff}
use openwave.Sources.{StreamSnapshot}
use openwave.Routing.Claims.{
  NormalizedStream, NormalizedMatcher, owner, push_claim, no_claims, claim_for, claim_new,
  claim_loop, claim_normalized, normalized, claim_each, claim,
}

-- How often an identity stands in a list, and in the lists of all sources.
abbrev pub occurrences : NodeIdentity → List NodeIdentity → ℕ
occurrences i [] = 0
occurrences i (j ∷ js) = let rest = occurrences i js in if j == i then suc rest else rest

abbrev pub claimed : NodeIdentity → Dict String (List NodeIdentity) → ℕ
claimed i [] = 0
claimed i ((id, js) ∷ claims) = occurrences i js + claimed i claims

occurrences-push :
    (i j : NodeIdentity) (js : List NodeIdentity)
    → occurrences i (push_claim j js) ≡ occurrences i js + (if j == i then 1 else 0)
occurrences-push i j [] = ground arith
occurrences-push i j (k ∷ js) = ground (arith, occurrences-push i j js)

claimed-modify :
    (i j : NodeIdentity) (o : String) (claims : Dict String (List NodeIdentity))
    → claimed i (modify o (push_claim j) claims) ≤ claimed i claims + (if j == i then 1 else 0)
unfolding modify
claimed-modify i j o [] = omega arith
claimed-modify i j o ((id, js) ∷ claims) =
    ground (arith, occurrences-push i j js, claimed-modify i j o claims)

claimed-no_claims : (i : NodeIdentity) (ids : List String) → claimed i (no_claims ids) ≡ 0
claimed-no_claims i [] = refl
claimed-no_claims i (id ∷ ids) = omega (arith, claimed-no_claims i ids)

claimed-claim_for :
    (i j : NodeIdentity) (o : Option String) (claims : Dict String (List NodeIdentity))
    → claimed i (claim_for o j claims) ≤ claimed i claims + (if j == i then 1 else 0)
claimed-claim_for i j none claims = omega arith
claimed-claim_for i j (some o) claims = claimed-modify i j o claims

-- As often as the identity was seen, at most.
abbrev once : NodeIdentity → List NodeIdentity → ℕ
once i seen = if contains i seen then 1 else 0

claimed-step :
    (i j : NodeIdentity) (o : Option String) (seen : List NodeIdentity)
    (claims : Dict String (List NodeIdentity))
    → claimed i claims ≤ once i seen
    → claimed i (claim_new (add j seen).1 o j claims) ≤ once i (add j seen).0
unfolding add contains
claimed-step i j o seen claims h = elim (Bool-cases (contains j seen)) [
  | inl e ↦ rw e h
  | inr e ↦ rw e (elim (Bool-cases (j == i)) [
    | inl same ↦
        let unseen : contains i seen ≡ false =
          ap (λ x. contains x seen) (sym ((identity_eq_iff j i).0 same)) ∙ e in
        ground
          (arith, claimed-claim_for i j o claims, contains-append i seen (j ∷ []), unseen, h, same)
    | inr apart ↦
        ground (arith, claimed-claim_for i j o claims, contains-append i seen (j ∷ []), h, apart)
  ])
]

claimed-claim_loop :
    (i : NodeIdentity) (m : NormalizedMatcher) (ss : List NormalizedStream)
    (seen : List NodeIdentity) (claims : Dict String (List NodeIdentity))
    → claimed i claims ≤ once i seen
    → claimed i (claim_loop m ss seen claims) ≤ 1
unfolding claim_loop
claimed-claim_loop i m [] seen claims h = ground (arith, h)
claimed-claim_loop i m (s ∷ ss) seen claims h =
    claimed-claim_loop i m ss (add s.identity seen).0 _
      (claimed-step i s.identity (owner m s) seen claims h)

keys-modify :
    (o : String) (j : NodeIdentity) (claims : Dict String (List NodeIdentity))
    → keys (modify o (push_claim j) claims) ≡ keys claims
unfolding modify
keys-modify o j [] = refl
keys-modify o j ((id, js) ∷ claims) = ground (arith, keys-modify o j claims)

keys-claim_new :
    (b : Bool) (o : Option String) (j : NodeIdentity) (claims : Dict String (List NodeIdentity))
    → keys (claim_new b o j claims) ≡ keys claims
keys-claim_new true none j claims = refl
keys-claim_new true (some o) j claims = keys-modify o j claims
keys-claim_new false o j claims = refl

keys-claim_loop :
    (m : NormalizedMatcher) (ss : List NormalizedStream) (seen : List NodeIdentity)
    (claims : Dict String (List NodeIdentity))
    → keys (claim_loop m ss seen claims) ≡ keys claims
unfolding claim_loop
keys-claim_loop m [] seen claims = refl
keys-claim_loop m (s ∷ ss) seen claims =
    keys-claim_loop m ss (add s.identity seen).0 _
    ∙ keys-claim_new (add s.identity seen).1 (owner m s) s.identity claims

keys-no_claims : (ids : List String) → keys (no_claims ids) ≡ ids
keys-no_claims [] = refl
keys-no_claims (id ∷ ids) = ap (λ xs. id ∷ xs) (keys-no_claims ids)

-- Every source has its list of claims, in the order of the sources, and an identity stands at most
-- once in all the lists together, however often a stream of it was observed.
pub claimed_once :
    (m : NormalizedMatcher) (ss : List NormalizedStream) (i : NodeIdentity)
    → (claimed i (claim_normalized m ss) ≤ 1) × (keys (claim_normalized m ss) ≡ m.sources)
unfolding claim_normalized
claimed_once m ss i = (
  claimed-claim_loop i m ss [] (no_claims m.sources) (omega (arith, claimed-no_claims i m.sources)),
  keys-claim_loop m ss [] (no_claims m.sources) ∙ keys-no_claims m.sources,
)

module _ (fold : String → String) where
  claim_each-loop :
      (m : NormalizedMatcher) (ss : List StreamSnapshot) (seen : List NodeIdentity)
      (claims : Dict String (List NodeIdentity))
      → claim_each fold m ss seen claims ≡ claim_loop m (map (normalized fold) ss) seen claims
  unfolding claim_each claim_loop normalized
  claim_each-loop m [] seen claims = refl
  claim_each-loop m (s ∷ ss) seen claims = claim_each-loop m ss (add s.identity seen).0 _

  -- Claiming observed streams is claiming their normalized forms, which a caller may keep.
  pub claim-map :
      (m : NormalizedMatcher) (ss : List StreamSnapshot)
      → claim fold m ss ≡ claim_normalized m (map (normalized fold) ss)
  unfolding claim claim_normalized
  claim-map m ss = claim_each-loop m ss [] (no_claims m.sources)
