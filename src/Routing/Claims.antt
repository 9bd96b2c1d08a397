-- ===== src/Routing/Claims.antt =====
-- crates/openwave-core/src/routing.rs: which source owns a stream.
pub mod Once
pub mod Winner
use Prim.Native.Char.{code, Char}
use Prim.Native.String.String.{[] as empty, ◌∷◌ as cons}
use Prim.Native.String.{◌++◌ as append}
use openwave.Prelude.{
  ℕ, ◌+◌, String, Bool, true, false, not, ◌&&◌, ◌||◌, Option, none, some, List, [], ◌∷◌, ◌++◌, ◌==◌,
  leb, nat_eq, string_instance, if◌then◌else◌, nat_instance,
}
use openwave.Prelude.Dict.{Dict, get, insert, modify, contains, add, keys}
use openwave.Prelude.Text.{str_lt}
use openwave.Model.{NodeIdentity, identity_instance}
use openwave.Sources.{SourceKind, app, device, Source, Sources, StreamSnapshot}
use openwave.Routing.Output.{or_else}

-- The Unicode property White_Space.
abbrev pub is_space : ℕ → Bool
is_space c =
    (leb 9 c && leb c 13)
    || (c == 32)
    || (c == 133)
    || (c == 160)
    || (c == 5760)
    || (leb 8192 c && leb c 8202)
    || (c == 8232)
    || (c == 8233)
    || (c == 8239)
    || (c == 8287)
    || (c == 12288)

abbrev push_word : String → List String → List String
push_word word words = if word == "" then words else word ∷ words

-- The first word, as far as it reaches, and the later words.
abbrev chunks : String → String × List String
chunks empty = ("", [])
chunks (cons c s) =
    let (word, words) = chunks s in
    if is_space (code c) then ("", push_word word words) else (cons c word, words)

-- `str::split_whitespace`
abbrev pub split_whitespace : String → List String
split_whitespace s = let (word, words) = chunks s in push_word word words

-- The loop that joins the words by one space.
abbrev pub spaced : String → List String → String
spaced done [] = done
spaced done (word ∷ words) =
    spaced (append (if not (done == "") then append done " " else done) word) words

-- `rsplit('/').next()`
abbrev after_last : String → Option String
after_last empty = none
after_last (cons c s) = elim (after_last s) [
  | some r ↦ some r
  | none ↦ if nat_eq (code c) 47 then some s else none
]

abbrev pub basename : String → String
basename s = elim (after_last s) [ none ↦ s | some r ↦ r ]

-- `is_none_or(|current| id < current)`
abbrev pub is_less : String → Option String → Bool
is_less id none = true
is_less id (some current) = str_lt id current

-- `entry(name).and_modify(…).or_insert_with(…)`
abbrev pub smaller : String → Option String → String
smaller id none = id
smaller id (some owner) = if str_lt id owner then id else owner

unfoldable pub bind : String → String → Dict String String → Dict String String
bind id name bindings = insert name (smaller id (get name bindings)) bindings

-- Appended to the list of one source, which the matcher knows.
abbrev pub push_claim : NodeIdentity → List NodeIdentity → List NodeIdentity
push_claim i claimed = claimed ++ i ∷ []

abbrev pub no_claims : List String → Dict String (List NodeIdentity)
no_claims [] = []
no_claims (id ∷ ids) = (id, []) ∷ no_claims ids

pub record NormalizedStream : Type 0 where
  pub identity : NodeIdentity
  pub identities : List String  -- [String; 4], the most specific first

pub record NormalizedMatcher : Type 0 where
  pub sources : List String
  pub bindings : Dict String String
  pub fallback : Option String

-- `identities.iter().find_map(|name| self.bindings.get(name))`
unfoldable pub find_bound : Dict String String → List String → Option String
find_bound bindings [] = none
find_bound bindings (name ∷ names) = or_else (get name bindings) (find_bound bindings names)

unfoldable pub owner : NormalizedMatcher → NormalizedStream → Option String
owner m stream = or_else (find_bound m.bindings stream.identities) m.fallback

-- `claims.get_mut(owner)`, which the source expects to be there.
abbrev pub claim_for :
    Option String → NodeIdentity → Dict String (List NodeIdentity) → Dict String (List NodeIdentity)
claim_for none i claims = claims
claim_for (some o) i claims = modify o (push_claim i) claims

abbrev pub claim_new :
    Bool
    → Option String
    → NodeIdentity
    → Dict String (List NodeIdentity)
    → Dict String (List NodeIdentity)
claim_new true o i claims = claim_for o i claims
claim_new false o i claims = claims

unfoldable pub claim_loop :
    NormalizedMatcher
    → List NormalizedStream
    → List NodeIdentity
    → Dict String (List NodeIdentity)
    → Dict String (List NodeIdentity)
claim_loop m [] seen claims = claims
claim_loop m (stream ∷ streams) seen claims =
    let (seen', fresh) = add stream.identity seen in
    claim_loop m streams seen' (claim_new fresh (owner m stream) stream.identity claims)

unfoldable pub claim_normalized :
    NormalizedMatcher → List NormalizedStream → Dict String (List NodeIdentity)
claim_normalized m streams = claim_loop m streams [] (no_claims m.sources)

abbrev pub is_app : SourceKind → Bool
is_app app = true
is_app device = false

-- `and_then(Value::as_bool).unwrap_or(false)`
abbrev flag : {V : Type 0} → (V → Option Bool) → Option V → Bool
flag as_bool none = false
flag as_bool (some v) = elim (as_bool v) [ none ↦ false | some b ↦ b ]

-- `fold` stands for `caseless::default_case_fold_str`.
module _ (fold : String → String) where
  unfoldable pub normalize_identity : String → String
  normalize_identity value = fold (spaced "" (split_whitespace value))

  unfoldable pub normalized : StreamSnapshot → NormalizedStream
  normalized stream = record {
    identity = stream.identity;
    identities =
        normalize_identity stream.app_name
        ∷ normalize_identity stream.node_name
        ∷ normalize_identity stream.binary
        ∷ normalize_identity (basename stream.binary)
        ∷ [];
  }

  unfoldable pub bind_names : String → List String → Dict String String → Dict String String
  bind_names id [] bindings = bindings
  bind_names id (name ∷ names) bindings =
      let n = normalize_identity name in
      bind_names id names (if n == "" then bindings else bind id n bindings)

  unfoldable pub claim_each :
      NormalizedMatcher
      → List StreamSnapshot
      → List NodeIdentity
      → Dict String (List NodeIdentity)
      → Dict String (List NodeIdentity)
  claim_each m [] seen claims = claims
  claim_each m (stream ∷ streams) seen claims =
      let (seen', fresh) = add stream.identity seen in
      claim_each m streams seen'
        (claim_new fresh (owner m (normalized stream)) stream.identity claims)

  unfoldable pub claim : NormalizedMatcher → List StreamSnapshot → Dict String (List NodeIdentity)
  claim m streams = claim_each m streams [] (no_claims m.sources)

  -- `as_bool` stands for serde's `Value::as_bool`.
  module _ {F V : Type 0} (as_bool : V → Option Bool) where
    unfoldable pub catch_all : Source F V → Bool
    catch_all s = flag as_bool (get "catch_all" s.extra)

    -- The loop of `new`, over the sources that are left.
    unfoldable pub scan :
        Sources F V → Dict String String → Option String → Dict String String × Option String
    scan [] bindings fallback = (bindings, fallback)
    scan ((id, s) ∷ sources) bindings fallback =
        scan sources (if is_app s.kind then bind_names id s.match_app_names bindings else bindings)
          (if is_app s.kind && catch_all s && is_less id fallback then some id else fallback)

    unfoldable pub matcher : Sources F V → NormalizedMatcher
    matcher sources =
        let (bindings, fallback) = scan sources [] none in
        record { sources = keys sources; bindings = bindings; fallback = fallback }

    unfoldable pub claim_streams :
        Sources F V → List StreamSnapshot → Dict String (List NodeIdentity)
    claim_streams sources streams = claim (matcher sources) streams
