-- ===== src/Prelude/Json.antt =====
-- The values of serde_json, as a parameter: what a value looks like and how one is made. The
-- accessors are those of `Value`, which read nothing else.
pub mod Tree
use openwave.Prelude.{ℕ, String, Bool, Option, none, some, List, [], ◌∷◌, ◌≡◌, string_instance}
use openwave.Prelude.Dict.{Dict, get as find_key}

pub data View (N V : Type 0) : Type 0 where
  null : View N V
  bool : Bool → View N V
  number : N → View N V
  string : String → View N V
  array : List V → View N V
  object : Dict String V → View N V

-- `V` is `Value` and `N` is `Number`.
pub record Json : Type 1 where
  pub V : Type 0
  pub N : Type 0
  pub view : V → View N V
  pub make : View N V → V
  pub view-make : (w : View N V) → view (make w) ≡ w
  pub number_as_u64 : N → Option ℕ
  pub number_to_string : N → String

module _ {N V : Type 0} where
  abbrev pub array? : View N V → Option (List V)
  array? (array l) = some l
  array? null = none
  array? (bool b) = none
  array? (number n) = none
  array? (string s) = none
  array? (object m) = none

  abbrev pub object? : View N V → Option (Dict String V)
  object? (object m) = some m
  object? null = none
  object? (bool b) = none
  object? (number n) = none
  object? (string s) = none
  object? (array l) = none

  abbrev pub string? : View N V → Option String
  string? (string s) = some s
  string? null = none
  string? (bool b) = none
  string? (number n) = none
  string? (array l) = none
  string? (object m) = none

  abbrev pub bool? : View N V → Option Bool
  bool? (bool b) = some b
  bool? null = none
  bool? (number n) = none
  bool? (string s) = none
  bool? (array l) = none
  bool? (object m) = none

  abbrev pub number? : View N V → Option N
  number? (number n) = some n
  number? null = none
  number? (bool b) = none
  number? (string s) = none
  number? (array l) = none
  number? (object m) = none

-- `Option::and_then`
infixl 6 ◌>>?◌
abbrev pub ◌>>?◌ {ℓ κ} : {A : Type ℓ} → {B : Type κ} → Option A → (A → Option B) → Option B
none >>? f = none
some a >>? f = f a

-- `Option::or_else`
abbrev pub or_else {ℓ} : {A : Type ℓ} → Option A → Option A → Option A
or_else (some a) other = some a
or_else none other = other

module _ (js : Json) where
  open js use {V, view, number_as_u64}

  abbrev pub as_array : V → Option (List V)
  as_array v = array? (view v)

  abbrev pub as_object : V → Option (Dict String V)
  as_object v = object? (view v)

  abbrev pub as_str : V → Option String
  as_str v = string? (view v)

  abbrev pub as_bool : V → Option Bool
  as_bool v = bool? (view v)

  abbrev pub as_u64 : V → Option ℕ
  as_u64 v = number? (view v) >>? number_as_u64

  -- `Value::get` with a key
  abbrev pub member : String → V → Option V
  member key v = as_object v >>? find_key key

  -- `Value::pointer` of names that are no index
  abbrev pub pointer : List String → V → Option V
  pointer [] v = some v
  pointer (key ∷ keys) v = member key v >>? pointer keys
