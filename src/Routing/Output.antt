-- ===== src/Routing/Output.antt =====
-- crates/openwave-core/src/routing.rs: the output of a mix.
pub mod Choice
pub mod Automatic
use text.Mathlib.Text.{starts_with}
use openwave.Prelude.{
  ℕ, String, Bool, true, false, not, ◌&&◌, ◌||◌, Option, none, some, List, [], ◌∷◌, ◌⊎◌, inl, inr,
  ◌==◌, filter, find?, string_instance, if◌then◌else◌,
}
use openwave.Prelude.Int.{ℤ, ltb_ℤ, leb_ℤ}
use openwave.Prelude.Search.{min_by}
use openwave.Prelude.Text.{str_lt, has_nul}
use openwave.Model.{Result, ok, err, fail, invalid, ◌>>=◌, ◌>>◌}
use openwave.Sources.{OutputSnapshot}

unfoldable pub validate_output_choice : String → Result (Unit {0})
validate_output_choice choice =
    if choice == "" || starts_with choice "openwave_" || has_nul choice
    then fail invalid "Output must be auto, none or a non-OpenWave sink name"
    else ok tt

pub data SilentOutput : Type 0 where
  not_monitored missing_explicit no_eligible_output ambiguous_identity : SilentOutput

pub data OutputDecision (V : Type 0) : Type 0 where
  monitor : OutputSnapshot V → OutputDecision V
  silent : SilentOutput → OutputDecision V

-- What runs reaches its end, or a line that is marked `unreachable!()`.
pub data Reached (A : Type 0) : Type 0 where
  reached : A → Reached A
  unreachable : Reached A

-- `Option::or_else`
abbrev pub or_else {ℓ} : {A : Type ℓ} → Option A → Option A → Option A
or_else none b = b
or_else (some a) b = some a

module _ {V : Type 0} where
  unfoldable pub eligible_output : OutputSnapshot V → Bool
  eligible_output o = not (o.node_name == "") && not (starts_with o.node_name "openwave_")

  unfoldable pub named : String → OutputSnapshot V → Bool
  named name o = eligible_output o && o.node_name == name

  -- `first` and `matches.next()` of the closure `exact`
  abbrev pub only : List (OutputSnapshot V) → SilentOutput ⊎ Option (OutputSnapshot V)
  only [] = inr none
  only (o ∷ []) = inr (some o)
  only (o ∷ second ∷ rest) = inl ambiguous_identity

  -- The closure `exact`: the one eligible output of a name.
  unfoldable pub exact : List (OutputSnapshot V) → String → SilentOutput ⊎ Option (OutputSnapshot V)
  exact outputs name = only (filter (named name) outputs)

  abbrev pub wave_named : String → OutputSnapshot V → Bool
  wave_named name o = eligible_output o && o.is_wave && o.node_name == name

  abbrev pub wave_output : OutputSnapshot V → Bool
  wave_output o = eligible_output o && o.is_wave

  abbrev pub name_lt : OutputSnapshot V → OutputSnapshot V → Bool
  name_lt a b = str_lt a.node_name b.node_name

  -- A higher priority comes first, and the lower name of two with the same priority.
  abbrev pub priority_lt : OutputSnapshot V → OutputSnapshot V → Bool
  priority_lt a b =
      if ltb_ℤ b.priority a.priority
      then true
      else (leb_ℤ b.priority a.priority && str_lt a.node_name b.node_name)

  -- `name.and_then(|name| outputs.iter().find(…))`
  abbrev pub find_named :
      (String → OutputSnapshot V → Bool)
      → Option String
      → List (OutputSnapshot V)
      → Option (OutputSnapshot V)
  find_named p none outputs = none
  find_named p (some name) outputs = find? (p name) outputs

  abbrev pub wave_choice : List (OutputSnapshot V) → Option String → Option (OutputSnapshot V)
  wave_choice outputs preferred_wave =
      or_else (find_named wave_named preferred_wave outputs)
        (min_by name_lt (filter wave_output outputs))

  abbrev pub default_choice : List (OutputSnapshot V) → Option String → Option (OutputSnapshot V)
  default_choice outputs default = find_named named default outputs

  abbrev pub priority_choice : List (OutputSnapshot V) → Option (OutputSnapshot V)
  priority_choice outputs = min_by priority_lt (filter eligible_output outputs)

  -- `selected`, when the choice is `auto`
  unfoldable pub automatic :
      List (OutputSnapshot V) → Option String → Option String → Option (OutputSnapshot V)
  automatic outputs default preferred_wave =
      or_else (or_else (wave_choice outputs preferred_wave) (default_choice outputs default))
        (priority_choice outputs)

  abbrev pub decide_explicit : SilentOutput ⊎ Option (OutputSnapshot V) → Reached (OutputDecision V)
  decide_explicit (inr (some o)) = reached (monitor o)
  decide_explicit (inr none) = reached (silent missing_explicit)
  decide_explicit (inl reason) = reached (silent reason)

  abbrev pub decide_selected : SilentOutput ⊎ Option (OutputSnapshot V) → Reached (OutputDecision V)
  decide_selected (inr (some o)) = reached (monitor o)
  decide_selected (inl reason) = reached (silent reason)
  decide_selected (inr none) = unreachable

  unfoldable pub decide_automatic :
      List (OutputSnapshot V) → Option (OutputSnapshot V) → Reached (OutputDecision V)
  decide_automatic outputs none = reached (silent no_eligible_output)
  decide_automatic outputs (some o) = decide_selected (exact outputs o.node_name)

  -- What follows the validation of the choice.
  unfoldable pub decide :
      String → List (OutputSnapshot V) → Option String → Option String → Reached (OutputDecision V)
  decide choice outputs default preferred_wave =
      if choice == "none"
      then reached (silent not_monitored)
      else if not (choice == "auto")
      then decide_explicit (exact outputs choice)
      else decide_automatic outputs (automatic outputs default preferred_wave)

  unfoldable pub resolve_output_with_wave :
      String
      → List (OutputSnapshot V)
      → Option String
      → Option String
      → Result (Reached (OutputDecision V))
  resolve_output_with_wave choice outputs default preferred_wave =
      validate_output_choice choice >> ok (decide choice outputs default preferred_wave)

  unfoldable pub resolve_output :
      String → List (OutputSnapshot V) → Option String → Result (Reached (OutputDecision V))
  resolve_output choice outputs default = resolve_output_with_wave choice outputs default none
