-- ===== src/Routing/Groups.antt =====
-- crates/openwave-core/src/routing.rs: the groups of sources, and switching within one.
pub mod Cyclic
pub mod Switch
pub mod Names
use openwave.Prelude.{
  ℕ, zero, suc, ◌+◌, ◌%◌, String, Bool, true, false, not, ◌&&◌, Option, none, some, List, [], ◌∷◌,
  ◌==◌, ltb, leb, length, get_elem?, string_instance, nat_instance, if◌then◌else◌,
}
use openwave.Prelude.Dict.{Dict, get, insert}
use openwave.Prelude.Text.{str_lt}
use openwave.Model.{Result, ok, err, fail, invalid, ◌>>=◌}
use openwave.Sources.{Source, Sources}
use openwave.Routing.Mutes.{MuteChange, set_source_muted}

pub record GroupSwitch : Type 0 where
  pub source : String
  pub changes : List MuteChange

-- `Iterator::position(|(_, muted)| !muted)`
unfoldable pub first_open : List (String × Bool) → Option ℕ
first_open [] = none
first_open ((id, muted) ∷ rest) =
    let later = first_open rest in
    if not muted then some 0 else elim later [ none ↦ none | some i ↦ some (suc i) ]

unfoldable pub next_index : List (String × Bool) → ℕ
unfolding first_open
next_index members = elim (first_open members) [ none ↦ 0 | some i ↦ (i + 1) % length members ]

-- One more member of a group, in a `BTreeMap` of counts: a list in the order of the keys.
unfoldable pub count_in : String → List (String × ℕ) → List (String × ℕ)
count_in g [] = (g, 1) ∷ []
count_in g ((k, n) ∷ counts) =
    let later = (k, n) ∷ count_in g counts in
    if k == g then (k, n + 1) ∷ counts else if str_lt g k then (g, 1) ∷ (k, n) ∷ counts else later

-- The names that are counted twice or more.
unfoldable pub shared_names : List (String × ℕ) → List String
shared_names [] = []
shared_names ((k, n) ∷ counts) = if leb 2 n then k ∷ shared_names counts else shared_names counts

module _ {F V : Type 0} where
  unfoldable pub count_groups : Sources F V → List (String × ℕ) → List (String × ℕ)
  unfolding count_in
  count_groups [] counts = counts
  count_groups ((id, s) ∷ sources) counts =
      count_groups sources (if s.group == "" then counts else count_in s.group counts)

  unfoldable pub source_groups : Sources F V → List String
  unfolding count_groups shared_names
  source_groups sources = shared_names (count_groups sources [])

  unfoldable pub members : String → Sources F V → List (String × Bool)
  members g [] = []
  members g ((id, s) ∷ sources) =
      if s.group == g then (id, s.muted) ∷ members g sources else members g sources

  -- The edited sources come with the switch; `ok none` leaves them as they are. In the source
  -- an index out of range is a panic.
  unfoldable pub switch_to :
      Sources F V → Option (String × Bool) → Result (Option (Sources F V × GroupSwitch))
  switch_to sources none = ok none
  switch_to sources (some (id, muted)) = do
    (after, changes) ← set_source_muted sources id false
    ok (some (after, record { source = id; changes = changes }))

  unfoldable pub switch_group : Sources F V → String → Result (Option (Sources F V × GroupSwitch))
  unfolding members next_index switch_to
  switch_group sources group =
      let found = members group sources in
      if group == ""
      then ok none
      else if ltb (length found) 2
      then ok none
      else switch_to sources (get_elem? found (next_index found))
