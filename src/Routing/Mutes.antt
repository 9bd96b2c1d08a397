-- ===== src/Routing/Mutes.antt =====
-- crates/openwave-core/src/routing.rs: `set_source_muted` and its changes.
pub mod Exclusive
pub mod Replay
use openwave.Prelude.{
  String, Bool, true, false, not, ◌&&◌, Option, none, some, List, [], ◌∷◌, ◌++◌, ◌==◌,
  string_instance, bool_instance, if◌then◌else◌,
}
use openwave.Prelude.Dict.{Dict, get, modify}
use openwave.Model.{Result, ok, err, fail, invalid, ◌>>=◌, ok_or}
use openwave.Sources.{Source, Sources}

pub record MuteChange : Type 0 where
  pub source : String
  pub muted : Bool

module _ {F V : Type 0} where
  -- The rows that the loop mutes.
  abbrev pub is_open_peer : String → String → String → Source F V → Bool
  is_open_peer target group id s = not (id == target) && s.group == group && not s.muted

  abbrev pub mute : Source F V → Source F V
  mute s = record s { muted = true }

  -- `for (id, source) in sources.iter_mut()`
  unfoldable pub mute_peers : String → String → Sources F V → Sources F V × List MuteChange
  mute_peers target group [] = ([], [])
  mute_peers target group ((id, s) ∷ sources) =
      let (rest, changes) = mute_peers target group sources in
      if is_open_peer target group id s
      then ((id, mute s) ∷ rest, record { source = id; muted = true } ∷ changes)
      else ((id, s) ∷ rest, changes)

  abbrev pub set_muted : Bool → Source F V → Source F V
  set_muted muted s = record s { muted = muted }

  -- `sources.get_mut(target)`, known to be there.
  abbrev pub own_change : Bool → String → Option (Source F V) → List MuteChange
  own_change muted target none = []
  own_change muted target (some s) =
      if s.muted == muted then [] else record { source = target; muted = muted } ∷ []

  -- The candidate and the changes, in order; on an error the candidate is as it was.
  unfoldable pub set_source_muted :
      Sources F V → String → Bool → Result (Sources F V × List MuteChange)
  unfolding mute_peers
  set_source_muted sources target muted = do
    source ← ok_or (get target sources) invalid "Unknown source"
    let (silenced, changes) =
        if not muted && not (source.group == "")
        then mute_peers target source.group sources
        else (sources, [])
    ok (
      modify target (set_muted muted) silenced,
      changes ++ own_change muted target (get target silenced),
    )
