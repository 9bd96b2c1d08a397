-- ===== src/Health/Glitch.antt =====
-- crates/openwave-core/src/health.rs: `GlitchWatch`, the xrun counters of each capture.
pub mod Streaks
use openwave.Prelude.{
  ℕ, suc, ◌+◌, ◌-◌, ◌≤◌, ◌<◌, min, max, String, Bool, true, false, ◌&&◌, Option, none, some, ◌≡◌,
  refl, ◌≢◌, ◌⊎◌, inl, inr, List, [], ◌∷◌, arith, Eq, ◌==◌, leb, if◌then◌else◌, string_instance,
  nat_instance,
}
use openwave.Prelude.Dict.{Dict, get, insert, remove, get-insert, get-remove}
use openwave.Prelude.Word.{saturating_suc}
use openwave.Model.{NodeIdentity, identity_instance}

abbrev pub glitch_xruns_per_check : ℕ
glitch_xruns_per_check = 50

abbrev pub glitch_confirm_checks : ℕ
glitch_confirm_checks = 2

pub record GlitchState : Type 0 where
  pub identity : NodeIdentity
  pub previous : ℕ  -- u64
  pub streak : ℕ  -- u32
  pub delta : Option ℕ  -- u64

pub record GlitchWatch : Type 0 where
  pub threshold : ℕ
  pub confirm : ℕ
  pub states : Dict String GlitchState

unfoldable pub new : ℕ → ℕ → GlitchWatch
new threshold confirm = record { threshold = threshold; confirm = max confirm 1; states = [] }

-- `GlitchWatch::default`
unfoldable pub default : GlitchWatch
unfolding new
default = new glitch_xruns_per_check glitch_confirm_checks

unfoldable pub pause : GlitchWatch → String → GlitchWatch
pause w name = record w { states = remove name w.states }

-- The state that `observe` stores for a known name, and whether the check was over the threshold.
abbrev step : ℕ → GlitchState → ℕ → GlitchState × Bool
step threshold s xruns =
    let delta = xruns - s.previous in
    let over = leb threshold delta in
    (
      record s {
        previous = xruns;
        delta = some delta;
        streak = if over then saturating_suc s.streak else 0;
      },
      over,
    )

-- The state of a first observation, or of one after the generation or the counter started anew.
abbrev baseline : NodeIdentity → ℕ → GlitchState
baseline identity xruns = record { identity = identity; previous = xruns; streak = 0; delta = none }

-- The entry after an observation.
unfoldable pub observed : ℕ → Option GlitchState → NodeIdentity → ℕ → GlitchState × Bool
observed threshold none identity xruns = (baseline identity xruns, false)
observed threshold (some s) identity xruns =
    if (s.identity == identity) && leb s.previous xruns
    then step threshold s xruns
    else (baseline identity xruns, false)

unfoldable pub observe : GlitchWatch → String → NodeIdentity → ℕ → GlitchWatch × Bool
unfolding observed
observe w name identity xruns =
    let (s, over) = observed w.threshold (get name w.states) identity xruns in
    (record w { states = insert name s w.states }, over)

abbrev streak_at_least : ℕ → Option GlitchState → Bool
streak_at_least n none = false
streak_at_least n (some s) = leb n s.streak

abbrev streak_is : ℕ → Option GlitchState → Bool
streak_is n none = false
streak_is n (some s) = s.streak == n

unfoldable pub glitching : GlitchWatch → String → Bool
glitching w name = streak_at_least w.confirm (get name w.states)

unfoldable pub just_confirmed : GlitchWatch → String → Bool
just_confirmed w name = streak_is w.confirm (get name w.states)

abbrev delta_of : Option GlitchState → Option ℕ
delta_of none = none
delta_of (some s) = s.delta

unfoldable pub last_delta : GlitchWatch → String → Option ℕ
last_delta w name = delta_of (get name w.states)
