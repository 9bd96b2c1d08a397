-- ===== src/Health/Capture.antt =====
-- crates/openwave-core/src/health.rs: `CaptureWatch`, both watches over one capture.
pub mod Decision
pub mod Frame
use openwave.Prelude.{
  ℕ, String, Bool, true, false, ◌&&◌, ◌||◌, Option, none, some, List, [], leb, ltb, if◌then◌else◌,
  string_instance,
}
use openwave.Prelude.Dict.{contains, add, discard}
use openwave.Model.{NodeIdentity, Observation, known, unknown, known?}
use openwave.Health.Glitch
use openwave.Health.Glitch.{GlitchWatch}
use openwave.Health.Stall
use openwave.Health.Stall.{StallWatch}
use openwave.Health.Sink.{known_unmuted}

pub record CaptureSample : Type 0 where
  pub identity : NodeIdentity
  pub running : Bool
  pub muted : Observation Bool
  pub xruns : Observation ℕ
  pub byte_age : Observation ℕ

pub record CaptureDecision : Type 0 where
  pub no_data : Bool
  pub just_no_data : Bool
  pub glitching : Bool
  pub just_glitching : Bool
  pub healthy : Bool
  pub recovery_due : Bool

-- `CaptureDecision::default`
abbrev pub no_decision : CaptureDecision
no_decision = record {
  no_data = false;
  just_no_data = false;
  glitching = false;
  just_glitching = false;
  healthy = false;
  recovery_due = false;
}

pub record CaptureWatch : Type 0 where
  pub glitch : GlitchWatch
  pub budget : StallWatch
  pub no_data : List String

-- `CaptureWatch::default`
unfoldable pub default : CaptureWatch
default = record { glitch = Glitch.default; budget = Stall.default; no_data = [] }

unfoldable pub pause : CaptureWatch → String → CaptureWatch
pause w name = record {
  glitch = Glitch.pause w.glitch name;
  budget = Stall.pause w.budget name;
  no_data = discard name w.no_data;
}

-- The guard of `observe`.
unfoldable pub usable : Observation CaptureSample → Option CaptureSample
usable (unknown e) = none
usable (known s) = if s.running && known_unmuted s.muted then some s else none

abbrev age_at_least : ℕ → Observation ℕ → Bool
age_at_least limit (known age) = leb limit age
age_at_least limit (unknown e) = false

abbrev age_below : ℕ → Observation ℕ → Bool
age_below limit (known age) = ltb age limit
age_below limit (unknown e) = false

abbrev delta_below : ℕ → Option ℕ → Bool
delta_below limit none = false
delta_below limit (some d) = ltb d limit

unfoldable pub count_xruns : GlitchWatch → String → NodeIdentity → Observation ℕ → GlitchWatch
count_xruns g name i (known count) = (Glitch.observe g name i count).0
count_xruns g name i (unknown e) = Glitch.pause g name

abbrev mark_no_data : Bool → String → List String → List String × Bool
mark_no_data true name set = add name set
mark_no_data false name set = (discard name set, false)

unfoldable pub is_healthy : GlitchWatch → StallWatch → String → CaptureSample → Bool
is_healthy g b name s =
    delta_below g.threshold (Glitch.last_delta g name) && age_below b.stall_seconds s.byte_age

-- `observe` past its guard.
unfoldable pub observe_usable :
    CaptureWatch → String → CaptureSample → ℕ → CaptureWatch × CaptureDecision
unfolding count_xruns is_healthy
observe_usable w name s now =
    let g = count_xruns w.glitch name s.identity s.xruns in
    let no_data = age_at_least w.budget.stall_seconds s.byte_age in
    let (set, just_no_data) = mark_no_data no_data name w.no_data in
    let healthy = is_healthy g w.budget name s in
    let b =
      if healthy
      then Stall.record_recovered w.budget name s.identity now
      else Stall.pause w.budget name in
    let glitching = Glitch.glitching g name in
    (
      record { glitch = g; budget = b; no_data = set },
      record {
        no_data = no_data;
        just_no_data = just_no_data;
        glitching = glitching;
        just_glitching = Glitch.just_confirmed g name;
        healthy = healthy;
        recovery_due = (no_data || glitching) && Stall.can_recover b name now;
      },
    )

unfoldable pub observe :
    CaptureWatch → String → Observation CaptureSample → ℕ → CaptureWatch × CaptureDecision
unfolding pause observe_usable usable
observe w name sample now = elim (usable sample) [
  | none ↦ (pause w name, no_decision)
  | some s ↦ observe_usable w name s now
]

unfoldable pub record_attempt : CaptureWatch → String → ℕ → CaptureWatch
record_attempt w name now = record w {
  budget = Stall.record_attempt w.budget name now;
  glitch = Glitch.pause w.glitch name;
}
