-- ===== src/Health/Capture/Decision.antt =====
-- What `CaptureWatch::observe` decides.
use openwave.Prelude.{
  ℕ, ◌≤◌, ◌<◌, String, Bool, true, false, not, ◌&&◌, Option, none, some, ◌≡◌, refl, ◌∙◌, arith,
  ◌==◌, if◌then◌else◌, string_instance, ◌⊎◌,
}
use openwave.Prelude.Dict.{get, contains, add, contains-add, contains-discard}
use openwave.Model.{NodeIdentity, identity_instance, Observation, known, unknown}
use openwave.Health.Glitch
use openwave.Health.Glitch.{GlitchWatch, GlitchState}
use openwave.Health.Glitch.Streaks.{get-observe, get-pause}
use openwave.Health.Stall
use openwave.Health.Stall.{StallWatch}
use openwave.Health.Capture.{
  CaptureSample, CaptureWatch, observe_usable, count_xruns, is_healthy, age_at_least, age_below,
  delta_below, mark_no_data,
}

-- A count below the threshold leaves no streak.
observed-calm :
    (t : ℕ) (o : Option GlitchState) (i : NodeIdentity) (x : ℕ)
    → delta_below t (Glitch.observed t o i x).0.delta ≡ true
    → (Glitch.observed t o i x).0.streak ≡ 0
unfolding Glitch.observed
observed-calm t none i x h = cc
observed-calm t (some s) i x h = ground arith

calm-not-glitching :
    (g : GlitchWatch) (name : String) (i : NodeIdentity) (o : Observation ℕ)
    → 1 ≤ g.confirm
    → delta_below g.threshold (Glitch.last_delta (count_xruns g name i o) name) ≡ true
    → Glitch.glitching (count_xruns g name i o) name ≡ false
unfolding count_xruns
calm-not-glitching g name i (known x) pos h =
    unfold Glitch.glitching Glitch.last_delta Glitch.observe in
    ground (arith, get-observe g name i x, observed-calm g.threshold (get name g.states) i x)
calm-not-glitching g name i (unknown e) pos h =
    unfold Glitch.glitching Glitch.pause in ground (arith, get-pause g name)

threshold-count_xruns :
    (g : GlitchWatch) (name : String) (i : NodeIdentity) (o : Observation ℕ)
    → (count_xruns g name i o).threshold ≡ g.threshold
unfolding count_xruns Glitch.observe Glitch.pause
threshold-count_xruns g name i (known x) = refl
threshold-count_xruns g name i (unknown e) = refl

ages_exclude :
    (limit : ℕ) (o : Observation ℕ) → age_below limit o ≡ true → age_at_least limit o ≡ false
ages_exclude limit (known age) h = ground arith
ages_exclude limit (unknown e) h = refl

-- On a usable sample, with `confirm` at least 1 as `new` makes it: a healthy capture is neither
-- without data nor glitching, and no recovery is due.
pub healthy_excludes :
    (w : CaptureWatch) (name : String) (s : CaptureSample) (now : ℕ)
    → 1 ≤ w.glitch.confirm
    → (observe_usable w name s now).1.healthy ≡ true
    → let d = (observe_usable w name s now).1 in
      (d.no_data ≡ false) × (d.glitching ≡ false) × (d.recovery_due ≡ false)
unfolding observe_usable is_healthy
healthy_excludes w name s now pos h = ground (
  arith,
  ages_exclude w.budget.stall_seconds s.byte_age,
  threshold-count_xruns w.glitch name s.identity s.xruns,
  calm-not-glitching w.glitch name s.identity s.xruns pos,
)

max_attempts-after :
    (b : StallWatch) (healthy : Bool) (name : String) (i : NodeIdentity) (now : ℕ)
    → (if healthy then Stall.record_recovered b name i now else Stall.pause b name).max_attempts
      ≡ b.max_attempts
unfolding Stall.record_recovered Stall.pause
max_attempts-after b true name i now = refl
max_attempts-after b false name i now = refl

can_recover-spent :
    (b : StallWatch) (name : String) (now : ℕ)
    → Stall.can_recover b name now ≡ true
    → Stall.spent b name < b.max_attempts
unfolding Stall.can_recover
can_recover-spent b name now h = ground arith

-- A recovery is due only where the capture has no data or is glitching, and then only below the
-- attempt limit.
pub recovery_due_needs :
    (w : CaptureWatch) (name : String) (s : CaptureSample) (now : ℕ)
    → (observe_usable w name s now).1.recovery_due ≡ true
    → let (w', d) = observe_usable w name s now in
      ((d.no_data ≡ true) ⊎ (d.glitching ≡ true))
      × (Stall.spent w'.budget name < w.budget.max_attempts)
unfolding observe_usable
recovery_due_needs w name s now h =
    let g = count_xruns w.glitch name s.identity s.xruns in
    let healthy = is_healthy g w.budget name s in
    let b =
      if healthy
      then Stall.record_recovered w.budget name s.identity now
      else Stall.pause w.budget name in
    ground
      (arith, max_attempts-after w.budget healthy name s.identity now, can_recover-spent b name now)

-- `just_no_data` marks the first check without data: it holds exactly when there is no data and
-- the name was not marked before, and the mark stands afterwards exactly when there is no data.
-- The marks of the other names stay.
pub no_data_edge :
    (w : CaptureWatch) (name other : String) (s : CaptureSample) (now : ℕ)
    → let (w', d) = observe_usable w name s now in
      (d.just_no_data ≡ (d.no_data && not (contains name w.no_data)))
      × (contains other w'.no_data
          ≡ (if name == other then d.no_data else contains other w.no_data))
unfolding observe_usable
no_data_edge w name other s now = marked (age_at_least w.budget.stall_seconds s.byte_age)
  where
    marked :
        (b : Bool)
        → let (set, just) = mark_no_data b name w.no_data in
          (just ≡ (b && not (contains name w.no_data)))
          × (contains other set ≡ (if name == other then b else contains other w.no_data))
    marked true = (unfold add in ground arith, contains-add other name w.no_data ∙ ground arith)
    marked false = (refl, contains-discard other name w.no_data)
