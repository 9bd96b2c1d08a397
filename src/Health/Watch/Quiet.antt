-- ===== src/Health/Watch/Quiet.antt =====
-- What a check leaves of a capture that it could not see.
use openwave.Prelude.{
  ℕ, String, true, false, Option, none, some, ◌≡◌, refl, ap, ◌∙◌, List, [], ◌∷◌, arith, ◌==◌,
  string_instance, Bool-cases, inl, inr, beq_refl, str_eq_iff,
}
use mathlib.Core.Option
use openwave.Prelude.Dict.{Dict, get, insert, contains, keys, get-remove, contains-discard}
use openwave.Model.{NodeIdentity, Observation, known, unknown, OperationError}
use openwave.Health.Glitch
use openwave.Health.Stall
use openwave.Health.Stall.{CaptureIncident, end_clean}
use openwave.Health.Stall.Budget.{get-pause, name_eq}
use openwave.Health.Capture
use openwave.Health.Capture.{CaptureWatch, CaptureSample, CaptureDecision}
use openwave.Health.Capture.Frame.{AgreeAt, AgreeAt-trans, observe-AgreeAt, pause-AgreeAt}
use openwave.Health.Watch.{
  HealthWatch, HealthSamples, observe, pause_captures, omitted, observe_captures,
}
use openwave.Health.Watch.Report.{spent-pause_captures}

abbrev clean_of : Option CaptureIncident → Option (NodeIdentity × ℕ)
clean_of none = none
clean_of (some s) = s.clean

-- No glitch history, no clean interval and no mark is left at a name.
pub record IsQuiet (name : String) (w : CaptureWatch) : Type 0 where
  pub glitch : get name w.glitch.states ≡ none
  pub clean : clean_of (get name w.budget.incidents) ≡ none
  pub mark : contains name w.no_data ≡ false

AgreeAt-IsQuiet : (n : String) (v w : CaptureWatch) → AgreeAt n v w → IsQuiet n w → IsQuiet n v
AgreeAt-IsQuiet n v w a q = record {
  glitch = a.glitch ∙ q.glitch;
  clean = ap clean_of a.budget ∙ q.clean;
  mark = a.mark ∙ q.mark;
}

clean-end_clean : (o : Option CaptureIncident) → clean_of (Option.map end_clean o) ≡ none
clean-end_clean none = refl
clean-end_clean (some s) = refl

pause-IsQuiet_self : (w : CaptureWatch) (n : String) → IsQuiet n (Capture.pause w n)
unfolding Capture.pause Glitch.pause
pause-IsQuiet_self w n = record {
  glitch = get-remove n n w.glitch.states ∙ rw (beq_refl n);
  clean =
      ap clean_of (get-pause w.budget n n)
      ∙ rw (beq_refl n) (clean-end_clean (get n w.budget.incidents));
  mark = contains-discard n n w.no_data ∙ rw (beq_refl n);
}

pause-IsQuiet :
    (w : CaptureWatch) (name n : String) → IsQuiet n w → IsQuiet n (Capture.pause w name)
pause-IsQuiet w name n q = elim (Bool-cases (name == n)) [
  | inl same ↦ rw (name_eq name n same) (pause-IsQuiet_self w n)
  | inr apart ↦ AgreeAt-IsQuiet n (Capture.pause w name) w (pause-AgreeAt name n apart w) q
]

pause_captures-IsQuiet :
    (names : List String) (w : CaptureWatch) (n : String)
    → IsQuiet n w
    → IsQuiet n (pause_captures names w)
unfolding pause_captures
pause_captures-IsQuiet [] w n q = q
pause_captures-IsQuiet (name ∷ names) w n q =
    pause_captures-IsQuiet names (Capture.pause w name) n (pause-IsQuiet w name n q)

paused-IsQuiet :
    (names : List String) (w : CaptureWatch) (n : String)
    → contains n names ≡ true
    → IsQuiet n (pause_captures names w)
unfolding pause_captures contains
paused-IsQuiet [] w n h = cc
paused-IsQuiet (name ∷ names) w n h = elim (Bool-cases (name == n)) [
  | inl same ↦
      pause_captures-IsQuiet names (Capture.pause w name) n
        (rw (name_eq name n same) (pause-IsQuiet_self w n))
  | inr apart ↦ paused-IsQuiet names (Capture.pause w name) n (rw apart at h)
]

contains-omitted :
    (names present : List String) (n : String)
    → contains n present ≡ false
    → contains n names ≡ true
    → contains n (omitted names present) ≡ true
unfolding omitted contains
contains-omitted [] present n out h = h
contains-omitted (name ∷ names) present n out h =
    ground (arith, str_eq_iff name n, contains-omitted names present n out)

observe_captures-AgreeAt :
    (now : ℕ) (samples : Dict String (Observation CaptureSample)) (w : CaptureWatch)
    (r : Dict String CaptureDecision) (n : String)
    → contains n (keys samples) ≡ false
    → AgreeAt n (observe_captures now samples (w, r)).0 w
unfolding observe_captures contains
observe_captures-AgreeAt now [] w r n out = record { glitch = refl; budget = refl; mark = refl }
observe_captures-AgreeAt now ((name, o) ∷ samples) w r n out =
    let (w', d) = Capture.observe w name o now in
    AgreeAt-trans n _ w' w
      (observe_captures-AgreeAt now samples w' (insert name d r) n (ground arith))
      (observe-AgreeAt name n (ground arith) w o now)

-- A collector failure reports its error and no decision, and pauses every tracked capture; it
-- keeps the tracked names, and what each capture has spent.
pub unknown_ends_intervals :
    (w : HealthWatch) (e : OperationError) (now : ℕ) (n : String)
    → contains n w.captures ≡ true
    → let (w', r) = observe w (unknown e) now in
      IsQuiet n w'.capture
      × (Stall.spent w'.capture.budget n ≡ Stall.spent w.capture.budget n)
      × (w'.captures ≡ w.captures)
      × (r.captures ≡ [])
      × (r.sinks ≡ [])
      × (r.error ≡ some e)
unfolding observe
unknown_ends_intervals w e now n h = (
  paused-IsQuiet w.captures w.capture n h,
  spent-pause_captures w.captures w.capture n,
  refl,
  refl,
  refl,
  refl,
)

-- A tracked capture that a known graph omits is paused, whatever the other samples say: its clean
-- interval, its glitch history and its mark are gone, and what it has spent stays.
pub omitted_ends_interval :
    (w : HealthWatch) (s : HealthSamples) (now : ℕ) (n : String)
    → contains n w.captures ≡ true
    → contains n (keys s.captures) ≡ false
    → let w' = (observe w (known s) now).0 in
      IsQuiet n w'.capture × (Stall.spent w'.capture.budget n ≡ Stall.spent w.capture.budget n)
unfolding observe
omitted_ends_interval w s now n h out =
    let names = omitted w.captures (keys s.captures) in
    let paused = pause_captures names w.capture in
    let agrees = observe_captures-AgreeAt now s.captures paused [] n out in
    (
      AgreeAt-IsQuiet n _ paused agrees (
          paused-IsQuiet names w.capture n (contains-omitted w.captures (keys s.captures) n out h)),
      unfold Stall.spent in
          (ap Stall.attempts_of agrees.budget ∙ spent-pause_captures names w.capture n),
    )
