-- ===== src/Health/Watch/Report.antt =====
-- What one check of the graph reports and leaves behind.
use openwave.Prelude.{
  ℕ, ◌≤◌, String, Bool, true, false, ◌||◌, none, ◌≡◌, refl, ◌∙◌, List, [], ◌∷◌, arith, ◌==◌,
  string_instance, str_eq_iff,
}
use openwave.Prelude.Dict.{Dict, insert, contains, keys}
use openwave.Model.{Observation, known, unknown}
use openwave.Health.Stall
use openwave.Health.Stall.Budget.{spent-pause}
use openwave.Health.Capture
use openwave.Health.Capture.{CaptureWatch, CaptureSample, CaptureDecision}
use openwave.Health.Capture.Frame.{spent-observe}
use openwave.Health.Sink
use openwave.Health.Sink.{SinkStallWatch, SinkSample}
use openwave.Health.Sink.Budget.{spent-pause as sink-pause, spent-observe as sink-observe}
use openwave.Health.Watch.{
  HealthWatch, SinkDecision, observe_sink, HealthSamples, observe, pause_captures, pause_sinks,
  omitted, observe_captures, observe_sinks,
}

pub spent-pause_captures :
    (names : List String) (w : CaptureWatch) (n : String)
    → Stall.spent (pause_captures names w).budget n ≡ Stall.spent w.budget n
unfolding pause_captures Capture.pause
spent-pause_captures [] w n = refl
spent-pause_captures (name ∷ names) w n =
    spent-pause_captures names (Capture.pause w name) n ∙ spent-pause w.budget name n

spent-pause_sinks :
    (names : List String) (w : SinkStallWatch) (n : String)
    → Sink.spent (pause_sinks names w) n ≡ Sink.spent w n
unfolding pause_sinks
spent-pause_sinks [] w n = refl
spent-pause_sinks (name ∷ names) w n =
    spent-pause_sinks names (Sink.pause w name) n ∙ sink-pause w name n

spent-observe_captures :
    (now : ℕ) (samples : Dict String (Observation CaptureSample)) (w : CaptureWatch)
    (r : Dict String CaptureDecision) (n : String)
    → Stall.spent (observe_captures now samples (w, r)).0.budget n ≤ Stall.spent w.budget n
unfolding observe_captures
spent-observe_captures now [] w r n = omega arith
spent-observe_captures now ((name, o) ∷ samples) w r n =
    let (w', d) = Capture.observe w name o now in
    omega (
      arith,
      spent-observe_captures now samples w' (insert name d r) n,
      spent-observe w name n o now,
    )

spent-observe_sinks :
    (now : ℕ) (samples : Dict String (Observation SinkSample)) (w : SinkStallWatch)
    (r : Dict String SinkDecision) (n : String)
    → Sink.spent (observe_sinks now samples (w, r)).0 n ≤ Sink.spent w n
unfolding observe_sinks
spent-observe_sinks now [] w r n = omega arith
spent-observe_sinks now ((name, o) ∷ samples) w r n =
    let (w', d) = observe_sink now w name o in
    omega (arith, spent-observe_sinks now samples w' (insert name d r) n, sink-observe w name n o)

-- No check spends: every budget of every capture and every sink is kept or given back.
pub check_never_spends :
    (w : HealthWatch) (o : Observation HealthSamples) (now : ℕ) (n : String)
    → let w' = (observe w o now).0 in
      (Stall.spent w'.capture.budget n ≤ Stall.spent w.capture.budget n)
      × (Sink.spent w'.sink n ≤ Sink.spent w.sink n)
unfolding observe
check_never_spends w (unknown e) now n = (
  omega (arith, spent-pause_captures w.captures w.capture n),
  omega (arith, spent-pause_sinks w.sinks w.sink n),
)
check_never_spends w (known s) now n =
    let captures = omitted w.captures (keys s.captures) in
    let sinks = omitted w.sinks (keys s.sinks) in
    (
      omega (
        arith,
        spent-pause_captures captures w.capture n,
        spent-observe_captures now s.captures (pause_captures captures w.capture) [] n,
      ),
      omega (
        arith,
        spent-pause_sinks sinks w.sink n,
        spent-observe_sinks now s.sinks (pause_sinks sinks w.sink) [] n,
      ),
    )

contains-keys-insert :
    {V : Type 0} (j k : String) (v : V) (m : Dict String V)
    → contains j (keys (insert k v m)) ≡ (k == j || contains j (keys m))
unfolding insert contains
contains-keys-insert j k v [] = refl
contains-keys-insert j k v ((i, u) ∷ m) =
    ground (arith, str_eq_iff k j, str_eq_iff i k, str_eq_iff i j, contains-keys-insert j k v m)

reported_captures :
    (now : ℕ) (samples : Dict String (Observation CaptureSample)) (w : CaptureWatch)
    (r : Dict String CaptureDecision) (n : String)
    → contains n (keys (observe_captures now samples (w, r)).1)
      ≡ (contains n (keys samples) || contains n (keys r))
unfolding observe_captures contains
reported_captures now [] w r n = refl
reported_captures now ((name, o) ∷ samples) w r n =
    let (w', d) = Capture.observe w name o now in
    ground
      (arith, reported_captures now samples w' (insert name d r) n, contains-keys-insert n name d r)

reported_sinks :
    (now : ℕ) (samples : Dict String (Observation SinkSample)) (w : SinkStallWatch)
    (r : Dict String SinkDecision) (n : String)
    → contains n (keys (observe_sinks now samples (w, r)).1)
      ≡ (contains n (keys samples) || contains n (keys r))
unfolding observe_sinks contains
reported_sinks now [] w r n = refl
reported_sinks now ((name, o) ∷ samples) w r n =
    let (w', d) = observe_sink now w name o in
    ground
      (arith, reported_sinks now samples w' (insert name d r) n, contains-keys-insert n name d r)

or_false : (b : Bool) → (b || false) ≡ b
or_false true = refl
or_false false = refl

-- A known graph is reported in full: exactly the sampled captures and sinks have a decision, they
-- are the ones tracked from then on, and there is no error.
pub report_covers :
    (w : HealthWatch) (s : HealthSamples) (now : ℕ) (n : String)
    → let (w', r) = observe w (known s) now in
      (contains n (keys r.captures) ≡ contains n (keys s.captures))
      × (contains n (keys r.sinks) ≡ contains n (keys s.sinks))
      × (w'.captures ≡ keys s.captures)
      × (w'.sinks ≡ keys s.sinks)
      × (r.error ≡ none)
unfolding observe
report_covers w s now n = (
  reported_captures now s.captures _ [] n
      ∙ unfold contains in or_false (contains n (keys s.captures)),
  reported_sinks now s.sinks _ [] n ∙ unfold contains in or_false (contains n (keys s.sinks)),
  refl,
  refl,
  refl,
)
