-- ===== src/Health/Watch.antt =====
-- crates/openwave-core/src/health.rs: `HealthWatch`, one check of the whole graph.
pub mod Report
pub mod Quiet
use openwave.Prelude.{
  ℕ, String, Bool, true, false, not, Option, none, some, List, [], ◌∷◌, if◌then◌else◌,
  string_instance,
}
use openwave.Prelude.Dict.{Dict, get, insert, contains, keys}
use openwave.Model.{Observation, known, unknown, OperationError}
use openwave.Health.Capture
use openwave.Health.Capture.{CaptureWatch, CaptureSample, CaptureDecision}
use openwave.Health.Sink
use openwave.Health.Sink.{SinkStallWatch, SinkSample}

pub record HealthSamples : Type 0 where
  pub captures : Dict String (Observation CaptureSample)
  pub sinks : Dict String (Observation SinkSample)

pub record SinkDecision : Type 0 where
  pub stalled : Bool
  pub just_stalled : Bool
  pub recovery_due : Bool

pub record HealthReport : Type 0 where
  pub captures : Dict String CaptureDecision
  pub sinks : Dict String SinkDecision
  pub error : Option OperationError

pub record HealthWatch : Type 0 where
  pub capture : CaptureWatch
  pub sink : SinkStallWatch
  pub captures : List String
  pub sinks : List String

-- `HealthWatch::default`
unfoldable pub default : HealthWatch
default = record { capture = Capture.default; sink = Sink.default; captures = []; sinks = [] }

unfoldable pub pause_captures : List String → CaptureWatch → CaptureWatch
pause_captures [] w = w
pause_captures (name ∷ names) w = pause_captures names (Capture.pause w name)

unfoldable pub pause_sinks : List String → SinkStallWatch → SinkStallWatch
pause_sinks [] w = w
pause_sinks (name ∷ names) w = pause_sinks names (Sink.pause w name)

-- The names of a tracked set that the samples omit.
unfoldable pub omitted : List String → List String → List String
omitted [] present = []
omitted (name ∷ names) present =
    if contains name present then omitted names present else name ∷ omitted names present

unfoldable pub observe_captures :
    ℕ
    → Dict String (Observation CaptureSample)
    → CaptureWatch × Dict String CaptureDecision
    → CaptureWatch × Dict String CaptureDecision
observe_captures now [] acc = acc
observe_captures now ((name, sample) ∷ samples) (w, report) =
    let (w', decision) = Capture.observe w name sample now in
    observe_captures now samples (w', insert name decision report)

abbrev observe_sink :
    ℕ → SinkStallWatch → String → Observation SinkSample → SinkStallWatch × SinkDecision
observe_sink now w name sample =
    let (w', stalled) = Sink.observe w name sample in
    (
      w',
      record {
        stalled = stalled;
        just_stalled = Sink.just_stalled w' name;
        recovery_due = Sink.should_recover w' name now;
      },
    )

unfoldable pub observe_sinks :
    ℕ
    → Dict String (Observation SinkSample)
    → SinkStallWatch × Dict String SinkDecision
    → SinkStallWatch × Dict String SinkDecision
observe_sinks now [] acc = acc
observe_sinks now ((name, sample) ∷ samples) (w, report) =
    let (w', decision) = observe_sink now w name sample in
    observe_sinks now samples (w', insert name decision report)

unfoldable pub observe : HealthWatch → Observation HealthSamples → ℕ → HealthWatch × HealthReport
unfolding pause_captures pause_sinks omitted observe_captures observe_sinks
observe w (unknown e) now = (
  record w { capture = pause_captures w.captures w.capture; sink = pause_sinks w.sinks w.sink },
  record { captures = []; sinks = []; error = some e },
)
observe w (known samples) now =
    let captures = keys samples.captures in
    let sinks = keys samples.sinks in
    let paused = pause_captures (omitted w.captures captures) w.capture in
    let still = pause_sinks (omitted w.sinks sinks) w.sink in
    let (capture, decisions) = observe_captures now samples.captures (paused, []) in
    let (sink, sink_decisions) = observe_sinks now samples.sinks (still, []) in
    (
      record { capture = capture; sink = sink; captures = captures; sinks = sinks },
      record { captures = decisions; sinks = sink_decisions; error = none },
    )
