-- ===== src/Health/Examples.antt =====
-- Concrete histories of the watches in crates/openwave-core/src/health.rs.
use openwave.Prelude.{
  ℕ, ◌+◌, ◌≤◌, true, false, none, some, ◌≡◌, refl, List, [], ◌∷◌, ◌⊎◌, arith, string_instance,
  nat_instance,
}
use openwave.Prelude.Dict.{get, insert, keys, contains}
use openwave.Model.{
  NodeIdentity, identity_instance, OperationError, io, Observation, known, unknown,
}
use openwave.Health.Glitch
use openwave.Health.Glitch.Streaks
use openwave.Health.Stall
use openwave.Health.Stall.Budget as StallBudget
use openwave.Health.Stall.Cooldown
use openwave.Health.Stall.Refund
use openwave.Health.Sink
use openwave.Health.Sink.History
use openwave.Health.Sink.Budget as SinkBudget
use openwave.Health.Capture
use openwave.Health.Watch
use openwave.Health.Watch.Report
use openwave.Health.Watch.Quiet

abbrev first : NodeIdentity
first = record { server_cookie = 7; object_serial = "41" }

abbrev failure : OperationError
failure = record { code = io; message = "pw-dump failed" }

-- Two checks of 60 and 50 xruns after a baseline, newest first.
abbrev noisy : List (NodeIdentity × ℕ)
noisy = (first, 120) ∷ (first, 70) ∷ (first, 10) ∷ []

glitch_reads_example :
    (Glitch.glitching (Streaks.after Glitch.default "wave" noisy) "wave" ≡ true)
    × (Glitch.just_confirmed (Streaks.after Glitch.default "wave" noisy) "wave" ≡ true)
    × (Glitch.last_delta (Streaks.after Glitch.default "wave" noisy) "wave" ≡ some 50)
unfolding Glitch.default Glitch.new
glitch_reads_example = Streaks.glitch_reads Glitch.default "wave" noisy (omega arith) (omega arith)

abbrev stall_new : Stall.StallWatch
stall_new = Stall.new 8 60 2 300

Reach-within_budget_example : Stall.spent (Stall.record_attempt stall_new "wave" 5) "wave" ≤ 2
unfolding Stall.new Stall.record_attempt Stall.can_recover Stall.spent get insert
Reach-within_budget_example =
    StallBudget.Reach-within_budget 8 60 2 300 "wave"
      (StallBudget.next StallBudget.here (StallBudget.attempted "wave" 5 refl))

attempts_spaced_example :
    (5 + 60 ≤ 70) ⊎ (Stall.spent (Stall.record_attempt stall_new "wave" 5) "wave" ≡ 0)
unfolding Stall.new Stall.record_attempt Stall.can_recover Stall.spent get insert
attempts_spaced_example = Cooldown.attempts_spaced stall_new "wave" 5 70 Cooldown.here refl

-- An attempt, and then healthy checks that span the whole refill.
abbrev calm : List Refund.Check
calm = Refund.healthy first 200 ∷ Refund.healthy first 20 ∷ Refund.attempt 5 ∷ []

refund_iff_example :
    Stall.spent (Refund.after stall_new "wave" (Refund.healthy first 320 ∷ calm)) "wave" ≡ 0
unfolding Stall.new
refund_iff_example =
    Refund.refund_iff stall_new "wave" first 320 calm (omega arith, (omega arith, tt))

abbrev pointer_at : ℕ → Observation Sink.SinkSample
pointer_at x = known (record {
  identity = first;
  running = true;
  muted = known false;
  playback = known (record { hw_ptr = x; state = Sink.running });
})

-- A pointer that stands still at the third check, newest first.
abbrev standing : List History.Check
standing = History.sampled (pointer_at 96) ∷ History.sampled (pointer_at 48) ∷ []

sink_reads_example :
    ((Sink.observe (History.after Sink.default "out" standing) "out" (pointer_at 96)).1 ≡ true)
    × (Sink.just_stalled (History.after Sink.default "out" standing) "out" ≡ false)
unfolding Sink.reading
sink_reads_example = History.sink_reads Sink.default "out" (pointer_at 96) standing

abbrev sink_new : Sink.SinkStallWatch
sink_new = Sink.new 60 2 2

sink_refund_iff_example :
    Sink.spent (History.after sink_new "out" (History.sampled (pointer_at 144) ∷ standing)) "out"
    ≡ 0
unfolding Sink.new Sink.reading
sink_refund_iff_example =
    SinkBudget.sink_refund_iff sink_new "out" (pointer_at 144) standing (omega arith)

abbrev stuck : Sink.SinkStallWatch
stuck = (Sink.observe (Sink.observe sink_new "out" (pointer_at 48)).0 "out" (pointer_at 48)).0

sink_within_budget_example : Sink.spent (Sink.record_attempt stuck "out" 5) "out" ≤ 2
unfolding Sink.new Sink.record_attempt Sink.should_recover Sink.spent Sink.observe Sink.advance
    Sink.reading get insert
sink_within_budget_example = SinkBudget.sink_within_budget 60 2 2 "out" (
    SinkBudget.next
      (SinkBudget.next (SinkBudget.next SinkBudget.here (SinkBudget.observed "out" (pointer_at 48)))
        (SinkBudget.observed "out" (pointer_at 48)))
      (SinkBudget.attempted "out" 5 refl))

abbrev capture_at : ℕ → ℕ → Capture.CaptureSample
capture_at xruns age = record {
  identity = first;
  running = true;
  muted = known false;
  xruns = known xruns;
  byte_age = known age;
}

-- A watch that has seen a baseline of 10 xruns.
abbrev seen : Capture.CaptureWatch
seen = (Capture.observe Capture.default "wave" (known (capture_at 10 0)) 1).0

abbrev graph : Watch.HealthSamples
graph = record {
  captures = ("wave", known (capture_at 10 0)) ∷ [];
  sinks = ("out", pointer_at 48) ∷ [];
}

abbrev checked : Watch.HealthWatch
checked = (Watch.observe Watch.default (known graph) 1).0

check_never_spends_example :
    (Stall.spent (Watch.observe checked (known graph) 2).0.capture.budget "wave"
      ≤ Stall.spent checked.capture.budget "wave")
    × (Sink.spent (Watch.observe checked (known graph) 2).0.sink "wave"
        ≤ Sink.spent checked.sink "wave")
check_never_spends_example = Report.check_never_spends checked (known graph) 2 "wave"

report_covers_example :
    let (w, r) = Watch.observe checked (known graph) 2 in
    (contains "wave" (keys r.captures) ≡ true)
    × (contains "wave" (keys r.sinks) ≡ false)
    × (w.captures ≡ "wave" ∷ [])
    × (w.sinks ≡ "out" ∷ [])
    × (r.error ≡ none)
unfolding contains
report_covers_example = Report.report_covers checked graph 2 "wave"

unknown_ends_intervals_example :
    let (w, r) = Watch.observe checked (unknown failure) 2 in
    Quiet.IsQuiet "wave" w.capture
    × (Stall.spent w.capture.budget "wave" ≡ Stall.spent checked.capture.budget "wave")
    × (w.captures ≡ checked.captures)
    × (r.captures ≡ [])
    × (r.sinks ≡ [])
    × (r.error ≡ some failure)
unfolding Watch.observe contains
unknown_ends_intervals_example = Quiet.unknown_ends_intervals checked failure 2 "wave" refl

abbrev silence : Watch.HealthSamples
silence = record { captures = []; sinks = [] }

omitted_ends_interval_example :
    let w = (Watch.observe checked (known silence) 2).0 in
    Quiet.IsQuiet "wave" w.capture
    × (Stall.spent w.capture.budget "wave" ≡ Stall.spent checked.capture.budget "wave")
unfolding Watch.observe contains
omitted_ends_interval_example = Quiet.omitted_ends_interval checked silence 2 "wave" refl refl
