-- ===== src/Health/Sink/History.antt =====
-- `SinkStallWatch` against the history of an output's samples, newest first.
use openwave.Prelude.{
  ℕ, String, Bool, false, not, ◌&&◌, ◌||◌, Option, none, some, ◌≡◌, refl, ap, sym, ◌∙◌, List, [],
  ◌∷◌, arith, if◌then◌else◌, string_instance, nat_instance, beq_refl, Option-cases, inl, inr,
}
use mathlib.Core.Option
use openwave.Prelude.Dict.{get, get-insert, get-modify}
use openwave.Prelude.Word.{saturating_suc}
use openwave.Model.{NodeIdentity, identity_instance, Observation}
use openwave.Health.Sink.{
  PlaybackStatus, SinkSample, SinkIncident, SinkStallWatch, pause, reading, observe, advance,
  just_stalled, record_attempt, or_default, end_interval, previous_pointer, is_some, is_pointer,
  is_xrun, spend, newly_stalled,
}

pub data Check : Type 0 where
  sampled : Observation SinkSample → Check
  attempt : ℕ → Check

-- The watch after a history that begins at a pause.
unfoldable pub after : SinkStallWatch → String → List Check → SinkStallWatch
after w name [] = pause w name
after w name (sampled o ∷ older) = (observe (after w name older) name o).0
after w name (attempt now ∷ older) = record_attempt (after w name older) name now

abbrev pointer_of : Option (NodeIdentity × PlaybackStatus) → Option (NodeIdentity × ℕ)
pointer_of none = none
pointer_of (some (i, p)) = some (i, p.hw_ptr)

-- The pointer that the latest check read.
abbrev pub latest_pointer : List Check → Option (NodeIdentity × ℕ)
latest_pointer [] = none
latest_pointer (sampled o ∷ older) = pointer_of (reading o)
latest_pointer (attempt now ∷ older) = none

-- The pointer of the check before a reading, if it is of the same generation and not above it.
abbrev pub pointer_before : NodeIdentity → PlaybackStatus → List Check → Option ℕ
pointer_before i p older = previous_pointer (latest_pointer older) i p.hw_ptr

abbrev stuck_reading : Option (NodeIdentity × PlaybackStatus) → List Check → Bool
stuck_reading none older = false
stuck_reading (some (i, p)) older =
    is_xrun p.state || is_pointer p.hw_ptr (pointer_before i p older)

-- The latest sample shows an xrun, or the pointer of the check before.
abbrev pub is_stuck : List Check → Bool
is_stuck [] = false
is_stuck (sampled o ∷ older) = stuck_reading (reading o) older
is_stuck (attempt now ∷ older) = is_stuck older

abbrev stuck_before : Option (NodeIdentity × PlaybackStatus) → List Check → Bool
stuck_before none older = false
stuck_before (some (i, p)) older = is_some (pointer_before i p older) && is_stuck older

-- The check that the latest sample continues was stuck.
abbrev pub was_stuck : List Check → Bool
was_stuck [] = false
was_stuck (sampled o ∷ older) = stuck_before (reading o) older
was_stuck (attempt now ∷ older) = was_stuck older

abbrev moves_reading : Option (NodeIdentity × PlaybackStatus) → List Check → Bool
moves_reading none older = false
moves_reading (some (i, p)) older =
    not (stuck_reading (some (i, p)) older) && is_some (pointer_before i p older)

-- How many of the latest checks in a row saw the pointer move on.
abbrev pub clean_run : List Check → ℕ
clean_run [] = 0
clean_run (sampled o ∷ older) =
    let longer = saturating_suc (clean_run older) in
    if moves_reading (reading o) older then longer else 0
clean_run (attempt now ∷ older) = 0

abbrev pub entry : SinkStallWatch → String → SinkIncident
entry w name = or_default (get name w.incidents)

-- What the entry says of the history.
pub record Tells (s : SinkIncident) (h : List Check) : Type 0 where
  pub pointer : s.baseline ≡ latest_pointer h
  pub stuck : s.stalled ≡ is_stuck h
  pub before : s.was_stalled ≡ was_stuck h
  pub run : s.clean ≡ clean_run h

advance-Tells :
    (refill : ℕ) (s : SinkIncident) (i : NodeIdentity) (p : PlaybackStatus)
    (o : Observation SinkSample) (h : List Check)
    → reading o ≡ some (i, p)
    → Tells s h
    → Tells (advance refill s i p) (sampled o ∷ h)
unfolding advance
advance-Tells refill s i p o h r t = record {
  pointer = ground arith;
  stuck = ground arith;
  before = ground arith;
  run = ground arith;
}

end_interval-Tells :
    (q : Option SinkIncident) (o : Observation SinkSample) (h : List Check)
    → reading o ≡ none
    → Tells (or_default (Option.map end_interval q)) (sampled o ∷ h)
end_interval-Tells none o h r = ground arith
end_interval-Tells (some s) o h r = ground arith

spend-Tells :
    (s : SinkIncident) (now : ℕ) (h : List Check)
    → Tells s h
    → Tells (spend now s) (attempt now ∷ h)
spend-Tells s now h t = ground arith

pub entry-pause :
    (w : SinkStallWatch) (name : String)
    → entry (pause w name) name ≡ or_default (Option.map end_interval (get name w.incidents))
unfolding pause
entry-pause w name = rw (get-modify name name end_interval w.incidents, beq_refl name)

pub entry-observe-none :
    (w : SinkStallWatch) (name : String) (o : Observation SinkSample)
    → reading o ≡ none
    → observe w name o ≡ (pause w name, false)
unfolding observe
entry-observe-none w name o r = rw (r, observe)

pub entry-observe :
    (w : SinkStallWatch) (name : String) (o : Observation SinkSample) (i : NodeIdentity)
    (p : PlaybackStatus)
    → reading o ≡ some (i, p)
    → (entry (observe w name o).0 name ≡ advance w.clean_refill (entry w name) i p)
      × ((observe w name o).1 ≡ (advance w.clean_refill (entry w name) i p).stalled)
unfolding observe
entry-observe w name o i p r =
    rw (r, observe) (ap or_default (get-insert name name _ w.incidents) ∙ rw (beq_refl name), refl)

pub entry-attempt :
    (w : SinkStallWatch) (name : String) (now : ℕ)
    → entry (record_attempt w name now) name ≡ spend now (entry w name)
unfolding record_attempt
entry-attempt w name now = ap or_default (get-insert name name _ w.incidents) ∙ rw (beq_refl name)

pub after-sampled :
    (w : SinkStallWatch) (name : String) (o : Observation SinkSample) (h : List Check)
    → after w name (sampled o ∷ h) ≡ (observe (after w name h) name o).0
unfolding after
after-sampled w name o h = refl

after-attempt :
    (w : SinkStallWatch) (name : String) (now : ℕ) (h : List Check)
    → after w name (attempt now ∷ h) ≡ record_attempt (after w name h) name now
unfolding after
after-attempt w name now h = refl

pub entry-after :
    (w : SinkStallWatch) (name : String) (h : List Check) → Tells (entry (after w name h) name) h
entry-after w name [] = unfold after in rw (entry-pause w name) (fresh (get name w.incidents))
  where
    fresh : (q : Option SinkIncident) → Tells (or_default (Option.map end_interval q)) []
    fresh none = ground arith
    fresh (some s) = ground arith
entry-after w name (sampled o ∷ older) = elim (Option-cases (reading o)) [
  | inl r ↦
      rw
        (
          after-sampled w name o older,
          entry-observe-none (after w name older) name o r,
          entry-pause (after w name older) name,
        )
        (end_interval-Tells (get name (after w name older).incidents) o older r)
  | inr ((i, p), r) ↦
      rw (after-sampled w name o older, (entry-observe (after w name older) name o i p r).0)
        (advance-Tells (after w name older).clean_refill (entry (after w name older) name) i p o
          older r (entry-after w name older))
]
entry-after w name (attempt now ∷ older) =
    rw (after-attempt w name now older, entry-attempt (after w name older) name now)
      (spend-Tells (entry (after w name older) name) now older (entry-after w name older))

newly-entry :
    (q : Option SinkIncident)
    → newly_stalled q ≡ ((or_default q).stalled && not (or_default q).was_stalled)
newly-entry none = refl
newly-entry (some s) = refl

observe-stalled :
    (w : SinkStallWatch) (name : String) (o : Observation SinkSample) (h : List Check)
    → (observe (after w name h) name o).1 ≡ (entry (after w name (sampled o ∷ h)) name).stalled
unfolding after
observe-stalled w name o h = elim (Option-cases (reading o)) [
  | inl r ↦
      rw
        (
          after-sampled w name o h,
          entry-observe-none (after w name h) name o r,
          entry-pause (after w name h) name,
        )
        (paused (get name (after w name h).incidents))
  | inr ((i, p), r) ↦
      (entry-observe (after w name h) name o i p r).1
      ∙ ap (λ (s : SinkIncident). s.stalled) (sym (entry-observe (after w name h) name o i p r).0)
]
  where
    paused : (q : Option SinkIncident) → false ≡ (or_default (Option.map end_interval q)).stalled
    paused none = refl
    paused (some s) = refl

-- After any history that begins at a paused name, `observe` reports a stall exactly when the
-- sample is readable and shows an xrun or the pointer of the check before, in one generation; and
-- `just_stalled` holds exactly when the latest sample is stuck and does not continue a stuck one.
pub sink_reads :
    (w : SinkStallWatch) (name : String) (o : Observation SinkSample) (h : List Check)
    → ((observe (after w name h) name o).1 ≡ is_stuck (sampled o ∷ h))
      × (just_stalled (after w name h) name ≡ (is_stuck h && not (was_stuck h)))
unfolding just_stalled
sink_reads w name o h =
    let told = entry-after w name h in
    (
      observe-stalled w name o h ∙ (entry-after w name (sampled o ∷ h)).stuck,
      newly-entry (get name (after w name h).incidents) ∙ rw (told.stuck, told.before),
    )
