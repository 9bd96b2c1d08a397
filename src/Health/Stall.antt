-- ===== src/Health/Stall.antt =====
-- crates/openwave-core/src/health.rs: `StallWatch`, the recovery budget of each capture.
pub mod Budget
pub mod Cooldown
pub mod Refund
use openwave.Prelude.{
  ℕ, suc, ◌+◌, ◌-◌, ◌*◌, ◌≤◌, ◌<◌, min, max, String, Bool, true, false, not, ◌&&◌, ◌||◌, Option,
  none, some, List, [], ◌∷◌, arith, ◌==◌, leb, ltb, if◌then◌else◌, string_instance, nat_instance,
}
use openwave.Prelude.Dict.{Dict, get, insert, modify}
use openwave.Prelude.Word.{saturating_suc, checked_sub}
use openwave.Model.{NodeIdentity, identity_instance}

-- Durations are numbers of nanoseconds.
abbrev pub seconds : ℕ → ℕ
seconds n = n * 1000000000

abbrev pub stall_seconds : ℕ
stall_seconds = seconds 8

abbrev pub cooldown : ℕ
cooldown = seconds 60

abbrev pub max_attempts : ℕ
max_attempts = 2

abbrev pub clean_refill : ℕ
clean_refill = seconds 300

pub record CaptureIncident : Type 0 where
  pub attempts : ℕ  -- u32
  pub last_attempt : Option ℕ
  pub clean : Option (NodeIdentity × ℕ)

-- `CaptureIncident::default`
abbrev pub no_incident : CaptureIncident
no_incident = record { attempts = 0; last_attempt = none; clean = none }

pub record StallWatch : Type 0 where
  pub stall_seconds : ℕ
  pub cooldown : ℕ
  pub max_attempts : ℕ
  pub clean_refill : ℕ
  pub incidents : Dict String CaptureIncident

unfoldable pub new : ℕ → ℕ → ℕ → ℕ → StallWatch
new stall cool most refill = record {
  stall_seconds = stall;
  cooldown = cool;
  max_attempts = most;
  clean_refill = refill;
  incidents = [];
}

-- `StallWatch::default`
unfoldable pub default : StallWatch
unfolding new
default = new stall_seconds cooldown max_attempts clean_refill

abbrev pub end_clean : CaptureIncident → CaptureIncident
end_clean s = record s { clean = none }

unfoldable pub pause : StallWatch → String → StallWatch
pause w name = record w { incidents = modify name end_clean w.incidents }

-- `entry(name).or_default()`
abbrev pub or_default : Option CaptureIncident → CaptureIncident
or_default none = no_incident
or_default (some s) = s

abbrev pub attempts_of : Option CaptureIncident → ℕ
attempts_of none = 0
attempts_of (some s) = s.attempts

abbrev pub last_attempt_of : Option CaptureIncident → Option ℕ
last_attempt_of none = none
last_attempt_of (some s) = s.last_attempt

unfoldable pub spent : StallWatch → String → ℕ
spent w name = attempts_of (get name w.incidents)

-- `is_some_and(|elapsed| elapsed >= cooldown)` on the checked difference
abbrev elapsed_at_least : ℕ → Option ℕ → Bool
elapsed_at_least cool none = false
elapsed_at_least cool (some elapsed) = leb cool elapsed

-- `last_attempt.is_none_or(…)`
abbrev pub cooled : ℕ → ℕ → Option ℕ → Bool
cooled cool now none = true
cooled cool now (some last) = elapsed_at_least cool (checked_sub now last)

unfoldable pub can_recover : StallWatch → String → ℕ → Bool
unfolding spent
can_recover w name now =
    ltb (spent w name) w.max_attempts
    && cooled w.cooldown now (last_attempt_of (get name w.incidents))

unfoldable pub should_recover : StallWatch → String → Bool → Option ℕ → ℕ → StallWatch × Bool
unfolding pause can_recover
should_recover w name false byte_age now = (pause w name, false)
should_recover w name true none now = (pause w name, false)
should_recover w name true (some age) now =
    if leb w.stall_seconds age
    then (pause w name, can_recover (pause w name) name now)
    else (w, false)

abbrev spend : ℕ → CaptureIncident → CaptureIncident
spend now s = record s {
  attempts = saturating_suc s.attempts;
  last_attempt = some now;
  clean = none;
}

unfoldable pub record_attempt : StallWatch → String → ℕ → StallWatch
record_attempt w name now = record w {
  incidents = insert name (spend now (or_default (get name w.incidents))) w.incidents;
}

-- The start of the clean interval that a healthy observation continues, or now.
unfoldable pub clean_since : Option (NodeIdentity × ℕ) → NodeIdentity → ℕ → ℕ
clean_since none identity now = now
clean_since (some (generation, since)) identity now =
    if (generation == identity) && leb since now then since else now

-- In the source `now - since` panics below zero.
unfoldable pub recovered : ℕ → CaptureIncident → NodeIdentity → ℕ → CaptureIncident
unfolding clean_since
recovered refill s identity now =
    let since = clean_since s.clean identity now in
    let t = record s { clean = some (identity, since) } in
    if leb refill (now - since) then record t { attempts = 0; last_attempt = none } else t

unfoldable pub record_recovered : StallWatch → String → NodeIdentity → ℕ → StallWatch
unfolding recovered
record_recovered w name identity now = record w {
  incidents =
      insert name (recovered w.clean_refill (or_default (get name w.incidents)) identity now)
        w.incidents;
}
