-- ===== src/Health/Sink.antt =====
-- crates/openwave-core/src/health.rs: `SinkStallWatch`, the playback pointers of each output.
pub mod History
pub mod Budget
use openwave.Prelude.{
  ℕ, ◌+◌, max, String, Bool, true, false, not, ◌&&◌, ◌||◌, Option, none, some, List, [], ◌∷◌, ◌==◌,
  leb, ltb, if◌then◌else◌, string_instance, nat_instance,
}
use openwave.Prelude.Dict.{Dict, get, insert, modify}
use openwave.Prelude.Word.{saturating_suc}
use openwave.Model.{NodeIdentity, identity_instance, Observation, known, unknown, known?}
use openwave.Health.Stall.{cooldown, max_attempts, cooled}

abbrev pub stall_clean_refill_checks : ℕ
stall_clean_refill_checks = 6

pub data PlaybackState : Type 0 where
  running xrun other : PlaybackState

abbrev pub is_xrun : PlaybackState → Bool
is_xrun xrun = true
is_xrun running = false
is_xrun other = false

pub record PlaybackStatus : Type 0 where
  pub hw_ptr : ℕ  -- u64
  pub state : PlaybackState

pub record SinkSample : Type 0 where
  pub identity : NodeIdentity
  pub running : Bool
  pub muted : Observation Bool
  pub playback : Observation PlaybackStatus

pub record SinkIncident : Type 0 where
  pub baseline : Option (NodeIdentity × ℕ)
  pub stalled : Bool
  pub was_stalled : Bool
  pub clean : ℕ  -- u32
  pub attempts : ℕ  -- u32
  pub last_attempt : Option ℕ

-- `SinkIncident::default`
abbrev pub no_incident : SinkIncident
no_incident = record {
  baseline = none;
  stalled = false;
  was_stalled = false;
  clean = 0;
  attempts = 0;
  last_attempt = none;
}

pub record SinkStallWatch : Type 0 where
  pub cooldown : ℕ
  pub max_attempts : ℕ
  pub clean_refill : ℕ
  pub incidents : Dict String SinkIncident

unfoldable pub new : ℕ → ℕ → ℕ → SinkStallWatch
new cool most refill = record {
  cooldown = cool;
  max_attempts = most;
  clean_refill = max refill 1;
  incidents = [];
}

-- `SinkStallWatch::default`
unfoldable pub default : SinkStallWatch
unfolding new
default = new cooldown max_attempts stall_clean_refill_checks

abbrev pub end_interval : SinkIncident → SinkIncident
end_interval s = record s { baseline = none; stalled = false; was_stalled = false; clean = 0 }

unfoldable pub pause : SinkStallWatch → String → SinkStallWatch
pause w name = record w { incidents = modify name end_interval w.incidents }

-- `muted.known() == Some(&false)`
abbrev pub known_unmuted : Observation Bool → Bool
known_unmuted (known m) = not m
known_unmuted (unknown e) = false

abbrev readable_state : PlaybackStatus → Option PlaybackStatus
readable_state p = elim p.state [ other ↦ none | _ ↦ some p ]

abbrev readable : Observation PlaybackStatus → Option PlaybackStatus
readable (known p) = readable_state p
readable (unknown e) = none

-- The two early returns of `observe`: a sample with a pointer to compare, if it has one.
unfoldable pub reading : Observation SinkSample → Option (NodeIdentity × PlaybackStatus)
reading (unknown e) = none
reading (known s) =
    if s.running && known_unmuted s.muted
    then (elim (readable s.playback) [ none ↦ none | some p ↦ some (s.identity, p) ])
    else none

abbrev pub or_default : Option SinkIncident → SinkIncident
or_default none = no_incident
or_default (some s) = s

-- `previous.filter(…)`
abbrev pub previous_pointer : Option (NodeIdentity × ℕ) → NodeIdentity → ℕ → Option ℕ
previous_pointer none i x = none
previous_pointer (some (j, y)) i x = if (j == i) && leb y x then some y else none

abbrev pub is_some {ℓ} : {A : Type ℓ} → Option A → Bool
is_some none = false
is_some (some a) = true

abbrev pub is_pointer : ℕ → Option ℕ → Bool
is_pointer x none = false
is_pointer x (some y) = y == x

-- The tail of `observe`, after `stalled` is known.
abbrev settle : ℕ → Bool → Bool → SinkIncident → SinkIncident
settle refill true continuing s = record s { stalled = true; clean = 0 }
settle refill false true s =
    let clean = saturating_suc s.clean in
    record s {
      stalled = false;
      clean = clean;
      attempts = if leb refill clean then 0 else s.attempts;
    }
settle refill false false s = record s { stalled = false }

abbrev stale : Bool → SinkIncident → SinkIncident
stale true s = s
stale false s = record s { clean = 0; was_stalled = false }

-- The entry after a readable sample.
unfoldable pub advance : ℕ → SinkIncident → NodeIdentity → PlaybackStatus → SinkIncident
advance refill s i p =
    let previous = previous_pointer s.baseline i p.hw_ptr in
    let t = record s { was_stalled = s.stalled; baseline = some (i, p.hw_ptr) } in
    let stalled = is_xrun p.state || is_pointer p.hw_ptr previous in
    settle refill stalled (is_some previous) (stale (is_some previous) t)

unfoldable pub observe : SinkStallWatch → String → Observation SinkSample → SinkStallWatch × Bool
unfolding pause advance
observe w name sample = elim (reading sample) [
  | none ↦ (pause w name, false)
  | some (i, p) ↦
      let s = advance w.clean_refill (or_default (get name w.incidents)) i p in
      (record w { incidents = insert name s w.incidents }, s.stalled)
]

abbrev newly_stalled : Option SinkIncident → Bool
newly_stalled none = false
newly_stalled (some s) = s.stalled && not s.was_stalled

unfoldable pub just_stalled : SinkStallWatch → String → Bool
just_stalled w name = newly_stalled (get name w.incidents)

abbrev pub attempts_of : Option SinkIncident → ℕ
attempts_of none = 0
attempts_of (some s) = s.attempts

unfoldable pub spent : SinkStallWatch → String → ℕ
spent w name = attempts_of (get name w.incidents)

abbrev due : SinkStallWatch → ℕ → Option SinkIncident → Bool
due w now none = false
due w now (some s) =
    s.stalled && ltb s.attempts w.max_attempts && cooled w.cooldown now s.last_attempt

unfoldable pub should_recover : SinkStallWatch → String → ℕ → Bool
should_recover w name now = due w now (get name w.incidents)

abbrev pub spend : ℕ → SinkIncident → SinkIncident
spend now s = record s {
  attempts = saturating_suc s.attempts;
  last_attempt = some now;
  baseline = none;
  clean = 0;
}

unfoldable pub record_attempt : SinkStallWatch → String → ℕ → SinkStallWatch
record_attempt w name now = record w {
  incidents = insert name (spend now (or_default (get name w.incidents))) w.incidents;
}
