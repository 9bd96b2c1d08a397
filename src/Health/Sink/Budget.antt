-- ===== src/Health/Sink/Budget.antt =====
-- The recovery budget of `SinkStallWatch`.
use openwave.Prelude.{
  ℕ, ◌≤◌, String, true, Option, none, some, ◌≡◌, refl, ◌∙◌, List, [], ◌∷◌, arith, ◌==◌, leb,
  if◌then◌else◌, string_instance, Bool-cases, Option-cases, inl, inr, str_eq_iff,
}
use openwave.Prelude.Dict.{get, insert, get-insert, get-modify}
use openwave.Model.{NodeIdentity, Observation}
use openwave.Health.Sink.{
  PlaybackStatus, SinkSample, SinkIncident, SinkStallWatch, new, pause, reading, observe, advance,
  spent, should_recover, record_attempt, or_default, end_interval, spend, attempts_of,
}
use openwave.Health.Sink.History.{
  Check, sampled, attempt, after, clean_run, entry, Tells, entry-observe, entry-observe-none,
  after-sampled, entry-after,
}

spent-entry : (w : SinkStallWatch) (name : String) → spent w name ≡ (entry w name).attempts
unfolding spent
spent-entry w name = of_entry (get name w.incidents)
  where
    of_entry : (o : Option SinkIncident) → attempts_of o ≡ (or_default o).attempts
    of_entry none = refl
    of_entry (some s) = refl

-- A pause never changes what has been spent.
pub spent-pause :
    (w : SinkStallWatch) (name other : String) → spent (pause w name) other ≡ spent w other
unfolding spent pause
spent-pause w name other = rw (get-modify other name end_interval w.incidents) (ground arith)

advance-attempts :
    (refill : ℕ) (s : SinkIncident) (i : NodeIdentity) (p : PlaybackStatus)
    (o : Observation SinkSample) (h : List Check)
    → reading o ≡ some (i, p)
    → Tells s h
    → 1 ≤ refill
    → (advance refill s i p).attempts
      ≡ (if leb refill (clean_run (sampled o ∷ h)) then 0 else s.attempts)
unfolding advance
advance-attempts refill s i p o h r t pos = ground arith

-- `observe` of a sample that reads.
observe_reads :
    (w : SinkStallWatch) (name : String) (o : Observation SinkSample) (i : NodeIdentity)
    (p : PlaybackStatus)
    → reading o ≡ some (i, p)
    → let s = advance w.clean_refill (or_default (get name w.incidents)) i p in
      observe w name o ≡ (record w { incidents = insert name s w.incidents }, s.stalled)
unfolding observe
observe_reads w name o i p r = rw (r, observe)

observe-clean_refill :
    (w : SinkStallWatch) (name : String) (o : Observation SinkSample)
    → (observe w name o).0.clean_refill ≡ w.clean_refill
unfolding pause
observe-clean_refill w name o = elim (Option-cases (reading o)) [
  | inl r ↦ rw (entry-observe-none w name o r)
  | inr ((i, p), r) ↦ rw (observe_reads w name o i p r)
]

clean_refill-after :
    (w : SinkStallWatch) (name : String) (h : List Check)
    → (after w name h).clean_refill ≡ w.clean_refill
unfolding after pause record_attempt
clean_refill-after w name [] = refl
clean_refill-after w name (attempt now ∷ older) = clean_refill-after w name older
clean_refill-after w name (sampled o ∷ older) =
    observe-clean_refill (after w name older) name o ∙ clean_refill-after w name older

-- With `clean_refill` at least 1, as `new` makes it: a sample gives the whole budget back exactly
-- when the latest `clean_refill` checks all saw the pointer move on in one generation, with no
-- xrun; after any other sample what was spent stays.
pub sink_refund_iff :
    (w : SinkStallWatch) (name : String) (o : Observation SinkSample) (h : List Check)
    → 1 ≤ w.clean_refill
    → spent (after w name (sampled o ∷ h)) name
      ≡ (if leb w.clean_refill (clean_run (sampled o ∷ h)) then 0 else spent (after w name h) name)
sink_refund_iff w name o h pos = elim (Option-cases (reading o)) [
  | inl r ↦
      rw
        (
          after-sampled w name o h,
          entry-observe-none (after w name h) name o r,
          spent-pause (after w name h) name name,
        )
        (ground (arith, r))
  | inr ((i, p), r) ↦
      rw
        (
          spent-entry (after w name (sampled o ∷ h)) name,
          spent-entry (after w name h) name,
          after-sampled w name o h,
          (entry-observe (after w name h) name o i p r).0,
          clean_refill-after w name h,
        )
        (advance-attempts w.clean_refill (entry (after w name h) name) i p o h r
          (entry-after w name h) pos)
]

-- The calls on a watch; an attempt is recorded only where `should_recover` asks for it.
pub data Step : SinkStallWatch → SinkStallWatch → Type 0 where
  paused : {w : SinkStallWatch} (name : String) → Step w (pause w name)
  observed :
      {w : SinkStallWatch} (name : String) (o : Observation SinkSample)
      → Step w (observe w name o).0
  attempted :
      {w : SinkStallWatch} (name : String) (now : ℕ)
      → should_recover w name now ≡ true
      → Step w (record_attempt w name now)

pub data Reach (v : SinkStallWatch) : SinkStallWatch → Type 0 where
  here : Reach v v
  next : {w x : SinkStallWatch} → Reach v w → Step w x → Reach v x

abbrev IsWithinBudget : SinkStallWatch → Type 0
IsWithinBudget w = (name : String) → spent w name ≤ w.max_attempts

advance-attempts-le :
    (refill : ℕ) (s : SinkIncident) (i : NodeIdentity) (p : PlaybackStatus)
    → (advance refill s i p).attempts ≤ s.attempts
unfolding advance
advance-attempts-le refill s i p = ground arith

attempts-or_default : (o : Option SinkIncident) → (or_default o).attempts ≡ attempts_of o
attempts-or_default none = refl
attempts-or_default (some s) = refl

name_eq : (a b : String) → (a == b) ≡ true → a ≡ b
name_eq a b h = ground (arith, str_eq_iff a b)

spent-insert :
    (w : SinkStallWatch) (name other : String) (s : SinkIncident) (v : SinkStallWatch)
    → v ≡ record w { incidents = insert name s w.incidents }
    → spent v other ≡ (if name == other then s.attempts else spent w other)
unfolding spent
spent-insert w name other s v e = rw (e, get-insert other name s w.incidents) (ground arith)

pub spent-observe :
    (w : SinkStallWatch) (name other : String) (o : Observation SinkSample)
    → (spent (observe w name o).0 other ≤ spent w other)
      × ((observe w name o).0.max_attempts ≡ w.max_attempts)
unfolding pause
spent-observe w name other o = elim (Option-cases (reading o)) [
  | inl r ↦ rw (entry-observe-none w name o r) (omega (arith, spent-pause w name other), refl)
  | inr ((i, p), r) ↦ rw (observe_reads w name o i p r) (
    ground (
      arith,
      name_eq name other,
      spent-insert w name other (advance w.clean_refill (entry w name) i p)
          (record w {
            incidents = insert name (advance w.clean_refill (entry w name) i p) w.incidents;
          })
          refl,
      advance-attempts-le w.clean_refill (entry w name) i p,
      spent-entry w name,
    ),
    refl,
  )
]

spent-record_attempt :
    (w : SinkStallWatch) (name other : String) (now : ℕ)
    → should_recover w name now ≡ true
    → spent w other ≤ w.max_attempts
    → spent (record_attempt w name now) other ≤ w.max_attempts
unfolding spent should_recover record_attempt
spent-record_attempt w name other now due h = elim (Bool-cases (name == other)) [
  | inl same ↦
      rw (get-insert other name (spend now (or_default (get name w.incidents))) w.incidents, same)
        (ground arith)
  | inr apart ↦
      rw (get-insert other name (spend now (or_default (get name w.incidents))) w.incidents, apart)
        h
]

Step-IsWithinBudget : {w x : SinkStallWatch} → Step w x → IsWithinBudget w → IsWithinBudget x
unfolding pause record_attempt
Step-IsWithinBudget (paused {w = w} name) h other = rw (spent-pause w name other) (h other)
Step-IsWithinBudget (observed {w = w} name o) h other =
    omega (arith, h other, spent-observe w name other o)
Step-IsWithinBudget (attempted {w = w} name now due) h other =
    spent-record_attempt w name other now due (h other)

Reach-IsWithinBudget : {v w : SinkStallWatch} → IsWithinBudget v → Reach v w → IsWithinBudget w
Reach-IsWithinBudget h here = h
Reach-IsWithinBudget h (next r s) = Step-IsWithinBudget s (Reach-IsWithinBudget h r)

-- From a new watch, through every sequence of calls in which each recorded attempt was asked for
-- by `should_recover`, no output has ever spent more than `max_attempts`.
pub sink_within_budget :
    (cool most refill : ℕ) {w : SinkStallWatch} (name : String)
    → Reach (new cool most refill) w
    → spent w name ≤ w.max_attempts
sink_within_budget cool most refill name r = Reach-IsWithinBudget start r name
  where
    start : IsWithinBudget (new cool most refill)
    start other = unfold new spent get in (omega arith)
