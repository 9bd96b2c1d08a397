-- ===== src/Health/Stall/Budget.antt =====
-- The recovery budget of `StallWatch` over every sequence of calls.
use openwave.Prelude.{
  ℕ, ◌≤◌, String, Bool, true, false, Option, none, some, ◌≡◌, refl, arith, ◌==◌, leb, if◌then◌else◌,
  string_instance, Bool-cases, inl, inr, str_eq_iff,
}
use mathlib.Core.Option
use openwave.Prelude.Dict.{get, get-insert, get-modify}
use openwave.Model.{NodeIdentity}
use openwave.Health.Stall.{
  StallWatch, CaptureIncident, new, pause, spent, can_recover, should_recover, record_attempt,
  record_recovered, recovered, attempts_of, or_default, spend, end_clean,
}

-- What each call leaves at a name.
pub get-pause :
    (w : StallWatch) (name other : String)
    → get other (pause w name).incidents ≡ (
        if name == other
        then Option.map end_clean (get other w.incidents)
        else get other w.incidents)
unfolding pause
get-pause w name other = get-modify other name end_clean w.incidents

pub get-record_attempt :
    (w : StallWatch) (name other : String) (now : ℕ)
    → get other (record_attempt w name now).incidents ≡ (
        if name == other
        then some (spend now (or_default (get name w.incidents)))
        else get other w.incidents)
unfolding record_attempt
get-record_attempt w name other now = get-insert other name _ w.incidents

pub get-record_recovered :
    (w : StallWatch) (name other : String) (i : NodeIdentity) (now : ℕ)
    → get other (record_recovered w name i now).incidents ≡ (
        if name == other
        then some (recovered w.clean_refill (or_default (get name w.incidents)) i now)
        else get other w.incidents)
unfolding record_recovered
get-record_recovered w name other i now = get-insert other name _ w.incidents

-- A pause never changes what has been spent.
pub spent-pause :
    (w : StallWatch) (name other : String) → spent (pause w name) other ≡ spent w other
unfolding spent
spent-pause w name other = rw (get-pause w name other) (ground arith)

attempts-recovered :
    (refill : ℕ) (s : CaptureIncident) (i : NodeIdentity) (now : ℕ)
    → (recovered refill s i now).attempts ≤ s.attempts
unfolding recovered
attempts-recovered refill s i now = ground arith

attempts-or_default : (o : Option CaptureIncident) → (or_default o).attempts ≡ attempts_of o
attempts-or_default none = refl
attempts-or_default (some s) = refl

pub name_eq : (a b : String) → (a == b) ≡ true → a ≡ b
name_eq a b h = ground (arith, str_eq_iff a b)

pub spent-record_recovered :
    (w : StallWatch) (name other : String) (i : NodeIdentity) (now : ℕ)
    → spent (record_recovered w name i now) other ≤ spent w other
unfolding spent
spent-record_recovered w name other i now = elim (Bool-cases (name == other)) [
  | inl same ↦
      rw (get-record_recovered w name other i now, same, name_eq name other same)
        (omega (
          arith,
          attempts-recovered w.clean_refill (or_default (get other w.incidents)) i now,
          attempts-or_default (get other w.incidents),
        ))
  | inr apart ↦ rw (get-record_recovered w name other i now, apart) (omega arith)
]

spent-record_attempt :
    (w : StallWatch) (name other : String) (now : ℕ)
    → can_recover w name now ≡ true
    → spent w other ≤ w.max_attempts
    → spent (record_attempt w name now) other ≤ w.max_attempts
unfolding spent can_recover
spent-record_attempt w name other now can h = elim (Bool-cases (name == other)) [
  | inl same ↦
      rw (get-record_attempt w name other now, same)
        (ground (arith, attempts-or_default (get name w.incidents)))
  | inr apart ↦ rw (get-record_attempt w name other now, apart) h
]

-- The calls on a watch; an attempt is recorded only where `can_recover` allows it.
pub data Step : StallWatch → StallWatch → Type 0 where
  paused : {w : StallWatch} (name : String) → Step w (pause w name)
  asked :
      {w : StallWatch} (name : String) (present : Bool) (age : Option ℕ) (now : ℕ)
      → Step w (should_recover w name present age now).0
  healed :
      {w : StallWatch} (name : String) (i : NodeIdentity) (now : ℕ)
      → Step w (record_recovered w name i now)
  attempted :
      {w : StallWatch} (name : String) (now : ℕ)
      → can_recover w name now ≡ true
      → Step w (record_attempt w name now)

pub data Reach (v : StallWatch) : StallWatch → Type 0 where
  here : Reach v v
  next : {w x : StallWatch} → Reach v w → Step w x → Reach v x

abbrev pub IsWithinBudget : StallWatch → Type 0
IsWithinBudget w = (name : String) → spent w name ≤ w.max_attempts

spent-should_recover :
    (w : StallWatch) (name other : String) (present : Bool) (age : Option ℕ) (now : ℕ)
    → (spent (should_recover w name present age now).0 other ≡ spent w other)
      × ((should_recover w name present age now).0.max_attempts ≡ w.max_attempts)
unfolding should_recover
spent-should_recover w name other false age now = (spent-pause w name other, refl)
spent-should_recover w name other true none now = (spent-pause w name other, refl)
spent-should_recover w name other true (some age) now =
    elim (Bool-cases (leb w.stall_seconds age)) [
      | inl stalled ↦ rw stalled (spent-pause w name other, refl)
      | inr fresh ↦ rw fresh (refl, refl)
    ]

Step-IsWithinBudget : {w x : StallWatch} → Step w x → IsWithinBudget w → IsWithinBudget x
unfolding pause record_recovered record_attempt
Step-IsWithinBudget (paused {w = w} name) h other = rw (spent-pause w name other) (h other)
Step-IsWithinBudget (asked {w = w} name present age now) h other =
    omega (arith, h other, spent-should_recover w name other present age now)
Step-IsWithinBudget (healed {w = w} name i now) h other =
    omega (arith, h other, spent-record_recovered w name other i now)
Step-IsWithinBudget (attempted {w = w} name now can) h other =
    spent-record_attempt w name other now can (h other)

Reach-IsWithinBudget : {v w : StallWatch} → IsWithinBudget v → Reach v w → IsWithinBudget w
Reach-IsWithinBudget h here = h
Reach-IsWithinBudget h (next r s) = Step-IsWithinBudget s (Reach-IsWithinBudget h r)

-- From a new watch, through every sequence of calls in which each recorded attempt was allowed by
-- `can_recover`, no capture has ever spent more than `max_attempts`.
pub Reach-within_budget :
    (stall cool most refill : ℕ) {w : StallWatch} (name : String)
    → Reach (new stall cool most refill) w
    → spent w name ≤ w.max_attempts
Reach-within_budget stall cool most refill name r = Reach-IsWithinBudget start r name
  where
    start : IsWithinBudget (new stall cool most refill)
    start other = unfold new spent get in (omega arith)
