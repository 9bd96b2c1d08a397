-- ===== src/Health/Stall/Cooldown.antt =====
-- How far apart `StallWatch` lets two attempts at one capture come.
use openwave.Prelude.{
  ℕ, ◌+◌, ◌≤◌, String, Bool, true, false, Option, none, some, ◌≡◌, refl, arith, ◌==◌, leb,
  string_instance, Bool-cases, ◌⊎◌, inl, inr, beq_refl,
}
use mathlib.Core.Option
use openwave.Prelude.Dict.{get}
use openwave.Model.{NodeIdentity}
use openwave.Health.Stall.{
  StallWatch, CaptureIncident, pause, spent, can_recover, should_recover, record_attempt, recovered,
  attempts_of, last_attempt_of, or_default, end_clean,
}
use openwave.Health.Stall.Budget.{
  Step, paused, asked, healed, attempted, get-pause, get-record_attempt, get-record_recovered,
  name_eq,
}

abbrev pub attempts_on : {w x : StallWatch} → String → Step w x → Bool
attempts_on n (paused name) = false
attempts_on n (asked name present age now) = false
attempts_on n (healed name i now) = false
attempts_on n (attempted name now can) = name == n

-- Calls with no attempt at `name`.
pub data ReachBut (name : String) (v : StallWatch) : StallWatch → Type 0 where
  here : ReachBut name v v
  next :
      {w x : StallWatch}
      → ReachBut name v w
      → (s : Step w x) → attempts_on name s ≡ false
      → ReachBut name v x

-- The entry still remembers the attempt at `t`, or its whole budget is back.
abbrev Remembers : ℕ → Option CaptureIncident → Type 0
Remembers t o = (last_attempt_of o ≡ some t) ⊎ (attempts_of o ≡ 0)

abbrev RemembersAt : String → ℕ → StallWatch → Type 0
RemembersAt name t w = Remembers t (get name w.incidents)

Remembers-end_clean :
    (t : ℕ) (o : Option CaptureIncident) → Remembers t o → Remembers t (Option.map end_clean o)
Remembers-end_clean t none h = h
Remembers-end_clean t (some s) h = h

Remembers-recovered :
    (t refill : ℕ) (o : Option CaptureIncident) (i : NodeIdentity) (now : ℕ)
    → Remembers t o
    → Remembers t (some (recovered refill (or_default o) i now))
unfolding recovered
Remembers-recovered t refill none i now h = inr (ground arith)
Remembers-recovered t refill (some s) i now h = ground arith

pause-RemembersAt :
    (w : StallWatch) (name n : String) (t : ℕ) → RemembersAt n t w → RemembersAt n t (pause w name)
pause-RemembersAt w name n t h = elim (Bool-cases (name == n)) [
  | inl same ↦ rw (get-pause w name n, same) (Remembers-end_clean t (get n w.incidents) h)
  | inr apart ↦ rw (get-pause w name n, apart) h
]

asked-RemembersAt :
    (w : StallWatch) (name n : String) (present : Bool) (age : Option ℕ) (now t : ℕ)
    → RemembersAt n t w
    → RemembersAt n t (should_recover w name present age now).0
unfolding should_recover
asked-RemembersAt w name n false age now t h = pause-RemembersAt w name n t h
asked-RemembersAt w name n true none now t h = pause-RemembersAt w name n t h
asked-RemembersAt w name n true (some age) now t h = elim (Bool-cases (leb w.stall_seconds age)) [
  | inl stalled ↦ rw stalled (pause-RemembersAt w name n t h)
  | inr fresh ↦ rw fresh h
]

Step-RemembersAt :
    {w x : StallWatch} (n : String) (t : ℕ) (s : Step w x)
    → attempts_on n s ≡ false
    → RemembersAt n t w
    → RemembersAt n t x
Step-RemembersAt n t (paused {w = w} name) but h = pause-RemembersAt w name n t h
Step-RemembersAt n t (asked {w = w} name present age now) but h =
    asked-RemembersAt w name n present age now t h
Step-RemembersAt n t (healed {w = w} name i now) but h = elim (Bool-cases (name == n)) [
  | inl same ↦
      rw (get-record_recovered w name n i now, same, name_eq name n same)
        (Remembers-recovered t w.clean_refill (get n w.incidents) i now h)
  | inr apart ↦ rw (get-record_recovered w name n i now, apart) h
]
Step-RemembersAt n t (attempted {w = w} name now can) but h =
    rw (get-record_attempt w name n now, but) h

ReachBut-RemembersAt :
    (n : String) (t : ℕ) {v x : StallWatch} → ReachBut n v x → RemembersAt n t v → RemembersAt n t x
ReachBut-RemembersAt n t here h = h
ReachBut-RemembersAt n t (next r s but) h =
    Step-RemembersAt n t s but (ReachBut-RemembersAt n t r h)

-- After an attempt at `t`, and any calls with no further attempt at that capture, `can_recover`
-- allows the next attempt only when the cooldown has passed since `t`, unless the whole budget
-- was refunded in between.
pub attempts_spaced :
    (w : StallWatch) (name : String) (t now : ℕ) {x : StallWatch}
    → ReachBut name (record_attempt w name t) x
    → can_recover x name now ≡ true
    → (t + x.cooldown ≤ now) ⊎ (spent x name ≡ 0)
unfolding can_recover spent
attempts_spaced w name t now {x} r can = ground (arith, remembered)
  where
    remembered : RemembersAt name t x
    remembered =
        ReachBut-RemembersAt name t r
          (rw (get-record_attempt w name name t, beq_refl name) (inl refl))
