-- ===== src/Health/Stall/Refund.antt =====
-- When `StallWatch` gives a spent budget back.
use openwave.Prelude.{
  ℕ, ◌-◌, ◌≤◌, String, Option, none, some, ◌≡◌, refl, List, [], ◌∷◌, arith, ◌==◌, leb,
  if◌then◌else◌, string_instance, beq_refl,
}
use mathlib.Core.Option
use openwave.Prelude.Dict.{get}
use openwave.Model.{NodeIdentity, identity_instance, identity_eq_iff}
use openwave.Health.Stall.{
  StallWatch, CaptureIncident, pause, spent, record_attempt, record_recovered, recovered,
  clean_since, attempts_of, or_default, end_clean,
}
use openwave.Health.Stall.Budget.{get-pause, get-record_attempt, get-record_recovered}

-- What happens at one capture.
pub data Check : Type 0 where
  healthy : NodeIdentity → ℕ → Check
  interrupted : Check
  attempt : ℕ → Check

-- The watch after a history, newest first, that begins at a pause.
unfoldable pub after : StallWatch → String → List Check → StallWatch
after w name [] = pause w name
after w name (healthy i now ∷ older) = record_recovered (after w name older) name i now
after w name (interrupted ∷ older) = pause (after w name older) name
after w name (attempt now ∷ older) = record_attempt (after w name older) name now

-- The time of the oldest of the healthy checks of one generation in a row that end here.
abbrev pub run_start : NodeIdentity → ℕ → List Check → ℕ
run_start i t [] = t
run_start i t (healthy j u ∷ older) = if j == i then run_start i u older else t
run_start i t (interrupted ∷ older) = t
run_start i t (attempt u ∷ older) = t

-- The clock does not run backwards over the healthy checks.
abbrev pub IsFalling : ℕ → List Check → Type 0
IsFalling t [] = Unit {0}
IsFalling t (healthy j u ∷ older) = (u ≤ t) × IsFalling u older
IsFalling t (interrupted ∷ older) = IsFalling t older
IsFalling t (attempt u ∷ older) = IsFalling t older

run_start-le : (i : NodeIdentity) (t : ℕ) (h : List Check) → IsFalling t h → run_start i t h ≤ t
run_start-le i t [] f = omega arith
run_start-le i t (healthy j u ∷ older) f = ground (arith, run_start-le i u older f.1)
run_start-le i t (interrupted ∷ older) f = omega arith
run_start-le i t (attempt u ∷ older) f = omega arith

clean_refill-after :
    (w : StallWatch) (name : String) (h : List Check)
    → (after w name h).clean_refill ≡ w.clean_refill
unfolding after pause record_attempt record_recovered
clean_refill-after w name [] = refl
clean_refill-after w name (healthy i now ∷ older) = clean_refill-after w name older
clean_refill-after w name (interrupted ∷ older) = clean_refill-after w name older
clean_refill-after w name (attempt now ∷ older) = clean_refill-after w name older

abbrev entry : StallWatch → String → CaptureIncident
entry w name = or_default (get name w.incidents)

end_clean-clean : (o : Option CaptureIncident) → (or_default (Option.map end_clean o)).clean ≡ none
end_clean-clean none = refl
end_clean-clean (some s) = refl

entry-pause : (w : StallWatch) (name : String) → (entry (pause w name) name).clean ≡ none
entry-pause w name =
    rw (get-pause w name name, beq_refl name) (end_clean-clean (get name w.incidents))

entry-attempt :
    (w : StallWatch) (name : String) (now : ℕ)
    → (entry (record_attempt w name now) name).clean ≡ none
entry-attempt w name now = rw (get-record_attempt w name name now, beq_refl name)

entry-recovered :
    (w : StallWatch) (name : String) (i : NodeIdentity) (now : ℕ)
    → entry (record_recovered w name i now) name ≡ recovered w.clean_refill (entry w name) i now
entry-recovered w name i now = rw (get-record_recovered w name name i now, beq_refl name)

clean-recovered :
    (refill : ℕ) (s : CaptureIncident) (i : NodeIdentity) (now : ℕ)
    → (recovered refill s i now).clean ≡ some (i, clean_since s.clean i now)
unfolding recovered
clean-recovered refill s i now = ground arith

-- The interval that the watch remembers is the one that the history shows.
since-after :
    (w : StallWatch) (name : String) (i : NodeIdentity) (now : ℕ) (h : List Check)
    → IsFalling now h
    → clean_since (entry (after w name h) name).clean i now ≡ run_start i now h
unfolding after
since-after w name i now [] f = rw (entry-pause w name) (unfold clean_since in refl)
since-after w name i now (interrupted ∷ older) f =
    rw (entry-pause (after w name older) name) (unfold clean_since in refl)
since-after w name i now (attempt u ∷ older) f =
    rw (entry-attempt (after w name older) name u) (unfold clean_since in refl)
since-after w name i now (healthy j u ∷ older) f =
    rw
      (
        entry-recovered (after w name older) name j u,
        clean-recovered (after w name older).clean_refill (entry (after w name older) name) j u,
        since-after w name j u older f.1,
      )
      (continued w name i j now u older f)
  where
    continued :
        (w : StallWatch) (name : String) (i j : NodeIdentity) (now u : ℕ) (older : List Check)
        → IsFalling now (healthy j u ∷ older)
        → clean_since (some (j, run_start j u older)) i now ≡ run_start i now (healthy j u ∷ older)
    continued w name i j now u older f =
        unfold clean_since in ground (arith, identity_eq_iff j i, run_start-le j u older f.1)

attempts-recovered :
    (refill : ℕ) (s : CaptureIncident) (i : NodeIdentity) (now : ℕ)
    → (recovered refill s i now).attempts
      ≡ (if leb refill (now - clean_since s.clean i now) then 0 else s.attempts)
unfolding recovered
attempts-recovered refill s i now = ground arith

spent-entry : (w : StallWatch) (name : String) → spent w name ≡ (entry w name).attempts
unfolding spent
spent-entry w name = of_entry (get name w.incidents)
  where
    of_entry : (o : Option CaptureIncident) → attempts_of o ≡ (or_default o).attempts
    of_entry none = refl
    of_entry (some s) = refl

-- With a clock that does not run backwards, a healthy check gives the whole budget back exactly
-- when the healthy checks of its generation in a row, it included, span `clean_refill` or more;
-- otherwise what was spent stays. A pause, an attempt or another generation ends the row.
pub refund_iff :
    (w : StallWatch) (name : String) (i : NodeIdentity) (now : ℕ) (h : List Check)
    → IsFalling now h
    → spent (after w name (healthy i now ∷ h)) name
      ≡ (if leb w.clean_refill (now - run_start i now h) then 0 else spent (after w name h) name)
unfolding after
refund_iff w name i now h f = rw (
  spent-entry (record_recovered (after w name h) name i now) name,
  entry-recovered (after w name h) name i now,
  attempts-recovered (after w name h).clean_refill (entry (after w name h) name) i now,
  since-after w name i now h f,
  clean_refill-after w name h,
  spent-entry (after w name h) name,
)

-- `now - since` never underflows: the remembered start is not after the check.
pub clean_since-le :
    (clean : Option (NodeIdentity × ℕ)) (i : NodeIdentity) (now : ℕ) → clean_since clean i now ≤ now
unfolding clean_since
clean_since-le none i now = omega arith
clean_since-le (some (g, since)) i now = ground arith
