-- ===== src/Health/Glitch/Streaks.antt =====
-- `GlitchWatch` against the history of a capture's counters, newest first.
use openwave.Prelude.{
  ℕ, suc, ◌-◌, ◌≤◌, ◌<◌, min, String, Bool, true, false, ◌&&◌, Option, none, some, ◌≡◌, refl, ◌∙◌,
  inl, inr, List, [], ◌∷◌, arith, ◌==◌, leb, if◌then◌else◌, string_instance, nat_instance, beq_refl,
  Bool-cases,
}
use openwave.Prelude.Dict.{get, get-insert, get-remove}
use openwave.Prelude.Word.{u32_max}
use openwave.Model.{NodeIdentity, identity_instance, identity_eq_iff}
use openwave.Health.Glitch.{
  GlitchState, GlitchWatch, pause, observed, observe, glitching, just_confirmed, last_delta,
}

-- Two counters of one generation, the older one not above the newer one.
abbrev pub continues : NodeIdentity × ℕ → NodeIdentity × ℕ → Bool
continues (i, x) (j, y) = (j == i) && leb y x

-- How many of the latest checks in a row rose by the threshold or more.
abbrev pub over_run : ℕ → List (NodeIdentity × ℕ) → ℕ
over_run threshold [] = 0
over_run threshold (c ∷ []) = 0
over_run threshold (c ∷ d ∷ older) =
    let rest = suc (over_run threshold (d ∷ older)) in
    if continues c d && leb threshold (c.1 - d.1) then rest else 0

abbrev pub latest_rise : List (NodeIdentity × ℕ) → Option ℕ
latest_rise [] = none
latest_rise (c ∷ []) = none
latest_rise (c ∷ d ∷ older) = if continues c d then some (c.1 - d.1) else none

-- The watch after a history that begins at a paused name.
unfoldable pub after : GlitchWatch → String → List (NodeIdentity × ℕ) → GlitchWatch
after w name [] = pause w name
after w name (c ∷ older) = (observe (after w name older) name c.0 c.1).0

abbrev state_of : ℕ → List (NodeIdentity × ℕ) → Option GlitchState
state_of threshold [] = none
state_of threshold (c ∷ older) = some (record {
  identity = c.0;
  previous = c.1;
  streak = min (over_run threshold (c ∷ older)) u32_max;
  delta = latest_rise (c ∷ older);
})

threshold-after :
    (w : GlitchWatch) (name : String) (h : List (NodeIdentity × ℕ))
    → ((after w name h).threshold ≡ w.threshold) × ((after w name h).confirm ≡ w.confirm)
unfolding after pause observe
threshold-after w name [] = (refl, refl)
threshold-after w name (c ∷ older) = threshold-after w name older

observed-state_of :
    (t : ℕ) (c : NodeIdentity × ℕ) (h : List (NodeIdentity × ℕ))
    → some (observed t (state_of t h) c.0 c.1).0 ≡ state_of t (c ∷ h)
unfolding observed
observed-state_of t (i, x) [] = ground arith
observed-state_of t (i, x) ((j, y) ∷ older) = elim (Bool-cases (continues (i, x) (j, y))) [
  | inl same ↦ elim (Bool-cases (leb t (x - y))) [
    | inl over ↦ rw (same, over) (ground (arith, same_identity same))
    | inr calm ↦ rw (same, calm) (ground (arith, same_identity same))
  ]
  | inr fresh ↦ rw fresh (ground arith)
]
  where
    same_identity : continues (i, x) (j, y) ≡ true → j ≡ i
    same_identity h = ground (arith, identity_eq_iff j i)

get-after :
    (w : GlitchWatch) (name : String) (h : List (NodeIdentity × ℕ))
    → get name (after w name h).states ≡ state_of w.threshold h
unfolding after pause observe
get-after w name [] = get-remove name name w.states ∙ rw (beq_refl name)
get-after w name (c ∷ older) =
    get-insert name name _ (after w name older).states
    ∙ rw (beq_refl name, get-after w name older, (threshold-after w name older).0)
        (observed-state_of w.threshold c older)

-- After any history that begins at a paused name, with 1 ≤ confirm < u32::MAX: `glitching` holds
-- exactly when the latest `confirm` checks all stayed in one generation and rose by the threshold
-- or more; `just_confirmed` exactly when that run is `confirm` checks long; and `last_delta` is
-- the rise between the latest two checks of one generation.
pub glitch_reads :
    (w : GlitchWatch) (name : String) (h : List (NodeIdentity × ℕ))
    → 1 ≤ w.confirm
    → w.confirm < u32_max
    → (glitching (after w name h) name ≡ leb w.confirm (over_run w.threshold h))
      × (just_confirmed (after w name h) name ≡ (over_run w.threshold h == w.confirm))
      × (last_delta (after w name h) name ≡ latest_rise h)
unfolding glitching just_confirmed last_delta
glitch_reads w name [] lo hi = rw (get-after w name []) (ground arith, ground arith, refl)
glitch_reads w name (c ∷ older) lo hi =
    rw (get-after w name (c ∷ older), (threshold-after w name (c ∷ older)).1)
      (ground arith, ground arith, refl)

module _ (w : GlitchWatch) (name other : String) (apart : (name == other) ≡ false) where
  pub glitching-observe_other :
      (i : NodeIdentity) (x : ℕ) → glitching (observe w name i x).0 other ≡ glitching w other
  unfolding glitching observe
  glitching-observe_other i x = rw (get-insert other name _ w.states) (rw apart)

  pub glitching-pause_other : glitching (pause w name) other ≡ glitching w other
  unfolding glitching pause
  glitching-pause_other = rw (get-remove other name w.states) (rw apart)

-- The entries that `observe` and `pause` leave at their own name.
pub get-observe :
    (w : GlitchWatch) (name : String) (i : NodeIdentity) (x : ℕ)
    → get name (observe w name i x).0.states ≡ some (observed w.threshold (get name w.states) i x).0
unfolding observe
get-observe w name i x = get-insert name name _ w.states ∙ rw (beq_refl name)

pub get-pause : (w : GlitchWatch) (name : String) → get name (pause w name).states ≡ none
unfolding pause
get-pause w name = get-remove name name w.states ∙ rw (beq_refl name)
