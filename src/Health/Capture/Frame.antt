-- ===== src/Health/Capture/Frame.antt =====
-- What `CaptureWatch::observe` leaves alone: the budgets, and all that other names hold.
use openwave.Prelude.{
  ℕ, ◌≤◌, String, Bool, true, false, none, some, ◌≡◌, ◌∙◌, arith, ◌==◌, if◌then◌else◌,
  string_instance, Option-cases, inl, inr,
}
use openwave.Prelude.Dict.{get, get-insert, get-remove, contains, contains-add, contains-discard}
use openwave.Model.{NodeIdentity, Observation, known, unknown}
use openwave.Health.Glitch
use openwave.Health.Glitch.{GlitchWatch}
use openwave.Health.Stall
use openwave.Health.Stall.{StallWatch}
use openwave.Health.Stall.Budget.{
  spent-pause, spent-record_recovered, get-pause, get-record_recovered,
}
use openwave.Health.Capture.{
  CaptureSample, CaptureWatch, no_decision, pause, usable, observe_usable, observe, count_xruns,
  is_healthy, age_at_least, mark_no_data,
}

pub observe_unusable :
    (w : CaptureWatch) (name : String) (o : Observation CaptureSample) (now : ℕ)
    → usable o ≡ none
    → observe w name o now ≡ (pause w name, no_decision)
unfolding observe
observe_unusable w name o now u = rw (u, observe)

pub observe_used :
    (w : CaptureWatch) (name : String) (o : Observation CaptureSample) (s : CaptureSample) (now : ℕ)
    → usable o ≡ some s
    → observe w name o now ≡ observe_usable w name s now
unfolding observe
observe_used w name o s now u = rw (u, observe)

spent-budget :
    (b : StallWatch) (healthy : Bool) (name other : String) (i : NodeIdentity) (now : ℕ)
    → Stall.spent
        (if healthy then Stall.record_recovered b name i now else Stall.pause b name)
        other
      ≤ Stall.spent b other
spent-budget b true name other i now = spent-record_recovered b name other i now
spent-budget b false name other i now = omega (arith, spent-pause b name other)

-- No observation spends: it may only give back.
pub spent-observe :
    (w : CaptureWatch) (name other : String) (o : Observation CaptureSample) (now : ℕ)
    → Stall.spent (observe w name o now).0.budget other ≤ Stall.spent w.budget other
unfolding pause observe_usable
spent-observe w name other o now = elim (Option-cases (usable o)) [
  | inl u ↦ rw (observe_unusable w name o now u) (omega (arith, spent-pause w.budget name other))
  | inr (s, u) ↦ rw (observe_used w name o s now u) (
      spent-budget w.budget
        (is_healthy (count_xruns w.glitch name s.identity s.xruns) w.budget name s) name other
        s.identity now)
]

-- Two watches hold the same at a name.
pub record AgreeAt (name : String) (w v : CaptureWatch) : Type 0 where
  pub glitch : get name w.glitch.states ≡ get name v.glitch.states
  pub budget : get name w.budget.incidents ≡ get name v.budget.incidents
  pub mark : contains name w.no_data ≡ contains name v.no_data

pub AgreeAt-trans :
    (name : String) (u v w : CaptureWatch) → AgreeAt name u v → AgreeAt name v w → AgreeAt name u w
AgreeAt-trans name u v w p q = record {
  glitch = p.glitch ∙ q.glitch;
  budget = p.budget ∙ q.budget;
  mark = p.mark ∙ q.mark;
}

module _ (name other : String) (apart : (name == other) ≡ false) where
  get-glitch_other :
      (g : GlitchWatch) (i : NodeIdentity) (o : Observation ℕ)
      → get other (count_xruns g name i o).states ≡ get other g.states
  unfolding count_xruns Glitch.observe Glitch.pause
  get-glitch_other g i (known x) = get-insert other name _ g.states ∙ rw apart
  get-glitch_other g i (unknown e) = get-remove other name g.states ∙ rw apart

  get-budget_other :
      (b : StallWatch) (healthy : Bool) (i : NodeIdentity) (now : ℕ)
      → get other
          (if healthy then Stall.record_recovered b name i now else Stall.pause b name).incidents
        ≡ get other b.incidents
  get-budget_other b true i now = get-record_recovered b name other i now ∙ rw apart
  get-budget_other b false i now = get-pause b name other ∙ rw apart

  pub pause-AgreeAt : (w : CaptureWatch) → AgreeAt other (pause w name) w
  unfolding pause Glitch.pause
  pause-AgreeAt w = record {
    glitch = get-remove other name w.glitch.states ∙ rw apart;
    budget = get-pause w.budget name other ∙ rw apart;
    mark = contains-discard other name w.no_data ∙ rw apart;
  }

  marks_other :
      (b : Bool) (w : CaptureWatch)
      → contains other (mark_no_data b name w.no_data).0 ≡ contains other w.no_data
  marks_other true w = contains-add other name w.no_data ∙ rw apart
  marks_other false w = contains-discard other name w.no_data ∙ rw apart

  used-AgreeAt :
      (w : CaptureWatch) (s : CaptureSample) (now : ℕ)
      → AgreeAt other (observe_usable w name s now).0 w
  unfolding observe_usable
  used-AgreeAt w s now = record {
    glitch = get-glitch_other w.glitch s.identity s.xruns;
    budget =
        get-budget_other w.budget
          (is_healthy (count_xruns w.glitch name s.identity s.xruns) w.budget name s) s.identity
          now;
    mark = marks_other (age_at_least w.budget.stall_seconds s.byte_age) w;
  }

  -- An observation of one name leaves the others alone.
  pub observe-AgreeAt :
      (w : CaptureWatch) (o : Observation CaptureSample) (now : ℕ)
      → AgreeAt other (observe w name o now).0 w
  observe-AgreeAt w o now = elim (Option-cases (usable o)) [
    | inl u ↦ rw (observe_unusable w name o now u) (pause-AgreeAt w)
    | inr (s, u) ↦ rw (observe_used w name o s now u) (used-AgreeAt w s now)
  ]
