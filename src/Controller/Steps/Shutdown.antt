-- ===== src/Controller/Steps/Shutdown.antt =====
-- The end of the controller (`shutdown` in crates/openwave-runtime/src/controller/state/mutations.rs)
-- leaves no command behind.
use openwave.Prelude.{
  ℕ, ◌+◌, ◌≡◌, refl, sym, ap, subst, ◌∙◌, Bool, Bool-cases, inl, inr, ◌||◌, true, false, not, ◌&&◌,
  List, [], ◌∷◌, ◌==◌, Option, none, some, String, if◌then◌else◌, arith, nat_eq_iff, nat_instance,
  filter,
}
use openwave.Prelude.Dict.{keys, get, modify, contains, contains-discard}
use openwave.Model.{Result, ok, err}
use openwave.Controller.Keys.{key_instance}
use openwave.Controller.Requests.{
  CommandOutcome, cancelled_command, RequestCompletion, Requests, drop_targets, is_scene, is_ready,
  outcome_of,
}
use openwave.Controller.Steps.{finish, finish_ready, finish_if_ready, issue}
use openwave.Controller.Exit.{drain, drain_all, conclude, shut_down, close}
use openwave.Prelude.{either}
use openwave.Controller.Steps.Counts.{count, count-cancel_queued, count-lacks}
use mathlib.Core.Option
use openwave.Prelude.{beq_refl}
use openwave.Prelude.Dict.{get-modify}
use openwave.Controller.Steps.Run.{Run, shut, Run-IsOrderly}

contains-filter :
    (j id : ℕ) (l : List ℕ)
    → contains j (filter (λ pending. not (pending == id)) l) ≡ (contains j l && not (id == j))
unfolding contains
contains-filter j id [] = refl
contains-filter j id (i ∷ l) =
    ground (arith, contains-filter j id l, nat_eq_iff i id, nat_eq_iff i j, nat_eq_iff id j)

-- Nothing failed.
abbrev pub succeeds : Result (Unit {0}) → Option String → Bool
succeeds (ok u) none = true
succeeds (ok u) (some message) = false
succeeds (err e) removed = false

module _ {F P : Type 0} where
  -- `t` is `s` without the command `id`.
  record Clears (id : ℕ) (s t : Requests F P) : Type 0 where
    accepted : (j : ℕ) → contains j t.accepted ≡ (if id == j then false else contains j s.accepted)
    held : t.held ≡ s.held
    stopped : t.stopped ≡ s.stopped

  Clears-finish :
      (id : ℕ) (outcome : CommandOutcome) (s : Requests F P) → Clears id s (finish id outcome s)
  unfolding finish
  Clears-finish id outcome s =
      either (Clears id s) (contains id s.accepted)
        (λ e. record {
          accepted = λ j. contains-discard j id s.accepted;
          held = refl;
          stopped = refl;
        })
        (λ e. record {
          accepted = λ j. ground (arith, e, nat_eq_iff id j);
          held = refl;
          stopped = refl;
        })

  Clears-finish_ready :
      (id : ℕ) (r : Option RequestCompletion) (s : Requests F P)
      → is_scene r ≡ true
      → s.held ≡ []
      → Clears id s (finish_ready id (Option.map drop_targets r) s)
  Clears-finish_ready id (some r) s e h =
      subst
        (λ b. Clears id s (if b then finish id (outcome_of s.revision (drop_targets r)) s else s))
        (sym (ap (λ held. is_ready id held (drop_targets r)) h)) (Clears-finish id _ s)
  Clears-finish_ready id none s e h = ground (arith, e)

  Clears-drain : (id : ℕ) (s : Requests F P) → s.held ≡ [] → Clears id s (drain id s)
  unfolding drain finish_if_ready
  Clears-drain id s h =
      either (Clears id s) (is_scene (get id s.requests))
        (λ e.
          let s' : Requests F P = record s { requests = modify id drop_targets s.requests } in
          let c = Clears-finish_ready id (get id s.requests) s' e h in
          subst (λ r. Clears id s (finish_ready id r s'))
            (sym (get-modify id id drop_targets s.requests ∙ rw (beq_refl id) refl))
            (record { accepted = c.accepted; held = c.held; stopped = c.stopped }))
        (λ e. Clears-finish id cancelled_command s)

  drain_all-accepted :
      (ids : List ℕ) (s : Requests F P)
      → s.held ≡ []
      → (j : ℕ)
      → contains j (drain_all ids s).accepted ≡ (contains j s.accepted && not (contains j ids))
  unfolding drain_all contains
  drain_all-accepted [] s h j = ground arith
  drain_all-accepted (id ∷ ids) s h j =
      let c = Clears-drain id s h in
      drain_all-accepted ids (drain id s) (c.held ∙ h) j ∙ ground (arith, c.accepted j)

  drain_all-stopped :
      (ids : List ℕ) (s : Requests F P) → s.held ≡ [] → (drain_all ids s).stopped ≡ s.stopped
  unfolding drain_all
  drain_all-stopped [] s h = refl
  drain_all-stopped (id ∷ ids) s h =
      let c = Clears-drain id s h in drain_all-stopped ids (drain id s) (c.held ∙ h) ∙ c.stopped

  -- The end of `shutdown` takes its own command out, and stops the controller where nothing failed.
  record Concludes (id : ℕ) (stops : Bool) (s t : Requests F P) : Type 0 where
    accepted : (j : ℕ) → contains j t.accepted ≡ (if id == j then false else contains j s.accepted)
    stopped : t.stopped ≡ (stops || s.stopped)

  conclude-Concludes :
      (id : ℕ) (stopped : Result (Unit {0})) (removed : Option String) (s : Requests F P)
      → Concludes id (succeeds stopped removed) s (conclude id stopped removed s)
  unfolding conclude issue
  conclude-Concludes id (err e) removed s =
      let c = Clears-finish id _ (issue "shutdown" e.message s) in
      record { accepted = c.accepted; stopped = c.stopped }
  conclude-Concludes id (ok u) (some message) s =
      let c = Clears-finish id _ (issue "uninstall" message s) in
      record { accepted = c.accepted; stopped = c.stopped }
  conclude-Concludes id (ok u) none s =
      let c = Clears-finish id _ (record s { stopped = true }) in
      record { accepted = c.accepted; stopped = c.stopped }

  shut_down-accepted :
      (id : ℕ) (stopped : Result (Unit {0})) (removed : Option String) (s : Requests F P)
      → ((j : ℕ) → contains j s.accepted ≡ true → contains j (keys s.requests) ≡ true)
      → s.held ≡ []
      → (j : ℕ) → contains j (shut_down id stopped removed s).accepted ≡ false
  unfolding shut_down
  shut_down-accepted id stopped removed s tracked h j =
      let others = filter (λ pending. not (pending == id)) (keys s.requests) in
      (conclude-Concludes id stopped removed (drain_all others s)).accepted j
      ∙ ground (
        arith,
        drain_all-accepted others s h j,
        contains-filter j id (keys s.requests),
        tracked j,
        nat_eq_iff id j,
      )

  shut_down-stopped :
      (id : ℕ) (stopped : Result (Unit {0})) (removed : Option String) (s : Requests F P)
      → s.held ≡ []
      → (shut_down id stopped removed s).stopped ≡ (succeeds stopped removed || s.stopped)
  unfolding shut_down
  shut_down-stopped id stopped removed s h =
      let others = filter (λ pending. not (pending == id)) (keys s.requests) in
      (conclude-Concludes id stopped removed (drain_all others s)).stopped
      ∙ ap (λ before. succeeds stopped removed || before) (drain_all-stopped others s h)

  close-completed :
      (t : Requests F P) (id : ℕ) (n : ℕ)
      → count id (keys t.queue) + count id (keys t.completed) ≡ n
      → count id (keys (close false t).completed)
        ≡ (if t.stopped then n else count id (keys t.completed))
  unfolding close
  close-completed t id n e = elim (Bool-cases t.stopped) [
    | inl stops ↦ rw stops (count-cancel_queued id t.queue t.completed ∙ e)
    | inr goes_on ↦ rw goes_on refl
  ]

  -- Where no capture is held, a shutdown leaves no command accepted: every command that was ever
  -- admitted is completed once or is still in the channel, the scenes and the commands that wait
  -- included, and also where the backend or the removal fails. It stops the controller exactly where
  -- nothing failed, or it was stopped before. As long as there are handles, the loop then ends exactly
  -- where the controller is stopped, and completes all that was admitted, none twice; where it is not
  -- stopped, the loop goes on and what is completed stays as it is.
  pub shut_down_completes :
      {issued : List ℕ} {s : Requests F P}
      → Run F P issued s
      → s.held ≡ []
      → (sid : ℕ) (stopped : Result (Unit {0})) (removed : Option String) (id : ℕ)
      → let t = shut_down sid stopped removed s in
        (count id t.accepted ≡ 0)
        × (count id (keys t.queue) + count id (keys t.completed) ≡ count id issued)
        × (t.stopped ≡ (succeeds stopped removed || s.stopped))
        × (count id (keys (close false t).completed)
            ≡ (if t.stopped then count id issued else count id (keys t.completed)))
  shut_down_completes {s} r h sid stopped removed id =
      let t = shut_down sid stopped removed s in
      let cleared : count id t.accepted ≡ 0 =
        count-lacks id t.accepted
          (shut_down-accepted sid stopped removed s (Run-IsOrderly r).tracked h id) in
      let placed = (Run-IsOrderly (shut sid stopped removed r)).placed id in
      let left : count id (keys t.queue) + count id (keys t.completed) ≡ count id _ =
        omega (arith, cleared, placed) in
      (cleared, left, shut_down-stopped sid stopped removed s h, close-completed t id _ left)
