-- ===== src/Controller/Exit.antt =====
-- crates/openwave-runtime/src/controller/state.rs and state/mutations.rs: how the controller freezes
-- and ends.
use openwave.Prelude.{
  ℕ, String, Bool, true, false, not, ◌&&◌, ◌||◌, Option, none, some, List, [], ◌∷◌, ◌==◌, filter,
  nat_instance, string_instance, if◌then◌else◌,
}
use openwave.Prelude.Dict.{get, modify, keys}
use openwave.Model.{unavailable, Result, ok, err}
use openwave.Controller.Keys.{key_instance}
use openwave.Controller.Requests.{
  AppCommand, CommandOutcome, applied, rejected, cancelled_command, Requests, drop_targets,
  is_scene, is_empty,
}
use openwave.Controller.Steps.{finish, finish_if_ready, issue, cancel_pending}

module _ {F P : Type 0} where
  -- `freeze`, of the commands and of the captures that wait.
  unfoldable pub freeze : Requests F P → Requests F P
  unfolding cancel_pending
  freeze s =
      if s.frozen
      then s
      else cancel_pending (λ k. true) (record s { accepting = false; frozen = true; held = [] })

  unfoldable pub drain : ℕ → Requests F P → Requests F P
  unfolding finish finish_if_ready
  drain id s =
      if is_scene (get id s.requests)
      then finish_if_ready id (record s { requests = modify id drop_targets s.requests })
      else finish id cancelled_command s

  unfoldable pub drain_all : List ℕ → Requests F P → Requests F P
  unfolding drain
  drain_all [] s = s
  drain_all (id ∷ ids) s = drain_all ids (drain id s)

  -- The end of `shutdown`: `stopped` is the answer of the backend, `removed` what the removal of the
  -- application failed with.
  unfoldable pub conclude : ℕ → Result (Unit {0}) → Option String → Requests F P → Requests F P
  unfolding finish issue
  conclude id (err e) removed s =
      finish id (rejected (record { code = unavailable; message = e.message }))
        (issue "shutdown" e.message s)
  conclude id (ok u) (some message) s =
      finish id (rejected (record { code = unavailable; message = message }))
        (issue "uninstall" message s)
  conclude id (ok u) none s = finish id (applied s.revision) (record s { stopped = true })

  -- `shutdown`, from the answer of the backend on.
  unfoldable pub shut_down : ℕ → Result (Unit {0}) → Option String → Requests F P → Requests F P
  unfolding drain_all conclude
  shut_down id stopped removed s =
      conclude id stopped removed
        (drain_all (filter (λ pending. not (pending == id)) (keys s.requests)) s)

  abbrev pub cancel_queued :
      List (ℕ × AppCommand F P) → List (ℕ × CommandOutcome) → List (ℕ × CommandOutcome)
  cancel_queued [] done = done
  cancel_queued ((id, command) ∷ queue) done = cancel_queued queue ((id, cancelled_command) ∷ done)

  -- The loop of `run` ends where the controller is stopped, or where all handles are gone, which the
  -- channel tells only once it is empty.
  abbrev pub is_over : Bool → Requests F P → Bool
  is_over disconnected s = s.stopped || (disconnected && is_empty s.queue)

  -- The end of `run`: what is still in the channel is cancelled. A controller whose loop goes on is
  -- left as it is.
  unfoldable pub close : Bool → Requests F P → Requests F P
  close disconnected s =
      if is_over disconnected s
      then record s {
        accepting = false;
        closed = true;
        receiving = false;
        queue = [];
        completed = cancel_queued s.queue s.completed;
      }
      else s
