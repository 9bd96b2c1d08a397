-- ===== src/Controller/Steps.antt =====
-- crates/openwave-runtime/src/controller.rs and controller/state.rs: how commands are admitted,
-- wait, fail and are completed. What a command does to the stores and the graph is left out, and so
-- is the view, which these functions only refresh.
pub mod Counts
pub mod Accounts
pub mod Once
pub mod Drained
pub mod Run
pub mod Shutdown
pub mod Examples
use openwave.Prelude.{
  ℕ, ◌+◌, String, Bool, true, false, not, ◌&&◌, ◌||◌, Option, none, some, List, [], ◌∷◌, ◌++◌, ◌==◌,
  filter, any, map, ltb, nat_instance, string_instance, if◌then◌else◌,
}
use openwave.Prelude.Dict.{Dict, get, insert, remove, modify, contains, discard, keys}
use openwave.Prelude.Decimal.{u64_max}
use Prim.Native.String.{◌++◌ as append}
use openwave.Model.{
  ErrorCode, cancelled, invalid, unsupported, unavailable, busy, io, corrupt_store, identity,
  frozen, OperationError, Result, ok, err, fail,
}
use openwave.Snapshots.{OperationIssue}
use openwave.Protocol.{DeviceSetting}
use openwave.Protocol.Units.{UnitId}
use openwave.Controller.Keys.{PendingKey, key_instance, device, SettingField, setting_field}
use openwave.Controller.Requests.{
  AppCommand, shutdown, prepare_uninstall, confirm_uninstall, set_device_setting, other,
  CommandOutcome, applied, scene_finished, rejected, cancelled_command, SubmitError,
  frozen_admission, exhausted, unavailable_controller, Submitted, admitted, refused,
  RequestCompletion, new_request, DeviceJob, PendingEdit, Requests, is_exit, set_issue, failed_with,
  is_empty, outcome_of, owned_by, is_ready, with_job, without_job, set_waiting, drop_targets,
  is_scene, mark_scene,
}

-- `retain` the intents of the other commands.
abbrev pub others :
    {F : Type 0} → ℕ → Dict PendingKey (ℕ × DeviceSetting F) → Dict PendingKey (ℕ × DeviceSetting F)
others id intents = filter (λ e. not (e.1.0 == id)) intents

module _ {F P : Type 0} where
  -- `RuntimeHandle::submit`: a number is drawn also where the channel is closed.
  unfoldable pub submit : AppCommand F P → Requests F P → Submitted × Requests F P
  submit command s =
      if s.closed
      then (refused unavailable_controller, s)
      else if not s.accepting && not (is_exit command)
      then (refused frozen_admission, s)
      else if s.next_command == u64_max
      then (refused exhausted, s)
      else if not s.receiving
      then (refused unavailable_controller, record s { next_command = s.next_command + 1 })
      else (
        admitted s.next_command,
        record s {
          next_command = s.next_command + 1;
          queue = s.queue ++ (s.next_command, command) ∷ [];
        },
      )

  -- `accept`, of the next command in the channel, up to `apply`.
  unfoldable pub accept : List (ℕ × AppCommand F P) → Requests F P → Requests F P
  accept [] s = s
  accept ((id, command) ∷ queue) s = record s {
    queue = queue;
    accepted = if contains id s.accepted then s.accepted else id ∷ s.accepted;
    requests = insert id new_request s.requests;
  }

  -- The scene command of an accepted request that `apply_scene` has begun.
  unfoldable pub begin_scene : ℕ → Requests F P → Requests F P
  begin_scene id s = record s { requests = modify id mark_scene s.requests }

  unfoldable pub finish : ℕ → CommandOutcome → Requests F P → Requests F P
  finish id outcome s =
      if contains id s.accepted
      then record s {
        accepted = discard id s.accepted;
        requests = remove id s.requests;
        intents = others id s.intents;
        completed = (id, outcome) ∷ s.completed;
      }
      else s

  abbrev pub finish_ready : ℕ → Option RequestCompletion → Requests F P → Requests F P
  finish_ready id none s = s
  finish_ready id (some r) s =
      if is_ready id s.held r then finish id (outcome_of s.revision r) s else s

  unfoldable pub finish_if_ready : ℕ → Requests F P → Requests F P
  unfolding finish outcome_of
  finish_if_ready id s = finish_ready id (get id s.requests) s

  unfoldable pub issue : String → String → Requests F P → Requests F P
  issue target message s = record s {
    errors = set_issue (record { target = target; message = message }) s.errors;
  }

  abbrev pub fail_owner : Option ℕ → String → OperationError → Requests F P → Requests F P
  fail_owner none target e s = s
  fail_owner (some id) target e s = record s {
    requests = modify id (failed_with target e) s.requests;
  }

  unfoldable pub operation_failure :
      Option ℕ → String → OperationError → Requests F P → Requests F P
  unfolding issue
  operation_failure owner target e s = fail_owner owner target e (issue target e.message s)

  unfoldable pub finish_all : List ℕ → CommandOutcome → Requests F P → Requests F P
  unfolding finish
  finish_all [] outcome s = s
  finish_all (id ∷ ids) outcome s = finish_all ids outcome (finish id outcome s)

  abbrev pub ids_of : Dict PendingKey (PendingEdit F P) → List ℕ
  ids_of [] = []
  ids_of ((key, edit) ∷ edits) = edit.id ∷ ids_of edits

  unfoldable pub cancel_pending : (PendingKey → Bool) → Requests F P → Requests F P
  unfolding finish_all
  cancel_pending predicate s =
      finish_all (ids_of (filter (λ e. predicate e.0) s.pending)) cancelled_command
        (record s { pending = filter (λ e. not (predicate e.0)) s.pending })

  abbrev pub finish_previous : Option (PendingEdit F P) → Requests F P → Requests F P
  finish_previous none s = s
  finish_previous (some edit) s = finish edit.id cancelled_command s

  abbrev pub intend : ℕ → UnitId → DeviceSetting F → Requests F P → Requests F P
  intend id unit setting s = record s {
    intents = insert (device unit (setting_field setting)) (id, setting) s.intents;
  }

  abbrev pub intend_deferred : ℕ → AppCommand F P → Requests F P → Requests F P
  intend_deferred id (set_device_setting unit setting) s = intend id unit setting s
  intend_deferred id shutdown s = s
  intend_deferred id prepare_uninstall s = s
  intend_deferred id confirm_uninstall s = s
  intend_deferred id (other p) s = s

  abbrev pub deferred : PendingKey → ℕ → AppCommand F P → ℕ → Requests F P → Requests F P
  deferred key id command due s =
      record (intend_deferred id command
        (record s { requests = modify id (set_waiting true) s.requests })) {
          pending = insert key (record { due = due; id = id; command = command }) s.pending;
        }

  -- `due` is the clock's reading and the delay.
  unfoldable pub defer : PendingKey → ℕ → AppCommand F P → ℕ → Requests F P → Requests F P
  unfolding finish
  defer key id command due s = finish_previous (get key s.pending) (deferred key id command due s)

  abbrev pub start_edit : PendingKey → Option (PendingEdit F P) → Requests F P → Requests F P
  start_edit key none s = s
  start_edit key (some edit) s = record s {
    requests = modify edit.id (set_waiting false) s.requests;
    pending = remove key s.pending;
  }

  -- A pending edit whose time has come is taken out before it is applied.
  unfoldable pub take_due : PendingKey → Requests F P → Requests F P
  take_due key s = start_edit key (get key s.pending) s
