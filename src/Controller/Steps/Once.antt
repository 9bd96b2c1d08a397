-- ===== src/Controller/Steps/Once.antt =====
-- Every command that the controller (crates/openwave-runtime/src/controller/state.rs) admits is at
-- one place, whatever happens.
use openwave.Prelude.{
  ℕ, ◌≡◌, sym, subst, Bool, true, false, not, ◌&&◌, List, [], ◌∷◌, ◌==◌, Option, none, some, String,
  nat_instance, filter,
}
use openwave.Prelude.Dict.{keys, get, modify, contains}
use openwave.Prelude.Decimal.{u64_max}
use openwave.Model.{OperationError}
use openwave.Protocol.{DeviceSetting}
use openwave.Protocol.Units.{UnitId}
use openwave.Controller.Keys.{PendingKey, key_instance}
use openwave.Controller.Requests.{
  AppCommand, CommandOutcome, cancelled_command, Submitted, RequestCompletion, new_request,
  PendingEdit, Requests, is_exit, shutdown, prepare_uninstall, confirm_uninstall, other,
  set_device_setting, set_waiting, with_job, is_ready, outcome_of, failed_with, mark_scene,
}
use openwave.Controller.Steps.{
  submit, accept, begin_scene, finish, finish_ready, finish_if_ready, issue, operation_failure,
  finish_all, cancel_pending, defer, take_due, ids_of, deferred, finish_previous, start_edit,
  intend,
}
use openwave.Controller.Jobs.{remember, enter}
use openwave.Controller.Steps.Counts.{keys-append, keys-modify, contains-insert, contains-remove}
use openwave.Controller.Steps.Accounts.{
  IsAccounted, IsOrderly, issue_number, spent, drawn, completes, requeued, takes,
}
use openwave.Prelude.{either}

module _ {F P : Type 0} where
  pub submit-IsOrderly :
      (command : AppCommand F P) (issued : List ℕ) (s : Requests F P)
      → IsOrderly issued s
      → IsOrderly (issue_number (submit command s).0 issued) (submit command s).1
  unfolding submit
  submit-IsOrderly command issued s h =
      let Q : Submitted × Requests F P → Type 0 = λ p. IsOrderly (issue_number p.0 issued) p.1 in
      either Q s.closed (λ e. h)
        (λ e.
          either Q (not s.accepting && not (is_exit command)) (λ f. h)
            (λ f.
              either Q (s.next_command == u64_max) (λ g. h)
                (λ g.
                  either Q (not s.receiving) (λ r. spent h)
                    (λ r.
                      requeued (sym (keys-append s.queue ((s.next_command, command) ∷ [])))
                        (drawn h)))))

  pub accept-IsOrderly :
      (queue : List (ℕ × AppCommand F P)) (issued : List ℕ) (s : Requests F P)
      → s.queue ≡ queue
      → IsOrderly issued s
      → IsOrderly issued (accept queue s)
  unfolding accept
  accept-IsOrderly [] issued s e h = h
  accept-IsOrderly ((id, command) ∷ queue) issued s e h =
      takes id _ (λ j. contains-insert j id new_request s.requests)
        (subst
          (λ q.
            IsAccounted issued s.next_command (keys q) s.accepted (keys s.requests)
              (keys s.completed))
          e h)

  -- What leaves every admitted command at one place.
  pub record Keeps (f : Requests F P → Requests F P) : Type 0 where
    pub at : (issued : List ℕ) (s : Requests F P) → IsOrderly issued s → IsOrderly issued (f s)

  pub Keeps-finish : (id : ℕ) (outcome : CommandOutcome) → Keeps (finish id outcome)
  unfolding finish
  Keeps-finish id outcome = record {
    at = λ issued s h.
        either (IsOrderly issued) (contains id s.accepted)
          (completes h id _ (λ j. contains-remove j id s.requests)) (λ e. h);
  }

  -- A change of a request that stays in the table.
  pub modified :
      (id : ℕ) (f : RequestCompletion → RequestCompletion) (issued : List ℕ) (s : Requests F P)
      → IsOrderly issued s
      → IsOrderly issued (record s { requests = modify id f s.requests })
  modified id f issued s h =
      subst (λ r. IsAccounted issued s.next_command (keys s.queue) s.accepted r (keys s.completed))
        (sym (keys-modify id f s.requests)) h

  pub Keeps-begin_scene : (id : ℕ) → Keeps (begin_scene id)
  unfolding begin_scene
  Keeps-begin_scene id = record { at = modified id mark_scene }

  finish_ready-IsOrderly : (id : ℕ) (r : Option RequestCompletion) → Keeps (finish_ready id r)
  finish_ready-IsOrderly id none = record { at = λ issued s h. h }
  finish_ready-IsOrderly id (some r) = record {
    at = λ issued s h.
        either (IsOrderly issued) (is_ready id s.held r)
          (λ e. (Keeps-finish id (outcome_of s.revision r)).at issued s h) (λ e. h);
  }

  pub Keeps-finish_if_ready : (id : ℕ) → Keeps (finish_if_ready id)
  unfolding finish_if_ready
  Keeps-finish_if_ready id = record {
    at = λ issued s. (finish_ready-IsOrderly id (get id s.requests)).at issued s;
  }

  pub Keeps-operation_failure :
      (owner : Option ℕ) (target : String) (e : OperationError)
      → Keeps (operation_failure owner target e)
  unfolding operation_failure issue
  Keeps-operation_failure none target e = record { at = λ issued s h. h }
  Keeps-operation_failure (some id) target e = record {
    at = λ issued s h. modified id (failed_with target e) issued (issue target e.message s) h;
  }

  pub Keeps-finish_all : (ids : List ℕ) (outcome : CommandOutcome) → Keeps (finish_all ids outcome)
  unfolding finish_all
  Keeps-finish_all [] outcome = record { at = λ issued s h. h }
  Keeps-finish_all (id ∷ ids) outcome = record {
    at = λ issued s h.
        (Keeps-finish_all ids outcome).at issued _ ((Keeps-finish id outcome).at issued s h);
  }

  pub Keeps-cancel_pending : (predicate : PendingKey → Bool) → Keeps (cancel_pending predicate)
  unfolding cancel_pending
  Keeps-cancel_pending predicate = record {
    at = λ issued s.
        (Keeps-finish_all (ids_of (filter (λ e. predicate e.0) s.pending)) cancelled_command).at
          issued (record s { pending = filter (λ e. not (predicate e.0)) s.pending });
  }

  deferred-IsOrderly :
      (key : PendingKey) (id : ℕ) (command : AppCommand F P) (due : ℕ)
      → Keeps (deferred key id command due)
  deferred-IsOrderly key id (set_device_setting unit setting) due = record {
    at = modified id (set_waiting true);
  }
  deferred-IsOrderly key id shutdown due = record { at = modified id (set_waiting true) }
  deferred-IsOrderly key id prepare_uninstall due = record { at = modified id (set_waiting true) }
  deferred-IsOrderly key id confirm_uninstall due = record { at = modified id (set_waiting true) }
  deferred-IsOrderly key id (other p) due = record { at = modified id (set_waiting true) }

  finish_previous-IsOrderly : (edit : Option (PendingEdit F P)) → Keeps (finish_previous edit)
  finish_previous-IsOrderly none = record { at = λ issued s h. h }
  finish_previous-IsOrderly (some edit) = Keeps-finish edit.id cancelled_command

  pub Keeps-defer :
      (key : PendingKey) (id : ℕ) (command : AppCommand F P) (due : ℕ)
      → Keeps (defer key id command due)
  unfolding defer
  Keeps-defer key id command due = record {
    at = λ issued s h.
        (finish_previous-IsOrderly (get key s.pending)).at issued (deferred key id command due s)
          ((deferred-IsOrderly key id command due).at issued s h);
  }

  start_edit-IsOrderly :
      (key : PendingKey) (edit : Option (PendingEdit F P)) → Keeps (start_edit key edit)
  start_edit-IsOrderly key none = record { at = λ issued s h. h }
  start_edit-IsOrderly key (some edit) = record { at = modified edit.id (set_waiting false) }

  pub Keeps-take_due : (key : PendingKey) → Keeps (take_due key)
  unfolding take_due
  Keeps-take_due key = record {
    at = λ issued s. (start_edit-IsOrderly key (get key s.pending)).at issued s;
  }

  remember-IsOrderly :
      (id : ℕ) (unit : UnitId) (settings : List (DeviceSetting F))
      → Keeps (remember id unit settings)
  remember-IsOrderly id unit [] = record { at = λ issued s h. h }
  remember-IsOrderly id unit (setting ∷ settings) = record {
    at = λ issued s h. (remember-IsOrderly id unit settings).at issued (intend id unit setting s) h;
  }

  pub enter-IsOrderly :
      (owner : Option ℕ) (unit : UnitId) (settings : List (DeviceSetting F))
      (opened : List (String × String × String)) (dispatched : Bool)
      → Keeps (enter owner unit settings opened dispatched)
  enter-IsOrderly none unit settings opened dispatched = record { at = λ issued s h. h }
  enter-IsOrderly (some id) unit settings opened dispatched = record {
    at = λ issued s h.
        (remember-IsOrderly id unit settings).at issued _
          (modified id (with_job s.next_job) issued s h);
  }
