-- ===== src/Controller/Steps/Drained.antt =====
-- The ends of the device jobs and the end of the controller of
-- crates/openwave-runtime/src/controller/state.rs and state/mutations.rs keep every command at one
-- place.
use openwave.Prelude.{
  ℕ, Bool, true, false, not, List, [], ◌∷◌, ◌==◌, Option, none, some, String, arith, nat_instance,
  filter, any,
}
use openwave.Prelude.Dict.{keys, get, remove, modify}
use openwave.Prelude.Decimal.{u64_max}
use openwave.Model.{OperationError, Result, ok, err}
use openwave.Protocol.{DeviceSetting}
use openwave.Protocol.Units.{UnitId}
use openwave.Controller.Keys.{key_instance}
use openwave.Controller.Requests.{
  cancelled_command, DeviceJob, Requests, without_job, drop_targets, is_scene, is_empty,
}
use openwave.Controller.Steps.{issue, operation_failure}
use openwave.Controller.Jobs.{dispatch_job, queue_job, device_finished, release, job_done}
use openwave.Controller.Exit.{freeze, drain, drain_all, conclude, shut_down, is_over, close}
use openwave.Controller.Steps.Accounts.{IsOrderly}
use openwave.Prelude.{either}
use openwave.Controller.Steps.Counts.{count-cancel_queued}
use openwave.Controller.Steps.Once.{
  Keeps, Keeps-finish, Keeps-finish_if_ready, Keeps-operation_failure, Keeps-cancel_pending,
  modified, enter-IsOrderly,
}

module _ {F P : Type 0} where
  dispatch_job-IsOrderly :
      (owner : Option ℕ) (unit : UnitId) (settings : List (DeviceSetting F))
      (opened : List (String × String × String)) (dispatched : Bool) (answer : Result (Unit {0}))
      → Keeps {F = F} {P = P} (λ s. (dispatch_job owner unit settings opened dispatched answer s).1)
  dispatch_job-IsOrderly owner unit settings opened false answer = record {
    at = (enter-IsOrderly owner unit settings opened false).at;
  }
  dispatch_job-IsOrderly owner unit settings opened true (ok u) = record {
    at = (enter-IsOrderly owner unit settings opened true).at;
  }
  dispatch_job-IsOrderly owner unit settings opened true (err e) = record { at = λ issued s h. h }

  pub Keeps-queue_job :
      (owner : Option ℕ) (unit : UnitId) (settings : List (DeviceSetting F))
      (opened : List (String × String × String)) (waits : String → Bool)
      (answer : Result (Unit {0}))
      → Keeps {F = F} {P = P} (λ s. (queue_job owner unit settings opened waits answer s).1)
  unfolding queue_job
  Keeps-queue_job owner unit settings opened waits answer = record {
    at = λ issued s h.
        let Q : Result (Unit {0}) × Requests F P → Type 0 = λ p. IsOrderly issued p.1 in
        either Q (is_empty settings) (λ e. h)
          (λ e.
            either Q (s.next_job == u64_max) (λ f. h)
              (λ f.
                (dispatch_job-IsOrderly owner unit settings opened
                    (not (any (λ o. waits o.2) opened)) answer).at
                  issued s h));
  }

  release-IsOrderly : (owner : Option ℕ) (job : ℕ) → Keeps {F = F} {P = P} (release owner job)
  release-IsOrderly none job = record { at = λ issued s h. h }
  release-IsOrderly (some id) job = record {
    at = λ issued s h.
        (Keeps-finish_if_ready id).at issued
          (record s { requests = modify id (without_job job) s.requests })
          (modified id (without_job job) issued s h);
  }

  job_done-IsOrderly :
      (job : ℕ) (failure : Option (String × OperationError)) (known : Option (DeviceJob F))
      → Keeps {F = F} {P = P} (job_done job failure known)
  job_done-IsOrderly job none none = record { at = λ issued s h. h }
  job_done-IsOrderly job (some e) none = record { at = λ issued s h. h }
  job_done-IsOrderly job none (some owned) = record {
    at = λ issued s h.
        either (IsOrderly issued) (not owned.dispatched) (λ e. h)
          (λ e.
            (release-IsOrderly owned.owner job).at issued (record s { jobs = remove job s.jobs })
              h);
  }
  job_done-IsOrderly job (some (target, x)) (some owned) = record {
    at = λ issued s h.
        let s' : Requests F P = record s { jobs = remove job s.jobs } in
        either (IsOrderly issued) (not owned.dispatched) (λ e. h)
          (λ e.
            (release-IsOrderly owned.owner job).at issued
              (operation_failure owned.owner target x s')
              ((Keeps-operation_failure owned.owner target x).at issued s' h));
  }

  pub Keeps-device_finished :
      (job : ℕ) (failure : Option (String × OperationError))
      → Keeps {F = F} {P = P} (device_finished job failure)
  unfolding device_finished
  Keeps-device_finished job failure = record {
    at = λ issued s. (job_done-IsOrderly job failure (get job s.jobs)).at issued s;
  }

  pub Keeps-freeze : Keeps {F = F} {P = P} freeze
  unfolding freeze
  Keeps-freeze = record {
    at = λ issued s h.
        either (IsOrderly issued) s.frozen (λ e. h)
          (λ e.
            (Keeps-cancel_pending (λ k. true)).at issued
              (record s { accepting = false; frozen = true; held = [] }) h);
  }

  pub Keeps-drain : (id : ℕ) → Keeps {F = F} {P = P} (drain id)
  unfolding drain
  Keeps-drain id = record {
    at = λ issued s h.
        either (IsOrderly issued) (is_scene (get id s.requests))
          (λ e.
            (Keeps-finish_if_ready id).at issued
              (record s { requests = modify id drop_targets s.requests })
              (modified id drop_targets issued s h))
          (λ e. (Keeps-finish id cancelled_command).at issued s h);
  }

  pub Keeps-drain_all : (ids : List ℕ) → Keeps {F = F} {P = P} (drain_all ids)
  unfolding drain_all
  Keeps-drain_all [] = record { at = λ issued s h. h }
  Keeps-drain_all (id ∷ ids) = record {
    at =
        λ issued s h. (Keeps-drain_all ids).at issued (drain id s) ((Keeps-drain id).at issued s h);
  }

  pub Keeps-conclude :
      (id : ℕ) (stopped : Result (Unit {0})) (removed : Option String)
      → Keeps {F = F} {P = P} (conclude id stopped removed)
  unfolding conclude issue
  Keeps-conclude id (err e) removed = record {
    at = λ issued s. (Keeps-finish id _).at issued (issue "shutdown" e.message s);
  }
  Keeps-conclude id (ok u) (some message) = record {
    at = λ issued s. (Keeps-finish id _).at issued (issue "uninstall" message s);
  }
  Keeps-conclude id (ok u) none = record {
    at = λ issued s. (Keeps-finish id _).at issued (record s { stopped = true });
  }

  pub Keeps-shut_down :
      (id : ℕ) (stopped : Result (Unit {0})) (removed : Option String)
      → Keeps {F = F} {P = P} (shut_down id stopped removed)
  unfolding shut_down
  Keeps-shut_down id stopped removed = record {
    at = λ issued s h.
        (Keeps-conclude id stopped removed).at issued
          (drain_all (filter (λ pending. not (pending == id)) (keys s.requests)) s)
          ((Keeps-drain_all (filter (λ pending. not (pending == id)) (keys s.requests))).at issued s
            h);
  }

  pub Keeps-close : (disconnected : Bool) → Keeps {F = F} {P = P} (close disconnected)
  unfolding close
  Keeps-close disconnected = record {
    at = λ issued s h.
        either (IsOrderly issued) (is_over disconnected s)
          (λ e. record {
            placed = λ id. omega (arith, count-cancel_queued id s.queue s.completed, h.placed id);
            once = h.once;
            fresh = h.fresh;
            tracked = h.tracked;
          })
          (λ e. h);
  }
