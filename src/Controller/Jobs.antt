-- ===== src/Controller/Jobs.antt =====
-- crates/openwave-runtime/src/controller/state.rs: the jobs of a device, and what their ends do to the
-- commands.
use openwave.Prelude.{
  ℕ, ◌+◌, String, Bool, true, false, not, Option, none, some, List, [], ◌∷◌, ◌==◌, any,
  nat_instance, string_instance, if◌then◌else◌,
}
use openwave.Prelude.Dict.{get, insert, remove, modify}
use openwave.Prelude.Decimal.{u64_max}
use openwave.Model.{unavailable, OperationError, Result, ok, err, fail}
use openwave.Protocol.{DeviceSetting}
use openwave.Protocol.Units.{UnitId}
use openwave.Controller.Keys.{key_instance}
use openwave.Controller.Requests.{DeviceJob, Requests, is_empty, with_job, without_job}
use openwave.Controller.Steps.{finish_if_ready, operation_failure, intend}

module _ {F P : Type 0} where
  abbrev pub remember : ℕ → UnitId → List (DeviceSetting F) → Requests F P → Requests F P
  remember id unit [] s = s
  remember id unit (setting ∷ settings) s = remember id unit settings (intend id unit setting s)

  abbrev pub own_job : Option ℕ → ℕ → UnitId → List (DeviceSetting F) → Requests F P → Requests F P
  own_job none job unit settings s = s
  own_job (some id) job unit settings s =
      remember id unit settings (record s { requests = modify id (with_job job) s.requests })

  -- The entry of a job, once the backend has taken it.
  abbrev pub enter :
      Option ℕ
      → UnitId
      → List (DeviceSetting F)
      → List (String × String × String)
      → Bool
      → Requests F P
      → Requests F P
  enter owner unit settings opened dispatched s =
      let job : DeviceJob F = record {
        owner = owner;
        unit = unit;
        settings = settings;
        dispatched = dispatched;
        open_sources = opened;
      } in
      own_job owner s.next_job unit settings
        (record s { next_job = s.next_job + 1; jobs = insert s.next_job job s.jobs })

  abbrev pub dispatch_job :
      Option ℕ
      → UnitId
      → List (DeviceSetting F)
      → List (String × String × String)
      → Bool
      → Result (Unit {0})
      → Requests F P
      → Result (Unit {0}) × Requests F P
  dispatch_job owner unit settings opened false answer s =
      (ok tt, enter owner unit settings opened false s)
  dispatch_job owner unit settings opened true (ok u) s =
      (ok tt, enter owner unit settings opened true s)
  dispatch_job owner unit settings opened true (err e) s =
      (err e, record s { next_job = s.next_job + 1 })

  -- The end of `queue_device`: the settings are valid, `opened` are the sources that the job opens,
  -- `waits` tells which groups have a handover, and `dispatch` is the answer of the backend.
  unfoldable pub queue_job :
      Option ℕ
      → UnitId
      → List (DeviceSetting F)
      → List (String × String × String)
      → (String → Bool)
      → Result (Unit {0})
      → Requests F P
      → Result (Unit {0}) × Requests F P
  queue_job owner unit settings opened waits dispatch s =
      if is_empty settings
      then (ok tt, s)
      else if s.next_job == u64_max
      then (fail unavailable "Device job space exhausted", s)
      else dispatch_job owner unit settings opened (not (any (λ o. waits o.2) opened)) dispatch s

  abbrev pub release : Option ℕ → ℕ → Requests F P → Requests F P
  release none job s = s
  release (some id) job s =
      finish_if_ready id (record s { requests = modify id (without_job job) s.requests })

  -- `DeviceFinished`: a job that was not dispatched, or is not known, is ignored. `failure` is the
  -- target and the error, where the unit is not the job's or the worker failed.
  abbrev pub job_done :
      ℕ → Option (String × OperationError) → Option (DeviceJob F) → Requests F P → Requests F P
  job_done job failure none s = s
  job_done job none (some owned) s =
      if not owned.dispatched
      then s
      else release owned.owner job (record s { jobs = remove job s.jobs })
  job_done job (some (target, e)) (some owned) s =
      if not owned.dispatched
      then s
      else release owned.owner job
          (operation_failure owned.owner target e (record s { jobs = remove job s.jobs }))

  unfoldable pub device_finished :
      ℕ → Option (String × OperationError) → Requests F P → Requests F P
  unfolding finish_if_ready operation_failure
  device_finished job failure s = job_done job failure (get job s.jobs) s
