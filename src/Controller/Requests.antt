-- ===== src/Controller/Requests.antt =====
-- crates/openwave-runtime/src/controller.rs and controller/state.rs: the commands, what is kept of
-- the accepted ones, and what a finished one reports.
use openwave.Prelude.{
  ℕ, String, Bool, true, false, not, ◌&&◌, ◌||◌, Option, none, some, List, [], ◌∷◌, ◌++◌, ◌==◌, any,
  nat_instance, string_instance, if◌then◌else◌,
}
use openwave.Prelude.Dict.{Dict, contains, discard}
use Prim.Native.String.{◌++◌ as append}
use openwave.Model.{
  ErrorCode, cancelled, invalid, unsupported, unavailable, busy, io, corrupt_store, identity,
  frozen, OperationError,
}
use openwave.Snapshots.{OperationIssue}
use openwave.Protocol.{DeviceSetting}
use openwave.Protocol.Units.{UnitId}
use openwave.Controller.Keys.{PendingKey, key_instance}

-- `P` stands for the contents of the commands that these functions do not tell apart.
pub data AppCommand (F P : Type 0) : Type 0 where
  shutdown prepare_uninstall confirm_uninstall : AppCommand F P
  set_device_setting : UnitId → DeviceSetting F → AppCommand F P
  other : P → AppCommand F P

pub data CommandOutcome : Type 0 where
  applied : ℕ → CommandOutcome
  scene_finished : ℕ → List OperationIssue → List OperationIssue → CommandOutcome
  rejected : OperationError → CommandOutcome
  cancelled_command : CommandOutcome

pub data SubmitError : Type 0 where
  frozen_admission exhausted unavailable_controller : SubmitError

-- `Result<CommandId, SubmitError>`
pub data Submitted : Type 0 where
  admitted : ℕ → Submitted
  refused : SubmitError → Submitted

pub record RequestCompletion : Type 0 where
  pub scene : Bool
  pub waiting : Bool
  pub cancelled : Bool
  pub remaining : List ℕ
  pub skipped : List OperationIssue
  pub failed : List OperationIssue
  pub first_error : Option OperationError

abbrev pub new_request : RequestCompletion
new_request = record {
  scene = false;
  waiting = false;
  cancelled = false;
  remaining = [];
  skipped = [];
  failed = [];
  first_error = none;
}

-- `open_sources` are the id, the node and the group of each source that the job opens.
pub record DeviceJob (F : Type 0) : Type 0 where
  pub owner : Option ℕ
  pub unit : UnitId
  pub settings : List (DeviceSetting F)
  pub dispatched : Bool
  pub open_sources : List (String × String × String)

pub record PendingEdit (F P : Type 0) : Type 0 where
  pub due : ℕ
  pub id : ℕ
  pub command : AppCommand F P

-- The commands of the controller. `queue` is the channel of the handle, the first to come first;
-- `completed` are the events that were sent, the latest first; `held` are the owners of the captures
-- that wait for a handover. `stopped` is the controller's flag, which ends its loop; `closed` is
-- `Admission::stopped`, which is set when the loop has ended.
pub record Requests (F P : Type 0) : Type 0 where
  pub next_command : ℕ  -- u64
  pub accepting : Bool
  pub frozen : Bool
  pub stopped : Bool
  pub closed : Bool
  pub receiving : Bool
  pub queue : List (ℕ × AppCommand F P)
  pub accepted : List ℕ
  pub requests : Dict ℕ RequestCompletion
  pub pending : Dict PendingKey (PendingEdit F P)
  pub jobs : Dict ℕ (DeviceJob F)
  pub next_job : ℕ  -- u64
  pub intents : Dict PendingKey (ℕ × DeviceSetting F)
  pub held : Dict String (Option ℕ)
  pub errors : List OperationIssue
  pub revision : ℕ  -- u64
  pub completed : List (ℕ × CommandOutcome)

abbrev pub is_exit : {F P : Type 0} → AppCommand F P → Bool
is_exit shutdown = true
is_exit prepare_uninstall = true
is_exit confirm_uninstall = true
is_exit (set_device_setting unit setting) = false
is_exit (other p) = false

abbrev pub set_issue : OperationIssue → List OperationIssue → List OperationIssue
set_issue new [] = new ∷ []
set_issue new (old ∷ issues) =
    if old.target == new.target then new ∷ issues else old ∷ set_issue new issues

abbrev is_cancelled : ErrorCode → Bool
is_cancelled cancelled = true
is_cancelled invalid = false
is_cancelled unsupported = false
is_cancelled unavailable = false
is_cancelled busy = false
is_cancelled io = false
is_cancelled corrupt_store = false
is_cancelled identity = false
is_cancelled frozen = false

abbrev first : Option OperationError → OperationError → Option OperationError
first none e = some e
first (some before) e = some before

abbrev pub failed_with : String → OperationError → RequestCompletion → RequestCompletion
failed_with target e r = record r {
  cancelled = r.cancelled || is_cancelled e.code;
  first_error = first r.first_error e;
  failed = r.failed ++ record { target = target; message = e.message } ∷ [];
}

abbrev joined : List OperationIssue → String
joined [] = ""
joined (i ∷ []) = append i.target (append ": " i.message)
joined (i ∷ j ∷ issues) =
    append i.target (append ": " (append i.message (append "\n" (joined (j ∷ issues)))))

abbrev code_of : Option OperationError → ErrorCode
code_of none = unavailable
code_of (some e) = e.code

abbrev pub is_empty {ℓ} : {A : Type ℓ} → List A → Bool
is_empty [] = true
is_empty (a ∷ l) = false

-- What `finish_if_ready` reports of a request.
unfoldable pub outcome_of : ℕ → RequestCompletion → CommandOutcome
outcome_of revision r =
    if r.scene
    then scene_finished revision r.skipped r.failed
    else if r.cancelled
    then cancelled_command
    else if not (is_empty r.failed)
    then rejected (record { code = code_of r.first_error; message = joined r.failed })
    else applied revision

abbrev pub owned_by : ℕ → String × Option ℕ → Bool
owned_by id (node, none) = false
owned_by id (node, some owner) = owner == id

abbrev pub is_ready : ℕ → Dict String (Option ℕ) → RequestCompletion → Bool
is_ready id held r = not r.waiting && is_empty r.remaining && not (any (owned_by id) held)

abbrev pub with_job : ℕ → RequestCompletion → RequestCompletion
with_job job r = record r {
  remaining = if contains job r.remaining then r.remaining else job ∷ r.remaining;
}

abbrev pub without_job : ℕ → RequestCompletion → RequestCompletion
without_job job r = record r { remaining = discard job r.remaining }

abbrev pub set_waiting : Bool → RequestCompletion → RequestCompletion
set_waiting waiting r = record r { waiting = waiting }

-- What `apply_scene` does to its request.
abbrev pub mark_scene : RequestCompletion → RequestCompletion
mark_scene r = record r { scene = true }

-- What `shutdown` does to an unfinished request.
abbrev pub drop_targets : RequestCompletion → RequestCompletion
drop_targets r = record r {
  failed =
      r.failed
      ++ record { target = "shutdown"; message = "Unfinished scene targets were cancelled" } ∷ [];
  remaining = [];
  waiting = false;
}

abbrev pub is_scene : Option RequestCompletion → Bool
is_scene none = false
is_scene (some r) = r.scene
