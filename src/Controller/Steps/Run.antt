-- ===== src/Controller/Steps/Run.antt =====
-- Any sequence of the operations of crates/openwave-runtime/src/controller/state.rs on the commands.
use openwave.Prelude.{
  ℕ, ◌+◌, ◌≤◌, ◌≡◌, refl, Bool, true, false, List, [], Option, String, arith, nat_instance,
}
use openwave.Prelude.Dict.{Dict, keys}
use openwave.Model.{OperationError, Result}
use openwave.Protocol.{DeviceSetting}
use openwave.Protocol.Units.{UnitId}
use openwave.Controller.Keys.{PendingKey, key_instance}
use openwave.Controller.Requests.{AppCommand, CommandOutcome, Requests}
use openwave.Controller.Steps.{
  submit, accept, begin_scene, finish, finish_if_ready, operation_failure, cancel_pending, defer,
  take_due,
}
use openwave.Controller.Jobs.{queue_job, device_finished}
use openwave.Controller.Exit.{freeze, shut_down, close}
use openwave.Controller.Steps.Accounts.{IsOrderly, issue_number}
use openwave.Controller.Steps.Counts.{count}
use openwave.Controller.Steps.Once.{
  submit-IsOrderly, accept-IsOrderly, Keeps-defer, Keeps-take_due, Keeps-begin_scene, Keeps-finish,
  Keeps-finish_if_ready, Keeps-operation_failure, Keeps-cancel_pending,
}
use openwave.Controller.Steps.Drained.{
  Keeps-queue_job, Keeps-device_finished, Keeps-freeze, Keeps-shut_down, Keeps-close,
}

abbrev pub idle : (F P : Type 0) → Requests F P
idle F P = record {
  next_command = 1;
  accepting = true;
  frozen = false;
  stopped = false;
  closed = false;
  receiving = true;
  queue = [];
  accepted = [];
  requests = [];
  pending = [];
  jobs = [];
  next_job = 1;
  intents = [];
  held = [];
  errors = [];
  revision = 0;
  completed = [];
}

-- The numbers that `submit` gave, the latest first, and the state after the operations. `holds` and
-- `revised` stand for what the applied commands do outside the requests.
pub data Run (F P : Type 0) : List ℕ → Requests F P → Type 0 where
  start : Run F P [] (idle F P)
  submitted :
      {issued : List ℕ} {s : Requests F P} (command : AppCommand F P)
      → Run F P issued s
      → Run F P (issue_number (submit command s).0 issued) (submit command s).1
  taken :
      {issued : List ℕ} {s : Requests F P} → Run F P issued s → Run F P issued (accept s.queue s)
  holds :
      {issued : List ℕ} {s : Requests F P} (held : Dict String (Option ℕ))
      → Run F P issued s
      → Run F P issued (record s { held = held })
  revised :
      {issued : List ℕ} {s : Requests F P} (revision : ℕ)
      → Run F P issued s
      → Run F P issued (record s { revision = revision })
  began_scene :
      {issued : List ℕ} {s : Requests F P} (id : ℕ)
      → Run F P issued s
      → Run F P issued (begin_scene id s)
  finished :
      {issued : List ℕ} {s : Requests F P} (id : ℕ) (outcome : CommandOutcome)
      → Run F P issued s
      → Run F P issued (finish id outcome s)
  settled :
      {issued : List ℕ} {s : Requests F P} (id : ℕ)
      → Run F P issued s
      → Run F P issued (finish_if_ready id s)
  failed_operation :
      {issued : List ℕ} {s : Requests F P} (owner : Option ℕ) (target : String) (e : OperationError)
      → Run F P issued s
      → Run F P issued (operation_failure owner target e s)
  deferred_edit :
      {issued : List ℕ} {s : Requests F P} (key : PendingKey) (id : ℕ) (command : AppCommand F P)
      (due : ℕ)
      → Run F P issued s
      → Run F P issued (defer key id command due s)
  came_due :
      {issued : List ℕ} {s : Requests F P} (key : PendingKey)
      → Run F P issued s
      → Run F P issued (take_due key s)
  cancelled_edits :
      {issued : List ℕ} {s : Requests F P} (predicate : PendingKey → Bool)
      → Run F P issued s
      → Run F P issued (cancel_pending predicate s)
  queued_job :
      {issued : List ℕ} {s : Requests F P} (owner : Option ℕ) (unit : UnitId)
      (settings : List (DeviceSetting F)) (opened : List (String × String × String))
      (waits : String → Bool) (answer : Result (Unit {0}))
      → Run F P issued s
      → Run F P issued (queue_job owner unit settings opened waits answer s).1
  finished_job :
      {issued : List ℕ} {s : Requests F P} (job : ℕ) (failure : Option (String × OperationError))
      → Run F P issued s
      → Run F P issued (device_finished job failure s)
  froze : {issued : List ℕ} {s : Requests F P} → Run F P issued s → Run F P issued (freeze s)
  shut :
      {issued : List ℕ} {s : Requests F P} (id : ℕ) (stopped : Result (Unit {0}))
      (removed : Option String)
      → Run F P issued s
      → Run F P issued (shut_down id stopped removed s)
  ended :
      {issued : List ℕ} {s : Requests F P} (disconnected : Bool)
      → Run F P issued s
      → Run F P issued (close disconnected s)

module _ {F P : Type 0} where
  pub Run-IsOrderly : {issued : List ℕ} {s : Requests F P} → Run F P issued s → IsOrderly issued s
  Run-IsOrderly start = record {
    placed = λ id. refl;
    once = λ id. omega arith;
    fresh = λ id h. refl;
    tracked = λ id e. e;
  }
  Run-IsOrderly (submitted {s} command r) = submit-IsOrderly command _ s (Run-IsOrderly r)
  Run-IsOrderly (taken {s} r) = accept-IsOrderly s.queue _ s refl (Run-IsOrderly r)
  Run-IsOrderly (holds held r) = Run-IsOrderly r
  Run-IsOrderly (revised revision r) = Run-IsOrderly r
  Run-IsOrderly (began_scene {s} id r) = (Keeps-begin_scene id).at _ s (Run-IsOrderly r)
  Run-IsOrderly (finished {s} id outcome r) = (Keeps-finish id outcome).at _ s (Run-IsOrderly r)
  Run-IsOrderly (settled {s} id r) = (Keeps-finish_if_ready id).at _ s (Run-IsOrderly r)
  Run-IsOrderly (failed_operation {s} owner target e r) =
      (Keeps-operation_failure owner target e).at _ s (Run-IsOrderly r)
  Run-IsOrderly (deferred_edit {s} key id command due r) =
      (Keeps-defer key id command due).at _ s (Run-IsOrderly r)
  Run-IsOrderly (came_due {s} key r) = (Keeps-take_due key).at _ s (Run-IsOrderly r)
  Run-IsOrderly (cancelled_edits {s} predicate r) =
      (Keeps-cancel_pending predicate).at _ s (Run-IsOrderly r)
  Run-IsOrderly (queued_job {s} owner unit settings opened waits answer r) =
      (Keeps-queue_job owner unit settings opened waits answer).at _ s (Run-IsOrderly r)
  Run-IsOrderly (finished_job {s} job failure r) =
      (Keeps-device_finished job failure).at _ s (Run-IsOrderly r)
  Run-IsOrderly (froze {s} r) = Keeps-freeze.at _ s (Run-IsOrderly r)
  Run-IsOrderly (shut {s} id stopped removed r) =
      (Keeps-shut_down id stopped removed).at _ s (Run-IsOrderly r)
  Run-IsOrderly (ended {s} disconnected r) = (Keeps-close disconnected).at _ s (Run-IsOrderly r)

  -- Whatever the order in which commands are submitted, accepted, deferred, failed, cancelled and
  -- finished, an admitted command stands at exactly one place: in the channel, among the accepted
  -- commands, or among the completed ones; and no number is given twice. So none is lost and none is
  -- completed twice.
  pub Run-once :
      {issued : List ℕ} {s : Requests F P}
      → Run F P issued s
      → (id : ℕ)
      → (count id (keys s.queue) + (count id s.accepted + count id (keys s.completed))
          ≡ count id issued)
        × (count id issued ≤ 1)
  Run-once r id = ((Run-IsOrderly r).placed id, (Run-IsOrderly r).once id)
