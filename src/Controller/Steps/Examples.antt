-- ===== src/Controller/Steps/Examples.antt =====
-- Tests of the commands of crates/openwave-runtime/src/controller/state.rs, and runs that the
-- theorems apply to.
use openwave.Prelude.{
  ℕ, ◌+◌, ◌≤◌, ◌≡◌, refl, true, false, ◌||◌, if◌then◌else◌, List, [], ◌∷◌, none, some, nat_instance,
}
use openwave.Prelude.Dict.{keys, get, insert, remove, modify, contains, discard}
use openwave.Model.{OperationError, ok, err, io}
use openwave.Profiles.{wave_xlr}
use openwave.Protocol.{set_mute}
use openwave.Protocol.Units.{UnitId}
use openwave.Controller.Keys.{PendingKey, cell, key_instance}
use openwave.Controller.Requests.{
  other, shutdown, applied, scene_finished, prepare_uninstall, rejected, cancelled_command,
  Requests, outcome_of,
}
use openwave.Controller.Steps.{
  submit, accept, begin_scene, finish, finish_if_ready, issue, operation_failure, defer,
}
use openwave.Controller.Jobs.{queue_job, device_finished}
use openwave.Controller.Exit.{shut_down, drain_all, drain, conclude, close}
use openwave.Controller.Steps.Counts.{count}
use openwave.Controller.Steps.Run.{
  Run, start, submitted, taken, deferred_edit, queued_job, began_scene, idle, Run-once,
}
use openwave.Controller.Steps.Shutdown.{shut_down_completes}

abbrev some_unit : UnitId
some_unit = record { profile = wave_xlr; bus = 1; address = 2; incarnation = 3 }

abbrev vocal_in_chat : PendingKey
vocal_in_chat = cell "vocal" "chat"

-- The first command waits for the second edit of its cell; the second waits for a device; the third
-- is still in the channel.
abbrev busy_steps : List ℕ × Requests ℕ ℕ
busy_steps =
    let a = (submit (other 7) (idle ℕ ℕ)).1 in
    let b = (submit (other 8) a).1 in
    let c = (submit prepare_uninstall b).1 in
    let d = accept c.queue c in
    let e = defer vocal_in_chat 1 (other 7) 50 d in
    let f = accept e.queue e in
    let g = (queue_job (some 2) some_unit (set_mute true ∷ []) [] (λ group. false) (ok tt) f).1 in
    (3 ∷ 2 ∷ 1 ∷ [], g)

busy_run : Run ℕ ℕ busy_steps.0 busy_steps.1
unfolding submit
busy_run =
    queued_job (some 2) some_unit (set_mute true ∷ []) [] (λ group. false) (ok tt)
      (taken (
        deferred_edit vocal_in_chat 1 (other 7) 50
          (taken (submitted prepare_uninstall (submitted (other 8) (submitted (other 7) start))))))

Run-once_example :
    (count 2 (keys busy_steps.1.queue)
        + (count 2 busy_steps.1.accepted + count 2 (keys busy_steps.1.completed))
      ≡ 1)
    × (1 ≤ 1)
Run-once_example = Run-once busy_run 2

-- The same, where the second command is a scene.
abbrev scene_steps : Requests ℕ ℕ
scene_steps = begin_scene 2 busy_steps.1

scene_run : Run ℕ ℕ busy_steps.0 scene_steps
scene_run = began_scene 2 busy_run

scene_held : scene_steps.held ≡ []
unfolding submit accept defer queue_job get begin_scene
scene_held = refl

shut_down_completes_example :
    (count 2 (shut_down 9 (ok tt) none scene_steps).accepted ≡ 0)
    × (count 2 (keys (shut_down 9 (ok tt) none scene_steps).queue)
          + count 2 (keys (shut_down 9 (ok tt) none scene_steps).completed)
        ≡ 1)
    × ((shut_down 9 (ok tt) none scene_steps).stopped ≡ (true || scene_steps.stopped))
    × (count 2 (keys (close false (shut_down 9 (ok tt) none scene_steps)).completed) ≡ (
        if (shut_down 9 (ok tt) none scene_steps).stopped
        then 1
        else count 2 (keys (shut_down 9 (ok tt) none scene_steps).completed)))
shut_down_completes_example = shut_down_completes scene_run scene_held 9 (ok tt) none 2

abbrev stuck : OperationError
stuck = record { code = io; message = "stuck" }

-- The backend fails to stop: the deferred command is cancelled, the scene reports what was left of
-- it, the command in the channel stays there, and the loop goes on.
failed_shutdown : Requests ℕ ℕ
unfolding submit accept defer queue_job begin_scene
failed_shutdown = shut_down 9 (err stuck) none scene_steps

failed_shutdown_goes_on :
    (failed_shutdown.completed
      ≡ (
        2,
        scene_finished 0 [] (
            record { target = "shutdown"; message = "Unfinished scene targets were cancelled" }
            ∷ []),
      )
        ∷ (1, cancelled_command)
        ∷ [])
    × (keys failed_shutdown.queue ≡ 3 ∷ [])
    × (close false failed_shutdown ≡ failed_shutdown)
unfolding submit accept defer queue_job begin_scene get insert remove modify contains discard
    shut_down drain_all drain finish_if_ready finish conclude issue outcome_of close failed_shutdown
failed_shutdown_goes_on = (refl, refl, refl)

-- A shutdown that is tried again is admitted, and applied where the backend stops.
shutdown_again :
    (shut_down 4 (ok tt) none (
      let again = (submit shutdown failed_shutdown).1 in
      let first = accept again.queue again in accept first.queue first)).completed
    ≡ (4, applied 0) ∷ (3, cancelled_command) ∷ failed_shutdown.completed
unfolding submit accept defer queue_job begin_scene get insert remove modify contains discard
    shut_down drain_all drain finish_if_ready finish conclude issue outcome_of close failed_shutdown
shutdown_again = refl

-- A failed job of a command is what the command is answered with.
failed_job :
    (device_finished 1
      (some ("device", record { code = io; message = "stall" }))
      busy_steps.1).completed
    ≡ (2, rejected (record { code = io; message = "device: stall" })) ∷ []
unfolding submit accept defer queue_job device_finished finish_if_ready finish operation_failure
    issue get insert remove modify contains discard outcome_of
failed_job = refl

-- A later edit of the same cell ends the command of the first one.
second_edit_cancels :
    (defer vocal_in_chat 2 (other 8) 60 busy_steps.1).completed ≡ (1, cancelled_command) ∷ []
unfolding submit accept defer queue_job finish get insert remove modify contains discard
second_edit_cancels = refl
