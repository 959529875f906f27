-- ===== src/DeviceBox/DeviceBoxMain.antt =====
-- DeviceBox/DeviceBoxMain.cpp: the client and the controller of a device box, which run on one
-- `io_service`. Each task and each callback of the network, of a timer, of a source or of the Dropbox
-- client is one step.
pub mod Quiet
pub mod Reconnect
pub mod Stop
pub mod Ready
mod Examples
use ip_cam_box.Prelude.{
  ℕ, ◌+◌, ◌-◌, String, Bool, true, false, Option, none, some, List, [], ◌∷◌, ◌++◌, Outcome, ok,
  ◌>>=◌, length, get_elem?, when_some, if◌then◌else◌, ◌||◌,
}
use ip_cam_box.DeviceBox.Client.{
  Client, Callback, Task, reset_controller, load_config as load_task, update_config as update_task,
  stream_requested as stream_task, stop_stream_of as stop_task, call_back, on_timer, shut_down,
}
use ip_cam_box.DeviceBox.Controller.{
  Ask, start_sync, shrink_folder, dropbox_upload, Controller, Post, finished, callback, load,
  after_stop, AfterDropbox, reset, load_config, update_config, stream_requested, stop_stream_of,
  stage_done, dropbox_done, run_post, shut_down as shut_down_controller,
}

-- What is bound for the controller: a method of the client, or `controllerShuttedDown`.
pub data Bound : Type 0 where
  of_client : Callback → Bound
  controller_shutted_down : Bound

-- A callback of the controller or of a streamer is its position in `bound`. `stopped` says whether the
-- `io_service` was told to stop.
pub record Device : Type 0 where
  pub client : Client
  pub controller : Controller
  pub bound : List Bound
  pub stopped : Bool

abbrev pub bind_to : Bound → Device → Device
bind_to f d = record d { bound = d.bound ++ (f ∷ []) }

abbrev pub next : Device → ℕ
next d = length d.bound

abbrev with : Controller → Device → Device
with c d = record d { controller = c }

-- A call of a bound function.
unfoldable pub call_bound : Bool → Bound → Device → Device
call_bound shutting_down (of_client f) d = record d { client = call_back shutting_down f d.client }
call_bound shutting_down controller_shutted_down d = record d { stopped = true }

unfoldable pub call_number : Bool → ℕ → Device → Device
call_number shutting_down n d =
    when_some (get_elem? d.bound n) d (λ f. call_bound shutting_down f d)

-- What happens on the `io_service`: the first task of the client or of the controller runs, a member of
-- a source has finished its shutdown, the Dropbox client its reset or shutdown, a wait has ended, a
-- streamer answers, a signal comes, and the client has been shut down.
pub data Happening : Type 0 where
  task_runs post_runs timer_ends signalled client_shutted_down : Happening
  stage_ends : Bool → String → Happening
  dropbox_ends : AfterDropbox → Happening
  answered : ℕ → Happening

-- The calls that make the Dropbox client talk to the service.
abbrev pub is_request : Ask → Bool
is_request (start_sync source path) = true
is_request (shrink_folder source limit) = true
is_request (dropbox_upload src dst) = true
is_request _ = false

abbrev pub has_request : List Ask → Bool
has_request [] = false
has_request (a ∷ asked) = is_request a || has_request asked

module _ (dir_make_tmp : ℕ → Option String) (ndebug shutting_down : Bool) where
  unfoldable pub run_task : Task → Device → Outcome Device
  run_task (reset_controller f) d =
      ok (with (reset (callback (next d)) d.controller) (bind_to (of_client f) d))
  run_task (load_task config f) d =
      ok (with (load_config dir_make_tmp config (next d) d.controller) (bind_to (of_client f) d))
  run_task (update_task config f) d =
      ok (with (update_config dir_make_tmp config (next d) d.controller) (bind_to (of_client f) d))
  run_task (stream_task request streaming failed) d = do
    c ←
        stream_requested ndebug request.source_id request.destination (next d) (next d + 1)
          d.controller
    ok (with c (bind_to (of_client failed) (bind_to (of_client streaming) d)))
  run_task (stop_task source) d = do c ← stop_stream_of ndebug source d.controller; ok (with c d)

  unfoldable pub run_tasks : List Task → Device → Outcome Device
  run_tasks [] d = ok d
  run_tasks (t ∷ ts) d = run_task t (record d { client = record d.client { tasks = ts } })

  unfoldable pub run_posts : List Post → Device → Device
  run_posts [] d = d
  run_posts (p ∷ ps) d =
      let ran : Device = with (run_post dir_make_tmp p (record d.controller { posted = ps })) d in
      elim p [
        | after_stop then_do ↦ ran
        | finished (callback n) ↦ call_number shutting_down n ran
        | finished (load new f) ↦ ran
      ]

  abbrev expire : Client → Client
  expire c = if c.waiting then on_timer shutting_down false (record c { waiting = false }) else c

  -- The thread of a Dropbox client ends, and with it a reset or a shutdown, only if no request was made:
  -- `curlPerform` keeps its io_service at work ever after.
  abbrev end_dropbox : AfterDropbox → Device → Outcome Device
  end_dropbox then_do d = do c ← dropbox_done ndebug then_do d.controller; ok (with c d)

  -- `clientShuttedDown` has the number 0 with the client.
  unfoldable pub happen : Happening → Device → Outcome Device
  happen task_runs d = run_tasks d.client.tasks d
  happen post_runs d = ok (run_posts d.controller.posted d)
  happen timer_ends d = ok (record d { client = expire d.client })
  happen signalled d = ok (record d { client = shut_down 0 d.client })
  happen client_shutted_down d =
      ok (with (shut_down_controller (next d) d.controller) (bind_to controller_shutted_down d))
  happen (stage_ends active source) d = do
    c ← stage_done ndebug active source d.controller
    ok (with c d)
  happen (dropbox_ends then_do) d =
      if has_request d.controller.asked then ok d else end_dropbox then_do d
  happen (answered n) d = ok (call_number shutting_down n d)

  unfoldable pub happens : List Happening → Device → Outcome Device
  happens [] d = ok d
  happens (h ∷ hs) d = happen h d >>= happens hs
