-- ===== src/DeviceBox/DropboxClient/Wrapper.antt =====
-- DeviceBox/Dropbox.cpp: `Dropbox`, the owner of the client of the moment, and what its io_service runs.
use ip_cam_box.Prelude.{
  ℕ, String, Bool, true, false, Option, none, some, List, [], ◌∷◌, ◌++◌, ◌≡◌, refl, Outcome, ok,
  fault, null_pointer, ◌>>=◌, ◌>>◌, check, map, when_some,
}
use ip_cam_box.DeviceBox.DropboxClient.{
  Internal, Post, Report, OnShutdown, recreate, release, run_first, run_task, Event, Answers, runs,
  returns, report, thread_ended, construct, set_token, step, post_upload, post_list_folder,
  post_continue_list_folder, post_latest_folder_cursor, post_delete_path, post_delete_batch,
  post_shutdown,
}

-- The queue of `_ioService`: the reports and the end of a client's thread, the lambda that was given
-- to `postShutdown`, and the callback of a reset or shutdown.
pub data Call : Type 0 where
  of_thread : Post → Call
  on_shutdown : OnShutdown → Call
  finished : ℕ → Call

-- `reported` has the callbacks of requests that were called, in order.
pub record Dropbox : Type 0 where
  pub internal : Option Internal
  pub calls : List Call
  pub reported : List Report

unfoldable pub make : Dropbox
make = record { internal = some construct; calls = []; reported = [] }

abbrev pub call : Call → Dropbox → Dropbox
call c d = record d { calls = d.calls ++ (c ∷ []) }

-- An operation on the client, after the test that every member begins with.
abbrev pub with_internal : Bool → (Internal → Internal) → Dropbox → Outcome Dropbox
with_internal ndebug operation d =
    when_some d.internal (check ndebug false >> ok d)
      (λ i. ok (record d { internal = some (operation i) }))

unfoldable pub dropbox_set_token : Bool → String → Dropbox → Outcome Dropbox
dropbox_set_token ndebug token = with_internal ndebug (set_token token)

unfoldable pub dropbox_upload : Bool → String → String → ℕ → Dropbox → Outcome Dropbox
dropbox_upload ndebug src dst f = with_internal ndebug (post_upload src dst f)

unfoldable pub dropbox_list_folder : Bool → String → Bool → ℕ → Dropbox → Outcome Dropbox
dropbox_list_folder ndebug path recursive f =
    with_internal ndebug (post_list_folder path recursive f)

unfoldable pub dropbox_continue_list_folder : Bool → String → ℕ → Dropbox → Outcome Dropbox
dropbox_continue_list_folder ndebug cursor f =
    with_internal ndebug (post_continue_list_folder cursor f)

unfoldable pub dropbox_latest_folder_cursor : Bool → String → Bool → ℕ → Dropbox → Outcome Dropbox
dropbox_latest_folder_cursor ndebug path recursive f =
    with_internal ndebug (post_latest_folder_cursor path recursive f)

unfoldable pub dropbox_delete_path : Bool → String → ℕ → Dropbox → Outcome Dropbox
dropbox_delete_path ndebug path f = with_internal ndebug (post_delete_path path f)

unfoldable pub dropbox_delete_batch : Bool → List String → ℕ → Dropbox → Outcome Dropbox
dropbox_delete_batch ndebug list f = with_internal ndebug (post_delete_batch list f)

-- `reset` and `shutdown`, without a client the callback alone.
unfoldable pub reset : Bool → ℕ → Dropbox → Outcome Dropbox
reset ndebug f d =
    when_some d.internal (check ndebug false >> ok (call (finished f) d))
      (λ i. ok (record d { internal = some (post_shutdown (recreate f) i) }))

unfoldable pub dropbox_shutdown : Bool → ℕ → Dropbox → Outcome Dropbox
dropbox_shutdown ndebug f d =
    when_some d.internal (check ndebug false >> ok (call (finished f) d))
      (λ i. ok (record d { internal = some (post_shutdown (release f) i) }))

-- `~DropboxInternal` of the client, if there is one: its thread must have been joined, with NDEBUG too,
-- since the destructor of a thread demands it.
destroyed : Option Internal → Outcome (Unit {0})
destroyed none = ok tt
destroyed (some i) = check false i.joined

-- A call that `_ioService` runs. The lambda in `curlThreadMain` posts `_shutdowned` and joins.
unfoldable pub run_call : Call → Dropbox → Outcome Dropbox
unfolding destroyed
run_call (of_thread (report r)) d = ok (record d { reported = d.reported ++ (r ∷ []) })
run_call (of_thread thread_ended) d = when_some d.internal (fault null_pointer) (λ i.
    when_some i.shutdowned (fault null_pointer) (λ then_do.
      ok (call (on_shutdown then_do) (record d { internal = some (record i { joined = true }) }))))
run_call (on_shutdown (recreate f)) d =
    destroyed d.internal >> ok (call (finished f) (record d { internal = some construct }))
run_call (on_shutdown (release f)) d =
    destroyed d.internal >> ok (call (finished f) (record d { internal = none }))
run_call (finished f) d = ok d

-- The io_service runs its first call.
unfoldable pub run_next : List Call → Dropbox → Outcome Dropbox
run_next [] d = ok d
run_next (c ∷ rest) d = run_call c (record d { calls = rest })

-- A step of the client's thread, whose posts go to the io_service.
unfoldable pub run_thread : Bool → Event → Dropbox → Outcome Dropbox
run_thread ndebug event d = when_some d.internal (ok d) (λ i. do
  i' ← step ndebug event i
  ok (record d {
    internal = some (record i' { posted = [] });
    calls = d.calls ++ map of_thread i'.posted;
  }))

-- The steps that are left after a call of `reset` or `shutdown`.
unfoldable pub complete : Bool → Answers → Dropbox → Outcome Dropbox
complete ndebug answers d = do
  d₁ ← run_thread ndebug (runs answers) d
  d₂ ← run_thread ndebug returns d₁
  d₃ ← run_next d₂.calls d₂
  run_next d₃.calls d₃

-- A client with no task and no wait whose thread runs, of an owner with no call left.
abbrev pub idle : Internal → Dropbox → Dropbox
idle i d = record d {
  internal = some (record i { tasks = []; timer = none; ended = false; posted = [] });
  calls = [];
}

-- A client that has nothing to do and does not wait, as one that has made no request, is ended by
-- `reset` and by `shutdown`: once its thread has run and its posts were run, there is a new client, or
-- none, its thread was joined before, and the callback of the caller is the one call that is left.
pub idle-completes :
    (ndebug : Bool) (answers : Answers) (f : ℕ) (i : Internal) (d : Dropbox)
    → ((reset ndebug f (idle i d) >>= complete ndebug answers)
        ≡ ok (record d { internal = some construct; calls = finished f ∷ [] }))
      × ((dropbox_shutdown ndebug f (idle i d) >>= complete ndebug answers)
          ≡ ok (record d { internal = none; calls = finished f ∷ [] }))
unfolding reset dropbox_shutdown complete run_thread run_next run_call step run_first run_task
    when_some destroyed
idle-completes ndebug answers f i d = (refl, refl)
