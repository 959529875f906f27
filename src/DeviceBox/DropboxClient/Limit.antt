-- ===== src/DeviceBox/DropboxClient/Limit.antt =====
-- DeviceBox/Dropbox.cpp: `MAX_UPLOADS` in every state that the thread reaches.
use ip_cam_box.Prelude.{
  ℕ, nat_eq, nat_beq_iff, ◌+◌, ◌-◌, ◌%◌, ◌^◌, ◌≤◌, ◌==◌, String, Bool, false, not, ◌&&◌, none, some,
  Bool-cases, List, [], ◌∷◌, ◌++◌, ◌≡◌, refl, subst, inl, inr, ok, Then, is_nil, is_some,
  if◌then◌else◌, if_keeps, ltb, when_some, when_some_keeps, arith,
}
use ip_cam_box.Prelude.Assoc.{IsMap, find}
use ip_cam_box.DeviceBox.DropboxClient.Actions.{
  new_action, upload_action, upload_init, list_folder_init, continue_list_folder_init,
  latest_folder_cursor_init, delete_path_init, delete_batch_init,
}
use ip_cam_box.DeviceBox.DropboxClient.{
  Internal, Task, Event, Answers, posts, runs, expires, returns, step, upload, list_folder,
  latest_folder_cursor, continue_list_folder, delete_path, delete_batch, shutdown, curl_perform,
  waited, report, run_first, run_task, start, start_upload, max_uploads, upload_finished,
  action_finished, construct,
}
use ip_cam_box.DeviceBox.DropboxClient.Handles.{json_started, upload_started}
use ip_cam_box.DeviceBox.DropboxClient.Uploads.{
  uploads, IsBounded, IsStarting, perform-IsBounded, start-IsBounded,
}

-- libcurl gives a handle that none of the running transfers has.
unfoldable pub IsFresh : Answers → Internal → Type 0
IsFresh answers s = (curl : ℕ) → answers.easy ≡ some curl → find curl s.actions ≡ none

run_task-IsBounded :
    (ndebug : Bool) (answers : Answers) (task : Task) (s : Internal)
    → IsBounded s
    → IsFresh answers s
    → Then IsBounded (run_task ndebug answers task s)
unfolding run_task start_upload IsBounded IsStarting IsFresh upload_finished action_finished
    upload_init list_folder_init continue_list_folder_init latest_folder_cursor_init
    delete_path_init delete_batch_init new_action
run_task-IsBounded ndebug answers (upload src dst finished) s h fresh =
    if_keeps (Then IsBounded) (ltb max_uploads ((s.upload_count + 1) % 2 ^ 32)) _ _
      (λ skipped. (ground (arith, h.0, h.1), h.1, h.2))
      (λ room.
        start-IsBounded ndebug _ _ _ _ (ground (arith, h.0, h.1), ground (arith, room), h.2)
          (λ t made.
            fresh t.curl (upload_started answers.easy answers.opened s.token dst src t made)))
run_task-IsBounded ndebug answers (list_folder path recursive finished internal) s h fresh =
    start-IsBounded ndebug _ _ _ s (ground (arith, h.0), ground (arith, h.0, h.1), h.2)
      (λ t made. fresh t.curl (json_started answers.easy s.token _ _ t made))
run_task-IsBounded ndebug answers (latest_folder_cursor path recursive finished internal) s h
      fresh =
    start-IsBounded ndebug _ _ _ s (ground (arith, h.0), ground (arith, h.0, h.1), h.2)
      (λ t made. fresh t.curl (json_started answers.easy s.token _ _ t made))
run_task-IsBounded ndebug answers (continue_list_folder cursor finished internal) s h fresh =
    start-IsBounded ndebug _ _ _ s (ground (arith, h.0), ground (arith, h.0, h.1), h.2)
      (λ t made. fresh t.curl (json_started answers.easy s.token _ _ t made))
run_task-IsBounded ndebug answers (delete_path path finished internal) s h fresh =
    start-IsBounded ndebug _ _ _ s (ground (arith, h.0), ground (arith, h.0, h.1), h.2)
      (λ t made. fresh t.curl (json_started answers.easy s.token _ _ t made))
run_task-IsBounded ndebug answers (delete_batch list finished internal) s h fresh =
    start-IsBounded ndebug _ _ _ s (ground (arith, h.0), ground (arith, h.0, h.1), h.2)
      (λ t made. fresh t.curl (json_started answers.easy s.token _ _ t made))
run_task-IsBounded ndebug answers (shutdown finished) s h fresh = h
run_task-IsBounded ndebug answers curl_perform s h fresh = perform-IsBounded ndebug _ s h
run_task-IsBounded ndebug answers (waited error) s h fresh =
    if_keeps (Then IsBounded) error _ _ (λ aborted. h) (λ over. perform-IsBounded ndebug _ s h)

run_first-IsBounded :
    (ndebug : Bool) (answers : Answers) (tasks : List Task) (s : Internal)
    → IsBounded s
    → IsFresh answers s
    → Then IsBounded (run_first ndebug answers tasks s)
unfolding run_first IsBounded IsFresh
run_first-IsBounded ndebug answers [] s h fresh = h
run_first-IsBounded ndebug answers (task ∷ rest) s h fresh =
    if_keeps (Then IsBounded) s.ended (ok s) _ (λ ended. h)
      (λ running. run_task-IsBounded ndebug answers task (record s { tasks = rest }) h fresh)

-- The answers of libcurl in an event, if it has any.
unfoldable pub IsFreshEvent : Event → Internal → Type 0
unfolding IsFresh
IsFreshEvent (runs answers) s = IsFresh answers s
IsFreshEvent _ s = Unit

step-IsBounded :
    (ndebug : Bool) (event : Event) (s : Internal)
    → IsBounded s
    → IsFreshEvent event s
    → Then IsBounded (step ndebug event s)
unfolding step IsBounded IsFreshEvent when_some
step-IsBounded ndebug (posts task) s h fresh = h
step-IsBounded ndebug (runs answers) s h fresh =
    run_first-IsBounded ndebug answers s.tasks s h fresh
step-IsBounded ndebug expires s h fresh =
    when_some_keeps (Then IsBounded) s.timer (ok s) _ h (λ t armed. h)
step-IsBounded ndebug returns s h fresh =
    if_keeps (Then IsBounded)
      (is_nil s.tasks && not (is_some s.timer) && not s.working && not s.ended) _ (ok s) (λ idle. h)
      (λ busy. h)

-- The states of a client: its construction, and the steps whose handles are new.
pub data Reachable (ndebug : Bool) : Internal → Type 0 where
  started : Reachable ndebug construct
  stepped :
      (event : Event) (s : Internal) {t : Internal}
      → Reachable ndebug s
      → IsFreshEvent event s
      → step ndebug event s ≡ ok t
      → Reachable ndebug t

pub reachable-IsBounded : {ndebug : Bool} {s : Internal} → Reachable ndebug s → IsBounded s
unfolding IsBounded construct
reachable-IsBounded started = (refl, omega arith, tt)
reachable-IsBounded {ndebug} (stepped event s before fresh same) =
    subst (Then IsBounded) same (step-IsBounded ndebug event s (reachable-IsBounded before) fresh)

-- In every state that the thread reaches, whatever libcurl answers, `_uploadCount` is the number of
-- uploads that libcurl has and does not exceed MAX_UPLOADS, no handle has two actions, and the next
-- upload is refused at once, with the code 0 and an empty response and nothing given to libcurl, if
-- as many as MAX_UPLOADS are running, and otherwise goes to `init` and to libcurl. A handle that
-- `curl_easy_init` gives is assumed not to be that of a running transfer.
pub uploads_limited :
    {ndebug : Bool} {s : Internal} (answers : Answers) (src dst : String) (finished : ℕ)
    → Reachable ndebug s
    → (s.upload_count ≡ uploads s.actions)
      × (uploads s.actions ≤ max_uploads)
      × IsMap s.actions
      × (run_task ndebug answers (upload src dst finished) s ≡ (
          if uploads s.actions == max_uploads
          then ok (record s {
            posted =
                s.posted
                ++ (report (record { finished = finished; response_code = 0; response = "" }) ∷ []);
          })
          else start ndebug answers.progress
              (new_action (upload_action dst src) false finished)
              (upload_init answers.easy answers.opened s.token dst src)
              (record s { upload_count = uploads s.actions + 1 })))
unfolding run_task start_upload IsBounded upload_finished action_finished
uploads_limited {ndebug} {s} answers src dst finished h =
    let (counted, bounded, map) = reachable-IsBounded h in
    let one_more : (s.upload_count + 1) % 2 ^ 32 ≡ uploads s.actions + 1 =
      ground (arith, counted, bounded) in
    let back : ((s.upload_count + 1) % 2 ^ 32 + 2 ^ 32 - 1) % 2 ^ 32 ≡ s.upload_count =
      ground (arith, counted, bounded) in
    (
      counted,
      bounded,
      map,
      elim (Bool-cases (uploads s.actions == max_uploads)) [
        | inl full ↦
            ground
              (arith, full, counted, one_more, back, nat_beq_iff (uploads s.actions) max_uploads)
        | inr room ↦
            ground
              (arith, room, counted, one_more, bounded, nat_beq_iff (uploads s.actions) max_uploads)
      ],
    )
