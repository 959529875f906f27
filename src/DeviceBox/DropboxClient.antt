-- ===== src/DeviceBox/DropboxClient.antt =====
-- DeviceBox/Dropbox.cpp: `DropboxInternal`, the thread that makes the requests to the Dropbox API. A
-- task of its io_service is run with the answers of libcurl, `fopen` and the clock as parameters, and
-- callbacks are numbers, and `joined` says whether the thread was joined. What the thread posts to the other io_service is kept in order.
pub mod Actions
pub mod Runs
pub mod Texts
pub mod Batch
pub mod Handles
pub mod Uploads
pub mod Limit
pub mod Answered
pub mod Messages
pub mod Lifetime
pub mod Wrapper
mod Examples
use ip_cam_box.Prelude.{
  ℕ, ◌+◌, ◌-◌, ◌%◌, ◌^◌, String, concat, Bool, true, false, not, Option, none, some, List, [], ◌∷◌,
  ◌++◌, Outcome, ok, fault, ◌>>=◌, ◌>>◌, check, nat_eq, ◌==◌, ltb, if◌then◌else◌, when_some, is_nil,
  is_some, ◌&&◌,
}
use ip_cam_box.Prelude.Assoc.{Assoc, find, emplace, erase, modify}
use Actions.{
  Kind, upload_action, list_folder_action, continue_list_folder_action, latest_folder_cursor_action,
  delete_path_action, delete_batch_action, Action, new_action, Transfer, upload_init,
  list_folder_init, continue_list_folder_init, latest_folder_cursor_init, delete_path_init,
  delete_batch_init,
}

-- `long`, as far as the code tells its values apart.
pub data ℤ : Type 0 where
  pos negsuc : ℕ → ℤ

-- What `curl_multi_info_read` returns: whether it is CURLMSG_DONE, the handle, and its response code.
pub record Message : Type 0 where
  pub done : Bool
  pub easy_handle : ℕ
  pub response_code : ℕ

-- What libcurl answers while `curlPerform` runs: its codes, the number of running transfers, what it
-- gave to `collectResponse` of each handle, the messages it adds, and the time it wants to wait.
pub record Progress : Type 0 where
  pub performed : Bool
  pub running_count : ℕ
  pub received : List (ℕ × String)
  pub messages : List Message
  pub removed : Bool
  pub timed : Bool
  pub milliseconds : ℤ

-- The answers while a task runs: `curl_easy_init`, `fopen`, and the above.
pub record Answers : Type 0 where
  pub easy : Option ℕ
  pub opened : Bool
  pub progress : Progress

-- What the lambda that `Dropbox` gives to `postShutdown` does, with the callback of its caller: it
-- makes a new client or none.
pub data OnShutdown : Type 0 where
  recreate release : ℕ → OnShutdown

-- The tasks of `_curlIoService`: the posted calls, and the end of a wait with its error.
pub data Task : Type 0 where
  upload : String → String → ℕ → Task
  list_folder latest_folder_cursor : String → Bool → ℕ → Bool → Task
  continue_list_folder delete_path : String → ℕ → Bool → Task
  delete_batch : List String → ℕ → Bool → Task
  shutdown : OnShutdown → Task
  curl_perform : Task
  waited : Bool → Task

pub record Report : Type 0 where
  pub finished : ℕ
  pub response_code : ℕ
  pub response : String

-- The tasks posted to `_ioService`: `finished` of an action, and the lambda in `curlThreadMain`.
pub data Post : Type 0 where
  report : Report → Post
  thread_ended : Post

-- `messages` are those that libcurl still holds, `timer` the time of the running wait, `tasks` those of
-- `_curlIoService`, and `called` the callbacks of internal actions, called on the thread itself.
pub record Internal : Type 0 where
  pub token : String
  pub tasks : List Task
  pub working : Bool
  pub ended : Bool
  pub timer : Option ℕ
  pub running_count : ℕ
  pub messages : List Message
  pub actions : Assoc ℕ Action
  pub upload_count : ℕ
  pub shutdowned : Option OnShutdown
  pub joined : Bool
  pub posted : List Post
  pub called : List Report

unfoldable pub construct : Internal
construct = record {
  token = "";
  tasks = [];
  working = true;
  ended = false;
  timer = none;
  running_count = 0;
  messages = [];
  actions = [];
  upload_count = 0;
  shutdowned = none;
  joined = false;
  posted = [];
  called = [];
}

abbrev pub max_uploads : ℕ
max_uploads = 2

unfoldable pub set_token : String → Internal → Internal
set_token token s = record s { token = token }

-- `_curlIoService.post`.
abbrev pub post : Task → Internal → Internal
post task s = record s { tasks = s.tasks ++ (task ∷ []) }

-- The calls from the other thread, none of them internal.
abbrev pub post_upload : String → String → ℕ → Internal → Internal
post_upload src dst finished = post (upload src dst finished)

abbrev pub post_list_folder : String → Bool → ℕ → Internal → Internal
post_list_folder path recursive finished = post (list_folder path recursive finished false)

abbrev pub post_continue_list_folder : String → ℕ → Internal → Internal
post_continue_list_folder cursor finished = post (continue_list_folder cursor finished false)

abbrev pub post_latest_folder_cursor : String → Bool → ℕ → Internal → Internal
post_latest_folder_cursor path recursive finished =
    post (latest_folder_cursor path recursive finished false)

abbrev pub post_delete_path : String → ℕ → Internal → Internal
post_delete_path path finished = post (delete_path path finished false)

abbrev pub post_delete_batch : List String → ℕ → Internal → Internal
post_delete_batch list finished = post (delete_batch list finished false)

abbrev pub post_shutdown : OnShutdown → Internal → Internal
post_shutdown finished = post (shutdown finished)

unfoldable pub action_finished : Report → Bool → Internal → Internal
action_finished r internal s =
    if internal
    then record s { called = s.called ++ (r ∷ []) }
    else record s { posted = s.posted ++ (report r ∷ []) }

unfoldable pub upload_finished : Report → Internal → Internal
upload_finished r s =
    action_finished r false (record s { upload_count = (s.upload_count + 2 ^ 32 - 1) % 2 ^ 32 })

-- What an action reports, with the response code that `curl_easy_getinfo` gives.
abbrev pub report_of : ℕ → Action → Report
report_of response_code a = record {
  finished = a.finished;
  response_code = response_code;
  response = a.response;
}

abbrev pub upload_done : ℕ → Action → Internal → Internal
upload_done response_code a = upload_finished (report_of response_code a)

abbrev pub list_folder_done : ℕ → Action → Internal → Internal
list_folder_done response_code a = action_finished (report_of response_code a) a.internal

abbrev pub continue_list_folder_done : ℕ → Action → Internal → Internal
continue_list_folder_done response_code a = action_finished (report_of response_code a) a.internal

abbrev pub latest_folder_cursor_done : ℕ → Action → Internal → Internal
latest_folder_cursor_done response_code a = action_finished (report_of response_code a) a.internal

abbrev pub delete_path_done : ℕ → Action → Internal → Internal
delete_path_done response_code a = action_finished (report_of response_code a) a.internal

abbrev pub delete_batch_done : ℕ → Action → Internal → Internal
delete_batch_done response_code a = action_finished (report_of response_code a) a.internal

-- The virtual `handleDone` of an action.
unfoldable pub action_done : ℕ → Action → Internal → Internal
action_done response_code a s = elim (a.kind) [
  | upload_action dst src ↦ upload_done response_code a s
  | list_folder_action path ↦ list_folder_done response_code a s
  | continue_list_folder_action ↦ continue_list_folder_done response_code a s
  | latest_folder_cursor_action ↦ latest_folder_cursor_done response_code a s
  | delete_path_action ↦ delete_path_done response_code a s
  | delete_batch_action ↦ delete_batch_done response_code a s
]

-- The action of a message is done and leaves the map.
unfoldable pub end_action : Message → Action → Internal → Internal
end_action m a s =
    let s' : Internal = action_done m.response_code a s in
    record s' { actions = erase m.easy_handle s'.actions }

unfoldable pub handle_done : Bool → Bool → Message → Internal → Outcome Internal
handle_done ndebug removed m s =
    check ndebug removed
    >> when_some (find m.easy_handle s.actions) (check ndebug false >> ok s)
        (λ a. ok (end_action m a s))

-- `collectResponse`, for all that libcurl gives to it.
unfoldable pub collect_response : List (ℕ × String) → Assoc ℕ Action → Assoc ℕ Action
collect_response [] actions = actions
collect_response ((curl, text) ∷ received) actions =
    collect_response received
      (modify curl (λ a. record a { response = concat a.response text }) actions)

-- The loop over `curl_multi_info_read`.
unfoldable pub read_messages : Bool → Bool → List Message → Internal → Outcome Internal
read_messages ndebug removed [] s = ok (record s { messages = [] })
read_messages ndebug removed (m ∷ rest) s = do
  s' ← (if m.done then handle_done ndebug removed m s else ok s)
  read_messages ndebug removed rest s'

-- `_timeoutTimer.cancel()`: the handler of a running wait is called with an error.
abbrev pub cancel : Internal → Internal
cancel s = elim (s.timer) [ none ↦ s | some t ↦ post (waited true) (record s { timer = none }) ]

-- The end of `curlPerform`.
unfoldable pub schedule : ℤ → Internal → Internal
schedule (pos n) s =
    if n == 0 then post curl_perform (cancel s) else record (cancel s) { timer = some n }
schedule (negsuc n) s = record (cancel s) { timer = some 10 }

-- What `curl_multi_perform` changes.
unfoldable pub progressed : Progress → Internal → Internal
progressed p s = record s {
  running_count = p.running_count;
  actions = collect_response p.received s.actions;
  messages = s.messages ++ p.messages;
}

unfoldable pub perform : Bool → Progress → Internal → Outcome Internal
perform ndebug p s = check ndebug p.performed >> (do
  s' ←
      (if s.running_count == p.running_count
        then ok (progressed p s)
        else read_messages ndebug p.removed (progressed p s).messages (progressed p s))
  check ndebug p.timed >> ok (schedule p.milliseconds s'))

-- What follows the `init` of each action.
unfoldable pub start : Bool → Progress → Action → Option Transfer → Internal → Outcome Internal
start ndebug p a none s = ok (action_done 0 a s)
start ndebug p a (some transfer) s =
    perform ndebug p (record s { actions = emplace transfer.curl a s.actions })

unfoldable pub start_upload : Bool → Answers → String → String → ℕ → Internal → Outcome Internal
start_upload ndebug answers src dst finished s =
    let s' : Internal = record s { upload_count = (s.upload_count + 1) % 2 ^ 32 } in
    let skipped : Report = record { finished = finished; response_code = 0; response = "" } in
    if ltb max_uploads s'.upload_count
    then ok (upload_finished skipped s')
    else start ndebug answers.progress (new_action (upload_action dst src) false finished)
        (upload_init answers.easy answers.opened s.token dst src) s'

abbrev pub start_list_folder :
    Bool → Answers → String → Bool → ℕ → Bool → Internal → Outcome Internal
start_list_folder ndebug answers path recursive finished internal s =
    start ndebug answers.progress (new_action (list_folder_action path) internal finished)
      (list_folder_init answers.easy s.token path recursive) s

abbrev pub start_continue_list_folder :
    Bool → Answers → String → ℕ → Bool → Internal → Outcome Internal
start_continue_list_folder ndebug answers cursor finished internal s =
    start ndebug answers.progress (new_action continue_list_folder_action internal finished)
      (continue_list_folder_init answers.easy s.token cursor) s

abbrev pub start_latest_folder_cursor :
    Bool → Answers → String → Bool → ℕ → Bool → Internal → Outcome Internal
start_latest_folder_cursor ndebug answers path recursive finished internal s =
    start ndebug answers.progress (new_action latest_folder_cursor_action internal finished)
      (latest_folder_cursor_init answers.easy s.token path recursive) s

abbrev pub start_delete_path : Bool → Answers → String → ℕ → Bool → Internal → Outcome Internal
start_delete_path ndebug answers path finished internal s =
    start ndebug answers.progress (new_action delete_path_action internal finished)
      (delete_path_init answers.easy s.token path) s

abbrev pub start_delete_batch :
    Bool → Answers → List String → ℕ → Bool → Internal → Outcome Internal
start_delete_batch ndebug answers list finished internal s =
    start ndebug answers.progress (new_action delete_batch_action internal finished)
      (delete_batch_init answers.easy s.token list) s

abbrev pub shut_down : OnShutdown → Internal → Internal
shut_down finished s = record s { shutdowned = some finished; working = false }

-- A task of the thread.
unfoldable pub run_task : Bool → Answers → Task → Internal → Outcome Internal
run_task ndebug answers (upload src dst finished) s = start_upload ndebug answers src dst finished s
run_task ndebug answers (list_folder path recursive finished internal) s =
    start_list_folder ndebug answers path recursive finished internal s
run_task ndebug answers (continue_list_folder cursor finished internal) s =
    start_continue_list_folder ndebug answers cursor finished internal s
run_task ndebug answers (latest_folder_cursor path recursive finished internal) s =
    start_latest_folder_cursor ndebug answers path recursive finished internal s
run_task ndebug answers (delete_path path finished internal) s =
    start_delete_path ndebug answers path finished internal s
run_task ndebug answers (delete_batch list finished internal) s =
    start_delete_batch ndebug answers list finished internal s
run_task ndebug answers (shutdown finished) s = ok (shut_down finished s)
run_task ndebug answers curl_perform s = perform ndebug answers.progress s
run_task ndebug answers (waited error) s = if error then ok s else perform ndebug answers.progress s

-- What may happen next: a call from the other thread, the first task, the end of the wait, and the
-- return of `_curlIoService.run()` when nothing is left to do, with the rest of `curlThreadMain`.
pub data Event : Type 0 where
  posts : Task → Event
  runs : Answers → Event
  expires returns : Event

unfoldable pub run_first : Bool → Answers → List Task → Internal → Outcome Internal
run_first ndebug answers [] s = ok s
run_first ndebug answers (task ∷ rest) s =
    if s.ended then ok s else run_task ndebug answers task (record s { tasks = rest })

unfoldable pub step : Bool → Event → Internal → Outcome Internal
step ndebug (posts task) s = ok (post task s)
step ndebug (runs answers) s = run_first ndebug answers s.tasks s
step ndebug expires s =
    when_some s.timer (ok s) (λ t. ok (post (waited false) (record s { timer = none })))
step ndebug returns s =
    if is_nil s.tasks && not (is_some s.timer) && not s.working && not s.ended
    then ok (record s { ended = true; posted = s.posted ++ (thread_ended ∷ []) })
    else ok s

unfoldable pub steps : Bool → List Event → Internal → Outcome Internal
steps ndebug [] s = ok s
steps ndebug (event ∷ events) s = step ndebug event s >>= steps ndebug events
