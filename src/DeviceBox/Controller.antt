-- ===== src/DeviceBox/Controller.antt =====
-- DeviceBox/Controller.h and .cpp: the sources that a device handles, each with a splitter, a streamer
-- and a Dropbox folder, and the chain of their shutdowns. What the controller calls of these, of the
-- Dropbox client and of the file system is kept in order; that one of them has finished is an event.
pub mod Stages
pub mod Shutdowns
pub mod Completion
pub mod Reload
mod Examples
use ip_cam_box.Prelude.{
  ℕ, ◌+◌, String, string_eq, concat, Bool, true, false, not, Option, none, some, List, [], ◌∷◌,
  ◌++◌, Outcome, ok, fault, null_pointer, ◌>>=◌, ◌>>◌, check, nat_eq, ◌==◌, ltb, is_nil,
  if◌then◌else◌, when_some,
}
use ip_cam_box.Prelude.Assoc.{Assoc, find, erase, emplace, modify}
use ip_cam_box.DeviceBox.DeviceConfig.{
  VideoSource, SourceConfig, DeviceConfig, load_config as load_device_config, is_empty_config,
  clear, enum_sources,
}

-- `Protocol::ClientConfig`.
pub record ClientConfig : Type 0 where
  pub sources : List VideoSource
  pub dropbox : Option String

-- A callback of the controller's caller, by number, or the loading of a configuration after a reset.
pub data Finished : Type 0 where
  callback : ℕ → Finished
  load : ClientConfig → ℕ → Finished

-- What follows the removal of all sources: `resetDropbox` or `shutdownDropbox`.
pub data AfterStop : Type 0 where
  reset_dropbox : Finished → AfterStop
  shutdown_dropbox : ℕ → AfterStop

-- What follows the Dropbox client: `clearConfig` or `dropboxShutdowned`.
pub data AfterDropbox : Type 0 where
  clear_config : Finished → AfterDropbox
  dropbox_shutdowned : ℕ → AfterDropbox

-- The member of a source's handlers that is shutting down.
pub data Stage : Type 0 where
  splitter dropbox_folder streamer : Stage

-- The calls of the members, of the client and of the file system, with the source.
pub data Ask : Type 0 where
  start_sync : String → String → Ask
  start_split : String → Ask
  shrink_folder : String → ℕ → Ask
  stream : String → String → ℕ → ℕ → Ask
  stop_stream : String → Ask
  shutdown_stage : String → Stage → Ask
  dropbox_token : String → Ask
  dropbox_upload : String → String → Ask
  dropbox_reset dropbox_shutdown : AfterDropbox → Ask
  remove_file : String → Ask

-- `pending` are the shutdowns of the source that are not done, the first called first.
pub record SourceHandlers : Type 0 where
  pub config : SourceConfig
  pub pending : List (Stage × AfterStop)

-- The tasks that the controller posts.
pub data Post : Type 0 where
  after_stop : AfterStop → Post
  finished : Finished → Post

-- `called` are the callbacks of the controller's caller that have run.
pub record Controller : Type 0 where
  pub working : Bool
  pub config : DeviceConfig
  pub handlers : Assoc String SourceHandlers
  pub shrink_timer : Bool
  pub asked : List Ask
  pub posted : List Post
  pub called : List ℕ

unfoldable pub construct : Controller
construct = record {
  working = true;
  config = record { sources = []; dropbox_token = "" };
  handlers = [];
  shrink_timer = false;
  asked = [];
  posted = [];
  called = [];
}

abbrev pub ask : Ask → Controller → Controller
ask a c = record c { asked = c.asked ++ (a ∷ []) }

abbrev pub post : Post → Controller → Controller
post p c = record c { posted = c.posted ++ (p ∷ []) }

-- A new recording of a source with this configuration; the answer of the upload removes the file.
unfoldable pub new_file_available : SourceConfig → String → String → Controller → Controller
new_file_available config dir name c =
    if config.dropbox_max_storage == 0
    then c
    else ask
        (dropbox_upload (concat dir (concat "/" name)) (concat config.dropbox_archive_path name)) c

-- The callback of that upload, whatever its response.
unfoldable pub upload_finished : String → ℕ → Controller → Controller
upload_finished local_file response_code = ask (remove_file local_file)

unfoldable pub schedule_shrink_storage : Controller → Controller
schedule_shrink_storage c = record c { shrink_timer = true }

unfoldable pub start_handle_source : SourceConfig → Controller → Controller
start_handle_source config c =
    let added : Controller = record c {
      handlers = emplace config.id (record { config = config; pending = [] }) c.handlers;
    } in
    if config.dropbox_max_storage == 0
    then added
    else schedule_shrink_storage
        (ask (start_split config.id) (ask (start_sync config.id config.dropbox_archive_path) added))

-- `active` says whether a member of the handlers is.
unfoldable pub remove_source : Bool → Bool → String → AfterStop → Controller → Outcome Controller
remove_source ndebug active source then_do c = do
  c' ← when_some (find source c.handlers) (check ndebug false >> ok c) (λ handlers.
      check ndebug (not active) >> ok (record c { handlers = erase source c.handlers }))
  ok (if is_nil c'.handlers then post (after_stop then_do) c' else c')

-- The loop over the handlers in `stopHandleSources`.
unfoldable pub shutdown_splitters :
    AfterStop → Assoc String SourceHandlers → Assoc String SourceHandlers × List Ask
shutdown_splitters then_do [] = ([], [])
shutdown_splitters then_do ((source, h) ∷ rest) =
    let (handlers, asked) = shutdown_splitters then_do rest in
    let called : SourceHandlers = record h { pending = h.pending ++ ((splitter, then_do) ∷ []) } in
    ((source, called) ∷ handlers, shutdown_stage source splitter ∷ asked)

unfoldable pub stop_handle_sources : AfterStop → Controller → Controller
stop_handle_sources then_do c =
    let (handlers, asked) = shutdown_splitters then_do c.handlers in
    if is_nil c.handlers
    then post (after_stop then_do) c
    else record c { handlers = handlers; asked = c.asked ++ asked }

abbrev pub set_pending : String → List (Stage × AfterStop) → Controller → Controller
set_pending source pending c = record c {
  handlers = modify source (λ h. record h { pending = pending }) c.handlers;
}

-- The lambda that the member of the first shutdown was given.
unfoldable pub next_stage :
    Bool → Bool → String → List (Stage × AfterStop) → Controller → Outcome Controller
next_stage ndebug active source [] c = ok c
next_stage ndebug active source ((splitter, then_do) ∷ rest) c = ok (
    ask (shutdown_stage source dropbox_folder)
      (set_pending source ((dropbox_folder, then_do) ∷ rest) c))
next_stage ndebug active source ((dropbox_folder, then_do) ∷ rest) c =
    ok (ask (shutdown_stage source streamer) (set_pending source ((streamer, then_do) ∷ rest) c))
next_stage ndebug active source ((streamer, then_do) ∷ rest) c =
    remove_source ndebug active source then_do c

-- A member of a source has finished its shutdown and calls the lambda.
unfoldable pub stage_done : Bool → Bool → String → Controller → Outcome Controller
stage_done ndebug active source c =
    when_some (find source c.handlers) (fault null_pointer)
      (λ h. next_stage ndebug active source h.pending c)

unfoldable pub reset : Finished → Controller → Controller
reset f = stop_handle_sources (reset_dropbox f)

unfoldable pub shut_down : ℕ → Controller → Controller
shut_down f = stop_handle_sources (shutdown_dropbox f)

-- The Dropbox client has finished its reset or shutdown.
unfoldable pub dropbox_done : Bool → AfterDropbox → Controller → Outcome Controller
dropbox_done ndebug (clear_config f) c =
    check ndebug (is_nil c.handlers)
    >> ok (post (finished f) (record c { config = clear c.config }))
dropbox_done ndebug (dropbox_shutdowned f) c =
    ok (record (post (finished (callback f)) c) { working = false })

module _ (dir_make_tmp : ℕ → Option String) where
  -- The branch of `loadConfig` for a controller without a configuration.
  unfoldable pub load_first : ClientConfig → ℕ → Controller → Controller
  load_first new f c =
      let config : DeviceConfig =
        load_device_config dir_make_tmp new.sources new.dropbox c.config in
      let told : Controller =
        ask (dropbox_token config.dropbox_token) (record c { config = config }) in
      post (finished (callback f))
        (enum_sources (λ source d. (true, start_handle_source source d)) config.sources told)

  unfoldable pub load_config : ClientConfig → ℕ → Controller → Controller
  load_config new f c =
      if is_empty_config c.config then load_first new f c else reset (load new f) c

  unfoldable pub update_config : ClientConfig → ℕ → Controller → Controller
  update_config = load_config

  -- A posted task runs.
  unfoldable pub run_post : Post → Controller → Controller
  run_post (after_stop (reset_dropbox f)) c = ask (dropbox_reset (clear_config f)) c
  run_post (after_stop (shutdown_dropbox f)) c = ask (dropbox_shutdown (dropbox_shutdowned f)) c
  run_post (finished (callback f)) c = record c { called = c.called ++ (f ∷ []) }
  run_post (finished (load new f)) c = load_config new f c

unfoldable pub stream_requested : Bool → String → String → ℕ → ℕ → Controller → Outcome Controller
stream_requested ndebug source destination streaming failed c =
    when_some (find source c.handlers) (check ndebug false >> ok c)
      (λ handlers. ok (ask (stream source destination streaming failed) c))

unfoldable pub stop_stream_of : Bool → String → Controller → Outcome Controller
stop_stream_of ndebug source c =
    when_some (find source c.handlers) (check ndebug false >> ok c)
      (λ handlers. ok (ask (stop_stream source) c))

unfoldable pub shrink_all : Assoc String SourceHandlers → Controller → Controller
shrink_all [] c = c
shrink_all ((source, h) ∷ rest) c = shrink_all rest (
    if ltb 0 h.config.dropbox_max_storage
    then ask (shrink_folder source h.config.dropbox_max_storage) c
    else c)

-- The wait of the timer ends without an error.
unfoldable pub shrink_storage : Controller → Controller
shrink_storage c =
    schedule_shrink_storage (shrink_all c.handlers (record c { shrink_timer = false }))
