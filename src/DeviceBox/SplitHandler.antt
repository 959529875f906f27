-- ===== src/DeviceBox/SplitHandler.antt =====
-- DeviceBox/SplitHandler.h and .cpp: the recorder of a source. What GStreamer answers is an argument, what
-- its bus and its decoder say are events, and what is called of it is kept in order; callbacks are
-- numbers.
pub mod Recording
mod Examples
use ip_cam_box.Prelude.{
  ℕ, ◌+◌, String, string_eq, concat, Bool, true, false, not, ◌&&◌, Option, none, some, List, [],
  ◌∷◌, ◌++◌, Outcome, ok, fault, ◌>>=◌, ◌>>◌, check, return_if, when_some, if◌then◌else◌, nat_eq,
  ◌==◌,
}
use ip_cam_box.DeviceBox.DeviceConfig.{SourceConfig}

-- The elements that `initPipeline` makes.
pub data Element : Type 0 where
  uridecodebin mpegtsmux filesink splitmuxsink : Element

pub data GstState : Type 0 where
  state_null state_ready state_paused state_playing : GstState

-- The calls that set a pipeline up and run it.
pub data GstCall : Type 0 where
  set_decodebin_caps connect_autoplug_continue connect_pad_added : GstCall
  set_splitmuxsink : String → ℕ → GstCall
  connect_state_changed add_to_pipeline : GstCall
  set_uri : String → GstCall
  set_state : GstState → GstCall

-- The tasks that it posts. A file is reported to `fileReadyCallback`, which throws if it is empty.
pub data Task : Type 0 where
  file_ready : Option ℕ → String → String → Task
  finished : ℕ → Task

-- `pipeline` is the state that a pipeline was set to last, `released` are these states of the pipelines
-- that were let go; `filesink` is a number for the element that the member points to.
pub record Splitter : Type 0 where
  pub config : SourceConfig
  pub pipeline : Option GstState
  pub filesink : Option ℕ
  pub file_ready_callback : Option ℕ
  pub calls : List GstCall
  pub released : List GstState
  pub posted : List Task

abbrev pub post : Task → Splitter → Splitter
post task s = record s { posted = s.posted ++ (task ∷ []) }

-- `pipeline.reset`, with the next one.
abbrev pub reset_pipeline : Option GstState → Splitter → Splitter
reset_pipeline next s = record s {
  pipeline = next;
  released = s.released ++ when_some s.pipeline [] (λ state. state ∷ []);
}

abbrev pub set_up : SourceConfig → List GstCall
set_up config =
    set_decodebin_caps
    ∷ connect_autoplug_continue
    ∷ connect_pad_added
    ∷ set_splitmuxsink (concat config.archive_path "/%010d.ts") config.desired_file_size
    ∷ connect_state_changed
    ∷ add_to_pipeline
    ∷ []

-- `made` says which elements could be made, `sink` is the number of the new file sink.
unfoldable pub init_pipeline : (Element → Bool) → ℕ → Splitter → Splitter
init_pipeline made sink s =
    let new : Splitter = reset_pipeline (some state_null) s in
    let pointed : Splitter = record new { filesink = if made filesink then some sink else none } in
    if made uridecodebin && (made mpegtsmux && (made filesink && made splitmuxsink))
    then record pointed { calls = pointed.calls ++ set_up pointed.config }
    else reset_pipeline none pointed

-- The constructor of `Private` sets the pipeline up, and that of `SplitHandler` does so again.
unfoldable pub construct : (Element → Bool) → (Element → Bool) → SourceConfig → Splitter
construct made made_again config = init_pipeline made_again 1 (
    init_pipeline made 0 (record {
      config = config;
      pipeline = none;
      filesink = none;
      file_ready_callback = none;
      calls = [];
      released = [];
      posted = [];
    }))

-- `gst_element_set_state`; `fails` says whether it answers GST_STATE_CHANGE_FAILURE.
unfoldable pub change_state : Bool → Bool → GstState → Splitter → Outcome Splitter
change_state ndebug fails state s =
    check ndebug (not fails)
    >> ok (record s { pipeline = some state; calls = s.calls ++ (set_state state ∷ []) })

unfoldable pub start_split : Bool → Bool → ℕ → Splitter → Outcome Splitter
start_split ndebug fails callback s = when_some s.pipeline (ok s) (λ state.
    change_state ndebug fails state_playing (record s {
      file_ready_callback = some callback;
      calls = s.calls ++ (set_uri s.config.uri ∷ []);
    }))

unfoldable pub stop_split : Bool → Bool → ℕ → Splitter → Outcome Splitter
stop_split ndebug fails f s =
    when_some s.pipeline (ok (post (finished f) s))
      (λ state. do stopped ← change_state ndebug fails state_null s; ok (post (finished f) stopped))

unfoldable pub shutdown : Bool → Bool → ℕ → Splitter → Outcome Splitter
shutdown ndebug fails f s = do
  stopped ← stop_split ndebug fails f s
  ok (reset_pipeline none stopped)

-- `~SplitHandler`.
unfoldable pub destroy : Bool → Splitter → Outcome (Unit {0})
destroy ndebug s = when_some s.pipeline (ok tt) (λ state. check ndebug false)

-- A message of the bus: whether it is a change of state, the number of its source, the new state and the
-- `location` of the source.
pub record BusMessage : Type 0 where
  pub state_changed : Bool
  pub source : ℕ
  pub new_state : GstState
  pub location : Option String

abbrev pub is_null : GstState → Bool
is_null state_null = true
is_null _ = false

abbrev pub is_filesink : Option ℕ → ℕ → Bool
is_filesink none n = false
is_filesink (some sink) n = sink == n

-- `g_path_get_dirname` and `g_path_get_basename`.
pub record Paths : Type 0 where
  pub dirname : String → String
  pub basename : String → String

unfoldable pub on_filesink_state_changed : Paths → BusMessage → Splitter → Splitter
on_filesink_state_changed paths m s = return_if (not m.state_changed) s (
    return_if (not (is_filesink s.filesink m.source)) s (
      return_if (not (is_null m.new_state)) s (
        when_some m.location s (λ location.
          post (file_ready s.file_ready_callback (paths.dirname location) (paths.basename location))
            s))))

-- The decoder asks whether to go on with what `compatible` says of the caps.
unfoldable pub decodebin_autoplug_continue : Bool → Bool
decodebin_autoplug_continue compatible = if compatible then false else true

-- The calls for a pad of the decoder.
pub data PadCall : Type 0 where
  add_h264parse add_fakesink link_parse link_splitmuxsink link_fakesink : PadCall

-- `linked` says whether the last link succeeds.
unfoldable pub decodebin_pad_added : Bool → Bool → Bool → Outcome (List PadCall)
decodebin_pad_added ndebug compatible linked =
    let calls : List PadCall =
      if compatible
      then add_h264parse ∷ link_parse ∷ link_splitmuxsink ∷ []
      else add_fakesink ∷ link_fakesink ∷ [] in
    check ndebug linked >> ok calls
