-- ===== src/DeviceBox/StreamingHandler.antt =====
-- DeviceBox/StreamingHandler.cpp: `StreamingHandler`, and the `Streamer` that it owns while a stream
-- runs or stops. What GStreamer answers and what its bus says are parameters and events; the tasks are
-- those that both post to the io_service, and callbacks are numbers.
pub mod Safety
pub mod Ending
mod Examples
use ip_cam_box.Prelude.{
  ℕ, ◌+◌, ◌-◌, Bool, true, false, not, ◌&&◌, Option, none, some, List, [], ◌∷◌, ◌++◌, Outcome, ok,
  fault, null_pointer, ◌>>=◌, ◌>>◌, check, nat_eq, ◌==◌, is_some, if◌then◌else◌,
}

-- The answer of `gst_element_set_state`.
pub data StateChange : Type 0 where
  change_failure change_async change_success change_no_preroll : StateChange

-- The messages of the bus that the sync handler acts on.
pub data BusMessage : Type 0 where
  playing eos error : BusMessage

-- `pipeline` says whether there is one, and `refs` is the number of posted tasks that hold a copy of
-- `_thisRefCounter`.
pub record Streamer : Type 0 where
  pub pipeline : Bool
  pub refs : ℕ
  pub streaming : ℕ
  pub stream_failed : ℕ

-- The asynchronous handlers of the streamer, which hold a reference to it; the bound
-- `destroyStreaming`, `streaming` and `streamFailed`; and the callbacks of the handler's caller.
pub data Task : Type 0 where
  async : BusMessage → Task
  destroy_streaming : Task
  streaming stream_failed call : ℕ → Task

pub record Handler : Type 0 where
  pub streamer : Option Streamer
  pub shutted_down : Option ℕ
  pub tasks : List Task
  pub called : List ℕ

unfoldable pub construct : Handler
construct = record { streamer = none; shutted_down = none; tasks = []; called = [] }

abbrev pub post : Task → Handler → Handler
post task h = record h { tasks = h.tasks ++ (task ∷ []) }

-- `Streamer::stream`: what it posts.
unfoldable pub start_tasks : StateChange → ℕ → ℕ → List Task
start_tasks change_failure s f = stream_failed f ∷ []
start_tasks change_async s f = []
start_tasks change_success s f = streaming s ∷ []
start_tasks change_no_preroll s f = streaming s ∷ []

abbrev pub is_success : StateChange → Bool
is_success change_success = true
is_success _ = false

-- `Streamer::stopStream`, with the answer to the state NULL.
unfoldable pub stop_streamer : Bool → StateChange → Streamer → Handler → Outcome Handler
stop_streamer ndebug change st h =
    let stopped : Streamer = record st { pipeline = false } in
    let next : Handler = record h { streamer = some stopped } in
    (if st.pipeline then check ndebug (is_success change) else ok tt)
    >> ok (if st.refs == 0 then post destroy_streaming next else next)

-- `stream`: `made` says whether `initPipeline` made the pipeline, `change` is the answer to PLAYING.
unfoldable pub stream : Bool → StateChange → ℕ → ℕ → Handler → Handler
stream made change s f h =
    if is_some h.streamer then h else if not made then post (call f) h else record h {
      streamer = some (record { pipeline = true; refs = 0; streaming = s; stream_failed = f });
      tasks = h.tasks ++ start_tasks change s f;
    }

unfoldable pub stop_stream : Bool → StateChange → Option Streamer → Handler → Outcome Handler
stop_stream ndebug change none h = ok h
stop_stream ndebug change (some st) h = stop_streamer ndebug change st h

unfoldable pub shutdown : Bool → StateChange → ℕ → Option Streamer → Handler → Outcome Handler
shutdown ndebug change f none h = ok (post (call f) h)
shutdown ndebug change f (some st) h =
    check ndebug (not (is_some h.shutted_down))
    >> stop_streamer ndebug change st (record h { shutted_down = some f })

-- `threadedBusMessage`: the posted task holds a reference.
unfoldable pub bus_message : BusMessage → Option Streamer → Handler → Handler
bus_message m none h = h
bus_message m (some st) h =
    if st.pipeline
    then post (async m) (record h { streamer = some (record st { refs = st.refs + 1 }) })
    else h

-- The copy of `_thisRefCounter` in a task goes with the task; the last one calls `noMoreRefs`.
unfoldable pub release : Option Streamer → Handler → Outcome Handler
release none h = fault null_pointer
release (some st) h =
    let next : Handler = record h { streamer = some (record st { refs = st.refs - 1 }) } in
    ok (if (st.refs == 1) && not st.pipeline then post destroy_streaming next else next)

-- `asyncPlaying`, `asyncError` and `asyncEos`, called on the streamer; a streamer that is gone is a
-- dangling pointer.
unfoldable pub async_handler :
    Bool → StateChange → BusMessage → Option Streamer → Handler → Outcome Handler
async_handler ndebug change m none h = fault null_pointer
async_handler ndebug change playing (some st) h = ok (post (streaming st.streaming) h)
async_handler ndebug change error (some st) h =
    stop_streamer ndebug change st (post (stream_failed st.stream_failed) h)
async_handler ndebug change eos (some st) h =
    stop_streamer ndebug change st (post (stream_failed st.stream_failed) h)

-- `~Streamer`.
abbrev pub destroyed : Bool → Option Streamer → Outcome (Unit {0})
destroyed ndebug none = ok tt
destroyed ndebug (some st) = check ndebug (not st.pipeline)

abbrev pub call_shutted_down : Option ℕ → Handler → Handler
call_shutted_down none h = h
call_shutted_down (some f) h = post (call f) (record h { shutted_down = none })

unfoldable pub destroy : Bool → Handler → Outcome Handler
destroy ndebug h =
    destroyed ndebug h.streamer
    >> ok (call_shutted_down h.shutted_down (record h { streamer = none }))

unfoldable pub run_task : Bool → StateChange → Task → Handler → Outcome Handler
run_task ndebug change (async m) h = do
  h' ← async_handler ndebug change m h.streamer h
  release h'.streamer h'
run_task ndebug change destroy_streaming h = destroy ndebug h
run_task ndebug change (streaming n) h = ok (post (call n) h)
run_task ndebug change (stream_failed n) h = ok (post (call n) h)
run_task ndebug change (call n) h = ok (record h { called = h.called ++ (n ∷ []) })

-- The io_service runs its first task.
unfoldable pub run_first : Bool → StateChange → List Task → Handler → Outcome Handler
run_first ndebug change [] h = ok h
run_first ndebug change (task ∷ rest) h = run_task ndebug change task (record h { tasks = rest })

pub data Event : Type 0 where
  streams : Bool → StateChange → ℕ → ℕ → Event
  stops : Event
  shuts_down : ℕ → Event
  says : BusMessage → Event
  runs : Event

-- GStreamer answers the state NULL with success, which the code demands.
unfoldable pub step : Bool → Event → Handler → Outcome Handler
step ndebug (streams made change s f) h = ok (stream made change s f h)
step ndebug stops h = stop_stream ndebug change_success h.streamer h
step ndebug (shuts_down f) h = shutdown ndebug change_success f h.streamer h
step ndebug (says m) h = ok (bus_message m h.streamer h)
step ndebug runs h = run_first ndebug change_success h.tasks h
