-- ===== src/DeviceBox/SplitHandler/Recording.antt =====
-- DeviceBox/SplitHandler.cpp: from the constructor to the shutdown.
use ip_cam_box.Prelude.{
  ℕ, Bool, true, false, Option, none, some, List, [], ◌∷◌, ◌++◌, ◌≡◌, ◌⊎◌, Outcome, ok, fault,
  ◌>>=◌, Then, is_some, All,
}
use ip_cam_box.DeviceBox.SplitHandler.{
  Splitter, GstState, state_null, Task, file_ready, finished, BusMessage, Paths, start_split,
  stop_split, shutdown, on_filesink_state_changed, GstCall, set_state, state_playing,
}

pub data Event : Type 0 where
  starts stops shuts_down : ℕ → Event
  says : BusMessage → Event

-- GStreamer does not fail to change a state, which the code demands.
unfoldable pub step : Bool → Paths → Event → Splitter → Outcome Splitter
step ndebug paths (starts f) s = start_split ndebug false f s
step ndebug paths (stops f) s = stop_split ndebug false f s
step ndebug paths (shuts_down f) s = shutdown ndebug false f s
step ndebug paths (says m) s = ok (on_filesink_state_changed paths m s)

unfoldable pub run : Bool → Paths → List Event → Splitter → Outcome Splitter
run ndebug paths [] s = ok s
run ndebug paths (e ∷ es) s = step ndebug paths e s >>= run ndebug paths es

-- A pipeline was set to the state PLAYING.
abbrev pub has_played : List GstCall → Bool
has_played [] = false
has_played (set_state state_playing ∷ calls) = true
has_played (_ ∷ calls) = has_played calls

-- The elements change their states, of which the bus speaks, only after a pipeline has played.
abbrev pub IsAllowed : Event → Splitter → Type 0
IsAllowed (says m) s = has_played s.calls ≡ true
IsAllowed _ s = Unit

abbrev pub AllAllowed : Bool → Paths → List Event → Splitter → Type 0
AllAllowed ndebug paths [] s = Unit
AllAllowed ndebug paths (e ∷ es) s =
    IsAllowed e s × Then (AllAllowed ndebug paths es) (step ndebug paths e s)

-- The callbacks of `stopSplit` and `shutdown` that the events give, in their order.
abbrev pub asked : List Event → List ℕ
asked [] = []
asked (stops f ∷ es) = f ∷ asked es
asked (shuts_down f ∷ es) = f ∷ asked es
asked (_ ∷ es) = asked es

abbrev pub has_shutdown : List Event → Bool
has_shutdown [] = false
has_shutdown (shuts_down f ∷ es) = true
has_shutdown (_ ∷ es) = has_shutdown es

-- Those that are posted.
abbrev pub answered : List Task → List ℕ
answered [] = []
answered (finished f ∷ ts) = f ∷ answered ts
answered (file_ready f dir name ∷ ts) = answered ts

-- A file is reported to a callback that is there.
abbrev pub IsReported : Task → Type 0
IsReported (file_ready f dir name) = is_some f ≡ true
IsReported (finished f) = Unit

abbrev IsStill : GstState → Type 0
IsStill state = state ≡ state_null

record IsRecorder (s : Splitter) : Type 0 where
  released : All IsStill s.released
  reported : All IsReported s.posted
  played : has_played s.calls ≡ true → is_some s.file_ready_callback ≡ true

-- What one event adds.
record Adds (f : List ℕ) (gone : Bool) (s t : Splitter) : Type 0 where
  recorder : IsRecorder t
  answers : answered t.posted ≡ answered s.posted ++ f
  pipeline : gone ≡ true → t.pipeline ≡ none
  stays : s.pipeline ≡ none → t.pipeline ≡ none

abbrev Does : List ℕ → Bool → Splitter → Outcome Splitter → Type 0
Does f gone s (ok t) = Adds f gone s t
Does f gone s (fault why) = ⊥

abbrev is_shutdown : Event → Bool
is_shutdown (shuts_down f) = true
is_shutdown _ = false

abbrev with : Option GstState → Splitter → Splitter
with o s = record s { pipeline = o }

-- A recorder whose pipeline, if there is one, has not been started.
abbrev IsNew : Splitter → Type 0
IsNew s = IsRecorder s × ((s.pipeline ≡ none) ⊎ (s.pipeline ≡ some state_null))
