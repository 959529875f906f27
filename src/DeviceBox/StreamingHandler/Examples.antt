-- ===== src/DeviceBox/StreamingHandler/Examples.antt =====
-- DeviceBox/StreamingHandler.cpp: a stream that runs, and orders of calls.
use ip_cam_box.Prelude.{
  ℕ, ◌<◌, true, false, none, some, List, [], ◌∷◌, ◌≡◌, refl, inl, Outcome, ok, fault, assertion,
  ◌>>=◌,
}
use ip_cam_box.DeviceBox.StreamingHandler.{
  Handler, Event, change_async, playing, async, streams, stops, shuts_down, says, runs, step,
  construct, stream, stop_stream, shutdown, run_first, run_task, destroy, stop_streamer,
  bus_message, release, async_handler, start_tasks,
}
use ip_cam_box.DeviceBox.StreamingHandler.Safety.{Goes, step-Goes}
use ip_cam_box.DeviceBox.StreamingHandler.Ending.{run_times, times, shutdown-ends}

-- A stream that plays, with one task of the bus.
abbrev plays : Handler
plays = record {
  streamer = some (record { pipeline = true; refs = 1; streaming = 3; stream_failed = 4 });
  shutted_down = none;
  tasks = async playing ∷ [];
  called = [];
}

step-Goes_example : Goes (step false (shuts_down 5) plays)
step-Goes_example = step-Goes false (shuts_down 5) plays (refl, inl (refl, refl, refl)) refl

shutdown-ends_example :
    (n : ℕ) × (e : Handler) × ((step false (shuts_down 5) plays >>= run_times false n) ≡ ok e)
    × (e.tasks ≡ [])
    × (e.streamer ≡ none)
    × (e.shutted_down ≡ none)
    × (0 < times 5 e.called)
shutdown-ends_example = shutdown-ends false 5 plays (refl, inl (refl, refl, refl)) refl

-- The steps in their order.
abbrev steps : List Event → Handler → Outcome Handler
steps [] h = ok h
steps (event ∷ events) h = step false event h >>= steps events

-- A stream starts, plays and is shut down, and the callback of the shutdown is called last.
shut_down_at_last :
    steps
      (streams true change_async 3 4
        ∷ says playing
        ∷ runs
        ∷ runs
        ∷ runs
        ∷ shuts_down 5
        ∷ runs
        ∷ runs
        ∷ [])
      construct
    ≡ ok (record { streamer = none; shutted_down = none; tasks = []; called = 3 ∷ 5 ∷ [] })
unfolding step stream stop_stream shutdown run_first run_task destroy stop_streamer bus_message
    release async_handler start_tasks construct
shut_down_at_last = refl

-- A second stop leaves a second task that destroys, which finds the next stream.
two_stops-fault :
    steps
      (streams true change_async 3 4
        ∷ stops
        ∷ stops
        ∷ runs
        ∷ streams true change_async 5 6
        ∷ runs
        ∷ [])
      construct
    ≡ fault assertion
unfolding step stream stop_stream shutdown run_first run_task destroy stop_streamer bus_message
    release async_handler start_tasks construct
two_stops-fault = refl
