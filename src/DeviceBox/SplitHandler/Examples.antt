-- ===== src/DeviceBox/SplitHandler/Examples.antt =====
-- DeviceBox/SplitHandler.cpp: a recorder that is started, has written a file and is shut down.
use ip_cam_box.Prelude.{
  true, false, some, List, [], ◌∷◌, ◌≡◌, refl, ok, ◌>>=◌, when_some, return_if,
}
use ip_cam_box.DeviceBox.DeviceConfig.{SourceConfig}
use ip_cam_box.DeviceBox.SplitHandler.{
  state_null, Paths, BusMessage, file_ready, finished, construct, init_pipeline, start_split,
  shutdown, change_state, stop_split, on_filesink_state_changed,
}
use ip_cam_box.DeviceBox.SplitHandler.Recording.{Event, starts, stops, shuts_down, says, step, run}

abbrev source : SourceConfig
source = record {
  id = "a";
  uri = "rtsp://camera";
  user = "";
  password = "";
  archive_path = "/tmp/a";
  desired_file_size = 1;
  dropbox_archive_path = "/a/";
  dropbox_max_storage = 7;
}

abbrev paths : Paths
paths = record { dirname = λ location. "/tmp/a"; basename = λ location. "0.ts" }

-- The file sink of the second pipeline has ended a file.
abbrev ended : BusMessage
ended = record {
  state_changed = true;
  source = 1;
  new_state = state_null;
  location = some "/tmp/a/0.ts";
}

abbrev events : List Event
events = starts 3 ∷ says ended ∷ stops 4 ∷ shuts_down 5 ∷ []

-- The tasks of that run.
events-posted :
    (run false paths events (construct (λ e. true) (λ e. true) source) >>= λ s. ok s.posted)
    ≡ ok (file_ready (some 3) "/tmp/a" "0.ts" ∷ finished 4 ∷ finished 5 ∷ [])
unfolding run step construct init_pipeline start_split stop_split shutdown change_state
    on_filesink_state_changed when_some return_if
events-posted = refl
