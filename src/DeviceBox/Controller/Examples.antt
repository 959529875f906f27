-- ===== src/DeviceBox/Controller/Examples.antt =====
-- DeviceBox/Controller.cpp: a device with two sources.
use ip_cam_box.Prelude.{
  ◌+◌, ◌*◌, ◌≤◌, String, string_eq, Bool, false, List, [], ◌∷◌, ◌++◌, ◌≡◌, refl, Then, length,
  is_nil, if◌then◌else◌, ok,
}
use ip_cam_box.Prelude.Assoc.{IsMap, find}
use ip_cam_box.DeviceBox.DeviceConfig.{SourceConfig}
use ip_cam_box.DeviceBox.Controller.{
  Controller, shutdown_dropbox, after_stop, remove_file, dropbox_upload, construct,
  stop_handle_sources, new_file_available, upload_finished,
}
use ip_cam_box.DeviceBox.Controller.Stages.{stages_left}
use ip_cam_box.DeviceBox.Controller.Shutdowns.{stages_done, stop-posts_once}
use ip_cam_box.DeviceBox.Controller.Completion.{stop-completes}

abbrev source_named : String → SourceConfig
source_named id = record {
  id = id;
  uri = "rtsp://camera";
  user = "";
  password = "";
  archive_path = "/tmp";
  desired_file_size = 1;
  dropbox_archive_path = "/archive/";
  dropbox_max_storage = 7;
}

abbrev two_sources : Controller
two_sources = record construct {
  config = record { sources = []; dropbox_token = "token" };
  handlers =
      ("a", record { config = source_named "a"; pending = [] })
      ∷ ("b", record { config = source_named "b"; pending = [] })
      ∷ [];
}

-- The members of the two sources finish in turn.
abbrev in_turn : List (Bool × String)
in_turn =
    (false, "a") ∷ (false, "b") ∷ (false, "a") ∷ (false, "b") ∷ (false, "b") ∷ (false, "a") ∷ []

two_sources-IsMap : IsMap two_sources.handlers
unfolding construct find
two_sources-IsMap = (refl, (refl, tt))

stop-posts_once_example :
    Then
      (λ d.
        (stages_left d.handlers + length in_turn ≡ 3 * length two_sources.handlers)
        × (length d.handlers ≤ stages_left d.handlers)
        × (d.posted
            ≡ two_sources.posted
              ++ (if is_nil d.handlers then after_stop (shutdown_dropbox 1) ∷ [] else [])))
      (stages_done false in_turn (stop_handle_sources (shutdown_dropbox 1) two_sources))
unfolding construct
stop-posts_once_example =
    stop-posts_once (shutdown_dropbox 1) false in_turn two_sources two_sources-IsMap
      (refl, (refl, tt))

stop-completes_example :
    (order : List (Bool × String)) × (d : Controller) × (stages_done false order
        (stop_handle_sources (shutdown_dropbox 1) two_sources)
      ≡ ok d)
    × (length order ≡ 3 * length two_sources.handlers)
    × (d.handlers ≡ [])
    × (d.posted ≡ two_sources.posted ++ (after_stop (shutdown_dropbox 1) ∷ []))
stop-completes_example =
    stop-completes (shutdown_dropbox 1) false two_sources two_sources-IsMap (refl, (refl, tt))

-- The recording goes after an upload that was refused, with the code 0.
refused_upload-removes :
    (upload_finished "/tmp/1.mp4" 0
      (new_file_available (source_named "a") "/tmp" "1.mp4" two_sources)).asked
    ≡ dropbox_upload "/tmp/1.mp4" "/archive/1.mp4" ∷ remove_file "/tmp/1.mp4" ∷ []
unfolding construct upload_finished new_file_available
refused_upload-removes = refl
