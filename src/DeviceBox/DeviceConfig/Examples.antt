-- ===== src/DeviceBox/DeviceConfig/Examples.antt =====
-- Runs of DeviceBox/Config.cpp, and the theorems at them.
use ip_cam_box.Prelude.{
  ℕ, ◌≡◌, ◌+◌, ◌*◌, refl, String, string_eq, Option, none, some, [], ◌∷◌, arith,
}
use ip_cam_box.Prelude.Assoc.{find, emplace}
use ip_cam_box.DeviceBox.DeviceConfig.{
  VideoSource, DeviceConfig, storage_bytes, load_source_config, load_sources, load_config,
  find_source,
}
use ip_cam_box.DeviceBox.DeviceConfig.Loading.{IsLoaded, load_config-IsLoaded, storage_bytes_lem}

abbrev cam : VideoSource
cam = record {
  id = "cam";
  uri = "rtsp://cam";
  user = "";
  password = "";
  dropbox_max_storage = 4096;
}

abbrev nothing : DeviceConfig
nothing = record { sources = []; dropbox_token = "" }

abbrev dir_make_tmp : ℕ → Option String
dir_make_tmp call = some "/tmp/archive"

load_cam :
    find_source "cam" (load_config dir_make_tmp (cam ∷ []) none nothing)
    ≡ some (record {
      id = "cam";
      uri = "rtsp://cam";
      user = "";
      password = "";
      archive_path = "/tmp/archive";
      desired_file_size = 1048576;
      dropbox_archive_path = "/cam/";
      dropbox_max_storage = 0;
    })
unfolding find_source load_config load_sources load_source_config find emplace storage_bytes
load_cam = refl

load_config-IsLoaded_example :
    IsLoaded "cam"
      (find_source "cam" nothing)
      (some cam)
      (find_source "cam" (load_config dir_make_tmp (cam ∷ []) none nothing))
load_config-IsLoaded_example =
    load_config-IsLoaded dir_make_tmp (λ call. refl) "cam" (cam ∷ []) none nothing

storage_bytes_lem_example : storage_bytes (4096 * 1 + 100) ≡ 1048576 * 100
storage_bytes_lem_example = storage_bytes_lem 100 1 (omega arith)
