-- ===== src/DeviceBox/DeviceBoxMain/Stop.antt =====
-- DeviceBox/DeviceBoxMain.cpp: from a signal to the end of the `io_service`.
use ip_cam_box.Prelude.{string_eq, ℕ, false, List, [], ◌∷◌, ◌++◌}
use ip_cam_box.DeviceBox.Client.{shut_down}
use ip_cam_box.DeviceBox.Controller.{
  Controller, dropbox_shutdowned, dropbox_shutdown, shut_down as shut_down_controller,
}
use ip_cam_box.DeviceBox.DeviceBoxMain.{Happening, post_runs, dropbox_ends}

abbrev pub after_sources : ℕ → List Happening
after_sources n = post_runs ∷ dropbox_ends (dropbox_shutdowned n) ∷ post_runs ∷ []

abbrev called_off : ℕ → Controller → Controller
called_off n k = record k {
  working = false;
  handlers = [];
  posted = [];
  asked = k.asked ++ (dropbox_shutdown (dropbox_shutdowned n) ∷ []);
  called = k.called ++ (n ∷ []);
}
