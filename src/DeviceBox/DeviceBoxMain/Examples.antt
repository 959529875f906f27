-- ===== src/DeviceBox/DeviceBoxMain/Examples.antt =====
-- DeviceBox/DeviceBoxMain.cpp: a device box with two sources, and one without a configuration.
use ip_cam_box.Prelude.{
  ℕ, String, string_eq, Bool, true, false, Option, none, some, List, [], ◌∷◌, ◌≡◌, refl, ok, ◌>>=◌,
}
use ip_cam_box.Server.ControlServer.Protocol.{client_config_reply_message}
use ip_cam_box.DeviceBox.DeviceConfig.{
  SourceConfig, load_config as load_device_config, is_empty_config,
}
use ip_cam_box.DeviceBox.Client.{ServerProtobuf, construct, on_message, shut_down}
use ip_cam_box.DeviceBox.Controller.{
  Controller, ClientConfig, construct as construct_controller, AfterStop, shutdown_stage, splitter,
  dropbox_folder, streamer, after_stop, shut_down as shut_down_controller,
}
use ip_cam_box.DeviceBox.Controller.Shutdowns.{AllIdle}
use ip_cam_box.DeviceBox.DeviceBoxMain.{Device, task_runs, post_runs, happens}
use ip_cam_box.DeviceBox.DeviceBoxMain.Ready.{told_ready, config_reply-ready}

abbrev source_named : String → SourceConfig
source_named id = record {
  id = id;
  uri = "rtsp://camera";
  user = "";
  password = "";
  archive_path = "/tmp";
  desired_file_size = 1;
  dropbox_archive_path = "/archive/";
  dropbox_max_storage = 0;
}

abbrev two_sources : Controller
two_sources = record construct_controller {
  config = record { sources = []; dropbox_token = "token" };
  handlers =
      ("a", record { config = source_named "a"; pending = [] })
      ∷ ("b", record { config = source_named "b"; pending = [] })
      ∷ [];
}

abbrev box : Controller → Device
box controller = record {
  client = construct true (λ call. false);
  controller = controller;
  bound = [];
  stopped = false;
}

abbrev tmp : ℕ → Option String
tmp call = some "/tmp"

abbrev one_source : ClientConfig
one_source = record {
  sources =
      (record { id = "c"; uri = "rtsp://c"; user = ""; password = ""; dropbox_max_storage = 1 })
      ∷ [];
  dropbox = some "new";
}

-- Every body is that of a message with the configuration of one source.
abbrev proto : ServerProtobuf
proto = record {
  server_greeting = λ body. true;
  client_config_reply = λ body. some one_source;
  client_config_updated = λ body. some one_source;
  request_stream = λ body. none;
  stop_stream = λ body. none;
}

-- The members of the two sources in turn.
abbrev turns : List (Bool × String)
turns = (false, "a") ∷ (false, "b") ∷ (false, "b") ∷ (false, "a") ∷ (false, "a") ∷ (false, "b") ∷ []

-- The controller when they are gone, with what it has called.
abbrev gone : AfterStop → Controller
gone then_do = record two_sources {
  handlers = [];
  asked =
      shutdown_stage "a" splitter
      ∷ shutdown_stage "b" splitter
      ∷ shutdown_stage "a" dropbox_folder
      ∷ shutdown_stage "b" dropbox_folder
      ∷ shutdown_stage "b" streamer
      ∷ shutdown_stage "a" streamer
      ∷ [];
  posted = after_stop then_do ∷ [];
}

config_reply-ready_example :
    (e : Device) × ((do
      c ←
          on_message proto false client_config_reply_message "" false
            (box construct_controller).client
      happens tmp false false
          (task_runs ∷ post_runs ∷ [])
          (record (box construct_controller) { client = c }))
      ≡ ok e)
    × (e.client ≡ told_ready (box construct_controller).client)
    × (e.controller.config
        ≡ load_device_config tmp one_source.sources one_source.dropbox
            (box construct_controller).controller.config)
    × (e.controller.posted ≡ [])
    × AllIdle e.controller.handlers
unfolding construct construct_controller is_empty_config
config_reply-ready_example =
    config_reply-ready tmp false proto "" one_source (box construct_controller) refl refl refl refl
      refl
