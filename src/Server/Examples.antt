-- ===== src/Server/Examples.antt =====
-- Runs of the server, and the theorems at them.
pub mod Certificates
pub mod Control
pub mod Renewal
pub mod Restream
use ip_cam_box.Prelude.{
  ℕ, ◌≡◌, refl, String, string_eq, Bool, true, false, not, ◌||◌, Option, none, some, List, [], ◌∷◌,
  is_some, ◌==◌, if◌then◌else◌, concat, when_some, return_if,
}
use ip_cam_box.Prelude.Assoc.{Assoc, find, emplace, modify}
use ip_cam_box.Server.Config.{PlaySource, Source, Config, IsConsistent, sha1}
use ip_cam_box.Server.FileConfig.{
  Store, config, find_user_source, find_device, find_user, find_device_source, add_device,
  add_source, add_user, add_play_source, find_source, find_play_source, device_sources,
  enum_sources,
}
use ip_cam_box.Server.FileConfig.Load.{
  Libconfig, empty, for_elements, for_list, load_device_source_config, load_device,
  load_device_config, load_user_source_config, load_user_config, load_server_config,
  set_default_ports, load_root, load_config,
}
use ip_cam_box.Server.FileConfig.Lookup.{load_config-IsConsistent}

-- A file with one device, `box`, whose one source, `cam`, `eve` may play.
abbrev texts : Assoc String String
texts =
    ("server.host", "localhost")
    ∷ ("server.certificate", "cert")
    ∷ ("server.key", "key")
    ∷ ("device.id", "box")
    ∷ ("device.certificate", "pem")
    ∷ ("source.id", "cam")
    ∷ ("source.uri", "rtsp://cam")
    ∷ ("user.login", "eve")
    ∷ ("right.device", "box")
    ∷ ("right.source", "cam")
    ∷ []

abbrev settings : Assoc String String
settings =
    ("root.server", "server")
    ∷ ("root.devices", "devices")
    ∷ ("root.users", "users")
    ∷ ("device.sources", "sources")
    ∷ ("user.sources", "rights")
    ∷ []

abbrev elements : Assoc String String
elements =
    ("devices", "device") ∷ ("sources", "source") ∷ ("users", "user") ∷ ("rights", "right") ∷ []

abbrev root : String
root = "root"

abbrev pub file : Libconfig
file = record {
  Setting = String;
  is_group = λ s. not (is_some (find s elements));
  is_list = λ s. is_some (find s elements);
  lookup_string = λ s key. find (concat (concat s ".") key) texts;
  lookup = λ s key. find (concat (concat s ".") key) settings;
  count = λ s. 1;
  get_elem = λ s i. find s elements;
}

abbrev pub store : Store
store = load_config file "/etc/ip_cam_box" (some root) empty

pub load_config-IsConsistent_example : IsConsistent (config store)
load_config-IsConsistent_example = load_config-IsConsistent file "/etc/ip_cam_box" (some root)

pub store_plays :
    find_user_source store "eve" "cam" ≡ some (record { source_id = "cam"; device_id = "box" })
unfolding find_user_source load_config load_root load_server_config set_default_ports for_list
    for_elements load_device_config load_device load_device_source_config load_user_config
    load_user_source_config when_some return_if add_device add_user add_source add_play_source
    find_play_source find emplace modify empty
store_plays = refl

store_lists :
    device_sources store "box"
    ≡ record { id = "cam"; uri = "rtsp://cam"; dropbox_max_storage = 0 } ∷ []
unfolding device_sources enum_sources load_config load_root load_server_config set_default_ports
    for_list for_elements load_device_config load_device load_device_source_config load_user_config
    load_user_source_config when_some return_if add_device add_user add_source add_play_source find
    emplace modify empty
store_lists = refl

pub store_records :
    find_device_source store "box" "cam"
    ≡ some (record { id = "cam"; uri = "rtsp://cam"; dropbox_max_storage = 0 })
unfolding find_device_source find_source load_config load_root load_server_config set_default_ports
    for_list for_elements load_device_config load_device load_device_source_config load_user_config
    load_user_source_config when_some return_if add_device add_user add_source add_play_source
    find_play_source find emplace modify empty
store_records = refl

pub store_knows_box :
    find_device store "box" ≡ some (record { id = "box"; certificate = "pem"; dropbox_token = "" })
unfolding find_device load_config load_root load_server_config set_default_ports for_list
    for_elements load_device_config load_device load_device_source_config load_user_config
    load_user_source_config when_some return_if add_device add_user add_source add_play_source
    find_play_source find emplace modify empty
store_knows_box = refl

pub store_knows_eve :
    find_user store "eve"
    ≡ some (record {
      name = "eve";
      play_password_salt = "";
      play_password_hash_type = sha1;
      play_password_hash = "";
    })
unfolding find_user load_config load_root load_server_config set_default_ports for_list for_elements
    load_device_config load_device load_device_source_config load_user_config
    load_user_source_config when_some return_if add_device add_user add_source add_play_source
    find_play_source find emplace modify empty
store_knows_eve = refl
