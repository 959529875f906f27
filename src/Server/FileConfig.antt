-- ===== src/Server/FileConfig.antt =====
-- Server/FileConfig/Config.h and .cpp: the configuration in memory and its loading from a file.
-- Server/Config/MemoryConfig.cpp has the same classes, with a constructor of its own.
pub mod Load
pub mod Consistency
pub mod Lookup
pub mod Certificates
use mathlib.Core.Option
use ip_cam_box.Prelude.{
  ℕ, String, string_eq, Bool, true, false, Option, none, some, List, [], ◌∷◌, ◌++◌, map, is_some,
  ◌==◌,
}
use ip_cam_box.Prelude.Assoc.{Assoc, find, emplace, modify}
use ip_cam_box.Server.Config.{
  DeviceId, SourceId, UserName, Source, Device, PlaySource, User, ServerConfig, sha1, Config,
}

-- `FileConfig::Device` and `FileConfig::User`: the base class and a container.
pub record DeviceEntry : Type 0 where
  pub device : Device
  pub sources : Assoc SourceId Source

pub record UserEntry : Type 0 where
  pub user : User
  pub play_sources : Assoc SourceId PlaySource

pub record Store : Type 0 where
  pub server : ServerConfig
  pub certificate_path : String
  pub private_key_path : String
  pub devices : Assoc DeviceId DeviceEntry
  pub users : Assoc UserName UserEntry

-- `Source{.id = sourceId}`, `Device(deviceId)` and `User(name)`: the other members are empty.
abbrev pub new_source : SourceId → Source
new_source id = record { id = id; uri = ""; dropbox_max_storage = 0 }

abbrev pub new_device : DeviceId → DeviceEntry
new_device id = record {
  device = record { id = id; certificate = ""; dropbox_token = "" };
  sources = [];
}

abbrev pub new_user : UserName → UserEntry
new_user name = record {
  user = record {
    name = name;
    play_password_salt = "";
    play_password_hash_type = sha1;
    play_password_hash = "";
  };
  play_sources = [];
}

-- `Device::addSource`, `findSource` and `enumSources`.
unfoldable pub add_source : SourceId → DeviceEntry → DeviceEntry
add_source id d = record d { sources = emplace id (new_source id) d.sources }

unfoldable pub find_source : SourceId → DeviceEntry → Option Source
find_source id d = find id d.sources

-- `enumSources`: the callback sees one source after another until it answers false.
unfoldable pub enum_sources {ℓ} :
    {S : Type ℓ} → (Source → S → Bool × S) → Assoc SourceId Source → S → S
enum_sources callback [] s = s
enum_sources callback ((id, source) ∷ rest) s =
    let (more, s') = callback source s in
    elim more [ true ↦ enum_sources callback rest s' | false ↦ s' ]

-- `User::addSource` and `findSource`.
unfoldable pub add_play_source : DeviceId → SourceId → UserEntry → UserEntry
add_play_source device source u = record u {
  play_sources = emplace source (record { source_id = source; device_id = device }) u.play_sources;
}

unfoldable pub find_play_source : SourceId → UserEntry → Option PlaySource
find_play_source id u = find id u.play_sources

unfoldable pub add_device : DeviceId → Store → Store
add_device id c = record c { devices = emplace id (new_device id) c.devices }

unfoldable pub add_user : UserName → Store → Store
add_user name c = record c { users = emplace name (new_user name) c.users }

-- The sources in the order of the enumeration.
unfoldable pub device_sources : Store → DeviceId → List Source
unfolding enum_sources
device_sources c d = elim (find d c.devices) [
  | none ↦ []
  | some device ↦ enum_sources (λ source seen. (true, seen ++ source ∷ [])) device.sources []
]

unfoldable pub find_device : Store → DeviceId → Option Device
find_device c id = Option.map (λ d. d.device) (find id c.devices)

unfoldable pub find_device_source : Store → DeviceId → SourceId → Option Source
unfolding find_source
find_device_source c d s = elim (find d c.devices) [
  | none ↦ none
  | some device ↦ find_source s device
]

unfoldable pub find_user : Store → UserName → Option User
find_user c name = Option.map (λ u. u.user) (find name c.users)

unfoldable pub find_user_source : Store → UserName → SourceId → Option PlaySource
unfolding find_play_source
find_user_source c name s = elim (find name c.users) [
  | none ↦ none
  | some user ↦ find_play_source s user
]

-- The class as an implementation of the interface. The tests are the searches with no `out`.
abbrev pub config : Store → Config
config c = record {
  find_device = find_device c;
  find_device_source = find_device_source c;
  has_device_source = λ d s. is_some (find_device_source c d s);
  device_sources = device_sources c;
  find_user = find_user c;
  find_user_source = find_user_source c;
  has_user_source = λ u s. is_some (find_user_source c u s);
}
