-- ===== src/Server/Config.antt =====
-- Server/Config/Config.h and Common/CommonTypes.h: the records of the configuration and the
-- interface through which the two servers read it.
use ip_cam_box.Prelude.{
  ℕ, ◌≡◌, String, string_eq, Bool, Option, none, some, List, [], ◌∷◌, is_some, ◌==◌, if◌then◌else◌,
}

-- Server/Config/Config.h spells its identifiers by these names, all of them `std::string`.
abbrev pub DeviceId : Type 0
DeviceId = String

abbrev pub SourceId : Type 0
SourceId = String

abbrev pub UserName : Type 0
UserName = String

pub data HashType : Type 0 where
  sha1 sha256 : HashType

pub record Source : Type 0 where
  pub id : SourceId
  pub uri : String
  pub dropbox_max_storage : ℕ  -- unsigned, in megabytes

pub record Device : Type 0 where
  pub id : DeviceId
  pub certificate : String
  pub dropbox_token : String

pub record PlaySource : Type 0 where
  pub source_id : SourceId
  pub device_id : DeviceId

pub record User : Type 0 where
  pub name : UserName
  pub play_password_salt : String
  pub play_password_hash_type : HashType
  pub play_password_hash : String

pub record ServerConfig : Type 0 where
  pub server_host : String
  pub control_server_port : ℕ
  pub static_server_port : ℕ
  pub restream_server_port : ℕ
  pub no_signal_splash_source : String

-- The virtual functions. A `find` with an `out` pointer is a function into `Option`, and one with
-- the default `nullptr` is a test. `device_sources` are what `enumDeviceSources` hands to a callback
-- that never asks it to stop.
pub record Config : Type 0 where
  pub find_device : DeviceId → Option Device
  pub find_device_source : DeviceId → SourceId → Option Source
  pub has_device_source : DeviceId → SourceId → Bool
  pub device_sources : DeviceId → List Source
  pub find_user : UserName → Option User
  pub find_user_source : UserName → SourceId → Option PlaySource
  pub has_user_source : UserName → SourceId → Bool

-- The source of an identifier in a list of sources.
unfoldable pub by_id : SourceId → List Source → Option Source
by_id id [] = none
by_id id (x ∷ xs) = if x.id == id then some x else by_id id xs

-- What the servers rely on: a test and a search agree, what is found was asked for, and
-- the sources that can be found are those that are listed.
pub record IsConsistent (c : Config) : Type 0 where
  pub device_source_test :
      (d : DeviceId) (s : SourceId) → c.has_device_source d s ≡ is_some (c.find_device_source d s)
  pub user_source_test :
      (u : UserName) (s : SourceId) → c.has_user_source u s ≡ is_some (c.find_user_source u s)
  pub device_id_found : (d : DeviceId) (x : Device) → c.find_device d ≡ some x → x.id ≡ d
  pub source_id_found :
      (d : DeviceId) (s : SourceId) (x : Source) → c.find_device_source d s ≡ some x → x.id ≡ s
  pub user_source_found :
      (u : UserName) (s : SourceId) (x : PlaySource)
      → c.find_user_source u s ≡ some x
      → x.source_id ≡ s
  pub sources_listed :
      (d : DeviceId) (s : SourceId) → by_id s (c.device_sources d) ≡ c.find_device_source d s
  pub user_name_found : (u : UserName) (x : User) → c.find_user u ≡ some x → x.name ≡ u
