-- ===== src/DeviceBox/DeviceConfig.antt =====
-- DeviceBox/Config.cpp and SourceConfig.h: what the device keeps of the configuration that the server
-- sends it.
pub mod Loading
pub mod Examples
use mathlib.Core.Option
use ip_cam_box.Prelude.{
  ℕ, ◌+◌, ◌*◌, ◌%◌, ◌^◌, String, string_eq, Bool, true, false, ◌&&◌, Option, none, some, List, [],
  ◌∷◌, Outcome, ok, ◌>>=◌, ◌>>◌, check, is_empty, is_nil, concat,
}
use ip_cam_box.Prelude.Assoc.{Assoc, find, emplace}

-- `Protocol::VideoSource`.
pub record VideoSource : Type 0 where
  pub id : String
  pub uri : String
  pub user : String
  pub password : String
  pub dropbox_max_storage : ℕ  -- 32 bits, in megabytes

pub record SourceConfig : Type 0 where
  pub id : String
  pub uri : String
  pub user : String
  pub password : String
  pub archive_path : String
  pub desired_file_size : ℕ
  pub dropbox_archive_path : String
  pub dropbox_max_storage : ℕ  -- 64 bits, in bytes

pub record DeviceConfig : Type 0 where
  pub sources : Assoc String SourceConfig
  pub dropbox_token : String

unfoldable pub is_empty_config : DeviceConfig → Bool
is_empty_config config = is_nil config.sources && is_empty config.dropbox_token

unfoldable pub clear : DeviceConfig → DeviceConfig
clear config = record { sources = []; dropbox_token = "" }

-- `config.dropboxmaxstorage() * 1024 * 1024`, in the 32 bits of the factors.
unfoldable pub storage_bytes : ℕ → ℕ
storage_bytes megabytes = (megabytes * 1024 % 2 ^ 32) * 1024 % 2 ^ 32

abbrev pub source_config : String → VideoSource → SourceConfig
source_config tmp config = record {
  id = config.id;
  uri = config.uri;
  user = config.user;
  password = config.password;
  archive_path = tmp;
  desired_file_size = 1 * 1024 * 1024;
  dropbox_archive_path = concat (concat "/" config.id) "/";
  dropbox_max_storage = storage_bytes config.dropbox_max_storage;
}

-- The answers of `g_dir_make_tmp`, by the number of the call; `none` is an error.
module _ (dir_make_tmp : ℕ → Option String) where
  unfoldable pub load_source_config : ℕ → VideoSource → Option SourceConfig
  load_source_config call config = Option.map (λ tmp. source_config tmp config) (dir_make_tmp call)

  unfoldable pub load_sources :
      ℕ → List VideoSource → Assoc String SourceConfig → Assoc String SourceConfig
  load_sources call [] sources = sources
  load_sources call (source ∷ rest) sources = elim (find source.id sources) [
    | some known ↦ load_sources call rest sources
    | none ↦ elim (load_source_config call source) [
      | none ↦ load_sources (call + 1) rest sources
      | some config ↦ load_sources (call + 1) rest (emplace source.id config sources)
    ]
  ]

  -- `dropbox` is there if the message has it.
  unfoldable pub load_config : List VideoSource → Option String → DeviceConfig → DeviceConfig
  load_config sources dropbox config = record {
    sources = load_sources 0 sources config.sources;
    dropbox_token = Option.get_or dropbox config.dropbox_token;
  }

unfoldable pub find_source : String → DeviceConfig → Option SourceConfig
find_source id config = find id config.sources

-- `enumSources`: the callback sees one source after another until it answers false.
unfoldable pub enum_sources {ℓ} :
    {S : Type ℓ} → (SourceConfig → S → Bool × S) → Assoc String SourceConfig → S → S
enum_sources cb [] s = s
enum_sources cb ((id, source) ∷ rest) s =
    let (more, s') = cb source s in elim more [ true ↦ enum_sources cb rest s' | false ↦ s' ]
