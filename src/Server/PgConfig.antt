-- ===== src/Server/PgConfig.antt =====
-- Server/PGConfig/Config.cpp: the configuration in a PostgreSQL database.
pub mod Rights
pub mod Certificates
use mathlib.Core.Option
use ip_cam_box.Prelude.{
  ℕ, nat_eq, String, string_eq, Bool, true, false, not, ◌||◌, Option, none, some, List, [], ◌∷◌,
  map, is_some, is_empty, ◌==◌, if◌then◌else◌,
}
use ip_cam_box.Server.Config.{
  DeviceId, SourceId, UserName, HashType, sha1, sha256, Source, Device, PlaySource, User, Config,
}

-- A row of a result by column: a text, whether it is null, and a number of 4 or of 2 bytes after
-- `ntohl` or `ntohs`.
pub record Row : Type 0 where
  pub text : ℕ → String
  pub is_null : ℕ → Bool
  pub uint32 : ℕ → ℕ
  pub uint16 : ℕ → ℕ

-- libpq: whether `checkConnected` has a connection, and `PQexecParams` of a statement and its
-- parameters, `none` where the status is not `PGRES_TUPLES_OK`.
pub record Database : Type 0 where
  pub connected : Bool
  pub query : String → List String → Option (List Row)

abbrev pub device_exists_query : String
device_exists_query = "select true from DEVICES where ID = $1 limit 1"

abbrev pub device_query : String
device_query = "select ID::text, CERTIFICATE, DROPBOX_TOKEN from DEVICES where ID = $1 limit 1"

abbrev pub device_source_query : String
device_source_query =
    "select ID::text, URI, DROPBOX_STORAGE from SOURCES where ID = $1 and DEVICE_ID = $2 limit 1"

abbrev pub device_sources_query : String
device_sources_query =
    "select ID::text, URI, DROPBOX_STORAGE from SOURCES where DEVICE_ID = $1 limit 1"

abbrev pub user_query : String
user_query =
    "select LOGIN, SALT, HASH_TYPE::smallint, PASSWORD_HASH from USERS where LOGIN = $1 limit 1"

abbrev pub user_source_exists_query : String
user_source_exists_query =
    "select true from USERS u, RIGHTS r where u.LOGIN = $1 and u.ID = r.USER_ID and r.SOURCE_ID = $2 limit 1"

abbrev pub user_source_query : String
user_source_query =
    "select r.SOURCE_ID::text, s.DEVICE_ID::text from USERS u, RIGHTS r, SOURCES s where u.LOGIN = $1 and u.ID = r.USER_ID and r.SOURCE_ID = $2 and r.SOURCE_ID = s.ID limit 1"

-- The first row of the result, if there is one.
abbrev pub first_row : Option (List Row) → Option Row
first_row none = none
first_row (some []) = none
first_row (some (row ∷ rows)) = some row

abbrev pub all_rows : Option (List Row) → List Row
all_rows none = []
all_rows (some rows) = rows

-- `SourceId` and URI, and a storage that may be null.
abbrev pub source_of : Row → Source
source_of row = record {
  id = row.text 0;
  uri = row.text 1;
  dropbox_max_storage = if row.is_null 2 then 0 else row.uint32 2;
}

abbrev pub hash_type_of : ℕ → Option HashType
hash_type_of n = if n == 0 then some sha1 else if n == 1 then some sha256 else none

module _ (db : Database) where
  unfoldable pub is_device_exists : DeviceId → Bool
  is_device_exists device =
      if is_empty device
      then false
      else if not db.connected
      then false
      else is_some (first_row (db.query device_exists_query (device ∷ [])))

  unfoldable pub find_device : DeviceId → Option Device
  find_device device =
      if is_empty device
      then none
      else if not db.connected
      then none
      else Option.map
          (λ row. record { id = row.text 0; certificate = row.text 1; dropbox_token = row.text 2 })
          (first_row (db.query device_query (device ∷ [])))

  -- `findDeviceSource` without and with `out`.
  unfoldable pub has_device_source : DeviceId → SourceId → Bool
  has_device_source device source =
      if is_empty device || is_empty source then false else is_device_exists device

  unfoldable pub find_device_source : DeviceId → SourceId → Option Source
  find_device_source device source =
      if is_empty device || is_empty source
      then none
      else if not db.connected
      then none
      else Option.map source_of (first_row (db.query device_source_query (source ∷ device ∷ [])))

  unfoldable pub device_sources : DeviceId → List Source
  device_sources device =
      if not db.connected
      then []
      else map source_of (all_rows (db.query device_sources_query (device ∷ [])))

  unfoldable pub find_user : UserName → Option User
  find_user name =
      if not db.connected then none else elim (first_row (db.query user_query (name ∷ []))) [
        | none ↦ none
        | some row ↦
            Option.map
              (λ type. record {
                name = row.text 0;
                play_password_salt = row.text 1;
                play_password_hash_type = type;
                play_password_hash = row.text 3;
              })
              (hash_type_of (row.uint16 2))
      ]

  -- `findUserSource` without and with `out`.
  unfoldable pub has_user_source : UserName → SourceId → Bool
  has_user_source name source =
      if is_empty source
      then false
      else if not db.connected
      then false
      else is_some (first_row (db.query user_source_exists_query (name ∷ source ∷ [])))

  unfoldable pub find_user_source : UserName → SourceId → Option PlaySource
  find_user_source name source =
      if is_empty source
      then none
      else if not db.connected
      then none
      else Option.map (λ row. record { source_id = row.text 0; device_id = row.text 1 })
          (first_row (db.query user_source_query (name ∷ source ∷ [])))

  abbrev pub config : Config
  config = record {
    find_device = find_device;
    find_device_source = find_device_source;
    has_device_source = has_device_source;
    device_sources = device_sources;
    find_user = find_user;
    find_user_source = find_user_source;
    has_user_source = has_user_source;
  }
