-- ===== src/Server/PgConfig/Rights.antt =====
-- Server/PGConfig/Config.cpp: what the test of a source comes to in the database.
use ip_cam_box.Prelude.{ℕ, ◌≡◌, String, string_eq, true, false, none, List, arith, is_empty}
use ip_cam_box.Server.Config.{DeviceId, SourceId, UserName, IsConsistent}
use ip_cam_box.Server.PgConfig.{
  Database, is_device_exists, has_device_source, find_device_source, config,
}
use ip_cam_box.Server.RestreamServer.{Action, access, construct, extract_source_id, authorize}

-- A device that the database knows may record under every path that names a source which the
-- user of the same name may not play, whatever device the source belongs to.
pub any_source-authorize :
    (strsplit : String → String → ℕ → List String) (db : Database) (user : UserName)
    (action : Action) (path : String)
    → is_device_exists db user ≡ true
    → is_empty (extract_source_id strsplit path) ≡ false
    → (config db).has_user_source user (extract_source_id strsplit path) ≡ false
    → authorize strsplit (config db) user action path true ≡ true
unfolding authorize has_device_source is_device_exists
any_source-authorize strsplit db user access path known named unplayed =
    ground (arith, known, named, unplayed)
any_source-authorize strsplit db user construct path known named unplayed =
    ground (arith, known, named, unplayed)

-- The database is no consistent configuration once it knows a device and has not every
-- source for it.
pub config-inconsistent :
    (db : Database) (d : DeviceId) (s : SourceId)
    → is_device_exists db d ≡ true
    → is_empty s ≡ false
    → find_device_source db d s ≡ none
    → ¬ IsConsistent (config db)
unfolding has_device_source is_device_exists
config-inconsistent db d s known named absent =
    λ laws. ground (arith, known, named, absent, laws.device_source_test d s)
