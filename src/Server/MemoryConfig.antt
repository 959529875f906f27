-- ===== src/Server/MemoryConfig.antt =====
-- Server/Config/MemoryConfig.h and .cpp: the configuration that is built in. Its classes have the text
-- of those of Server/FileConfig, over the same members, but for the constructor and the certificate.
pub mod Contents
mod Examples
use ip_cam_box.Prelude.{
  ℕ, String, string_eq, Bool, true, false, ◌||◌, ◌&&◌, Option, none, some, List, [], ◌∷◌, ◌≡◌, refl,
  is_some, concat, ◌==◌,
}
use ip_cam_box.Prelude.Assoc.{Assoc, find, emplace, modify}
use ip_cam_box.Server.Config.{
  DeviceId, SourceId, UserName, Source, Device, PlaySource, User, Config, IsConsistent,
}
use ip_cam_box.Server.OpenSsl.{OpenSsl}
use ip_cam_box.Server.FileConfig
use ip_cam_box.Server.FileConfig.{Store, DeviceEntry, UserEntry}
use ip_cam_box.Server.FileConfig.Certificates
use ip_cam_box.Server.FileConfig.Load.{
  empty, default_control_server_port, default_static_server_port, default_restream_server_port,
}

-- The texts of Common/Keys.cpp that the configuration has.
pub record Keys : Type 0 where
  pub test_client_certificate : String
  pub server_certificate : String
  pub server_key : String
  pub server_full_chain : String

unfoldable pub add_source : SourceId → DeviceEntry → DeviceEntry
add_source = FileConfig.add_source

unfoldable pub find_source : SourceId → DeviceEntry → Option Source
find_source = FileConfig.find_source

unfoldable pub enum_sources {ℓ} :
    {S : Type ℓ} → (Source → S → Bool × S) → Assoc SourceId Source → S → S
enum_sources = FileConfig.enum_sources

unfoldable pub add_play_source : DeviceId → SourceId → UserEntry → UserEntry
add_play_source = FileConfig.add_play_source

unfoldable pub find_play_source : SourceId → UserEntry → Option PlaySource
find_play_source = FileConfig.find_play_source

unfoldable pub add_device : DeviceId → Store → Store
add_device = FileConfig.add_device

unfoldable pub add_user : UserName → Store → Store
add_user = FileConfig.add_user

unfoldable pub find_device : Store → DeviceId → Option Device
find_device = FileConfig.find_device

unfoldable pub find_device_source : Store → DeviceId → SourceId → Option Source
find_device_source = FileConfig.find_device_source

unfoldable pub device_sources : Store → DeviceId → List Source
device_sources = FileConfig.device_sources

unfoldable pub find_user : Store → UserName → Option User
find_user = FileConfig.find_user

unfoldable pub find_user_source : Store → UserName → SourceId → Option PlaySource
find_user_source = FileConfig.find_user_source

unfoldable pub enum_devices : Assoc DeviceId DeviceEntry → List Device
enum_devices = Certificates.enum_devices

unfoldable pub load_certificates : (ssl : OpenSsl) → Store → Option (List ssl.X509)
load_certificates = Certificates.load_certificates

unfoldable pub authenticate_x509 :
    (ssl : OpenSsl) → Option (List ssl.X509) → ssl.X509 → Option String
authenticate_x509 = Certificates.authenticate_x509

unfoldable pub authenticate :
    (ssl : OpenSsl) → Option (List ssl.X509) → ssl.TlsCertificate → Option String
authenticate = Certificates.authenticate

abbrev pub config : Store → Config
config c = record {
  find_device = find_device c;
  find_device_source = find_device_source c;
  has_device_source = λ d s. is_some (find_device_source c d s);
  device_sources = device_sources c;
  find_user = find_user c;
  find_user_source = find_user_source c;
  has_user_source = λ u s. is_some (find_user_source c u s);
}

unfoldable pub certificate : Keys → String
certificate keys = concat (concat keys.server_certificate keys.server_key) keys.server_full_chain

-- The members of a source that the constructor sets.
abbrev set_source : SourceId → String → DeviceEntry → DeviceEntry
set_source id uri d = record d {
  sources = modify id (λ source. record source { uri = uri; dropbox_max_storage = 0 }) d.sources;
}

-- The device and the user that the constructor adds, and its `rtsp` address.
unfoldable pub first_device : Keys → String → DeviceEntry → DeviceEntry
first_device keys bars_uri d =
    let certified : DeviceEntry = record d {
      device = record d.device { certificate = keys.test_client_certificate };
    } in
    let bars = set_source "bars" bars_uri (add_source "bars" certified) in
    set_source "dlink931" "http://172.27.39.11/h264.flv" (add_source "dlink931" bars)

unfoldable pub anonymous : UserEntry → UserEntry
anonymous u = add_play_source "device1" "dlink931" (add_play_source "device1" "bars" u)

-- `to_text` is what `fmt` makes of a number. The certificates are loaded by `load_certificates`.
unfoldable pub construct : Keys → (ℕ → String) → Store
construct keys to_text =
    let host : String = "localhost" in
    let configured : Store = record empty {
      server = record empty.server {
        server_host = host;
        control_server_port = default_control_server_port;
        static_server_port = default_static_server_port;
        restream_server_port = default_restream_server_port;
      };
    } in
    let bars_uri =
      concat "rtsp://"
        (concat host (concat ":" (concat (to_text default_static_server_port) "/bars"))) in
    let with_device = add_device "device1" configured in
    let devices : Store = record with_device {
      devices = modify "device1" (first_device keys bars_uri) with_device.devices;
    } in
    let with_user = add_user "" devices in
    record with_user { users = modify "" anonymous with_user.users }
