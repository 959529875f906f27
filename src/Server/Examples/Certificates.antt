-- ===== src/Server/Examples/Certificates.antt =====
-- Certificates as texts: a certificate is its text, and its subject too.
use ip_cam_box.Prelude.{
  String, string_eq, Bool, true, false, not, none, some, List, [], ◌∷◌, ◌≡◌, ◌↔◌, refl, is_empty,
  ◌==◌, if◌then◌else◌,
}
use ip_cam_box.Server.OpenSsl.{OpenSsl, IsAvailable}
use ip_cam_box.Server.FileConfig.{Store}
use ip_cam_box.Server.FileConfig.Load.{empty}
use ip_cam_box.Server.FileConfig.Certificates as FileCertificates
use ip_cam_box.Server.PgConfig.{Row, Database, device_query}
use ip_cam_box.Server.PgConfig.Certificates as PgCertificates

abbrev holds : String → List String → Bool
holds s [] = false
holds s (t ∷ ts) = if t == s then true else holds s ts

abbrev texts : OpenSsl
texts = record {
  X509 = String;
  Name = String;
  NameEntry = String;
  Asn1String = String;
  TlsCertificate = String;
  store_new = true;
  store_add_cert = λ allowed cert. true;
  store_ctx_new = true;
  store_ctx_init = λ allowed cert. true;
  verify_cert = λ allowed cert. holds cert allowed;
  bio_new = true;
  bio_write = λ pem. not (is_empty pem);
  read_x509 = some;
  same = λ cert other. cert == other;
  subject_name = some;
  common_name_index = λ name. some 0;
  get_entry = λ name index. some name;
  entry_data = some;
  string_data = some;
  certificate_pem = some;
}

texts-IsAvailable : IsAvailable texts
texts-IsAvailable = record {
  store = refl;
  context = refl;
  bio = refl;
  writes = λ pem. refl;
  inits = λ allowed cert. refl;
  adds = λ allowed cert. refl;
}

abbrev one_device : Store
one_device = record empty {
  devices =
      (
        "camera",
        record {
          device = record { id = "camera"; certificate = "camera"; dropbox_token = "" };
          sources = [];
        },
      )
      ∷ [];
}

file_authenticate_iff_example :
    (FileCertificates.authenticate texts
        (FileCertificates.load_certificates texts one_device)
        "camera"
      ≡ some "camera")
    ↔ FileCertificates.Knows texts
        (FileCertificates.enum_devices one_device.devices)
        "camera"
        "camera"
file_authenticate_iff_example =
    FileCertificates.file_authenticate_iff texts texts-IsAvailable one_device "camera" "camera"

-- The one device of the database has its own name as its certificate.
abbrev row : Row
row = record {
  text = λ column. "camera";
  is_null = λ column. false;
  uint32 = λ column. 0;
  uint16 = λ column. 0;
}

abbrev one_row : Database
one_row = record {
  connected = true;
  query = λ statement parameters. if statement == device_query then some (row ∷ []) else none;
}

pg_authenticate_iff_example :
    (PgCertificates.authenticate one_row texts "camera" ≡ some "camera")
    ↔ PgCertificates.Knows one_row texts "camera" "camera"
pg_authenticate_iff_example =
    PgCertificates.pg_authenticate_iff one_row texts texts-IsAvailable "camera" "camera"
