-- ===== src/Server/PgConfig/Certificates.antt =====
-- Server/PGConfig/Config.cpp: the configuration of the server and the certificates of the devices.
use ip_cam_box.Prelude.{
  String, string_eq, Bool, true, false, not, Option, none, some, [], ◌∷◌, ◌≡◌, ◌↔◌, refl, subst, ap,
  is_some, is_empty, ◌||◌, when_some, return_if, when_some-eq-some, return_if-eq-some, arith,
  Outcome, ok, fault, null_pointer,
}
use ip_cam_box.Server.Config.{DeviceId, SourceId, UserName, Device, ServerConfig}
use ip_cam_box.Server.PgConfig.{Database, first_row, find_device}
use ip_cam_box.Server.OpenSsl.{
  OpenSsl, read_pem, common_name, IsAvailable, HasPem, HasCommonName, common_name_iff, read_pem_iff,
}

abbrev pub device_source_exists_query : String
device_source_exists_query = "select true from SOURCES where ID = $1 and DEVICE_ID = $2 limit 1"

abbrev pub user_exists_query : String
user_exists_query = "select true from USERS where LOGIN = $1 limit 1"

abbrev pub server_query : String
server_query = "select HOST, CONTROL_PORT, STATIC_PORT, RESTREAM_PORT from SERVER limit 1"

abbrev pub certificate_query : String
certificate_query = "select CERTIFICATE from SERVER limit 1"

module _ (db : Database) where
  unfoldable pub is_device_source_exists : DeviceId → SourceId → Bool
  is_device_source_exists device source = return_if (is_empty device || is_empty source) false (
      return_if (not db.connected) false
        (is_some (first_row (db.query device_source_exists_query (source ∷ device ∷ [])))))

  unfoldable pub is_user_exists : UserName → Bool
  is_user_exists name =
      return_if (not db.connected) false
        (is_some (first_row (db.query user_exists_query (name ∷ []))))

  -- `_server` is kept from the first answer with a host; the result is what the pointer points to, if
  -- it is one, and the new `_server`.
  unfoldable pub server_config : ServerConfig → Option ServerConfig × ServerConfig
  server_config server =
      return_if (not (is_empty server.server_host)) (some server, server)
        (return_if (not db.connected) (none, server)
          (when_some (first_row (db.query server_query [])) (none, server)
            (λ row.
              let read : ServerConfig = record server {
                server_host = row.text 0;
                control_server_port = row.uint16 1;
                static_server_port = row.uint16 2;
                restream_server_port = row.uint16 3;
              } in
              (some read, read))))

  -- Without a connection a `std::string` is made of a null pointer.
  unfoldable pub certificate : Outcome String
  certificate =
      return_if (not db.connected) (fault null_pointer)
        (when_some (first_row (db.query certificate_query [])) (ok "") (λ row. ok (row.text 0)))

  module _ (ssl : OpenSsl) where
    unfoldable pub make_certificate : String → Option ssl.X509
    make_certificate pem = read_pem ssl pem

    unfoldable pub authenticate_x509 : ssl.X509 → Option String
    authenticate_x509 cert = when_some (common_name ssl cert) none (λ name.
        when_some (find_device db name) none (λ device.
          when_some (make_certificate device.certificate) none
            (λ device_cert. return_if (not (ssl.same cert device_cert)) none (some name))))

    unfoldable pub authenticate : ssl.TlsCertificate → Option String
    authenticate cert =
        when_some (ssl.certificate_pem cert) none
          (λ pem. when_some (make_certificate pem) none authenticate_x509)

    -- A client is known by the name of a device of the database which has the client's certificate.
    abbrev pub Knows : ssl.TlsCertificate → String → Type 0
    Knows tls name =
        (pem : String) × (cert : ssl.X509) × (device : Device) × (device_cert : ssl.X509)
        × (ssl.certificate_pem tls ≡ some pem)
        × HasPem ssl pem cert
        × HasCommonName ssl cert name
        × (find_device db name ≡ some device)
        × HasPem ssl device.certificate device_cert
        × (ssl.same cert device_cert ≡ true)

    module _ (available : IsAvailable ssl) where
      -- With the resources of OpenSSL at hand, a client is authenticated under a name exactly if its
      -- certificate is well formed and has the name as the common name of its subject, and the
      -- database has a device of that name whose certificate is the same one.
      pub pg_authenticate_iff :
          (tls : ssl.TlsCertificate) (name : String)
          → (authenticate tls ≡ some name) ↔ Knows tls name
      unfolding authenticate authenticate_x509 make_certificate
      pg_authenticate_iff tls name = (
        λ h.
            let (pem, p, h1) = (when_some-eq-some (ssl.certificate_pem tls) _ name).0 h in
            let (cert, r, h2) = (when_some-eq-some (read_pem ssl pem) _ name).0 h1 in
            let (found, n, h3) = (when_some-eq-some (common_name ssl cert) _ name).0 h2 in
            let (device, d, h4) = (when_some-eq-some (find_device db found) _ name).0 h3 in
            let (device_cert, k, h5) =
              (when_some-eq-some (read_pem ssl device.certificate) _ name).0 h4 in
            let (same, named) = (return_if-eq-some (not (ssl.same cert device_cert)) _ name).0 h5 in
            let known =
              subst (λ n. HasCommonName ssl cert n × (find_device db n ≡ some device)) (cc named)
                ((common_name_iff ssl cert found).0 n, d) in
            (
              pem,
              cert,
              device,
              device_cert,
              p,
              (read_pem_iff ssl available pem cert).0 r,
              known.0,
              known.1,
              (read_pem_iff ssl available device.certificate device_cert).0 k,
              ground (arith, same),
            ),
        λ (pem, cert, device, device_cert, p, has_pem, named, d, device_pem, same).
            (when_some-eq-some (ssl.certificate_pem tls) _ name).1 (
              pem,
              p,
              (when_some-eq-some (read_pem ssl pem) _ name).1 (
                cert,
                (read_pem_iff ssl available pem cert).1 has_pem,
                (when_some-eq-some (common_name ssl cert) _ name).1 (
                  name,
                  (common_name_iff ssl cert name).1 named,
                  (when_some-eq-some (find_device db name) _ name).1 (
                    device,
                    d,
                    (when_some-eq-some (read_pem ssl device.certificate) _ name).1 (
                      device_cert,
                      (read_pem_iff ssl available device.certificate device_cert).1 device_pem,
                      (return_if-eq-some (not (ssl.same cert device_cert)) _ name).1
                          (ap not same, refl),
                    ),
                  ),
                ),
              ),
            ),
      )
