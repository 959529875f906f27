-- ===== src/Server/FileConfig/Certificates.antt =====
-- Server/FileConfig/Config.cpp: the certificates of the devices and of the clients.
use ip_cam_box.Prelude.{
  String, Bool, true, false, not, Option, none, some, List, [], ◌∷◌, ◌++◌, ◌≡◌, ◌↔◌, when_some,
  return_if, arith, is_empty, concat, ◌||◌, if◌then◌else◌, sym, ap, ◌∙◌, append_nil, append_assoc,
  when_some-eq-some, return_if-eq-some,
}
use ip_cam_box.Prelude.Assoc.{Assoc}
use ip_cam_box.Server.Config.{DeviceId, Device}
use ip_cam_box.Server.FileConfig.{Store, DeviceEntry}
use ip_cam_box.Server.OpenSsl.{
  OpenSsl, read_pem, common_name, allow_device, allow_devices, verifies, IsAvailable, HasPem,
  HasCommonName, common_name_iff, read_pem_iff, verifies_lem,
}

-- `enumDevices`, by the devices that the callback sees.
unfoldable pub enum_devices : Assoc DeviceId DeviceEntry → List Device
enum_devices [] = []
enum_devices ((id, entry) ∷ rest) = entry.device ∷ enum_devices rest

module _ (ssl : OpenSsl) where
  -- `none` is no store.
  unfoldable pub load_certificates : Store → Option (List ssl.X509)
  load_certificates c =
      return_if (not ssl.store_new) none (some (allow_devices ssl (enum_devices c.devices) []))

  unfoldable pub authenticate_x509 : Option (List ssl.X509) → ssl.X509 → Option String
  authenticate_x509 allowed_clients cert =
      when_some allowed_clients none
        (λ allowed. return_if (not (verifies ssl allowed cert)) none (common_name ssl cert))

  unfoldable pub authenticate : Option (List ssl.X509) → ssl.TlsCertificate → Option String
  authenticate allowed_clients cert = return_if (not ssl.bio_new) none (
      when_some (ssl.certificate_pem cert) none
        (λ pem. when_some (read_pem ssl pem) none (λ x509. authenticate_x509 allowed_clients x509)))

  -- The certificates that the devices have, one for each text that is a certificate.
  abbrev pub device_certificate : Device → List ssl.X509
  device_certificate device =
      if is_empty device.certificate
      then []
      else elim (ssl.read_x509 device.certificate) [ none ↦ [] | some cert ↦ cert ∷ [] ]

  abbrev pub device_certificates : List Device → List ssl.X509
  device_certificates [] = []
  device_certificates (device ∷ devices) = device_certificate device ++ device_certificates devices

  -- A client whose certificate verifies against those of the devices is known by its common name.
  abbrev pub Knows : List Device → ssl.TlsCertificate → String → Type 0
  Knows devices tls name =
      (pem : String) × (cert : ssl.X509) × (ssl.certificate_pem tls ≡ some pem)
      × HasPem ssl pem cert
      × (ssl.verify_cert (device_certificates devices) cert ≡ true)
      × HasCommonName ssl cert name

  allow_cases :
      (empty : Bool) (o : Option ssl.X509) (add : ssl.X509 → Bool) (allowed : List ssl.X509)
      → ((cert : ssl.X509) → add cert ≡ true)
      → return_if empty allowed (
          when_some
            (return_if (not (not empty)) none o)
            allowed
            (λ cert. return_if (not (add cert)) allowed (allowed ++ (cert ∷ []))))
        ≡ allowed ++ (if empty then [] else elim o [ none ↦ [] | some cert ↦ cert ∷ [] ])
  unfolding return_if when_some
  allow_cases true o add allowed adds = sym (append_nil allowed)
  allow_cases false none add allowed adds = sym (append_nil allowed)
  allow_cases false (some cert) add allowed adds = rw (adds cert)

  module _ (available : IsAvailable ssl) where
    allow_device-append :
        (device : Device) (allowed : List ssl.X509)
        → allow_device ssl device allowed ≡ allowed ++ device_certificate device
    unfolding allow_device read_pem return_if
    allow_device-append device allowed =
        rw (available.bio, available.writes device.certificate)
          (allow_cases (is_empty device.certificate) (ssl.read_x509 device.certificate)
            (ssl.store_add_cert allowed) allowed (available.adds allowed))

    allow_devices-append :
        (devices : List Device) (allowed : List ssl.X509)
        → allow_devices ssl devices allowed ≡ allowed ++ device_certificates devices
    unfolding allow_devices
    allow_devices-append [] allowed = sym (append_nil allowed)
    allow_devices-append (device ∷ devices) allowed =
        ap (allow_devices ssl devices) (allow_device-append device allowed)
        ∙ allow_devices-append devices (allowed ++ device_certificate device)
        ∙ append_assoc allowed (device_certificate device) (device_certificates devices)

    loaded : (c : Store) → load_certificates c ≡ some (device_certificates (enum_devices c.devices))
    unfolding load_certificates return_if
    loaded c =
        ap (λ b. return_if (not b) none (some (allow_devices ssl (enum_devices c.devices) [])))
          available.store
        ∙ ap some (allow_devices-append (enum_devices c.devices) [])

    x509_iff :
        (certs : List ssl.X509) (cert : ssl.X509) (name : String)
        → (authenticate_x509 (some certs) cert ≡ some name)
          ↔ ((ssl.verify_cert certs cert ≡ true) × HasCommonName ssl cert name)
    unfolding authenticate_x509 when_some
    x509_iff certs cert name = rw (verifies_lem ssl available certs cert) (
      λ h.
          let h0 =
            (return_if-eq-some (not (ssl.verify_cert certs cert)) (common_name ssl cert) name).0
              h in
          (ground (arith, h0.0), (common_name_iff ssl cert name).0 h0.1),
      λ (verified, named).
          (return_if-eq-some (not (ssl.verify_cert certs cert)) (common_name ssl cert) name).1
            (ap not verified, (common_name_iff ssl cert name).1 named),
    )

    -- With the resources of OpenSSL at hand, a client is authenticated under a name exactly if its
    -- certificate is well formed, has the name as the common name of its subject, and verifies
    -- against the store of those certificates of the devices that are well formed, in their order. The
    -- name need not be that of the device, nor that of any device.
    pub file_authenticate_iff :
        (c : Store) (tls : ssl.TlsCertificate) (name : String)
        → (authenticate (load_certificates c) tls ≡ some name)
          ↔ Knows (enum_devices c.devices) tls name
    unfolding authenticate
    file_authenticate_iff c tls name =
        let certs = device_certificates (enum_devices c.devices) in
        rw (loaded c) (
          λ h.
              let h0 = (return_if-eq-some (not ssl.bio_new) _ name).0 h in
              let (pem, p, h1) = (when_some-eq-some (ssl.certificate_pem tls) _ name).0 h0.1 in
              let (cert, r, h2) = (when_some-eq-some (read_pem ssl pem) _ name).0 h1 in
              let known = (x509_iff certs cert name).0 h2 in
              (pem, cert, p, (read_pem_iff ssl available pem cert).0 r, known.0, known.1),
          λ (pem, cert, p, has_pem, verified, named).
              (return_if-eq-some (not ssl.bio_new) _ name).1 (
                ap not available.bio,
                (when_some-eq-some (ssl.certificate_pem tls) _ name).1 (
                  pem,
                  p,
                  (when_some-eq-some (read_pem ssl pem) _ name).1 (
                    cert,
                    (read_pem_iff ssl available pem cert).1 has_pem,
                    (x509_iff certs cert name).1 (verified, named),
                  ),
                ),
              ),
        )

-- GLib, for the certificate of the server: `g_get_user_config_dir`, paths, and the contents of files.
pub record Files : Type 0 where
  pub user_config_dir : Option String
  pub is_absolute : String → Bool
  pub build_filename : String → String → String
  pub contents : String → Option String

unfoldable pub config_dir : Files → String
config_dir files = when_some files.user_config_dir "" (λ dir. dir)

unfoldable pub full_path : Files → String → String → String
full_path files dir path =
    if not (files.is_absolute path) then files.build_filename dir path else path

-- `certificate`: `_certificate`, which was returned last, becomes what is returned.
unfoldable pub certificate : Files → Store → String → String
certificate files c last =
    let dir = config_dir files in
    return_if (is_empty dir || is_empty c.certificate_path) last (
      when_some (files.contents (full_path files dir c.certificate_path)) last (λ certificate.
        when_some (files.contents (full_path files dir c.private_key_path)) last
          (λ private_key. concat (concat certificate "\n") private_key)))
