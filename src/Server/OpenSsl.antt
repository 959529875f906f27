-- ===== src/Server/OpenSsl.antt =====
-- What the configurations call of OpenSSL and GIO to tell a client by its certificate: parameters, with
-- the steps that Server/FileConfig/Config.cpp, Server/Config/MemoryConfig.cpp and
-- Server/PGConfig/Config.cpp share.
use ip_cam_box.Prelude.{
  ℕ, String, string_eq, Bool, true, false, not, Option, none, some, List, [], ◌∷◌, ◌++◌, ◌≡◌, ◌↔◌,
  is_empty, when_some-eq-some, return_if-eq-some, when_some, return_if,
}
use ip_cam_box.Server.Config.{Device}

-- An answer is false, or `none`, where the source tests for a null pointer, a negative number or a
-- failure. `PEM_read_bio_X509` reads what was written to a new memory BIO. An `X509_STORE` is the list
-- of the certificates that were added to it.
pub record OpenSsl : Type 1 where
  pub X509 : Type 0
  pub Name : Type 0
  pub NameEntry : Type 0
  pub Asn1String : Type 0
  pub TlsCertificate : Type 0
  pub store_new : Bool
  pub store_add_cert : List X509 → X509 → Bool
  pub store_ctx_new : Bool
  pub store_ctx_init : List X509 → X509 → Bool
  pub verify_cert : List X509 → X509 → Bool
  pub bio_new : Bool
  pub bio_write : String → Bool
  pub read_x509 : String → Option X509
  pub same : X509 → X509 → Bool
  pub subject_name : X509 → Option Name
  pub common_name_index : Name → Option ℕ
  pub get_entry : Name → ℕ → Option NameEntry
  pub entry_data : NameEntry → Option Asn1String
  pub string_data : Asn1String → Option String
  pub certificate_pem : TlsCertificate → Option String

module _ (ssl : OpenSsl) where
  -- A text through a memory BIO: `BIO_new`, `BIO_write` or `BIO_puts`, `PEM_read_bio_X509`.
  unfoldable pub read_pem : String → Option ssl.X509
  read_pem pem =
      return_if (not ssl.bio_new) none
        (return_if (not (ssl.bio_write pem)) none (ssl.read_x509 pem))

  -- The common name of the subject.
  unfoldable pub common_name : ssl.X509 → Option String
  common_name cert = when_some (ssl.subject_name cert) none (λ subject.
      when_some (ssl.common_name_index subject) none (λ name_index.
        when_some (ssl.get_entry subject name_index) none (λ name_entry.
          when_some (ssl.entry_data name_entry) none (λ asn1_name. ssl.string_data asn1_name))))

  -- One device of the enumeration: its certificate goes to the store, or not.
  unfoldable pub allow_device : Device → List ssl.X509 → List ssl.X509
  allow_device device allowed = return_if (is_empty device.certificate) allowed (
      when_some (read_pem device.certificate) allowed (λ device_cert.
        return_if (not (ssl.store_add_cert allowed device_cert)) allowed
          (allowed ++ (device_cert ∷ []))))

  unfoldable pub allow_devices : List Device → List ssl.X509 → List ssl.X509
  allow_devices [] allowed = allowed
  allow_devices (device ∷ devices) allowed = allow_devices devices (allow_device device allowed)

  -- Whether the certificate verifies against the store.
  unfoldable pub verifies : List ssl.X509 → ssl.X509 → Bool
  verifies allowed cert =
      return_if (not ssl.store_ctx_new) false
        (return_if (not (ssl.store_ctx_init allowed cert)) false (ssl.verify_cert allowed cert))

pem_cases {ℓ} :
    {A : Type ℓ} (empty : Bool) (o : Option A) (a : A)
    → (return_if (not (not empty)) none o ≡ some a) ↔ ((empty ≡ false) × (o ≡ some a))
pem_cases true o a = return_if-eq-some true o a
pem_cases false o a = return_if-eq-some false o a

-- The resources are there: allocations succeed, a memory BIO takes any text but the empty one, of which
-- nothing is written, a context can be set up, and a store takes every certificate.
pub record IsAvailable (ssl : OpenSsl) : Type 0 where
  pub store : ssl.store_new ≡ true
  pub context : ssl.store_ctx_new ≡ true
  pub bio : ssl.bio_new ≡ true
  pub writes : (pem : String) → ssl.bio_write pem ≡ not (is_empty pem)
  pub inits : (allowed : List ssl.X509) (cert : ssl.X509) → ssl.store_ctx_init allowed cert ≡ true
  pub adds : (allowed : List ssl.X509) (cert : ssl.X509) → ssl.store_add_cert allowed cert ≡ true

module _ (ssl : OpenSsl) where
  -- A text that is a certificate.
  abbrev pub HasPem : String → ssl.X509 → Type 0
  HasPem pem cert = (is_empty pem ≡ false) × (ssl.read_x509 pem ≡ some cert)

  -- The subject of the certificate has a common name, which is this.
  abbrev pub HasCommonName : ssl.X509 → String → Type 0
  HasCommonName cert name =
      (subject : ssl.Name) × (index : ℕ) × (entry : ssl.NameEntry) × (text : ssl.Asn1String)
      × (ssl.subject_name cert ≡ some subject)
      × (ssl.common_name_index subject ≡ some index)
      × (ssl.get_entry subject index ≡ some entry)
      × (ssl.entry_data entry ≡ some text)
      × (ssl.string_data text ≡ some name)

  pub common_name_iff :
      (cert : ssl.X509) (name : String)
      → (common_name ssl cert ≡ some name) ↔ HasCommonName cert name
  unfolding common_name when_some
  common_name_iff cert name = (
    λ h.
        let (subject, s, h1) = (when_some-eq-some (ssl.subject_name cert) _ name).0 h in
        let (index, i, h2) = (when_some-eq-some (ssl.common_name_index subject) _ name).0 h1 in
        let (entry, e, h3) = (when_some-eq-some (ssl.get_entry subject index) _ name).0 h2 in
        let (text, t, h4) = (when_some-eq-some (ssl.entry_data entry) _ name).0 h3 in
        (subject, index, entry, text, s, i, e, t, h4),
    λ (subject, index, entry, text, s, i, e, t, n). rw (s, i, e, t) n,
  )

  module _ (available : IsAvailable ssl) where
    pub read_pem_iff :
        (pem : String) (cert : ssl.X509) → (read_pem ssl pem ≡ some cert) ↔ HasPem pem cert
    unfolding read_pem return_if
    read_pem_iff pem cert =
        rw (available.bio, available.writes pem) (pem_cases (is_empty pem) (ssl.read_x509 pem) cert)

    pub verifies_lem :
        (allowed : List ssl.X509) (cert : ssl.X509)
        → verifies ssl allowed cert ≡ ssl.verify_cert allowed cert
    unfolding verifies return_if
    verifies_lem allowed cert = rw (available.context, available.inits allowed cert)
