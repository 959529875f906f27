-- ===== src/Server/Hash.antt =====
-- Common/Hash.cpp: salted password hashes, over OpenSSL's digests.
use ip_cam_box.Prelude.{String, string_eq, Bool, ◌==◌, concat}
use ip_cam_box.Server.Config.{HashType}

-- `SHA1` and `SHA256` of OpenSSL.
module _ (digest : HashType → String → String) where
  unfoldable pub make_hash : HashType → String → String → String
  make_hash type string salt = digest type (concat salt string)

  unfoldable pub check_hash : HashType → String → String → String → Bool
  check_hash type string salt hash = hash == digest type (concat salt string)
