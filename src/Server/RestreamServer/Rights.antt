-- ===== src/Server/RestreamServer/Rights.antt =====
-- Server/RestreamServer/Server.cpp: who may play and who may record.
use text.Mathlib.TextEquality.{eq_iff}
use ip_cam_box.Prelude.{
  ℕ, ◌≡◌, ◌↔◌, String, string_eq, Bool, true, false, not, some, List, arith, is_some, is_empty,
}
use ip_cam_box.Server.Config.{SourceId, UserName, HashType, User, Config, IsConsistent}
use ip_cam_box.Server.Hash.{check_hash, make_hash}
use ip_cam_box.Server.RestreamServer.{
  Action, access, construct, extract_source_id, authentication_required, authenticate, authorize,
}

module _ (strsplit : String → String → ℕ → List String) (config : Config)
    (laws : IsConsistent config) where
  -- Whoever may play a source of the configuration, and whoever may record one.
  abbrev pub may_play : UserName → SourceId → Bool
  may_play user source = is_some (config.find_user_source user source)

  abbrev pub may_record : UserName → SourceId → Bool
  may_record user source = is_some (config.find_device_source user source)

  -- With a consistent configuration a path is authorised exactly if it names a source and the user has
  -- the one right that the request needs, to record or to play, and not the other one too.
  pub authorize_iff :
      (user : UserName) (action : Action) (path : String) (recording : Bool)
      → (authorize strsplit config user action path recording ≡ true) ↔ (
          (is_empty (extract_source_id strsplit path) ≡ false)
          × (may_record user (extract_source_id strsplit path) ≡ recording)
          × (may_play user (extract_source_id strsplit path) ≡ not recording))
  unfolding authorize
  authorize_iff user access path recording =
      let source = extract_source_id strsplit path in
      ground (arith, laws.user_source_test user source, laws.device_source_test user source)
  authorize_iff user construct path recording =
      let source = extract_source_id strsplit path in
      ground (arith, laws.user_source_test user source, laws.device_source_test user source)

  -- With a consistent configuration a request goes without authentication exactly if it plays a source
  -- that the path names and the anonymous user may play.
  pub authentication_required_iff :
      (path : String) (recording : Bool)
      → (authentication_required strsplit config path recording ≡ false) ↔ (
          (is_empty (extract_source_id strsplit path) ≡ false)
          × (recording ≡ false)
          × (may_play "" (extract_source_id strsplit path) ≡ true))
  unfolding authentication_required
  authentication_required_iff path recording =
      ground (arith, laws.user_source_test "" (extract_source_id strsplit path))

  -- With a consistent configuration a known user with a name is authenticated exactly if the
  -- configuration has a salt and a hash, and the hash is the one that `make_hash` makes of the password.
  pub authenticate_iff :
      (digest : HashType → String → String) (name : UserName) (pass : String) (user : User)
      → config.find_user name ≡ some user
      → is_empty name ≡ false
      → (authenticate strsplit config digest name pass ≡ true) ↔ (
          (is_empty user.play_password_salt ≡ false)
          × (is_empty user.play_password_hash ≡ false)
          × (user.play_password_hash
              ≡ make_hash digest user.play_password_hash_type pass user.play_password_salt))
  unfolding authenticate check_hash make_hash
  authenticate_iff digest name pass user known named = ground (
    arith,
    known,
    named,
    laws.user_name_found name user known,
    eq_iff user.play_password_hash
        (make_hash digest user.play_password_hash_type pass user.play_password_salt),
  )
