-- ===== src/Server/RestreamServer.antt =====
-- Server/RestreamServer/Server.cpp: who may play and record, and the paths that are in use.
pub mod Rights
pub mod Players
pub mod Recorders
pub mod Serving
use mathlib.Core.Option
use ip_cam_box.Prelude.{
  ℕ, String, string_eq, Bool, true, false, not, ◌&&◌, ◌||◌, Option, none, some, List, [], ◌∷◌,
  Outcome, ok, fault, null_pointer, ◌>>=◌, ◌>>◌, check, is_some, is_empty, ◌==◌, if◌then◌else◌,
  return_if,
}
use ip_cam_box.Prelude.Assoc.{Assoc, find, emplace, erase, modify}
use ip_cam_box.Server.Config.{DeviceId, SourceId, UserName, HashType, PlaySource, User, Config}
use ip_cam_box.Server.Hash.{check_hash}

pub record PathInfo : Type 0 where
  pub device_id : DeviceId
  pub source_id : SourceId
  pub has_players : Bool
  pub has_recorder : Bool

abbrev pub Paths : Type 0
Paths = Assoc String PathInfo

-- A call of one of the two callbacks.
pub data Call : Type 0 where
  first_reader_connected last_reader_disconnected : DeviceId → SourceId → Call

-- `Action` of the restream library.
pub data Action : Type 0 where
  access construct : Action

abbrev pub same : Bool → Bool → Bool
same true b = b
same false b = not b

-- The second of the tokens.
abbrev pub second_token : List String → SourceId
second_token [] = ""
second_token (x ∷ []) = ""
second_token (x ∷ token ∷ rest) = token

-- GLib's `g_strsplit` and OpenSSL's digests are parameters.
module _ (strsplit : String → String → ℕ → List String) where
  unfoldable pub extract_source_id : String → SourceId
  extract_source_id path = second_token (strsplit path "/" 3)

  module _ (config : Config) where
    unfoldable pub authentication_required : String → Bool → Bool
    authentication_required path recording =
        if is_empty (extract_source_id path)
        then true
        else not (not recording && config.has_user_source "" (extract_source_id path))

    unfoldable pub authenticate : (HashType → String → String) → UserName → String → Bool
    authenticate digest user_name pass = elim (config.find_user user_name) [
      | none ↦ false
      | some user ↦
          if is_empty user.name
          then true
          else if is_empty user.play_password_salt || is_empty user.play_password_hash
          then false
          else if not (
              check_hash digest user.play_password_hash_type pass user.play_password_salt
                user.play_password_hash)
          then false
          else true
    ]

    unfoldable pub authorize : UserName → Action → String → Bool → Bool
    authorize user_name action path recording =
        let source_id = extract_source_id path in
        if is_empty source_id
        then false
        else let allow_play = config.has_user_source user_name source_id in
          let allow_record = config.has_device_source user_name source_id in
          if allow_play && allow_record
          then false
          else if not allow_play && not allow_record
          then false
          else elim action [
            | access ↦ same (not recording) allow_play || same recording allow_record
            | construct ↦ same (not recording) allow_play || same recording allow_record
          ]

    module _ (ndebug : Bool) where
      unfoldable pub first_player_connected :
          UserName → String → Paths → Outcome (Paths × List Call)
      first_player_connected user_name path paths =
          let source_id = extract_source_id path in
          elim (config.find_user_source user_name source_id) [
            | none ↦ ok (paths, [])
            | some play ↦
                let call = first_reader_connected play.device_id play.source_id ∷ [] in
                elim (find path paths) [
                  | none ↦ do
                    check ndebug (source_id == play.source_id)
                    ok (
                      emplace path
                          (record {
                            device_id = play.device_id;
                            source_id = play.source_id;
                            has_players = true;
                            has_recorder = false;
                          })
                          paths,
                      call,
                    )
                  | some info ↦ ok (modify path (λ i. record i { has_players = true }) paths, call)
                ]
          ]

      unfoldable pub recorder_connected : UserName → String → Paths → Outcome Paths
      recorder_connected user_name path paths =
          elim (config.find_device_source user_name (extract_source_id path)) [
            | none ↦ ok paths
            | some source ↦ elim (find path paths) [
              | none ↦ ok (
                  emplace path
                    (record {
                      device_id = user_name;
                      source_id = source.id;
                      has_players = false;
                      has_recorder = true;
                    })
                    paths)
              | some info ↦ do
                check ndebug (not info.has_recorder)
                ok (modify path (λ i. record i { has_recorder = true }) paths)
            ]
          ]

  module _ (ndebug : Bool) where
    unfoldable pub last_player_disconnected : String → Paths → Outcome (Paths × List Call)
    last_player_disconnected path paths = elim (find path paths) [
      | none ↦ do check ndebug false; ok (paths, [])
      | some info ↦ do
        check ndebug (info.source_id == extract_source_id path)
        check ndebug info.has_players
        let paths' = modify path (λ i. record i { has_players = false }) paths
        let call = last_reader_disconnected info.device_id info.source_id ∷ []
        ok (if not info.has_recorder then erase path paths' else paths', call)
    ]

    unfoldable pub recorder_disconnected : String → Paths → Outcome Paths
    recorder_disconnected path paths = elim (find path paths) [
      | none ↦ do check ndebug false; ok paths
      | some info ↦ do
        check ndebug (info.source_id == extract_source_id path)
        check ndebug info.has_recorder
        let paths' = modify path (λ i. record i { has_recorder = false }) paths
        ok (if not info.has_players then erase path paths' else paths')
    ]
