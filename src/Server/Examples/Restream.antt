-- ===== src/Server/Examples/Restream.antt =====
-- Runs of the restream server and of both servers together, and the theorems at them.
use text.Mathlib.TextEquality.{eq_iff}
use ip_cam_box.Prelude.{
  ℕ, ◌≡◌, ◌↔◌, refl, String, string_eq, true, false, not, ◌&&◌, ◌||◌, none, some, List, [], ◌∷◌, ok,
  ◌>>=◌, arith, is_some, is_empty, ◌==◌, if◌then◌else◌,
}
use ip_cam_box.Prelude.Assoc.{find}
use ip_cam_box.Server.Config.{DeviceId, SourceId, PlaySource, User, HashType, sha1}
use ip_cam_box.Server.FileConfig.{config, find_device_source, find_user_source}
use ip_cam_box.Server.PgConfig.{
  Row, Database, is_device_exists, has_user_source, config as pg_config,
}
use ip_cam_box.Server.PgConfig.Rights.{any_source-authorize}
use ip_cam_box.Server.ControlServer.ServerSession.{State}
use ip_cam_box.Server.ControlServer.Safety.{IsSafe}
use ip_cam_box.Server.ControlServer.Safety.Devices.{destination}
use ip_cam_box.Server.ControlServer.Events.{no_sessions, no_sessions-IsSafe}
use ip_cam_box.Server.RestreamServer.{
  PathInfo, Paths, access, extract_source_id, authentication_required, authorize,
}
use ip_cam_box.Server.RestreamServer.Rights.{authorize_iff, authentication_required_iff}
use ip_cam_box.Server.RestreamServer.Players.{Describes, plays}
use ip_cam_box.Server.ServerMain.{record_url, player_connects, players_leave}
use ip_cam_box.Server.ServerMain.Playing.{player_connects-streams, players_leave-streams}
use ip_cam_box.Server.ServerMain.TwoPaths.{two_paths-stop}
use ip_cam_box.Server.Examples.{store, store_plays, load_config-IsConsistent_example}

-- Every path names the source `cam`.
abbrev strsplit : String → String → ℕ → List String
strsplit path separator n = "" ∷ "cam" ∷ []

abbrev play : PlaySource
play = record { source_id = "cam"; device_id = "box" }

abbrev both : PathInfo
both = record { device_id = "box"; source_id = "cam"; has_players = true; has_recorder = true }

abbrev busy : Paths
busy = ("/cam", both) ∷ []

busy-Describes : Describes strsplit (λ q. "/cam" == q) (λ q. "/cam" == q) busy
unfolding find extract_source_id
busy-Describes = record {
  played = λ q. ground (arith, eq_iff "/cam" q);
  recorded = λ q. ground (arith, eq_iff "/cam" q);
  used = λ q info p. ground (arith, eq_iff "/cam" q, p);
  named = λ q info p. ground (arith, eq_iff "/cam" q, p);
}

start-IsSafe : IsSafe no_sessions
start-IsSafe = no_sessions-IsSafe (config store) false (record {
  client_greeting = λ body. true;
  client_config_request = λ body. true;
  client_ready = λ body. true;
  stream_status = λ body. none;
})

authorize_iff_example : (authorize strsplit (config store) "box" access "/cam" true ≡ true) ↔ (
    (is_empty (extract_source_id strsplit "/cam") ≡ false)
    × (is_some (find_device_source store "box" (extract_source_id strsplit "/cam")) ≡ true)
    × (is_some (find_user_source store "box" (extract_source_id strsplit "/cam")) ≡ false))
authorize_iff_example =
    authorize_iff strsplit (config store) load_config-IsConsistent_example "box" access "/cam" true

authentication_required_iff_example :
    (authentication_required strsplit (config store) "/cam" false ≡ false) ↔ (
      (is_empty (extract_source_id strsplit "/cam") ≡ false)
      × (false ≡ false)
      × (is_some (find_user_source store "" (extract_source_id strsplit "/cam")) ≡ true))
authentication_required_iff_example =
    authentication_required_iff strsplit (config store) load_config-IsConsistent_example "/cam"
      false

abbrev eve : User
eve = record {
  name = "eve";
  play_password_salt = "";
  play_password_hash_type = sha1;
  play_password_hash = "";
}

abbrev digest : HashType → String → String
digest type text = text

player_connects-streams_example :
    (paths' : Paths) × (st' : State) × (player_connects false "rtsp://here/" strsplit
        (config store)
        "eve"
        "/cam"
        (busy, no_sessions)
      ≡ ok (paths', st'))
    × Describes strsplit (λ q. ("/cam" == q) || ("/cam" == q)) (λ q. "/cam" == q) paths'
    × IsSafe st'
    × ((d : DeviceId) (s : SourceId)
        → destination st' d s ≡ (
            if ("box" == d) && ("cam" == s)
            then some (record_url false "rtsp://here/" "cam")
            else destination no_sessions d s))
unfolding extract_source_id find
player_connects-streams_example =
    player_connects-streams false "rtsp://here/" strsplit (λ q. "/cam" == q) (λ q. "/cam" == q) busy
      no_sessions busy-Describes start-IsSafe (config store) "eve" "/cam" play
      load_config-IsConsistent_example store_plays refl

players_leave-streams_example :
    (paths' : Paths) × (st' : State) × (players_leave false "rtsp://here/" strsplit "/cam"
        (busy, no_sessions)
      ≡ ok (paths', st'))
    × Describes strsplit (λ q. not ("/cam" == q) && ("/cam" == q)) (λ q. "/cam" == q) paths'
    × IsSafe st'
    × ((d : DeviceId) (s : SourceId)
        → destination st' d s ≡ (
            if ("box" == d) && (extract_source_id strsplit "/cam" == s)
            then none
            else destination no_sessions d s))
unfolding find
players_leave-streams_example =
    players_leave-streams false "rtsp://here/" strsplit (λ q. "/cam" == q) (λ q. "/cam" == q) busy
      no_sessions busy-Describes start-IsSafe "/cam"
      (record { device_id = "box"; source_id = "cam"; has_players = true; has_recorder = true })
      refl refl

two_paths-stop_example :
    (paths' : Paths) × (st' : State) × ((do
      one ←
          player_connects true "rtsp://here/" strsplit (config store) "eve" "/cam" ([], no_sessions)
      two ← player_connects true "rtsp://here/" strsplit (config store) "eve" "/cam/1" one
      players_leave true "rtsp://here/" strsplit "/cam/1" two)
      ≡ ok (paths', st'))
    × (plays (find "/cam" paths') ≡ true)
    × (destination st' "box" "cam" ≡ none)
unfolding extract_source_id
two_paths-stop_example =
    two_paths-stop "rtsp://here/" strsplit (config store) "eve" "/cam" "/cam/1" play no_sessions
      load_config-IsConsistent_example refl refl store_plays start-IsSafe

abbrev a_row : Row
a_row = record {
  text = λ column. "cam";
  is_null = λ column. true;
  uint32 = λ column. 0;
  uint16 = λ column. 0;
}

-- The device `box` without a source.
abbrev database : Database
database = record {
  connected = true;
  query = λ statement parameters.
      if statement == "select true from DEVICES where ID = $1 limit 1"
      then some (a_row ∷ [])
      else some [];
}

any_source-authorize_example :
    authorize strsplit (pg_config database) "box" access "/cam" true ≡ true
unfolding extract_source_id is_device_exists has_user_source
any_source-authorize_example =
    any_source-authorize strsplit database "box" access "/cam" refl refl refl
