-- ===== src/Server/ServerMain.antt =====
-- Server/ServerMain.cpp: the restream server's callbacks are the control server's requests.
pub mod Playing
pub mod TwoPaths
use ip_cam_box.Prelude.{
  ℕ, String, string_eq, Bool, Option, none, some, List, [], ◌∷◌, Outcome, ok, ◌>>=◌, concat,
}
use ip_cam_box.Server.Config.{DeviceId, SourceId, UserName, Config}
use ip_cam_box.Server.ControlServer.ServerSession.{State}
use ip_cam_box.Server.ControlServer.Requests.{request, stop}
use ip_cam_box.Server.RestreamServer.{
  Paths, Call, first_reader_connected, last_reader_disconnected, first_player_connected,
  last_player_disconnected,
}

-- `restreamServerUrl` is what fmt makes of the host and the port.
module _ (ndebug : Bool) (restream_server_url : String) where
  abbrev pub record_url : SourceId → String
  record_url source = concat (concat restream_server_url source) "?record"

  -- The two callbacks.
  unfoldable pub answer : List Call → State → Outcome State
  answer [] st = ok st
  answer (first_reader_connected device source ∷ calls) st =
      request ndebug device source (record_url source) st >>= answer calls
  answer (last_reader_disconnected device source ∷ calls) st =
      stop ndebug device source st >>= answer calls

  module _ (strsplit : String → String → ℕ → List String) where
    unfoldable pub player_connects :
        Config → UserName → String → Paths × State → Outcome (Paths × State)
    player_connects config user path (paths, st) = do
      (paths', calls) ← first_player_connected strsplit config ndebug user path paths
      st' ← answer calls st
      ok (paths', st')

    unfoldable pub players_leave : String → Paths × State → Outcome (Paths × State)
    players_leave path (paths, st) = do
      (paths', calls) ← last_player_disconnected strsplit ndebug path paths
      st' ← answer calls st
      ok (paths', st')
