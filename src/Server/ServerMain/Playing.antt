-- ===== src/Server/ServerMain/Playing.antt =====
-- Server/ServerMain.cpp: what is played is what the devices are asked to stream.
use text.Mathlib.TextEquality.{eq_iff}
use ip_cam_box.Prelude.{
  ℕ, ◌≡◌, subst, String, string_eq, Bool, true, not, ◌&&◌, ◌||◌, none, some, List, ok, arith, ◌==◌,
  if◌then◌else◌,
}
use ip_cam_box.Server.Config.{DeviceId, SourceId, UserName, PlaySource, Config, IsConsistent}
use ip_cam_box.Server.ControlServer.ServerSession.{State}
use ip_cam_box.Server.ControlServer.Requests.{request, stop}
use ip_cam_box.Server.ControlServer.Safety.{IsSafe, Safe}
use ip_cam_box.Server.ControlServer.Safety.Devices.{destination, request-Safe, stop-Safe}
use ip_cam_box.Server.ControlServer.Events.{first_reader, last_reader, Safe-runs}
use ip_cam_box.Server.ControlServer.Streams.{ask, Leaves}
use ip_cam_box.Server.ControlServer.Streams.Steps.{request-Leaves, stop-Leaves}
use ip_cam_box.Prelude.Assoc.{find}
use ip_cam_box.Server.RestreamServer.{PathInfo, Paths, extract_source_id}
use ip_cam_box.Server.RestreamServer.Players.{
  Describes, first_player_connected-Describes, last_player_disconnected-Describes,
}
use ip_cam_box.Server.ServerMain.{record_url, answer, player_connects, players_leave}

module _ (ndebug : Bool) (url : String) (strsplit : String → String → ℕ → List String)
    (players recorders : String → Bool) (paths : Paths) (st : State)
    (h : Describes strsplit players recorders paths) (safe : IsSafe st) where
  -- The first player of a path that the user may play, of a source that no device is asked for: the
  -- device of the source is asked to stream it to the address of the restream server for that source,
  -- nothing else that is asked of the devices changes, and both servers keep their invariants.
  pub player_connects-streams :
      (config : Config) (user : UserName) (path : String) (play : PlaySource)
      → IsConsistent config
      → config.find_user_source user (extract_source_id strsplit path) ≡ some play
      → destination st play.device_id play.source_id ≡ none
      → (paths' : Paths) × (st' : State) × (player_connects ndebug url strsplit config user path
            (paths, st)
          ≡ ok (paths', st'))
        × Describes strsplit (λ q. (path == q) || players q) recorders paths'
        × IsSafe st'
        × ((d : DeviceId) (s : SourceId)
            → destination st' d s ≡ (
                if (play.device_id == d) && (play.source_id == s)
                then some (record_url ndebug url play.source_id)
                else destination st d s))
  unfolding player_connects answer ask
  player_connects-streams config user path play laws allowed free =
      let (paths', runs, next) =
        first_player_connected-Describes strsplit ndebug players recorders paths h config user path
          play laws allowed in
      let dst = record_url ndebug url play.source_id in
      let asked =
        request-Safe ndebug play.device_id play.source_id dst st (ground (arith, free)) safe in
      let (st', called) = Safe-runs (request ndebug play.device_id play.source_id dst st) asked in
      let streams =
        subst (Leaves (ask (first_reader play.device_id play.source_id dst) (destination st)))
          called (request-Leaves ndebug play.device_id play.source_id dst st) in
      (
        paths',
        st',
        ground (arith, runs, called),
        next,
        subst Safe called asked,
        λ d s. ground (arith, streams d s, eq_iff play.device_id d, eq_iff play.source_id s, free),
      )

  -- When the last player of a path that is played goes, the device that the entry of the path names is no
  -- longer asked for the source of the path, nothing else that is asked of the devices changes, and both
  -- servers keep their invariants.
  pub players_leave-streams :
      (path : String) (info : PathInfo)
      → find path paths ≡ some info
      → info.has_players ≡ true
      → (paths' : Paths) × (st' : State) × (players_leave ndebug url strsplit path (paths, st)
          ≡ ok (paths', st'))
        × Describes strsplit (λ q. not (path == q) && players q) recorders paths'
        × IsSafe st'
        × ((d : DeviceId) (s : SourceId)
            → destination st' d s ≡ (
                if (info.device_id == d) && (extract_source_id strsplit path == s)
                then none
                else destination st d s))
  unfolding players_leave answer ask
  players_leave-streams path info known playing =
      let (paths', runs, next) =
        last_player_disconnected-Describes strsplit ndebug players recorders paths h path info known
          playing in
      let device = info.device_id in
      let source = extract_source_id strsplit path in
      let asked = stop-Safe ndebug device source st safe in
      let (st', called) = Safe-runs (stop ndebug device source st) asked in
      let streams =
        subst (Leaves (ask (last_reader device source) (destination st))) called
          (stop-Leaves ndebug device source st) in
      (paths', st', ground (arith, runs, called), next, subst Safe called asked, λ d s. streams d s)
