-- ===== src/Server/ServerMain/TwoPaths.antt =====
-- Server/ServerMain.cpp: two paths that name the same source.
use text.Mathlib.TextEquality.{eq_iff}
use ip_cam_box.Prelude.{
  ℕ, ◌≡◌, refl, subst, String, string_eq, true, false, none, some, List, [], ok, ◌>>=◌, arith, ◌==◌,
}
use ip_cam_box.Prelude.Assoc.{find, emplace, erase, modify, find-emplace, find-modify, find-erase}
use ip_cam_box.Server.Config.{UserName, PlaySource, Config, IsConsistent}
use ip_cam_box.Server.ControlServer.ServerSession.{State}
use ip_cam_box.Server.ControlServer.Requests.{request, stop}
use ip_cam_box.Server.ControlServer.Safety.{IsSafe, Safe}
use ip_cam_box.Server.ControlServer.Safety.Devices.{destination, request-Safe, stop-Safe}
use ip_cam_box.Server.ControlServer.Events.{last_reader, Safe-runs}
use ip_cam_box.Server.ControlServer.Streams.{ask, Leaves}
use ip_cam_box.Server.ControlServer.Streams.Steps.{stop-Leaves}
use ip_cam_box.Server.RestreamServer.{
  PathInfo, Paths, extract_source_id, first_player_connected, last_player_disconnected,
}
use ip_cam_box.Server.RestreamServer.Players.{plays}
use ip_cam_box.Server.ServerMain.{record_url, answer, player_connects, players_leave}

-- Of two paths that name the same source the one is still played when the last player of the other
-- goes, but the device is no longer asked for the source. Assertions are off: with them the second of
-- the requests fails one.
pub two_paths-stop :
    (url : String) (strsplit : String → String → ℕ → List String) (config : Config)
    (user : UserName) (first second : String) (play : PlaySource) (st : State)
    → IsConsistent config
    → (first == second) ≡ false
    → extract_source_id strsplit first ≡ extract_source_id strsplit second
    → config.find_user_source user (extract_source_id strsplit first) ≡ some play
    → IsSafe st
    → (paths' : Paths) × (st' : State) × ((do
      one ← player_connects true url strsplit config user first ([], st)
      two ← player_connects true url strsplit config user second one
      players_leave true url strsplit second two)
        ≡ ok (paths', st'))
      × (plays (find first paths') ≡ true)
      × (destination st' play.device_id play.source_id ≡ none)
unfolding player_connects players_leave answer first_player_connected last_player_disconnected ask
    find
two_paths-stop url strsplit config user first second play st laws other same_source allowed safe =
    let d = play.device_id in
    let s = play.source_id in
    let named = laws.user_source_found user (extract_source_id strsplit first) play allowed in
    let dst = record_url true url s in
    let safe1 = request-Safe true d s dst st refl safe in
    let (st1, runs1) = Safe-runs (request true d s dst st) safe1 in
    let safe2 = request-Safe true d s dst st1 refl (subst Safe runs1 safe1) in
    let (st2, runs2) = Safe-runs (request true d s dst st1) safe2 in
    let safe3 = stop-Safe true d s st2 (subst Safe runs2 safe2) in
    let (st3, runs3) = Safe-runs (stop true d s st2) safe3 in
    let info : PathInfo = record {
      device_id = d;
      source_id = s;
      has_players = true;
      has_recorder = false;
    } in
    let paths1 = emplace first info [] in
    let paths2 = emplace second info paths1 in
    let f = λ (i : PathInfo). record i { has_players = false } in
    let at_first = λ (q : String). find-emplace first q info [] in
    let at_second = λ (q : String). find-emplace second q info paths1 in
    (
      erase second (modify second f paths2),
      st3,
      ground (
        arith,
        runs1,
        runs2,
        runs3,
        allowed,
        same_source,
        named,
        other,
        at_first second,
        at_second second,
        eq_iff first second,
        eq_iff second second,
      ),
      ground (
        arith,
        other,
        eq_iff first second,
        eq_iff second first,
        eq_iff first first,
        at_first first,
        at_second first,
        find-modify second first f paths2,
        find-erase second first (modify second f paths2),
      ),
      ground (
        arith,
        subst (Leaves (ask (last_reader d s) (destination st2))) runs3 (stop-Leaves true d s st2) d
            s,
        eq_iff d d,
        eq_iff s s,
      ),
    )
