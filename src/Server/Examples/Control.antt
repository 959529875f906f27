-- ===== src/Server/Examples/Control.antt =====
-- Runs of the control server, and the theorems at them.
use ip_cam_box.Prelude.{
  ℕ, ◌≡◌, refl, string_eq, nat_eq, true, false, none, some, [], ◌∷◌, ok, fault, assertion, ◌>>=◌,
  arith,
}
use ip_cam_box.Prelude.Assoc.{find, emplace, modify}
use ip_cam_box.Server.Config.{DeviceId, SourceId}
use ip_cam_box.Server.FileConfig.{config}
use ip_cam_box.Server.ControlServer.Sessions.{SessionContext, get, authenticated, should_stream}
use ip_cam_box.Server.ControlServer.Protocol.{Protobuf, client_ready_message, request_stream}
use ip_cam_box.Server.ControlServer.ServerSession.{
  Session, State, new_session, create, verify_client, on_connected, on_message, destroy,
  on_stream_status, on_timer, deref,
}
use ip_cam_box.Server.ControlServer.Links.{holder}
use ip_cam_box.Server.ControlServer.Safety.Devices.{destination}
use ip_cam_box.Server.ControlServer.Events.{
  no_sessions, connection, certificate, handshake, disconnection, first_reader, handle, Allowed,
  is_answered, Reachable, start, step, handle-progress, one_session,
}
use ip_cam_box.Server.ControlServer.Streams.{ask}
use ip_cam_box.Server.ControlServer.Streams.Steps.{handle-ask}
use ip_cam_box.Server.ControlServer.Restore.{run_tasks, client_ready-restores}
use ip_cam_box.Server.ControlServer.Refused.{second_connection-faults, second_failure-drops}
use ip_cam_box.Server.Examples.{store, store_knows_box}

-- Every text is a message, and a text is the source that could not be streamed.
abbrev protobuf : Protobuf
protobuf = record {
  client_greeting = λ body. true;
  client_config_request = λ body. true;
  client_ready = λ body. true;
  stream_status = λ body. some (record { source_id = body; success = false });
}

abbrev box_session : Session
box_session = record {
  device_id = "box";
  device = record { id = "box"; certificate = "pem"; dropbox_token = "" };
  session_context = some "box";
  retry = none;
  reading = true;
}

abbrev box_context : SessionContext
box_context = record { active_session = some 1; active_sources = ("cam", "rtsp://here/cam") ∷ [] }

-- `box` is connected, and somebody watches `cam`.
abbrev watched : State
watched = record {
  contexts = ("box", box_context) ∷ [];
  live = (1, box_session) ∷ [];
  written = [];
  posted = [];
}

-- `box` has connected.
abbrev connected : State
connected = record {
  contexts = ("box", record { active_session = some 1; active_sources = [] }) ∷ [];
  live = (1, box_session) ∷ [];
  written = [];
  posted = [];
}

connected-Reachable : Reachable (config store) false protobuf connected
unfolding Allowed handle create verify_client on_connected get authenticated find emplace modify
connected-Reachable =
    step (handshake 1 false)
      (step (certificate 1 (some "box")) (step (connection 1) start refl refl) refl refl)
      (refl, refl, refl) (ground (arith, store_knows_box))

abbrev first_session : ℕ
first_session = 1

one_session_example :
    (first_session ≡ first_session) × (holder connected "box" ≡ some first_session)
unfolding find
one_session_example =
    one_session (config store) false protobuf connected first_session first_session "box"
      connected-Reachable refl refl

-- A second session of `box`, which was refused, goes.
abbrev refused : State
refused = record {
  contexts = ("box", record { active_session = some 1; active_sources = [] }) ∷ [];
  live = (1, box_session) ∷ (2, record new_session { device_id = "box" }) ∷ [];
  written = [];
  posted = [];
}

refused-Reachable : Reachable (config store) false protobuf refused
unfolding Allowed handle create verify_client on_connected get find emplace modify
refused-Reachable =
    step (handshake 2 false)
      (step (certificate 2 (some "box")) (step (connection 2) connected-Reachable refl refl) refl
        refl)
      (refl, refl, refl) (ground (arith, store_knows_box))

handle-progress_example :
    (is_answered (config store) false protobuf (disconnection 2) refused ≡ true
      → (st' : State) × (handle (config store) false protobuf (disconnection 2) refused ≡ ok st')
        × Reachable (config store) false protobuf st')
    × (is_answered (config store) false protobuf (disconnection 2) refused ≡ false
        → handle (config store) false protobuf (disconnection 2) refused ≡ fault assertion)
unfolding Allowed find
handle-progress_example =
    handle-progress (config store) false protobuf (disconnection 2) refused refused-Reachable
      (refl, tt)

handle-ask_example :
    (st' : State) × (handle
        (config store)
        false
        protobuf
        (first_reader "box" "cam" "rtsp://here/cam")
        no_sessions
      ≡ ok st')
    × ((d : DeviceId) (s : SourceId)
        → destination st' d s
          ≡ ask (first_reader "box" "cam" "rtsp://here/cam") (destination no_sessions) d s)
unfolding Allowed is_answered find
handle-ask_example =
    handle-ask false (config store) protobuf (first_reader "box" "cam" "rtsp://here/cam")
      no_sessions start tt refl

client_ready-restores_example :
    (st' : State) × ((on_message
          (config store)
          false
          protobuf
          1
          client_ready_message
          ""
          false
          watched
        >>= run_tasks 1)
      ≡ ok st')
    × (st'.written ≡ (1, request_stream "cam" "rtsp://here/cam") ∷ [])
    × (st'.posted ≡ [])
unfolding find
client_ready-restores_example =
    client_ready-restores (config store) false protobuf 1 "" watched box_session "box" box_context
      refl refl refl refl (refl, tt) refl

second_connection-faults_example :
    (on_connected (config store) false 2 false (record watched {
      live = (1, box_session) ∷ (2, record new_session { device_id = "box" }) ∷ [];
    })
      >>= destroy false 2)
    ≡ fault assertion
unfolding find
second_connection-faults_example =
    second_connection-faults (config store) false 2 1
      (record watched {
        live = (1, box_session) ∷ (2, record new_session { device_id = "box" }) ∷ [];
      })
      (record new_session { device_id = "box" }) _ refl refl refl store_knows_box refl

abbrev two_sources : SessionContext
two_sources = record {
  active_session = some 1;
  active_sources = ("cam", "rtsp://here/cam") ∷ ("door", "rtsp://here/door") ∷ [];
}

abbrev two_watched : State
two_watched = record {
  contexts = ("box", two_sources) ∷ [];
  live = (1, box_session) ∷ [];
  written = [];
  posted = [];
}

second_failure-drops_example :
    (st' : State) × ((do
      (st1, more) ←
          on_stream_status 1 box_session (record { source_id = "cam"; success = false }) two_watched
      s1 ← deref (find 1 st1.live)
      (st2, more') ← on_stream_status 1 s1 (record { source_id = "door"; success = false }) st1
      on_timer 1 false st2)
      ≡ ok st')
    × (st'.written ≡ (1, request_stream "door" "rtsp://here/door") ∷ [])
    × ((s' : Session) → find 1 st'.live ≡ some s' → s'.retry ≡ none)
unfolding find should_stream
second_failure-drops_example =
    second_failure-drops 1 two_watched box_session "box" two_sources "cam" "door" "rtsp://here/cam"
      "rtsp://here/door" refl refl refl refl refl
