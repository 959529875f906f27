-- ===== src/Server/ControlServer/Requests.antt =====
-- `requestStream` and `stopStream` of Server/ControlServer/Server.cpp, which the restream server calls.
use ip_cam_box.Prelude.{string_eq, Bool, none, some, Outcome, ok, ◌>>=◌}
use ip_cam_box.Prelude.Assoc.{find}
use ip_cam_box.Server.Config.{DeviceId, SourceId}
use ip_cam_box.Server.ControlServer.Sessions.{
  StreamDst, stream_requested, stop_stream_requested, get,
}
use ip_cam_box.Server.ControlServer.ServerSession.{
  State, deref, set_context, session_request_stream, session_stop_stream,
}

module _ (ndebug : Bool) where
  -- `Server::requestStream` and `Server::stopStream`.
  unfoldable pub request : DeviceId → SourceId → StreamDst → State → Outcome State
  request device source dst st = do
    let st' = record st { contexts = get device st.contexts }
    context ← deref (find device st'.contexts)
    context' ← stream_requested ndebug source dst context
    let st2 = set_context device context' st'
    elim context'.active_session [ none ↦ ok st2 | some id ↦ session_request_stream id source st2 ]

  unfoldable pub stop : DeviceId → SourceId → State → Outcome State
  stop device source st = do
    let st' = record st { contexts = get device st.contexts }
    context ← deref (find device st'.contexts)
    let context' = stop_stream_requested source context
    let st2 = set_context device context' st'
    elim context'.active_session [ none ↦ ok st2 | some id ↦ session_stop_stream id source st2 ]
