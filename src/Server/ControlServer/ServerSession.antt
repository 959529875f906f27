-- ===== src/Server/ControlServer/ServerSession.antt =====
-- Server/ControlServer/ServerSession.h and .cpp and the two requests of Server.cpp, as functions on
-- the state of the whole control server. A session's pointer to its context is the device under
-- which `Sessions` keeps it; contexts are never removed.
use ip_cam_box.Prelude.{
  ℕ, String, string_eq, Bool, true, false, not, Option, none, some, List, [], ◌∷◌, ◌++◌, Outcome,
  ok, fault, null_pointer, ◌>>=◌, ◌>>◌, check, is_some, is_empty, nat_eq, if◌then◌else◌,
}
use ip_cam_box.Prelude.Assoc.{Assoc, find, emplace, erase, modify}
use ip_cam_box.Server.Config.{DeviceId, SourceId, Device, Config}
use ip_cam_box.Server.ControlServer.Protocol.{
  MessageType, client_greeting_message, client_config_request_message, client_ready_message,
  stream_status_message, StreamStatus, ServerMessage, server_greeting, client_config_reply,
  request_stream, stop_stream, Protobuf,
}
use ip_cam_box.Server.ControlServer.Sessions.{
  SessionContext, Contexts, authenticated, destroyed, should_stream, enum_active_streams, get,
}

pub record Session : Type 0 where
  pub device_id : DeviceId
  pub device : Device
  pub session_context : Option DeviceId
  pub retry : Option SourceId  -- what `_requestStreamTimer` waits with
  pub reading : Bool

-- The sessions by number, what was written to their connections, and the tasks posted to the
-- `io_service`, each a call of `requestStream`.
pub record State : Type 0 where
  pub contexts : Contexts
  pub live : Assoc ℕ Session
  pub written : List (ℕ × ServerMessage)
  pub posted : List (ℕ × SourceId)

abbrev pub no_device : Device
no_device = record { id = ""; certificate = ""; dropbox_token = "" }

abbrev pub new_session : Session
new_session = record {
  device_id = "";
  device = no_device;
  session_context = none;
  retry = none;
  reading = false;
}

-- A pointer that points to nothing.
abbrev pub deref {ℓ} : {A : Type ℓ} → Option A → Outcome A
deref none = fault null_pointer
deref (some a) = ok a

abbrev pub write : ℕ → ServerMessage → State → State
write id message st = record st { written = st.written ++ (id, message) ∷ [] }

abbrev pub update_session : ℕ → (Session → Session) → State → State
update_session id f st = record st { live = modify id f st.live }

abbrev pub set_context : DeviceId → SessionContext → State → State
set_context device context st = record st { contexts = modify device (λ _. context) st.contexts }

-- The constructor, on `onNewConnection`.
unfoldable pub create : ℕ → State → State
create id st = record st { live = emplace id new_session st.live }

-- `ServerSession::requestStream`.
unfoldable pub session_request_stream : ℕ → SourceId → State → Outcome State
session_request_stream id source st = do
  session ← deref (find id st.live)
  device ← deref session.session_context
  context ← deref (find device st.contexts)
  elim (should_stream source context) [
    | none ↦ ok st
    | some dst ↦ ok (write id (request_stream source dst) st)
  ]

-- `ServerSession::stopStream`.
unfoldable pub session_stop_stream : ℕ → SourceId → State → Outcome State
session_stop_stream id source st = do
  session ← deref (find id st.live)
  ok (write id (stop_stream source) st)

-- `authenticate` of the configuration is given the certificate, and `name` is its answer.
unfoldable pub verify_client : ℕ → Option String → State → State × Bool
verify_client id none st = (st, false)
verify_client id (some name) st =
    if is_empty name
    then (st, false)
    else (update_session id (λ s. record s { device_id = name }) st, true)

-- The overloads of `onMessage`, each with whether to go on reading.
unfoldable pub on_client_greeting : ℕ → State → State × Bool
on_client_greeting id st = (write id server_greeting st, true)

abbrev pub post : ℕ → SourceId → State → State
post id source st = record st { posted = st.posted ++ (id, source) ∷ [] }

unfoldable pub on_client_ready : ℕ → Session → State → Outcome (State × Bool)
on_client_ready id session st = elim session.session_context [
  | none ↦ ok (st, false)
  | some device ↦ do
    context ← deref (find device st.contexts)
    ok (enum_active_streams (λ source dst. post id source) context.active_sources st, true)
]

-- `expires_from_now` gives up an earlier wait, and with it the source of that wait.
unfoldable pub on_stream_status : ℕ → Session → StreamStatus → State → Outcome (State × Bool)
on_stream_status id session message st = elim session.session_context [
  | none ↦ ok (st, false)
  | some device ↦ if message.success then ok (st, true) else do
    context ← deref (find device st.contexts)
    ok (
        if is_some (should_stream message.source_id context)
        then (update_session id (λ s. record s { retry = some message.source_id }) st, true)
        else (st, true))
]

-- The handler of the timer, which an error code ends.
unfoldable pub on_timer : ℕ → Bool → State → Outcome State
on_timer id true st = ok st
on_timer id false st = do
  session ← deref (find id st.live)
  let st' = update_session id (λ s. record s { retry = none }) st
  elim session.retry [ none ↦ ok st' | some source ↦ session_request_stream id source st' ]

-- The next task of the `io_service`.
unfoldable pub run_posted : State → Outcome State
run_posted st = elim st.posted [
  | [] ↦ ok st
  | (id, source) ∷ rest ↦ session_request_stream id source (record st { posted = rest })
]

module _ (ndebug : Bool) where
  unfoldable pub destroy : ℕ → State → Outcome State
  destroy id st = do
    session ← deref (find id st.live)
    check ndebug (
        if is_empty session.device_id
        then not (is_some session.session_context)
        else is_some session.session_context)
    let gone = record st { live = erase id st.live }
    if is_empty session.device_id then ok gone else do
      device ← deref session.session_context
      context ← deref (find device st.contexts)
      context' ← destroyed ndebug context
      ok (set_context device context' gone)

  -- `assert(false); return false;`
  abbrev pub refuse : State → Outcome (State × Bool)
  refuse st = do check ndebug false; ok (st, false)

module _ (config : Config) where
  unfoldable pub on_client_config_request : ℕ → Session → State → State × Bool
  on_client_config_request id session st = if is_empty session.device.id then (st, false) else (
    write id
        (client_config_reply session.device.dropbox_token (config.device_sources session.device.id))
        st,
    true,
  )

  module _ (ndebug : Bool) where
    -- After the handshake; `failed` is the error code.
    unfoldable pub on_connected : ℕ → Bool → State → Outcome State
    on_connected id true st = ok st
    on_connected id false st = do
      session ← deref (find id st.live)
      elim (config.find_device session.device_id) [
        | none ↦ ok st
        | some device ↦ do
          let st' = record st { contexts = get session.device_id st.contexts }
          context ← deref (find session.device_id st'.contexts)
          if is_some context.active_session then ok st' else do
            context' ← authenticated ndebug id context
            ok (
                update_session id
                  (λ s. record s {
                    device = device;
                    session_context = some session.device_id;
                    reading = true;
                  })
                  (set_context session.device_id context' st'))
      ]

    module _ (protobuf : Protobuf) where
      unfoldable pub parse_message :
          MessageType → String → ℕ → Session → State → Outcome (State × Bool)
      parse_message client_greeting_message body id session st =
          if protobuf.client_greeting body then ok (on_client_greeting id st) else refuse ndebug st
      parse_message client_config_request_message body id session st =
          if protobuf.client_config_request body
          then ok (on_client_config_request id session st)
          else refuse ndebug st
      parse_message client_ready_message body id session st =
          if protobuf.client_ready body then on_client_ready id session st else refuse ndebug st
      parse_message stream_status_message body id session st = elim (protobuf.stream_status body) [
        | none ↦ refuse ndebug st
        | some message ↦ on_stream_status id session message st
      ]
      parse_message _ body id session st = refuse ndebug st

      -- The read that this answers is over; `readMessageAsync` starts the next.
      unfoldable pub on_message : ℕ → MessageType → String → Bool → State → Outcome State
      on_message id type body failed st = do
        session ← deref (find id st.live)
        let st1 = update_session id (λ s. record s { reading = false }) st
        if failed then ok st1 else do
          (st2, more) ← parse_message type body id session st1
          ok (if more then update_session id (λ s. record s { reading = true }) st2 else st2)
