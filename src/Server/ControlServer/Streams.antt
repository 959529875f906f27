-- ===== src/Server/ControlServer/Streams.antt =====
-- Server/ControlServer: which streams the control server asks of the devices.
pub mod Steps
use mathlib.Core.Option
use text.Mathlib.TextEquality.{eq_iff}
use ip_cam_box.Prelude.{
  ℕ, ◌≡◌, refl, sym, subst, ◌∙◌, String, string_eq, Bool, true, false, not, ◌&&◌, ◌||◌, Option,
  none, some, List, [], ◌∷◌, Outcome, ok, fault, ◌>>=◌, ◌>>◌, arith, is_some, is_empty, nat_eq,
  ◌==◌, if◌then◌else◌, All, Option-cases, Bool-cases, inl, inr, List-cases,
}
use ip_cam_box.Prelude.Assoc.{
  Assoc, find, emplace, erase, modify, find-emplace, find-erase, find-modify,
}
use ip_cam_box.Server.Config.{DeviceId, SourceId, Config}
use ip_cam_box.Server.ControlServer.Sessions.{
  SessionContext, Contexts, StreamDst, get, stream_requested, stop_stream_requested, authenticated,
  destroyed, enum_active_streams, new_context,
}
use ip_cam_box.Server.ControlServer.Protocol.{
  MessageType, Protobuf, client_greeting_message, client_config_request_message,
  client_ready_message, stream_status_message, StreamStatus,
}
use ip_cam_box.Server.ControlServer.ServerSession.{
  Session, State, create, verify_client, on_timer, run_posted, destroy, on_connected, on_message,
  deref, session_request_stream, session_stop_stream, set_context, update_session, post,
  parse_message, on_client_ready, on_client_greeting, on_client_config_request, on_stream_status,
  refuse,
}
use ip_cam_box.Server.ControlServer.Requests.{request, stop}
use ip_cam_box.Server.ControlServer.Safety.Devices.{destination, get-destination, get-kept}
use ip_cam_box.Server.ControlServer.Events.{
  Event, connection, certificate, handshake, message, timer, task, disconnection, first_reader,
  last_reader, handle, Allowed, Reachable, handle-progress,
}

abbrev pub Streams : Type 0
Streams = DeviceId → SourceId → Option StreamDst

-- What an event does to the streams, without sessions, connections and messages.
unfoldable pub ask : Event → Streams → Streams
ask (first_reader device source dst) w d s =
    if (device == d) && (source == s) && not (is_some (w d s)) then some dst else w d s
ask (last_reader device source) w d s = if (device == d) && (source == s) then none else w d s
ask _ w d s = w d s

-- A callback that ends leaves these streams.
abbrev pub Leaves : Streams → Outcome State → Type 0
Leaves w (ok st) = (d : DeviceId) (s : SourceId) → destination st d s ≡ w d s
Leaves w (fault e) = Unit

pub Leaves-through :
    {w v : Streams} (m : Outcome State)
    → Leaves v m
    → ((d : DeviceId) (s : SourceId) → v d s ≡ w d s)
    → Leaves w m
Leaves-through (ok st) h k = λ d s. h d s ∙ k d s
Leaves-through (fault e) h k = tt

pub session_request_stream-Leaves :
    (id : ℕ) (source : SourceId) (st : State)
    → Leaves (destination st) (session_request_stream id source st)
unfolding session_request_stream
session_request_stream-Leaves id source st = ground arith

pub session_stop_stream-Leaves :
    (id : ℕ) (source : SourceId) (st : State)
    → Leaves (destination st) (session_stop_stream id source st)
unfolding session_stop_stream
session_stop_stream-Leaves id source st = ground arith

pub run_posted-Leaves : (st : State) → Leaves (destination st) (run_posted st)
unfolding run_posted
run_posted-Leaves st = elim (List-cases st.posted) [
  | inl idle ↦ ground (arith, idle)
  | inr ((id, source), rest, next) ↦
      subst (Leaves (destination st)) (ground (arith, next))
        (session_request_stream-Leaves id source (record st { posted = rest }))
]

pub on_timer-Leaves :
    (id : ℕ) (cancelled : Bool) (st : State) → Leaves (destination st) (on_timer id cancelled st)
unfolding on_timer session_request_stream
on_timer-Leaves id cancelled st = ground arith

pub verify_client-Leaves :
    (id : ℕ) (name : Option String) (st : State)
    → Leaves (destination st) (ok (verify_client id name st).0)
unfolding verify_client
verify_client-Leaves id name st = ground arith

-- The active session is no part of the streams.
pub set_active-Leaves :
    (d : DeviceId) (c c' : SessionContext) (st : State)
    → find d st.contexts ≡ some c
    → c'.active_sources ≡ c.active_sources
    → Leaves (destination st) (ok (set_context d c' st))
set_active-Leaves d c c' st kept same e s =
    ground (arith, find-modify d e (λ _. c') st.contexts, eq_iff d e, kept, same)

pub get-Leaves :
    (d : DeviceId) (st : State)
    → Leaves (destination st) (ok (record st { contexts = get d st.contexts }))
unfolding get find
get-Leaves d st e s = ground (arith, find-emplace d e new_context st.contexts, eq_iff d e)

pub post_all-Leaves :
    (id : ℕ) (active : Assoc SourceId StreamDst) (st : State)
    → Leaves (destination st) (ok (enum_active_streams (λ source dst. post id source) active st))
unfolding enum_active_streams
post_all-Leaves id [] st d s = refl
post_all-Leaves id ((source, dst) ∷ rest) st d s = post_all-Leaves id rest (post id source st) d s

-- A context that `get` gave, written back.
pub set-destination :
    (d : DeviceId) (c c' : SessionContext) (st : State)
    → find d (get d st.contexts) ≡ some c
    → (e : DeviceId) (s : SourceId)
    → destination (set_context d c' (record st { contexts = get d st.contexts })) e s
      ≡ (if d == e then find s c'.active_sources else destination st e s)
set-destination d c c' st kept e s =
    ground
      (arith, find-modify d e (λ _. c') (get d st.contexts), eq_iff d e, kept, get-Leaves d st e s)

-- The active session, if there is one, is written to.
pub answer-Leaves :
    {w : Streams} (send : ℕ → SourceId → State → Outcome State)
    → ((id : ℕ) (source : SourceId) (st : State) → Leaves (destination st) (send id source st))
    → (active : Option ℕ) (source : SourceId) (st : State) → Leaves w (ok st)
    → Leaves w (elim active [ none ↦ ok st | some id ↦ send id source st ])
answer-Leaves send same none source st h = h
answer-Leaves {w} send same (some id) source st h =
    Leaves-through (send id source st) (same id source st) h
