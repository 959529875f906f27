-- ===== src/Server/ControlServer/Restore.antt =====
-- Server/ControlServer/ServerSession.cpp: what a device is told of the streams that were asked for
-- while it was away, and of those that failed.
use mathlib.Core.List.{append_assoc, append-nil}
use text.Mathlib.TextEquality.{eq_iff}
use ip_cam_box.Prelude.{
  ℕ, suc, zero, ◌≡◌, refl, sym, ap, ◌∙◌, String, string_eq, Bool, true, false, none, some, List, [],
  ◌∷◌, ◌++◌, map, Outcome, ok, ◌>>=◌, arith, nat_eq, nat_beq_iff, All, length,
}
use ip_cam_box.Prelude.Assoc.{Assoc, find, modify, find-modify, IsMap}
use ip_cam_box.Server.Config.{DeviceId, SourceId, Config}
use ip_cam_box.Server.ControlServer.Sessions.{
  SessionContext, StreamDst, should_stream, enum_active_streams,
}
use ip_cam_box.Server.ControlServer.Protocol.{
  Protobuf, client_ready_message, ServerMessage, request_stream,
}
use ip_cam_box.Server.ControlServer.ServerSession.{
  Session, State, run_posted, on_message, session_request_stream, update_session, post,
  parse_message, on_client_ready,
}

-- The `io_service` runs this many of its tasks.
unfoldable pub run_tasks : ℕ → State → Outcome State
run_tasks zero st = ok st
run_tasks (suc n) st = run_posted st >>= run_tasks n

-- A request for each of the streams.
abbrev pub requests : ℕ → Assoc SourceId StreamDst → List (ℕ × ServerMessage)
requests id active = map (λ p. (id, request_stream p.0 p.1)) active

abbrev tasks : ℕ → Assoc SourceId StreamDst → List (ℕ × SourceId)
tasks id active = map (λ p. (id, p.0)) active

-- Each entry of a map is what is found under its key.
IsMap-found : (m : Assoc SourceId StreamDst) → IsMap m → All (λ p. find p.0 m ≡ some p.1) m
unfolding find
IsMap-found [] h = tt
IsMap-found ((k, v) ∷ m) h = (ground (arith, eq_iff k k), later k v m m h.0 (IsMap-found m h.1))
  where
    later :
        (k : SourceId) (v : StreamDst) (m xs : Assoc SourceId StreamDst)
        → find k m ≡ none
        → All (λ p. find p.0 m ≡ some p.1) xs
        → All (λ p. find p.0 ((k, v) ∷ m) ≡ some p.1) xs
    later k v m [] absent h = tt
    later k v m ((j, w) ∷ xs) absent (h, hs) =
        (ground (arith, eq_iff k j, h, absent), later k v m xs absent hs)

post_all-tasks :
    (id : ℕ) (active : Assoc SourceId StreamDst) (st : State)
    → enum_active_streams (λ source dst. post id source) active st
      ≡ record st { posted = st.posted ++ tasks id active }
unfolding enum_active_streams
post_all-tasks id [] st = ap (λ p. record st { posted = p }) (sym (append-nil st.posted))
post_all-tasks id ((source, dst) ∷ rest) st =
    post_all-tasks id rest (post id source st)
    ∙ ap (λ p. record st { posted = p })
        (append_assoc st.posted ((id, source) ∷ []) (tasks id rest))

run_tasks-requests :
    (id : ℕ) (s : Session) (d : DeviceId) (c : SessionContext) (st : State)
    (active : Assoc SourceId StreamDst)
    → find id st.live ≡ some s
    → s.session_context ≡ some d
    → find d st.contexts ≡ some c
    → All (λ p. find p.0 c.active_sources ≡ some p.1) active
    → run_tasks (length active) (record st { posted = tasks id active })
      ≡ ok (record st { posted = []; written = st.written ++ requests id active })
unfolding run_tasks run_posted session_request_stream should_stream
run_tasks-requests id s d c st [] live points kept found =
    ap (λ w. ok (record st { posted = []; written = w })) (sym (append-nil st.written))
run_tasks-requests id s d c st ((source, dst) ∷ rest) live points kept (h, found) =
    let st1 = record st { written = st.written ++ (id, request_stream source dst) ∷ [] } in
    ground (
      arith,
      live,
      points,
      kept,
      h,
      run_tasks-requests id s d c st1 rest live points kept found,
      append_assoc st.written ((id, request_stream source dst) ∷ []) (requests id rest),
    )

-- A device that is ready is told of every stream that was asked for, each with its destination, when
-- the `io_service` has run the tasks that the message posts, and no other message is written and no
-- task is left. The session has the context of the device, and no task waits before.
pub client_ready-restores :
    (config : Config) (ndebug : Bool) (protobuf : Protobuf) (id : ℕ) (body : String) (st : State)
    (s : Session) (d : DeviceId) (c : SessionContext)
    → protobuf.client_ready body ≡ true
    → find id st.live ≡ some s
    → s.session_context ≡ some d
    → find d st.contexts ≡ some c
    → IsMap c.active_sources
    → st.posted ≡ []
    → (st' : State) × ((on_message config ndebug protobuf id client_ready_message body false st
          >>= run_tasks (length c.active_sources))
        ≡ ok st')
      × (st'.written ≡ st.written ++ requests id c.active_sources)
      × (st'.posted ≡ [])
unfolding on_message parse_message on_client_ready
client_ready-restores config ndebug protobuf id body st s d c parsed live points kept unique idle =
    let reading = λ (b : Bool) (s : Session). record s { reading = b } in
    let live1 = modify id (reading true) (modify id (reading false) st.live) in
    let now : find id live1 ≡ some (reading true s) = ground (
      arith,
      find-modify id id (reading true) (modify id (reading false) st.live),
      find-modify id id (reading false) st.live,
      nat_beq_iff id id,
      live,
    ) in
    let st1 = record st { live = live1; posted = tasks id c.active_sources } in
    (
      record st1 { posted = []; written = st.written ++ requests id c.active_sources },
      ground (
        arith,
        parsed,
        live,
        points,
        kept,
        idle,
        post_all-tasks id c.active_sources (update_session id (reading false) st),
        run_tasks-requests id (reading true s) d c st1 c.active_sources now points kept
            (IsMap-found c.active_sources unique),
      ),
      refl,
      refl,
    )
