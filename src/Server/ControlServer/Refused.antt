-- ===== src/Server/ControlServer/Refused.antt =====
-- Server/ControlServer/ServerSession.cpp: the orders of callbacks in which the server fails a device.
use ip_cam_box.Prelude.{
  ℕ, ◌≡◌, refl, string_eq, Bool, false, Option, none, some, [], ◌∷◌, ◌++◌, ok, fault, assertion,
  null_pointer, ◌>>=◌, arith, is_empty, nat_eq, nat_beq_iff, if◌then◌else◌, Option-cases, inl, inr,
}
use ip_cam_box.Prelude.Assoc.{find, modify, find-emplace, find-modify}
use ip_cam_box.Server.Config.{DeviceId, SourceId, Device, Config}
use ip_cam_box.Server.ControlServer.Sessions.{
  SessionContext, StreamDst, get, should_stream, new_context,
}
use ip_cam_box.Server.ControlServer.Protocol.{request_stream}
use ip_cam_box.Server.ControlServer.ServerSession.{
  Session, State, on_timer, destroy, on_connected, deref, session_request_stream, on_stream_status,
}
use ip_cam_box.Server.ControlServer.Links.{holder}

-- The second connection of a device that is connected has its name verified and is then refused; when
-- it goes, the destructor fails its assertion, or reads through a null pointer where assertions are
-- off.
pub second_connection-faults :
    (config : Config) (ndebug : Bool) (id other : ℕ) (st : State) (s : Session) (device : Device)
    → find id st.live ≡ some s
    → s.session_context ≡ none
    → is_empty s.device_id ≡ false
    → config.find_device s.device_id ≡ some device
    → holder st s.device_id ≡ some other
    → (on_connected config ndebug id false st >>= destroy ndebug id)
      ≡ fault (if ndebug then null_pointer else assertion)
unfolding on_connected destroy get
second_connection-faults config ndebug id other st s device live loose named known busy =
    elim (Option-cases (find s.device_id st.contexts)) [
      | inl absent ↦ ground (arith, absent, busy)
      | inr (c, kept) ↦ ground (
        arith,
        live,
        loose,
        named,
        known,
        busy,
        kept,
        find-emplace s.device_id s.device_id new_context st.contexts,
      )
    ]

-- Of two sources that fail to stream before the timer ends, only the second is asked for again: the
-- one timer of the session gives up the first. Both are streams that were asked for, and the session
-- has the context of the device.
pub second_failure-drops :
    (id : ℕ) (st : State) (s : Session) (d : DeviceId) (c : SessionContext)
    (first second : SourceId) (dst dst' : StreamDst)
    → find id st.live ≡ some s
    → s.session_context ≡ some d
    → find d st.contexts ≡ some c
    → should_stream first c ≡ some dst
    → should_stream second c ≡ some dst'
    → (st' : State) × ((do
      (st1, more) ← on_stream_status id s (record { source_id = first; success = false }) st
      s1 ← deref (find id st1.live)
      (st2, more') ← on_stream_status id s1 (record { source_id = second; success = false }) st1
      on_timer id false st2)
        ≡ ok st')
      × (st'.written ≡ st.written ++ (id, request_stream second dst') ∷ [])
      × ((s' : Session) → find id st'.live ≡ some s' → s'.retry ≡ none)
unfolding on_stream_status on_timer session_request_stream
second_failure-drops id st s d c first second dst dst' live points kept wanted wanted' =
    let waiting = λ (x : Option SourceId) (s : Session). record s { retry = x } in
    let live1 = modify id (waiting (some first)) st.live in
    let live2 = modify id (waiting (some second)) live1 in
    let live3 = modify id (waiting none) live2 in
    let at1 = find-modify id id (waiting (some first)) st.live in
    let at2 = find-modify id id (waiting (some second)) live1 in
    let at3 = find-modify id id (waiting none) live2 in
    (
      record st { live = live3; written = st.written ++ (id, request_stream second dst') ∷ [] },
      ground (arith, live, points, kept, wanted, wanted', at1, at2, at3, nat_beq_iff id id),
      refl,
      λ s' here. ground (arith, here, at1, at2, at3, live, nat_beq_iff id id),
    )
