-- ===== src/Server/ControlServer/Safety/Devices.antt =====
-- Server/ControlServer/ServerSession.cpp: the streams that are asked of a device.
use text.Mathlib.TextEquality.{eq_iff}
use ip_cam_box.Prelude.{
  false, ℕ, ◌≡◌, refl, subst, string_eq, Bool, true, ◌||◌, not, Option, none, some, arith, is_some,
  nat_eq, Option-cases, inl, inr, fault, null_pointer, assertion, if◌then◌else◌,
}
use ip_cam_box.Prelude.Assoc.{find, emplace, erase, find-emplace, find-emplace_self}
use ip_cam_box.Server.Config.{DeviceId, SourceId}
use ip_cam_box.Server.ControlServer.Sessions.{
  SessionContext, Contexts, StreamDst, new_context, stream_requested, stop_stream_requested, get,
}
use ip_cam_box.Server.ControlServer.ServerSession.{State, set_context}
use ip_cam_box.Server.ControlServer.Requests.{request, stop}
use ip_cam_box.Server.ControlServer.Links.{set_context-SameLinks, get-SameLinks, SameLinks}
use ip_cam_box.Server.ControlServer.Safety.{
  IsSafe, Safe, Safe-ok, HasContext, Continues-IsSafe, session_request_stream-Safe,
  session_stop_stream-Safe,
}

-- What a device is asked to stream of a source, and to where.
abbrev pub destination_in : SourceId → Option SessionContext → Option StreamDst
destination_in source none = none
destination_in source (some c) = find source c.active_sources

abbrev pub destination : State → DeviceId → SourceId → Option StreamDst
destination st d source = destination_in source (find d st.contexts)

-- The links and the timers stay, and the tasks.
pub SameLinks-IsSafe :
    (st : State) (cs : Contexts)
    → SameLinks st (record st { contexts = cs })
    → IsSafe st
    → IsSafe (record st { contexts = cs })
SameLinks-IsSafe st cs same h =
    Continues-IsSafe (record { same = same; retried = λ j r. inl r; queued = h.tasks }) h

-- The context that `get` finds or makes has what was there, and a new one has nothing.
pub get-destination :
    (d : DeviceId) (source : SourceId) (st : State) {c : SessionContext}
    → find d (get d st.contexts) ≡ some c
    → find source c.active_sources ≡ destination st d source
unfolding get find
get-destination d source st {c} kept = elim (Option-cases (find d st.contexts)) [
  | inl new ↦ ground (arith, kept, find-emplace_self d new_context st.contexts new, new)
  | inr (old, known) ↦ ground (arith, kept, find-emplace d d new_context st.contexts, known)
]

pub get-kept : (d : DeviceId) (m : Contexts) → is_some (find d (get d m)) ≡ true
unfolding get
get-kept d m = ground (arith, find-emplace d d new_context m, eq_iff d d)

pub get-IsSafe :
    (d : DeviceId) (st : State) → IsSafe st → IsSafe (record st { contexts = get d st.contexts })
get-IsSafe d st h = SameLinks-IsSafe st _ (get-SameLinks d st) h

pub set_context-IsSafe :
    (d : DeviceId) (c c' : SessionContext) (st : State)
    → find d st.contexts ≡ some c
    → c'.active_session ≡ c.active_session
    → IsSafe st
    → IsSafe (set_context d c' st)
set_context-IsSafe d c c' st kept same h =
    SameLinks-IsSafe st _ (set_context-SameLinks d c' st (ground (arith, kept, same))) h

-- The session that a context has is one with a context.
pub active-HasContext :
    (d : DeviceId) (c c' : SessionContext) (st : State) {id : ℕ}
    → find d st.contexts ≡ some c
    → c.active_session ≡ some id
    → IsSafe st
    → HasContext (set_context d c' st) id
active-HasContext d c c' st {id} kept active h =
    ground (arith, h.links.pointed id d (ground (arith, kept, active)))

module _ (ndebug : Bool) where
  pub request-Safe :
      (d : DeviceId) (source : SourceId) (dst : StreamDst) (st : State)
      → (ndebug || not (is_some (destination st d source))) ≡ true
      → IsSafe st
      → Safe (request ndebug d source dst st)
  unfolding request stream_requested
  request-Safe d source dst st idle h =
      let st1 = record st { contexts = get d st.contexts } in
      let safe = get-IsSafe d st h in
      elim (Option-cases (find d st1.contexts)) [
        | inl lost ↦ ground (arith, lost, get-kept d st.contexts)
        | inr (c, kept) ↦ elim (Option-cases (find source c.active_sources)) [
          | inl free ↦
              let c' = record c { active_sources = emplace source dst c.active_sources } in
              let safe2 = set_context-IsSafe d c c' st1 kept refl safe in
              elim (Option-cases c.active_session) [
                | inl alone ↦
                    Safe-ok (set_context d c' st1) (ground (arith, kept, free, alone)) safe2
                | inr (id, active) ↦ subst Safe (ground (arith, kept, free, active)) (
                    session_request_stream-Safe id source (set_context d c' st1) safe2
                      (active-HasContext d c c' st1 kept active safe))
              ]
          | inr (old, busy) ↦
              let safe2 = set_context-IsSafe d c c st1 kept refl safe in
              let release : ndebug ≡ true =
                ground (arith, idle, busy, get-destination d source st kept) in
              elim (Option-cases c.active_session) [
                | inl alone ↦
                    Safe-ok (set_context d c st1) (ground (arith, kept, busy, alone, release)) safe2
                | inr (id, active) ↦ subst Safe (ground (arith, kept, busy, active, release)) (
                    session_request_stream-Safe id source (set_context d c st1) safe2
                      (active-HasContext d c c st1 kept active safe))
              ]
        ]
      ]

  -- In a debug build a stream that is active already may not be asked for.
  pub request_fails :
      (d : DeviceId) (source : SourceId) (dst : StreamDst) (st : State)
      → (ndebug || not (is_some (destination st d source))) ≡ false
      → request ndebug d source dst st ≡ fault (if ndebug then null_pointer else assertion)
  unfolding request stream_requested
  request_fails d source dst st busy = elim (Option-cases (find d (get d st.contexts))) [
    | inl lost ↦ ground (arith, lost, get-kept d st.contexts)
    | inr (c, kept) ↦ ground (arith, kept, busy, get-destination d source st kept)
  ]

  pub stop-Safe :
      (d : DeviceId) (source : SourceId) (st : State) → IsSafe st → Safe (stop ndebug d source st)
  unfolding stop stop_stream_requested
  stop-Safe d source st h =
      let st1 = record st { contexts = get d st.contexts } in
      let safe = get-IsSafe d st h in
      elim (Option-cases (find d st1.contexts)) [
        | inl lost ↦ ground (arith, lost, get-kept d st.contexts)
        | inr (c, kept) ↦
            let c' = record c { active_sources = erase source c.active_sources } in
            let safe2 = set_context-IsSafe d c c' st1 kept refl safe in
            elim (Option-cases c.active_session) [
              | inl alone ↦ Safe-ok (set_context d c' st1) (ground (arith, kept, alone)) safe2
              | inr (id, active) ↦ subst Safe (ground (arith, kept, active)) (
                  session_stop_stream-Safe id source (set_context d c' st1) safe2
                    (active-HasContext d c c' st1 kept active safe))
            ]
      ]
