-- ===== src/Server/ControlServer/Streams/Steps.antt =====
-- Server/ControlServer: what each callback does to the streams.
use text.Mathlib.TextEquality.{eq_iff}
use ip_cam_box.Prelude.{
  ℕ, ◌≡◌, refl, subst, String, string_eq, Bool, true, false, none, some, Outcome, ok, fault, ◌>>=◌,
  arith, nat_eq, if◌then◌else◌, Option-cases, Bool-cases, inl, inr,
}
use ip_cam_box.Prelude.Assoc.{find, emplace, erase, find-emplace, find-erase}
use ip_cam_box.Server.Config.{DeviceId, SourceId, Config}
use ip_cam_box.Server.ControlServer.Sessions.{
  StreamDst, get, stream_requested, stop_stream_requested, authenticated, destroyed,
}
use ip_cam_box.Server.ControlServer.Protocol.{MessageType, Protobuf, client_ready_message}
use ip_cam_box.Server.ControlServer.ServerSession.{
  Session, State, create, destroy, on_connected, on_message, session_request_stream,
  session_stop_stream, set_context, update_session, parse_message, on_client_ready,
  on_client_greeting, on_client_config_request, on_stream_status,
}
use ip_cam_box.Server.ControlServer.Requests.{request, stop}
use ip_cam_box.Server.ControlServer.Safety.Devices.{destination, get-destination}
use ip_cam_box.Server.ControlServer.Events.{
  Event, connection, certificate, handshake, message, timer, task, disconnection, first_reader,
  last_reader, handle, Allowed, is_answered, Reachable, handle-progress,
}
use ip_cam_box.Server.ControlServer.Streams.{
  Streams, ask, Leaves, answer-Leaves, get-Leaves, on_timer-Leaves, post_all-Leaves,
  run_posted-Leaves, session_request_stream-Leaves, session_stop_stream-Leaves, set-destination,
  set_active-Leaves, verify_client-Leaves,
}

module _ (ndebug : Bool) where
  destroy-Leaves : (id : ℕ) (st : State) → Leaves (destination st) (destroy ndebug id st)
  unfolding destroy destroyed
  destroy-Leaves id st = elim (Option-cases (find id st.live)) [
    | inl gone ↦ ground (arith, gone)
    | inr (s, live) ↦ elim (Option-cases s.session_context) [
      | inl loose ↦ ground (arith, live, loose)
      | inr (d, points) ↦ elim (Option-cases (find d st.contexts)) [
        | inl lost ↦ ground (arith, live, points, lost)
        | inr (c, kept) ↦ ground (
          arith,
          live,
          points,
          kept,
          set_active-Leaves d c (record c { active_session = none }) st kept refl,
        )
      ]
    ]
  ]

  on_connected-Leaves :
      (config : Config) (id : ℕ) (failed : Bool) (st : State)
      → Leaves (destination st) (on_connected config ndebug id failed st)
  unfolding on_connected authenticated
  on_connected-Leaves config id true st = λ e s. refl
  on_connected-Leaves config id false st = elim (Option-cases (find id st.live)) [
    | inl gone ↦ ground (arith, gone)
    | inr (s, live) ↦ elim (Option-cases (config.find_device s.device_id)) [
      | inl unknown ↦ ground (arith, live, unknown)
      | inr (device, known) ↦
          let d = s.device_id in
          let st1 = record st { contexts = get d st.contexts } in
          elim (Option-cases (find d st1.contexts)) [
            | inl lost ↦ ground (arith, live, known, lost)
            | inr (c, kept) ↦ elim (Option-cases c.active_session) [
              | inr (other, busy) ↦ ground (arith, live, known, kept, busy, get-Leaves d st)
              | inl free ↦ ground (
                arith,
                live,
                known,
                kept,
                free,
                get-Leaves d st,
                set_active-Leaves d c (record c { active_session = some id }) st1 kept refl,
              )
            ]
          ]
    ]
  ]

  pub request-Leaves :
      (d : DeviceId) (source : SourceId) (dst : StreamDst) (st : State)
      → Leaves (ask (first_reader d source dst) (destination st)) (request ndebug d source dst st)
  unfolding ask request stream_requested session_request_stream
  request-Leaves d source dst st =
      let st1 = record st { contexts = get d st.contexts } in
      elim (Option-cases (find d st1.contexts)) [
        | inl lost ↦ ground (arith, lost)
        | inr (c, kept) ↦ elim (Option-cases (find source c.active_sources)) [
          | inl free ↦
              let sources = emplace source dst c.active_sources in
              let c' = record c { active_sources = sources } in
              subst (Leaves (ask (first_reader d source dst) (destination st)))
                (ground (arith, kept, free))
                (answer-Leaves session_request_stream session_request_stream-Leaves
                  c'.active_session source (set_context d c' st1)
                  (λ e s. ground (
                    arith,
                    set-destination d c c' st kept e s,
                    eq_iff d e,
                    eq_iff source s,
                    find-emplace source s dst c.active_sources,
                    get-destination d source st kept,
                    get-destination d s st kept,
                    free,
                  )))
          | inr (old, busy) ↦ elim (Bool-cases ndebug) [
            | inr debug ↦ ground (arith, kept, busy, debug)
            | inl release ↦
                subst (Leaves (ask (first_reader d source dst) (destination st)))
                  (ground (arith, kept, busy, release))
                  (answer-Leaves session_request_stream session_request_stream-Leaves
                    c.active_session source (set_context d c st1)
                    (λ e s. ground (
                      arith,
                      set-destination d c c st kept e s,
                      eq_iff d e,
                      eq_iff source s,
                      get-destination d source st kept,
                      get-destination d s st kept,
                      busy,
                    )))
          ]
        ]
      ]

  pub stop-Leaves :
      (d : DeviceId) (source : SourceId) (st : State)
      → Leaves (ask (last_reader d source) (destination st)) (stop ndebug d source st)
  unfolding ask stop stop_stream_requested session_stop_stream
  stop-Leaves d source st =
      let st1 = record st { contexts = get d st.contexts } in
      elim (Option-cases (find d st1.contexts)) [
        | inl lost ↦ ground (arith, lost)
        | inr (c, kept) ↦
            let c' = record c { active_sources = erase source c.active_sources } in
            subst (Leaves (ask (last_reader d source) (destination st))) (ground (arith, kept)) (
              answer-Leaves session_stop_stream session_stop_stream-Leaves c.active_session source
                (set_context d c' st1)
                (λ e s. ground (
                  arith,
                  set-destination d c c' st kept e s,
                  eq_iff d e,
                  eq_iff source s,
                  find-erase source s c.active_sources,
                  get-destination d s st kept,
                )))
      ]

  abbrev LeavesPair : Streams → Outcome (State × Bool) → Type 0
  LeavesPair w (ok (st, more)) = (d : DeviceId) (s : SourceId) → destination st d s ≡ w d s
  LeavesPair w (fault e) = Unit

  on_client_ready-Leaves :
      (id : ℕ) (session : Session) (st : State)
      → LeavesPair (destination st) (on_client_ready id session st)
  unfolding on_client_ready
  on_client_ready-Leaves id session st = elim (Option-cases session.session_context) [
    | inl loose ↦ ground (arith, loose)
    | inr (d, points) ↦ elim (Option-cases (find d st.contexts)) [
      | inl lost ↦ ground (arith, points, lost)
      | inr (c, kept) ↦ ground (arith, points, kept, post_all-Leaves id c.active_sources st)
    ]
  ]

  parse_message-Leaves :
      (config : Config) (protobuf : Protobuf) (type : MessageType) (body : String) (id : ℕ)
      (session : Session) (st : State)
      → LeavesPair (destination st) (parse_message config ndebug protobuf type body id session st)
  unfolding parse_message on_client_greeting on_client_config_request on_stream_status
  parse_message-Leaves config protobuf client_ready_message body id session st =
      ground (arith, on_client_ready-Leaves id session st)
  parse_message-Leaves config protobuf type body id session st = ground arith

  read_more-Leaves :
      (w : Streams) (id : ℕ) (m : Outcome (State × Bool))
      → LeavesPair w m
      → Leaves w (do
        (st, more) ← m
        ok (if more then update_session id (λ s. record s { reading = true }) st else st))
  read_more-Leaves w id (ok (st, true)) h = h
  read_more-Leaves w id (ok (st, false)) h = h
  read_more-Leaves w id (fault e) h = tt

  on_message-Leaves :
      (config : Config) (protobuf : Protobuf) (id : ℕ) (type : MessageType) (body : String)
      (failed : Bool) (st : State)
      → Leaves (destination st) (on_message config ndebug protobuf id type body failed st)
  unfolding on_message
  on_message-Leaves config protobuf id type body failed st = elim (Option-cases (find id st.live)) [
    | inl gone ↦ ground (arith, gone)
    | inr (s, live) ↦ elim (Bool-cases failed) [
      | inl error ↦ ground (arith, live, error)
      | inr read ↦
          let st1 = update_session id (λ s. record s { reading = false }) st in
          subst (Leaves (destination st)) (ground (arith, live, read)) (
            read_more-Leaves (destination st) id
              (parse_message config ndebug protobuf type body id s st1)
              (parse_message-Leaves config protobuf type body id s st1))
    ]
  ]

  handle-Leaves :
      (config : Config) (protobuf : Protobuf) (e : Event) (st : State)
      → Leaves (ask e (destination st)) (handle config ndebug protobuf e st)
  unfolding handle ask create
  handle-Leaves config protobuf (connection id) st = λ d s. refl
  handle-Leaves config protobuf (certificate id name) st = verify_client-Leaves id name st
  handle-Leaves config protobuf (handshake id failed) st = on_connected-Leaves config id failed st
  handle-Leaves config protobuf (message id type body failed) st =
      on_message-Leaves config protobuf id type body failed st
  handle-Leaves config protobuf (timer id cancelled) st = on_timer-Leaves id cancelled st
  handle-Leaves config protobuf task st = run_posted-Leaves st
  handle-Leaves config protobuf (disconnection id) st = destroy-Leaves id st
  handle-Leaves config protobuf (first_reader device source dst) st =
      request-Leaves device source dst st
  handle-Leaves config protobuf (last_reader device source) st = stop-Leaves device source st

  -- In a reachable server an allowed event that is answered runs to its end, and what it changes in the streams that
  -- the server asks of the devices is what `ask` says: the first reader of a source adds its
  -- destination where there is none, the last reader takes it away, and connections, messages, timers
  -- and tasks change nothing.
  pub handle-ask :
      (config : Config) (protobuf : Protobuf) (e : Event) (st : State)
      → Reachable config ndebug protobuf st
      → Allowed config ndebug protobuf e st
      → is_answered config ndebug protobuf e st ≡ true
      → (st' : State) × (handle config ndebug protobuf e st ≡ ok st')
        × ((d : DeviceId) (s : SourceId) → destination st' d s ≡ ask e (destination st) d s)
  handle-ask config protobuf e st r a answered =
      let (st', runs, next) = (handle-progress config ndebug protobuf e st r a).0 answered in
      (st', runs, subst (Leaves (ask e (destination st))) runs (handle-Leaves config protobuf e st))
