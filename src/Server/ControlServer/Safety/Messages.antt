-- ===== src/Server/ControlServer/Safety/Messages.antt =====
-- Server/ControlServer/ServerSession.cpp: the answers to the messages of a device.
use ip_cam_box.Prelude.{
  ℕ, ◌≡◌, refl, sym, subst, String, string_eq, Bool, true, false, ◌||◌, some, Outcome, ok, fault,
  ◌>>=◌, arith, is_some, is_empty, nat_eq, if◌then◌else◌, Option-cases, Bool-cases, inl, inr,
  null_pointer, assertion,
}
use ip_cam_box.Prelude.Assoc.{find}
use ip_cam_box.Server.Config.{Config}
use ip_cam_box.Server.ControlServer.Sessions.{should_stream, enum_active_streams}
use ip_cam_box.Server.ControlServer.Protocol.{
  MessageType, client_greeting_message, client_config_request_message, client_ready_message,
  stream_status_message, StreamStatus, Protobuf, server_greeting, client_config_reply,
}
use ip_cam_box.Server.ControlServer.ServerSession.{
  Session, State, update_session, write, post, on_client_greeting, on_client_ready,
  on_stream_status, refuse, on_client_config_request, parse_message, on_message,
}
use ip_cam_box.Server.ControlServer.Links.{context_of, update_session-SameLinks}
use ip_cam_box.Server.ControlServer.Safety.{IsSafe, Safe, Safe-ok, write-IsSafe}
use ip_cam_box.Server.ControlServer.Safety.Callbacks.{update_session-IsSafe, post_all-IsSafe}

module _ (ndebug : Bool) (config : Config) (protobuf : Protobuf) where
  -- The messages that the server knows and can parse.
  unfoldable pub is_readable : MessageType → String → Bool
  is_readable client_greeting_message body = protobuf.client_greeting body
  is_readable client_config_request_message body = protobuf.client_config_request body
  is_readable client_ready_message body = protobuf.client_ready body
  is_readable stream_status_message body = is_some (protobuf.stream_status body)
  is_readable _ body = false

  abbrev pub SafePair : Outcome (State × Bool) → Type 0
  SafePair (ok (st, more)) = IsSafe st
  SafePair (fault e) = ⊥

  pub SafePair-ok :
      {m : Outcome (State × Bool)} (st : State) (more : Bool)
      → m ≡ ok (st, more)
      → IsSafe st
      → SafePair m
  SafePair-ok st more e h = subst SafePair (sym e) h

  pub refuse-Safe : (st : State) → ndebug ≡ true → IsSafe st → SafePair (refuse ndebug st)
  refuse-Safe st e h = SafePair-ok st false (ground (arith, e)) h

  pub on_client_ready-Safe :
      (id : ℕ) (s : Session) (st : State)
      → s.session_context ≡ context_of st id
      → IsSafe st
      → SafePair (on_client_ready id s st)
  unfolding on_client_ready
  on_client_ready-Safe id s st own h = elim (Option-cases s.session_context) [
    | inl loose ↦ SafePair-ok st false (ground (arith, loose)) h
    | inr (d, points) ↦ elim (Option-cases (find d st.contexts)) [
      | inl lost ↦ ground (arith, own, points, h.links.held id d)
      | inr (c, kept) ↦
          SafePair-ok (enum_active_streams (λ source dst. post id source) c.active_sources st) true
            (ground (arith, points, kept))
            (post_all-IsSafe id c.active_sources st (ground (arith, own, points)) h)
    ]
  ]

  pub on_stream_status-Safe :
      (id : ℕ) (s : Session) (m : StreamStatus) (st : State)
      → s.session_context ≡ context_of st id
      → IsSafe st
      → SafePair (on_stream_status id s m st)
  unfolding on_stream_status
  on_stream_status-Safe id s m st own h = elim (Option-cases s.session_context) [
    | inl loose ↦ SafePair-ok st false (ground (arith, loose)) h
    | inr (d, points) ↦ elim (Bool-cases m.success) [
      | inl good ↦ SafePair-ok st true (ground (arith, points, good)) h
      | inr bad ↦ elim (Option-cases (find d st.contexts)) [
        | inl lost ↦ ground (arith, own, points, h.links.held id d)
        | inr (c, kept) ↦ elim (Option-cases (should_stream m.source_id c)) [
          | inl idle ↦ SafePair-ok st true (ground (arith, points, bad, kept, idle)) h
          | inr (dst, wanted) ↦
              SafePair-ok (update_session id (λ s. record s { retry = some m.source_id }) st) true
                (ground (arith, points, bad, kept, wanted))
                (update_session-IsSafe id _ st (λ s. refl) (λ s. refl)
                  (λ s r. inr (ground (arith, own, points))) h)
        ]
      ]
    ]
  ]

  pub parse_message-Safe :
      (type : MessageType) (body : String) (id : ℕ) (s : Session) (st : State)
      → s.session_context ≡ context_of st id
      → (ndebug || is_readable type body) ≡ true
      → IsSafe st
      → SafePair (parse_message config ndebug protobuf type body id s st)
  unfolding parse_message is_readable on_client_greeting on_client_config_request
  parse_message-Safe client_greeting_message body id s st own readable h =
      elim (Bool-cases (protobuf.client_greeting body)) [
        | inl parsed ↦
            SafePair-ok (write id server_greeting st) true (ground (arith, parsed))
              (write-IsSafe id _ st h)
        | inr garbled ↦ SafePair-ok st false (ground (arith, garbled, readable)) h
      ]
  parse_message-Safe client_config_request_message body id s st own readable h =
      elim (Bool-cases (protobuf.client_config_request body)) [
        | inl parsed ↦ elim (Bool-cases (is_empty s.device.id)) [
          | inl unknown ↦ SafePair-ok st false (ground (arith, parsed, unknown)) h
          | inr known ↦
              SafePair-ok
                (write id
                  (client_config_reply s.device.dropbox_token (config.device_sources s.device.id))
                  st)
                true (ground (arith, parsed, known)) (write-IsSafe id _ st h)
        ]
        | inr garbled ↦ SafePair-ok st false (ground (arith, garbled, readable)) h
      ]
  parse_message-Safe client_ready_message body id s st own readable h =
      elim (Bool-cases (protobuf.client_ready body)) [
        | inl parsed ↦ rw parsed (on_client_ready-Safe id s st own h)
        | inr garbled ↦ SafePair-ok st false (ground (arith, garbled, readable)) h
      ]
  parse_message-Safe stream_status_message body id s st own readable h =
      elim (Option-cases (protobuf.stream_status body)) [
        | inl garbled ↦ SafePair-ok st false (ground (arith, garbled, readable)) h
        | inr (m, parsed) ↦
            subst SafePair (ground (arith, parsed)) (on_stream_status-Safe id s m st own h)
      ]
  parse_message-Safe _ body id s st own readable h =
      SafePair-ok st false (ground (arith, readable)) h

  read_more-Safe :
      (id : ℕ) (m : Outcome (State × Bool))
      → SafePair m
      → Safe (do
        (st, more) ← m
        ok (if more then update_session id (λ s. record s { reading = true }) st else st))
  read_more-Safe id (ok (st, true)) h =
      update_session-IsSafe id _ st (λ s. refl) (λ s. refl) (λ s r. inl r) h
  read_more-Safe id (ok (st, false)) h = h
  read_more-Safe id (fault e) h = elim h [ ]

  pub on_message-Safe :
      (id : ℕ) (type : MessageType) (body : String) (failed : Bool) (st : State)
      → is_some (find id st.live) ≡ true
      → (failed || (ndebug || is_readable type body)) ≡ true
      → IsSafe st
      → Safe (on_message config ndebug protobuf id type body failed st)
  unfolding on_message
  on_message-Safe id type body failed st exists readable h = elim (Option-cases (find id st.live)) [
    | inl gone ↦ ground (arith, gone)
    | inr (s, live) ↦
        let f = λ (s : Session). record s { reading = false } in
        let st1 = update_session id f st in
        let safe : IsSafe st1 =
          update_session-IsSafe id f st (λ s. refl) (λ s. refl) (λ s r. inl r) h in
        let own : s.session_context ≡ context_of st1 id = ground (
          arith,
          live,
          (update_session-SameLinks id f st (λ s. refl) (λ s. refl)).same_context id,
        ) in
        elim (Bool-cases failed) [
          | inl error ↦ Safe-ok st1 (ground (arith, live, error)) safe
          | inr read ↦ subst Safe (ground (arith, live, read)) (
              read_more-Safe id (parse_message config ndebug protobuf type body id s st1)
                (parse_message-Safe type body id s st1 own (ground (arith, read, readable)) safe))
        ]
  ]

  parse_message_fails :
      (type : MessageType) (body : String) (id : ℕ) (s : Session) (st : State)
      → (ndebug || is_readable type body) ≡ false
      → parse_message config ndebug protobuf type body id s st ≡ fault assertion
  unfolding parse_message is_readable
  parse_message_fails client_greeting_message body id s st garbled = ground (arith, garbled)
  parse_message_fails client_config_request_message body id s st garbled = ground (arith, garbled)
  parse_message_fails client_ready_message body id s st garbled = ground (arith, garbled)
  parse_message_fails stream_status_message body id s st garbled = ground (arith, garbled)
  parse_message_fails _ body id s st garbled = ground (arith, garbled)

  -- In a debug build a message that arrives can be read.
  pub on_message_fails :
      (id : ℕ) (type : MessageType) (body : String) (failed : Bool) (st : State)
      → is_some (find id st.live) ≡ true
      → (failed || (ndebug || is_readable type body)) ≡ false
      → on_message config ndebug protobuf id type body failed st
        ≡ fault (if ndebug then null_pointer else assertion)
  unfolding on_message
  on_message_fails id type body failed st exists garbled = elim (Option-cases (find id st.live)) [
    | inl gone ↦ ground (arith, gone)
    | inr (s, live) ↦
        let st1 = update_session id (λ s. record s { reading = false }) st in
        ground
          (arith, live, garbled, parse_message_fails type body id s st1 (ground (arith, garbled)))
  ]
