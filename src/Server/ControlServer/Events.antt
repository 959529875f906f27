-- ===== src/Server/ControlServer/Events.antt =====
-- Server/ControlServer: the callbacks as events, and what their callers see to.
use ip_cam_box.Prelude.{
  ℕ, ◌≡◌, refl, subst, String, string_eq, Bool, true, false, not, ◌||◌, Option, none, some, [],
  Outcome, Fault, assertion, null_pointer, ok, fault, arith, is_some, is_empty, nat_eq, ◌==◌, All,
  if◌then◌else◌, Bool-cases, inl, inr,
}
use ip_cam_box.Prelude.Assoc.{find}
use ip_cam_box.Server.Config.{DeviceId, SourceId, Config}
use ip_cam_box.Server.ControlServer.Sessions.{StreamDst}
use ip_cam_box.Server.ControlServer.Protocol.{MessageType, Protobuf}
use ip_cam_box.Server.ControlServer.ServerSession.{
  State, create, verify_client, on_timer, run_posted, destroy, on_connected, on_message,
}
use ip_cam_box.Server.ControlServer.Requests.{request, stop}
use ip_cam_box.Server.ControlServer.Links.{context_of, name_of, holder}
use ip_cam_box.Server.ControlServer.Safety.{IsSafe, Safe, retry_of}
use ip_cam_box.Server.ControlServer.Safety.Callbacks.{
  create-IsSafe, verify_client-IsSafe, on_timer-Safe, run_posted-Safe,
}
use ip_cam_box.Server.ControlServer.Safety.Messages.{is_readable, on_message-Safe, on_message_fails}
use ip_cam_box.Server.ControlServer.Safety.Devices.{
  destination, request-Safe, stop-Safe, request_fails,
}
use ip_cam_box.Server.ControlServer.Safety.Attachment.{
  destroy-Safe, on_connected-Safe, destroy_fails,
}

-- A session is the number that the connection got.
pub data Event : Type 0 where
  connection : ℕ → Event
  certificate : ℕ → Option String → Event
  handshake : ℕ → Bool → Event
  message : ℕ → MessageType → String → Bool → Event
  timer : ℕ → Bool → Event
  task : Event
  disconnection : ℕ → Event
  first_reader : DeviceId → SourceId → StreamDst → Event
  last_reader : DeviceId → SourceId → Event

abbrev pub no_sessions : State
no_sessions = record { contexts = []; live = []; written = []; posted = [] }

pub Safe-runs : (m : Outcome State) → Safe m → (st : State) × (m ≡ ok st)
Safe-runs (ok st) h = (st, refl)
Safe-runs (fault e) h = elim h [ ]

module _ (config : Config) (ndebug : Bool) (protobuf : Protobuf) where
  unfoldable pub handle : Event → State → Outcome State
  handle (connection id) st = ok (create id st)
  handle (certificate id name) st = ok (verify_client id name st).0
  handle (handshake id failed) st = on_connected config ndebug id failed st
  handle (message id type body failed) st = on_message config ndebug protobuf id type body failed st
  handle (timer id cancelled) st = on_timer id cancelled st
  handle task st = run_posted st
  handle (disconnection id) st = destroy ndebug id st
  handle (first_reader device source dst) st = request ndebug device source dst st
  handle (last_reader device source) st = stop ndebug device source st

  -- When NetworkCore, asio and the restream server call. A new connection has a new number. The handshake
  -- of a connection comes once and ends with a verified name. A session that is called exists; one that
  -- goes has no task that waits, since the read that it starts after it has posted its tasks holds
  -- it, and ends after they have run.
  unfoldable pub Allowed : Event → State → Type 0
  Allowed (connection id) st = find id st.live ≡ none
  Allowed (certificate id name) st = context_of st id ≡ none
  Allowed (handshake id failed) st =
      (is_some (find id st.live) ≡ true)
      × (context_of st id ≡ none)
      × (is_empty (name_of st id) ≡ false)
  Allowed (message id type body failed) st = is_some (find id st.live) ≡ true
  Allowed (timer id cancelled) st = is_some (retry_of st id) ≡ true
  Allowed task st = Unit
  Allowed (disconnection id) st =
      (is_some (find id st.live) ≡ true) × All (λ p. (id == p.0) ≡ false) st.posted
  Allowed (first_reader device source dst) st = Unit
  Allowed (last_reader device source) st = Unit

  -- All events but three: in a debug build a message that cannot be read and a request for a stream
  -- that is active already, and in any build the end of a session that has a name and no context.
  unfoldable pub is_answered : Event → State → Bool
  is_answered (message id type body failed) st =
      failed || (ndebug || is_readable ndebug config protobuf type body)
  is_answered (disconnection id) st = is_empty (name_of st id) || is_some (context_of st id)
  is_answered (first_reader device source dst) st =
      ndebug || not (is_some (destination st device source))
  is_answered _ st = true

  -- An event that is answered runs to its end and leaves a safe server.
  handle-Safe :
      (e : Event) (st : State)
      → Allowed e st
      → is_answered e st ≡ true
      → IsSafe st
      → Safe (handle e st)
  unfolding handle Allowed is_answered
  handle-Safe (connection id) st fresh a h = create-IsSafe id st fresh h
  handle-Safe (certificate id name) st loose a h = verify_client-IsSafe id name st loose h
  handle-Safe (handshake id failed) st (exists, loose, verified) a h =
      on_connected-Safe ndebug config id failed st exists loose verified h
  handle-Safe (message id type body failed) st exists a h =
      on_message-Safe ndebug config protobuf id type body failed st exists a h
  handle-Safe (timer id cancelled) st waits a h = on_timer-Safe id cancelled st waits h
  handle-Safe task st allowed a h = run_posted-Safe st h
  handle-Safe (disconnection id) st (exists, done) a h = destroy-Safe ndebug id st exists a done h
  handle-Safe (first_reader device source dst) st allowed a h =
      request-Safe ndebug device source dst st a h
  handle-Safe (last_reader device source) st allowed a h = stop-Safe ndebug device source st h

  -- The others fail.
  abbrev pub failure : Fault
  failure = if ndebug then null_pointer else assertion

  handle_fails :
      (e : Event) (st : State)
      → Allowed e st
      → is_answered e st ≡ false
      → handle e st ≡ fault failure
  unfolding handle Allowed is_answered
  handle_fails (connection id) st allowed a = cc a
  handle_fails (certificate id name) st allowed a = cc a
  handle_fails (handshake id failed) st allowed a = cc a
  handle_fails (message id type body failed) st exists a =
      on_message_fails ndebug config protobuf id type body failed st exists a
  handle_fails (timer id cancelled) st allowed a = cc a
  handle_fails task st allowed a = cc a
  handle_fails (disconnection id) st (exists, done) a = destroy_fails ndebug id st exists a
  handle_fails (first_reader device source dst) st allowed a =
      request_fails ndebug device source dst st a
  handle_fails (last_reader device source) st allowed a = cc a

  -- What the server comes to by events that are allowed when they come.
  pub data Reachable : State → Type 0 where
    start : Reachable no_sessions
    step :
        {st st' : State} (e : Event)
        → Reachable st
        → Allowed e st
        → handle e st ≡ ok st'
        → Reachable st'

  pub no_sessions-IsSafe : IsSafe no_sessions
  unfolding find
  no_sessions-IsSafe = record {
    links = record {
      held = λ id d p. ground (arith, p);
      pointed = λ id d p. ground (arith, p);
      named = λ id d p. ground (arith, p);
    };
    retries = λ id r. ground (arith, r);
    tasks = tt;
  }

  answered-ok :
      (e : Event) (st st' : State) → Allowed e st → handle e st ≡ ok st' → is_answered e st ≡ true
  answered-ok e st st' allowed runs = elim (Bool-cases (is_answered e st)) [
    | inl answered ↦ answered
    | inr fails ↦ cc (runs, handle_fails e st allowed fails)
  ]

  pub Reachable-IsSafe : {st : State} → Reachable st → IsSafe st
  Reachable-IsSafe start = no_sessions-IsSafe
  Reachable-IsSafe (step {st} {st'} e r allowed runs) =
      subst Safe runs
        (handle-Safe e st allowed (answered-ok e st st' allowed runs) (Reachable-IsSafe r))

  -- In a reachable server an event that is allowed runs to its end, without a failed assertion and without
  -- an access through a null pointer, and leaves a reachable server, exactly if it is none of three: a
  -- message that arrives and cannot be read or a request for a stream that is active already, both
  -- in a debug build, and the end of a session that has a name and no context. These fail: an
  -- assertion in a debug build, and the access through a null pointer in another. Allowed are a connection
  -- with a new number, one handshake of a connection, with a verified name, calls of sessions that
  -- exist, and the end of a session of which no task waits.
  pub handle-progress :
      (e : Event) (st : State)
      → Reachable st
      → Allowed e st
      → (is_answered e st ≡ true → (st' : State) × (handle e st ≡ ok st') × Reachable st')
        × (is_answered e st ≡ false
            → handle e st ≡ fault (if ndebug then null_pointer else assertion))
  handle-progress e st r allowed = (
    λ answered.
        let (st', runs) =
          Safe-runs (handle e st) (handle-Safe e st allowed answered (Reachable-IsSafe r)) in
        (st', runs, step e r allowed runs),
    handle_fails e st allowed,
  )

  -- In a reachable server no two sessions point to the context of the same device, and the context
  -- of the device has the session as its active one.
  pub one_session :
      (st : State) (i j : ℕ) (d : DeviceId)
      → Reachable st
      → context_of st i ≡ some d
      → context_of st j ≡ some d
      → (i ≡ j) × (holder st d ≡ some i)
  one_session st i j d r at_i at_j =
      let links = (Reachable-IsSafe r).links in
      (ground (arith, links.held i d at_i, links.held j d at_j), links.held i d at_i)
